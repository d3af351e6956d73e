-- ===== src/Pipeline/Tasks/Execution.antt =====
-- The execution settings of src/domain/pipeline-execution.ts: publishExecutionCatalog and
-- setExecutionSettings. A transaction that throws leaves the tables as they were.
use clideck_mcp.Prelude.{
  ℕ, ◌+◌, ◌*◌, String, Bool, true, false, ◌&&◌, ◌||◌, not, Option, none, some, List, [], ◌∷◌, ◌++◌,
  ltb, ◌==◌, if◌then◌else◌, str_eq, includes,
}
use clideck_mcp.Prelude.Table.{update_rows, select_rows, first_row}
use clideck_mcp.Pipeline.Tasks.Tables.{
  ExecutionProfile, Store, Metadata, settings_change, AuditEvent, PipelineEvent, PipelineStage,
  EventType,
}
use clideck_mcp.Pipeline.Tasks.Circuits.{is_none}

pub record CatalogModel : Type 0 where
  pub model : String
  pub reasoning_efforts : List String

-- pipeline_runtime_catalog.
pub record Catalog : Type 0 where
  pub models : List CatalogModel
  pub supports_structured_output : Bool
  pub supports_web_research : Bool
  pub error : Option String
  pub last_success_at : Option ℕ

-- The report of a coordinator. On an error the last models stay.
pub record CatalogReport : Type 0 where
  pub models : List CatalogModel
  pub supports_structured_output : Bool
  pub supports_web_research : Bool
  pub error : Option String

unfoldable pub publish_execution_catalog : ℕ → CatalogReport → Catalog → Catalog
publish_execution_catalog now report c = record {
  models = if is_none report.error then report.models else c.models;
  supports_structured_output = report.supports_structured_output;
  supports_web_research = report.supports_web_research;
  error = report.error;
  last_success_at = if is_none report.error then some now else c.last_success_at;
}

pub record SettingsInput : Type 0 where
  pub expected_version : ℕ
  pub max_concurrent_ai_runs : ℕ
  pub profiles : List ExecutionProfile

pub data SettingsError : Type 0 where
  execution_settings_conflict execution_catalog_stale codex_incompatible : SettingsError
  execution_model_unsupported : SettingsError

pub data SettingsResult : Type 0 where
  saved : Store → SettingsResult
  refused : SettingsError → SettingsResult

-- `JSON.stringify(profile) === JSON.stringify(old)`: the same fields in the same order.
abbrev same_fallback : Option (String × String) → Option (String × String) → Bool
same_fallback none none = true
same_fallback (some (m, e)) (some (n, f)) = str_eq m n && str_eq e f
same_fallback _ _ = false

abbrev pub same_profile : ExecutionProfile → ExecutionProfile → Bool
same_profile p q =
    str_eq p.profile_id q.profile_id
    && str_eq p.model q.model
    && str_eq p.reasoning_effort q.reasoning_effort
    && same_fallback p.fallback q.fallback

abbrev pub has_profile_id : String → ExecutionProfile → Bool
has_profile_id id p = str_eq p.profile_id id

abbrev pub is_unchanged : ExecutionProfile → Option ExecutionProfile → Bool
is_unchanged p none = false
is_unchanged p (some old) = same_profile p old

abbrev pub is_changed : List ExecutionProfile → ExecutionProfile → Bool
is_changed rows p = not (is_unchanged p (first_row (has_profile_id p.profile_id) rows))

-- The first entry of the catalog for the model, with the effort.
abbrev has_model : String → CatalogModel → Bool
has_model model m = str_eq m.model model

abbrev has_effort : String → Option CatalogModel → Bool
has_effort effort none = false
has_effort effort (some m) = includes m.reasoning_efforts effort

abbrev pub offers : Catalog → String → String → Bool
offers c model effort = has_effort effort (first_row (has_model model) c.models)

abbrev offers_fallback : Catalog → Option (String × String) → Bool
offers_fallback c none = true
offers_fallback c (some (model, effort)) = offers c model effort

unfoldable pub supports : Catalog → ExecutionProfile → Bool
supports c p = offers c p.model p.reasoning_effort && offers_fallback c p.fallback

abbrev pub set_profile : ExecutionProfile → ExecutionProfile → ExecutionProfile
set_profile p row = record row {
  model = p.model;
  reasoning_effort = p.reasoning_effort;
  fallback = p.fallback;
}

-- `for (const profile of changed)`, up to the first that the catalog does not support.
unfoldable pub set_profiles :
    Catalog → List ExecutionProfile → List ExecutionProfile → Option (List ExecutionProfile)
set_profiles c [] rows = some rows
set_profiles c (p ∷ changed) rows =
    let rest =
      set_profiles c changed (update_rows (has_profile_id p.profile_id) (set_profile p) rows) in
    if supports c p then rest else none

-- `catalogMaxAgeMs`, in seconds.
abbrev pub catalog_max_age : ℕ
catalog_max_age = 15 * 60

abbrev pub is_stale_catalog : ℕ → Catalog → Bool
is_stale_catalog now c = elim c.last_success_at as (λ _. Bool) [
  | none ↦ true
  | some t ↦ not (is_none c.error) || ltb (t + catalog_max_age) now
]

-- The metadata of the two rows: the settings before and after.
abbrev pub change_of : SettingsInput → Store → Metadata
change_of input db =
    settings_change db.settings.settings_version db.settings.max_concurrent_ai_runs db.profiles
      input.expected_version input.max_concurrent_ai_runs input.profiles

abbrev pub audit_of : (actor_id actor_role : String) → SettingsInput → Store → AuditEvent
audit_of actor_id actor_role input db = record {
  actor_id = actor_id;
  actor_role = actor_role;
  action = "pipeline.execution_settings";
  target_type = "pipeline";
  metadata = change_of input db;
}

abbrev pub settings_event : SettingsInput → Store → PipelineEvent
settings_event input db = record {
  task_id = none;
  source_id = none;
  stage = PipelineStage.system;
  event = EventType.progress;
  message = "Agent capacity and execution profiles updated.";
  metadata = change_of input db;
}

abbrev pub save :
    (actor_id actor_role : String)
    → SettingsInput
    → Store
    → Option (List ExecutionProfile)
    → SettingsResult
save actor_id actor_role input db none = refused execution_model_unsupported
save actor_id actor_role input db (some rows) = saved (record db {
  profiles = rows;
  settings = record db.settings {
    max_concurrent_ai_runs = input.max_concurrent_ai_runs;
    settings_version = db.settings.settings_version + 1;
  };
  audit_events = db.audit_events ++ audit_of actor_id actor_role input db ∷ [];
  events = db.events ++ settings_event input db ∷ [];
})

abbrev pub save_changed :
    (actor_id actor_role : String)
    → ℕ
    → Catalog
    → SettingsInput
    → Store
    → List ExecutionProfile
    → SettingsResult
save_changed actor_id actor_role now c input db [] =
    save actor_id actor_role input db (some db.profiles)
save_changed actor_id actor_role now c input db (p ∷ changed) =
    if is_stale_catalog now c
    then refused execution_catalog_stale
    else if not c.supports_structured_output || not c.supports_web_research
    then refused codex_incompatible
    else save actor_id actor_role input db (set_profiles c (p ∷ changed) db.profiles)

unfoldable pub set_execution_settings :
    (actor_id actor_role : String) → ℕ → Catalog → SettingsInput → Store → SettingsResult
unfolding set_profiles supports select_rows first_row
set_execution_settings actor_id actor_role now c input db =
    if not (db.settings.settings_version == input.expected_version)
    then refused execution_settings_conflict
    else save_changed actor_id actor_role now c input db
        (select_rows (is_changed db.profiles) input.profiles)
