-- ===== src/Pipeline/Tasks/Tests/Settings.antt =====
-- A change of the execution settings: the profile `luna` gets another model.
use clideck_mcp.Prelude.{String, true, none, [], ◌∷◌, ◌≡◌, refl}
use clideck_mcp.Prelude.Table.{update_rows}
use clideck_mcp.Pipeline.Tasks.Tables.{ExecutionProfile, Store}
use clideck_mcp.Pipeline.Tasks.Execution.{
  Catalog, CatalogReport, publish_execution_catalog, SettingsInput, saved, refused,
  execution_settings_conflict, execution_catalog_stale, execution_model_unsupported,
  set_execution_settings,
}
use clideck_mcp.Pipeline.Tasks.Saved.{Saves, with_settings, set_execution_settings-Saves}
use clideck_mcp.Pipeline.Tasks.Tests.{no_tasks, luna_high}

abbrev no_catalog : Catalog
no_catalog = record {
  models = [];
  supports_structured_output = true;
  supports_web_research = true;
  error = none;
  last_success_at = none;
}

abbrev report : CatalogReport
report = record {
  models = record { model = "gpt-5.6-terra"; reasoning_efforts = "low" ∷ "medium" ∷ [] } ∷ [];
  supports_structured_output = true;
  supports_web_research = true;
  error = none;
}

abbrev catalog : Catalog
catalog = publish_execution_catalog 100 report no_catalog

abbrev terra : String → ExecutionProfile
terra effort = record {
  profile_id = "luna";
  model = "gpt-5.6-terra";
  reasoning_effort = effort;
  fallback = none;
}

abbrev change : String → SettingsInput
change effort = record {
  expected_version = 1;
  max_concurrent_ai_runs = 4;
  profiles = terra effort ∷ luna_high ∷ [];
}

abbrev changed_store : Store
changed_store = with_settings "a" "admin" (change "low") no_tasks (terra "low" ∷ luna_high ∷ [])

change_saved :
    set_execution_settings "a" "admin" 200 catalog (change "low") no_tasks ≡ saved changed_store
unfolding set_execution_settings publish_execution_catalog update_rows
change_saved = refl

effort_unsupported :
    set_execution_settings "a" "admin" 200 catalog (change "high") no_tasks
    ≡ refused execution_model_unsupported
unfolding set_execution_settings publish_execution_catalog update_rows
effort_unsupported = refl

catalog_too_old :
    set_execution_settings "a" "admin" 1001 catalog (change "low") no_tasks
    ≡ refused execution_catalog_stale
unfolding set_execution_settings publish_execution_catalog update_rows
catalog_too_old = refl

set_execution_settings-Saves_example :
    Saves "a" "admin" catalog (change "low") no_tasks changed_store
    × (set_execution_settings "b" "admin" 300 catalog (change "medium") changed_store
        ≡ refused execution_settings_conflict)
set_execution_settings-Saves_example =
    set_execution_settings-Saves "a" "admin" "b" "admin" 200 300 catalog catalog (change "low")
      (change "medium") no_tasks changed_store refl change_saved
