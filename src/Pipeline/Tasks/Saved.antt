-- ===== src/Pipeline/Tasks/Saved.antt =====
-- What a saved change of the execution settings of src/domain/pipeline-execution.ts is.
use clideck_mcp.Prelude.{
  ℕ, ◌+◌, true, false, not, ◌||◌, Option, none, some, List, [], ◌∷◌, ◌++◌, String, ◌≡◌, ◌⊎◌, refl,
  ap, inl, inr, arith, All, ◌==◌, Bool-cases,
}
use clideck_mcp.Prelude.Table.{In, update_rows, select_rows, update_rows-All, All-map}
use clideck_mcp.Pipeline.Tasks.Tables.{ExecutionProfile, Store}
use clideck_mcp.Pipeline.Tasks.Execution.{
  Catalog, SettingsInput, execution_settings_conflict, execution_catalog_stale, codex_incompatible,
  execution_model_unsupported, saved, refused, supports, has_profile_id, is_changed, set_profile,
  set_profiles, is_stale_catalog, save, save_changed, audit_of, settings_event,
  set_execution_settings,
}

-- A profile of the table before, or one whose models the catalog offers.
abbrev pub IsFit : Catalog → List ExecutionProfile → ExecutionProfile → Type 0
IsFit c rows p = In p rows ⊎ (supports c p ≡ true)

supports-set : (c : Catalog) (p r : ExecutionProfile) → supports c (set_profile p r) ≡ supports c p
unfolding supports
supports-set c p r = refl

own_rows :
    (c : Catalog) (before rows : List ExecutionProfile)
    → ((p : ExecutionProfile) → In p rows → In p before)
    → All (IsFit c before) rows
own_rows c before [] h = tt
own_rows c before (p ∷ rows) h = (inl (h p (inl refl)), own_rows c before rows (λ q i. h q (inr i)))

set_row :
    (c : Catalog) (before : List ExecutionProfile) (p : ExecutionProfile)
    → supports c p ≡ true
    → (rows : List ExecutionProfile) → All (IsFit c before) rows
    → All (IsFit c before) (update_rows (has_profile_id p.profile_id) (set_profile p) rows)
set_row c before p s rows h =
    update_rows-All (IsFit c before) (has_profile_id p.profile_id) (set_profile p) rows (
      All-map (IsFit c before) _ (λ r fit. ((λ hit. inr (rw (supports-set c p r) s)), λ miss. fit))
        rows h)

set_profiles-IsFit :
    (c : Catalog) (before changed rows after : List ExecutionProfile)
    → All (IsFit c before) rows
    → set_profiles c changed rows ≡ some after
    → All (IsFit c before) after
unfolding set_profiles
set_profiles-IsFit c before [] rows after h e =
    let same : rows ≡ after = ground arith in rw (← same) h
set_profiles-IsFit c before (p ∷ changed) rows after h e = elim (Bool-cases (supports c p)) [
  | inl s ↦
      set_profiles-IsFit c before changed _ after (set_row c before p s rows h)
        (rw (s, set_profiles) at e)
  | inr no_model ↦ absurd (let no_rows : none ≡ some after = rw (no_model, set_profiles) at e in cc)
]

-- The tables after a change: the profiles, the capacity and the version are set, the change is
-- audited and told as an event, and nothing else.
abbrev pub with_settings :
    (actor_id actor_role : String) → SettingsInput → Store → List ExecutionProfile → Store
with_settings actor_id actor_role input db rows = record db {
  audit_events = db.audit_events ++ audit_of actor_id actor_role input db ∷ [];
  events = db.events ++ settings_event input db ∷ [];
  profiles = rows;
  settings = record db.settings {
    max_concurrent_ai_runs = input.max_concurrent_ai_runs;
    settings_version = db.settings.settings_version + 1;
  };
}

pub record Saves (actor_id actor_role : String) (c : Catalog) (input : SettingsInput) (db d : Store)
    : Type 0 where
  pub expected : db.settings.settings_version ≡ input.expected_version
  pub result : d ≡ with_settings actor_id actor_role input db d.profiles
  pub fit : All (IsFit c db.profiles) d.profiles

saved_inj : {d e : Store} → saved d ≡ saved e → d ≡ e
saved_inj h = cc

save-Saves :
    (actor_id actor_role : String) (c : Catalog) (input : SettingsInput) (db d : Store)
    (rows : Option (List ExecutionProfile))
    → db.settings.settings_version ≡ input.expected_version
    → ((after : List ExecutionProfile) → rows ≡ some after → All (IsFit c db.profiles) after)
    → save actor_id actor_role input db rows ≡ saved d
    → Saves actor_id actor_role c input db d
save-Saves actor_id actor_role c input db d none v fit h =
    absurd (let no_store : refused execution_model_unsupported ≡ saved d = h in cc)
save-Saves actor_id actor_role c input db d (some rows) v fit h =
    let same : with_settings actor_id actor_role input db rows ≡ d = saved_inj h in
    rw (← same) (record { expected = v; result = refl; fit = fit rows refl })

save_changed-Saves :
    (actor_id actor_role : String) (now : ℕ) (c : Catalog) (input : SettingsInput) (db d : Store)
    (changed : List ExecutionProfile)
    → db.settings.settings_version ≡ input.expected_version
    → save_changed actor_id actor_role now c input db changed ≡ saved d
    → Saves actor_id actor_role c input db d
save_changed-Saves actor_id actor_role now c input db d [] v h =
    save-Saves actor_id actor_role c input db d (some db.profiles) v
      (λ after e.
        let same : db.profiles ≡ after = ground arith in
        rw (← same) (own_rows c db.profiles db.profiles (λ p i. i)))
      h
save_changed-Saves actor_id actor_role now c input db d (p ∷ changed) v h =
    elim (Bool-cases (is_stale_catalog now c)) [
      | inl stale ↦ absurd (let r : refused execution_catalog_stale ≡ saved d = rw stale at h in cc)
      | inr fresh ↦
          elim (Bool-cases (not c.supports_structured_output || not c.supports_web_research)) [
            | inl lacks ↦
                absurd (let r : refused codex_incompatible ≡ saved d = rw (fresh, lacks) at h in cc)
            | inr has ↦
                save-Saves actor_id actor_role c input db d
                  (set_profiles c (p ∷ changed) db.profiles) v
                  (λ after.
                    set_profiles-IsFit c db.profiles (p ∷ changed) db.profiles after
                      (own_rows c db.profiles db.profiles (λ q i. i)))
                  (rw (fresh, has) at h)
          ]
    ]

other_version :
    (after before expected : ℕ) {version : ℕ}
    → after ≡ before + 1
    → before ≡ version
    → expected ≡ version
    → (after == expected) ≡ false
other_version after before expected p q r = ground arith

-- If a change of the execution settings is saved, the version in the table was the one the change
-- expected, and is then one more; the capacity is the one of the change, and every profile is as it
-- was or runs only on models that the catalog offers with their effort. One audit row of the actor
-- and one event are added, both with the settings before and after, and nothing else changes. A
-- second change that expects the same version is then refused as a conflict, whoever makes it, at
-- any later time and whatever the catalog.
pub set_execution_settings-Saves :
    (actor_id actor_role other_id other_role : String) (now later : ℕ) (c c' : Catalog)
    (first second : SettingsInput) (db d : Store)
    → second.expected_version ≡ first.expected_version
    → set_execution_settings actor_id actor_role now c first db ≡ saved d
    → Saves actor_id actor_role c first db d
      × (set_execution_settings other_id other_role later c' second d
          ≡ refused execution_settings_conflict)
unfolding set_execution_settings
set_execution_settings-Saves actor_id actor_role other_id other_role now later c c' first second db
      d same h =
    elim (Bool-cases (db.settings.settings_version == first.expected_version)) [
      | inr other ↦
          absurd (let r : refused execution_settings_conflict ≡ saved d = rw other at h in cc)
      | inl current ↦
          let s : Saves actor_id actor_role c first db d =
            save_changed-Saves actor_id actor_role now c first db d
              (select_rows (is_changed db.profiles) first.profiles) (ground arith)
              (rw current at h) in
          let next = ap (λ (x : Store). x.settings.settings_version) s.result in
          (s, rw (other_version _ _ _ next s.expected same) refl)
    ]
