-- ===== src/Release/Tests.antt =====
-- Runs of publications and activations, and the theorems at them.
use clideck_mcp.Prelude.{ℕ, false, none, some, [], ◌∷◌, ◌≡◌, refl, arith}
use clideck_mcp.Release.Tables.{
  Entry, Tables, active_revision, find_release, revision_of, upsert, activate_item, deactivate_item,
  rows_of,
}
use clideck_mcp.Release.Publish.{
  Published, released, release_requires_items, unique_violation, repeats_item,
  publish_knowledge_batch, publish_compensating_changes, add_release, batch_changes, unique_items,
  compensating_changes, apply_changes,
}
use clideck_mcp.Release.Activate.{
  Activation, switched, release_not_found, activate_knowledge_release, ancestry, desired_state,
  forward,
}
use clideck_mcp.Release.Restore.{IsFaithful}
use clideck_mcp.Release.History.{Step, publishes, compensates, here, next}
use clideck_mcp.Release.Restored.{Reach-IsFaithful, Activates, release_restored}
use clideck_mcp.Release.Sets.{last_revision, last_wanted, publish_sets, compensate_sets}

-- What a run unfolds.
runs : Unit {0}
unfolding publish_knowledge_batch publish_compensating_changes activate_knowledge_release
    find_release revision_of upsert activate_item deactivate_item unique_items batch_changes
    compensating_changes add_release apply_changes rows_of ancestry desired_state forward
runs = tt

abbrev at_revision : ℕ → ℕ → Entry
at_revision item revision = record { item_id = item; revision_id = revision }

abbrev no_releases : Tables
no_releases = record {
  releases = [];
  release_items = [];
  release_changes = [];
  active_knowledge_state = [];
  active_release = none;
  next_sequence = 1;
}

IsFaithful-no_releases : IsFaithful no_releases
IsFaithful-no_releases current e = cc

abbrev tables_of : Published → Tables
tables_of (released id sequence t) = t
tables_of _ = no_releases

abbrev after_activation : Activation → Tables
after_activation (switched target count t) = t
after_activation _ = no_releases

-- Release 10 of two items; release 11 changes one, repeats one and adds one.
abbrev first : Tables
first =
    tables_of (publish_knowledge_batch 10 (at_revision 1 100 ∷ at_revision 2 200 ∷ []) no_releases)

abbrev second : Tables
second = tables_of (
    publish_knowledge_batch 11
      (at_revision 1 101 ∷ at_revision 2 200 ∷ at_revision 3 300 ∷ at_revision 1 102 ∷ []) first)

-- Release 12 takes item 2 out.
abbrev third : Tables
third = tables_of (publish_compensating_changes 12 ((2, none) ∷ []) second)

repeated_item :
    second.release_changes
    ≡ (10, record { item_id = 1; previous_revision_id = none; new_revision_id = some 100 })
      ∷ (10, record { item_id = 2; previous_revision_id = none; new_revision_id = some 200 })
      ∷ (11, record { item_id = 1; previous_revision_id = some 100; new_revision_id = some 102 })
      ∷ (11, record { item_id = 3; previous_revision_id = none; new_revision_id = some 300 })
      ∷ []
unfolding runs
repeated_item = refl

taken_out : (active_revision third 1 ≡ some 102) × (active_revision third 2 ≡ none)
unfolding runs
taken_out = (refl, refl)

unknown_release : activate_knowledge_release 99 third ≡ release_not_found
unfolding runs
unknown_release = refl

empty_batch : publish_knowledge_batch 13 [] third ≡ release_requires_items
unfolding runs
empty_batch = refl

fresh_first : Step no_releases first
unfolding runs
fresh_first =
    publishes 10 (at_revision 1 100 ∷ at_revision 2 200 ∷ []) {sequence = 1} (tt, tt, tt) refl

Reach-IsFaithful_example : IsFaithful first
Reach-IsFaithful_example = Reach-IsFaithful (next here fresh_first) IsFaithful-no_releases

compensates_third : Step second third
unfolding runs
compensates_third =
    compensates 12 ((2, none) ∷ []) {sequence = 3}
      (
        ((λ e. omega arith), ((λ e. omega arith), tt)),
        ((λ e. omega arith), ((λ e. omega arith), tt)),
        ((λ e. omega arith), ((λ e. omega arith), ((λ e. omega arith), ((λ e. omega arith), tt)))),
      )
      (tt, tt) refl

release_restored_example : Activates third 11 (active_revision second)
unfolding runs
release_restored_example =
    release_restored first second third 11 2
      (at_revision 1 101 ∷ at_revision 2 200 ∷ at_revision 3 300 ∷ at_revision 1 102 ∷ [])
      Reach-IsFaithful_example
      (
        ((λ e. omega arith), tt),
        ((λ e. omega arith), ((λ e. omega arith), tt)),
        ((λ e. omega arith), ((λ e. omega arith), tt)),
      )
      refl (next here compensates_third)

publish_sets_example :
    (publish_knowledge_batch 11 [] first ≡ release_requires_items)
    × (active_revision second 1
        ≡ last_revision
            (at_revision 1 101 ∷ at_revision 2 200 ∷ at_revision 3 300 ∷ at_revision 1 102 ∷ [])
            1
            (active_revision first 1))
unfolding runs
publish_sets_example =
    publish_sets 11 2
      (at_revision 1 101 ∷ at_revision 2 200 ∷ at_revision 3 300 ∷ at_revision 1 102 ∷ []) first
      second refl 1

repeated_change :
    publish_compensating_changes 13 ((1, none) ∷ (1, some 100) ∷ []) third ≡ unique_violation
unfolding runs
repeated_change = refl

compensate_sets_example :
    (publish_compensating_changes 12 [] second ≡ release_requires_items)
    × (repeats_item (compensating_changes 12 ((2, none) ∷ []) second.active_knowledge_state)
        ≡ false)
    × (active_revision third 2 ≡ last_wanted ((2, none) ∷ []) 2 (active_revision second 2))
unfolding runs
compensate_sets_example = compensate_sets 12 3 ((2, none) ∷ []) second third refl 2
