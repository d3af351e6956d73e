-- ===== src/Release/Restored.antt =====
-- activateKnowledgeRelease of src/domain/publication.ts after other publications, compensations and
-- activations.
use clideck_mcp.Prelude.{
  ℕ, Bool-cases, if◌then◌else◌, Option, some, List, [], ◌∷◌, ◌≡◌, refl, sym, ap, ◌∙◌, inl, inr,
  Option-cases, length,
}
use mathlib.Core.Path.{subst}
use clideck_mcp.Release.Tables.{Release, Entry, Change, Tables, active_revision, find_release}
use clideck_mcp.Release.Publish.{
  released, unique_violation, repeats_item, publish_knowledge_batch, publish_compensating_changes,
  add_release, batch_changes, unique_items, compensating_changes,
}
use clideck_mcp.Release.Activate.{switched, activate_knowledge_release, ancestry, desired_state}
use clideck_mcp.Release.Replay.{HasDistinctItems}
use clideck_mcp.Release.Keeps.{IsFresh, Restores}
use clideck_mcp.Release.Restore.{IsFaithful, add_release-Restores_old, add_release-Restores_new}
use clideck_mcp.Release.Distinct.{
  HasDistinctWanted, published-HasDistinctItems, compensating_changes-HasDistinctItems,
}
use clideck_mcp.Release.History.{
  publishes, compensates, activates, Reach, here, next, restores_nothing, Restores-fresh, not_found,
  switched_tables, revision_of-activated, switched-Restores, activation_inv,
}

-- The tables with one more release, of changes that name each item once.
abbrev Adds : ℕ → Tables → Tables → Type 0
Adds id t t' = (cs : List Change) × HasDistinctItems cs × (t' ≡ add_release id cs t)

publish-Adds :
    (id : ℕ) (items : List Entry) (sequence : ℕ) (t t' : Tables)
    → publish_knowledge_batch id items t ≡ released id sequence t'
    → Adds id t t'
unfolding publish_knowledge_batch
publish-Adds id [] sequence t t' e = cc
publish-Adds id (x ∷ xs) sequence t t' e =
    (_, published-HasDistinctItems t.active_knowledge_state (x ∷ xs), sym (tables_of e))
  where
    tables_of :
        released id t.next_sequence
            (add_release id (batch_changes t.active_knowledge_state (unique_items [] (x ∷ xs))) t)
          ≡ released id sequence t'
        → add_release id (batch_changes t.active_knowledge_state (unique_items [] (x ∷ xs))) t ≡ t'
    tables_of h = cc

compensate-Adds :
    (id : ℕ) (wanted : List (ℕ × Option ℕ)) (sequence : ℕ) (t t' : Tables)
    → HasDistinctWanted wanted
    → publish_compensating_changes id wanted t ≡ released id sequence t'
    → Adds id t t'
unfolding publish_compensating_changes
compensate-Adds id [] sequence t t' d e = cc
compensate-Adds id (w ∷ ws) sequence t t' d e = (
  _,
  compensating_changes-HasDistinctItems id (w ∷ ws) t.active_knowledge_state d,
  sym (tables_of (once e)),
)
  where
    changes : List Change
    changes = compensating_changes id (w ∷ ws) t.active_knowledge_state

    once :
        (if repeats_item changes
            then unique_violation
            else released id t.next_sequence (add_release id changes t))
          ≡ released id sequence t'
        → released id t.next_sequence (add_release id changes t) ≡ released id sequence t'
    once h = elim (Bool-cases (repeats_item changes)) [
      | inl twice ↦
          absurd (let clash : unique_violation ≡ released id sequence t' = rw twice at h in cc)
      | inr single ↦ rw single at h
    ]

    tables_of :
        released id t.next_sequence
            (add_release id (compensating_changes id (w ∷ ws) t.active_knowledge_state) t)
          ≡ released id sequence t'
        → add_release id (compensating_changes id (w ∷ ws) t.active_knowledge_state) t ≡ t'
    tables_of h = cc

Adds-old :
    (id old : ℕ) (t t' : Tables) (state : ℕ → Option ℕ)
    → IsFresh id t
    → Adds id t t'
    → Restores t old state
    → Restores t' old state
Adds-old id old t t' state fresh (cs, _, e) r =
    subst (λ x. Restores x old state) (sym e)
      (add_release-Restores_old id cs t old state fresh (Restores-fresh t old id state r fresh) r)

Adds-new :
    (id : ℕ) (t t' : Tables)
    → IsFresh id t
    → Adds id t t'
    → IsFaithful t
    → Restores t' id (active_revision t')
Adds-new id t t' fresh (cs, distinct, e) faithful =
    subst (λ x. Restores x id (active_revision x)) (sym e)
      (add_release-Restores_new id cs t fresh distinct faithful)

active_id : (id : ℕ) (t t' : Tables) → Adds id t t' → t'.active_release ≡ some id
unfolding add_release
active_id id t t' (cs, _, e) = ap (λ (x : Tables). x.active_release) e

Adds-IsFaithful :
    (id : ℕ) (t t' : Tables) → IsFresh id t → Adds id t t' → IsFaithful t → IsFaithful t'
Adds-IsFaithful id t t' fresh added faithful current e =
    let at = active_id id t t' added in
    let same : id ≡ current = cc in
    subst (λ x. Restores t' x (active_revision t')) same (Adds-new id t t' fresh added faithful)

activate-IsFaithful :
    (id : ℕ) (t t' : Tables) (target : Release) (count : ℕ)
    → activate_knowledge_release id t ≡ switched target count t'
    → IsFaithful t'
activate-IsFaithful id t t' target count e =
    let (d, replayed, same) = activation_inv id t t' target count e in
    subst IsFaithful (sym same) (go d replayed)
  where
    go :
        (d : List Entry)
        → desired_state t (ancestry (some id) t.releases) ≡ some d
        → IsFaithful (switched_tables id t d)
    go d replayed current e =
        let at : id ≡ current = cc in
        subst (λ x. Restores (switched_tables id t d) x (active_revision (switched_tables id t d)))
          at
          (switched-Restores id id t d (active_revision (switched_tables id t d))
            (d, replayed, (λ item. sym (revision_of-activated id item d))))

-- Whatever is published, compensated and activated, in any order: the release that is active
-- replays, from its nearest full list, to the knowledge that is active, if it did before.
pub Reach-IsFaithful : {t t' : Tables} → Reach t t' → IsFaithful t → IsFaithful t'
Reach-IsFaithful here faithful = faithful
Reach-IsFaithful (next {t' = mid} {t''} path (publishes id items {sequence} fresh e)) faithful =
    Adds-IsFaithful id mid t'' fresh (publish-Adds id items sequence mid t'' e)
      (Reach-IsFaithful path faithful)
Reach-IsFaithful (next {t' = mid} {t''} path (compensates id wanted {sequence} fresh d e))
      faithful =
    Adds-IsFaithful id mid t'' fresh (compensate-Adds id wanted sequence mid t'' d e)
      (Reach-IsFaithful path faithful)
Reach-IsFaithful (next {t' = mid} {t''} path (activates id {target} {count} e)) faithful =
    activate-IsFaithful id mid t'' target count e

Reach-Restores :
    {t t' : Tables} (old : ℕ) (state : ℕ → Option ℕ)
    → Reach t t'
    → Restores t old state
    → Restores t' old state
Reach-Restores old state here r = r
Reach-Restores old state (next {t' = mid} {t''} path (publishes id items {sequence} fresh e)) r =
    Adds-old id old mid t'' state fresh (publish-Adds id items sequence mid t'' e)
      (Reach-Restores old state path r)
Reach-Restores old state (next {t' = mid} {t''} path (compensates id wanted {sequence} fresh d e))
      r =
    Adds-old id old mid t'' state fresh (compensate-Adds id wanted sequence mid t'' d e)
      (Reach-Restores old state path r)
Reach-Restores old state (next {t' = mid} {t''} path (activates id {target} {count} e)) r =
    let (d, _, same) = activation_inv id mid t'' target count e in
    subst (λ x. Restores x old state) (sym same)
      (switched-Restores id old mid d state (Reach-Restores old state path r))

-- An activation of a release that restores a state succeeds and makes that state active.
abbrev pub Activates : Tables → ℕ → (ℕ → Option ℕ) → Type 0
Activates t id state =
    (target : Release) × (count : ℕ) × (t' : Tables) × (activate_knowledge_release id t
      ≡ switched target count t')
    × ((item : ℕ) → active_revision t' item ≡ state item)

Restores-Activates :
    (t : Tables) (id : ℕ) (state : ℕ → Option ℕ) → Restores t id state → Activates t id state
unfolding activate_knowledge_release
Restores-Activates t id state (d, e, same) = elim (Option-cases (find_release id t.releases)) [
  | inl missing ↦ absurd (restores_nothing t d _ (not_found id t.releases missing) e)
  | inr (r, found) ↦ (
    r,
    length d,
    switched_tables id t d,
    rw (found, e) refl,
    (λ item. revision_of-activated id item d ∙ same item),
  )
]

-- If the active release replays to the active knowledge, and publishKnowledgeBatch publishes a
-- batch as the release `id`, then after any later publications, compensations and activations,
-- activateKnowledgeRelease of `id` succeeds, and every item then has the revision, or none, that
-- it had right after that publication.
pub release_restored :
    (t published later : Tables) (id sequence : ℕ) (items : List Entry)
    → IsFaithful t
    → IsFresh id t
    → publish_knowledge_batch id items t ≡ released id sequence published
    → Reach published later
    → Activates later id (active_revision published)
release_restored t published later id sequence items faithful fresh e path =
    Restores-Activates later id (active_revision published) (
      Reach-Restores id (active_revision published) path
        (Adds-new id t published fresh (publish-Adds id items sequence t published e) faithful))
