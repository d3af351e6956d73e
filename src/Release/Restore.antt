-- ===== src/Release/Restore.antt =====
-- How the releases of src/domain/publication.ts are replayed in the tables with one more release.
use clideck_mcp.Prelude.{
  ℕ, Bool, true, false, Option, some, List, [], ◌∷◌, ◌++◌, map, ◌==◌, ◌≡◌, ◌≢◌, refl, sym, ap, ◌∙◌,
  inl, inr, arith, All, Bool-cases, Option-cases, if◌then◌else◌,
}
use clideck_mcp.Release.Tables.{
  delta, checkpoint, Release, Entry, ActiveRow, Change, Tables, entry_of, rows_of, rows_for,
  revision_of, active_revision,
}
use clideck_mcp.Release.Publish.{supersede, is_checkpoint, add_release}
use clideck_mcp.Release.Activate.{ancestry, desired_state, is_base, option_map, forward}
use clideck_mcp.Release.Replay.{
  overridden, revision_of-apply_changes, HasDistinctItems, revision_of-forward,
}
use clideck_mcp.Release.Keeps.{
  desired_state_cons, ancestry_own, ancestry_other, IsFresh, Restores, Agrees, supersede-KeepsLinks,
  state_kept, rows_of-append_other, rows_of-append_new,
}

-- The active release replays to the active knowledge.
abbrev pub IsFaithful : Tables → Type 0
IsFaithful t =
    (current : ℕ) → t.active_release ≡ some current → Restores t current (active_revision t)

items_agree :
    (t : Tables) (new : ℕ) (full : Bool) (items : List Entry) (changes : List Change)
    (active : List ActiveRow) (r : Release) (t' : Tables)
    → r.id ≢ new
    → t'.release_items ≡ (if full then t.release_items ++ rows_for new items else t.release_items)
    → t'.release_changes ≡ t.release_changes ++ rows_for new changes
    → Agrees t t' r
items_agree t new true items changes active r t' apart e e' = (
  ap (rows_of r.id) e ∙ rows_of-append_other r.id new t.release_items items apart,
  ap (rows_of r.id) e' ∙ rows_of-append_other r.id new t.release_changes changes apart,
)
items_agree t new false items changes active r t' apart e e' = (
  ap (rows_of r.id) e,
  ap (rows_of r.id) e' ∙ rows_of-append_other r.id new t.release_changes changes apart,
)

module _ (new : ℕ) (cs : List Change) (t : Tables) where
  after : Tables
  after = add_release new cs t

  add_release-Agrees :
      (rs : List Release)
      → All (λ (r : Release). r.id ≢ new) rs
      → All (Agrees t (add_release new cs t)) rs
  unfolding add_release
  add_release-Agrees [] h = tt
  add_release-Agrees (r ∷ rs) (apart, h) = (
    items_agree t new (is_checkpoint t.active_release t.next_sequence) _ cs [] r
        (add_release new cs t) apart refl refl,
    add_release-Agrees rs h,
  )

  -- The older releases, in the new tables.
  older_kept :
      (o : Option ℕ)
      → IsFresh new t
      → desired_state
          (add_release new cs t)
          (ancestry o (map (supersede t.active_release) t.releases))
        ≡ desired_state t (ancestry o t.releases)
  older_kept o fresh =
      state_kept t (add_release new cs t) (supersede t.active_release) o
        (supersede-KeepsLinks t.active_release) (add_release-Agrees t.releases fresh.0)

  releases_after :
      (r : Release) × ((add_release new cs t).releases
        ≡ r ∷ map (supersede t.active_release) t.releases)
      × (r.id ≡ new)
      × (r.parent_release_id ≡ t.active_release)
      × (r.release_mode
          ≡ (if is_checkpoint t.active_release t.next_sequence then checkpoint else delta))
  unfolding add_release
  releases_after = (_, refl, refl, refl, refl)

  pub add_release-Restores_old :
      (id : ℕ) (state : ℕ → Option ℕ)
      → IsFresh new t
      → id ≢ new
      → Restores t id state
      → Restores (add_release new cs t) id state
  add_release-Restores_old id state fresh apart (d, e, same) =
      let (r, rows, own, _, _) = releases_after in
      let miss : (r.id == id) ≡ false = ground arith in
      (
        d,
        ap (λ rs. desired_state (add_release new cs t) (ancestry (some id) rs)) rows
            ∙ ap (desired_state (add_release new cs t)) (ancestry_other id r _ miss)
            ∙ older_kept (some id) fresh
            ∙ e,
        same,
      )

  -- How the new release is replayed.
  new_replayed :
      desired_state (add_release new cs t) (ancestry (some new) (add_release new cs t).releases) ≡ (
        if is_base (if is_checkpoint t.active_release t.next_sequence then checkpoint else delta)
        then some (rows_of new (add_release new cs t).release_items)
        else option_map (forward (rows_of new (add_release new cs t).release_changes)) (
            desired_state
              (add_release new cs t)
              (ancestry t.active_release (map (supersede t.active_release) t.releases))))
  new_replayed =
      let (r, rows, own, parent, mode) = releases_after in
      let hit : (r.id == new) ≡ true = ground arith in
      ap (λ rs. desired_state (add_release new cs t) (ancestry (some new) rs)) rows
      ∙ ap (desired_state (add_release new cs t)) (ancestry_own new r _ hit)
      ∙ desired_state_cons (add_release new cs t) r _
      ∙ rw (own, parent, mode) refl

  new_rows :
      IsFresh new t
      → (rows_of new (add_release new cs t).release_changes ≡ cs)
        × (is_checkpoint t.active_release t.next_sequence ≡ true
            → rows_of new (add_release new cs t).release_items
              ≡ map entry_of (add_release new cs t).active_knowledge_state)
  unfolding add_release
  new_rows (_, items, changes) = (
    rows_of-append_new new t.release_changes cs changes,
    (λ full. rw full (rows_of-append_new new t.release_items _ items)),
  )

  active_after :
      (item : ℕ)
      → active_revision (add_release new cs t) item ≡ overridden cs item (active_revision t item)
  unfolding add_release
  active_after item = revision_of-apply_changes new item cs t.active_knowledge_state

  replayed_changes :
      HasDistinctItems cs
      → (item : ℕ) (d : List Entry) → revision_of item d ≡ active_revision t item
      → revision_of item (forward cs d) ≡ active_revision (add_release new cs t) item
  replayed_changes distinct item d same =
      revision_of-forward item cs d distinct
      ∙ ap (overridden cs item) same
      ∙ sym (active_after item)

  has_current :
      is_checkpoint t.active_release t.next_sequence ≡ false
      → (current : ℕ) × (t.active_release ≡ some current)
  has_current partial = elim (Option-cases t.active_release) [
    | inl nobody ↦ absurd (clash (rw nobody at partial))
    | inr found ↦ found
  ]
    where
      clash : true ≡ false → ⊥
      clash e = cc

  pub add_release-Restores_new :
      IsFresh new t
      → HasDistinctItems cs
      → IsFaithful t
      → Restores (add_release new cs t) new (active_revision (add_release new cs t))
  add_release-Restores_new fresh distinct faithful =
      let (changes, items) = new_rows fresh in
      elim (Bool-cases (is_checkpoint t.active_release t.next_sequence)) [
        | inl full ↦ (_, new_replayed ∙ rw full (ap some (items full)), (λ item. refl))
        | inr partial ↦
            let (current, active) = has_current partial in
            let (d, e, same) = faithful current active in
            let base =
              older_kept t.active_release fresh
              ∙ ap (λ o. desired_state t (ancestry o t.releases)) active
              ∙ e in
            (
              forward cs d,
              new_replayed
                  ∙ rw partial (
                      ap
                        (λ x. option_map (forward x) (
                          desired_state (add_release new cs t) (
                            ancestry t.active_release
                              (map (supersede t.active_release) t.releases))))
                        changes
                      ∙ ap (option_map (forward cs)) base),
              (λ item. replayed_changes distinct item d (same item)),
            )
      ]
