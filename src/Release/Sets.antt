-- ===== src/Release/Sets.antt =====
-- Which knowledge is active after publishKnowledgeBatch and publishCompensatingChanges.
use clideck_mcp.Prelude.{
  ℕ, Bool, true, false, Option, none, some, List, [], ◌∷◌, map, ◌==◌, ◌≡◌, ◌≢◌, refl, sym, ap, ◌∙◌,
  inl, inr, arith, All, Bool-cases, if◌then◌else◌,
}
use clideck_mcp.Release.Tables.{
  Entry, ActiveRow, Change, Tables, entry_of, revision_of, active_revision, upsert,
}
use clideck_mcp.Release.Publish.{
  released, release_requires_items, unique_violation, repeats_item, publish_knowledge_batch,
  publish_compensating_changes, add_release, differs, set_revision, batch_changes, unique_items,
  compensating_changes,
}
use clideck_mcp.Release.Replay.{
  overridden, revision_of-upsert, revision_of-apply_changes, set_revision-revision_of, untouched,
}
use clideck_mcp.Release.Distinct.{
  HasDistinctEntries, unique_items-HasDistinctEntries, batch_changes-All,
}

-- The last revision that a batch has for the item, and the old one where it has none.
abbrev pub last_revision : List Entry → ℕ → Option ℕ → Option ℕ
last_revision [] item old = old
last_revision (e ∷ es) item old =
    last_revision es item (if e.item_id == item then some e.revision_id else old)

-- The last wish for the item, and the old revision where there is none.
abbrev pub last_wanted : List (ℕ × Option ℕ) → ℕ → Option ℕ → Option ℕ
last_wanted [] item old = old
last_wanted ((at, revision) ∷ ws) item old =
    last_wanted ws item (if at == item then revision else old)

abbrev or_else : Option ℕ → Option ℕ → Option ℕ
or_else none old = old
or_else (some r) old = some r

or_else-if :
    (b : Bool) (r : ℕ) (x old : Option ℕ)
    → or_else (if b then some r else x) old ≡ (if b then some r else or_else x old)
or_else-if true r x old = refl
or_else-if false r x old = refl

last_revision-or_else :
    (es : List Entry) (item : ℕ) (x old : Option ℕ)
    → or_else (last_revision es item x) old ≡ last_revision es item (or_else x old)
last_revision-or_else [] item x old = refl
last_revision-or_else (e ∷ es) item x old =
    last_revision-or_else es item _ old
    ∙ ap (last_revision es item) (or_else-if (e.item_id == item) e.revision_id x old)

unique_items-last_revision :
    (item : ℕ) (seen es : List Entry)
    → revision_of item (unique_items seen es) ≡ last_revision es item (revision_of item seen)
unfolding unique_items
unique_items-last_revision item seen [] = refl
unique_items-last_revision item seen (e ∷ es) =
    unique_items-last_revision item (upsert e seen) es
    ∙ ap (last_revision es item) (revision_of-upsert item e seen)

same_revision : (a b : Option ℕ) → differs a b ≡ false → a ≡ b
same_revision none none h = refl
same_revision none (some b) h = cc
same_revision (some a) none h = cc
same_revision (some a) (some b) h = ap some (ground arith)

others_apart :
    (item at : ℕ) (active : List ActiveRow) (es : List Entry)
    → All (λ (x : Entry). x.item_id ≢ at) es
    → (at == item) ≡ true
    → All (λ (c : Change). (c.item_id == item) ≡ false) (batch_changes active es)
others_apart item at active es h hit =
    go (batch_changes active es) (batch_changes-All at active es h)
  where
    go :
        (cs : List Change)
        → All (λ (c : Change). c.item_id ≢ at) cs
        → All (λ (c : Change). (c.item_id == item) ≡ false) cs
    go [] k = tt
    go (c ∷ cs) (p, k) = (ground arith, go cs k)

-- The changes of a batch set each item of it, also where they skip it.
batch_overridden :
    (item : ℕ) (active : List ActiveRow) (es : List Entry)
    → HasDistinctEntries es
    → overridden (batch_changes active es) item (revision_of item (map entry_of active))
      ≡ or_else (revision_of item es) (revision_of item (map entry_of active))
unfolding batch_changes revision_of
batch_overridden item active [] d = refl
batch_overridden item active (e ∷ es) (fresh, d) = elim (Bool-cases (e.item_id == item)) [
  | inr miss ↦
      elim (Bool-cases
        (differs (revision_of e.item_id (map entry_of active)) (some e.revision_id))) [
          | inl new ↦
              let old = revision_of item (map entry_of active) in
              rw new (
                ap
                  (λ b.
                    overridden (batch_changes active es) item
                      (if b then some e.revision_id else old))
                  miss
                ∙ batch_overridden item active es d
                ∙ ap (λ b. or_else (if b then some e.revision_id else revision_of item es) old)
                    (sym miss))
          | inr old ↦ rw (old, miss) (batch_overridden item active es d)
        ]
  | inl hit ↦
      let others = others_apart item e.item_id active es fresh hit in
      elim (Bool-cases
        (differs (revision_of e.item_id (map entry_of active)) (some e.revision_id))) [
          | inl new ↦
              let old = revision_of item (map entry_of active) in
              rw new (
                ap
                  (λ b.
                    overridden (batch_changes active es) item
                      (if b then some e.revision_id else old))
                  hit
                ∙ (untouched (batch_changes active es) item (some e.revision_id) others).2
                ∙ ap (λ b. or_else (if b then some e.revision_id else revision_of item es) old)
                    (sym hit))
          | inr old ↦
              let here = revision_of e.item_id (map entry_of active) in
              let kept : here ≡ some e.revision_id = same_revision here (some e.revision_id) old in
              let at : e.item_id ≡ item = ground arith in
              rw (old, hit)
                ((untouched (batch_changes active es) item (revision_of item (map entry_of active))
                    others).2
                  ∙ ap (λ i. revision_of i (map entry_of active)) (sym at)
                  ∙ kept)
        ]
]

-- An empty batch is refused, whatever the tables. After publishKnowledgeBatch has released a batch,
-- each item that the batch names has the last revision that it gives for it, and every other item
-- has what it had.
pub publish_sets :
    (id sequence : ℕ) (items : List Entry) (t published : Tables)
    → publish_knowledge_batch id items t ≡ released id sequence published
    → (item : ℕ)
    → (publish_knowledge_batch id [] t ≡ release_requires_items)
      × (active_revision published item ≡ last_revision items item (active_revision t item))
unfolding publish_knowledge_batch add_release revision_of
publish_sets id sequence [] t published e item = cc
publish_sets id sequence (x ∷ xs) t published e item = (
  refl,
  let unique = unique_items [] (x ∷ xs) in
      let changes = batch_changes t.active_knowledge_state unique in
      let old = active_revision t item in
      ap (λ (s : Tables). active_revision s item) (sym (tables_of e))
      ∙ revision_of-apply_changes id item changes t.active_knowledge_state
      ∙ batch_overridden item t.active_knowledge_state unique
          (unique_items-HasDistinctEntries [] (x ∷ xs) tt)
      ∙ ap (λ r. or_else r old) (unique_items-last_revision item [] (x ∷ xs))
      ∙ last_revision-or_else (x ∷ xs) item none old,
)
  where
    made : Tables
    made = add_release id (batch_changes t.active_knowledge_state (unique_items [] (x ∷ xs))) t

    tables_of : released id t.next_sequence made ≡ released id sequence published → made ≡ published
    tables_of h = cc

compensated :
    (release item : ℕ) (ws : List (ℕ × Option ℕ)) (active : List ActiveRow)
    → overridden
        (compensating_changes release ws active)
        item
        (revision_of item (map entry_of active))
      ≡ last_wanted ws item (revision_of item (map entry_of active))
unfolding compensating_changes
compensated release item [] active = refl
compensated release item ((at, revision) ∷ ws) active =
    elim (Bool-cases (differs (revision_of at (map entry_of active)) revision)) [
      | inl new ↦
          let step = set_revision-revision_of release at item revision active in
          rw new (
            ap
              (overridden
                (compensating_changes release ws (set_revision release at revision active)) item)
              (sym step)
            ∙ compensated release item ws (set_revision release at revision active)
            ∙ ap (last_wanted ws item) step)
      | inr old ↦
          let kept = same_revision (revision_of at (map entry_of active)) revision old in
          rw old (compensated release item ws active ∙ ap (last_wanted ws item) (unchanged kept))
    ]
  where
    unchanged :
        revision_of at (map entry_of active) ≡ revision
        → revision_of item (map entry_of active)
          ≡ (if at == item then revision else revision_of item (map entry_of active))
    unchanged kept = elim (Bool-cases (at == item)) [
      | inr miss ↦ rw miss refl
      | inl hit ↦
          let same : at ≡ item = ground arith in
          rw hit (ap (λ i. revision_of i (map entry_of active)) (sym same) ∙ kept)
    ]

-- An empty list is refused, whatever the tables. After publishCompensatingChanges has released a
-- list of changes, no two of the changes that it recorded are of one item; each item that the list
-- names has the last revision wanted for it, or is inactive where none is wanted; and every other
-- item has what it had.
pub compensate_sets :
    (id sequence : ℕ) (wanted : List (ℕ × Option ℕ)) (t published : Tables)
    → publish_compensating_changes id wanted t ≡ released id sequence published
    → (item : ℕ)
    → (publish_compensating_changes id [] t ≡ release_requires_items)
      × (repeats_item (compensating_changes id wanted t.active_knowledge_state) ≡ false)
      × (active_revision published item ≡ last_wanted wanted item (active_revision t item))
unfolding publish_compensating_changes add_release
compensate_sets id sequence [] t published e item = cc
compensate_sets id sequence (w ∷ ws) t published e item =
    elim (Bool-cases (repeats_item (compensating_changes id (w ∷ ws) t.active_knowledge_state))) [
      | inl twice ↦
          absurd
            (let clash : unique_violation ≡ released id sequence published = rw twice at e in cc)
      | inr once ↦ (
        refl,
        once,
        ap (λ (s : Tables). active_revision s item) (sym (tables_of (rw once at e)))
            ∙ revision_of-apply_changes id item
                (compensating_changes id (w ∷ ws) t.active_knowledge_state) t.active_knowledge_state
            ∙ compensated id item (w ∷ ws) t.active_knowledge_state,
      )
    ]
  where
    made : Tables
    made = add_release id (compensating_changes id (w ∷ ws) t.active_knowledge_state) t

    tables_of : released id t.next_sequence made ≡ released id sequence published → made ≡ published
    tables_of h = cc
