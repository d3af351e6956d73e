-- ===== src/Release/Distinct.antt =====
-- The items of the changes that publishKnowledgeBatch and publishCompensatingChanges record.
use clideck_mcp.Prelude.{
  ℕ, Option, some, List, [], ◌∷◌, map, ◌==◌, ◌≡◌, ◌≢◌, inl, inr, arith, All, Bool-cases,
}
use clideck_mcp.Release.Tables.{Entry, ActiveRow, Change, entry_of, revision_of, upsert}
use clideck_mcp.Release.Publish.{
  unique_items, batch_changes, compensating_changes, differs, set_revision,
}
use clideck_mcp.Release.Replay.{HasDistinctItems}

abbrev pub HasDistinctEntries : List Entry → Type 0
HasDistinctEntries [] = Unit
HasDistinctEntries (e ∷ es) = All (λ (x : Entry). x.item_id ≢ e.item_id) es × HasDistinctEntries es

upsert-All :
    (item : ℕ) (e : Entry) (xs : List Entry)
    → e.item_id ≢ item
    → All (λ (x : Entry). x.item_id ≢ item) xs
    → All (λ (x : Entry). x.item_id ≢ item) (upsert e xs)
unfolding upsert
upsert-All item e [] apart h = (apart, tt)
upsert-All item e (x ∷ xs) apart (p, h) = elim (Bool-cases (x.item_id == e.item_id)) [
  | inl hit ↦ rw hit (apart, h)
  | inr miss ↦ rw miss (p, upsert-All item e xs apart h)
]

rename_item :
    (a b : ℕ) (xs : List Entry)
    → a ≡ b
    → All (λ (x : Entry). x.item_id ≢ a) xs
    → All (λ (x : Entry). x.item_id ≢ b) xs
rename_item a b xs e h = rw (← e) h

upsert-HasDistinctEntries :
    (e : Entry) (xs : List Entry) → HasDistinctEntries xs → HasDistinctEntries (upsert e xs)
unfolding upsert
upsert-HasDistinctEntries e [] d = (tt, tt)
upsert-HasDistinctEntries e (x ∷ xs) (fresh, d) = elim (Bool-cases (x.item_id == e.item_id)) [
  | inl hit ↦
      let same : x.item_id ≡ e.item_id = ground arith in
      rw hit (rename_item x.item_id e.item_id xs same fresh, d)
  | inr miss ↦
      let apart : e.item_id ≢ x.item_id = ground arith in
      rw miss (upsert-All x.item_id e xs apart fresh, upsert-HasDistinctEntries e xs d)
]

pub unique_items-HasDistinctEntries :
    (seen es : List Entry) → HasDistinctEntries seen → HasDistinctEntries (unique_items seen es)
unfolding unique_items
unique_items-HasDistinctEntries seen [] d = d
unique_items-HasDistinctEntries seen (e ∷ es) d =
    unique_items-HasDistinctEntries (upsert e seen) es (upsert-HasDistinctEntries e seen d)

pub batch_changes-All :
    (item : ℕ) (active : List ActiveRow) (es : List Entry)
    → All (λ (x : Entry). x.item_id ≢ item) es
    → All (λ (c : Change). c.item_id ≢ item) (batch_changes active es)
unfolding batch_changes
batch_changes-All item active [] h = tt
batch_changes-All item active (e ∷ es) (p, h) =
    let rest = batch_changes-All item active es h in
    elim (Bool-cases (differs (revision_of e.item_id (map entry_of active)) (some e.revision_id))) [
      | inl new ↦ rw new (p, rest)
      | inr old ↦ rw old rest
    ]

batch_changes-HasDistinctItems :
    (active : List ActiveRow) (es : List Entry)
    → HasDistinctEntries es
    → HasDistinctItems (batch_changes active es)
unfolding batch_changes
batch_changes-HasDistinctItems active [] d = tt
batch_changes-HasDistinctItems active (e ∷ es) (fresh, d) =
    let rest = batch_changes-HasDistinctItems active es d in
    elim (Bool-cases (differs (revision_of e.item_id (map entry_of active)) (some e.revision_id))) [
      | inl new ↦ rw new (batch_changes-All e.item_id active es fresh, rest)
      | inr old ↦ rw old rest
    ]

pub published-HasDistinctItems :
    (active : List ActiveRow) (es : List Entry)
    → HasDistinctItems (batch_changes active (unique_items [] es))
published-HasDistinctItems active es =
    batch_changes-HasDistinctItems active (unique_items [] es)
      (unique_items-HasDistinctEntries [] es tt)

-- The items of wanted changes: the callers select them with DISTINCT and GROUP BY.
abbrev pub HasDistinctWanted : List (ℕ × Option ℕ) → Type 0
HasDistinctWanted [] = Unit
HasDistinctWanted (w ∷ ws) = All (λ (v : ℕ × Option ℕ). v.0 ≢ w.0) ws × HasDistinctWanted ws

compensating_changes-All :
    (item release : ℕ) (ws : List (ℕ × Option ℕ)) (active : List ActiveRow)
    → All (λ (v : ℕ × Option ℕ). v.0 ≢ item) ws
    → All (λ (c : Change). c.item_id ≢ item) (compensating_changes release ws active)
unfolding compensating_changes
compensating_changes-All item release [] active h = tt
compensating_changes-All item release ((at, revision) ∷ ws) active (p, h) =
    elim (Bool-cases (differs (revision_of at (map entry_of active)) revision)) [
      | inl new ↦
          rw new (
            p,
            compensating_changes-All item release ws (set_revision release at revision active) h,
          )
      | inr old ↦ rw old (compensating_changes-All item release ws active h)
    ]

pub compensating_changes-HasDistinctItems :
    (release : ℕ) (ws : List (ℕ × Option ℕ)) (active : List ActiveRow)
    → HasDistinctWanted ws
    → HasDistinctItems (compensating_changes release ws active)
unfolding compensating_changes
compensating_changes-HasDistinctItems release [] active d = tt
compensating_changes-HasDistinctItems release ((at, revision) ∷ ws) active (fresh, d) =
    elim (Bool-cases (differs (revision_of at (map entry_of active)) revision)) [
      | inl new ↦ rw new (
        compensating_changes-All at release ws (set_revision release at revision active) fresh,
        compensating_changes-HasDistinctItems release ws (set_revision release at revision active)
            d,
      )
      | inr old ↦ rw old (compensating_changes-HasDistinctItems release ws active d)
    ]
