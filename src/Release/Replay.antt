-- ===== src/Release/Replay.antt =====
-- What a list of changes does to the revision of an item, in the loop that publishes it and in the
-- statements that replay it.
use clideck_mcp.Prelude.{
  ℕ, true, false, Option, none, some, List, [], ◌∷◌, map, ◌==◌, ◌≡◌, ◌≢◌, refl, sym, ap, ◌∙◌, inl,
  inr, arith, All, Bool-cases, if◌then◌else◌,
}
use clideck_mcp.Release.Tables.{
  Entry, ActiveRow, Change, entry_of, revision_of, upsert, remove, activate_item, deactivate_item,
}
use clideck_mcp.Release.Publish.{set_revision, apply_changes}
use clideck_mcp.Release.Activate.{
  upsert_change, upsert_changes, remove_change, remove_changes, forward,
}

pub revision_of-upsert :
    (item : ℕ) (e : Entry) (xs : List Entry)
    → revision_of item (upsert e xs)
      ≡ (if e.item_id == item then some e.revision_id else revision_of item xs)
unfolding revision_of upsert
revision_of-upsert item e [] = refl
revision_of-upsert item e (x ∷ xs) = let rest = revision_of-upsert item e xs in ground arith

revision_of-remove :
    (item gone : ℕ) (xs : List Entry)
    → revision_of item (remove gone xs) ≡ (if gone == item then none else revision_of item xs)
unfolding revision_of remove
revision_of-remove item gone [] = ground arith
revision_of-remove item gone (x ∷ xs) = let rest = revision_of-remove item gone xs in ground arith

activate_item-upsert :
    (release : ℕ) (e : Entry) (xs : List ActiveRow)
    → map entry_of (activate_item release e xs) ≡ upsert e (map entry_of xs)
unfolding activate_item upsert
activate_item-upsert release e [] = refl
activate_item-upsert release e (x ∷ xs) = elim (Bool-cases (x.item_id == e.item_id)) [
  | inl hit ↦ rw hit refl
  | inr miss ↦ rw miss (ap (λ ys. entry_of x ∷ ys) (activate_item-upsert release e xs))
]

deactivate_item-remove :
    (gone : ℕ) (xs : List ActiveRow)
    → map entry_of (deactivate_item gone xs) ≡ remove gone (map entry_of xs)
unfolding deactivate_item remove
deactivate_item-remove gone [] = refl
deactivate_item-remove gone (x ∷ xs) = elim (Bool-cases (x.item_id == gone)) [
  | inl hit ↦ rw hit (deactivate_item-remove gone xs)
  | inr miss ↦ rw miss (ap (λ ys. entry_of x ∷ ys) (deactivate_item-remove gone xs))
]

-- The revision of an item after changes, of the one before them.
abbrev pub overridden : List Change → ℕ → Option ℕ → Option ℕ
overridden [] item old = old
overridden (c ∷ cs) item old =
    overridden cs item (if c.item_id == item then c.new_revision_id else old)

pub set_revision-revision_of :
    (release changed item : ℕ) (revision : Option ℕ) (active : List ActiveRow)
    → revision_of item (map entry_of (set_revision release changed revision active))
      ≡ (if changed == item then revision else revision_of item (map entry_of active))
set_revision-revision_of release changed item none active =
    rw (deactivate_item-remove changed active)
      (revision_of-remove item changed (map entry_of active))
set_revision-revision_of release changed item (some revision) active =
    rw (activate_item-upsert release (record { item_id = changed; revision_id = revision }) active)
      (revision_of-upsert item _ (map entry_of active))

pub revision_of-apply_changes :
    (release item : ℕ) (cs : List Change) (active : List ActiveRow)
    → revision_of item (map entry_of (apply_changes release cs active))
      ≡ overridden cs item (revision_of item (map entry_of active))
unfolding apply_changes
revision_of-apply_changes release item [] active = refl
revision_of-apply_changes release item (c ∷ cs) active =
    revision_of-apply_changes release item cs
      (set_revision release c.item_id c.new_revision_id active)
    ∙ ap (overridden cs item)
        (set_revision-revision_of release c.item_id item c.new_revision_id active)

-- Each item is changed once: the primary key of `release_changes` in one release.
abbrev pub HasDistinctItems : List Change → Type 0
HasDistinctItems [] = Unit
HasDistinctItems (c ∷ cs) = All (λ (d : Change). d.item_id ≢ c.item_id) cs × HasDistinctItems cs

abbrev upserted : ℕ → ℕ → Option ℕ → Option ℕ → Option ℕ
upserted changed item none old = old
upserted changed item (some revision) old = if changed == item then some revision else old

abbrev removed : ℕ → ℕ → Option ℕ → Option ℕ → Option ℕ
removed changed item (some revision) old = old
removed changed item none old = if changed == item then none else old

abbrev all_upserted : List Change → ℕ → Option ℕ → Option ℕ
all_upserted [] item old = old
all_upserted (c ∷ cs) item old =
    all_upserted cs item (upserted c.item_id item c.new_revision_id old)

abbrev all_removed : List Change → ℕ → Option ℕ → Option ℕ
all_removed [] item old = old
all_removed (c ∷ cs) item old = all_removed cs item (removed c.item_id item c.new_revision_id old)

upsert_change-revision_of :
    (changed item : ℕ) (revision : Option ℕ) (d : List Entry)
    → revision_of item (upsert_change changed revision d)
      ≡ upserted changed item revision (revision_of item d)
upsert_change-revision_of changed item none d = refl
upsert_change-revision_of changed item (some revision) d = revision_of-upsert item _ d

remove_change-revision_of :
    (changed item : ℕ) (revision : Option ℕ) (d : List Entry)
    → revision_of item (remove_change changed revision d)
      ≡ removed changed item revision (revision_of item d)
remove_change-revision_of changed item none d = revision_of-remove item changed d
remove_change-revision_of changed item (some revision) d = refl

revision_of-upsert_changes :
    (item : ℕ) (cs : List Change) (d : List Entry)
    → revision_of item (upsert_changes cs d) ≡ all_upserted cs item (revision_of item d)
unfolding upsert_changes
revision_of-upsert_changes item [] d = refl
revision_of-upsert_changes item (c ∷ cs) d =
    revision_of-upsert_changes item cs (upsert_change c.item_id c.new_revision_id d)
    ∙ ap (all_upserted cs item) (upsert_change-revision_of c.item_id item c.new_revision_id d)

revision_of-remove_changes :
    (item : ℕ) (cs : List Change) (d : List Entry)
    → revision_of item (remove_changes cs d) ≡ all_removed cs item (revision_of item d)
unfolding remove_changes
revision_of-remove_changes item [] d = refl
revision_of-remove_changes item (c ∷ cs) d =
    revision_of-remove_changes item cs (remove_change c.item_id c.new_revision_id d)
    ∙ ap (all_removed cs item) (remove_change-revision_of c.item_id item c.new_revision_id d)

removed-upserted :
    (changed item : ℕ) (revision old : Option ℕ)
    → removed changed item revision (upserted changed item revision old)
      ≡ (if changed == item then revision else old)
removed-upserted changed item none old = refl
removed-upserted changed item (some revision) old = refl

upserted_other :
    (changed item : ℕ) (revision old : Option ℕ)
    → (changed == item) ≡ false
    → upserted changed item revision old ≡ old
upserted_other changed item none old miss = refl
upserted_other changed item (some revision) old miss = rw miss refl

removed_other :
    (changed item : ℕ) (revision old : Option ℕ)
    → (changed == item) ≡ false
    → removed changed item revision old ≡ old
removed_other changed item none old miss = rw miss refl
removed_other changed item (some revision) old miss = refl

pub untouched :
    (cs : List Change) (item : ℕ) (old : Option ℕ)
    → All (λ (c : Change). (c.item_id == item) ≡ false) cs
    → (all_upserted cs item old ≡ old)
      × (all_removed cs item old ≡ old)
      × (overridden cs item old ≡ old)
untouched [] item old h = (refl, refl, refl)
untouched (c ∷ cs) item old (miss, h) =
    let (a, b, o) = untouched cs item old h in
    (
      ap (all_upserted cs item) (upserted_other c.item_id item c.new_revision_id old miss) ∙ a,
      ap (all_removed cs item) (removed_other c.item_id item c.new_revision_id old miss) ∙ b,
      rw miss o,
    )

pub others_untouched :
    (c : Change) (cs : List Change) (item : ℕ)
    → All (λ (d : Change). d.item_id ≢ c.item_id) cs
    → (c.item_id == item) ≡ true
    → All (λ (d : Change). (d.item_id == item) ≡ false) cs
others_untouched c [] item h hit = tt
others_untouched c (d ∷ cs) item (apart, h) hit = (ground arith, others_untouched c cs item h hit)

-- Upserts first and deletions then is the order of the loop, if no item comes twice.
regrouped :
    (cs : List Change) (item : ℕ) (old : Option ℕ)
    → HasDistinctItems cs
    → all_removed cs item (all_upserted cs item old) ≡ overridden cs item old
regrouped [] item old d = refl
regrouped (c ∷ cs) item old (fresh, d) = elim (Bool-cases (c.item_id == item)) [
  | inl hit ↦
      let others = others_untouched c cs item fresh hit in
      let changed : Option ℕ = if c.item_id == item then c.new_revision_id else old in
      ap (λ x. all_removed cs item (removed c.item_id item c.new_revision_id x))
        (untouched cs item _ others).0
      ∙ ap (all_removed cs item) (removed-upserted c.item_id item c.new_revision_id old)
      ∙ (untouched cs item changed others).1
      ∙ sym (untouched cs item changed others).2
  | inr miss ↦
      ap (all_removed cs item) (removed_other c.item_id item c.new_revision_id _ miss)
      ∙ ap (λ x. all_removed cs item (all_upserted cs item x))
          (upserted_other c.item_id item c.new_revision_id old miss)
      ∙ regrouped cs item old d
      ∙ rw miss refl
]

-- Replaying changes without a repeated item does to each item what publishing them does.
pub revision_of-forward :
    (item : ℕ) (cs : List Change) (d : List Entry)
    → HasDistinctItems cs
    → revision_of item (forward cs d) ≡ overridden cs item (revision_of item d)
unfolding forward
revision_of-forward item cs d distinct =
    revision_of-remove_changes item cs (upsert_changes cs d)
    ∙ ap (all_removed cs item) (revision_of-upsert_changes item cs d)
    ∙ regrouped cs item (revision_of item d) distinct
