-- ===== src/Release/Tables.antt =====
-- The tables of src/domain/publication.ts, and the statements on the active knowledge.
use clideck_mcp.Prelude.{ℕ, Option, none, some, List, [], ◌∷◌, map, ◌==◌, if◌then◌else◌}

pub data ReleaseMode : Type 0 where
  snapshot delta checkpoint : ReleaseMode

pub data ReleaseStatus : Type 0 where
  published superseded rolled_back : ReleaseStatus

-- A row of `releases`, without the texts that explain it.
pub record Release : Type 0 where
  pub id : ℕ
  pub sequence : ℕ
  pub status : ReleaseStatus
  pub parent_release_id : Option ℕ
  pub release_mode : ReleaseMode
  pub item_count : ℕ

-- An item with its revision: a row of `release_items` and of `desired_active_knowledge_state`.
pub record Entry : Type 0 where
  pub item_id : ℕ
  pub revision_id : ℕ

-- `active_knowledge_state`.
pub record ActiveRow : Type 0 where
  pub item_id : ℕ
  pub revision_id : ℕ
  pub activated_release_id : ℕ

-- `release_changes`; its `change_kind` is 'deactivate' where there is no new revision.
pub record Change : Type 0 where
  pub item_id : ℕ
  pub previous_revision_id : Option ℕ
  pub new_revision_id : Option ℕ

pub record Tables : Type 0 where
  pub releases : List Release
  pub release_items : List (ℕ × Entry)
  pub release_changes : List (ℕ × Change)
  pub active_knowledge_state : List ActiveRow
  pub active_release : Option ℕ
  pub next_sequence : ℕ

abbrev pub entry_of : ActiveRow → Entry
entry_of a = record { item_id = a.item_id; revision_id = a.revision_id }

-- The revision of an item.
unfoldable pub revision_of : ℕ → List Entry → Option ℕ
revision_of item [] = none
revision_of item (e ∷ es) = if e.item_id == item then some e.revision_id else revision_of item es

abbrev pub active_revision : Tables → ℕ → Option ℕ
active_revision t item = revision_of item (map entry_of t.active_knowledge_state)

-- `INSERT … ON CONFLICT (knowledge_item_id) DO UPDATE`.
unfoldable pub upsert : Entry → List Entry → List Entry
upsert e [] = e ∷ []
upsert e (x ∷ xs) = if x.item_id == e.item_id then e ∷ xs else x ∷ upsert e xs

unfoldable pub activate_item : ℕ → Entry → List ActiveRow → List ActiveRow
activate_item release e [] =
    record { item_id = e.item_id; revision_id = e.revision_id; activated_release_id = release } ∷ []
activate_item release e (x ∷ xs) =
    if x.item_id == e.item_id
    then record { item_id = e.item_id; revision_id = e.revision_id; activated_release_id = release }
      ∷ xs
    else x ∷ activate_item release e xs

-- `DELETE … WHERE knowledge_item_id = $1`.
unfoldable pub remove : ℕ → List Entry → List Entry
remove item [] = []
remove item (x ∷ xs) = if x.item_id == item then remove item xs else x ∷ remove item xs

unfoldable pub deactivate_item : ℕ → List ActiveRow → List ActiveRow
deactivate_item item [] = []
deactivate_item item (x ∷ xs) =
    if x.item_id == item then deactivate_item item xs else x ∷ deactivate_item item xs

-- The rows of one release.
unfoldable pub rows_of {ℓ} : {A : Type ℓ} → ℕ → List (ℕ × A) → List A
rows_of release [] = []
rows_of release ((id, x) ∷ rows) =
    if id == release then x ∷ rows_of release rows else rows_of release rows

abbrev pub rows_for {ℓ} : {A : Type ℓ} → ℕ → List A → List (ℕ × A)
rows_for release [] = []
rows_for release (x ∷ xs) = (release, x) ∷ rows_for release xs

unfoldable pub find_release : ℕ → List Release → Option Release
find_release id [] = none
find_release id (r ∷ rs) = if r.id == id then some r else find_release id rs
