-- ===== src/Release/Activate.antt =====
-- activateKnowledgeRelease of src/domain/publication.ts.
use clideck_mcp.Prelude.{
  ℕ, Bool, true, false, Option, none, some, List, [], ◌∷◌, map, ◌==◌, length, if◌then◌else◌,
}
use clideck_mcp.Release.Tables.{
  ReleaseMode, snapshot, delta, checkpoint, published, Release, Entry, ActiveRow, Change, Tables,
  upsert, remove, rows_of, find_release,
}
use clideck_mcp.Release.Publish.{supersede_status}

abbrev pub is_base : ReleaseMode → Bool
is_base snapshot = true
is_base checkpoint = true
is_base delta = false

-- `WITH RECURSIVE ancestry`: the release, its parent, and so on. The join with the parent goes on
-- among the older rows.
unfoldable pub ancestry : Option ℕ → List Release → List Release
ancestry none rs = []
ancestry (some id) [] = []
ancestry (some id) (r ∷ rs) =
    let older = ancestry r.parent_release_id rs in
    let skipped = ancestry (some id) rs in if r.id == id then r ∷ older else skipped

abbrev pub upsert_change : ℕ → Option ℕ → List Entry → List Entry
upsert_change item none desired = desired
upsert_change item (some revision) desired =
    upsert (record { item_id = item; revision_id = revision }) desired

unfoldable pub upsert_changes : List Change → List Entry → List Entry
upsert_changes [] desired = desired
upsert_changes (c ∷ cs) desired =
    upsert_changes cs (upsert_change c.item_id c.new_revision_id desired)

abbrev pub remove_change : ℕ → Option ℕ → List Entry → List Entry
remove_change item none desired = remove item desired
remove_change item (some revision) desired = desired

unfoldable pub remove_changes : List Change → List Entry → List Entry
remove_changes [] desired = desired
remove_changes (c ∷ cs) desired =
    remove_changes cs (remove_change c.item_id c.new_revision_id desired)

-- The two statements on one forward release: its upserts, then its deletions.
unfoldable pub forward : List Change → List Entry → List Entry
unfolding upsert_changes remove_changes
forward cs desired = remove_changes cs (upsert_changes cs desired)

abbrev pub option_map : (List Entry → List Entry) → Option (List Entry) → Option (List Entry)
option_map f none = none
option_map f (some d) = some (f d)

-- `desired_active_knowledge_state`: the items of the nearest release with a full list, then the
-- forward releases, the oldest first; none where no release of the ancestry has a full list.
unfoldable pub desired_state : Tables → List Release → Option (List Entry)
unfolding forward
desired_state t [] = none
desired_state t (r ∷ rs) =
    let older = desired_state t rs in
    if is_base r.release_mode
    then some (rows_of r.id t.release_items)
    else option_map (forward (rows_of r.id t.release_changes)) older

abbrev pub activated : ℕ → Entry → ActiveRow
activated id e = record {
  item_id = e.item_id;
  revision_id = e.revision_id;
  activated_release_id = id;
}

-- `SET status = CASE …` on the target and on the published releases.
abbrev pub switch_status : ℕ → Release → Release
switch_status id r =
    if r.id == id
    then record r { status = published }
    else record r { status = supersede_status r.status }

pub data Activation : Type 0 where
  switched : Release → (revision_count : ℕ) → Tables → Activation
  release_not_found release_checkpoint_not_found : Activation

abbrev pub switch_to : ℕ → Tables → Release → Option (List Entry) → Activation
switch_to id t target none = release_checkpoint_not_found
switch_to id t target (some desired) = switched target (length desired) (record t {
  releases = map (switch_status id) t.releases;
  active_knowledge_state = map (activated id) desired;
  active_release = some id;
})

abbrev pub activate_found : ℕ → Tables → Option Release → Activation
activate_found id t none = release_not_found
activate_found id t (some target) =
    switch_to id t target (desired_state t (ancestry (some id) t.releases))

-- activateKnowledgeRelease; it returns the target's row, as it was, and the number of revisions.
unfoldable pub activate_knowledge_release : ℕ → Tables → Activation
unfolding ancestry desired_state
activate_knowledge_release id t = activate_found id t (find_release id t.releases)
