-- ===== src/Release/Publish.antt =====
-- publishKnowledgeBatch and publishCompensatingChanges of src/domain/publication.ts. The id of the
-- new release is an argument.
use clideck_mcp.Prelude.{
  ℕ, ◌+◌, ◌%◌, Bool, true, false, ◌||◌, any, Option, none, some, List, [], ◌∷◌, ◌++◌, map, ◌==◌,
  length, if◌then◌else◌,
}
use clideck_mcp.Release.Tables.{
  delta, checkpoint, ReleaseStatus, published, superseded, Release, Entry, ActiveRow, Change,
  Tables, entry_of, revision_of, upsert, activate_item, deactivate_item, rows_for,
}

-- `new Map(items.map((item) => [item.itemId, item]))`: the last of an item, in the first's place.
unfoldable pub unique_items : List Entry → List Entry → List Entry
unique_items seen [] = seen
unique_items seen (e ∷ es) = unique_items (upsert e seen) es

-- `IS DISTINCT FROM` and `!==`.
abbrev pub differs : Option ℕ → Option ℕ → Bool
differs none none = false
differs none (some b) = true
differs (some a) none = true
differs (some a) (some b) = if a == b then false else true

abbrev pub change_to : List ActiveRow → ℕ → Option ℕ → Change
change_to active item revision = record {
  item_id = item;
  previous_revision_id = revision_of item (map entry_of active);
  new_revision_id = revision;
}

-- `LEFT JOIN active_knowledge_state … WHERE active.revision_id IS DISTINCT FROM batch.revision_id`.
unfoldable pub batch_changes : List ActiveRow → List Entry → List Change
batch_changes active [] = []
batch_changes active (e ∷ es) =
    let rest = batch_changes active es in
    if differs (revision_of e.item_id (map entry_of active)) (some e.revision_id)
    then change_to active e.item_id (some e.revision_id) ∷ rest
    else rest

-- One change of the active knowledge.
abbrev pub set_revision : ℕ → ℕ → Option ℕ → List ActiveRow → List ActiveRow
set_revision release item none active = deactivate_item item active
set_revision release item (some revision) active =
    activate_item release (record { item_id = item; revision_id = revision }) active

unfoldable pub apply_changes : ℕ → List Change → List ActiveRow → List ActiveRow
apply_changes release [] active = active
apply_changes release (c ∷ cs) active =
    apply_changes release cs (set_revision release c.item_id c.new_revision_id active)

-- The loop of publishCompensatingChanges: it reads the active knowledge before each change.
unfoldable pub compensating_changes : ℕ → List (ℕ × Option ℕ) → List ActiveRow → List Change
compensating_changes release [] active = []
compensating_changes release ((item, revision) ∷ wanted) active =
    let rest = compensating_changes release wanted (set_revision release item revision active) in
    let skipped = compensating_changes release wanted active in
    if differs (revision_of item (map entry_of active)) revision
    then change_to active item revision ∷ rest
    else skipped

-- `!current.rows[0] || sequence % 120 === 0`.
abbrev pub is_checkpoint : Option ℕ → ℕ → Bool
is_checkpoint none sequence = true
is_checkpoint (some current) sequence = sequence % 120 == 0

-- `UPDATE releases SET status = 'superseded' WHERE id = $1 AND status = 'published'`.
abbrev pub supersede_status : ReleaseStatus → ReleaseStatus
supersede_status published = superseded
supersede_status status = status

abbrev pub supersede : Option ℕ → Release → Release
supersede none r = r
supersede (some current) r =
    if r.id == current then record r { status = supersede_status r.status } else r

-- What both functions do with their changes: the release, its rows, the active knowledge, the
-- checkpoint, the count, and the switch of the active release.
unfoldable pub add_release : ℕ → List Change → Tables → Tables
unfolding apply_changes
add_release id changes t =
    let active = apply_changes id changes t.active_knowledge_state in
    let full = is_checkpoint t.active_release t.next_sequence in
    let release : Release = record {
      id = id;
      sequence = t.next_sequence;
      status = published;
      parent_release_id = t.active_release;
      release_mode = if full then checkpoint else delta;
      item_count = length active;
    } in
    record {
      releases = release ∷ map (supersede t.active_release) t.releases;
      release_items =
          if full then t.release_items ++ rows_for id (map entry_of active) else t.release_items;
      release_changes = t.release_changes ++ rows_for id changes;
      active_knowledge_state = active;
      active_release = some id;
      next_sequence = t.next_sequence + 1;
    }

-- The outcome: the new tables with the release's id and sequence, or an error.
pub data Published : Type 0 where
  released : (release_id sequence : ℕ) → Tables → Published
  release_requires_items unique_violation : Published

-- publishKnowledgeBatch.
unfoldable pub publish_knowledge_batch : ℕ → List Entry → Tables → Published
unfolding add_release batch_changes unique_items
publish_knowledge_batch id [] t = release_requires_items
publish_knowledge_batch id (e ∷ es) t =
    released id t.next_sequence
      (add_release id (batch_changes t.active_knowledge_state (unique_items [] (e ∷ es))) t)

-- The primary key of release_changes: a release has one change of an item.
abbrev pub is_of_item : ℕ → Change → Bool
is_of_item item c = c.item_id == item

abbrev pub repeats_item : List Change → Bool
repeats_item [] = false
repeats_item (c ∷ cs) = any (is_of_item c.item_id) cs || repeats_item cs

-- publishCompensatingChanges; no revision takes an item out. A second change of an item throws.
unfoldable pub publish_compensating_changes : ℕ → List (ℕ × Option ℕ) → Tables → Published
unfolding add_release compensating_changes
publish_compensating_changes id [] t = release_requires_items
publish_compensating_changes id (c ∷ cs) t =
    let changes = compensating_changes id (c ∷ cs) t.active_knowledge_state in
    if repeats_item changes
    then unique_violation
    else released id t.next_sequence (add_release id changes t)
