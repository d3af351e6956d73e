-- ===== src/Expert/Races.antt =====
-- The statements of cancelExpertTask and continueExpertTask of src/domain/tasks.ts, whose WHERE
-- clause is the row's id alone, when another transaction has committed since the row was loaded.
use clideck_mcp.Prelude.{ℕ, String, Bool, true, false, List, [], ◌∷◌, ◌≡◌, ap, inl, inr, ==_iff}
use clideck_mcp.Expert.Store.{TaskRow, Db, update_where, has_id}
use clideck_mcp.Expert.Rows.{In}
use clideck_mcp.Expert.Client.{cancel_row, cancel_write, continue_row, continue_write}
use clideck_mcp.Expert.Worker.{Publication, completed_row}

-- What an UPDATE sets is there after it.
pub update_where-In :
    (test : TaskRow → Bool) (set : TaskRow → TaskRow) (rows : List TaskRow) (r : TaskRow)
    → In r rows
    → test r ≡ true
    → In (set r) (update_where test set rows)
unfolding update_where
update_where-In test set [] r i h = absurd i
update_where-In test set (s ∷ rows) r (inl e) h =
    let hit : test s ≡ true = rw e h in rw hit (inl (ap set e))
update_where-In test set (s ∷ rows) r (inr i) h = inr (update_where-In test set rows r i h)

-- What an UPDATE does not meet stays.
pub update_where-In_other :
    (test : TaskRow → Bool) (set : TaskRow → TaskRow) (rows : List TaskRow) (r : TaskRow)
    → In r rows
    → test r ≡ false
    → In r (update_where test set rows)
unfolding update_where
update_where-In_other test set [] r i h = absurd i
update_where-In_other test set (s ∷ rows) r (inl e) h =
    let miss : test s ≡ false = rw e h in rw miss (inl e)
update_where-In_other test set (s ∷ rows) r (inr i) h =
    inr (update_where-In_other test set rows r i h)

-- If the loaded task has been completed meanwhile, the statement of cancelExpertTask still sets it
-- to `cancelled`, and the statement of continueExpertTask still sets it to `queued`; both keep the
-- result in the row.
pub completed_overwritten :
    (sha256 : String → String) (now later : ℕ) (message : String) (p : Publication)
    (loaded r : TaskRow) (db : Db)
    → In (completed_row now p r) db.tasks
    → r.id ≡ loaded.id
    → In
        (cancel_row sha256 later (completed_row now p r))
        (cancel_write sha256 later loaded db).tasks
      × In
          (continue_row sha256 later (completed_row now p r))
          (continue_write sha256 later message loaded db).tasks
unfolding cancel_write continue_write
completed_overwritten sha256 now later message p loaded r db i same =
    let hit : has_id loaded.id (completed_row now p r) ≡ true = (==_iff r.id loaded.id).1 same in
    (
      update_where-In (has_id loaded.id) (cancel_row sha256 later) db.tasks _ i hit,
      update_where-In (has_id loaded.id) (continue_row sha256 later) db.tasks _ i hit,
    )
