-- ===== src/Expert/Maintenance.antt =====
-- What runWorkerMaintenance of src/domain/publication.ts leaves behind.
use clideck_mcp.Prelude.{
  ℕ, Bool, false, List, [], ◌∷◌, ◌≡◌, refl, ap, arith, All, if◌then◌else◌, leb,
}
use clideck_mcp.Expert.Store.{Status, expired, TaskRow, Db, update_where}
use clideck_mcp.Expert.Rows.{Related}
use clideck_mcp.Expert.Worker.{
  is_overdue, expire_row, lease_expired, recover_row, publishing_expired, requeue_row,
  run_worker_maintenance,
}

-- One row under the three statements, in their order.
abbrev set_where : (TaskRow → Bool) → (TaskRow → TaskRow) → TaskRow → TaskRow
set_where test set r = if test r then set r else r

abbrev maintained : ℕ → TaskRow → TaskRow
maintained now r = set_where (publishing_expired now) (requeue_row now) (
    set_where (lease_expired now) (recover_row now) (set_where (is_overdue now) (expire_row now) r))

-- The status that the row gets.
abbrev status_after : ℕ → TaskRow → Status
status_after now r =
    if is_overdue now r
    then expired
    else if lease_expired now r
    then (if leb 5 r.attempts then Status.failed else Status.queued)
    else if publishing_expired now r
    then Status.validating
    else r.status

abbrev pub IsDue : ℕ → TaskRow → TaskRow → Type 0
IsDue now r s =
    (s.status ≡ status_after now r)
    × (is_overdue now s ≡ false)
    × (lease_expired now s ≡ false)
    × (publishing_expired now s ≡ false)

abbrev IsSettled : ℕ → TaskRow → Type 0
IsSettled now r =
    (is_overdue now r ≡ false) × (lease_expired now r ≡ false) × (publishing_expired now r ≡ false)

maintained-IsDue : (now : ℕ) (r : TaskRow) → IsDue now r (maintained now r)
maintained-IsDue now r = (ground arith, ground arith, ground arith, ground arith)

-- At any time, runWorkerMaintenance keeps the rows in their order and gives each one its status: an
-- unfinished task that is past its expiry is `expired`; else one with a run-out research lease is
-- `queued` again, or `failed` from the fifth attempt on; else one with a run-out publication lease
-- is `validating` again; all others keep theirs. Afterwards no unfinished task is past its expiry,
-- and no research or publication lease has run out.
pub run_worker_maintenance-IsDue :
    (now : ℕ) (db : Db) → Related (IsDue now) db.tasks (run_worker_maintenance now db).tasks
unfolding run_worker_maintenance update_where
run_worker_maintenance-IsDue now db = rows_due db.tasks
  where
    rows_due :
        (rows : List TaskRow)
        → Related (IsDue now) rows (
            update_where (publishing_expired now) (requeue_row now) (
              update_where
                (lease_expired now)
                (recover_row now)
                (update_where (is_overdue now) (expire_row now) rows)))
    rows_due [] = tt
    rows_due (r ∷ rows) = (maintained-IsDue now r, rows_due rows)

settled :
    (now : ℕ) (rows : List TaskRow)
    → All (IsSettled now) rows
    → update_where (publishing_expired now) (requeue_row now) (
        update_where
          (lease_expired now)
          (recover_row now)
          (update_where (is_overdue now) (expire_row now) rows))
      ≡ rows
unfolding update_where
settled now [] h = refl
settled now (r ∷ rows) ((p, q, o), h) = rw (p, q, o) (ap (λ rs. r ∷ rs) (settled now rows h))

-- Run twice at the same time, runWorkerMaintenance does on the second run nothing.
run_worker_maintenance-twice :
    (now : ℕ) (db : Db)
    → run_worker_maintenance now (run_worker_maintenance now db) ≡ run_worker_maintenance now db
unfolding run_worker_maintenance
run_worker_maintenance-twice now db =
    ap (λ rows. record db { tasks = rows })
      (settled now (run_worker_maintenance now db).tasks
        (is_settled db.tasks _ (run_worker_maintenance-IsDue now db)))
  where
    is_settled :
        (rows after : List TaskRow) → Related (IsDue now) rows after → All (IsSettled now) after
    is_settled [] [] p = tt
    is_settled [] (s ∷ after) p = absurd p
    is_settled (r ∷ rows) [] p = absurd p
    is_settled (r ∷ rows) (s ∷ after) ((e, p, q, o), ps) = ((p, q, o), is_settled rows after ps)
