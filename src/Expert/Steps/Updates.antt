-- ===== src/Expert/Steps/Updates.antt =====
-- The SQL UPDATE statements on the table of expert tasks, as row steps.
use clideck_mcp.Prelude.{String, Bool, true, List, ◌≡◌, All}
use clideck_mcp.Prelude.Table.{All-map, All-each}
use clideck_mcp.Expert.Store.{TaskRow, Db, update_where, has_id}
use clideck_mcp.Expert.Rows.{
  In, HasDistinctIds, Related, Related-refl, update_where-Related, update_by_id-Related,
}
use clideck_mcp.Expert.Lifecycle.{RowStep, RowPath, stays, goes}

-- Each row has gone on by row steps.
abbrev pub Advances : (String → String) → List TaskRow → List TaskRow → Type 0
Advances sha256 = Related (RowPath sha256)

module _ (sha256 : String → String) where
  one : {r s : TaskRow} → RowStep sha256 r s → RowPath sha256 r s
  one st = goes stays st

  pub Advances-refl : (rows : List TaskRow) → Advances sha256 rows rows
  Advances-refl = Related-refl (RowPath sha256) (λ r. stays)

  -- An UPDATE that steps the rows it sets.
  pub update_all-Advances :
      (test : TaskRow → Bool) (set : TaskRow → TaskRow) (rows : List TaskRow)
      → All (λ r. test r ≡ true → RowStep sha256 r (set r)) rows
      → Advances sha256 rows (update_where test set rows)
  update_all-Advances test set rows h =
      update_where-Related (RowPath sha256) (λ r. stays) test set rows
        (All-map (λ r. test r ≡ true → RowStep sha256 r (set r))
          (λ r. test r ≡ true → RowPath sha256 r (set r)) (λ r st hit. one (st hit)) rows h)

  -- An UPDATE whose WHERE clause guards a row step.
  pub update-Advances :
      (test : TaskRow → Bool) (set : TaskRow → TaskRow) (rows : List TaskRow)
      → ((r : TaskRow) → test r ≡ true → RowStep sha256 r (set r))
      → Advances sha256 rows (update_where test set rows)
  update-Advances test set rows h =
      update_all-Advances test set rows
        (All-each (λ r. test r ≡ true → RowStep sha256 r (set r)) h rows)

  update_by_id-Advances :
      (set : TaskRow → TaskRow) (rows : List TaskRow) (t : TaskRow)
      → HasDistinctIds rows
      → In t rows
      → RowStep sha256 t (set t)
      → Advances sha256 rows (update_where (has_id t.id) set rows)
  update_by_id-Advances set rows t d i st =
      update_by_id-Related (RowPath sha256) (λ r. stays) set rows t d i (one st)

  -- The statement of a loaded task, by its id.
  pub loaded_step :
      (set : TaskRow → TaskRow) (db : Db) (t : TaskRow)
      → HasDistinctIds db.tasks
      → In t db.tasks
      → RowStep sha256 t (set t)
      → Advances sha256 db.tasks (update_where (has_id t.id) set db.tasks)
  loaded_step set db t = update_by_id-Advances set db.tasks t
