-- ===== src/Expert/Steps/Invariant.antt =====
-- What every sequence of the steps on expert tasks keeps, whoever runs them and in which order.
use clideck_mcp.Prelude.{String, true, List, [], ◌∷◌, ◌≡◌, All, All-append}
use mathlib.Core.Path.{subst}
use clideck_mcp.Expert.Store.{TaskRow, Db, is_terminal}
use clideck_mcp.Expert.Rows.{
  In, HasDistinctIds, Related-All, Related-HasDistinctIds, Related-In, In-append,
  HasDistinctIds-append,
}
use clideck_mcp.Expert.Lifecycle.{
  RowPath, stays, RowPath-id, RowPath-IsSound, RowPath-terminal, RowPath-trans, IsSound,
}
use clideck_mcp.Expert.Steps.{Reach, here, next}
use clideck_mcp.Expert.Steps.Advances.{Changed, moves, adds, Step-Changed}

-- The table of tasks: its primary key is one, and each row is sound.
abbrev pub IsWell : Db → Type 0
IsWell db = HasDistinctIds db.tasks × All IsSound db.tasks

module _ {sha256 : String → String} where
  Changed-HasDistinctIds :
      (before : List TaskRow) {after : List TaskRow}
      → Changed sha256 before after
      → HasDistinctIds before
      → HasDistinctIds after
  Changed-HasDistinctIds before (moves {after} p) d =
      Related-HasDistinctIds (RowPath sha256) (λ a b. RowPath-id) before after p d
  Changed-HasDistinctIds before (adds {r} sound fresh) d = HasDistinctIds-append before r d fresh

  Changed-IsSound :
      (before : List TaskRow) {after : List TaskRow}
      → Changed sha256 before after
      → All IsSound before
      → All IsSound after
  Changed-IsSound before (moves {after} p) v =
      Related-All (RowPath sha256) IsSound (λ a b. RowPath-IsSound) before after p v
  Changed-IsSound before (adds {r} sound fresh) v = All-append IsSound before (r ∷ []) v (sound, tt)

  Changed-In :
      (before : List TaskRow) {after : List TaskRow} (r : TaskRow)
      → Changed sha256 before after
      → In r before
      → (s : TaskRow) × In s after × RowPath sha256 r s
  Changed-In before r (moves {after} p) i = Related-In (RowPath sha256) before after r p i
  Changed-In before r (adds sound fresh) i = (r, In-append r before _ i, stays)

-- Whatever of these operations run, in any order: the operations of src/domain/tasks.ts,
-- researcher.ts and publication.ts on expert tasks, and the statements on an expert task by which
-- the task queue claims it, renews its lease, pauses it, fails it and recovers it from an expired
-- lease. If before them the primary key is distinct and every row is sound, so it is after them: it
-- holds a lease token exactly while it is leased, a lease exactly while it is leased or being
-- published, a completion time exactly in a terminal status, a result exactly when it is completed,
-- and has at most ten attempts. It says nothing of the administrator's actOnExpertTask and of
-- updateTaskStatus of the native task store.
pub Reach-IsWell :
    {sha256 derive_url_token : String → String} {db db' : Db}
    → Reach sha256 derive_url_token db db'
    → IsWell db
    → IsWell db'
Reach-IsWell here well = well
Reach-IsWell (next {db' = mid} path step) well =
    let (d, v) = Reach-IsWell path well in
    let change = Step-Changed step d v in
    (Changed-HasDistinctIds mid.tasks change d, Changed-IsSound mid.tasks change v)

-- Each row stays, and goes on by row steps only.
pub Reach-RowPath :
    {sha256 derive_url_token : String → String} {db db' : Db}
    → Reach sha256 derive_url_token db db'
    → IsWell db
    → (r : TaskRow) → In r db.tasks
    → (s : TaskRow) × In s db'.tasks × RowPath sha256 r s
Reach-RowPath here well r i = (r, i, stays)
Reach-RowPath (next {db' = mid} path step) well r i =
    let (s, j, p) = Reach-RowPath path well r i in
    let (d, v) = Reach-IsWell path well in
    let (t, k, q) = Changed-In mid.tasks s (Step-Changed step d v) j in (t, k, RowPath-trans p q)

-- From a table with distinct ids and sound rows (IsWell): a task that is completed, failed,
-- cancelled or expired keeps its row, in all columns, whatever of these operations run after, each
-- as one step: the operations of src/domain/tasks.ts, researcher.ts and publication.ts on expert
-- tasks, and the statements by which the task queue claims an expert task, renews its lease,
-- pauses it, fails it and recovers it. It says nothing of the administrator's actOnExpertTask and
-- of updateTaskStatus of the native task store, which write a task without such a test.
pub Reach-terminal :
    {sha256 derive_url_token : String → String} {db db' : Db}
    → Reach sha256 derive_url_token db db'
    → IsWell db
    → (r : TaskRow) → In r db.tasks
    → is_terminal r.status ≡ true
    → In r db'.tasks
Reach-terminal {db' = db'} path well r i over =
    let (s, j, p) = Reach-RowPath path well r i in
    subst (λ t. In t db'.tasks) (RowPath-terminal p over) j
