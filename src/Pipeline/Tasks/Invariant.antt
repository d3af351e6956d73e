-- ===== src/Pipeline/Tasks/Invariant.antt =====
-- Sequences of eight operations on the queue of src/domain/pipeline.ts, in any interleaving. A new
-- task's id is fresh (its column is the primary key, with a random default). The scheduler's part is
-- insertTask with any argument. Other writers of pipeline_tasks are no steps here: the completions
-- of the stages, the administrator's actions, and the worker's acquireSource, which sets the run and
-- the payload of a task by its id whatever its status.
use clideck_mcp.Prelude.{
  ℕ, String, Bool, true, false, ◌&&◌, Option, List, [], ◌∷◌, ◌++◌, ◌≡◌, ◌≢◌, refl, sym, inl, inr,
  arith, All, All-append, any, str_eq, str_eq_iff, Bool-cases,
}
use clideck_mcp.Prelude.Table.{any-none, In, In-append, Related, Related-All, Related-In}
use clideck_mcp.Prelude.Table.Pairs.{Pairwise, Pairwise-append, Related-Pairwise}
use clideck_mcp.Pipeline.Limits.{demand_diagnosis}
use clideck_mcp.Pipeline.Tasks.Tables.{PipelineTask, Store}
use clideck_mcp.Pipeline.Tasks.Columns.{is_live, is_type}
use clideck_mcp.Pipeline.Tasks.Queue.{
  NewTask, new_task, blocks, diagnoses, insert_task, record_event,
}
use clideck_mcp.Pipeline.Tasks.Runs.{ProcessingRun}
use clideck_mcp.Pipeline.Tasks.Recover.{reconcile_expired_leases}
use clideck_mcp.Pipeline.Tasks.Lease.{
  heartbeat_pipeline_task, heartbeat_mechanical, complete_mechanical,
}
use clideck_mcp.Pipeline.Tasks.FailTask.{fail_pipeline_task}
use clideck_mcp.Pipeline.Tasks.ClaimTask.{claim_pipeline_task}
use clideck_mcp.Pipeline.Tasks.Mechanical.{claim_mechanical}
use clideck_mcp.Pipeline.Tasks.Rows.{
  IsSound, Goes, Apart, Goes-Apart, Apart-HasDistinctKeys, new_task-IsSound,
}
use clideck_mcp.Pipeline.Tasks.Steps.{
  HasDistinctIds, after_outcome, Goes-all_refl, fail-Goes, complete-Goes, recover-Goes,
  heartbeat_mechanical-Goes, heartbeat-Goes,
}
use clideck_mcp.Pipeline.Tasks.Steps.Claims.{
  after_claim, after_mechanical, claim-Goes, claim_mechanical-Goes,
}

-- One operation, with its arguments, its time and the rows that others have locked.
pub data Step (sha256 : String → String) (stringify : List String → String)
    (no_evidence : String → Bool) : Store → Store → Type 0 where
  inserts :
      (id now : ℕ) (q : NewTask) (db : Store)
      → All (λ (t : PipelineTask). t.id ≢ id) db.tasks
      → Step sha256 stringify no_evidence db (insert_task id now q db).1
  claims :
      (now lease_seconds : ℕ) (locked : PipelineTask → Bool) (run_id : ℕ)
      (executor instance_id token : String) (protocol : ℕ) (db : Store)
      → Step sha256 stringify no_evidence db (
          after_claim
            (claim_pipeline_task sha256 stringify no_evidence now lease_seconds locked run_id
              executor instance_id token protocol db)
            db)
  claims_mechanical :
      (now lease_seconds : ℕ) (locked : PipelineTask → Bool) (worker token : String) (db : Store)
      → Step sha256 stringify no_evidence db
          (after_mechanical (claim_mechanical sha256 now lease_seconds locked worker token db) db)
  beats :
      (now lease_seconds : ℕ) (locked : PipelineTask → Bool) (id : ℕ)
      (token executor instance_id : String) (db : Store)
      → Step sha256 stringify no_evidence db
          (heartbeat_pipeline_task sha256 now lease_seconds locked id token executor instance_id
            db).1
  beats_mechanical :
      (now lease_seconds id : ℕ) (token : String) (db : Store)
      → Step sha256 stringify no_evidence db
          (heartbeat_mechanical sha256 now lease_seconds id token db).1
  completes :
      (now id : ℕ) (token result : String) (db : Store)
      → Step sha256 stringify no_evidence db
          (after_outcome (λ d. d) (complete_mechanical sha256 now id token result db) db)
  fails :
      (now id : ℕ) (token code message : String) (db : Store)
      → Step sha256 stringify no_evidence db (
          after_outcome
            (λ (r : Bool × Store). r.1)
            (fail_pipeline_task sha256 now id token code message db)
            db)
  recovers :
      (now : ℕ) (locked : PipelineTask → Bool) (locked_run : ProcessingRun → Bool)
      (runs : List ProcessingRun) (db : Store)
      → Step sha256 stringify no_evidence db
          (reconcile_expired_leases locked locked_run now runs db).1

pub data Reach (sha256 : String → String) (stringify : List String → String)
    (no_evidence : String → Bool) (db : Store) : Store → Type 0 where
  here : Reach sha256 stringify no_evidence db db
  next :
      {d e : Store}
      → Reach sha256 stringify no_evidence db d
      → Step sha256 stringify no_evidence d e
      → Reach sha256 stringify no_evidence db e

-- Every row is sound, and every two are apart.
pub record IsSoundStore (db : Store) : Type 0 where
  pub sound : All IsSound db.tasks
  pub apart : Pairwise Apart db.tasks

-- What a step does to the table.
data Changed (before : List PipelineTask) : List PipelineTask → Type 0 where
  moves : {after : List PipelineTask} → Related Goes before after → Changed before after
  adds :
      {t : PipelineTask}
      → IsSound t
      → All (λ s. Apart s t) before
      → Changed before (before ++ t ∷ [])

-- A new task is apart from the others: the indexes let it in.
new_task-Apart :
    (id now : ℕ) (q : NewTask) (s : PipelineTask)
    → s.id ≢ id
    → blocks q.dedupe_key s ≡ false
    → (is_type q.task_type demand_diagnosis && diagnoses q.knowledge_demand_id s) ≡ false
    → Apart s (new_task id now q)
unfolding new_task
new_task-Apart id now q s fresh free sole = record {
  other_id = λ e. fresh (sym e);
  other_key = λ live _ e.
      let same : str_eq s.dedupe_key q.dedupe_key ≡ true =
        (str_eq_iff s.dedupe_key q.dedupe_key).1 (sym e) in
      ground arith;
  other_demand = λ live _ p u. ground arith;
}

new_task-All :
    (id now : ℕ) (q : NewTask) (rows : List PipelineTask)
    → All (λ (t : PipelineTask). t.id ≢ id) rows
    → All (λ s. blocks q.dedupe_key s ≡ false) rows
    → All
        (λ s. (is_type q.task_type demand_diagnosis && diagnoses q.knowledge_demand_id s) ≡ false)
        rows
    → All (λ s. Apart s (new_task id now q)) rows
new_task-All id now q [] a b c = tt
new_task-All id now q (r ∷ rows) (a, as') (b, bs) (c, cs) =
    (new_task-Apart id now q r a b c, new_task-All id now q rows as' bs cs)

no_diagnosis :
    (b : Bool) (demand : Option ℕ) (rows : List PipelineTask)
    → (b && any (diagnoses demand) rows) ≡ false
    → All (λ s. (b && diagnoses demand s) ≡ false) rows
no_diagnosis true demand rows h = any-none (diagnoses demand) rows h
no_diagnosis false demand [] h = tt
no_diagnosis false demand (r ∷ rows) h = (refl, no_diagnosis false demand rows h)

insert-Changed :
    (id now : ℕ) (q : NewTask) (db : Store)
    → All (λ (t : PipelineTask). t.id ≢ id) db.tasks
    → Changed db.tasks (insert_task id now q db).1.tasks
unfolding insert_task record_event
insert-Changed id now q db fresh = elim (Bool-cases (any (blocks q.dedupe_key) db.tasks)) [
  | inl taken ↦ rw taken (moves (Goes-all_refl db.tasks))
  | inr free ↦
      let diagnosing = is_type q.task_type demand_diagnosis in
      elim (Bool-cases (diagnosing && any (diagnoses q.knowledge_demand_id) db.tasks)) [
        | inl double ↦ rw (free, double) (moves (Goes-all_refl db.tasks))
        | inr sole ↦
            rw (free, sole)
              (adds (new_task-IsSound id now q) (
                new_task-All id now q db.tasks fresh (any-none (blocks q.dedupe_key) db.tasks free)
                  (no_diagnosis diagnosing q.knowledge_demand_id db.tasks sole)))
      ]
]

Changed-IsSoundStore :
    {before after : List PipelineTask}
    → Changed before after
    → All IsSound before
    → Pairwise Apart before
    → All IsSound after × Pairwise Apart after
Changed-IsSoundStore {before} {after} (moves g) s a = (
  Related-All Goes IsSound (λ r t h. h.stays_sound) before after g s,
  Related-Pairwise Goes Apart Goes-Apart before after g a,
)
Changed-IsSoundStore {before} (adds {t} fits apart) s a =
    (All-append IsSound before (t ∷ []) s (fits, tt), Pairwise-append Apart before t a apart)

Changed-over :
    {before after : List PipelineTask} (t : PipelineTask)
    → Changed before after
    → In t before
    → is_live t.status ≡ false
    → In t after
Changed-over {before} {after} t (moves g) i over =
    let (u, j, h) = Related-In Goes before after t g i in rw (← h.stays_over over) j
Changed-over {before} t (adds {t = r} fits apart) i over = In-append t before (r ∷ []) i

module _ {sha256 : String → String} {stringify : List String → String}
    {no_evidence : String → Bool} where
  Step-Changed :
      {db d : Store}
      → Step sha256 stringify no_evidence db d
      → HasDistinctIds db.tasks
      → Changed db.tasks d.tasks
  Step-Changed (inserts id now q db fresh) u = insert-Changed id now q db fresh
  Step-Changed (claims now lease_seconds locked run_id executor instance_id token protocol db) u =
      moves (
        claim-Goes sha256 stringify no_evidence now lease_seconds locked run_id executor instance_id
          token protocol db u)
  Step-Changed (claims_mechanical now lease_seconds locked worker token db) u =
      moves (claim_mechanical-Goes sha256 now lease_seconds locked worker token db u)
  Step-Changed (beats now lease_seconds locked id token executor instance_id db) u =
      moves (heartbeat-Goes sha256 now lease_seconds locked id token executor instance_id db u)
  Step-Changed (beats_mechanical now lease_seconds id token db) u =
      moves (heartbeat_mechanical-Goes sha256 now lease_seconds id token db)
  Step-Changed (completes now id token result db) u =
      moves (complete-Goes sha256 now id token result db u)
  Step-Changed (fails now id token code message db) u =
      moves (fail-Goes sha256 now id token code message db u)
  Step-Changed (recovers now locked locked_run runs db) u =
      moves (recover-Goes sha256 now locked locked_run runs db)

  Step-IsSoundStore :
      {db d : Store} → Step sha256 stringify no_evidence db d → IsSoundStore db → IsSoundStore d
  Step-IsSoundStore {db} {d} st w =
      let (s, a) =
        Changed-IsSoundStore (Step-Changed st (Apart-HasDistinctKeys db.tasks w.apart)) w.sound
          w.apart in
      record { sound = s; apart = a }

  -- Whatever of the eight operations run, in any order (insertTask, claimPipelineTask,
  -- claimMechanicalPipelineTask, heartbeatPipelineTask, heartbeatMechanicalPipelineTask,
  -- completeMechanicalPipelineTask, failPipelineTask and reconcileExpiredLeases): if before them every row is sound and every
  -- two rows are apart, so they are after. A sound row has a completion time exactly when it is not
  -- live, an owner, a token and a lease while it is held, none of them while it is queued, and at
  -- most ten attempts. Two rows that are apart have different ids; if both are live, different
  -- dedupe keys; and if both are live diagnoses, they are not of one demand.
  pub Reach-IsSoundStore :
      {db d : Store} → IsSoundStore db → Reach sha256 stringify no_evidence db d → IsSoundStore d
  Reach-IsSoundStore w here = w
  Reach-IsSoundStore w (next r st) = Step-IsSoundStore st (Reach-IsSoundStore w r)

  -- From a table whose rows are sound and apart: a row that is completed, failed, cancelled or
  -- skipped stays in the table as it is, in all columns, whichever of the eight operations run
  -- after, in any order: insertTask, claimPipelineTask, claimMechanicalPipelineTask,
  -- heartbeatPipelineTask, heartbeatMechanicalPipelineTask, completeMechanicalPipelineTask,
  -- failPipelineTask and reconcileExpiredLeases. It says nothing of the other writers of the table,
  -- such as acquireSource of the worker, which writes a task by its id without such a test.
  pub Reach-over :
      {db d : Store} (t : PipelineTask)
      → IsSoundStore db
      → Reach sha256 stringify no_evidence db d
      → In t db.tasks
      → is_live t.status ≡ false
      → In t d.tasks
  Reach-over t w here i over = i
  Reach-over t w (next {d} r st) i over =
      let kept = Reach-IsSoundStore w r in
      Changed-over t (Step-Changed st (Apart-HasDistinctKeys d.tasks kept.apart))
        (Reach-over t w r i over) over
