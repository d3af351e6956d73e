-- ===== src/Pipeline/Tasks/Steps.antt =====
-- Each operation of the queue takes the rows of pipeline_tasks on one by one.
pub mod Claims
use clideck_mcp.Prelude.{
  ℕ, ◌+◌, String, Bool, true, false, ◌&&◌, not, Option, none, some, List, [], ◌∷◌, ◌≡◌, ◌⊎◌, refl,
  sym, inl, inr, arith, All, ltb, ◌==◌, Bool-cases, Option-cases, if◌then◌else◌, if_both, ==_iff,
}
use clideck_mcp.Prelude.Table.{
  update_rows, In, Related, first_row-In, first_row-none, All-each, All-map, Related-refl,
  Related-trans, update_rows-Related,
}
use clideck_mcp.Prelude.Table.Best.{best_row-In}
use clideck_mcp.Prelude.Table.Keys.{HasDistinctKeys, In-unique, update_by_key-Related}
use clideck_mcp.Pipeline.Limits.{is_non_blocking_ai}
use clideck_mcp.Pipeline.Tasks.Tables.{PipelineTask, Store}
use clideck_mcp.Pipeline.Tasks.Columns.{is_running, is_held, is_queued, is_ai_task_type, text_is}
use clideck_mcp.Pipeline.Tasks.Queue.{
  record_event, record_executor_heartbeat, find_pipeline_lease, holds_pipeline_lease, complete_row,
  complete_task,
}
use clideck_mcp.Pipeline.Tasks.Runs.{ProcessingRun, awaits, cancel_run_task}
use clideck_mcp.Pipeline.Tasks.Recover.{
  recoverable, recover_task, recover_expired, exhausted_runs, reconcile_expired_leases,
}
use clideck_mcp.Pipeline.Tasks.Ended.{end_runs-Ended}
use clideck_mcp.Pipeline.Tasks.Lease.{
  pause_row, renew_row, renew_task, has_lease_hash, held_beat, unheld_beat, heartbeat_pipeline_task,
  heartbeat_mechanical, Outcome, ok, err, finish, complete_mechanical,
}
use clideck_mcp.Pipeline.Tasks.Fail.{fail_row, is_retrying}
use clideck_mcp.Pipeline.Tasks.FailTask.{fail_found, fail_pipeline_task}
use clideck_mcp.Pipeline.Tasks.Rows
use clideck_mcp.Pipeline.Tasks.Rows.{Goes, Goes-refl, Goes-trans}
use clideck_mcp.Pipeline.Tasks.Writes.{
  fail_task-tasks, recover_all-tasks, pause_task-tasks, renew_task-tasks,
}

-- The primary key.
abbrev pub task_id : PipelineTask → ℕ
task_id t = t.id

abbrev pub HasDistinctIds : List PipelineTask → Type 0
HasDistinctIds = HasDistinctKeys task_id

-- The store after an operation that may throw.
abbrev pub after_outcome : {A : Type 0} → (A → Store) → Outcome A → Store → Store
after_outcome f (ok a) db = f a
after_outcome f (err e) db = db

pub Goes-all_refl : (rows : List PipelineTask) → Related Goes rows rows
Goes-all_refl = Related-refl Goes Goes-refl

pub Goes-by_id :
    (set : PipelineTask → PipelineTask) (rows : List PipelineTask) (t : PipelineTask)
    → HasDistinctIds rows
    → In t rows
    → Goes t (set t)
    → Related Goes rows (update_rows (λ r. r.id == t.id) set rows)
Goes-by_id = update_by_key-Related task_id Goes Goes-refl

pub Goes-where :
    (test : PipelineTask → Bool) (set : PipelineTask → PipelineTask) (rows : List PipelineTask)
    → ((r : PipelineTask) → test r ≡ true → Goes r (set r))
    → Related Goes rows (update_rows test set rows)
Goes-where test set rows h =
    update_rows-Related Goes Goes-refl test set rows
      (All-each (λ r. test r ≡ true → Goes r (set r)) h rows)

-- The row that findPipelineLease finds is in the table, and its lease is held by the token.
pub found_lease :
    (sha256 : String → String) (now : ℕ) (locked : PipelineTask → Bool) (id : ℕ) (token : String)
    (db : Store) {t : PipelineTask}
    → find_pipeline_lease sha256 now locked id token db ≡ some t
    → In t db.tasks × (holds_pipeline_lease id (sha256 token) now t ≡ true)
unfolding find_pipeline_lease
found_lease sha256 now locked id token db e =
    let (i, h) = first_row-In _ db.tasks e in (i, ground arith)

-- Where it finds none, no row is held so.
pub lost_lease :
    (sha256 : String → String) (now id : ℕ) (token : String) (db : Store)
    → find_pipeline_lease sha256 now (λ _. false) id token db ≡ none
    → All (λ t. ¬ (holds_pipeline_lease id (sha256 token) now t ≡ true)) db.tasks
unfolding find_pipeline_lease
lost_lease sha256 now id token db e =
    All-map (λ t. (holds_pipeline_lease id (sha256 token) now t && not false) ≡ false)
      (λ t. ¬ (holds_pipeline_lease id (sha256 token) now t ≡ true)) (λ t u held. ground arith)
      db.tasks (first_row-none _ db.tasks e)

pub holds-running :
    (id : ℕ) (hash : String) (now : ℕ) (t : PipelineTask)
    → holds_pipeline_lease id hash now t ≡ true
    → is_running t.status ≡ true
holds-running id hash now t h = ground arith

module _ (sha256 : String → String) (now : ℕ) where
  pub fail-Goes :
      (id : ℕ) (token code message : String) (db : Store)
      → HasDistinctIds db.tasks
      → Related Goes db.tasks
          (after_outcome
            (λ (r : Bool × Store). r.1)
            (fail_pipeline_task sha256 now id token code message db)
            db).tasks
  unfolding fail_pipeline_task
  fail-Goes id token code message db d =
      elim (Option-cases (find_pipeline_lease sha256 now (λ _. false) id token db)) [
        | inl lost ↦ rw lost (Goes-all_refl db.tasks)
        | inr (t, found) ↦
            let (i, h) = found_lease sha256 now (λ _. false) id token db found in
            let retrying = is_retrying t code message in
            rw found (
              rw (fail_task-tasks now code message retrying t db) (
                Goes-by_id (fail_row now code message retrying) db.tasks t d i (
                  Rows.fail_row-Goes now code message retrying t
                    (holds-running id (sha256 token) now t h))))
      ]

  pub complete_task-Goes :
      (result : String) (t : PipelineTask) (db : Store)
      → HasDistinctIds db.tasks
      → In t db.tasks
      → is_running t.status ≡ true
      → Related Goes db.tasks (complete_task now t result db).tasks
  unfolding complete_task record_event
  complete_task-Goes result t db d i h =
      Goes-by_id (complete_row now result) db.tasks t d i (Rows.complete_row-Goes now result t h)

  pub complete-Goes :
      (id : ℕ) (token result : String) (db : Store)
      → HasDistinctIds db.tasks
      → Related Goes db.tasks
          (after_outcome (λ d. d) (complete_mechanical sha256 now id token result db) db).tasks
  unfolding complete_mechanical
  complete-Goes id token result db d =
      elim (Option-cases (find_pipeline_lease sha256 now (λ _. false) id token db)) [
        | inl lost ↦ rw lost (Goes-all_refl db.tasks)
        | inr (t, found) ↦
            let (i, h) = found_lease sha256 now (λ _. false) id token db found in
            elim (Bool-cases (is_ai_task_type t.task_type)) [
              | inl other ↦ rw (found, other) (Goes-all_refl db.tasks)
              | inr mine ↦
                  rw (found, mine)
                    (complete_task-Goes result t db d i (holds-running id (sha256 token) now t h))
            ]
      ]

  recover_expired-Goes :
      (locked : PipelineTask → Bool) (db : Store)
      → Related Goes db.tasks (recover_expired locked now db).1.tasks
  unfolding recover_expired
  recover_expired-Goes locked db = rw (recover_all-tasks now _ _) (
      Goes-where (recoverable locked now) (recover_task now) db.tasks
        (λ r hit. Rows.recover_task-Goes now r (ground arith)))

  pub recover-Goes :
      (locked : PipelineTask → Bool) (locked_run : ProcessingRun → Bool) (runs : List ProcessingRun)
      (db : Store)
      → Related Goes db.tasks (reconcile_expired_leases locked locked_run now runs db).1.tasks
  unfolding reconcile_expired_leases
  recover-Goes locked locked_run runs db =
      let (expired, recovered) = recover_expired locked now db in
      let ended = end_runs-Ended locked_run (exhausted_runs expired) now runs recovered in
      Related-trans Goes Goes-trans db.tasks recovered.tasks _ (recover_expired-Goes locked db) (
        rw ended.rows (
          Goes-where (awaits ended.ids now) (cancel_run_task now) recovered.tasks
            (λ r hit. Rows.cancel_run_task-Goes now r (ground arith))))

  pub heartbeat_mechanical-Goes :
      (lease_seconds id : ℕ) (token : String) (db : Store)
      → Related Goes db.tasks (heartbeat_mechanical sha256 now lease_seconds id token db).1.tasks
  unfolding heartbeat_mechanical
  heartbeat_mechanical-Goes lease_seconds id token db =
      Goes-where (holds_pipeline_lease id (sha256 token) now) (renew_row now (now + lease_seconds))
        db.tasks
        (λ r hit.
          Rows.renew_row-Goes now (now + lease_seconds) r
            (holds-running id (sha256 token) now r hit))

  -- A heartbeat renews the lease, or gives the task back where the pipeline is paused.
  renew-Goes :
      (lease_until id : ℕ) (token : String) (db : Store) (t : PipelineTask)
      → HasDistinctIds db.tasks
      → In t db.tasks
      → is_running t.status ≡ true
      → Related Goes db.tasks (renew_task now lease_until (sha256 token) t db).tasks
  renew-Goes lease_until id token db t d i h =
      rw (renew_task-tasks now lease_until (sha256 token) t db) (
        update_rows-Related Goes Goes-refl (has_lease_hash t.id (sha256 token))
          (renew_row now lease_until) db.tasks (only db.tasks (In-unique task_id db.tasks t d i)))
    where
      only :
          (rs : List PipelineTask)
          → All (λ r. task_id r ≡ task_id t → r ≡ t) rs
          → All
              (λ r.
                has_lease_hash t.id (sha256 token) r ≡ true → Goes r (renew_row now lease_until r))
              rs
      only [] u = tt
      only (r ∷ rs) (u, us) = (
        (λ hit.
            let same : r ≡ t = u (ground arith) in
            rw same (Rows.renew_row-Goes now lease_until t h)),
        only rs us,
      )

  pub heartbeat-Goes :
      (lease_seconds : ℕ) (locked : PipelineTask → Bool) (id : ℕ)
      (token executor instance_id : String) (db : Store)
      → HasDistinctIds db.tasks
      → Related Goes db.tasks
          (heartbeat_pipeline_task sha256 now lease_seconds locked id token executor instance_id
            db).1.tasks
  unfolding heartbeat_pipeline_task record_event record_executor_heartbeat
  heartbeat-Goes lease_seconds locked id token executor instance_id db d =
      elim (Option-cases (find_pipeline_lease sha256 now locked id token db)) [
        | inl lost ↦ rw lost (unheld (find_pipeline_lease sha256 now (λ _. false) id token db))
        | inr (t, found) ↦
            let (i, h) = found_lease sha256 now locked id token db found in
            rw found (held t i (holds-running id (sha256 token) now t h) db.settings.enabled)
      ]
    where
      unheld :
          (o : Option PipelineTask)
          → Related Goes db.tasks
              (unheld_beat sha256 now lease_seconds locked executor instance_id id o db).1.tasks
      unheld none = Goes-all_refl db.tasks
      unheld (some t) = Goes-all_refl db.tasks

      held :
          (t : PipelineTask)
          → In t db.tasks
          → is_running t.status ≡ true
          → (enabled : Bool)
          → Related Goes db.tasks
              (held_beat sha256 now lease_seconds locked token executor instance_id t db
                enabled).1.tasks
      held t i run true = renew-Goes (now + lease_seconds) id token db t d i run
      held t i run false =
          rw (pause_task-tasks now t db)
            (Goes-by_id (pause_row now) db.tasks t d i (Rows.pause_row-Goes now t run))
