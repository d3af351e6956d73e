-- ===== src/Pipeline/Tasks/Runs.antt =====
-- reconcileTerminalProcessingRunsWithClient of src/domain/intake.ts, which closes the processing
-- runs that are over and ends their queued work. Of its statements, those on the tables
-- intake_job_sources, intake_jobs and active_source_slots are left out: the queue reads none of them.
use clideck_mcp.Prelude.{
  ℕ, String, Bool, true, false, ◌&&◌, ◌||◌, not, Option, none, some, List, [], ◌∷◌, ltb, ◌==◌,
  if◌then◌else◌, str_eq, any,
}
use clideck_mcp.Prelude.Table.{update_rows, select_rows, best_row}
use clideck_mcp.Pipeline.Tasks.Tables.{TaskStatus, PipelineTask, SourceFragment, Store}
use clideck_mcp.Pipeline.Tasks.Columns.{is_held, is_failed, is_queued, id_is, is_after, is_reached}
use clideck_mcp.Pipeline.Tasks.Circuits.{is_none}

-- A row of source_processing_runs, with whether the intake job of its source and version is
-- cancelled.
pub record ProcessingRun : Type 0 where
  pub id : ℕ
  pub status : String
  pub failure_code : Option String
  pub failure_message : Option String
  pub completed_at : Option ℕ
  pub job_cancelled : Bool

abbrev active_processing_run_statuses : List String
active_processing_run_statuses =
    "queued" ∷ "acquiring" ∷ "converting" ∷ "segmenting" ∷ "extracting" ∷ "auditing" ∷ "repairing"
    ∷ "reconciling" ∷ "normalizing" ∷ "publishing" ∷ "paused" ∷ []

abbrev pub run_is_active : ProcessingRun → Bool
run_is_active run = any (str_eq run.status) active_processing_run_statuses

-- `$2::uuid[] IS NULL OR run.id = ANY($2::uuid[])`.
abbrev pub is_asked : Option (List ℕ) → ℕ → Bool
is_asked none id = true
is_asked (some ids) id = any (λ i. i == id) ids

-- The failed task of a run, the latest first.
abbrev pub failed_of : ℕ → PipelineTask → Bool
failed_of run t = id_is t.processing_run_id run && is_failed t.status

-- `completed_at DESC NULLS LAST`, of two times.
abbrev later : Option ℕ → Option ℕ → Bool
later none b = false
later (some a) none = true
later (some a) (some b) = ltb b a

abbrev failed_later : PipelineTask → PipelineTask → Bool
failed_later p q =
    later p.completed_at q.completed_at
    || (not (later q.completed_at p.completed_at) && ltb q.updated_at p.updated_at)

abbrev live_of : ℕ → ℕ → PipelineTask → Bool
live_of now run t = id_is t.processing_run_id run && is_held t.status && is_after t.lease_until now

-- The runs that the first statement closes; other transactions may have locked some.
abbrev pub is_ending :
    (ProcessingRun → Bool) → Option (List ℕ) → ℕ → List PipelineTask → ProcessingRun → Bool
is_ending locked ids now tasks run =
    run_is_active run
    && is_asked ids run.id
    && (any (failed_of run.id) tasks || (run.job_cancelled && not (any (live_of now run.id) tasks)))
    && not (locked run)

abbrev pub coalesce : {A : Type 0} → Option A → A → A
coalesce none a = a
coalesce (some b) a = b

abbrev code_of : Option PipelineTask → Option String
code_of none = none
code_of (some t) = t.failure_code

abbrev message_of : Option PipelineTask → Option String
message_of none = none
message_of (some t) = t.failure_message

unfoldable pub close_run : ℕ → List PipelineTask → ProcessingRun → ProcessingRun
unfolding best_row
close_run now tasks run =
    let task = best_row (failed_of run.id) failed_later tasks in
    record run {
      status = if run.job_cancelled then "cancelled" else "failed";
      failure_code = some (
          coalesce (code_of task)
            (if run.job_cancelled then "INTAKE_JOB_CANCELLED" else "PROCESSING_TASK_FAILED"));
      failure_message = some (
          coalesce (message_of task) (
            if run.job_cancelled
            then "The intake job was cancelled by an administrator."
            else "A terminal run-bound pipeline task failed."));
      completed_at = some now;
    }

abbrev pub run_ids : List ProcessingRun → List ℕ
run_ids [] = []
run_ids (run ∷ runs) = run.id ∷ run_ids runs

-- `processing_run_id = ANY($1::uuid[])`.
abbrev pub of_runs : List ℕ → Option ℕ → Bool
of_runs ids none = false
of_runs ids (some run) = any (λ i. i == run) ids

-- The UPDATE of pipeline_tasks.
abbrev pub awaits : List ℕ → ℕ → PipelineTask → Bool
awaits ids now t =
    of_runs ids t.processing_run_id
    && (is_queued t.status
        || (is_held t.status && (is_none t.lease_until || is_reached t.lease_until now)))

unfoldable pub cancel_run_task : ℕ → PipelineTask → PipelineTask
cancel_run_task now t = record t {
  status = TaskStatus.cancelled;
  claim_owner = none;
  lease_token_hash = none;
  lease_until = none;
  heartbeat_at = none;
  failure_code = some (coalesce t.failure_code "PROCESSING_RUN_TERMINATED");
  failure_message =
      some (coalesce t.failure_message "Task cancelled because its processing run is terminal.");
  completed_at = some (coalesce t.completed_at now);
  updated_at = now;
}

-- The UPDATE of source_fragments.
abbrev reserves : ℕ → SourceFragment → PipelineTask → Bool
reserves now f t =
    id_is f.reservation_task_id t.id && is_held t.status && is_after t.lease_until now

abbrev is_open_fragment : SourceFragment → Bool
is_open_fragment f =
    str_eq f.status "queued" || str_eq f.status "reserved" || str_eq f.status "analyzing"

abbrev loses_run : List ℕ → ℕ → List PipelineTask → SourceFragment → Bool
loses_run ids now tasks f =
    of_runs ids f.processing_run_id && is_open_fragment f && not (any (reserves now f) tasks)

abbrev fail_run_fragment : SourceFragment → SourceFragment
fail_run_fragment f = record f { status = "failed"; reservation_task_id = none }

-- `if (runIds.length === 0) return 0`, and the statements after it.
unfoldable pub end_work : ℕ → List ℕ → Store → Store
unfolding cancel_run_task
end_work now [] db = db
end_work now (id ∷ ids) db =
    let tasks = update_rows (awaits (id ∷ ids) now) (cancel_run_task now) db.tasks in
    record db {
      tasks = tasks;
      fragments = update_rows (loses_run (id ∷ ids) now tasks) fail_run_fragment db.fragments;
    }

-- reconcileTerminalProcessingRunsWithClient, with the table of runs before and after.
unfoldable pub reconcile_terminal_processing_runs :
    (ProcessingRun → Bool)
    → Option (List ℕ)
    → ℕ
    → List ProcessingRun
    → Store
    → List ProcessingRun × Store
unfolding end_work close_run
reconcile_terminal_processing_runs locked ids now runs db =
    let ending = is_ending locked ids now db.tasks in
    (
      update_rows ending (close_run now db.tasks) runs,
      end_work now (run_ids (select_rows ending runs)) db,
    )
