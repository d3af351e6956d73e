-- ===== src/Pipeline/Tasks/Recover.antt =====
-- reconcileExpiredLeasesWithClient of src/domain/pipeline.ts, which gives expired leases back.
use clideck_mcp.Prelude.{
  ℕ, ◌+◌, ◌/◌, min, max, String, Bool, true, false, ◌&&◌, ◌||◌, not, Option, none, some, List, [],
  ◌∷◌, leb, ◌==◌, if◌then◌else◌, str_eq,
}
use clideck_mcp.Prelude.Table.{update_rows, select_rows}
use clideck_mcp.Expert.Store.{TaskRow}
use clideck_mcp.Expert.Store as Expert
use clideck_mcp.Pipeline.Limits.{
  fragment_analysis, candidate_verification, candidate_deep_review, candidate_publication,
}
use clideck_mcp.Pipeline.Tasks.Tables.{
  TaskStatus, PipelineTask, EventType, empty, AgentRun, RunStatus, SourceFragment, Candidate, Store,
}
use clideck_mcp.Pipeline.Tasks.Columns.{
  is_type, is_held, is_failed, run_is_running, id_is, is_reached,
}
use clideck_mcp.Pipeline.Tasks.Queue.{task_event}
use clideck_mcp.Pipeline.Tasks.Runs.{ProcessingRun, reconcile_terminal_processing_runs}

-- `status IN ('claimed', 'running') AND lease_until <= now()`.
abbrev pub lease_has_run_out : ℕ → PipelineTask → Bool
lease_has_run_out now t = is_held t.status && is_reached t.lease_until now

abbrev pub when_some : {A : Type 0} → Bool → A → Option A
when_some true a = some a
when_some false a = none

-- The UPDATE of pipeline_tasks.
unfoldable pub recover_task : ℕ → PipelineTask → PipelineTask
recover_task now t =
    let exhausted = leb 5 t.attempts in
    record t {
      status = if exhausted then TaskStatus.failed else TaskStatus.queued;
      claim_owner = none;
      lease_token_hash = none;
      lease_until = none;
      heartbeat_at = none;
      failure_code = when_some exhausted "LEASE_ATTEMPTS_EXHAUSTED";
      failure_message = when_some exhausted "Pipeline task lease expired too many times.";
      completed_at = when_some exhausted now;
      updated_at = now;
    }

-- The UPDATE of agent_runs.
abbrev pub run_of : ℕ → AgentRun → Bool
run_of task_id r = (r.pipeline_task_id == task_id) && run_is_running r.status

abbrev pub expire_run : ℕ → AgentRun → AgentRun
expire_run now r = record r {
  status = RunStatus.failed;
  error_code = some "LEASE_EXPIRED";
  completed_at = some now;
}

abbrev pub fragment_reserved_by : ℕ → SourceFragment → Bool
fragment_reserved_by task_id f =
    id_is f.reservation_task_id task_id
    && (str_eq f.status "reserved" || str_eq f.status "analyzing")

abbrev pub return_fragment : Bool → ℕ → SourceFragment → SourceFragment
return_fragment exhausted task_id f = record f {
  status = if exhausted then "failed" else "reserved";
  reservation_task_id = when_some (not exhausted) task_id;
}

abbrev pub return_fragments : Bool → ℕ → Store → Store
return_fragments exhausted task_id db = record db {
  fragments =
      update_rows (fragment_reserved_by task_id) (return_fragment exhausted task_id) db.fragments;
}

-- A candidate whose verification gave up goes to deep review.
abbrev pub verified_by : ℕ → Candidate → Bool
verified_by task_id c = id_is c.verification_task_id task_id && str_eq c.status "analyzed"

abbrev pub escalate : ℕ → String → String → Candidate → Candidate
escalate now code reason c = record c {
  status = "deep_review";
  verification_task_id = none;
  resolution_code = some code;
  resolution_reason = some reason;
  next_review_at = some now;
}

abbrev pub reviewed_by : ℕ → Candidate → Bool
reviewed_by task_id c = id_is c.deep_review_task_id task_id && str_eq c.status "deep_review"

abbrev pub return_review : ℕ → Bool → ℕ → Candidate → Candidate
return_review now exhausted task_id c = record c {
  deep_review_task_id = when_some (not exhausted) task_id;
  status = "deep_review";
  next_review_at = some now;
  resolution_reason =
      if exhausted
      then some
          "Deep-review lease attempts were exhausted; candidate remains automatically retryable."
      else c.resolution_reason;
  resolution_code = if exhausted then some "deep_lease_exhausted" else c.resolution_code;
  deep_review_batch_limit =
      if exhausted then max 1 (c.deep_review_batch_limit / 2) else c.deep_review_batch_limit;
  technical_retry_count =
      if exhausted then min 20 (c.technical_retry_count + 1) else c.technical_retry_count;
  last_technical_failure_code =
      if exhausted then some "deep_lease_exhausted" else c.last_technical_failure_code;
}

abbrev pub published_by : ℕ → Candidate → Bool
published_by task_id c = id_is c.publication_task_id task_id && str_eq c.status "verified"

abbrev pub release_publication : Candidate → Candidate
release_publication c = record c { publication_task_id = none }

abbrev pub set_candidates : (Candidate → Bool) → (Candidate → Candidate) → Store → Store
set_candidates test set db = record db { candidates = update_rows test set db.candidates }

-- The UPDATE of expert_tasks.
abbrev pub return_expert : ℕ → Bool → TaskRow → TaskRow
return_expert now exhausted e = record e {
  status = if exhausted then Expert.Status.failed else Expert.Status.queued;
  claim_owner = none;
  lease_token_hash = none;
  lease_until = none;
  heartbeat_at = none;
  failure_code = when_some exhausted "LEASE_ATTEMPTS_EXHAUSTED";
  failure_message = when_some exhausted "Expert task lease expired too many times.";
  completed_at = when_some exhausted now;
  updated_at = now;
}

abbrev pub held_expert : ℕ → TaskRow → Bool
held_expert id e = (e.id == id) && Expert.is_leased e.status

unfoldable pub set_expert : Option ℕ → (TaskRow → TaskRow) → Store → Store
set_expert none set db = db
set_expert (some id) set db = record db { experts = update_rows (held_expert id) set db.experts }

-- `if (b) { … }`.
unfoldable pub when : Bool → (Store → Store) → Store → Store
when true f db = f db
when false f db = db

abbrev pub expire_runs : ℕ → ℕ → Store → Store
expire_runs now task_id db = record db {
  agent_runs = update_rows (run_of task_id) (expire_run now) db.agent_runs;
}

-- The body of `for (const task of expired.rows)`, over the row as the UPDATE returned it.
unfoldable pub recovered_event : PipelineTask → Bool → Store → Store
recovered_event t true db =
    task_event t EventType.failed "Pipeline lease attempts were exhausted." empty db
recovered_event t false db =
    task_event t EventType.retried "Expired pipeline lease returned to the queue." empty db

unfoldable pub recover_one : ℕ → PipelineTask → Store → Store
recover_one now t db =
    let exhausted = is_failed t.status in
    let d1 = expire_runs now t.id db in
    let d2 = when (is_type t.task_type fragment_analysis) (return_fragments exhausted t.id) d1 in
    let d3 =
      when (is_type t.task_type candidate_verification && exhausted)
        (set_candidates (verified_by t.id) (
          escalate now "verification_lease_exhausted"
            "Standard verification lease attempts were exhausted."))
        d2 in
    let d4 =
      when (is_type t.task_type candidate_deep_review)
        (set_candidates (reviewed_by t.id) (return_review now exhausted t.id)) d3 in
    let d5 =
      when (is_type t.task_type candidate_publication && exhausted)
        (set_candidates (published_by t.id) release_publication) d4 in
    recovered_event t exhausted (set_expert t.expert_task_id (return_expert now exhausted) d5)

unfoldable pub recover_all : ℕ → List PipelineTask → Store → Store
unfolding recover_one recovered_event when set_expert
recover_all now [] db = db
recover_all now (t ∷ ts) db = recover_all now ts (recover_one now t db)

-- The rows that the UPDATE returns: those that nobody has locked (SKIP LOCKED), as it left them.
abbrev pub recoverable : (PipelineTask → Bool) → ℕ → PipelineTask → Bool
recoverable locked now t = lease_has_run_out now t && not (locked t)

abbrev pub map_rows : (PipelineTask → PipelineTask) → List PipelineTask → List PipelineTask
map_rows set [] = []
map_rows set (t ∷ ts) = set t ∷ map_rows set ts

-- reconcileExpiredLeasesWithClient up to the reconciliation of the processing runs: its statements
-- on the queue, with the rows that the first of them returns.
unfoldable pub recover_expired : (PipelineTask → Bool) → ℕ → Store → List PipelineTask × Store
unfolding recover_all recover_task
recover_expired locked now db =
    let expired = map_rows (recover_task now) (select_rows (recoverable locked now) db.tasks) in
    (
      expired,
      recover_all now expired
          (record db { tasks = update_rows (recoverable locked now) (recover_task now) db.tasks }),
    )

-- `expired.rows.flatMap(…)`: the processing runs of the rows that were given up.
abbrev pub exhausted_runs : List PipelineTask → List ℕ
exhausted_runs [] = []
exhausted_runs (t ∷ ts) =
    let rest = exhausted_runs ts in
    elim t.processing_run_id as (λ _. List ℕ) [
      | none ↦ rest
      | some run ↦ if is_failed t.status then run ∷ rest else rest
    ]

-- `[...new Set(ids)]`: each id where it stands first.
abbrev pub without : ℕ → List ℕ → List ℕ
without n [] = []
without n (m ∷ ms) = let rest = without n ms in if m == n then rest else m ∷ rest

abbrev pub distinct_ids : List ℕ → List ℕ
distinct_ids [] = []
distinct_ids (n ∷ ns) = n ∷ without n (distinct_ids ns)

-- `if (exhaustedRunIds.length > 0)`.
unfoldable pub end_runs :
    (ProcessingRun → Bool) → List ℕ → ℕ → List ProcessingRun → Store → List ProcessingRun × Store
unfolding reconcile_terminal_processing_runs
end_runs locked_run [] now runs db = (runs, db)
end_runs locked_run (n ∷ ns) now runs db =
    reconcile_terminal_processing_runs locked_run (some (distinct_ids (n ∷ ns))) now runs db

-- reconcileExpiredLeasesWithClient, with the table of processing runs before and after.
unfoldable pub reconcile_expired_leases :
    (PipelineTask → Bool)
    → (ProcessingRun → Bool)
    → ℕ
    → List ProcessingRun
    → Store
    → List ProcessingRun × Store
unfolding recover_expired end_runs
reconcile_expired_leases locked locked_run now runs db =
    let (expired, recovered) = recover_expired locked now db in
    end_runs locked_run (exhausted_runs expired) now runs recovered
