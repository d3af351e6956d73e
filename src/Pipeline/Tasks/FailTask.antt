-- ===== src/Pipeline/Tasks/FailTask.antt =====
-- failPipelineTask of src/domain/pipeline.ts: what a failure writes for a task, in its order.
use clideck_mcp.Prelude.{ℕ, String, Bool, true, false, ◌&&◌, not, Option, none, some, if◌then◌else◌}
use Prim.Native.String
use clideck_mcp.Prelude.Table.{update_rows}
use clideck_mcp.Pipeline.Limits.{
  fragment_analysis, candidate_verification, candidate_deep_review, candidate_publication,
  is_non_blocking_ai, demand_failure_disposition,
}
use clideck_mcp.Pipeline.Tasks.Tables.{PipelineTask, EventType, Metadata, Store}
use clideck_mcp.Pipeline.Tasks.Columns.{is_type, id_is}
use clideck_mcp.Pipeline.Tasks.Queue.{task_event, find_pipeline_lease, has_task_id}
use clideck_mcp.Pipeline.Tasks.Messages.{should_reduce_deep_review_batch_on_failure}
use clideck_mcp.Pipeline.Tasks.Recover.{
  return_fragments, verified_by, escalate, published_by, release_publication, set_candidates,
  set_expert, when,
}
use clideck_mcp.Pipeline.Tasks.Lease.{Outcome, ok, err, pipeline_lease_invalid}
use clideck_mcp.Pipeline.Tasks.Fail.{
  is_retrying, fail_row, fail_demand, set_demand, fail_expert, deep_reviewed_by, fail_review,
  retry_source_status, fail_source, set_source, clear_active, keeps_target, fail_coverage,
}

module _ (now : ℕ) (code message : String) (retrying : Bool) (t : PipelineTask) where
  -- The source's status: a failure of a stage that does not block leaves it in analysis.
  abbrev pub fail_source_status : ℕ → Store → Store
  fail_source_status id db =
      let blocks = not (is_non_blocking_ai t.task_type) in
      let d1 = when (not blocks) (set_source id (fail_source "analyzing" code message)) db in
      let d2 =
        when (blocks && retrying)
          (set_source id (fail_source (retry_source_status t.task_type) code message)) d1 in
      let d3 =
        when (blocks && not retrying) (set_source id (fail_source "failed" code message)) d2 in
      when (blocks && not retrying && id_is db.settings.active_source_id id) clear_active d3

  -- `if (task.source_candidate_id) { … }`.
  abbrev pub fail_source_work : Option ℕ → Store → Store
  fail_source_work none db = db
  fail_source_work (some id) db =
      let deep = is_type t.task_type candidate_deep_review in
      let reduce = deep && should_reduce_deep_review_batch_on_failure code message in
      let d1 =
        when (is_type t.task_type fragment_analysis) (return_fragments (not retrying) t.id) db in
      let d2 =
        when (is_type t.task_type candidate_verification && not retrying)
          (set_candidates (verified_by t.id) (
            escalate now "verification_attempts_exhausted"
              "Standard verification exhausted automatic retries."))
          d1 in
      let d3 =
        when deep
          (set_candidates (deep_reviewed_by t.id)
            (fail_review now code message retrying reduce t.id))
          d2 in
      fail_source_status id d3

  abbrev pub fail_target : Option ℕ → Store → Store
  fail_target none db = db
  fail_target (some id) db =
      when (not retrying && not (keeps_target t.task_type)) (fail_coverage now id) db

  abbrev pub fail_event : Store → Store
  fail_event db =
      task_event t (if retrying then EventType.retried else EventType.failed)
        (if retrying then String.◌++◌ "Stage returned to the queue: " message else message)
        (Metadata.failure_code code) db

  -- What failPipelineTask writes for the task `t` that it found.
  unfoldable pub fail_task : Store → Store
  fail_task db =
      let disposition =
        demand_failure_disposition
          (elim t.knowledge_demand_id as (λ _. Bool) [ none ↦ false | some d ↦ true ]) t.task_type
          retrying in
      let d1 = record db {
        tasks = update_rows (has_task_id t.id) (fail_row now code message retrying) db.tasks;
      } in
      let d2 = set_demand t.knowledge_demand_id (fail_demand now code retrying disposition t) d1 in
      let d3 =
        when (is_type t.task_type candidate_publication && not retrying)
          (set_candidates (published_by t.id) release_publication) d2 in
      let d4 = set_expert t.expert_task_id (fail_expert now code message retrying) d3 in
      fail_event (fail_target t.coverage_target_id (fail_source_work t.source_candidate_id d4))

abbrev pub fail_found :
    (now : ℕ) (code message : String) → Store → Option PipelineTask → Outcome (Bool × Store)
fail_found now code message db none = err pipeline_lease_invalid
fail_found now code message db (some t) =
    let retrying = is_retrying t code message in
    ok (retrying, fail_task now code message retrying t db)

-- failPipelineTask, which answers whether the task is retried. The row that findPipelineLease
-- selects has no processing_run_id, so the guard of reconcileTerminalProcessingRunsWithClient at
-- the end is never met.
unfoldable pub fail_pipeline_task :
    (sha256 : String → String) (now task_id : ℕ) (token code message : String)
    → Store
    → Outcome (Bool × Store)
unfolding find_pipeline_lease is_retrying fail_task fail_demand when set_expert fail_row
fail_pipeline_task sha256 now task_id token code message db =
    fail_found now code message db (find_pipeline_lease sha256 now (λ _. false) task_id token db)
