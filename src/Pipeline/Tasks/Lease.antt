-- ===== src/Pipeline/Tasks/Lease.antt =====
-- The holder of a lease: heartbeatPipelineTask, heartbeatMechanicalPipelineTask and
-- completeMechanicalPipelineTask of src/domain/pipeline.ts.
use clideck_mcp.Prelude.{
  ℕ, ◌+◌, ◌-◌, String, Bool, true, false, ◌&&◌, Option, none, some, List, [], ◌∷◌, ◌++◌, ◌==◌, any,
  if◌then◌else◌, str_eq,
}
use clideck_mcp.Prelude.Table.{update_rows}
use clideck_mcp.Expert.Store.{TaskRow}
use clideck_mcp.Expert.Store as Expert
use clideck_mcp.Pipeline.Limits.{fragment_analysis}
use clideck_mcp.Pipeline.Tasks.Tables.{
  TaskStatus, PipelineStage, PipelineTask, EventType, empty, SourceFragment, Field, text, number,
  Store,
}
use clideck_mcp.Pipeline.Tasks.Columns.{task_type_text, is_type, is_ai_task_type, text_is, id_is}
use clideck_mcp.Pipeline.Tasks.Queue.{
  task_event, record_executor_heartbeat, find_pipeline_lease, has_task_id, holds_pipeline_lease,
  complete_task,
}
use clideck_mcp.Pipeline.Tasks.Recover.{set_expert, when}

-- The text of a stage.
abbrev pub stage_text : PipelineStage → String
stage_text PipelineStage.diagnose = "diagnose"
stage_text PipelineStage.discover = "discover"
stage_text PipelineStage.acquire = "acquire"
stage_text PipelineStage.convert = "convert"
stage_text PipelineStage.chunk = "chunk"
stage_text PipelineStage.analyze = "analyze"
stage_text PipelineStage.verify = "verify"
stage_text PipelineStage.deep_review = "deep_review"
stage_text PipelineStage.publish = "publish"
stage_text PipelineStage.system = "system"

-- What heartbeatPipelineTask answers.
pub data Beat : Type 0 where
  renewed : (lease_until : ℕ) → Beat
  update_in_progress : Beat
  lease_lost : Beat
  pipeline_paused : Beat

-- `should_stop`.
abbrev pub should_stop : Beat → Bool
should_stop (renewed t) = false
should_stop update_in_progress = false
should_stop lease_lost = true
should_stop pipeline_paused = true

abbrev pub task_fields : PipelineTask → List (String × Field)
task_fields t =
    ("task_id", number t.id)
    ∷ ("task_type", text (task_type_text t.task_type))
    ∷ ("stage", text (stage_text t.stage))
    ∷ []

-- A task whose run is stopped: back in the queue, and the attempt is given back.
unfoldable pub pause_row : ℕ → PipelineTask → PipelineTask
pause_row now t = record t {
  status = TaskStatus.queued;
  claim_owner = none;
  lease_token_hash = none;
  lease_until = none;
  heartbeat_at = none;
  failure_code = some "PIPELINE_PAUSED";
  failure_message = some "The Luna run was stopped because the pipeline was paused.";
  attempts = t.attempts - 1;
  updated_at = now;
}

abbrev pub pause_fragment : SourceFragment → SourceFragment
pause_fragment f = record f { status = "reserved" }

abbrev pub analyzed_by : ℕ → SourceFragment → Bool
analyzed_by task_id f = id_is f.reservation_task_id task_id && str_eq f.status "analyzing"

abbrev pub pause_expert : ℕ → TaskRow → TaskRow
pause_expert now e = record e {
  status = Expert.Status.queued;
  claim_owner = none;
  lease_token_hash = none;
  lease_until = none;
  heartbeat_at = none;
  failure_code = none;
  failure_message = none;
  attempts = e.attempts - 1;
  completed_at = none;
  updated_at = now;
}

abbrev pub pause_fragments : ℕ → Store → Store
pause_fragments task_id db = record db {
  fragments = update_rows (analyzed_by task_id) pause_fragment db.fragments;
}

unfoldable pub pause_task : ℕ → PipelineTask → Store → Store
pause_task now t db =
    let d1 = record db { tasks = update_rows (has_task_id t.id) (pause_row now) db.tasks } in
    let d2 = when (is_type t.task_type fragment_analysis) (pause_fragments t.id) d1 in
    set_expert t.expert_task_id (pause_expert now) d2

unfoldable pub renew_row : (now lease_until : ℕ) → PipelineTask → PipelineTask
renew_row now lease_until t = record t {
  heartbeat_at = some now;
  lease_until = some lease_until;
  updated_at = now;
}

abbrev pub has_lease_hash : ℕ → String → PipelineTask → Bool
has_lease_hash id hash t = (t.id == id) && text_is t.lease_token_hash hash

abbrev pub has_expert_hash : ℕ → String → TaskRow → Bool
has_expert_hash id hash e = (e.id == id) && text_is e.lease_token_hash hash

abbrev pub renew_expert : (now lease_until : ℕ) → TaskRow → TaskRow
renew_expert now lease_until e = record e {
  heartbeat_at = some now;
  lease_until = some lease_until;
  updated_at = now;
}

abbrev pub renew_expert_lease : (now lease_until : ℕ) → String → Option ℕ → Store → Store
renew_expert_lease now lease_until hash none db = db
renew_expert_lease now lease_until hash (some id) db = record db {
  experts = update_rows (has_expert_hash id hash) (renew_expert now lease_until) db.experts;
}

unfoldable pub renew_task : (now lease_until : ℕ) → String → PipelineTask → Store → Store
renew_task now lease_until hash t db =
    renew_expert_lease now lease_until hash t.expert_task_id (record db {
      tasks = update_rows (has_lease_hash t.id hash) (renew_row now lease_until) db.tasks;
    })

module _ (sha256 : String → String) (now lease_seconds : ℕ) (locked : PipelineTask → Bool) where
  -- The lease is held, and nobody else has the row locked: the lease is renewed, unless the
  -- pipeline is not enabled.
  abbrev pub held_beat : String → String → String → PipelineTask → Store → Bool → Beat × Store
  held_beat token executor instance_id t db true =
      let lease_until = now + lease_seconds in
      (
        renewed lease_until,
        record_executor_heartbeat now executor instance_id
            (("status", text "running") ∷ task_fields t ++ ("lease_until", number lease_until) ∷ [])
            (renew_task now lease_until (sha256 token) t db),
      )
  held_beat token executor instance_id t db false = (
    pipeline_paused,
    task_event t EventType.paused "The active Luna run was stopped and safely requeued." empty (
        record_executor_heartbeat now executor instance_id
          (("status", text "paused")
            ∷ ("previous_task_id", number t.id)
            ∷ ("previous_stage", text (stage_text t.stage))
            ∷ [])
          (pause_task now t db)),
  )

  -- The row is locked by a transaction in progress, or the lease is lost.
  abbrev pub unheld_beat : String → String → ℕ → Option PipelineTask → Store → Beat × Store
  unheld_beat executor instance_id task_id (some t) db = (
    update_in_progress,
    record_executor_heartbeat now executor instance_id
        (("status", text "running") ∷ ("reason", text "task_update_in_progress") ∷ task_fields t)
        db,
  )
  unheld_beat executor instance_id task_id none db = (
    lease_lost,
    record_executor_heartbeat now executor instance_id
        (("status", text "standby")
          ∷ ("reason", text "lease_lost")
          ∷ ("previous_task_id", number task_id)
          ∷ [])
        db,
  )

  abbrev pub beat_found : ℕ → String → String → String → Store → Option PipelineTask → Beat × Store
  beat_found task_id token executor instance_id db (some t) =
      held_beat token executor instance_id t db db.settings.enabled
  beat_found task_id token executor instance_id db none =
      unheld_beat executor instance_id task_id
        (find_pipeline_lease sha256 now (λ _. false) task_id token db) db

  -- heartbeatPipelineTask.
  unfoldable pub heartbeat_pipeline_task :
      (task_id : ℕ) (token executor instance_id : String) → Store → Beat × Store
  unfolding find_pipeline_lease renew_task pause_task when set_expert
  heartbeat_pipeline_task task_id token executor instance_id db =
      beat_found task_id token executor instance_id db
        (find_pipeline_lease sha256 now locked task_id token db)

-- heartbeatMechanicalPipelineTaskWithClient.
unfoldable pub heartbeat_mechanical :
    (String → String) → (now lease_seconds task_id : ℕ) → String → Store → Bool × Store
heartbeat_mechanical sha256 now lease_seconds task_id token db =
    let holds = holds_pipeline_lease task_id (sha256 token) now in
    (
      any holds db.tasks,
      record db { tasks = update_rows holds (renew_row now (now + lease_seconds)) db.tasks },
    )

-- What the operations of a lease's holder throw.
pub data LeaseError : Type 0 where
  pipeline_lease_invalid pipeline_task_type_invalid : LeaseError

pub data Outcome (A : Type 0) : Type 0 where
  ok : A → Outcome A
  err : LeaseError → Outcome A

-- completeMechanicalPipelineTask, without the processing run that it makes for an acquisition which
-- has none. The row's lock is waited for.
abbrev pub finish : (now : ℕ) → String → Store → Option PipelineTask → Outcome Store
finish now result db none = err pipeline_lease_invalid
finish now result db (some t) =
    if is_ai_task_type t.task_type
    then err pipeline_task_type_invalid
    else ok (complete_task now t result db)

unfoldable pub complete_mechanical :
    (String → String) → (now task_id : ℕ) → (token result : String) → Store → Outcome Store
unfolding find_pipeline_lease complete_task
complete_mechanical sha256 now task_id token result db =
    finish now result db (find_pipeline_lease sha256 now (λ _. false) task_id token db)
