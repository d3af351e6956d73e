-- ===== src/Pipeline/Tasks/Queue.antt =====
-- The writes of src/domain/pipeline.ts that every operation of the queue shares: recordEvent,
-- recordExecutorHeartbeat, insertTask and completeTask, and findPipelineLease.
use Prim.Native.String
use Prim.Native.Char.{code}
use clideck_mcp.Prelude.{
  ℕ, zero, suc, String, Bool, true, false, ◌&&◌, not, Option, none, some, List, [], ◌∷◌, ◌++◌, ◌==◌,
  if◌then◌else◌, str_eq, any,
}
use clideck_mcp.Prelude.Int.{ℤ}
use clideck_mcp.Prelude.Table.{update_rows, first_row}
use clideck_mcp.Pipeline.Limits.{TaskType, demand_diagnosis, candidate_deep_review}
use clideck_mcp.Pipeline.Tasks.Tables.{
  TaskStatus, PipelineStage, Payload, PipelineTask, EventType, Metadata, empty, Field, Heartbeat,
  Store,
}
use clideck_mcp.Pipeline.Tasks.Columns.{
  task_type_text, is_live, is_running, text_is, is_after, is_type,
}

-- `left($5, 1000)`.
abbrev pub left : ℕ → String → String
left zero s = ""
left (suc n) String.[] = ""
left (suc n) (String.◌∷◌ c s) = String.◌∷◌ c (left n s)

-- `type.replaceAll('_', ' ')`.
abbrev pub spaced : String → String
spaced String.[] = ""
spaced (String.◌∷◌ c s) =
    if code c == b'_' then String.◌++◌ " " (spaced s) else String.◌∷◌ c (spaced s)

abbrev pub concat3 : String → String → String → String
concat3 a b c = String.◌++◌ a (String.◌++◌ b c)

-- recordEvent.
unfoldable pub record_event :
    Option ℕ → Option ℕ → PipelineStage → EventType → String → Metadata → Store → Store
record_event task_id source_id stage event message metadata db = record db {
  events =
      db.events
      ++ record {
        task_id = task_id;
        source_id = source_id;
        stage = stage;
        event = event;
        message = left 1000 message;
        metadata = metadata;
      }
        ∷ [];
}

-- The event of a task's row.
abbrev pub task_event : PipelineTask → EventType → String → Metadata → Store → Store
task_event t = record_event (some t.id) t.source_candidate_id t.stage

-- `ON CONFLICT (worker_name) DO UPDATE`.
abbrev pub has_worker : String → Heartbeat → Bool
has_worker name h = str_eq h.worker_name name

unfoldable pub record_executor_heartbeat :
    ℕ → String → String → List (String × Field) → Store → Store
record_executor_heartbeat now executor instance_id metadata db =
    let beat : Heartbeat = record {
      worker_name = executor;
      instance_id = instance_id;
      heartbeat_at = now;
      metadata = metadata;
    } in
    record db {
      heartbeats =
          if any (has_worker executor) db.heartbeats
          then update_rows (has_worker executor) (λ _. beat) db.heartbeats
          else db.heartbeats ++ beat ∷ [];
    }

-- The trigger assign_pipeline_execution_profile of migrations/043_pipeline_execution_profiles.sql.
abbrev pub profile_of : TaskType → String → Payload → String
profile_of task_type effort payload =
    if is_type task_type demand_diagnosis
    then "luna_high"
    else if is_type task_type candidate_deep_review
        && (if str_eq effort "medium" then true else text_is payload.review_pass "fallback_low")
    then "luna_high"
    else "luna"

-- The argument of insertTask.
pub record NewTask : Type 0 where
  pub task_type : TaskType
  pub stage : PipelineStage
  pub priority : ℤ
  pub dedupe_key : String
  pub coverage_target_id : Option ℕ
  pub source_id : Option ℕ
  pub expert_task_id : Option ℕ
  pub knowledge_demand_id : Option ℕ
  pub payload : Payload
  pub reasoning_effort : Option String
  pub queue_class : Option String
  pub processing_run_id : Option ℕ

abbrev pub or_text : Option String → String → String
or_text none s = s
or_text (some t) s = t

abbrev pub class_of : Option ℕ → String
class_of none = "baseline"
class_of (some demand) = "demand"

-- The row that insertTask inserts, with the defaults of the columns.
unfoldable pub new_task : (id now : ℕ) → NewTask → PipelineTask
new_task id now q =
    let effort = or_text q.reasoning_effort "low" in
    record {
      id = id;
      task_type = q.task_type;
      stage = q.stage;
      status = TaskStatus.queued;
      priority = q.priority;
      coverage_target_id = q.coverage_target_id;
      source_candidate_id = q.source_id;
      expert_task_id = q.expert_task_id;
      knowledge_demand_id = q.knowledge_demand_id;
      processing_run_id = q.processing_run_id;
      dedupe_key = q.dedupe_key;
      payload = q.payload;
      result = none;
      requested_reasoning_effort = effort;
      execution_profile = profile_of q.task_type effort q.payload;
      queue_class = or_text q.queue_class (class_of q.knowledge_demand_id);
      claim_owner = none;
      lease_token_hash = none;
      lease_until = none;
      heartbeat_at = none;
      attempts = 0;
      available_at = now;
      failure_code = none;
      failure_message = none;
      created_at = now;
      updated_at = now;
      completed_at = none;
    }

-- The partial unique index on dedupe_key.
abbrev pub blocks : String → PipelineTask → Bool
blocks key t = is_live t.status && str_eq t.dedupe_key key

-- The unique index pipeline_tasks_live_diagnosis_per_demand_idx.
abbrev pub same_id : Option ℕ → Option ℕ → Bool
same_id none b = false
same_id (some i) none = false
same_id (some i) (some j) = i == j

abbrev pub diagnoses : Option ℕ → PipelineTask → Bool
diagnoses demand t =
    is_live t.status && is_type t.task_type demand_diagnosis && same_id t.knowledge_demand_id demand

-- insertTask: the id of the new row, null on a conflict of dedupe keys, or the error of the index.
pub data Insertion : Type 0 where
  inserted : ℕ → Insertion
  conflict : Insertion
  unique_violation : Insertion

unfoldable pub insert_task : (id now : ℕ) → NewTask → Store → Insertion × Store
unfolding new_task
insert_task id now q db =
    if any (blocks q.dedupe_key) db.tasks
    then (conflict, db)
    else if is_type q.task_type demand_diagnosis && any (diagnoses q.knowledge_demand_id) db.tasks
    then (unique_violation, db)
    else (
      inserted id,
      record_event (some id) q.source_id q.stage EventType.queued
          (concat3 "Queued " (spaced (task_type_text q.task_type)) " work.") empty
          (record db { tasks = db.tasks ++ new_task id now q ∷ [] }),
    )

-- `WHERE id = $1 AND status = 'running' AND lease_until > now() AND lease_token_hash = $2`.
abbrev pub holds_pipeline_lease : ℕ → String → ℕ → PipelineTask → Bool
holds_pipeline_lease task_id token_hash now t =
    (t.id == task_id)
    && is_running t.status
    && is_after t.lease_until now
    && text_is t.lease_token_hash token_hash

-- findPipelineLease. The row lock is taken by FOR UPDATE; with SKIP LOCKED, rows that another
-- transaction has locked are passed over.
unfoldable pub find_pipeline_lease :
    (String → String) → ℕ → (PipelineTask → Bool) → ℕ → String → Store → Option PipelineTask
find_pipeline_lease sha256 now locked task_id token db =
    first_row (λ t. holds_pipeline_lease task_id (sha256 token) now t && not (locked t)) db.tasks

abbrev pub has_task_id : ℕ → PipelineTask → Bool
has_task_id id t = t.id == id

-- The UPDATE of completeTask.
unfoldable pub complete_row : ℕ → String → PipelineTask → PipelineTask
complete_row now result t = record t {
  status = TaskStatus.completed;
  result = some result;
  failure_code = none;
  failure_message = none;
  claim_owner = none;
  lease_token_hash = none;
  lease_until = none;
  completed_at = some now;
  updated_at = now;
}

-- completeTask.
unfoldable pub complete_task : ℕ → PipelineTask → String → Store → Store
complete_task now t result db =
    task_event t EventType.completed
      (concat3 "Completed " (spaced (task_type_text t.task_type)) " work.") (Metadata.result result)
      (record db { tasks = update_rows (has_task_id t.id) (complete_row now result) db.tasks })
