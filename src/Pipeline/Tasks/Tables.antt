-- ===== src/Pipeline/Tasks/Tables.antt =====
-- The tables that the pipeline's task queue works on, in src/domain/pipeline.ts. Times are seconds,
-- a uuid is a number, a bytea hash is a text, and `now()` is an argument of each operation. The
-- columns of other tables are those that the queue's operations read or write.
use clideck_mcp.Prelude.{ℕ, String, Bool, Option, List}
use clideck_mcp.Prelude.Int.{ℤ}
use clideck_mcp.Pipeline.Limits.{TaskType}
use clideck_mcp.Expert.Store.{TaskRow, PublicEvent}

-- The status column of pipeline_tasks.
pub data TaskStatus : Type 0 where
  queued claimed running completed failed cancelled skipped : TaskStatus

-- PipelineTaskRow['stage'], and the stage 'system' of an event.
pub data PipelineStage : Type 0 where
  diagnose discover acquire convert chunk analyze verify deep_review publish system : PipelineStage

-- The keys of a task's payload that the queue reads or writes, and the rest of the object.
pub record Payload : Type 0 where
  pub model_fallback_attempted_for : Option String
  pub audit_mode : Option String
  pub quality_extraction_model : Option String
  pub quality_extraction_reasoning_effort : Option String
  pub quality_profile_key : Option String
  pub review_pass : Option String
  pub processing_run_id : Option ℕ
  pub fragments : List ℕ
  pub rest : String

-- A row of pipeline_tasks.
pub record PipelineTask : Type 0 where
  pub id : ℕ
  pub task_type : TaskType
  pub stage : PipelineStage
  pub status : TaskStatus
  pub priority : ℤ
  pub coverage_target_id : Option ℕ
  pub source_candidate_id : Option ℕ
  pub expert_task_id : Option ℕ
  pub knowledge_demand_id : Option ℕ
  pub processing_run_id : Option ℕ
  pub dedupe_key : String
  pub payload : Payload
  pub result : Option String
  pub requested_reasoning_effort : String
  pub execution_profile : String
  pub queue_class : String
  pub claim_owner : Option String
  pub lease_token_hash : Option String
  pub lease_until : Option ℕ
  pub heartbeat_at : Option ℕ
  pub attempts : ℕ
  pub available_at : ℕ
  pub failure_code : Option String
  pub failure_message : Option String
  pub created_at : ℕ
  pub updated_at : ℕ
  pub completed_at : Option ℕ

pub data EventType : Type 0 where
  queued claimed started progress completed failed retried paused resumed skipped : EventType

-- ExecutionProfile: pipeline_execution_profiles. The fallback's model and effort are both NULL or
-- neither (a constraint of the table).
pub record ExecutionProfile : Type 0 where
  pub profile_id : String
  pub model : String
  pub reasoning_effort : String
  pub fallback : Option (String × String)

-- The metadata of an event: none, the code of a failure, or a task's result as JSON.
pub data Metadata : Type 0 where
  empty : Metadata
  failure_code : String → Metadata
  result : String → Metadata
  settings_change :
      (version capacity : ℕ) (profiles : List ExecutionProfile) (expected_version new_capacity : ℕ)
      (new_profiles : List ExecutionProfile)
      → Metadata

-- pipeline_events.
pub record PipelineEvent : Type 0 where
  pub task_id : Option ℕ
  pub source_id : Option ℕ
  pub stage : PipelineStage
  pub event : EventType
  pub message : String
  pub metadata : Metadata

pub data RunStatus : Type 0 where
  running completed failed timed_out cancelled : RunStatus

-- agent_runs.
pub record AgentRun : Type 0 where
  pub id : ℕ
  pub pipeline_task_id : ℕ
  pub model : String
  pub reasoning_effort : String
  pub execution_profile : Option String
  pub settings_version : ℕ
  pub fallback_from_model : Option String
  pub executor_id : Option String
  pub status : RunStatus
  pub error_code : Option String
  pub diagnostic_code : Option String
  pub diagnostic_fingerprint : Option String
  pub started_at : ℕ
  pub completed_at : Option ℕ

-- source_fragments.
pub record SourceFragment : Type 0 where
  pub id : ℕ
  pub processing_run_id : Option ℕ
  pub status : String
  pub reservation_task_id : Option ℕ
  pub attempts : ℕ
  pub disposition : Option String

-- knowledge_candidates.
pub record Candidate : Type 0 where
  pub id : ℕ
  pub status : String
  pub verification_task_id : Option ℕ
  pub deep_review_task_id : Option ℕ
  pub publication_task_id : Option ℕ
  pub resolution_code : Option String
  pub resolution_reason : Option String
  pub next_review_at : Option ℕ
  pub deep_review_batch_limit : ℕ
  pub technical_retry_count : ℕ
  pub last_technical_failure_code : Option String

-- knowledge_demands.
pub record Demand : Type 0 where
  pub id : ℕ
  pub status : String
  pub discovery_task_id : Option ℕ
  pub diagnosis_status : String
  pub diagnosis_task_id : Option ℕ
  pub last_error_code : Option String
  pub next_retry_at : ℕ
  pub last_seen_at : ℕ

-- source_candidates.
pub record Source : Type 0 where
  pub id : ℕ
  pub status : String
  pub failure_code : Option String
  pub failure_message : Option String

-- coverage_targets.
pub record CoverageTarget : Type 0 where
  pub id : ℕ
  pub status : String
  pub next_check_at : ℕ

-- pipeline_settings, a single row.
pub record Settings : Type 0 where
  pub enabled : Bool
  pub max_concurrent_ai_runs : ℕ
  pub settings_version : ℕ
  pub active_source_id : Option ℕ

-- pipeline_model_circuits.
pub record Circuit : Type 0 where
  pub execution_profile : String
  pub task_type : TaskType
  pub model : String
  pub reasoning_effort : String
  pub diagnostic_fingerprint : String
  pub open_until : ℕ
  pub probe_executor_id : Option String
  pub configuration_error : Bool

-- A value of a heartbeat's metadata.
pub data Field : Type 0 where
  text : String → Field
  number : ℕ → Field
  null : Field

-- worker_heartbeats.
pub record Heartbeat : Type 0 where
  pub worker_name : String
  pub instance_id : String
  pub heartbeat_at : ℕ
  pub metadata : List (String × Field)

-- admin_audit_events.
pub record AuditEvent : Type 0 where
  pub actor_id : String
  pub actor_role : String
  pub action : String
  pub target_type : String
  pub metadata : Metadata

-- What the queue's operations read and write.
pub record Store : Type 0 where
  pub tasks : List PipelineTask
  pub events : List PipelineEvent
  pub agent_runs : List AgentRun
  pub fragments : List SourceFragment
  pub candidates : List Candidate
  pub demands : List Demand
  pub sources : List Source
  pub targets : List CoverageTarget
  pub settings : Settings
  pub profiles : List ExecutionProfile
  pub circuits : List Circuit
  pub heartbeats : List Heartbeat
  pub experts : List TaskRow
  pub expert_events : List PublicEvent
  pub audit_events : List AuditEvent
