-- ===== src/Pipeline/Tasks/Choice.antt =====
-- What claimPipelineTask of src/domain/pipeline.ts answers, the model that it runs a task on, and
-- the row that it leases.
use clideck_mcp.Prelude.{
  ℕ, zero, suc, ◌+◌, String, Bool, false, ◌&&◌, ◌||◌, not, Option, none, some, List, [], ◌∷◌,
  if◌then◌else◌, str_eq, any,
}
use clideck_mcp.Prelude.Table.{count_rows}
use clideck_mcp.Pipeline.Limits.{TaskType}
use clideck_mcp.Pipeline.Tasks.Tables.{
  TaskStatus, PipelineStage, Payload, PipelineTask, ExecutionProfile, Store,
}
use clideck_mcp.Pipeline.Tasks.Columns.{is_ai_task_type, is_held, text_is, is_after}
use clideck_mcp.Pipeline.Tasks.Queue.{profile_of}
use clideck_mcp.Pipeline.Tasks.Circuits.{is_circuit, is_blocked, model_key}

-- requiredPipelineModel and fallbackPipelineModel.
abbrev pub required_model : String
required_model = "gpt-5.6-luna"

abbrev pub fallback_model : String
fallback_model = "gpt-5.6-terra"

-- pipelineExecutorIds of src/domain/pipeline-runtime.ts, and the index in it; `indexOf` is -1 for
-- an id that is not there, which no bound excludes.
abbrev pub pipeline_executor_ids : List String
pipeline_executor_ids =
    "pipeline-executor-01" ∷ "pipeline-executor-02" ∷ "pipeline-executor-03"
    ∷ "pipeline-executor-04" ∷ "pipeline-executor-05" ∷ "pipeline-executor-06"
    ∷ "pipeline-executor-07" ∷ "pipeline-executor-08" ∷ []

abbrev pub is_beyond : String → ℕ → List String → Bool
is_beyond executor capacity [] = false
is_beyond executor zero (e ∷ es) = str_eq e executor || is_beyond executor zero es
is_beyond executor (suc n) (e ∷ es) = not (str_eq e executor) && is_beyond executor n es

-- executionProtocolVersion of packages/admin-contracts/src/execution.ts.
abbrev pub execution_protocol_version : ℕ
execution_protocol_version = 2

-- A profile that an executor of an older protocol cannot run.
abbrev pub fallback_is_new : ExecutionProfile → Option (String × String) → Bool
fallback_is_new p none = false
fallback_is_new p (some (model, effort)) =
    not (str_eq p.profile_id "luna_high")
    || not (str_eq model fallback_model)
    || not (str_eq effort "medium")

abbrev pub needs_upgrade : ExecutionProfile → Bool
needs_upgrade p =
    not (str_eq p.model required_model)
    || not (str_eq p.reasoning_effort (if str_eq p.profile_id "luna_high" then "medium" else "low"))
    || fallback_is_new p p.fallback

-- The AI tasks that run now.
abbrev pub runs_ai : ℕ → PipelineTask → Bool
runs_ai now t = is_held t.status && is_after t.lease_until now && is_ai_task_type t.task_type

unfoldable pub active_ai_runs : ℕ → Store → ℕ
unfolding count_rows
active_ai_runs now db = count_rows (runs_ai now) db.tasks

-- What an AI claim answers.
pub record Claimed : Type 0 where
  pub pipeline_task_id : ℕ
  pub task_type : TaskType
  pub stage : PipelineStage
  pub lease_token : String
  pub lease_until : ℕ
  pub agent_run_id : ℕ
  pub requested_model : String
  pub requested_reasoning_effort : String
  pub execution_profile : String
  pub settings_version : ℕ
  pub fallback_from_model : Option String
  pub payload : Payload

pub data Reply : Type 0 where
  pipeline_paused executor_disabled runtime_upgrade_required : Reply
  capacity_reached : (concurrency active : ℕ) → Reply
  circuit_open work_in_progress scheduler_refill : Reply
  claimed_task : Claimed → Reply

-- What makes the transaction throw: the constraint `attempts BETWEEN 0 AND 10` of the table, a
-- task whose profile is not in the table, or an expert task that is not queued.
pub data ClaimError : Type 0 where
  attempts_check profile_missing expert_task_not_available : ClaimError

pub data ClaimResult : Type 0 where
  answered : Reply → Store → ClaimResult
  thrown : ClaimError → ClaimResult

-- The model that a task is run on.
pub record Choice : Type 0 where
  pub profile : ExecutionProfile
  pub model : String
  pub effort : String
  pub fallback_from : Option String

abbrev pub primary_blocked : ℕ → Store → PipelineTask → ExecutionProfile → Bool
primary_blocked now db t p =
    any (λ c. is_circuit p.profile_id t.task_type p.model p.reasoning_effort c && is_blocked now c)
      db.circuits

abbrev pub choose : ℕ → Store → PipelineTask → ExecutionProfile → Option (String × String) → Choice
choose now db t p none = record {
  profile = p;
  model = p.model;
  effort = p.reasoning_effort;
  fallback_from = none;
}
choose now db t p (some (model, effort)) =
    if primary_blocked now db t p
      && not (text_is t.payload.model_fallback_attempted_for (model_key p))
    then record { profile = p; model = model; effort = effort; fallback_from = some p.model }
    else record { profile = p; model = p.model; effort = p.reasoning_effort; fallback_from = none }

-- usingModelFallback, requestedModel and taskReasoning.
unfoldable pub choose_model : ℕ → Store → PipelineTask → ExecutionProfile → Choice
choose_model now db t p = choose now db t p p.fallback

abbrev pub or_else : Option String → String → String
or_else none s = s
or_else (some t) s = t

-- fidelityExecutionProfileKey of src/domain/pipeline-execution.ts; `stringify` is JSON.stringify
-- of an array of texts.
abbrev pub fidelity_profile_key :
    (List String → String) → (extraction effort verifier verifier_effort : String) → String
fidelity_profile_key stringify extraction effort verifier verifier_effort =
    if str_eq extraction "gpt-5.6-luna"
      && str_eq effort "low"
      && str_eq verifier "gpt-5.6-luna"
      && str_eq verifier_effort "low"
    then "pipeline-v2-default"
    else stringify
        ("extract-1" ∷ "fidelity-1" ∷ extraction ∷ effort ∷ verifier ∷ verifier_effort ∷ [])

abbrev pub with_fallback : Choice → Payload → Payload
with_fallback c p = elim c.fallback_from as (λ _. Payload) [
  | none ↦ p
  | some m ↦ record p { model_fallback_attempted_for = some (model_key c.profile) }
]

-- The payload that the claim stores.
unfoldable pub claim_payload : (List String → String) → Choice → Payload → Payload
claim_payload stringify c p =
    let q = with_fallback c p in
    if text_is q.audit_mode "fidelity"
    then record q {
      quality_profile_key = some (
          fidelity_profile_key stringify (or_else q.quality_extraction_model "legacy-unknown")
            (or_else q.quality_extraction_reasoning_effort "unknown") c.model c.effort);
    }
    else q

-- The UPDATE of pipeline_tasks; the trigger assigns the profile anew.
unfoldable pub lease_row :
    (now lease_until : ℕ) → (owner hash : String) → Payload → PipelineTask → PipelineTask
lease_row now lease_until owner hash payload t = record t {
  status = TaskStatus.running;
  claim_owner = some owner;
  lease_token_hash = some hash;
  lease_until = some lease_until;
  heartbeat_at = some now;
  attempts = t.attempts + 1;
  payload = payload;
  execution_profile = profile_of t.task_type t.requested_reasoning_effort payload;
  updated_at = now;
}
