-- ===== src/Pipeline/Tasks/Tests.antt =====
-- Runs of the pipeline's queue, and the theorems at concrete tables.
mod Witnesses
mod Settings
use clideck_mcp.Prelude.{
  ℕ, ◌≤◌, ◌<◌, String, Bool, true, false, none, some, List, [], ◌∷◌, ◌≡◌, ◌≢◌, ◌⊎◌, refl, inl,
  arith, All, any,
}
use Prim.Native.String
use clideck_mcp.Prelude.Int.{pos}
use clideck_mcp.Prelude.Table.{In, Related, update_rows, first_row, count_rows}
use clideck_mcp.Prelude.Table.Best.{IsFirst}
use clideck_mcp.Pipeline.Limits.{source_discovery, candidate_deep_review, source_conversion}
use clideck_mcp.Pipeline.Tasks.Tables.{
  TaskStatus, PipelineStage, Payload, PipelineTask, ExecutionProfile, Circuit, Store, RunStatus,
  AgentRun,
}
use clideck_mcp.Pipeline.Tasks.Queue.{
  NewTask, new_task, insert_task, has_task_id, complete_task, record_event,
  record_executor_heartbeat,
}
use clideck_mcp.Pipeline.Tasks.Recover.{lease_has_run_out, recover_expired}
use clideck_mcp.Pipeline.Tasks.Lease.{err, ok, pipeline_lease_invalid, complete_mechanical}
use clideck_mcp.Pipeline.Tasks.Fail.{fail_row, is_retrying, is_scoped_platform_failure}
use clideck_mcp.Pipeline.Tasks.FailTask.{fail_pipeline_task}
use clideck_mcp.Pipeline.Tasks.Messages.{
  is_retryable_codex_platform_artifact_failure, should_reduce_deep_review_batch_on_failure,
}
use clideck_mcp.Pipeline.Tasks.Results.{record_agent_run_result-once}
use clideck_mcp.Pipeline.Tasks.Circuits.{clear_stale_model_probes, is_circuit, is_blocked}
use clideck_mcp.Pipeline.Tasks.AgentRuns.{RunResult, already_terminal, record_agent_run_result}
use clideck_mcp.Pipeline.Tasks.Select.{is_selectable, ranks_before, next_ai_task}
use clideck_mcp.Pipeline.Tasks.Choice.{
  Claimed, ClaimResult, claimed_task, answered, thrown, attempts_check, lease_row, active_ai_runs,
}
use clideck_mcp.Pipeline.Tasks.ClaimTask.{claim_pipeline_task}
use clideck_mcp.Pipeline.Tasks.Steps.Claims.{after_claim}
use clideck_mcp.Pipeline.Tasks.Invariant.{
  Reach, here, next, inserts, claims, recovers, IsSoundStore, Reach-IsSoundStore, Reach-over,
}
use clideck_mcp.Pipeline.Tasks.Rows.{IsSound}
use clideck_mcp.Pipeline.Tasks.Steps.{HasDistinctIds}
use clideck_mcp.Pipeline.Tasks.Recovered.{Recovered, reconcile-Recovered}
use clideck_mcp.Pipeline.Tasks.Settled.{
  HasLease, Settles, fail_pipeline_task-Settles, completes, end_lease, lease_ends,
}
use clideck_mcp.Pipeline.Tasks.Handout.{claim-active_le}
use clideck_mcp.Pipeline.Tasks.Stalled.{claim-unblocked, platform_failure_stalls}

abbrev digest : String → String
digest text = String.◌++◌ "#" text

abbrev stringify : List String → String
stringify texts = "[]"

abbrev no_evidence : String → Bool
no_evidence result = false

abbrev unlocked : PipelineTask → Bool
unlocked t = false

abbrev no_payload : Payload
no_payload = record {
  model_fallback_attempted_for = none;
  audit_mode = none;
  quality_extraction_model = none;
  quality_extraction_reasoning_effort = none;
  quality_profile_key = none;
  review_pass = none;
  processing_run_id = none;
  fragments = [];
  rest = "{}";
}

abbrev luna : ExecutionProfile
luna = record {
  profile_id = "luna";
  model = "gpt-5.6-luna";
  reasoning_effort = "low";
  fallback = none;
}

abbrev luna_high : ExecutionProfile
luna_high = record {
  profile_id = "luna_high";
  model = "gpt-5.6-luna";
  reasoning_effort = "medium";
  fallback = some ("gpt-5.6-terra", "medium");
}

abbrev no_tasks : Store
no_tasks = record {
  tasks = [];
  events = [];
  agent_runs = [];
  fragments = [];
  candidates = [];
  demands = [];
  sources = [];
  targets = [];
  settings = record {
    enabled = true;
    max_concurrent_ai_runs = 2;
    settings_version = 1;
    active_source_id = none;
  };
  profiles = luna ∷ luna_high ∷ [];
  circuits = [];
  heartbeats = [];
  experts = [];
  expert_events = [];
  audit_events = [];
}

abbrev search_task : NewTask
search_task = record {
  task_type = source_discovery;
  stage = PipelineStage.discover;
  priority = pos 50;
  dedupe_key = "discover:7";
  coverage_target_id = some 7;
  source_id = none;
  expert_task_id = none;
  knowledge_demand_id = none;
  payload = no_payload;
  reasoning_effort = none;
  queue_class = none;
  processing_run_id = none;
}

-- A conversion that runs, on its first attempt.
abbrev converting : PipelineTask
converting = record {
  id = 4;
  task_type = source_conversion;
  stage = PipelineStage.convert;
  status = TaskStatus.running;
  priority = pos 60;
  coverage_target_id = none;
  source_candidate_id = some 9;
  expert_task_id = none;
  knowledge_demand_id = none;
  processing_run_id = some 5;
  dedupe_key = "convert:9";
  payload = no_payload;
  result = none;
  requested_reasoning_effort = "low";
  execution_profile = "luna";
  queue_class = "baseline";
  claim_owner = some "worker";
  lease_token_hash = some "#t";
  lease_until = some 200;
  heartbeat_at = some 100;
  attempts = 1;
  available_at = 90;
  failure_code = none;
  failure_message = none;
  created_at = 90;
  updated_at = 100;
  completed_at = none;
}

abbrev converted : PipelineTask
converted = record converting {
  status = TaskStatus.completed;
  claim_owner = none;
  lease_token_hash = none;
  lease_until = none;
  completed_at = some 150;
}

-- A medium deep review on its tenth attempt.
abbrev reviewing : PipelineTask
reviewing = record converting {
  id = 6;
  task_type = candidate_deep_review;
  stage = PipelineStage.deep_review;
  requested_reasoning_effort = "medium";
  execution_profile = "luna_high";
  attempts = 10;
}

abbrev platform_message : String
platform_message = "INTERNAL_ERROR: the request could not be completed, retry later."

abbrev of_tasks : List PipelineTask → Store
of_tasks tasks = record no_tasks { tasks = tasks }

platform_message_read : is_retryable_codex_platform_artifact_failure platform_message ≡ true
unfolding is_retryable_codex_platform_artifact_failure
platform_message_read = refl

joined_word_not_read :
    is_retryable_codex_platform_artifact_failure "MY_INTERNAL_ERROR: retry later" ≡ false
unfolding is_retryable_codex_platform_artifact_failure
joined_word_not_read = refl

large_batch_reduced :
    should_reduce_deep_review_batch_on_failure "AGENT_ARTIFACT_REJECTED" "decision 3 is missing"
    ≡ true
unfolding should_reduce_deep_review_batch_on_failure
large_batch_reduced = refl

hash_not_reduced :
    should_reduce_deep_review_batch_on_failure "AGENT_ARTIFACT_REJECTED"
      "repaired_candidate.provenance.12.content_hash differs"
    ≡ false
unfolding should_reduce_deep_review_batch_on_failure
hash_not_reduced = refl

-- A task is queued, and an executor claims it.
abbrev queued_store : Store
queued_store = (insert_task 1 100 search_task no_tasks).1

abbrev claim_at : ℕ → Store → ClaimResult
claim_at now db =
    claim_pipeline_task digest stringify no_evidence now 60 unlocked 1 "pipeline-executor-01" "i"
      "tok" 2 db

abbrev handed_out : Claimed
handed_out = record {
  pipeline_task_id = 1;
  task_type = source_discovery;
  stage = PipelineStage.discover;
  lease_token = "tok";
  lease_until = 160;
  agent_run_id = 1;
  requested_model = "gpt-5.6-luna";
  requested_reasoning_effort = "low";
  execution_profile = "luna";
  settings_version = 1;
  fallback_from_model = none;
  payload = no_payload;
}

abbrev claimed_store : Store
claimed_store = after_claim (claim_at 100 queued_store) queued_store

claimed_run : claim_at 100 queued_store ≡ answered (claimed_task handed_out) claimed_store
unfolding claim_pipeline_task insert_task next_ai_task first_row record_event
    record_executor_heartbeat update_rows
claimed_run = refl
