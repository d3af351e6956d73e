-- ===== src/Pipeline/Tasks/Fail.antt =====
-- failPipelineTask of src/domain/pipeline.ts: whether a failed task is retried, and the rows that
-- its statements set.
use clideck_mcp.Prelude.{
  ℕ, ◌+◌, ◌*◌, ◌/◌, ◌^◌, min, max, String, Bool, true, false, ◌&&◌, ◌||◌, not, Option, none, some,
  List, [], ◌∷◌, ltb, ◌==◌, if◌then◌else◌, str_eq, includes,
}
use clideck_mcp.Prelude.Table.{update_rows}
use clideck_mcp.Expert.Store.{TaskRow}
use clideck_mcp.Expert.Store as Expert
use clideck_mcp.Pipeline.Limits.{
  TaskType, demand_diagnosis, source_discovery, source_refresh, source_acquisition,
  source_conversion, source_chunking, source_publication, fragment_analysis, candidate_verification,
  candidate_deep_review, DemandDisposition, keep_processing, restart_discovery,
}
use clideck_mcp.Pipeline.Tasks.Tables.{
  TaskStatus, PipelineTask, Candidate, Demand, Source, CoverageTarget, Store,
}
use clideck_mcp.Pipeline.Tasks.Columns.{is_type, text_is, id_is}
use clideck_mcp.Pipeline.Tasks.Messages.{is_retryable_codex_platform_artifact_failure}
use clideck_mcp.Pipeline.Tasks.Recover.{when_some}

-- terminalFailureCodes.
abbrev pub terminal_failure_codes : List String
terminal_failure_codes =
    "EXPERT_NO_VERIFIED_ANSWER" ∷ "PIPELINE_EXPLICIT_REJECTION" ∷ "SOURCE_POLICY_REJECTED"
    ∷ "SOURCE_HTTP_404" ∷ "SOURCE_HTTP_410" ∷ []

-- `deepReviewModeFromTask(task) === 'medium'`.
abbrev pub is_medium_review : PipelineTask → Bool
is_medium_review t =
    str_eq t.requested_reasoning_effort "medium" || text_is t.payload.review_pass "fallback_low"

-- scopedPlatformFailure.
unfoldable pub is_scoped_platform_failure : PipelineTask → (code message : String) → Bool
is_scoped_platform_failure t code message =
    is_type t.task_type candidate_deep_review
    && is_medium_review t
    && str_eq code "CODEX_PROCESS_FAILED"
    && is_retryable_codex_platform_artifact_failure message

-- retrying.
unfoldable pub is_retrying : PipelineTask → (code message : String) → Bool
is_retrying t code message =
    not (includes terminal_failure_codes code)
    && (ltb t.attempts 5 || is_scoped_platform_failure t code message)

-- `least(60, greatest(2, attempts * attempts))`.
abbrev pub retry_delay : ℕ → ℕ
retry_delay attempts = min 60 (max 2 (attempts * attempts))

-- The UPDATE of pipeline_tasks.
unfoldable pub fail_row : (now : ℕ) → (code message : String) → Bool → PipelineTask → PipelineTask
fail_row now code message retrying t = record t {
  status = if retrying then TaskStatus.queued else TaskStatus.failed;
  failure_code = some code;
  failure_message = some message;
  claim_owner = none;
  lease_token_hash = none;
  lease_until = none;
  heartbeat_at = none;
  completed_at = when_some (not retrying) now;
  available_at = if retrying then now + retry_delay t.attempts else t.available_at;
  updated_at = now;
}

abbrev pub is_discovery : TaskType → Bool
is_discovery task_type = is_type task_type source_discovery || is_type task_type source_refresh

abbrev pub is_kept : DemandDisposition → Bool
is_kept keep_processing = true
is_kept _ = false

abbrev pub is_restarted : DemandDisposition → Bool
is_restarted restart_discovery = true
is_restarted _ = false

-- The UPDATE of knowledge_demands.
unfoldable pub fail_demand :
    (now : ℕ) → (code : String) → Bool → DemandDisposition → PipelineTask → Demand → Demand
fail_demand now code retrying disposition t d =
    let diagnosing = is_type t.task_type demand_diagnosis in
    let discovering = is_discovery t.task_type in
    record d {
      status =
          if diagnosing && retrying
          then "diagnosing"
          else if diagnosing
          then "failed"
          else if is_kept disposition
          then "processing"
          else if not retrying
          then "failed"
          else if discovering
          then "discovering"
          else if is_type t.task_type source_acquisition
          then "acquiring"
          else "processing";
      discovery_task_id =
          if is_restarted disposition
          then none
          else if discovering && retrying
          then some t.id
          else if discovering
          then none
          else d.discovery_task_id;
      last_error_code = some code;
      diagnosis_status =
          if diagnosing then (if retrying then "queued" else "failed") else d.diagnosis_status;
      diagnosis_task_id = if diagnosing then when_some retrying t.id else d.diagnosis_task_id;
      next_retry_at =
          if is_kept disposition || is_restarted disposition || retrying
          then now
          else now + 15 * 60;
      last_seen_at = now;
    }

abbrev pub open_demand : ℕ → Demand → Bool
open_demand id d = (d.id == id) && not (str_eq d.status "published")

abbrev pub set_demand : Option ℕ → (Demand → Demand) → Store → Store
set_demand none set db = db
set_demand (some id) set db = record db { demands = update_rows (open_demand id) set db.demands }

-- The UPDATE of expert_tasks.
abbrev pub fail_expert : (now : ℕ) → (code message : String) → Bool → TaskRow → TaskRow
fail_expert now code message retrying e = record e {
  status = if retrying then Expert.Status.queued else Expert.Status.failed;
  failure_code = some code;
  failure_message = some message;
  claim_owner = none;
  lease_token_hash = none;
  lease_until = none;
  heartbeat_at = none;
  completed_at = when_some (not retrying) now;
  updated_at = now;
}

-- `coalesce(resolution_code, 'deep_process_failure')`.
abbrev pub coalesce : Option String → String → Option String
coalesce none s = some s
coalesce (some t) s = some t

-- `least(interval '5 minutes', interval '15 seconds' * power(2, least(4, retries)))`.
abbrev pub review_delay : ℕ → ℕ
review_delay retries = min 300 (15 * 2 ^ min 4 retries)

abbrev pub deep_reviewed_by : ℕ → Candidate → Bool
deep_reviewed_by task_id c = id_is c.deep_review_task_id task_id

-- The UPDATE of knowledge_candidates for a deep review.
unfoldable pub fail_review :
    (now : ℕ) → (code message : String) → (retrying reduce : Bool) → ℕ → Candidate → Candidate
fail_review now code message retrying reduce task_id c = record c {
  status = "deep_review";
  deep_review_task_id = when_some retrying task_id;
  resolution_code = coalesce c.resolution_code "deep_process_failure";
  resolution_reason = some message;
  next_review_at = some (if retrying then now else now + review_delay c.technical_retry_count);
  deep_review_batch_limit =
      if reduce then max 1 (c.deep_review_batch_limit / 2) else c.deep_review_batch_limit;
  technical_retry_count = min 20 (c.technical_retry_count + 1);
  last_technical_failure_code = some code;
}

-- retrySourceStatus, with 'approved' for the types that it does not name.
abbrev pub retry_source_status : TaskType → String
retry_source_status source_conversion = "acquired"
retry_source_status source_chunking = "converted"
retry_source_status fragment_analysis = "analyzing"
retry_source_status candidate_verification = "verifying"
retry_source_status candidate_deep_review = "verifying"
retry_source_status source_publication = "publishing"
retry_source_status _ = "approved"

abbrev pub fail_source : (status code message : String) → Source → Source
fail_source status code message s = record s {
  status = status;
  failure_code = some code;
  failure_message = some message;
}

abbrev pub set_source : ℕ → (Source → Source) → Store → Store
set_source id set db = record db { sources = update_rows (λ s. s.id == id) set db.sources }

abbrev pub clear_active : Store → Store
clear_active db = record db { settings = record db.settings { active_source_id = none } }

abbrev pub keeps_target : TaskType → Bool
keeps_target task_type =
    is_type task_type fragment_analysis
    || is_type task_type candidate_verification
    || is_type task_type candidate_deep_review

abbrev pub fail_coverage : ℕ → ℕ → Store → Store
fail_coverage now id db = record db {
  targets =
      update_rows (λ c. c.id == id)
        (λ (c : CoverageTarget). record c { status = "failed"; next_check_at = now }) db.targets;
}
