-- ===== src/Pipeline/Tasks/AgentRuns.antt =====
-- recordAgentRunResult of src/domain/pipeline.ts: the end of a run, and what it does to the circuit
-- of its model.
use clideck_mcp.Prelude.{
  ℕ, ◌+◌, ◌*◌, max, String, Bool, true, false, ◌&&◌, not, Option, none, some, List, [], ◌∷◌, ◌++◌,
  ltb, leb, ◌==◌, if◌then◌else◌, str_eq, any, includes,
}
use clideck_mcp.Prelude.Table.{update_rows, select_rows, first_row, count_rows}
use clideck_mcp.Pipeline.Limits.{TaskType, codex_circuit_cooldown_seconds}
use clideck_mcp.Pipeline.Tasks.Tables.{PipelineTask, RunStatus, AgentRun, Circuit, Store}
use clideck_mcp.Pipeline.Tasks.Columns.{is_type, is_ai_task_type, run_is_running, text_is}
use clideck_mcp.Pipeline.Tasks.Queue.{has_task_id, or_text}
use clideck_mcp.Pipeline.Tasks.Circuits.{is_circuit}

-- The argument of recordAgentRunResult, without the counts of tokens.
pub record RunResult : Type 0 where
  pub agent_run_id : ℕ
  pub status : RunStatus
  pub error_code : Option String
  pub diagnostic_code : Option String
  pub diagnostic_fingerprint : Option String

-- The UPDATE of agent_runs.
unfoldable pub finish_run : ℕ → RunResult → AgentRun → AgentRun
finish_run now input r = record r {
  status = input.status;
  error_code = input.error_code;
  diagnostic_code = input.diagnostic_code;
  diagnostic_fingerprint = input.diagnostic_fingerprint;
  completed_at = some now;
}

-- retryableCodexPlatformDiagnosticCodes.
abbrev pub retryable_diagnostic_codes : List String
retryable_diagnostic_codes =
    "CODEX_PROCESS_FAILED" ∷ "CODEX_MODEL_UNAVAILABLE" ∷ "CODEX_RATE_LIMITED" ∷ []

abbrev is_retryable_code : Option String → Bool
is_retryable_code none = false
is_retryable_code (some c) = includes retryable_diagnostic_codes c

abbrev pub status_failed : RunStatus → Bool
status_failed RunStatus.failed = true
status_failed _ = false

abbrev pub status_completed : RunStatus → Bool
status_completed RunStatus.completed = true
status_completed _ = false

-- `run.completed_at >= now() - interval '15 minutes'`.
abbrev is_recent : ℕ → Option ℕ → Bool
is_recent now none = false
is_recent now (some t) = leb now (t + 15 * 60)

abbrev same_failure :
    ℕ → List PipelineTask → String → TaskType → String → String → String → AgentRun → Bool
same_failure now tasks fingerprint task_type effort model profile r =
    status_failed r.status
    && is_retryable_code r.diagnostic_code
    && text_is r.diagnostic_fingerprint fingerprint
    && any (λ t. has_task_id r.pipeline_task_id t && is_type t.task_type task_type) tasks
    && str_eq r.reasoning_effort effort
    && str_eq r.model model
    && text_is r.execution_profile profile
    && is_recent now r.completed_at

abbrev probe_by : Option String → Circuit → Bool
probe_by none c = false
probe_by (some executor) c = text_is c.probe_executor_id executor

-- `DO UPDATE`: the later of the two times, and the probe of the run that failed is over.
abbrev reopen : Option String → String → ℕ → Bool → Circuit → Circuit
reopen executor fingerprint until config_error c = record c {
  diagnostic_fingerprint = fingerprint;
  open_until = max c.open_until until;
  configuration_error = config_error;
  probe_executor_id = if probe_by executor c then none else c.probe_executor_id;
}

abbrev open_circuit :
    String → TaskType → String → String → Option String → String → ℕ → Bool → Store → Store
open_circuit profile task_type model effort executor fingerprint until config_error db = record db {
  circuits =
      if any (is_circuit profile task_type model effort) db.circuits
      then update_rows (is_circuit profile task_type model effort)
          (reopen executor fingerprint until config_error) db.circuits
      else db.circuits
        ++ record {
          execution_profile = profile;
          task_type = task_type;
          model = model;
          reasoning_effort = effort;
          diagnostic_fingerprint = fingerprint;
          open_until = until;
          probe_executor_id = none;
          configuration_error = config_error;
        }
          ∷ [];
}

-- `DELETE FROM pipeline_model_circuits`: the probe succeeded.
abbrev close_circuit : String → TaskType → String → String → String → Store → Store
close_circuit profile task_type model effort executor db = record db {
  circuits =
      select_rows
        (λ c.
          not (is_circuit profile task_type model effort c && text_is c.probe_executor_id executor))
        db.circuits;
}

abbrev pub failed_circuit :
    ℕ → RunResult → AgentRun → TaskType → String → Option String → Store → Store
failed_circuit now input r task_type profile none db = db
failed_circuit now input r task_type profile (some fingerprint) db =
    let config_error = text_is input.diagnostic_code "CODEX_MODEL_UNAVAILABLE" in
    let failures =
      count_rows
        (same_failure now db.tasks fingerprint task_type r.reasoning_effort r.model profile)
        db.agent_runs in
    let cooldown = if config_error then 86400 else codex_circuit_cooldown_seconds failures in
    if is_retryable_code input.diagnostic_code && ltb 0 cooldown
    then open_circuit profile task_type r.model r.reasoning_effort r.executor_id fingerprint
        (now + cooldown) config_error db
    else db

abbrev pub completed_circuit : AgentRun → TaskType → String → Option String → Store → Store
completed_circuit r task_type profile none db = db
completed_circuit r task_type profile (some executor) db =
    close_circuit profile task_type r.model r.reasoning_effort executor db

-- What the result of the run `r` of a task of this type does to the circuits.
abbrev pub judge_run : ℕ → RunResult → AgentRun → PipelineTask → Store → Store
judge_run now input r t db =
    let profile =
      or_text r.execution_profile
        (if str_eq r.reasoning_effort "medium" then "luna_high" else "luna") in
    if not (is_ai_task_type t.task_type)
    then db
    else if status_completed input.status
    then completed_circuit r t.task_type profile r.executor_id db
    else if status_failed input.status
    then failed_circuit now input r t.task_type profile input.diagnostic_fingerprint db
    else db

pub data RunReply : Type 0 where
  recorded already_terminal : RunStatus → RunReply
  agent_run_not_running : RunReply

abbrev pub is_run : ℕ → AgentRun → Bool
is_run id r = r.id == id

abbrev pub can_finish : ℕ → AgentRun → Bool
can_finish id r = (r.id == id) && run_is_running r.status

abbrev pub no_running_run : RunStatus → RunReply
no_running_run RunStatus.running = agent_run_not_running
no_running_run s = already_terminal s

abbrev pub unfinished : Option AgentRun → RunReply
unfinished none = agent_run_not_running
unfinished (some r) = no_running_run r.status

abbrev pub record_for :
    ℕ → RunResult → Store → Option AgentRun → Option PipelineTask → RunReply × Store
record_for now input db (some r) (some t) = (
  recorded input.status,
  judge_run now input r t (record db {
    agent_runs = update_rows (can_finish input.agent_run_id) (finish_run now input) db.agent_runs;
  }),
)
record_for now input db _ _ = (unfinished (first_row (is_run input.agent_run_id) db.agent_runs), db)

abbrev pub task_of : Option AgentRun → Store → Option PipelineTask
task_of none db = none
task_of (some r) db = first_row (has_task_id r.pipeline_task_id) db.tasks

-- recordAgentRunResult. Its statements run outside a transaction; here they are one step.
unfoldable pub record_agent_run_result : ℕ → RunResult → Store → RunReply × Store
unfolding finish_run
record_agent_run_result now input db =
    let run = first_row (can_finish input.agent_run_id) db.agent_runs in
    record_for now input db run (task_of run db)
