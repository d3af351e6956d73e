-- ===== src/Pipeline/Tasks/Circuits.antt =====
-- The circuits that hold back a model after failures: claimableExecutionSql and
-- clearStaleModelProbes of src/domain/pipeline-execution.ts, and the probe of claimPipelineTask of
-- src/domain/pipeline.ts.
use clideck_mcp.Prelude.{
  ℕ, String, Bool, true, false, ◌&&◌, ◌||◌, not, Option, none, some, List, ltb, leb, if◌then◌else◌,
  str_eq, any,
}
use clideck_mcp.Prelude.Table.{update_rows}
use clideck_mcp.Pipeline.Limits.{TaskType}
use clideck_mcp.Pipeline.Tasks.Tables.{PipelineTask, AgentRun, ExecutionProfile, Circuit, Store}
use clideck_mcp.Pipeline.Tasks.Columns.{is_type, is_held, run_is_running, text_is, is_after}
use clideck_mcp.Pipeline.Tasks.Queue.{has_task_id, concat3}

-- The primary key of pipeline_model_circuits.
abbrev pub is_circuit : String → TaskType → String → String → Circuit → Bool
is_circuit profile task_type model effort c =
    str_eq c.execution_profile profile
    && is_type c.task_type task_type
    && str_eq c.model model
    && str_eq c.reasoning_effort effort

abbrev pub is_none : {A : Type 0} → Option A → Bool
is_none none = true
is_none (some a) = false

-- `configuration_error OR open_until > now() OR probe_executor_id IS NOT NULL`.
abbrev pub is_blocked : ℕ → Circuit → Bool
is_blocked now c =
    c.configuration_error || ltb now c.open_until || not (is_none c.probe_executor_id)

-- `profile.model || ':' || profile.reasoning_effort`.
abbrev pub model_key : ExecutionProfile → String
model_key p = concat3 p.model ":" p.reasoning_effort

-- A fallback is left that was not tried and is not blocked.
abbrev pub has_fallback :
    ℕ → List Circuit → PipelineTask → ExecutionProfile → Option (String × String) → Bool
has_fallback now circuits t p none = false
has_fallback now circuits t p (some (model, effort)) =
    not (text_is t.payload.model_fallback_attempted_for (model_key p))
    && not
        (any (λ c. is_circuit p.profile_id t.task_type model effort c && is_blocked now c) circuits)

-- The circuits that keep `t` from its profile `p`.
abbrev pub holds_back : ℕ → List Circuit → PipelineTask → ExecutionProfile → Bool
holds_back now circuits t p =
    str_eq p.profile_id t.execution_profile
    && any
        (λ c. is_circuit p.profile_id t.task_type p.model p.reasoning_effort c && is_blocked now c)
        circuits
    && not (has_fallback now circuits t p p.fallback)

-- claimableExecutionSql.
unfoldable pub claimable_execution : ℕ → List ExecutionProfile → List Circuit → PipelineTask → Bool
claimable_execution now profiles circuits t = not (any (holds_back now circuits t) profiles)

-- clearStaleModelProbes: a probe without a live run of its executor is given up.
abbrev pub task_is_alive : ℕ → TaskType → PipelineTask → Bool
task_is_alive now task_type t =
    is_type t.task_type task_type && is_held t.status && is_after t.lease_until now

abbrev pub probes_for : ℕ → List PipelineTask → String → Circuit → AgentRun → Bool
probes_for now tasks executor c r =
    text_is r.executor_id executor
    && str_eq r.model c.model
    && str_eq r.reasoning_effort c.reasoning_effort
    && text_is r.execution_profile c.execution_profile
    && run_is_running r.status
    && any (λ t. has_task_id r.pipeline_task_id t && task_is_alive now c.task_type t) tasks

abbrev pub is_stale : ℕ → Store → Circuit → Option String → Bool
is_stale now db c none = false
is_stale now db c (some executor) = not (any (probes_for now db.tasks executor c) db.agent_runs)

abbrev pub drop_probe : Circuit → Circuit
drop_probe c = record c { probe_executor_id = none }

unfoldable pub clear_stale_model_probes : ℕ → Store → Store
clear_stale_model_probes now db = record db {
  circuits = update_rows (λ c. is_stale now db c c.probe_executor_id) drop_probe db.circuits;
}

-- The probe of claimPipelineTask: an open circuit that has cooled down lets one executor through.
abbrev pub may_probe : ℕ → String → TaskType → String → String → Circuit → Bool
may_probe now profile task_type model effort c =
    is_circuit profile task_type model effort c
    && is_none c.probe_executor_id
    && not c.configuration_error
    && leb c.open_until now

abbrev pub set_probe : String → Circuit → Circuit
set_probe executor c = record c { probe_executor_id = some executor }

-- `none` where a circuit matches and lets nobody through.
unfoldable pub probe_circuit :
    ℕ → String → String → TaskType → String → String → Store → Option Store
probe_circuit now executor profile task_type model effort db =
    if any (is_circuit profile task_type model effort) db.circuits
    then if any (may_probe now profile task_type model effort) db.circuits
      then some (record db {
        circuits =
            update_rows (may_probe now profile task_type model effort) (set_probe executor)
              db.circuits;
      })
      else none
    else some db
