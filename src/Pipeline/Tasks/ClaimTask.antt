-- ===== src/Pipeline/Tasks/ClaimTask.antt =====
-- claimPipelineTask of src/domain/pipeline.ts: its transaction, after ensurePipelineWork. The leased
-- payload that the claim answers with is the task's: the question and the demand that are joined to
-- it for the executor are not modelled. Of an idle executor's report the model has the status and
-- the reason.
use Prim.Native.String
use clideck_mcp.Prelude.{
  ℕ, ◌+◌, String, Bool, ◌&&◌, not, Option, none, some, List, [], ◌∷◌, ◌++◌, ltb, leb, ◌==◌,
  if◌then◌else◌, str_eq, any,
}
use clideck_mcp.Prelude.Table.{update_rows, first_row}
use clideck_mcp.Expert.Store.{TaskRow, PublicEvent}
use clideck_mcp.Expert.Store as Expert
use clideck_mcp.Pipeline.Limits.{expert_research}
use clideck_mcp.Pipeline.Tasks.Tables.{
  Payload, PipelineTask, EventType, empty, AgentRun, RunStatus, ExecutionProfile, Field, text,
  number, null, Store,
}
use clideck_mcp.Pipeline.Tasks.Columns.{is_type, is_live}
use clideck_mcp.Pipeline.Tasks.Queue.{task_event, record_executor_heartbeat, has_task_id, concat3}
use clideck_mcp.Pipeline.Tasks.Recover.{when}
use clideck_mcp.Pipeline.Tasks.Lease.{stage_text, task_fields}
use clideck_mcp.Pipeline.Tasks.Circuits.{clear_stale_model_probes, probe_circuit}
use clideck_mcp.Pipeline.Tasks.Select.{next_ai_task}
use clideck_mcp.Pipeline.Tasks.Choice.{
  pipeline_executor_ids, is_beyond, execution_protocol_version, needs_upgrade, active_ai_runs,
  choose_model, claim_payload, lease_row, ClaimResult, Choice, pipeline_paused, executor_disabled,
  runtime_upgrade_required, capacity_reached, circuit_open, claimed_task, attempts_check,
  profile_missing, expert_task_not_available, answered, thrown,
}
use clideck_mcp.Pipeline.Tasks.Claim.{
  lease_expert, queued_expert, spent_expert, diagnose_demand, start_fragments, standby, waits,
  idle_state, idle_reason,
}

-- The early returns of the claim.
pub data Gate : Type 0 where
  gate_paused gate_disabled gate_upgrade : Gate
  gate_full : (capacity active : ℕ) → Gate
  gate_open : Gate

module _ (sha256 : String → String) (stringify : List String → String) (no_evidence : String → Bool)
    (now lease_seconds : ℕ) (locked : PipelineTask → Bool) (run_id : ℕ)
    (executor instance_id token : String) where
  abbrev pub beat : List (String × Field) → Store → Store
  beat fields db = record_executor_heartbeat now executor instance_id fields db

  -- The run that the claim starts.
  abbrev pub new_run : Choice → PipelineTask → Store → AgentRun
  new_run c t db = record {
    id = run_id;
    pipeline_task_id = t.id;
    model = c.model;
    reasoning_effort = c.effort;
    execution_profile = some c.profile.profile_id;
    settings_version = db.settings.settings_version;
    fallback_from_model = c.fallback_from;
    executor_id = some executor;
    status = RunStatus.running;
    error_code = none;
    diagnostic_code = none;
    diagnostic_fingerprint = none;
    started_at = now;
    completed_at = none;
  }

  abbrev public_event : ℕ → PublicEvent
  public_event id = record {
    task_id = id;
    stage = Expert.Stage.researching;
    progress_percent = 25;
    public_message = "A Luna executor is researching the requested answer.";
    created_at = now;
  }

  -- The claim of the expert task behind an `expert_research` task.
  abbrev pub claim_expert : Option ℕ → Store → Option Store
  claim_expert none db = some db
  claim_expert (some id) db =
      if any (queued_expert id) db.experts
      then some (record db {
        experts =
            update_rows (queued_expert id)
              (lease_expert now (now + lease_seconds) executor (sha256 token)) db.experts;
        expert_events = db.expert_events ++ public_event id ∷ [];
      })
      else none

  abbrev pub expert_of : PipelineTask → Option ℕ
  expert_of t = if is_type t.task_type expert_research then t.expert_task_id else none

  abbrev pub finish_claim : Choice → Payload → PipelineTask → Option Store → ClaimResult
  finish_claim c payload t none = thrown expert_task_not_available
  finish_claim c payload t (some db) =
      answered
        (claimed_task (record {
          pipeline_task_id = t.id;
          task_type = t.task_type;
          stage = t.stage;
          lease_token = token;
          lease_until = now + lease_seconds;
          agent_run_id = run_id;
          requested_model = c.model;
          requested_reasoning_effort = c.effort;
          execution_profile = c.profile.profile_id;
          settings_version = db.settings.settings_version;
          fallback_from_model = c.fallback_from;
          payload = payload;
        }))
        (task_event t EventType.claimed
          (concat3 executor " claimed useful " (String.◌++◌ (stage_text t.stage) " work.")) empty
          (start_fragments t (diagnose_demand now t t.knowledge_demand_id db)))

  -- The writes of a claim whose circuit lets it through.
  unfoldable pub write_claim : Choice → PipelineTask → Store → ClaimResult
  unfolding claim_payload lease_row when
  write_claim c t db =
      let payload = claim_payload stringify c t.payload in
      let row = lease_row now (now + lease_seconds) executor (sha256 token) payload in
      let d1 = record db {
        tasks = update_rows (has_task_id t.id) row db.tasks;
        agent_runs = db.agent_runs ++ new_run c t db ∷ [];
      } in
      let fields =
        ("status", text "running")
        ∷ ("execution_profile", text c.profile.profile_id)
        ∷ ("settings_version", number db.settings.settings_version)
        ∷ ("model", text c.model)
        ∷ (
          "fallback_from_model",
          elim c.fallback_from as (λ _. Field) [ none ↦ null | some m ↦ text m ],
        )
        ∷ ("reasoning_effort", text c.effort)
        ∷ task_fields t in
      if ltb 10 (t.attempts + 1)
      then thrown attempts_check
      else if spent_expert (expert_of t) d1.experts
      then thrown attempts_check
      else finish_claim c payload t (claim_expert (expert_of t) (beat fields d1))

  abbrev pub after_probe : Choice → PipelineTask → Store → Option Store → ClaimResult
  after_probe c t db none = answered circuit_open (
      beat
        (standby "circuit_cooldown"
          ++ ("model", text c.model) ∷ ("reasoning_effort", text c.effort) ∷ [])
        db)
  after_probe c t db (some probed) = write_claim c t probed

  abbrev pub claim_on : PipelineTask → Store → Option ExecutionProfile → ClaimResult
  claim_on t db none = thrown profile_missing
  claim_on t db (some p) =
      let c = choose_model now db t p in
      after_probe c t db (probe_circuit now executor p.profile_id t.task_type c.model c.effort db)

  abbrev pub no_task : Store → ClaimResult
  no_task db =
      let blocked = any (waits now) db.circuits in
      let working = any (λ t. is_live t.status) db.tasks in
      answered (idle_state blocked working) (beat (standby (idle_reason blocked working)) db)

  abbrev pub claim_selected : Store → Option PipelineTask → ClaimResult
  claim_selected db none = no_task db
  claim_selected db (some t) =
      claim_on t db (first_row (λ p. str_eq p.profile_id t.execution_profile) db.profiles)

  -- What the claim finds before it selects: the early returns of claimPipelineTask.
  unfoldable pub claim_gate : (protocol : ℕ) → (db cleared : Store) → Gate
  unfolding active_ai_runs
  claim_gate protocol db cleared =
      let capacity = db.settings.max_concurrent_ai_runs in
      let active = active_ai_runs now cleared in
      if not db.settings.enabled
      then gate_paused
      else if protocol == execution_protocol_version
          && is_beyond executor capacity pipeline_executor_ids
      then gate_disabled
      else if not (protocol == execution_protocol_version) && any needs_upgrade db.profiles
      then gate_upgrade
      else if leb capacity active
      then gate_full capacity active
      else gate_open

  abbrev pub claim_through : (db cleared : Store) → Gate → ClaimResult
  claim_through db cleared gate_paused =
      answered pipeline_paused (beat (("status", text "paused") ∷ []) db)
  claim_through db cleared gate_disabled =
      answered executor_disabled
        (beat (("status", text "disabled") ∷ ("reason", text "operator_capacity") ∷ []) db)
  claim_through db cleared gate_upgrade =
      answered runtime_upgrade_required (beat (standby "runtime_upgrade_required") db)
  claim_through db cleared (gate_full capacity active) =
      answered (capacity_reached capacity active) (
        beat
          (standby "capacity_reached"
            ++ ("configured_concurrency", number capacity)
              ∷ ("active_luna_runs", number active)
              ∷ [])
          cleared)
  claim_through db cleared gate_open =
      claim_selected cleared (next_ai_task no_evidence locked now cleared)

  -- claimPipelineTask.
  unfoldable pub claim_pipeline_task : (protocol : ℕ) → Store → ClaimResult
  unfolding claim_gate choose_model probe_circuit write_claim clear_stale_model_probes
  claim_pipeline_task protocol db =
      let cleared = clear_stale_model_probes now db in
      claim_through db cleared (claim_gate protocol db cleared)
