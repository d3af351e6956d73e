-- ===== src/Pipeline/Tasks/Tests/Witnesses.antt =====
-- The theorems on the queue at the tables of the runs.
use clideck_mcp.Prelude.{
  ◌≤◌, ◌<◌, Bool, true, false, none, some, [], ◌∷◌, ◌≡◌, ◌≢◌, ◌⊎◌, refl, inl, arith, All, any,
}
use clideck_mcp.Prelude.Table.{In, Related, update_rows, select_rows, first_row, count_rows}
use clideck_mcp.Pipeline.Limits.{source_discovery}
use clideck_mcp.Pipeline.Tasks.Tables.{PipelineTask, Circuit, Store, RunStatus, AgentRun}
use clideck_mcp.Pipeline.Tasks.Queue.{
  new_task, insert_task, has_task_id, complete_task, record_event, record_executor_heartbeat,
}
use clideck_mcp.Pipeline.Tasks.Runs.{ProcessingRun, cancel_run_task}
use clideck_mcp.Pipeline.Tasks.Recover.{lease_has_run_out, recover_task, reconcile_expired_leases}
use clideck_mcp.Pipeline.Tasks.Lease.{err, ok, pipeline_lease_invalid, complete_mechanical}
use clideck_mcp.Pipeline.Tasks.Fail.{fail_row, is_retrying, is_scoped_platform_failure}
use clideck_mcp.Pipeline.Tasks.FailTask.{fail_pipeline_task}
use clideck_mcp.Pipeline.Tasks.Messages.{is_retryable_codex_platform_artifact_failure}
use clideck_mcp.Pipeline.Tasks.Results.{record_agent_run_result-once}
use clideck_mcp.Pipeline.Tasks.Circuits.{clear_stale_model_probes, is_circuit, is_blocked}
use clideck_mcp.Pipeline.Tasks.AgentRuns.{RunResult, already_terminal, record_agent_run_result}
use clideck_mcp.Pipeline.Tasks.Select.{next_ai_task}
use clideck_mcp.Pipeline.Tasks.Choice.{
  claimed_task, answered, thrown, attempts_check, active_ai_runs,
}
use clideck_mcp.Pipeline.Tasks.ClaimTask.{claim_pipeline_task}
use clideck_mcp.Pipeline.Tasks.Invariant.{
  Reach, here, next, inserts, claims, recovers, IsSoundStore, Reach-IsSoundStore, Reach-over,
}
use clideck_mcp.Pipeline.Tasks.Rows.{IsSound}
use clideck_mcp.Pipeline.Tasks.Steps.{HasDistinctIds}
use clideck_mcp.Pipeline.Tasks.Recovered.{Fate, reconcile-Recovered}
use clideck_mcp.Pipeline.Tasks.RunEnds.{HasNoneQueued, reconcile-HasNoneQueued}
use clideck_mcp.Pipeline.Tasks.Settled.{
  HasLease, Settles, fail_pipeline_task-Settles, completes, end_lease, lease_ends,
}
use clideck_mcp.Pipeline.Tasks.Handout.{claim-active_le}
use clideck_mcp.Pipeline.Tasks.Stalled.{claim-unblocked, platform_failure_stalls}
use clideck_mcp.Pipeline.Tasks.Tests.{
  digest, stringify, no_evidence, unlocked, no_tasks, search_task, converting, converted, reviewing,
  platform_message, of_tasks, queued_store, claim_at, handed_out, claimed_store, claimed_run,
}

empty-IsSoundStore : IsSoundStore no_tasks
empty-IsSoundStore = record { sound = tt; apart = tt }

insert_and_claim : Reach digest stringify no_evidence no_tasks claimed_store
insert_and_claim =
    next (next here (inserts 1 100 search_task no_tasks tt))
      (claims 100 60 unlocked 1 "pipeline-executor-01" "i" "tok" 2 queued_store)

Reach-IsSoundStore_example : IsSoundStore claimed_store
Reach-IsSoundStore_example = Reach-IsSoundStore empty-IsSoundStore insert_and_claim

converted-IsSound : IsSound converted
converted-IsSound = ground arith

converted-IsSoundStore : IsSoundStore (of_tasks (converted ∷ []))
converted-IsSoundStore = record { sound = (converted-IsSound, tt); apart = (tt, tt) }

-- A run whose task is given up at 300, and a task of it that waits.
abbrev no_lock : ProcessingRun → Bool
no_lock run = false

abbrev active_run : ProcessingRun
active_run = record {
  id = 8;
  status = "extracting";
  failure_code = none;
  failure_message = none;
  completed_at = none;
  job_cancelled = false;
}

abbrev spent_task : PipelineTask
spent_task = record converting { attempts = 5; processing_run_id = some 8 }

abbrev waiting_task : PipelineTask
waiting_task = record reviewing { attempts = 2; processing_run_id = some 8 }

abbrev recovery_db : Store
recovery_db = of_tasks (spent_task ∷ waiting_task ∷ converted ∷ [])

run_ends_with_its_task :
    (reconcile_expired_leases unlocked no_lock 300 (active_run ∷ []) recovery_db).1.tasks
    ≡ recover_task 300 spent_task
      ∷ cancel_run_task 300 (recover_task 300 waiting_task)
      ∷ converted
      ∷ []
unfolding reconcile_expired_leases update_rows recover_task select_rows cancel_run_task record_event
run_ends_with_its_task = refl

Reach-over_example :
    In converted
      (reconcile_expired_leases unlocked no_lock 300 [] (of_tasks (converted ∷ []))).1.tasks
Reach-over_example =
    Reach-over {sha256 = digest} {stringify = stringify} {no_evidence = no_evidence} converted
      converted-IsSoundStore
      (next here (recovers 300 unlocked no_lock [] (of_tasks (converted ∷ [])))) (inl refl) refl

reconcile-Recovered_example :
    Related
      (Fate 300 recovery_db.tasks)
      recovery_db.tasks
      (reconcile_expired_leases unlocked no_lock 300 (active_run ∷ []) recovery_db).1.tasks
    × All
        (λ t. lease_has_run_out 300 t ≡ false)
        (reconcile_expired_leases unlocked no_lock 300 (active_run ∷ []) recovery_db).1.tasks
reconcile-Recovered_example = reconcile-Recovered no_lock 300 (active_run ∷ []) recovery_db

reconcile-HasNoneQueued_example :
    HasNoneQueued 8
      (reconcile_expired_leases unlocked no_lock 300 (active_run ∷ []) recovery_db).1.tasks
reconcile-HasNoneQueued_example =
    reconcile-HasNoneQueued no_lock 300 (active_run ∷ []) recovery_db active_run (inl refl) refl
      refl
      (record {
        task = spent_task;
        was_there = inl refl;
        run_out = refl;
        spent = omega arith;
        its_run = refl;
      })

fail_pipeline_task-Settles_example :
    ((fail_pipeline_task digest 150 4 "t" "SOURCE_HTTP_404" "gone" (of_tasks (converting ∷ []))
        ≡ err pipeline_lease_invalid)
      × All (λ t. ¬ (HasLease digest 150 4 "t" t)) (converting ∷ []))
    ⊎ ((t : PipelineTask) × (b : Bool) × (d : Store) × (set : PipelineTask → PipelineTask) × In t
          (converting ∷ [])
        × HasLease digest 150 4 "t" t
        × (fail_pipeline_task digest 150 4 "t" "SOURCE_HTTP_404" "gone" (of_tasks (converting ∷ []))
            ≡ ok (b, d))
        × (d.tasks ≡ update_rows (has_task_id t.id) set (converting ∷ []))
        × Settles 150 "SOURCE_HTTP_404" "gone" t (set t) b)
fail_pipeline_task-Settles_example =
    fail_pipeline_task-Settles digest 150 4 "t" "SOURCE_HTTP_404" "gone"
      (of_tasks (converting ∷ []))

abbrev completed_store : Store
completed_store = complete_task 150 converting "{}" (of_tasks (converting ∷ []))

completed_run :
    end_lease digest 150 4 "t" (completes "{}") (of_tasks (converting ∷ [])) ≡ ok completed_store
unfolding complete_mechanical first_row
completed_run = refl

lease_ends_example : All (λ t. ¬ (HasLease digest 155 4 "t" t)) completed_store.tasks
lease_ends_example =
    lease_ends digest 150 155 4 "t" (completes "{}") (of_tasks (converting ∷ [])) completed_store
      completed_run

queued-distinct : HasDistinctIds queued_store.tasks
unfolding insert_task record_event
queued-distinct = (tt, tt)

claim-active_le_example :
    (active_ai_runs 100 queued_store < 2) × (active_ai_runs 100 claimed_store ≤ 2)
unfolding insert_task record_event
claim-active_le_example =
    claim-active_le digest stringify no_evidence 100 60 unlocked 1 "pipeline-executor-01" "i" "tok"
      2 queued_store claimed_store handed_out queued-distinct claimed_run

claim-unblocked_example :
    (any
        (is_circuit "luna" source_discovery "gpt-5.6-luna" "low")
        (clear_stale_model_probes 100 queued_store).circuits
      ≡ false)
    ⊎ ((x : Circuit) × In x (clear_stale_model_probes 100 queued_store).circuits
        × (is_circuit "luna" source_discovery "gpt-5.6-luna" "low" x ≡ true)
        × (is_blocked 100 x ≡ false))
claim-unblocked_example =
    claim-unblocked digest stringify no_evidence 100 60 unlocked 1 "pipeline-executor-01" "i" "tok"
      2 queued_store claimed_store handed_out claimed_run

-- The tenth attempt fails with a platform error, and the queue stands still.
abbrev failed_again : PipelineTask
failed_again =
    fail_row 150 "CODEX_PROCESS_FAILED" platform_message
      (is_retrying reviewing "CODEX_PROCESS_FAILED" platform_message) reviewing

platform_failure_stalls_example :
    (is_retrying reviewing "CODEX_PROCESS_FAILED" platform_message ≡ true)
    × (claim_at 300 (of_tasks (failed_again ∷ []))
        ≢ answered (claimed_task handed_out) claimed_store)
unfolding is_scoped_platform_failure is_retryable_codex_platform_artifact_failure next_ai_task
    clear_stale_model_probes fail_row update_rows is_retrying
platform_failure_stalls_example =
    platform_failure_stalls digest stringify no_evidence 300 60 unlocked 1 "pipeline-executor-01"
      "i" "tok" 150 "CODEX_PROCESS_FAILED" platform_message reviewing 2
      (of_tasks (failed_again ∷ [])) claimed_store handed_out refl (omega arith) refl

-- What the claim throws.
stalled_run : claim_at 300 (of_tasks (failed_again ∷ [])) ≡ thrown attempts_check
unfolding claim_pipeline_task next_ai_task first_row record_event record_executor_heartbeat
    update_rows fail_row is_retrying is_scoped_platform_failure
    is_retryable_codex_platform_artifact_failure
stalled_run = refl

-- A run that ends because its model is not available: the circuit opens for a day.
abbrev search_run : AgentRun
search_run = record {
  id = 9;
  pipeline_task_id = 1;
  model = "gpt-5.6-luna";
  reasoning_effort = "low";
  execution_profile = some "luna";
  settings_version = 1;
  fallback_from_model = none;
  executor_id = some "pipeline-executor-01";
  status = RunStatus.running;
  error_code = none;
  diagnostic_code = none;
  diagnostic_fingerprint = none;
  started_at = 100;
  completed_at = none;
}

abbrev running_store : Store
running_store = record no_tasks {
  tasks = new_task 1 100 search_task ∷ [];
  agent_runs = search_run ∷ [];
}

abbrev model_unavailable : RunResult
model_unavailable = record {
  agent_run_id = 9;
  status = RunStatus.failed;
  error_code = some "AGENT_PROCESS_FAILED";
  diagnostic_code = some "CODEX_MODEL_UNAVAILABLE";
  diagnostic_fingerprint = some "f";
}

abbrev stopped_store : Store
stopped_store = (record_agent_run_result 120 model_unavailable running_store).1

circuit_opens :
    stopped_store.circuits
    ≡ record {
      execution_profile = "luna";
      task_type = source_discovery;
      model = "gpt-5.6-luna";
      reasoning_effort = "low";
      diagnostic_fingerprint = "f";
      open_until = 86520;
      probe_executor_id = none;
      configuration_error = true;
    }
      ∷ []
unfolding record_agent_run_result first_row update_rows count_rows new_task
circuit_opens = refl

record_agent_run_result-once_example :
    record_agent_run_result 130 model_unavailable stopped_store
    ≡ (already_terminal RunStatus.failed, stopped_store)
unfolding record_agent_run_result first_row update_rows count_rows new_task
record_agent_run_result-once_example =
    record_agent_run_result-once 120 130 model_unavailable model_unavailable running_store
      stopped_store (tt, tt) refl refl refl
