-- ===== src/Pipeline/Tasks/Handout.antt =====
-- Which task claimPipelineTask of src/domain/pipeline.ts hands out, and how many run then.
use clideck_mcp.Prelude.{
  ℕ, ◌+◌, ◌≤◌, ◌<◌, String, Bool, true, false, not, if◌then◌else◌, List, ◌≡◌, refl, leb, arith, All,
}
use clideck_mcp.Prelude.Table.Keys.{count-update_by_key}
use clideck_mcp.Pipeline.Tasks.Tables.{PipelineTask, Store}
use clideck_mcp.Pipeline.Tasks.Circuits.{clear_stale_model_probes}
use clideck_mcp.Pipeline.Tasks.Eligible.{IsEligible}
use clideck_mcp.Pipeline.Tasks.Outranked.{Outranks}
use clideck_mcp.Pipeline.Tasks.Choice.{
  claimed_task, Claimed, answered, lease_row, active_ai_runs, runs_ai,
}
use clideck_mcp.Pipeline.Tasks.ClaimTask.{
  gate_paused, gate_disabled, gate_upgrade, gate_full, gate_open, claim_gate, claim_pipeline_task,
}
use clideck_mcp.Pipeline.Tasks.Steps.{task_id, HasDistinctIds}
use clideck_mcp.Pipeline.Tasks.Taken.{taken}

-- The task is eligible, and no eligible row outranks it.
pub record IsPreferred (no_evidence : String → Bool) (locked : PipelineTask → Bool) (now : ℕ)
    (db : Store) (rows : List PipelineTask) (t : PipelineTask) : Type 0 where
  pub eligible : IsEligible locked now db t
  pub ahead : All (λ r. IsEligible locked now db r → ¬ (Outranks no_evidence db r t)) rows

-- The tests before the selection: an open gate has met none of them.
opened :
    (enabled disabled upgrade full : Bool) (capacity active : ℕ)
    → (if not enabled
        then gate_paused
        else if disabled
        then gate_disabled
        else if upgrade
        then gate_upgrade
        else if full
        then gate_full capacity active
        else gate_open)
      ≡ gate_open
    → (enabled ≡ true) × (full ≡ false)
opened enabled disabled upgrade full capacity active e = ground arith

below_limit : (limit n : ℕ) → leb limit n ≡ false → n < limit
below_limit limit n h = ground arith

active_ai_runs-cleared :
    (now : ℕ) (db : Store)
    → active_ai_runs now (clear_stale_model_probes now db) ≡ active_ai_runs now db
unfolding active_ai_runs clear_stale_model_probes
active_ai_runs-cleared now db = refl

module _ (sha256 : String → String) (stringify : List String → String) (no_evidence : String → Bool)
    (now lease_seconds : ℕ) (locked : PipelineTask → Bool) (run_id : ℕ)
    (executor instance_id token : String) where
  abbrev cleared : Store → Store
  cleared = clear_stale_model_probes now

  gate-room :
      (protocol : ℕ) (db : Store)
      → claim_gate sha256 stringify no_evidence now lease_seconds locked run_id executor instance_id
          token protocol db
          (cleared db)
        ≡ gate_open
      → active_ai_runs now db < db.settings.max_concurrent_ai_runs
  unfolding claim_gate
  gate-room protocol db e =
      let room = (opened db.settings.enabled _ _ _ _ _ e).1 in
      rw (← active_ai_runs-cleared now db) (below_limit _ _ room)

  -- claimPipelineTask hands a task out only while fewer AI tasks run than the operator allows, so
  -- that afterwards no more run than that.
  pub claim-active_le :
      (protocol : ℕ) (db d : Store) (c : Claimed)
      → HasDistinctIds db.tasks
      → claim_pipeline_task sha256 stringify no_evidence now lease_seconds locked run_id executor
          instance_id token protocol db
        ≡ answered (claimed_task c) d
      → (active_ai_runs now db < db.settings.max_concurrent_ai_runs)
        × (active_ai_runs now d ≤ db.settings.max_concurrent_ai_runs)
  unfolding active_ai_runs
  claim-active_le protocol db d c u h =
      let k =
        taken sha256 stringify no_evidence now lease_seconds locked run_id executor instance_id
          token protocol db d c h in
      let room = gate-room protocol db k.opened in
      let more =
        count-update_by_key task_id (runs_ai now) k.task.id
          (lease_row now (now + lease_seconds) executor (sha256 token) c.payload) db.tasks u in
      (room, rw k.rows (omega (arith, room, more)))
