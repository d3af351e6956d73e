-- ===== src/Pipeline/Tasks/Stalled.antt =====
-- When claimPipelineTask of src/domain/pipeline.ts hands nothing out: blocked circuits, and a task
-- whose attempts are spent.
use clideck_mcp.Prelude.{
  ℕ, ◌≤◌, String, Bool, true, false, some, List, ◌≡◌, ◌≢◌, ◌⊎◌, refl, sym, ap, ◌∙◌, inl, inr, arith,
  any, Bool-cases, includes, str_eq, str_eq_iff,
}
use clideck_mcp.Prelude.Table.{In, any-In}
use clideck_mcp.Pipeline.Limits.{TaskType}
use clideck_mcp.Pipeline.Tasks.Tables.{PipelineTask, Circuit, Store}
use clideck_mcp.Pipeline.Tasks.Circuits.{
  clear_stale_model_probes, probe_circuit, is_circuit, is_blocked, may_probe,
}
use clideck_mcp.Pipeline.Tasks.Select.{next_ai_task}
use clideck_mcp.Pipeline.Tasks.Choice.{claimed_task, Claimed, answered}
use clideck_mcp.Pipeline.Tasks.ClaimTask.{claim_pipeline_task}
use clideck_mcp.Pipeline.Tasks.Fail.{
  terminal_failure_codes, is_scoped_platform_failure, is_retrying, fail_row,
}
use clideck_mcp.Pipeline.Tasks.Taken.{taken}

-- A probe that lets a claim through.
let_through :
    (now : ℕ) (executor profile : String) (task_type : TaskType) (model effort : String)
    (db : Store) {probed : Store}
    → probe_circuit now executor profile task_type model effort db ≡ some probed
    → (any (is_circuit profile task_type model effort) db.circuits ≡ false)
      ⊎ (any (may_probe now profile task_type model effort) db.circuits ≡ true)
unfolding probe_circuit
let_through now executor profile task_type model effort db e =
    elim (Bool-cases (any (is_circuit profile task_type model effort) db.circuits)) [
      | inr unmatched ↦ inl unmatched
      | inl matched ↦
          elim (Bool-cases (any (may_probe now profile task_type model effort) db.circuits)) [
            | inl cooled ↦ inr cooled
            | inr blocked ↦ absurd (ground arith)
          ]
    ]

may_probe-unblocked :
    (now : ℕ) (profile : String) (task_type : TaskType) (model effort : String) (c : Circuit)
    → may_probe now profile task_type model effort c ≡ true
    → (is_circuit profile task_type model effort c ≡ true) × (is_blocked now c ≡ false)
may_probe-unblocked now profile task_type model effort c h = (ground arith, ground arith)

some_same : {a b : PipelineTask} → some a ≡ some b → a ≡ b
some_same e = cc

scoped_code :
    (t : PipelineTask) (code message : String)
    → is_scoped_platform_failure t code message ≡ true
    → str_eq code "CODEX_PROCESS_FAILED" ≡ true
unfolding is_scoped_platform_failure
scoped_code t code message h = ground arith

scoped-retrying :
    (t : PipelineTask) (code message : String)
    → is_scoped_platform_failure t code message ≡ true
    → is_retrying t code message ≡ true
unfolding is_retrying
scoped-retrying t code message h =
    let same : code ≡ "CODEX_PROCESS_FAILED" =
      (str_eq_iff code "CODEX_PROCESS_FAILED").0 (scoped_code t code message h) in
    let open_code : includes terminal_failure_codes code ≡ false = rw same refl in ground arith

module _ (sha256 : String → String) (stringify : List String → String) (no_evidence : String → Bool)
    (now lease_seconds : ℕ) (locked : PipelineTask → Bool) (run_id : ℕ)
    (executor instance_id token : String) where
  -- claimPipelineTask hands a task out on a model only if, after stale probes are given up, no
  -- circuit of that profile, type, model and effort is there, or one is there that has cooled down,
  -- has no configuration error and is probed by no executor.
  pub claim-unblocked :
      (protocol : ℕ) (db d : Store) (c : Claimed)
      → claim_pipeline_task sha256 stringify no_evidence now lease_seconds locked run_id executor
          instance_id token protocol db
        ≡ answered (claimed_task c) d
      → (any
            (is_circuit c.execution_profile c.task_type c.requested_model
              c.requested_reasoning_effort)
            (clear_stale_model_probes now db).circuits
          ≡ false)
        ⊎ ((x : Circuit) × In x (clear_stale_model_probes now db).circuits
            × (is_circuit c.execution_profile c.task_type c.requested_model
                  c.requested_reasoning_effort x
                ≡ true)
            × (is_blocked now x ≡ false))
  claim-unblocked protocol db d c h =
      let k =
        taken sha256 stringify no_evidence now lease_seconds locked run_id executor instance_id
          token protocol db d c h in
      rw (k.model.0, k.model.1, k.model.2, k.names.1)
        (elim (let_through now executor k.profile.profile_id k.task.task_type _ _ _ k.let_through) [
          | inl unmatched ↦ inl unmatched
          | inr cooled ↦
              let (x, i, p) = any-In _ _ cooled in
              let (matches, unblocked) = may_probe-unblocked now _ _ _ _ x p in
              inr (x, i, matches, unblocked)
        ])

  -- A medium deep review that fails with a platform error is retried however often it was
  -- attempted. When it has ten attempts and comes first in the queue, no claim by any executor hands
  -- out any task: the transaction would count an eleventh attempt, which the table does not allow.
  pub platform_failure_stalls :
      (earlier : ℕ) (code message : String) (t : PipelineTask) (protocol : ℕ) (db d : Store)
      (c : Claimed)
      → is_scoped_platform_failure t code message ≡ true
      → 10 ≤ t.attempts
      → next_ai_task no_evidence locked now (clear_stale_model_probes now db)
        ≡ some (fail_row earlier code message (is_retrying t code message) t)
      → (is_retrying t code message ≡ true)
        × (claim_pipeline_task sha256 stringify no_evidence now lease_seconds locked run_id executor
              instance_id token protocol db
            ≢ answered (claimed_task c) d)
  unfolding fail_row
  platform_failure_stalls earlier code message t protocol db d c scoped ten first = (
    scoped-retrying t code message scoped,
    λ h.
        let k =
          taken sha256 stringify no_evidence now lease_seconds locked run_id executor instance_id
            token protocol db d c h in
        let same : k.task ≡ fail_row earlier code message (is_retrying t code message) t =
          some_same (sym k.selected ∙ first) in
        let tries : k.task.attempts ≡ t.attempts = ap (λ (x : PipelineTask). x.attempts) same in
        let fits = k.fits in ground arith,
  )
