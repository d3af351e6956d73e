-- ===== src/Pipeline/Tasks/Taken.antt =====
-- What claimPipelineTask of src/domain/pipeline.ts takes: the task, its model, and the number of
-- runs.
use clideck_mcp.Prelude.{
  ℕ, ◌+◌, String, Bool, true, false, Option, none, some, List, ◌≡◌, ◌≢◌, refl, sym, ap, ◌∙◌, inl,
  inr, arith, any, ltb, Bool-cases, Option-cases,
}
use clideck_mcp.Prelude.Table.{update_rows}
use clideck_mcp.Pipeline.Tasks.Tables.{PipelineTask, ExecutionProfile, Store, Payload}
use clideck_mcp.Pipeline.Tasks.Queue.{has_task_id, record_event, record_executor_heartbeat}
use clideck_mcp.Pipeline.Tasks.Circuits.{clear_stale_model_probes, probe_circuit}
use clideck_mcp.Pipeline.Tasks.Select.{next_ai_task}
use clideck_mcp.Pipeline.Tasks.Choice.{
  Reply, claimed_task, Claimed, ClaimResult, answered, thrown, Choice, choose, choose_model,
  claim_payload, lease_row, attempts_check, expert_task_not_available, circuit_open,
}
use clideck_mcp.Pipeline.Tasks.Claim.{queued_expert, spent_expert, idle_state}
use clideck_mcp.Pipeline.Tasks.ClaimTask.{
  Gate, gate_paused, gate_disabled, gate_upgrade, gate_full, gate_open, claim_gate, claim_through,
  claim_selected, claim_on, write_claim, finish_claim, claim_expert, expert_of, claim_pipeline_task,
}
use clideck_mcp.Pipeline.Tasks.Writes.{started-tasks, started-circuits}
use clideck_mcp.Pipeline.Tasks.Steps.Claims.{probe-tasks}

choose_model-profile :
    (now : ℕ) (db : Store) (t : PipelineTask) (p : ExecutionProfile)
    → (choose_model now db t p).profile ≡ p
unfolding choose_model
choose_model-profile now db t p = go p.fallback
  where
    go : (o : Option (String × String)) → (choose now db t p o).profile ≡ p
    go none = refl
    go (some (m, e)) = ground arith

module _ (sha256 : String → String) (stringify : List String → String) (no_evidence : String → Bool)
    (now lease_seconds : ℕ) (locked : PipelineTask → Bool) (run_id : ℕ)
    (executor instance_id token : String) where
  -- How a claim came to answer with `c` and to leave `d`: the task, its profile, the model, and
  -- what the circuits let through.
  pub record Taken (protocol : ℕ) (db d : Store) (c : Claimed) : Type 0 where
    pub task : PipelineTask
    pub profile : ExecutionProfile
    pub probed : Store
    pub opened :
        claim_gate sha256 stringify no_evidence now lease_seconds locked run_id executor instance_id
          token protocol db
          (clear_stale_model_probes now db)
        ≡ gate_open
    pub selected : next_ai_task no_evidence locked now (clear_stale_model_probes now db) ≡ some task
    pub let_through :
        probe_circuit now executor profile.profile_id task.task_type
          (choose_model now (clear_stale_model_probes now db) task profile).model
          (choose_model now (clear_stale_model_probes now db) task profile).effort
          (clear_stale_model_probes now db)
        ≡ some probed
    pub fits : ltb 10 (task.attempts + 1) ≡ false
    pub rows :
        d.tasks
        ≡ update_rows
            (has_task_id task.id)
            (lease_row now (now + lease_seconds) executor (sha256 token) c.payload)
            db.tasks
    pub circuits : d.circuits ≡ probed.circuits
    pub names : (c.pipeline_task_id ≡ task.id) × (c.task_type ≡ task.task_type)
    pub leases : (c.lease_token ≡ token) × (c.lease_until ≡ now + lease_seconds)
    pub model :
        (c.execution_profile ≡ profile.profile_id)
        × (c.requested_model
            ≡ (choose_model now (clear_stale_model_probes now db) task profile).model)
        × (c.requested_reasoning_effort
            ≡ (choose_model now (clear_stale_model_probes now db) task profile).effort)

  abbrev finishes : Choice → Payload → PipelineTask → Option Store → ClaimResult
  finishes =
      finish_claim sha256 stringify no_evidence now lease_seconds locked run_id executor instance_id
        token

  abbrev with_expert : Option ℕ → Store → Option Store
  with_expert =
      claim_expert sha256 stringify no_evidence now lease_seconds locked run_id executor instance_id
        token

  -- What the writes after the probe answer and leave.
  record Finished (m : Choice) (p : Payload) (t : PipelineTask) (before d : Store) (c : Claimed)
      : Type 0 where
    tasks : d.tasks ≡ before.tasks
    circuits : d.circuits ≡ before.circuits
    payload : c.payload ≡ p
    names : (c.pipeline_task_id ≡ t.id) × (c.task_type ≡ t.task_type)
    leases : (c.lease_token ≡ token) × (c.lease_until ≡ now + lease_seconds)
    model :
        (c.execution_profile ≡ m.profile.profile_id)
        × (c.requested_model ≡ m.model)
        × (c.requested_reasoning_effort ≡ m.effort)

  answered_both : {r s : Reply} {a b : Store} → answered r a ≡ answered s b → (r ≡ s) × (a ≡ b)
  answered_both e = (cc, cc)

  claimed_same : {a b : Claimed} → claimed_task a ≡ claimed_task b → a ≡ b
  claimed_same e = cc

  end_of_claim :
      (m : Choice) (p : Payload) (t : PipelineTask) (before kept d : Store) (c : Claimed)
      → kept.tasks ≡ before.tasks
      → kept.circuits ≡ before.circuits
      → finishes m p t (some kept) ≡ answered (claimed_task c) d
      → Finished m p t before d c
  unfolding record_event
  end_of_claim m p t before kept d c et ec h =
      let (r, s) = answered_both h in
      let same = claimed_same r in
      record {
        tasks = ap (λ (x : Store). x.tasks) (sym s) ∙ started-tasks now t kept ∙ et;
        circuits = ap (λ (x : Store). x.circuits) (sym s) ∙ started-circuits now t kept ∙ ec;
        payload = ap (λ (x : Claimed). x.payload) (sym same);
        names = (
          ap (λ (x : Claimed). x.pipeline_task_id) (sym same),
          ap (λ (x : Claimed). x.task_type) (sym same),
        );
        leases = (
          ap (λ (x : Claimed). x.lease_token) (sym same),
          ap (λ (x : Claimed). x.lease_until) (sym same),
        );
        model = (
          ap (λ (x : Claimed). x.execution_profile) (sym same),
          ap (λ (x : Claimed). x.requested_model) (sym same),
          ap (λ (x : Claimed). x.requested_reasoning_effort) (sym same),
        );
      }

  finished :
      (m : Choice) (p : Payload) (t : PipelineTask) (id : Option ℕ) (before d : Store) (c : Claimed)
      → finishes m p t (with_expert id before) ≡ answered (claimed_task c) d
      → Finished m p t before d c
  finished m p t none before d c h = end_of_claim m p t before before d c refl refl h
  finished m p t (some i) before d c h = elim (Bool-cases (any (queued_expert i) before.experts)) [
    | inl free ↦ end_of_claim m p t before _ d c refl refl (rw free at h)
    | inr busy ↦ absurd (
        let gone : thrown expert_task_not_available ≡ answered (claimed_task c) d = rw busy at h in
        cc)
  ]

  abbrev claimed_expert : PipelineTask → Option ℕ
  claimed_expert =
      expert_of sha256 stringify no_evidence now lease_seconds locked run_id executor instance_id
        token

  abbrev cleared : Store → Store
  cleared = clear_stale_model_probes now

  abbrev Gate_of : ℕ → Store → Gate
  Gate_of protocol db =
      claim_gate sha256 stringify no_evidence now lease_seconds locked run_id executor instance_id
        token protocol db (cleared db)

  written :
      (protocol : ℕ) (db d : Store) (c : Claimed) (t : PipelineTask) (p : ExecutionProfile)
      (probed : Store)
      → Gate_of protocol db ≡ gate_open
      → next_ai_task no_evidence locked now (cleared db) ≡ some t
      → probe_circuit now executor p.profile_id t.task_type
          (choose_model now (cleared db) t p).model
          (choose_model now (cleared db) t p).effort
          (cleared db)
        ≡ some probed
      → write_claim sha256 stringify no_evidence now lease_seconds locked run_id executor
          instance_id token
          (choose_model now (cleared db) t p)
          t
          probed
        ≡ answered (claimed_task c) d
      → Taken protocol db d c
  unfolding write_claim record_executor_heartbeat clear_stale_model_probes
  written protocol db d c t p probed unbarred sel through w =
      elim (Bool-cases (ltb 10 (t.attempts + 1))) [
        | inl spent ↦
            absurd
              (let gone : thrown attempts_check ≡ answered (claimed_task c) d = rw spent at w in cc)
        | inr fits ↦ elim (Bool-cases (spent_expert (claimed_expert t) probed.experts)) [
          | inl busy ↦ absurd (
              let gone : thrown attempts_check ≡ answered (claimed_task c) d =
                rw (fits, busy) at w in
              cc)
          | inr free ↦
              let m = choose_model now (cleared db) t p in
              let payload = claim_payload stringify m t.payload in
              let f = finished m payload t (claimed_expert t) _ d c (rw (fits, free) at w) in
              let kept =
                probe-tasks sha256 stringify no_evidence now lease_seconds locked run_id executor
                  instance_id token p.profile_id t m.model m.effort (cleared db) through in
              record {
                task = t;
                profile = p;
                probed = probed;
                opened = unbarred;
                selected = sel;
                let_through = through;
                fits = fits;
                rows = f.tasks ∙ rw (kept, f.payload) refl;
                circuits = f.circuits;
                names = f.names;
                leases = f.leases;
                model = (
                  f.model.0
                      ∙ ap (λ (x : ExecutionProfile). x.profile_id)
                          (choose_model-profile now (cleared db) t p),
                  f.model.1,
                  f.model.2,
                );
              }
        ]
      ]

  on_task :
      (protocol : ℕ) (db d : Store) (c : Claimed) (t : PipelineTask) (p : Option ExecutionProfile)
      → Gate_of protocol db ≡ gate_open
      → next_ai_task no_evidence locked now (cleared db) ≡ some t
      → claim_on sha256 stringify no_evidence now lease_seconds locked run_id executor instance_id
          token t
          (cleared db)
          p
        ≡ answered (claimed_task c) d
      → Taken protocol db d c
  on_task protocol db d c t none unbarred sel y = absurd (cc)
  on_task protocol db d c t (some p) unbarred sel y =
      let m = choose_model now (cleared db) t p in
      elim (Option-cases
        (probe_circuit now executor p.profile_id t.task_type m.model m.effort (cleared db))) [
          | inl stopped ↦ absurd (
              let (r, s) = answered_both (rw stopped at y) in
              let wrong : circuit_open ≡ claimed_task c = r in cc)
          | inr (probed, through) ↦
              written protocol db d c t p probed unbarred sel through (rw through at y)
        ]

  idle-unclaimed :
      (blocked working : Bool) (c : Claimed) → idle_state blocked working ≢ claimed_task c
  idle-unclaimed true working c e = cc
  idle-unclaimed false true c e = cc
  idle-unclaimed false false c e = cc

  on_selection :
      (protocol : ℕ) (db d : Store) (c : Claimed) (o : Option PipelineTask)
      → Gate_of protocol db ≡ gate_open
      → next_ai_task no_evidence locked now (cleared db) ≡ o
      → claim_selected sha256 stringify no_evidence now lease_seconds locked run_id executor
          instance_id token
          (cleared db)
          o
        ≡ answered (claimed_task c) d
      → Taken protocol db d c
  on_selection protocol db d c none unbarred sel y =
      let (r, s) = answered_both y in absurd (idle-unclaimed _ _ c r)
  on_selection protocol db d c (some t) unbarred sel y = on_task protocol db d c t _ unbarred sel y

  on_gate :
      (protocol : ℕ) (db d : Store) (c : Claimed) (g : Gate)
      → Gate_of protocol db ≡ g
      → claim_through sha256 stringify no_evidence now lease_seconds locked run_id executor
          instance_id token db
          (cleared db)
          g
        ≡ answered (claimed_task c) d
      → Taken protocol db d c
  on_gate protocol db d c gate_paused e y = let (r, s) = answered_both y in absurd (cc)
  on_gate protocol db d c gate_disabled e y = let (r, s) = answered_both y in absurd (cc)
  on_gate protocol db d c gate_upgrade e y = let (r, s) = answered_both y in absurd (cc)
  on_gate protocol db d c (gate_full capacity active) e y =
      let (r, s) = answered_both y in absurd (cc)
  on_gate protocol db d c gate_open e y =
      on_selection protocol db d c (next_ai_task no_evidence locked now (cleared db)) e refl y

  pub taken :
      (protocol : ℕ) (db d : Store) (c : Claimed)
      → claim_pipeline_task sha256 stringify no_evidence now lease_seconds locked run_id executor
          instance_id token protocol db
        ≡ answered (claimed_task c) d
      → Taken protocol db d c
  unfolding claim_pipeline_task
  taken protocol db d c h = on_gate protocol db d c (Gate_of protocol db) refl h
