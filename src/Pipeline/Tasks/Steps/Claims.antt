-- ===== src/Pipeline/Tasks/Steps/Claims.antt =====
-- The claims take the row that they select on, if their transaction commits.
use clideck_mcp.Prelude.{
  ℕ, ◌+◌, String, Bool, true, false, Option, none, some, List, ◌≡◌, refl, ◌∙◌, inl, inr, arith, ltb,
  any, Bool-cases, Option-cases,
}
use clideck_mcp.Prelude.Table.{In, Related}
use clideck_mcp.Prelude.Table.Best.{best_row-In}
use clideck_mcp.Pipeline.Tasks.Tables.{PipelineTask, ExecutionProfile, Store, Payload}
use clideck_mcp.Pipeline.Tasks.Columns.{is_queued}
use clideck_mcp.Pipeline.Tasks.Queue.{record_event, record_executor_heartbeat}
use clideck_mcp.Pipeline.Tasks.Rows
use clideck_mcp.Pipeline.Tasks.Rows.{Goes}
use clideck_mcp.Pipeline.Tasks.Writes.{started-tasks}
use clideck_mcp.Pipeline.Tasks.Steps.{HasDistinctIds, Goes-all_refl, Goes-by_id}
use clideck_mcp.Pipeline.Tasks.Circuits.{clear_stale_model_probes, probe_circuit}
use clideck_mcp.Pipeline.Tasks.Select.{is_selectable, next_ai_task, next_mechanical_task}
use clideck_mcp.Pipeline.Tasks.Choice.{
  ClaimResult, answered, thrown, Choice, choose_model, claim_payload, lease_row,
}
use clideck_mcp.Pipeline.Tasks.Claim.{queued_expert, spent_expert}
use clideck_mcp.Pipeline.Tasks.ClaimTask.{
  claim_expert, finish_claim, write_claim, claim_on, claim_selected, Gate, gate_paused,
  gate_disabled, gate_upgrade, gate_full, gate_open, claim_gate, claim_through, claim_pipeline_task,
  expert_of,
}
use clideck_mcp.Pipeline.Tasks.Mechanical.{
  MechanicalClaim, nothing, started, check_violation, start_mechanical, start_enabled,
  lease_mechanical_row, claim_mechanical, start_source, source_status,
}

-- The store after a claim: a transaction that throws leaves it as it was.
abbrev pub after_claim : ClaimResult → Store → Store
after_claim (answered reply d) db = d
after_claim (thrown e) db = db

abbrev pub after_mechanical : MechanicalClaim → Store → Store
after_mechanical nothing db = db
after_mechanical (started t d) db = d
after_mechanical check_violation db = db

-- The row that a claim selects.
pub next_ai_task-In :
    (no_evidence : String → Bool) (locked : PipelineTask → Bool) (now : ℕ) (db : Store)
    {t : PipelineTask}
    → next_ai_task no_evidence locked now db ≡ some t
    → In t db.tasks × (is_selectable locked now db t ≡ true)
unfolding next_ai_task
next_ai_task-In no_evidence locked now db e = best_row-In _ _ db.tasks e

selectable-queued :
    (locked : PipelineTask → Bool) (now : ℕ) (db : Store) (t : PipelineTask)
    → is_selectable locked now db t ≡ true
    → is_queued t.status ≡ true
unfolding is_selectable
selectable-queued locked now db t h = ground arith

module _ (sha256 : String → String) (stringify : List String → String) (no_evidence : String → Bool)
    (now lease_seconds : ℕ) (locked : PipelineTask → Bool) (run_id : ℕ)
    (executor instance_id token : String) where
  abbrev finishes : Choice → Payload → PipelineTask → Option Store → ClaimResult
  finishes =
      finish_claim sha256 stringify no_evidence now lease_seconds locked run_id executor instance_id
        token

  abbrev with_expert : Option ℕ → Store → Option Store
  with_expert =
      claim_expert sha256 stringify no_evidence now lease_seconds locked run_id executor instance_id
        token

  abbrev claimed_expert : PipelineTask → Option ℕ
  claimed_expert =
      expert_of sha256 stringify no_evidence now lease_seconds locked run_id executor instance_id
        token

  -- What a claim leaves in the table is what its first UPDATE left, or the table before it.
  finish-Goes :
      (c : Choice) (p : Payload) (t : PipelineTask) (id : Option ℕ) (db db0 : Store)
      → Related Goes db0.tasks db.tasks
      → Related Goes db0.tasks (after_claim (finishes c p t (with_expert id db)) db0).tasks
  unfolding record_event
  finish-Goes c p t none db db0 g = rw (started-tasks now t db) g
  finish-Goes c p t (some i) db db0 g = elim (Bool-cases (any (queued_expert i) db.experts)) [
    | inl free ↦ rw free (rw (started-tasks now t _) g)
    | inr taken ↦ rw taken (Goes-all_refl db0.tasks)
  ]

  write-Goes :
      (c : Choice) (t : PipelineTask) (db db0 : Store)
      → db.tasks ≡ db0.tasks
      → HasDistinctIds db0.tasks
      → In t db0.tasks
      → is_queued t.status ≡ true
      → Related Goes db0.tasks
          (after_claim
            (write_claim sha256 stringify no_evidence now lease_seconds locked run_id executor
              instance_id token c t db)
            db0).tasks
  unfolding write_claim record_executor_heartbeat
  write-Goes c t db db0 e d i h = elim (Bool-cases (ltb 10 (t.attempts + 1))) [
    | inl spent ↦ rw spent (Goes-all_refl db0.tasks)
    | inr fits ↦ elim (Bool-cases (spent_expert (claimed_expert t) db.experts)) [
      | inl busy ↦ rw (fits, busy) (Goes-all_refl db0.tasks)
      | inr free ↦
          rw (fits, free)
            (finish-Goes c (claim_payload stringify c t.payload) t (claimed_expert t) _ db0 (
              rw e (
                Goes-by_id
                  (lease_row now (now + lease_seconds) executor (sha256 token)
                    (claim_payload stringify c t.payload))
                  db0.tasks t d i
                  (Rows.lease_row-Goes now (now + lease_seconds) executor (sha256 token)
                    (claim_payload stringify c t.payload) t h fits))))
    ]
  ]

  pub probe-tasks :
      (profile : String) (t : PipelineTask) (model effort : String) (db : Store) {probed : Store}
      → probe_circuit now executor profile t.task_type model effort db ≡ some probed
      → probed.tasks ≡ db.tasks
  unfolding probe_circuit
  probe-tasks profile t model effort db e = ground arith

  claim_on-Goes :
      (t : PipelineTask) (db db0 : Store) (p : Option ExecutionProfile)
      → db.tasks ≡ db0.tasks
      → HasDistinctIds db0.tasks
      → In t db0.tasks
      → is_queued t.status ≡ true
      → Related Goes db0.tasks
          (after_claim
            (claim_on sha256 stringify no_evidence now lease_seconds locked run_id executor
              instance_id token t db p)
            db0).tasks
  unfolding record_executor_heartbeat
  claim_on-Goes t db db0 none e d i h = Goes-all_refl db0.tasks
  claim_on-Goes t db db0 (some p) e d i h =
      let c = choose_model now db t p in
      elim (Option-cases
        (probe_circuit now executor p.profile_id t.task_type c.model c.effort db)) [
          | inl stopped ↦ rw stopped (rw e (Goes-all_refl db0.tasks))
          | inr (probed, through) ↦ rw through (
              write-Goes c t probed db0 (probe-tasks p.profile_id t c.model c.effort db through ∙ e)
                d i h)
        ]

  -- claimPipelineTask, whatever it answers or throws.
  pub claim-Goes :
      (protocol : ℕ) (db : Store)
      → HasDistinctIds db.tasks
      → Related Goes db.tasks
          (after_claim
            (claim_pipeline_task sha256 stringify no_evidence now lease_seconds locked run_id
              executor instance_id token protocol db)
            db).tasks
  unfolding claim_pipeline_task record_executor_heartbeat
  claim-Goes protocol db d = through (
      claim_gate sha256 stringify no_evidence now lease_seconds locked run_id executor instance_id
        token protocol db cleared)
    where
      cleared : Store
      cleared = clear_stale_model_probes now db

      Keeps : ClaimResult → Type 0
      Keeps r = Related Goes db.tasks (after_claim r db).tasks

      same : Related Goes db.tasks db.tasks
      same = Goes-all_refl db.tasks

      selected :
          (o : Option PipelineTask)
          → next_ai_task no_evidence locked now cleared ≡ o
          → Keeps (
              claim_selected sha256 stringify no_evidence now lease_seconds locked run_id executor
                instance_id token cleared o)
      selected none e = same
      selected (some t) e =
          let (i, h) = next_ai_task-In no_evidence locked now cleared e in
          claim_on-Goes t cleared db _ refl d i (selectable-queued locked now cleared t h)

      through :
          (g : Gate)
          → Keeps (
              claim_through sha256 stringify no_evidence now lease_seconds locked run_id executor
                instance_id token db cleared g)
      through gate_paused = same
      through gate_disabled = same
      through gate_upgrade = same
      through (gate_full capacity active) = same
      through gate_open = selected (next_ai_task no_evidence locked now cleared) refl

start_source-tasks :
    (id : Option ℕ) (status : Option String) (db : Store)
    → (start_source id status db).tasks ≡ db.tasks
unfolding start_source
start_source-tasks none status db = refl
start_source-tasks (some i) none db = refl
start_source-tasks (some i) (some s) db = refl

-- claimMechanicalPipelineTask.
pub claim_mechanical-Goes :
    (sha256 : String → String) (now lease_seconds : ℕ) (locked : PipelineTask → Bool)
    (worker token : String) (db : Store)
    → HasDistinctIds db.tasks
    → Related Goes db.tasks
        (after_mechanical
          (claim_mechanical sha256 now lease_seconds locked worker token db)
          db).tasks
unfolding claim_mechanical next_mechanical_task record_event
claim_mechanical-Goes sha256 now lease_seconds locked worker token db d =
    enabled db.settings.enabled
  where
    Keeps : MechanicalClaim → Type 0
    Keeps r = Related Goes db.tasks (after_mechanical r db).tasks

    selected :
        (o : Option PipelineTask)
        → next_mechanical_task locked now db ≡ o
        → Keeps (start_mechanical sha256 now lease_seconds worker token db o)
    selected none e = Goes-all_refl db.tasks
    selected (some t) e =
        let (i, h) = best_row-In _ _ db.tasks e in
        elim (Bool-cases (ltb 10 (t.attempts + 1))) [
          | inl spent ↦ rw spent (Goes-all_refl db.tasks)
          | inr fits ↦ rw fits (
              rw (start_source-tasks t.source_candidate_id (source_status t.task_type) _) (
                Goes-by_id (lease_mechanical_row now (now + lease_seconds) worker (sha256 token))
                  db.tasks t d i
                  (Rows.lease_mechanical_row-Goes now (now + lease_seconds) worker (sha256 token) t
                    (ground arith) fits)))
        ]

    enabled :
        (b : Bool)
        → Keeps (
            start_enabled sha256 now lease_seconds worker token db
              (next_mechanical_task locked now db)
              b)
    enabled false = Goes-all_refl db.tasks
    enabled true = selected (next_mechanical_task locked now db) refl
