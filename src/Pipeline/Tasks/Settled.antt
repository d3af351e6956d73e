-- ===== src/Pipeline/Tasks/Settled.antt =====
-- What failPipelineTask and completeMechanicalPipelineTask of src/domain/pipeline.ts do with a
-- lease.
use clideck_mcp.Prelude.{
  ℕ, ◌+◌, ◌≤◌, ◌<◌, String, Bool, true, false, none, some, List, [], ◌∷◌, ◌≡◌, ◌⊎◌, refl, inl, inr,
  arith, All, includes, ltb, Bool-cases, Option-cases,
}
use clideck_mcp.Prelude.Table.{update_rows, In, update_rows-All}
use clideck_mcp.Pipeline.Tasks.Tables.{TaskStatus, PipelineTask, Store}
use clideck_mcp.Pipeline.Tasks.Columns.{is_running, is_ai_task_type}
use clideck_mcp.Pipeline.Tasks.Queue.{
  holds_pipeline_lease, find_pipeline_lease, has_task_id, complete_row, complete_task, record_event,
}
use clideck_mcp.Pipeline.Tasks.Lease.{
  Outcome, ok, err, pipeline_lease_invalid, pipeline_task_type_invalid, complete_mechanical,
}
use clideck_mcp.Pipeline.Tasks.Fail.{
  terminal_failure_codes, is_scoped_platform_failure, is_retrying, fail_row,
}
use clideck_mcp.Pipeline.Tasks.FailTask.{fail_task, fail_pipeline_task}
use clideck_mcp.Pipeline.Tasks.Steps.{found_lease, lost_lease}
use clideck_mcp.Pipeline.Tasks.Writes.{fail_task-tasks}

-- The row `t` has a lease that the token holds at this time.
abbrev pub HasLease : (String → String) → ℕ → ℕ → String → PipelineTask → Type 0
HasLease sha256 now id token t = holds_pipeline_lease id (sha256 token) now t ≡ true

-- A failed task is tried again: it waits in the queue, without a lease, between two seconds and a
-- minute.
abbrev pub IsRetried : ℕ → PipelineTask → PipelineTask → Type 0
IsRetried now t s =
    (s.status ≡ TaskStatus.queued)
    × (s.lease_token_hash ≡ none)
    × (s.attempts ≡ t.attempts)
    × (now + 2 ≤ s.available_at)
    × (s.available_at ≤ now + 60)

-- Or it is over.
abbrev pub IsGivenUp : ℕ → String → PipelineTask → Type 0
IsGivenUp now code s =
    (s.status ≡ TaskStatus.failed)
    × (s.lease_token_hash ≡ none)
    × (s.failure_code ≡ some code)
    × (s.completed_at ≡ some now)

-- The task `t` is retried unless the code is terminal, or five attempts are spent and the failure
-- is not one of the platform.
abbrev pub MayRetry : PipelineTask → String → String → Type 0
MayRetry t code message =
    (includes terminal_failure_codes code ≡ false)
    × ((t.attempts < 5) ⊎ (is_scoped_platform_failure t code message ≡ true))

retrying-MayRetry :
    (t : PipelineTask) (code message : String)
    → is_retrying t code message ≡ true
    → MayRetry t code message
unfolding is_retrying
retrying-MayRetry t code message h = (ground arith, few (Bool-cases (ltb t.attempts 5)))
  where
    few :
        (ltb t.attempts 5 ≡ true) ⊎ (ltb t.attempts 5 ≡ false)
        → (t.attempts < 5) ⊎ (is_scoped_platform_failure t code message ≡ true)
    few (inl p) = inl (ground arith)
    few (inr p) = inr (ground arith)

not_retrying :
    (t : PipelineTask) (code message : String)
    → is_retrying t code message ≡ false
    → ¬ (MayRetry t code message)
unfolding is_retrying
not_retrying t code message h (p, inl few) = absurd (ground arith)
not_retrying t code message h (p, inr scoped) = absurd (ground arith)

fail_row-IsRetried :
    (now : ℕ) (code message : String) (t : PipelineTask)
    → IsRetried now t (fail_row now code message true t)
unfolding fail_row
fail_row-IsRetried now code message t = (refl, refl, refl, grind arith, omega arith)

fail_row-IsGivenUp :
    (now : ℕ) (code message : String) (t : PipelineTask)
    → IsGivenUp now code (fail_row now code message false t)
unfolding fail_row
fail_row-IsGivenUp now code message t = (refl, refl, refl, refl)

-- What failPipelineTask makes of the task `t`: the answer, and the row `s` that alone takes the
-- place of `t`.
abbrev pub Settles : ℕ → String → String → PipelineTask → PipelineTask → Bool → Type 0
Settles now code message t s true = MayRetry t code message × IsRetried now t s
Settles now code message t s false = (¬ (MayRetry t code message)) × IsGivenUp now code s

settle :
    (now : ℕ) (code message : String) (t : PipelineTask) (b : Bool)
    → is_retrying t code message ≡ b
    → Settles now code message t (fail_row now code message b t) b
settle now code message t true e =
    (retrying-MayRetry t code message e, fail_row-IsRetried now code message t)
settle now code message t false e =
    (not_retrying t code message e, fail_row-IsGivenUp now code message t)

-- failPipelineTask throws PIPELINE_LEASE_INVALID exactly when no row has that id with a live lease
-- of that token. Otherwise one has, and its row alone is set: it waits in the queue again, for two
-- to sixty seconds and without a lease, if the code is not terminal and either fewer than five
-- attempts were made or the failure is one of the platform in a medium deep review; else it is
-- failed with the code. The answer says which.
pub fail_pipeline_task-Settles :
    (sha256 : String → String) (now id : ℕ) (token code message : String) (db : Store)
    → ((fail_pipeline_task sha256 now id token code message db ≡ err pipeline_lease_invalid)
        × All (λ t. ¬ (HasLease sha256 now id token t)) db.tasks)
      ⊎ ((t : PipelineTask) × (b : Bool) × (d : Store) × (set : PipelineTask → PipelineTask) × In t
            db.tasks
          × HasLease sha256 now id token t
          × (fail_pipeline_task sha256 now id token code message db ≡ ok (b, d))
          × (d.tasks ≡ update_rows (has_task_id t.id) set db.tasks)
          × Settles now code message t (set t) b)
unfolding fail_pipeline_task
fail_pipeline_task-Settles sha256 now id token code message db =
    elim (Option-cases (find_pipeline_lease sha256 now (λ _. false) id token db)) [
      | inl lost ↦ inl (rw lost refl, lost_lease sha256 now id token db lost)
      | inr (t, found) ↦
          let (i, h) = found_lease sha256 now (λ _. false) id token db found in
          let b = is_retrying t code message in
          inr (
            t,
            b,
            fail_task now code message b t db,
            fail_row now code message b,
            i,
            h,
            rw found refl,
            fail_task-tasks now code message b t db,
            settle now code message t b refl,
          )
    ]

ended : {a b : Store} → ok a ≡ ok b → a ≡ b
ended e = cc

-- The rows after the one that had the lease was set.
no_lease_after :
    (sha256 : String → String) (later id : ℕ) (token : String) (set : PipelineTask → PipelineTask)
    (t : PipelineTask) (rows : List PipelineTask)
    → t.id ≡ id
    → ((r : PipelineTask) → is_running (set r).status ≡ false)
    → All (λ r. ¬ (HasLease sha256 later id token r)) (update_rows (has_task_id t.id) set rows)
no_lease_after sha256 later id token set t rows e out =
    update_rows-All (λ r. ¬ (HasLease sha256 later id token r)) (has_task_id t.id) set rows
      (each rows)
  where
    each :
        (rs : List PipelineTask)
        → All
            (λ r.
              (has_task_id t.id r ≡ true → ¬ (HasLease sha256 later id token (set r)))
              × (has_task_id t.id r ≡ false → ¬ (HasLease sha256 later id token r)))
            rs
    each [] = tt
    each (r ∷ rs) =
        (((λ hit held. let stopped = out r in ground arith), (λ miss held. ground arith)), each rs)

fail_row-stopped :
    (now : ℕ) (code message : String) (b : Bool) (r : PipelineTask)
    → is_running (fail_row now code message b r).status ≡ false
unfolding fail_row
fail_row-stopped now code message true r = refl
fail_row-stopped now code message false r = refl

complete_row-stopped :
    (now : ℕ) (result : String) (r : PipelineTask)
    → is_running (complete_row now result r).status ≡ false
unfolding complete_row
complete_row-stopped now result r = refl

holds-id :
    (sha256 : String → String) (now id : ℕ) (token : String) (t : PipelineTask)
    → HasLease sha256 now id token t
    → t.id ≡ id
holds-id sha256 now id token t h = ground arith

-- The two ways in which the holder of a mechanical lease ends it.
pub data Ending : Type 0 where
  fails : (code message : String) → Ending
  completes : (result : String) → Ending

abbrev drop_answer : Outcome (Bool × Store) → Outcome Store
drop_answer (ok (b, d)) = ok d
drop_answer (err e) = err e

abbrev pub end_lease : (String → String) → ℕ → ℕ → String → Ending → Store → Outcome Store
end_lease sha256 now id token (fails code message) db =
    drop_answer (fail_pipeline_task sha256 now id token code message db)
end_lease sha256 now id token (completes result) db =
    complete_mechanical sha256 now id token result db

-- Once failPipelineTask or completeMechanicalPipelineTask has accepted a lease token, no row of
-- that id is held by the token at any time, so neither of them, nor a heartbeat, finds it again.
pub lease_ends :
    (sha256 : String → String) (now later id : ℕ) (token : String) (way : Ending) (db d : Store)
    → end_lease sha256 now id token way db ≡ ok d
    → All (λ t. ¬ (HasLease sha256 later id token t)) d.tasks
unfolding fail_pipeline_task complete_mechanical complete_task record_event
lease_ends sha256 now later id token (fails code message) db d done =
    elim (Option-cases (find_pipeline_lease sha256 now (λ _. false) id token db)) [
      | inl lost ↦ absurd (let no_lease : err pipeline_lease_invalid ≡ ok d = rw lost at done in cc)
      | inr (t, found) ↦
          let (i, h) = found_lease sha256 now (λ _. false) id token db found in
          let b = is_retrying t code message in
          let same : fail_task now code message b t db ≡ d = ended (rw found at done) in
          rw (← same) (
            rw (fail_task-tasks now code message b t db) (
              no_lease_after sha256 later id token (fail_row now code message b) t db.tasks
                (holds-id sha256 now id token t h) (fail_row-stopped now code message b)))
    ]
lease_ends sha256 now later id token (completes result) db d done =
    elim (Option-cases (find_pipeline_lease sha256 now (λ _. false) id token db)) [
      | inl lost ↦ absurd (let no_lease : err pipeline_lease_invalid ≡ ok d = rw lost at done in cc)
      | inr (t, found) ↦
          let (i, h) = found_lease sha256 now (λ _. false) id token db found in
          elim (Bool-cases (is_ai_task_type t.task_type)) [
            | inl other ↦ absurd (
                let wrong : err pipeline_task_type_invalid ≡ ok d = rw (found, other) at done in cc)
            | inr mine ↦
                let same : complete_task now t result db ≡ d = ended (rw (found, mine) at done) in
                rw (← same) (
                  no_lease_after sha256 later id token (complete_row now result) t db.tasks
                    (holds-id sha256 now id token t h) (complete_row-stopped now result))
          ]
    ]
