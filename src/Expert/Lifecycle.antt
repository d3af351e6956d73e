-- ===== src/Expert/Lifecycle.antt =====
-- The life of one row of `expert_tasks`: the ways in which the operations of src/domain/tasks.ts,
-- researcher.ts and publication.ts and the task queue of src/domain/pipeline.ts change it.
use clideck_mcp.Prelude.{
  ℕ, ◌≤◌, ◌<◌, String, Bool, true, false, ◌||◌, Option, none, some, ◌≡◌, refl, ap, ◌∙◌, arith,
}
use clideck_mcp.Expert.Store.{Status, input_required, TaskRow, is_terminal, is_leased, status_eq}
use clideck_mcp.Expert.Researcher.{
  is_claimable, claim_row, heartbeat_row, input_row, submit_row, fail_row,
}
use clideck_mcp.Expert.Client.{continue_row, cancel_row}
use clideck_mcp.Expert.Worker.{
  Publication, reserve_row, completed_row, rejected_row, expire_row, recover_row, requeue_row,
}
use clideck_mcp.Pipeline.Tasks.Claim.{lease_expert}
use clideck_mcp.Pipeline.Tasks.Recover.{return_expert}
use clideck_mcp.Pipeline.Tasks.Lease.{pause_expert, renew_expert}
use clideck_mcp.Pipeline.Tasks.Fail.{fail_expert}

-- One change of a row, with the state in which it is made.
pub data RowStep (sha256 : String → String) : TaskRow → TaskRow → Type 0 where
  claims :
      (now lease_seconds : ℕ) (researcher token : String) (r : TaskRow)
      → is_claimable now r ≡ true
      → RowStep sha256 r (claim_row sha256 now lease_seconds researcher token r)
  beats :
      (now lease_seconds : ℕ) (r : TaskRow)
      → is_leased r.status ≡ true
      → RowStep sha256 r (heartbeat_row sha256 now lease_seconds r)
  asks :
      (now : ℕ) (question : String) (r : TaskRow)
      → is_leased r.status ≡ true
      → RowStep sha256 r (input_row sha256 now question r)
  submits :
      (now : ℕ) (r : TaskRow)
      → is_leased r.status ≡ true
      → RowStep sha256 r (submit_row sha256 now r)
  fails :
      (now : ℕ) (code message : String) (r : TaskRow)
      → is_leased r.status ≡ true
      → RowStep sha256 r (fail_row sha256 now code message r)
  continues :
      (now : ℕ) (r : TaskRow)
      → status_eq r.status input_required ≡ true
      → RowStep sha256 r (continue_row sha256 now r)
  cancels :
      (now : ℕ) (r : TaskRow)
      → is_terminal r.status ≡ false
      → RowStep sha256 r (cancel_row sha256 now r)
  reserves :
      (now : ℕ) (r : TaskRow)
      → status_eq r.status Status.validating ≡ true
      → RowStep sha256 r (reserve_row now r)
  completes :
      (now : ℕ) (p : Publication) (r : TaskRow)
      → status_eq r.status Status.publishing ≡ true
      → RowStep sha256 r (completed_row now p r)
  rejects :
      (now : ℕ) (r : TaskRow)
      → status_eq r.status Status.publishing ≡ true
      → RowStep sha256 r (rejected_row now r)
  expires :
      (now : ℕ) (r : TaskRow) → is_terminal r.status ≡ false → RowStep sha256 r (expire_row now r)
  recovers :
      (now : ℕ) (r : TaskRow) → is_leased r.status ≡ true → RowStep sha256 r (recover_row now r)
  requeues :
      (now : ℕ) (r : TaskRow)
      → status_eq r.status Status.publishing ≡ true
      → RowStep sha256 r (requeue_row now r)
  queue_claims :
      (now lease_until : ℕ) (owner hash : String) (r : TaskRow)
      → status_eq r.status Status.queued ≡ true
      → r.attempts < 10
      → RowStep sha256 r (lease_expert now lease_until owner hash r)
  queue_returns :
      (now : ℕ) (exhausted : Bool) (r : TaskRow)
      → is_leased r.status ≡ true
      → RowStep sha256 r (return_expert now exhausted r)
  queue_pauses :
      (now : ℕ) (r : TaskRow) → is_leased r.status ≡ true → RowStep sha256 r (pause_expert now r)
  queue_renews :
      (now lease_until : ℕ) (r : TaskRow)
      → is_leased r.status ≡ true
      → RowStep sha256 r (renew_expert now lease_until r)
  queue_fails :
      (now : ℕ) (code message : String) (retrying : Bool) (r : TaskRow)
      → is_leased r.status ≡ true
      → RowStep sha256 r (fail_expert now code message retrying r)

pub data RowPath (sha256 : String → String) (r : TaskRow) : TaskRow → Type 0 where
  stays : RowPath sha256 r r
  goes : {s t : TaskRow} → RowPath sha256 r s → RowStep sha256 s t → RowPath sha256 r t

abbrev pub given {ℓ} : {A : Type ℓ} → Option A → Bool
given none = false
given (some a) = true

-- The columns of a row agree with its status: a lease token is held exactly while the task is
-- leased, a lease runs exactly while it is leased or being published, the completion time is set
-- exactly in a terminal status, a result exactly in `completed`, and at most ten attempts are counted.
pub record IsSound (r : TaskRow) : Type 0 where
  pub token : given r.lease_token_hash ≡ is_leased r.status
  pub lease : given r.lease_until ≡ (is_leased r.status || status_eq r.status Status.publishing)
  pub closed : given r.completed_at ≡ is_terminal r.status
  pub result : given r.result_revision_id ≡ status_eq r.status Status.completed
  pub attempts : r.attempts ≤ 10

module _ {sha256 : String → String} where
  pub RowStep-IsSound : {r s : TaskRow} → RowStep sha256 r s → IsSound r → IsSound s
  RowStep-IsSound (claims now lease_seconds researcher token r h) v = ground arith
  RowStep-IsSound (beats now lease_seconds r h) v = ground arith
  RowStep-IsSound (asks now question r h) v = ground arith
  RowStep-IsSound (submits now r h) v = ground arith
  RowStep-IsSound (fails now code message r h) v = ground arith
  RowStep-IsSound (continues now r h) v = ground arith
  RowStep-IsSound (cancels now r h) v = ground arith
  RowStep-IsSound (reserves now r h) v = ground arith
  RowStep-IsSound (completes now p r h) v = ground arith
  RowStep-IsSound (rejects now r h) v = ground arith
  RowStep-IsSound (expires now r h) v = ground arith
  RowStep-IsSound (recovers now r h) v = ground arith
  RowStep-IsSound (requeues now r h) v = ground arith
  RowStep-IsSound (queue_claims now lease_until owner hash r h n) v = ground arith
  RowStep-IsSound (queue_returns now true r h) v = ground arith
  RowStep-IsSound (queue_returns now false r h) v = ground arith
  RowStep-IsSound (queue_pauses now r h) v = ground arith
  RowStep-IsSound (queue_renews now lease_until r h) v = ground arith
  RowStep-IsSound (queue_fails now code message true r h) v = ground arith
  RowStep-IsSound (queue_fails now code message false r h) v = ground arith

  pub RowPath-IsSound : {r s : TaskRow} → RowPath sha256 r s → IsSound r → IsSound s
  RowPath-IsSound stays v = v
  RowPath-IsSound (goes p st) v = RowStep-IsSound st (RowPath-IsSound p v)

  RowStep-open : {r s : TaskRow} → RowStep sha256 r s → is_terminal r.status ≡ false
  RowStep-open (claims now lease_seconds researcher token r h) = ground arith
  RowStep-open (beats now lease_seconds r h) = ground arith
  RowStep-open (asks now question r h) = ground arith
  RowStep-open (submits now r h) = ground arith
  RowStep-open (fails now code message r h) = ground arith
  RowStep-open (continues now r h) = ground arith
  RowStep-open (cancels now r h) = h
  RowStep-open (reserves now r h) = ground arith
  RowStep-open (completes now p r h) = ground arith
  RowStep-open (rejects now r h) = ground arith
  RowStep-open (expires now r h) = h
  RowStep-open (recovers now r h) = ground arith
  RowStep-open (requeues now r h) = ground arith
  RowStep-open (queue_claims now lease_until owner hash r h n) = ground arith
  RowStep-open (queue_returns now exhausted r h) = ground arith
  RowStep-open (queue_pauses now r h) = ground arith
  RowStep-open (queue_renews now lease_until r h) = ground arith
  RowStep-open (queue_fails now code message retrying r h) = ground arith

  RowStep-id : {r s : TaskRow} → RowStep sha256 r s → s.id ≡ r.id
  RowStep-id (recovers now r h) = ground arith
  RowStep-id (claims now lease_seconds researcher token r h) = refl
  RowStep-id (beats now lease_seconds r h) = refl
  RowStep-id (asks now question r h) = refl
  RowStep-id (submits now r h) = refl
  RowStep-id (fails now code message r h) = refl
  RowStep-id (continues now r h) = refl
  RowStep-id (cancels now r h) = refl
  RowStep-id (reserves now r h) = refl
  RowStep-id (completes now p r h) = refl
  RowStep-id (rejects now r h) = refl
  RowStep-id (expires now r h) = refl
  RowStep-id (requeues now r h) = refl
  RowStep-id (queue_claims now lease_until owner hash r h n) = refl
  RowStep-id (queue_returns now exhausted r h) = refl
  RowStep-id (queue_pauses now r h) = refl
  RowStep-id (queue_renews now lease_until r h) = refl
  RowStep-id (queue_fails now code message retrying r h) = refl

  pub RowPath-id : {r s : TaskRow} → RowPath sha256 r s → s.id ≡ r.id
  RowPath-id stays = refl
  RowPath-id (goes p st) = RowStep-id st ∙ RowPath-id p

  -- A row in a terminal status changes no more, in none of its columns.
  pub RowPath-terminal : {r s : TaskRow} → RowPath sha256 r s → is_terminal r.status ≡ true → s ≡ r
  RowPath-terminal stays h = refl
  RowPath-terminal (goes p st) h =
      let same = RowPath-terminal p h in absurd (terminal_step (RowStep-open st) same h)
    where
      terminal_step :
          {r t : TaskRow} → is_terminal t.status ≡ false → t ≡ r → is_terminal r.status ≡ true → ⊥
      terminal_step unfinished same h =
          cc (unfinished, ap (λ (x : TaskRow). is_terminal x.status) same)

  pub RowPath-trans :
      {r s t : TaskRow} → RowPath sha256 r s → RowPath sha256 s t → RowPath sha256 r t
  RowPath-trans p stays = p
  RowPath-trans p (goes q st) = goes (RowPath-trans p q) st
