-- ===== src/Expert/Leases.antt =====
-- What a lease token is good for: the four operations of src/domain/researcher.ts that consume it.
use clideck_mcp.Prelude.{
  ℕ, ◌≤◌, String, Bool, false, none, some, List, [], ◌∷◌, ◌≡◌, refl, inl, inr, arith, All,
  Bool-cases, Option-cases,
}
use clideck_mcp.Expert.Store.{
  Status, input_required, TaskRow, Db, err, research_lease_invalid, sha256_label, holds_lease,
  update_where, first_where,
}
use clideck_mcp.Expert.Researcher.{
  with_lease, input_row, submit_row, fail_row, input_follow_up, submit_follow_up, fail_follow_up,
  heartbeat_research_task, request_research_input, submit_candidate_revision, fail_research_task,
}

-- The token is not accepted at `now`: each of the four operations throws RESEARCH_LEASE_INVALID
-- and leaves the database as it is.
abbrev pub IsSpent : (String → String) → ℕ → (public_id token : String) → Db → Type 0
IsSpent sha256 now public_id token db =
    ((lease_seconds : ℕ)
      → heartbeat_research_task sha256 now lease_seconds public_id token db
        ≡ (err research_lease_invalid, db))
    × ((question : String)
        → request_research_input sha256 now public_id token question db
          ≡ (err research_lease_invalid, db))
    × ((serialized : String)
        → submit_candidate_revision sha256 now public_id token serialized none db
          ≡ (err research_lease_invalid, db))
    × ((code message : String)
        → fail_research_task sha256 now public_id token code message db
          ≡ (err research_lease_invalid, db))

pub first_where-none :
    (test : TaskRow → Bool) (rows : List TaskRow)
    → All (λ r. test r ≡ false) rows
    → first_where test rows ≡ none
unfolding first_where
first_where-none test [] h = refl
first_where-none test (r ∷ rows) (p, h) = rw p (first_where-none test rows h)

first_where-All :
    (test : TaskRow → Bool) (rows : List TaskRow)
    → first_where test rows ≡ none
    → All (λ r. test r ≡ false) rows
unfolding first_where
first_where-All test [] e = tt
first_where-All test (r ∷ rows) e = elim (Bool-cases (test r)) [
  | inl hit ↦ absurd (clash (rw (hit, first_where) at e))
  | inr miss ↦ (miss, first_where-All test rows (rw (miss, first_where) at e))
]
  where
    clash : some r ≡ none → ⊥
    clash e = cc

module _ (sha256 : String → String) where
  unheld-IsSpent :
      (now : ℕ) (public_id token : String) (db : Db)
      → All (λ r. holds_lease public_id (sha256 token) now r ≡ false) db.tasks
      → IsSpent sha256 now public_id token db
  unfolding heartbeat_research_task request_research_input submit_candidate_revision
      fail_research_task
  unheld-IsSpent now public_id token db h =
      let e = first_where-none (holds_lease public_id (sha256 token) now) db.tasks h in
      ((λ _. rw e refl), (λ _. rw e refl), (λ _. rw e refl), (λ _ _. rw e refl))

  -- A statement that ends every lease that the token is on leaves none, then or later.
  update_where-unheld :
      (now later : ℕ) (public_id token : String) (set : TaskRow → TaskRow) (rows : List TaskRow)
      → now ≤ later
      → ((r : TaskRow) → holds_lease public_id (sha256 token) later (set r) ≡ false)
      → All
          (λ r. holds_lease public_id (sha256 token) later r ≡ false)
          (update_where (holds_lease public_id (sha256 token) now) set rows)
  unfolding update_where
  update_where-unheld now later public_id token set [] h ends = tt
  update_where-unheld now later public_id token set (r ∷ rows) h ends =
      let rest = update_where-unheld now later public_id token set rows h ends in
      elim (Bool-cases (holds_lease public_id (sha256 token) now r)) [
        | inl hit ↦ rw hit (ends r, rest)
        | inr miss ↦ rw miss (sooner r miss, rest)
      ]
    where
      sooner :
          (s : TaskRow)
          → holds_lease public_id (sha256 token) now s ≡ false
          → holds_lease public_id (sha256 token) later s ≡ false
      sooner s miss = ground arith

  with_lease-IsSpent :
      {A : Type 0} (now later : ℕ) (public_id token : String) (set : TaskRow → TaskRow)
      (reply : TaskRow → A) (after : TaskRow → Db → Db) (db : Db)
      → now ≤ later
      → ((r : TaskRow) (d : Db) → (after r d).tasks ≡ d.tasks)
      → ((r : TaskRow) → holds_lease public_id (sha256 token) later (set r) ≡ false)
      → IsSpent sha256 later public_id token
          (with_lease sha256 now public_id token set reply after db).1
  with_lease-IsSpent now later public_id token set reply after db h keeps ends =
      let held = holds_lease public_id (sha256 token) now in
      unheld-IsSpent later public_id token _ (elim (Option-cases (first_where held db.tasks)) [
        | inl none_held ↦
            rw none_held (none_later db.tasks (first_where-All held db.tasks none_held))
        | inr (r, found) ↦
            rw (found, keeps r (record db { tasks = update_where held set db.tasks }))
              (update_where-unheld now later public_id token set db.tasks h ends)
      ])
    where
      sooner :
          (s : TaskRow)
          → holds_lease public_id (sha256 token) now s ≡ false
          → holds_lease public_id (sha256 token) later s ≡ false
      sooner s miss = ground arith

      none_later :
          (rows : List TaskRow)
          → All (λ r. holds_lease public_id (sha256 token) now r ≡ false) rows
          → All (λ r. holds_lease public_id (sha256 token) later r ≡ false) rows
      none_later [] t = tt
      none_later (r ∷ rows) (p, t) = (sooner r p, none_later rows t)

-- After requestResearchInput, failResearchTask, or submitCandidateRevision with a candidate that
-- passes its schema and the checks of its URLs has been called with a lease token, whether it
-- accepted the token or threw RESEARCH_LEASE_INVALID, none of the four lease operations accepts that
-- token for that task at that time or later: each throws RESEARCH_LEASE_INVALID (a submission: of a
-- candidate that passes) and changes nothing.
pub lease_single_use :
    (sha256 : String → String) (now later : ℕ) (public_id token : String) (db : Db)
    → now ≤ later
    → ((question : String)
        → IsSpent sha256 later public_id token
            (request_research_input sha256 now public_id token question db).1)
      × ((serialized : String)
          → IsSpent sha256 later public_id token
              (submit_candidate_revision sha256 now public_id token serialized none db).1)
      × ((code message : String)
          → IsSpent sha256 later public_id token
              (fail_research_task sha256 now public_id token code message db).1)
unfolding request_research_input submit_candidate_revision fail_research_task
lease_single_use sha256 now later public_id token db h = (
  (λ question.
      with_lease-IsSpent sha256 now later public_id token (input_row sha256 now question)
        (λ _. (public_id, input_required)) (input_follow_up now question) db h (λ r d. refl)
        (λ r. ground arith)),
  (λ serialized.
      with_lease-IsSpent sha256 now later public_id token (submit_row sha256 now)
        (λ _. (public_id, Status.validating, sha256_label sha256 serialized))
        (submit_follow_up now serialized (sha256_label sha256 serialized)) db h (λ r d. refl)
        (λ r. ground arith)),
  (λ code message.
      with_lease-IsSpent sha256 now later public_id token (fail_row sha256 now code message)
        (λ _. (public_id, Status.failed)) (fail_follow_up now) db h (λ r d. refl)
        (λ r. ground arith)),
)
