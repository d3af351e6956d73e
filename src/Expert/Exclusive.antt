-- ===== src/Expert/Exclusive.antt =====
-- Which task claimResearchTask of src/domain/researcher.ts takes, and a second claim
-- after it.
use clideck_mcp.Prelude.{
  ℕ, ◌+◌, String, Bool, true, false, Option, none, some, List, [], ◌∷◌, ◌≡◌, refl, ◌⊎◌, inl, inr,
  arith, All, ◌<◌, ◌≤◌, Bool-cases, Option-cases, ==_iff,
}
use clideck_mcp.Expert.Store.{Status, TaskRow, Db, update_where, has_id, status_eq}
use clideck_mcp.Prelude.Int.{ltb_ℤ}
use clideck_mcp.Expert.Rows.{In, All-In, HasDistinctIds, In-unique, Related-HasDistinctIds}
use clideck_mcp.Expert.Researcher.{
  is_claimable, precedes, next_claimable, claim_row, Claim, claim_research_task,
}
use clideck_mcp.Expert.Claims.{is_free, next_claimable-In, IsFirst, next_claimable-IsFirst}
use clideck_mcp.Expert.Lifecycle.{RowPath, RowPath-id}
use clideck_mcp.Expert.Steps.Operations.{claim-Advances}
use clideck_mcp.Expert.Races.{update_where-In, update_where-In_other}

-- A row that a claim may take.
abbrev pub IsFree : ℕ → (TaskRow → Bool) → TaskRow → Type 0
IsFree now locked r =
    (r.status ≡ Status.queued) × (now < r.expires_at) × (r.attempts < 5) × (locked r ≡ false)

-- `s` has no higher priority than `r`, and at the same priority no earlier creation.
abbrev ComesFirst : TaskRow → TaskRow → Type 0
ComesFirst r s =
    (ltb_ℤ r.priority s.priority ≡ false)
    × (ltb_ℤ s.priority r.priority ≡ false → r.created_at ≤ s.created_at)

abbrev pub IsBest : ℕ → (TaskRow → Bool) → List TaskRow → TaskRow → Type 0
IsBest now locked rows r =
    In r rows × IsFree now locked r × All (λ s. IsFree now locked s → ComesFirst r s) rows

IsFree-is_free :
    (now : ℕ) (locked : TaskRow → Bool) (r : TaskRow)
    → IsFree now locked r
    → is_free locked now r ≡ true
IsFree-is_free now locked r (e, live, tries, open_row) =
    let queued : status_eq r.status Status.queued ≡ true = rw e refl in ground arith

is_free-IsFree :
    (now : ℕ) (locked : TaskRow → Bool) (r : TaskRow)
    → is_free locked now r ≡ true
    → IsFree now locked r
is_free-IsFree now locked r h = (ground arith, ground arith, ground arith, ground arith)

precedes-ComesFirst : (r s : TaskRow) → precedes s r ≡ false → ComesFirst r s
precedes-ComesFirst r s h = (ground arith, (λ p. ground arith))

first-ComesFirst :
    (now : ℕ) (locked : TaskRow → Bool) (r : TaskRow) (rows : List TaskRow)
    → IsFirst locked now rows (some r)
    → All (λ s. IsFree now locked s → ComesFirst r s) rows
first-ComesFirst now locked r [] h = tt
first-ComesFirst now locked r (s ∷ rows) (p, h) = (
  (λ free. precedes-ComesFirst r s (p (IsFree-is_free now locked s free))),
  first-ComesFirst now locked r rows h,
)

nobody-IsFree :
    (now : ℕ) (locked : TaskRow → Bool) (rows : List TaskRow)
    → IsFirst locked now rows none
    → All (λ s. ¬ (IsFree now locked s)) rows
nobody-IsFree now locked [] h = tt
nobody-IsFree now locked (s ∷ rows) (p, h) =
    ((λ free. let e = IsFree-is_free now locked s free in cc), nobody-IsFree now locked rows h)

-- A claim is of the task `r`, and sets its row.
abbrev pub Takes :
    (String → String) → ℕ → ℕ → String → String → TaskRow → Option Claim × Db → Db → Type 0
Takes sha256 now lease_seconds researcher token r result db =
    ((claim : Claim) × (result.0 ≡ some claim)
      × (claim.task_id ≡ r.public_id)
      × (claim.question ≡ r.question)
      × (claim.attempt ≡ r.attempts + 1)
      × (claim.lease_token ≡ token))
    × (result.1.tasks
        ≡ update_where (has_id r.id) (claim_row sha256 now lease_seconds researcher token) db.tasks)

-- claimResearchTask answers that nothing is available only if no unlocked row is claimable, and
-- then changes nothing. Otherwise it takes an unlocked claimable row (queued, unexpired, fewer than
-- five attempts) that no other unlocked claimable row precedes by priority or, at equal priority,
-- by age; it answers with that task, and sets that row alone to the researcher's lease.
pub claim_research_task-IsBest :
    (sha256 : String → String) (now lease_seconds : ℕ) (locked : TaskRow → Bool)
    (researcher token : String) (db : Db)
    → ((claim_research_task sha256 now lease_seconds locked researcher token db ≡ (none, db))
        × All (λ r. ¬ (IsFree now locked r)) db.tasks)
      ⊎ ((r : TaskRow) × IsBest now locked db.tasks r
          × Takes sha256 now lease_seconds researcher token r
              (claim_research_task sha256 now lease_seconds locked researcher token db)
              db)
unfolding claim_research_task
claim_research_task-IsBest sha256 now lease_seconds locked researcher token db =
    let first = next_claimable-IsFirst locked now db.tasks in
    elim (Option-cases (next_claimable locked now db.tasks)) [
      | inl nobody ↦ inl (rw nobody refl, nobody-IsFree now locked db.tasks (rw nobody at first))
      | inr (r, found) ↦
          let (i, free) = next_claimable-In locked now db.tasks found in
          let best : IsFirst locked now db.tasks (some r) = rw found at first in
          inr (
            r,
            (i, is_free-IsFree now locked r free, first-ComesFirst now locked r db.tasks best),
            rw found ((_, refl, refl, refl, refl, refl), refl),
          )
    ]

-- A row that is not claimable survives a claim.
pub claim-In :
    (sha256 : String → String) (now lease_seconds : ℕ) (locked : TaskRow → Bool)
    (researcher token : String) (db : Db) (r : TaskRow)
    → HasDistinctIds db.tasks
    → In r db.tasks
    → is_claimable now r ≡ false
    → In r (claim_research_task sha256 now lease_seconds locked researcher token db).1.tasks
unfolding claim_research_task
claim-In sha256 now lease_seconds locked researcher token db r d i taken =
    elim (Option-cases (next_claimable locked now db.tasks)) [
      | inl nobody ↦ rw nobody i
      | inr (s, found) ↦
          let (j, free) = next_claimable-In locked now db.tasks found in
          let other : has_id s.id r ≡ false = elim (Bool-cases (has_id s.id r)) [
            | inr miss ↦ miss
            | inl hit ↦
                let same : r ≡ s =
                  All-In (λ (x : TaskRow). x.id ≡ s.id → x ≡ s) db.tasks r i
                    (In-unique db.tasks s d j) ((==_iff r.id s.id).0 hit) in
                absurd (clash s same free)
          ] in
          rw found (update_where-In_other (has_id s.id) _ db.tasks r i other)
    ]
  where
    clash : (s : TaskRow) → r ≡ s → is_free locked now s ≡ true → ⊥
    clash s same free = let at_r = rw (← same) at free in ground arith

claim_sets :
    (sha256 : String → String) (now lease_seconds : ℕ) (locked : TaskRow → Bool)
    (researcher token : String) (db : Db) (r : TaskRow)
    → next_claimable locked now db.tasks ≡ some r
    → In
        (claim_row sha256 now lease_seconds researcher token r)
        (claim_research_task sha256 now lease_seconds locked researcher token db).1.tasks
unfolding claim_research_task
claim_sets sha256 now lease_seconds locked researcher token db r found =
    let (i, _) = next_claimable-In locked now db.tasks found in
    rw found (
      update_where-In (has_id r.id) (claim_row sha256 now lease_seconds researcher token) db.tasks r
        i ((==_iff r.id r.id).1 refl))

-- Two claims in succession never give the same task: if the first takes the row `r`, then after the
-- second, made next, at any time and by any researcher, the row is still there as the first claim
-- set it, with the first researcher's lease.
pub claim_exclusive :
    (sha256 : String → String) (now later lease_seconds : ℕ) (locked locked' : TaskRow → Bool)
    (researcher researcher' token token' : String) (db : Db) (r : TaskRow)
    → HasDistinctIds db.tasks
    → next_claimable locked now db.tasks ≡ some r
    → In
        (claim_row sha256 now lease_seconds researcher token r)
        (claim_research_task sha256 later lease_seconds locked' researcher' token'
          (claim_research_task sha256 now lease_seconds locked researcher token db).1).1.tasks
claim_exclusive sha256 now later lease_seconds locked locked' researcher researcher' token token' db
      r d found =
    claim-In sha256 later lease_seconds locked' researcher' token' _ _
      (Related-HasDistinctIds (RowPath sha256) (λ a b. RowPath-id) db.tasks _
        (claim-Advances sha256 now lease_seconds locked researcher token db d) d)
      (claim_sets sha256 now lease_seconds locked researcher token db r found) (ground arith)
