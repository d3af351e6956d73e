-- ===== src/Expert/Claims.antt =====
-- Which task a claim takes.
use clideck_mcp.Prelude.{
  ℕ, Bool, true, false, ◌&&◌, not, Option, none, some, List, [], ◌∷◌, ◌≡◌, refl, ◌⊎◌, inl, inr,
  arith, All, Bool-cases,
}
use mathlib.Core.Path.{subst}
use clideck_mcp.Expert.Store.{TaskRow}
use clideck_mcp.Expert.Rows.{In}
use clideck_mcp.Expert.Researcher.{is_claimable, precedes, prefer, next_claimable}

prefer_either :
    (r : TaskRow) (best : Option TaskRow) → (prefer r best ≡ r) ⊎ (best ≡ some (prefer r best))
prefer_either r none = inl refl
prefer_either r (some b) = elim (Bool-cases (precedes b r)) [
  | inl first ↦ rw first (inr refl)
  | inr later ↦ rw later (inl refl)
]

abbrev pub is_free : (TaskRow → Bool) → ℕ → TaskRow → Bool
is_free locked now r = is_claimable now r && not (locked r)

-- The chosen row is a claimable row of the table that nobody has locked.
pub next_claimable-In :
    (locked : TaskRow → Bool) (now : ℕ) (rows : List TaskRow) {r : TaskRow}
    → next_claimable locked now rows ≡ some r
    → In r rows × (is_free locked now r ≡ true)
unfolding next_claimable
next_claimable-In locked now [] e = cc
next_claimable-In locked now (s ∷ rows) {r} e = elim (Bool-cases (is_free locked now s)) [
  | inr miss ↦
      let (later, free) = next_claimable-In locked now rows (rw (miss, next_claimable) at e) in
      (inr later, free)
  | inl hit ↦
      let best = next_claimable locked now rows in
      let chosen : some (prefer s best) ≡ some r = rw (hit, next_claimable) at e in
      let same : prefer s best ≡ r = cc in
      elim (prefer_either s best) [
        | inl mine ↦ let at_head : s ≡ r = cc in (inl at_head, rw (← at_head) hit)
        | inr other ↦
            let (later, free) = next_claimable-In locked now rows (rw same at other) in
            (inr later, free)
      ]
]

-- The order of the selection: priority first, then age.
precedes_irrefl : (a : TaskRow) → precedes a a ≡ false
precedes_irrefl a = ground arith

precedes_asym : (a b : TaskRow) → precedes a b ≡ true → precedes b a ≡ false
precedes_asym a b h = ground arith

precedes_cotrans :
    (a b c : TaskRow) → precedes a b ≡ false → precedes b c ≡ false → precedes a c ≡ false
precedes_cotrans a b c p q = ground arith

-- No free row precedes the chosen one; where none is chosen, none is free.
abbrev pub IsFirst : (TaskRow → Bool) → ℕ → List TaskRow → Option TaskRow → Type 0
IsFirst locked now rows none = All (λ r. is_free locked now r ≡ false) rows
IsFirst locked now rows (some c) =
    All (λ r. is_free locked now r ≡ true → precedes r c ≡ false) rows

behind :
    (locked : TaskRow → Bool) (now : ℕ) (a b : TaskRow) (rows : List TaskRow)
    → precedes a b ≡ false
    → IsFirst locked now rows (some a)
    → IsFirst locked now rows (some b)
behind locked now a b [] h k = tt
behind locked now a b (r ∷ rows) h (p, k) =
    (λ free. precedes_cotrans r a b (p free) h, behind locked now a b rows h k)

none_free :
    (locked : TaskRow → Bool) (now : ℕ) (b : TaskRow) (rows : List TaskRow)
    → IsFirst locked now rows none
    → IsFirst locked now rows (some b)
none_free locked now b [] k = tt
none_free locked now b (r ∷ rows) (p, k) = (λ free. cc, none_free locked now b rows k)

prefer-IsFirst :
    (locked : TaskRow → Bool) (now : ℕ) (s : TaskRow) (rows : List TaskRow) (best : Option TaskRow)
    → IsFirst locked now rows best
    → IsFirst locked now (s ∷ rows) (some (prefer s best))
prefer-IsFirst locked now s rows none k = (λ _. precedes_irrefl s, none_free locked now s rows k)
prefer-IsFirst locked now s rows (some b) k = elim (Bool-cases (precedes b s)) [
  | inl first ↦
      let e : b ≡ prefer s (some b) = rw first refl in
      subst (λ c. IsFirst locked now (s ∷ rows) (some c)) e ((λ _. precedes_asym b s first), k)
  | inr later ↦
      let e : s ≡ prefer s (some b) = rw later refl in
      subst (λ c. IsFirst locked now (s ∷ rows) (some c)) e
        ((λ _. precedes_irrefl s), behind locked now b s rows later k)
]

pub next_claimable-IsFirst :
    (locked : TaskRow → Bool) (now : ℕ) (rows : List TaskRow)
    → IsFirst locked now rows (next_claimable locked now rows)
unfolding next_claimable
next_claimable-IsFirst locked now [] = tt
next_claimable-IsFirst locked now (s ∷ rows) =
    let k = next_claimable-IsFirst locked now rows in
    elim (Bool-cases (is_free locked now s)) [
      | inl hit ↦ rw hit (prefer-IsFirst locked now s rows (next_claimable locked now rows) k)
      | inr miss ↦ rw miss (add_busy s rows (next_claimable locked now rows) miss k)
    ]
  where
    add_busy :
        (r : TaskRow) (rs : List TaskRow) (best : Option TaskRow)
        → is_free locked now r ≡ false
        → IsFirst locked now rs best
        → IsFirst locked now (r ∷ rs) best
    add_busy r rs none busy h = (busy, h)
    add_busy r rs (some b) busy h = ((λ free. cc), h)
