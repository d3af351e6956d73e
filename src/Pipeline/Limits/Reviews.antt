-- ===== src/Pipeline/Limits/Reviews.antt =====
-- The limit of a review batch and the retry delay of src/domain/pipeline.ts.
use clideck_mcp.Prelude.{
  ℕ, zero, suc, ◌+◌, ◌-◌, ◌*◌, ◌^◌, ◌≤◌, ◌<◌, min, true, false, ◌≡◌, refl, ◌↔◌, inl, inr, arith,
  ltb, Bool-cases,
}
use native.Mathlib.Numerals.{unary_clauses}
use clideck_mcp.Prelude.Int.{ℤ, pos, to_nat}
use clideck_mcp.Pipeline.Limits.{
  next_deep_review_batch_limit_after_clean_pass, clamped_limit, codex_circuit_cooldown_seconds,
}

-- nextDeepReviewBatchLimitAfterCleanPass gives a limit from 1 to 8 and never less than the current
-- one, brought into that range; three passes that handle as many records as their limits bring any
-- limit to 8.
clean_passes_recover :
    (limit handled : ℤ)
    → (1 ≤ next_deep_review_batch_limit_after_clean_pass limit handled)
      × (next_deep_review_batch_limit_after_clean_pass limit handled ≤ 8)
      × (clamped_limit limit ≤ next_deep_review_batch_limit_after_clean_pass limit handled)
      × (8 ≤ to_nat handled
          → next_deep_review_batch_limit_after_clean_pass
              (pos (
                next_deep_review_batch_limit_after_clean_pass
                  (pos (next_deep_review_batch_limit_after_clean_pass limit handled))
                  handled))
              handled
            ≡ 8)
unfolding next_deep_review_batch_limit_after_clean_pass
clean_passes_recover limit handled = (ground arith, ground arith, ground arith, (λ h. ground arith))

power_suc : (n : ℕ) → 2 ^ suc n ≡ 2 * 2 ^ n
power_suc n = simp unary_clauses (omega arith)

power_positive : (n : ℕ) → 1 ≤ 2 ^ n
power_positive zero = omega arith
power_positive (suc n) = let p = power_positive n in let e = power_suc n in omega arith

power_monotone : (n k : ℕ) → 2 ^ n ≤ 2 ^ (n + k)
power_monotone n zero = rw (plus_zero n) (omega arith)
  where
    plus_zero : (m : ℕ) → m + 0 ≡ m
    plus_zero m = omega arith
power_monotone n (suc k) =
    let p = power_monotone n k in let e = power_suc (n + k) in rw (plus_suc n k) (omega arith)
  where
    plus_suc : (m j : ℕ) → m + suc j ≡ suc (m + j)
    plus_suc m j = omega arith

cooldown_below : (n : ℕ) → n < 2 → codex_circuit_cooldown_seconds n ≡ 0
unfolding codex_circuit_cooldown_seconds
cooldown_below n h = let below : ltb n 2 ≡ true = ground arith in rw below refl

cooldown_after : (n k : ℕ) → n ≡ 2 + k → codex_circuit_cooldown_seconds n ≡ min 300 (30 * 2 ^ k)
unfolding codex_circuit_cooldown_seconds
cooldown_after n k e =
    let below : ltb n 2 ≡ false = ground arith in
    let rest : n - 2 ≡ k = omega arith in rw (below, rest) refl

sixteenfold : (k : ℕ) → 4 ≤ k → 16 ≤ 2 ^ k
sixteenfold k h =
    let split : 4 + (k - 4) ≡ k = omega arith in
    let p : 2 ^ 4 ≤ 2 ^ (4 + (k - 4)) = power_monotone 4 (k - 4) in rw split at p

-- codexCircuitCooldownSeconds is 0 exactly below two matching failures, never less for more
-- failures, at most 300, and 300 from six on.
cooldown_escalates :
    (failures more : ℕ)
    → (codex_circuit_cooldown_seconds failures ≤ codex_circuit_cooldown_seconds (failures + more))
      × (codex_circuit_cooldown_seconds failures ≤ 300)
      × ((codex_circuit_cooldown_seconds failures ≡ 0) ↔ (failures < 2))
      × (6 ≤ failures → codex_circuit_cooldown_seconds failures ≡ 300)
cooldown_escalates failures more = elim (Bool-cases (ltb failures 2)) [
  | inl early ↦
      let small : failures < 2 = ground arith in
      let z = cooldown_below failures small in
      (omega arith, omega arith, ((λ _. small), (λ _. z)), (λ h. omega arith))
  | inr late ↦
      let k = failures - 2 in
      let here = cooldown_after failures k (ground arith) in
      let there = cooldown_after (failures + more) (k + more) (ground arith) in
      let p = power_monotone k more in
      let q = power_positive k in
      (
        omega arith,
        omega arith,
        ((λ z. absurd (omega arith)), (λ small. absurd (ground arith))),
        (λ h. let s = sixteenfold k (omega arith) in omega arith),
      )
]
