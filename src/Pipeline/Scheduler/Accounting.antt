-- ===== src/Pipeline/Scheduler/Accounting.antt =====
-- What every loop of the scheduler keeps, for any answers of the callback.
use clideck_mcp.Prelude.{
  ℕ, zero, suc, ◌+◌, ◌≤◌, max, Bool, List, [], ◌∷◌, ◌++◌, ◌≡◌, arith, length, length-append,
  if_both,
}
use clideck_mcp.Prelude.Int.{ℤ, to_nat}
use clideck_mcp.Pipeline.Scheduler.{
  WeightedAiStage, deep_medium, deep_low, verify, analyze, Active, active_of, Lanes, queue,
  fill_stage, first_queued, drain_order, drain, seed_analyze, fill_from, start,
  fill_weighted_ai_capacity,
}

-- What one `queue` keeps, the whole allocation keeps.
module _ {S : Type 0} (queue_stage : WeightedAiStage → S → Bool × S) (concurrency : ℕ)
    (P : Lanes S → Type 0)
    (keep : (stage : WeightedAiStage) (l : Lanes S)
      → P l
      → P (queue queue_stage concurrency stage l).1) where
  fill_stage_keeps :
      (fuel : ℕ) (stage : WeightedAiStage) (l : Lanes S)
      → P l
      → P (fill_stage queue_stage concurrency fuel stage l)
  unfolding fill_stage
  fill_stage_keeps zero stage l h = h
  fill_stage_keeps (suc fuel) stage l h =
      let h' = keep stage l h in
      if_both P _ _ _ (if_both P _ _ _ (fill_stage_keeps fuel stage _ h') h') h

  first_queued_keeps :
      (stages : List WeightedAiStage) (l : Lanes S)
      → P l
      → P (first_queued queue_stage concurrency stages l).1
  unfolding first_queued
  first_queued_keeps [] l h = h
  first_queued_keeps (stage ∷ stages) l h =
      let h' = keep stage l h in
      if_both (λ (r : Bool × Lanes S). P r.1) _ _ _ h' (first_queued_keeps stages _ h')

  drain_keeps : (fuel : ℕ) (l : Lanes S) → P l → P (drain queue_stage concurrency fuel l)
  unfolding drain
  drain_keeps zero l h = h
  drain_keeps (suc fuel) l h =
      let h' = first_queued_keeps drain_order l h in
      if_both P _ _ _ (if_both P _ _ _ (drain_keeps fuel _ h') h') h

  -- From the lanes that the first `queue('analyze')` leaves.
  pub fill_from_seeded_keeps :
      (l : Lanes S)
      → P (seed_analyze queue_stage concurrency l)
      → P (fill_from queue_stage concurrency l)
  unfolding fill_from
  fill_from_seeded_keeps l h = drain_keeps concurrency _ (
      fill_stage_keeps concurrency verify _
        (fill_stage_keeps concurrency deep_low _ (fill_stage_keeps concurrency deep_medium _ h)))

  pub fill_from_keeps : (l : Lanes S) → P l → P (fill_from queue_stage concurrency l)
  unfolding seed_analyze
  fill_from_keeps l h = fill_from_seeded_keeps l (if_both P _ _ _ (keep analyze l h) h)

-- How often a stage was queued.
abbrev pub stage_matches : WeightedAiStage → WeightedAiStage → ℕ
stage_matches deep_medium deep_medium = 1
stage_matches deep_low deep_low = 1
stage_matches verify verify = 1
stage_matches analyze analyze = 1
stage_matches _ _ = 0

pub times_queued : WeightedAiStage → List WeightedAiStage → ℕ
times_queued stage [] = 0
times_queued stage (s ∷ ss) = stage_matches stage s + times_queued stage ss

times_queued-append :
    (stage : WeightedAiStage) (xs ys : List WeightedAiStage)
    → times_queued stage (xs ++ ys) ≡ times_queued stage xs + times_queued stage ys
unfolding times_queued
times_queued-append stage [] ys = omega arith
times_queued-append stage (x ∷ xs) ys = omega (arith, times_queued-append stage xs ys)

module _ {S : Type 0} (queue_stage : WeightedAiStage → S → Bool × S) (concurrency : ℤ)
    (occupied : ℤ) (active : Active) (world : S) where
  -- The lanes that became occupied are the stages that were queued, and their number never passes
  -- the concurrency.
  record IsAccounted (l : Lanes S) : Type 0 where
    total : l.occupied ≡ to_nat occupied + length l.queued
    bound : l.occupied ≤ max (to_nat occupied) (to_nat concurrency)

  queue-IsAccounted :
      (stage : WeightedAiStage) (l : Lanes S)
      → IsAccounted l
      → IsAccounted (queue queue_stage (to_nat concurrency) stage l).1
  unfolding queue
  queue-IsAccounted stage l h = ground (arith, length-append l.queued (stage ∷ []))

  queue-active :
      (s stage : WeightedAiStage) (l : Lanes S)
      → active_of l.active s ≡ active_of active s + times_queued s l.queued
      → active_of (queue queue_stage (to_nat concurrency) stage l).1.active s
        ≡ active_of active s
          + times_queued s (queue queue_stage (to_nat concurrency) stage l).1.queued
  unfolding queue times_queued
  queue-active s stage l h = ground (arith, times_queued-append s l.queued (stage ∷ []))

  -- After an allocation `occupied` is the clamped input plus one for each queued stage, it is at
  -- most the larger of the input and the concurrency, and each stage's active count has grown by
  -- the times that the stage was queued, whatever the callback answers.
  pub fill_accounts :
      ((fill_weighted_ai_capacity queue_stage concurrency occupied active world).occupied
        ≡ to_nat occupied
          + length (fill_weighted_ai_capacity queue_stage concurrency occupied active world).queued)
      × ((fill_weighted_ai_capacity queue_stage concurrency occupied active world).occupied
          ≤ max (to_nat occupied) (to_nat concurrency))
      × ((s : WeightedAiStage)
          → active_of
              (fill_weighted_ai_capacity queue_stage concurrency occupied active world).active
              s
            ≡ active_of active s
              + times_queued s
                  (fill_weighted_ai_capacity queue_stage concurrency occupied active world).queued)
  unfolding fill_weighted_ai_capacity times_queued
  fill_accounts =
      let kept =
        fill_from_keeps queue_stage (to_nat concurrency) IsAccounted queue-IsAccounted
          (start occupied active world) (omega arith) in
      (
        kept.total,
        kept.bound,
        λ s.
            fill_from_keeps queue_stage (to_nat concurrency)
              (λ l. active_of l.active s ≡ active_of active s + times_queued s l.queued)
              (queue-active s) (start occupied active world) (omega arith),
      )
