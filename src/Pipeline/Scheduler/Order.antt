-- ===== src/Pipeline/Scheduler/Order.antt =====
-- The order in which fillWeightedAiCapacity of src/domain/pipeline-scheduler.ts asks the stages.
use clideck_mcp.Prelude.{ℕ, ◌<◌, Bool, true, List, [], ◌∷◌, ◌++◌, ◌≡◌, arith, if◌then◌else◌}
use mathlib.Core.List.{append-nil}
use clideck_mcp.Prelude.Int.{ℤ, to_nat}
use clideck_mcp.Pipeline.Scheduler.{
  WeightedAiStage, analyze, Active, Lanes, has_capacity, queue, seed_analyze, start,
  fill_weighted_ai_capacity,
}
use clideck_mcp.Pipeline.Scheduler.Accounting.{fill_from_seeded_keeps}

abbrev pub StartsWith : WeightedAiStage → List WeightedAiStage → Type 0
StartsWith stage queued = (rest : List WeightedAiStage) × (queued ≡ stage ∷ rest)

module _ {S : Type 0} (queue_stage : WeightedAiStage → S → Bool × S) where
  StartsWith-append :
      (stage : WeightedAiStage) (xs ys : List WeightedAiStage)
      → StartsWith stage xs
      → StartsWith stage (xs ++ ys)
  StartsWith-append stage xs ys (rest, e) = (rest ++ ys, rw e)

  queue-queued :
      (concurrency : ℕ) (stage : WeightedAiStage) (l : Lanes S)
      → (queue queue_stage concurrency stage l).1.queued
        ≡ l.queued ++ (if (queue queue_stage concurrency stage l).0 then stage ∷ [] else [])
  unfolding queue
  queue-queued concurrency stage l = ground (arith, append-nil l.queued)

  queue-StartsWith :
      (concurrency : ℕ) (first stage : WeightedAiStage) (l : Lanes S)
      → StartsWith first l.queued
      → StartsWith first (queue queue_stage concurrency stage l).1.queued
  queue-StartsWith concurrency first stage l h =
      rw (queue-queued concurrency stage l) (StartsWith-append first l.queued _ h)

  seed-StartsWith :
      (concurrency : ℕ) (l : Lanes S)
      → l.active.analyze ≡ 0
      → l.occupied < concurrency
      → (queue_stage analyze l.world).0 ≡ true
      → (seed_analyze queue_stage concurrency l).queued ≡ l.queued ++ analyze ∷ []
  unfolding seed_analyze queue has_capacity
  seed-StartsWith concurrency l idle room work = ground arith

-- If no extraction is active, a lane is free and the callback has extraction work, then the first
-- stage that is queued is `analyze`, whatever work the audit stages have.
fill_extraction_first :
    {S : Type 0} (queue_stage : WeightedAiStage → S → Bool × S) (concurrency occupied : ℤ)
    (active : Active) (world : S)
    → active.analyze ≡ 0
    → to_nat occupied < to_nat concurrency
    → (queue_stage analyze world).0 ≡ true
    → StartsWith analyze
        (fill_weighted_ai_capacity queue_stage concurrency occupied active world).queued
unfolding fill_weighted_ai_capacity
fill_extraction_first {S} queue_stage concurrency occupied active world idle room work =
    fill_from_seeded_keeps queue_stage (to_nat concurrency)
      (λ (l : Lanes S). StartsWith analyze l.queued)
      (λ stage l. queue-StartsWith queue_stage (to_nat concurrency) analyze stage l)
      (start occupied active world)
      (
        [],
        seed-StartsWith queue_stage (to_nat concurrency) (start occupied active world) idle room
            work,
      )
