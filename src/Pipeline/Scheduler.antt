-- ===== src/Pipeline/Scheduler.antt =====
-- `fillWeightedAiCapacity` of src/domain/pipeline-scheduler.ts. The callback `queueStage`, which
-- asks the database for one more task of a stage, is a parameter over a state `S` of its own; it
-- says whether it queued a task.
pub mod Accounting
pub mod Capacity
pub mod Order
mod Tests
use clideck_mcp.Prelude.{
  ℕ, zero, suc, ◌+◌, ◌-◌, Bool, true, false, ◌&&◌, List, [], ◌∷◌, ◌++◌, ltb, ◌==◌, if◌then◌else◌,
}
use clideck_mcp.Prelude.Int.{ℤ, to_nat}

-- weightedAiStages, in the order of the source.
pub data WeightedAiStage : Type 0 where
  deep_medium deep_low verify analyze : WeightedAiStage

-- The stages of the last loop, in its order.
abbrev pub drain_order : List WeightedAiStage
drain_order = analyze ∷ deep_medium ∷ deep_low ∷ verify ∷ []

-- activeByStage.
pub record Active : Type 0 where
  pub deep_medium : ℕ
  pub deep_low : ℕ
  pub verify : ℕ
  pub analyze : ℕ

abbrev pub active_of : Active → WeightedAiStage → ℕ
active_of a deep_medium = a.deep_medium
active_of a deep_low = a.deep_low
active_of a verify = a.verify
active_of a analyze = a.analyze

-- activeByStage[stage] += 1
abbrev pub bump : WeightedAiStage → Active → Active
bump deep_medium a = record a { deep_medium = a.deep_medium + 1 }
bump deep_low a = record a { deep_low = a.deep_low + 1 }
bump verify a = record a { verify = a.verify + 1 }
bump analyze a = record a { analyze = a.analyze + 1 }

-- The variables of the function, with the state that the callback works on.
pub record Lanes (S : Type 0) : Type 0 where
  pub world : S
  pub occupied : ℕ
  pub active : Active
  pub queued : List WeightedAiStage

module _ {S : Type 0} (queue_stage : WeightedAiStage → S → Bool × S) (concurrency : ℕ) where
  pub has_capacity : Lanes S → Bool
  has_capacity l = ltb l.occupied concurrency

  -- What `queue` does with the callback's answer.
  abbrev pub answered : WeightedAiStage → Bool → S → Lanes S → Bool × Lanes S
  answered stage false w l = (false, record l { world = w })
  answered stage true w l = (
    true,
    record {
      world = w;
      occupied = l.occupied + 1;
      active = bump stage l.active;
      queued = l.queued ++ stage ∷ [];
    },
  )

  pub queue : WeightedAiStage → Lanes S → Bool × Lanes S
  unfolding has_capacity
  queue stage l =
      let (yielded, w) = queue_stage stage l.world in
      if has_capacity l then answered stage yielded w l else (false, l)

  -- `while (hasCapacity() && await queue(stage)) {}`, on fuel.
  pub fill_stage : ℕ → WeightedAiStage → Lanes S → Lanes S
  fill_stage zero stage l = l
  fill_stage (suc fuel) stage l =
      let (more, l') = queue stage l in
      let rest = fill_stage fuel stage l' in
      if has_capacity l then (if more then rest else l') else l

  -- The inner `for … if (await queue(stage)) { queued = true; break }`.
  pub first_queued : List WeightedAiStage → Lanes S → Bool × Lanes S
  first_queued [] l = (false, l)
  first_queued (stage ∷ stages) l =
      let (done, l') = queue stage l in
      let rest = first_queued stages l' in if done then (true, l') else rest

  -- `while (hasCapacity()) { … if (!queued) break }`, on fuel.
  pub drain : ℕ → Lanes S → Lanes S
  drain zero l = l
  drain (suc fuel) l =
      let (more, l') = first_queued drain_order l in
      let rest = drain fuel l' in if has_capacity l then (if more then rest else l') else l

  -- `if (activeByStage.analyze === 0 && hasCapacity()) await queue('analyze')`
  pub seed_analyze : Lanes S → Lanes S
  seed_analyze l = if l.active.analyze == 0 && has_capacity l then (queue analyze l).1 else l

  -- Each round of a loop but the last occupies a lane, so the lanes are fuel enough.
  pub fill_from : Lanes S → Lanes S
  fill_from l =
      let l1 = seed_analyze l in
      let l2 = fill_stage concurrency deep_medium l1 in
      let l3 = fill_stage concurrency deep_low l2 in
      let l4 = fill_stage concurrency verify l3 in drain concurrency l4

abbrev pub start : {S : Type 0} → ℤ → Active → S → Lanes S
start occupied active world = record {
  world = world;
  occupied = to_nat occupied;
  active = active;
  queued = [];
}

pub fill_weighted_ai_capacity :
    {S : Type 0}
    → (WeightedAiStage → S → Bool × S)
    → (concurrency occupied : ℤ) → Active
    → S
    → Lanes S
fill_weighted_ai_capacity queue_stage concurrency occupied active world =
    fill_from queue_stage (to_nat concurrency) (start occupied active world)
