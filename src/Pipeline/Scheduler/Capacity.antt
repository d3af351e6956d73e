-- ===== src/Pipeline/Scheduler/Capacity.antt =====
-- How the loops of fillWeightedAiCapacity, src/domain/pipeline-scheduler.ts, end.
use clideck_mcp.Prelude.{
  ℕ, zero, suc, ◌+◌, ◌-◌, ◌≤◌, ◌<◌, min, Bool, false, List, [], ◌∷◌, ◌≡◌, refl, inl, inr, arith,
  length, Bool-cases, ltb, if◌then◌else◌,
}
use native.Mathlib.Decide.{dec_lt}
use clideck_mcp.Prelude.Int.{ℤ, to_nat}
use clideck_mcp.Pipeline.Scheduler.{
  WeightedAiStage, deep_medium, deep_low, verify, analyze, Active, Lanes, has_capacity, queue,
  first_queued, drain_order, drain, fill_from, start, fill_weighted_ai_capacity,
}
use clideck_mcp.Pipeline.Scheduler.Accounting.{stage_matches, fill_from_keeps, fill_accounts}

module _ {S : Type 0} (queue_stage : WeightedAiStage → S → Bool × S) where
  -- Asked one after the other from the state `w`, the stages all refuse, and leave `w'`.
  abbrev pub Refusals : List WeightedAiStage → S → S → Type 0
  Refusals [] w w' = w ≡ w'
  Refusals (stage ∷ stages) w w' =
      ((queue_stage stage w).0 ≡ false) × Refusals stages (queue_stage stage w).1 w'

  module _ (concurrency : ℕ) where
    queue-occupied :
        (stage : WeightedAiStage) (l : Lanes S)
        → (queue queue_stage concurrency stage l).1.occupied
          ≡ (if (queue queue_stage concurrency stage l).0 then l.occupied + 1 else l.occupied)
    unfolding queue
    queue-occupied stage l = ground arith

    first_queued-occupied :
        (stages : List WeightedAiStage) (l : Lanes S)
        → (first_queued queue_stage concurrency stages l).1.occupied ≡ (
            if (first_queued queue_stage concurrency stages l).0
            then l.occupied + 1
            else l.occupied)
    unfolding first_queued
    first_queued-occupied [] l = refl
    first_queued-occupied (stage ∷ stages) l = ground (
      arith,
      queue-occupied stage l,
      first_queued-occupied stages (queue queue_stage concurrency stage l).1,
    )

    queue-refusal :
        (stage : WeightedAiStage) (l : Lanes S)
        → l.occupied < concurrency
        → (queue queue_stage concurrency stage l).0 ≡ false
        → ((queue_stage stage l.world).0 ≡ false)
          × ((queue queue_stage concurrency stage l).1.world ≡ (queue_stage stage l.world).1)
          × ((queue queue_stage concurrency stage l).1.occupied ≡ l.occupied)
    unfolding queue has_capacity
    queue-refusal stage l h e = ground arith

    first_queued-Refusals :
        (stages : List WeightedAiStage) (l : Lanes S)
        → l.occupied < concurrency
        → (first_queued queue_stage concurrency stages l).0 ≡ false
        → Refusals stages l.world (first_queued queue_stage concurrency stages l).1.world
    unfolding first_queued
    first_queued-Refusals [] l h e = refl
    first_queued-Refusals (stage ∷ stages) l h e =
        elim (Bool-cases (queue queue_stage concurrency stage l).0) [
          | inl took ↦ absurd (ground arith)
          | inr refused ↦
              let (no_work, same_world, same_lanes) = queue-refusal stage l h refused in
              rw refused (
                no_work,
                rw (← same_world) (
                    first_queued-Refusals stages (queue queue_stage concurrency stage l).1
                      (omega arith) (ground arith)),
              )
        ]

    -- The lanes are fuel enough for the last loop: it ends with every lane busy or in refusals.
    drain_exit :
        (fuel : ℕ) (l : Lanes S)
        → concurrency ≤ fuel + l.occupied
        → (drain queue_stage concurrency fuel l).occupied < concurrency
        → (w : S) × Refusals drain_order w (drain queue_stage concurrency fuel l).world
    unfolding drain has_capacity
    drain_exit zero l enough idle = absurd (omega arith)
    drain_exit (suc fuel) l enough idle = elim (Bool-cases (ltb l.occupied concurrency)) [
      | inr full ↦ absurd (ground arith)
      | inl room ↦ elim (Bool-cases (first_queued queue_stage concurrency drain_order l).0) [
        | inl took ↦
            rw (room, took)
              (drain_exit fuel (first_queued queue_stage concurrency drain_order l).1
                (ground (arith, first_queued-occupied drain_order l)) (rw (room, took) at idle))
        | inr refused ↦
            rw (room, refused) (l.world, first_queued-Refusals drain_order l (ground arith) refused)
      ]
    ]

-- If a lane is still free after an allocation, then there was a state of the queues from which
-- `analyze`, `deep_medium`, `deep_low` and `verify`, asked in this order, all refused, and which
-- these four questions took to the final one: no lane is left idle while a stage has work.
fill_work_conserving :
    {S : Type 0} (queue_stage : WeightedAiStage → S → Bool × S) (concurrency occupied : ℤ)
    (active : Active) (world : S)
    → (fill_weighted_ai_capacity queue_stage concurrency occupied active world).occupied
      < to_nat concurrency
    → (w : S) × Refusals queue_stage drain_order w
        (fill_weighted_ai_capacity queue_stage concurrency occupied active world).world
unfolding fill_weighted_ai_capacity fill_from
fill_work_conserving queue_stage concurrency occupied active world idle =
    drain_exit queue_stage (to_nat concurrency) (to_nat concurrency) _ (omega arith) idle

-- A callback over queues of known sizes: it queues a task of a stage exactly if one is waiting,
-- and takes it from that stage's queue alone.
pub record IsBacklog {S : Type 0} (queue_stage : WeightedAiStage → S → Bool × S)
    (size : WeightedAiStage → S → ℕ) : Type 0 where
  pub yields : (stage : WeightedAiStage) (w : S) → (queue_stage stage w).0 ≡ ltb 0 (size stage w)
  pub takes :
      (stage s : WeightedAiStage) (w : S)
      → size s (queue_stage stage w).1 ≡ size s w - stage_matches s stage

abbrev pub waiting : {S : Type 0} → (WeightedAiStage → S → ℕ) → S → ℕ
waiting size w = size deep_medium w + size deep_low w + size verify w + size analyze w

module _ {S : Type 0} (queue_stage : WeightedAiStage → S → Bool × S)
    (size : WeightedAiStage → S → ℕ) (law : IsBacklog queue_stage size) where
  -- One question moves each size as the law says.
  takes_all :
      (stage : WeightedAiStage) (w : S)
      → waiting size (queue_stage stage w).1 + (if (queue_stage stage w).0 then 1 else 0)
        ≡ waiting size w
  takes_all deep_medium w = ground (
    arith,
    law.yields deep_medium w,
    law.takes deep_medium deep_medium w,
    law.takes deep_medium deep_low w,
    law.takes deep_medium verify w,
    law.takes deep_medium analyze w,
  )
  takes_all stage w = ground (
    arith,
    law.yields stage w,
    law.takes stage deep_medium w,
    law.takes stage deep_low w,
    law.takes stage verify w,
    law.takes stage analyze w,
  )

  -- A lane that becomes occupied is a task that waits no longer.
  queue-waiting :
      (concurrency total : ℕ) (stage : WeightedAiStage) (l : Lanes S)
      → l.occupied + waiting size l.world ≡ total
      → (queue queue_stage concurrency stage l).1.occupied
          + waiting size (queue queue_stage concurrency stage l).1.world
        ≡ total
  unfolding queue has_capacity
  queue-waiting concurrency total stage l h = ground (arith, takes_all stage l.world)

  -- A refusing stage has no task, and the later questions leave it so.
  refusal_keeps :
      (stage : WeightedAiStage) (w : S)
      → (queue_stage stage w).0 ≡ false
      → (size stage w ≡ 0) × ((s : WeightedAiStage) → size s (queue_stage stage w).1 ≤ size s w)
  refusal_keeps stage w e =
      (ground (arith, law.yields stage w), λ s. omega (arith, law.takes stage s w))

  Refusals-waiting : (w w' : S) → Refusals queue_stage drain_order w w' → waiting size w' ≡ 0
  Refusals-waiting w w' (r1, (r2, (r3, (r4, e)))) =
      let w1 = (queue_stage analyze w).1 in
      let w2 = (queue_stage deep_medium w1).1 in
      let w3 = (queue_stage deep_low w2).1 in
      let k1 = refusal_keeps analyze w r1 in
      let k2 = refusal_keeps deep_medium w1 r2 in
      let k3 = refusal_keeps deep_low w2 r3 in
      let k4 = refusal_keeps verify w3 r4 in
      rw (← e) (
        omega (
          arith,
          k1.0,
          k2.0,
          k3.0,
          k4.0,
          k1.1 analyze,
          k2.1 analyze,
          k3.1 analyze,
          k4.1 analyze,
          k2.1 deep_medium,
          k3.1 deep_medium,
          k4.1 deep_medium,
          k3.1 deep_low,
          k4.1 deep_low,
          k4.1 verify,
        ))

-- Against queues of known sizes, an allocation occupies as many lanes as are free or as many as
-- tasks wait in all four stages, whichever is less; a pool that was over its limit stays as it is.
pub fill_max_throughput :
    {S : Type 0} (queue_stage : WeightedAiStage → S → Bool × S) (size : WeightedAiStage → S → ℕ)
    (concurrency occupied : ℤ) (active : Active) (world : S)
    → IsBacklog queue_stage size
    → length (fill_weighted_ai_capacity queue_stage concurrency occupied active world).queued
      ≡ min (to_nat concurrency - to_nat occupied) (waiting size world)
unfolding fill_weighted_ai_capacity
fill_max_throughput {S} queue_stage size concurrency occupied active world law =
    let total = to_nat occupied + waiting size world in
    let kept =
      fill_from_keeps queue_stage (to_nat concurrency)
        (λ (l : Lanes S). l.occupied + waiting size l.world ≡ total)
        (queue-waiting queue_stage size law (to_nat concurrency) total)
        (start occupied active world) refl in
    let (count, bound, _) = fill_accounts queue_stage concurrency occupied active world in
    let final = fill_weighted_ai_capacity queue_stage concurrency occupied active world in
    elim (dec_lt final.occupied (to_nat concurrency)) [
      | yes idle ↦
          let (w, refused) =
            fill_work_conserving queue_stage concurrency occupied active world idle in
          omega
            (arith, kept, count, bound, Refusals-waiting queue_stage size law w final.world refused)
      | no busy ↦ omega (arith, kept, count, bound)
    ]
