-- ===== src/Pipeline/Scheduler/Tests.antt =====
-- Runs of the scheduler, and its theorems at them. The callback counts the tasks of each stage.
use clideck_mcp.Prelude.{ℕ, ◌-◌, min, Bool, [], ◌∷◌, ◌≡◌, refl, arith, length, ltb}
use clideck_mcp.Prelude.Int.{pos, negsuc}
use clideck_mcp.Pipeline.Scheduler.{
  WeightedAiStage, deep_medium, deep_low, verify, analyze, Active, active_of, Lanes, has_capacity,
  queue, fill_stage, first_queued, drain, seed_analyze, fill_from, fill_weighted_ai_capacity,
}
use clideck_mcp.Pipeline.Scheduler.Accounting.{stage_matches}
use clideck_mcp.Pipeline.Scheduler.Capacity.{IsBacklog, waiting, fill_max_throughput}

abbrev tasks : ℕ → ℕ → ℕ → ℕ → Active
tasks dm dl v a = record { deep_medium = dm; deep_low = dl; verify = v; analyze = a }

abbrev less : WeightedAiStage → Active → Active
less deep_medium a = record a { deep_medium = a.deep_medium - 1 }
less deep_low a = record a { deep_low = a.deep_low - 1 }
less verify a = record a { verify = a.verify - 1 }
less analyze a = record a { analyze = a.analyze - 1 }

abbrev backlog : WeightedAiStage → Active → Bool × Active
backlog stage a = (ltb 0 (active_of a stage), less stage a)

abbrev size : WeightedAiStage → Active → ℕ
size stage a = active_of a stage

backlog-takes :
    (stage s : WeightedAiStage) (w : Active)
    → size s (backlog stage w).1 ≡ size s w - stage_matches s stage
backlog-takes deep_medium s w = ground arith
backlog-takes _ s w = ground arith

backlog-IsBacklog : IsBacklog backlog size
backlog-IsBacklog = record { yields = λ stage w. refl; takes = backlog-takes }

abbrev busy : Lanes Active
busy = fill_weighted_ai_capacity backlog (pos 5) (pos 1) (tasks 0 0 0 0) (tasks 2 2 2 1)

abbrev idle : Lanes Active
idle = fill_weighted_ai_capacity backlog (pos 9) (pos 0) (tasks 0 0 0 0) (tasks 1 0 1 2)

-- What a run unfolds.
runs : Unit {0}
unfolding fill_weighted_ai_capacity fill_from seed_analyze fill_stage drain first_queued queue
    has_capacity
runs = tt

-- Five lanes, one taken; two tasks of each audit stage and one of extraction.
busy_run : busy.queued ≡ analyze ∷ deep_medium ∷ deep_medium ∷ deep_low ∷ []
unfolding runs
busy_run = refl

-- With extraction active already, it is served last, and lanes stay free.
idle_run :
    (fill_weighted_ai_capacity backlog (pos 9) (negsuc 1) (tasks 0 0 0 1) (tasks 1 0 1 2)).queued
    ≡ deep_medium ∷ verify ∷ analyze ∷ analyze ∷ []
unfolding runs
idle_run = refl

fill_max_throughput_example : length busy.queued ≡ min (5 - 1) (waiting size (tasks 2 2 2 1))
fill_max_throughput_example =
    fill_max_throughput backlog size (pos 5) (pos 1) (tasks 0 0 0 0) (tasks 2 2 2 1)
      backlog-IsBacklog
