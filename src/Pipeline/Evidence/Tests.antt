-- ===== src/Pipeline/Evidence/Tests.antt =====
-- Runs of batchEvidenceUnits, and its theorems at them.
use clideck_mcp.Prelude.{ℕ, none, List, [], ◌∷◌, map, ◌≡◌, refl, arith, All, String}
use clideck_mcp.Prelude.Int.{pos}
use clideck_mcp.Pipeline.Evidence.{EvidenceUnit, BatchOptions, batch_evidence_units}
use clideck_mcp.Pipeline.Evidence.Batches.{concat, clamp, IsBatch, batch_evidence_units-IsBatch}
use clideck_mcp.Pipeline.Evidence.Order.{batch_evidence_units-concat}

abbrev unit_of : String → ℕ → String → EvidenceUnit
unit_of id tokens window = record {
  id = id;
  estimated_tokens = pos tokens;
  evidence_window = window;
  error_class = none;
}

abbrev limits : BatchOptions
limits = record { maximum_records = 2; target_tokens = 100; hard_tokens = 150 }

abbrev units : List EvidenceUnit
units =
    unit_of "a" 40 "w1"
    ∷ unit_of "b" 40 "w1"
    ∷ unit_of "c" 10 "w1"
    ∷ unit_of "d" 500 "w1"
    ∷ unit_of "e" 10 "w2"
    ∷ []

five_units :
    batch_evidence_units units limits
    ≡ (unit_of "a" 40 "w1" ∷ unit_of "b" 40 "w1" ∷ [])
      ∷ (unit_of "c" 10 "w1" ∷ [])
      ∷ (unit_of "d" 150 "w1" ∷ [])
      ∷ (unit_of "e" 10 "w2" ∷ [])
      ∷ []
unfolding batch_evidence_units
five_units = refl

-- With a target above the hard limit a unit can overtake: the order needs its condition.
overtaken :
    batch_evidence_units
      (unit_of "a" 10 "w1" ∷ unit_of "b" 60 "w1" ∷ [])
      (record { maximum_records = 2; target_tokens = 100; hard_tokens = 50 })
    ≡ (unit_of "b" 50 "w1" ∷ []) ∷ (unit_of "a" 10 "w1" ∷ []) ∷ []
unfolding batch_evidence_units
overtaken = refl

batch_evidence_units-IsBatch_example : All (IsBatch limits) (batch_evidence_units units limits)
batch_evidence_units-IsBatch_example = batch_evidence_units-IsBatch units limits (omega arith)

batch_evidence_units-concat_example :
    concat (batch_evidence_units units limits) ≡ map (clamp limits) units
batch_evidence_units-concat_example = batch_evidence_units-concat units limits (omega arith)
