-- ===== src/Pipeline/Evidence.antt =====
-- batchEvidenceUnits of src/domain/pipeline-v2.ts. The numbers of a unit are whole.
pub mod Batches
pub mod Order
mod Tests
use clideck_mcp.Prelude.{
  ℕ, ◌+◌, max, String, Bool, true, false, ◌&&◌, ◌||◌, not, Option, none, some, List, [], ◌∷◌, ◌++◌,
  ltb, leb, if◌then◌else◌, length, str_eq,
}
use clideck_mcp.Prelude.Int.{ℤ, pos, to_nat}

pub record EvidenceUnit : Type 0 where
  pub id : String
  pub estimated_tokens : ℤ
  pub evidence_window : String
  pub error_class : Option String

pub record BatchOptions : Type 0 where
  pub maximum_records : ℕ
  pub target_tokens : ℕ
  pub hard_tokens : ℕ

-- `Math.max(1, Math.trunc(unit.estimatedTokens))`.
abbrev pub bounded_tokens : EvidenceUnit → ℕ
bounded_tokens u = max 1 (to_nat u.estimated_tokens)

-- `(a ?? null) === (b ?? null)`.
abbrev pub same_class : Option String → Option String → Bool
same_class none none = true
same_class none (some b) = false
same_class (some a) none = false
same_class (some a) (some b) = str_eq a b

-- `current.length === 0 || …`.
abbrev pub same_window : List EvidenceUnit → EvidenceUnit → Bool
same_window [] u = true
same_window (first ∷ rest) u =
    str_eq first.evidence_window u.evidence_window && same_class first.error_class u.error_class

-- The variables of the loop.
pub record Batching : Type 0 where
  pub result : List (List EvidenceUnit)
  pub current : List EvidenceUnit
  pub tokens : ℕ

abbrev pub exceeds_target : BatchOptions → Batching → EvidenceUnit → Bool
exceeds_target o b u =
    ltb 0 (length b.current)
    && (ltb o.target_tokens (b.tokens + bounded_tokens u)
        || leb o.maximum_records (length b.current))

abbrev pub flushed : Batching → Batching
flushed b = record { result = b.result ++ b.current ∷ []; current = []; tokens = 0 }

-- What becomes of the unit, once the batch before it is closed or not.
abbrev pub placed : BatchOptions → EvidenceUnit → Batching → Batching
placed o u b =
    if ltb o.hard_tokens (bounded_tokens u)
    then record b {
      result = b.result ++ (record u { estimated_tokens = pos o.hard_tokens } ∷ []) ∷ [];
    }
    else record b { current = b.current ++ u ∷ []; tokens = b.tokens + bounded_tokens u }

abbrev pub batch_step : BatchOptions → EvidenceUnit → Batching → Batching
batch_step o u b =
    placed o u (if not (same_window b.current u) || exceeds_target o b u then flushed b else b)

unfoldable pub batch_loop : BatchOptions → List EvidenceUnit → Batching → Batching
batch_loop o [] b = b
batch_loop o (u ∷ units) b = batch_loop o units (batch_step o u b)

-- `if (current.length > 0) result.push(current)`.
abbrev pub closed : List (List EvidenceUnit) → List EvidenceUnit → List (List EvidenceUnit)
closed result [] = result
closed result (u ∷ us) = result ++ (u ∷ us) ∷ []

unfoldable pub batch_evidence_units : List EvidenceUnit → BatchOptions → List (List EvidenceUnit)
unfolding batch_loop
batch_evidence_units units o =
    let b = batch_loop o units (record { result = []; current = []; tokens = 0 }) in
    closed b.result b.current
