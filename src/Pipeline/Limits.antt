-- ===== src/Pipeline/Limits.antt =====
-- The batch limits and retry rules of the learning pipeline: boundFragmentAnalysisBatch,
-- nextDeepReviewBatchLimitAfterCleanPass, codexCircuitCooldownSeconds and demandFailureDisposition
-- of src/domain/pipeline.ts, with the constants of src/domain/pipeline-limits.ts.
pub mod Fragments
pub mod Reviews
mod Tests
use Prim.Native.String
use Prim.Native.Char.{code}
use clideck_mcp.Prelude.{
  ℕ, suc, ◌+◌, ◌-◌, ◌*◌, ◌/◌, ◌^◌, min, max, String, Bool, true, false, ◌&&◌, ◌||◌, not, List, [],
  ◌∷◌, ◌++◌, ltb, leb, if◌then◌else◌, length,
}
use clideck_mcp.Prelude.Int.{ℤ, pos, negsuc, to_nat}

abbrev pub fragment_analysis_evidence_budget_bytes : ℕ
fragment_analysis_evidence_budget_bytes = 64 * 1024

abbrev pub target_fragments_per_analysis_batch : ℕ
target_fragments_per_analysis_batch = 8

abbrev pub max_fragment_analysis_batch_size : ℕ
max_fragment_analysis_batch_size = 16

abbrev pub max_source_fragment_bytes : ℕ
max_source_fragment_bytes =
    fragment_analysis_evidence_budget_bytes / max_fragment_analysis_batch_size

-- `Buffer.byteLength(text, 'utf8')`.
abbrev utf8_width : ℕ → ℕ
utf8_width c = if ltb c 128 then 1 else if ltb c 2048 then 2 else if ltb c 65536 then 3 else 4

abbrev pub byte_length : String → ℕ
byte_length String.[] = 0
byte_length (String.◌∷◌ c text) = utf8_width (code c) + byte_length text

pub record Fragment : Type 0 where
  pub id : String
  pub content : String

-- The loop of boundFragmentAnalysisBatch, with `selected` and `selectedBytes`.
unfoldable pub bound_loop : ℕ → List Fragment → List Fragment → ℕ → List Fragment
bound_loop max_bytes [] selected selected_bytes = selected
bound_loop max_bytes (f ∷ fragments) selected selected_bytes =
    let bytes = byte_length f.content in
    let rest = bound_loop max_bytes fragments (selected ++ f ∷ []) (selected_bytes + bytes) in
    if leb max_fragment_analysis_batch_size (length selected)
    then selected
    else if ltb 0 (length selected) && ltb max_bytes (selected_bytes + bytes)
    then selected
    else rest

unfoldable pub bound_fragment_analysis_batch : List Fragment → ℕ → List Fragment
unfolding bound_loop
bound_fragment_analysis_batch fragments max_bytes = bound_loop max_bytes fragments [] 0

-- nextDeepReviewBatchLimitAfterCleanPass, at whole numbers.
abbrev pub clamped_limit : ℤ → ℕ
clamped_limit current = min 8 (max 1 (to_nat current))

unfoldable pub next_deep_review_batch_limit_after_clean_pass : ℤ → ℤ → ℕ
next_deep_review_batch_limit_after_clean_pass current_batch_limit handled_records =
    let current = clamped_limit current_batch_limit in
    if ltb (to_nat handled_records) current then current else min 8 (current * 2)

-- codexCircuitCooldownSeconds, at a count.
unfoldable pub codex_circuit_cooldown_seconds : ℕ → ℕ
codex_circuit_cooldown_seconds matching_failures =
    if ltb matching_failures 2 then 0 else min 300 (30 * 2 ^ (matching_failures - 2))

-- PipelineTaskRow['task_type'].
pub data TaskType : Type 0 where
  technical_answer technical_answer_review technical_answer_publication expert_research
        demand_diagnosis source_discovery source_acquisition source_conversion source_chunking
        fragment_analysis candidate_verification candidate_deep_review candidate_publication
        source_publication source_refresh :
      TaskType

-- nonBlockingAiTaskTypes.
abbrev pub is_non_blocking_ai : TaskType → Bool
is_non_blocking_ai technical_answer = true
is_non_blocking_ai technical_answer_review = true
is_non_blocking_ai demand_diagnosis = true
is_non_blocking_ai fragment_analysis = true
is_non_blocking_ai candidate_verification = true
is_non_blocking_ai candidate_deep_review = true
is_non_blocking_ai _ = false

-- sourceReplacementTaskTypes.
abbrev pub is_source_replacement : TaskType → Bool
is_source_replacement source_discovery = true
is_source_replacement source_refresh = true
is_source_replacement source_acquisition = true
is_source_replacement source_conversion = true
is_source_replacement source_chunking = true
is_source_replacement _ = false

pub data DemandDisposition : Type 0 where
  normal keep_processing restart_discovery : DemandDisposition

unfoldable pub demand_failure_disposition :
    (has_demand : Bool) → TaskType → (retrying : Bool) → DemandDisposition
demand_failure_disposition has_demand task_type retrying =
    if not has_demand
    then normal
    else if is_non_blocking_ai task_type
    then keep_processing
    else if not retrying && is_source_replacement task_type
    then restart_discovery
    else normal
