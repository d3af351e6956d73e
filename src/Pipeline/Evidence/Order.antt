-- ===== src/Pipeline/Evidence/Order.antt =====
-- The order of the units in the batches of batchEvidenceUnits, src/domain/pipeline-v2.ts.
use clideck_mcp.Prelude.{
  ℕ, ◌+◌, ◌≤◌, true, false, ◌&&◌, ◌||◌, not, List, [], ◌∷◌, ◌++◌, map, ◌≡◌, refl, sym, ap, ◌∙◌, inl,
  inr, arith, ltb, leb, length, Bool-cases,
}
use mathlib.Core.List.{append-nil, append_assoc}
use clideck_mcp.Prelude.Int.{pos}
use clideck_mcp.Pipeline.Evidence.{
  EvidenceUnit, BatchOptions, bounded_tokens, same_window, Batching, exceeds_target, flushed,
  placed, batch_step, batch_loop, closed, batch_evidence_units,
}
use clideck_mcp.Pipeline.Evidence.Batches.{concat, concat-append, clamp}

abbrev contents : Batching → List EvidenceUnit
contents b = concat b.result ++ b.current

flushed-contents : (b : Batching) → contents (flushed b) ≡ contents b
flushed-contents b =
    append-nil (concat (b.result ++ b.current ∷ [])) ∙ concat-append b.result b.current

-- A unit above the hard limit meets an empty batch.
hard_alone :
    (o : BatchOptions) (u : EvidenceUnit) (us : List EvidenceUnit) (tokens : ℕ)
    → o.target_tokens ≤ o.hard_tokens
    → ltb o.hard_tokens (bounded_tokens u) ≡ true
    → (ltb 0 (length us)
        && (ltb o.target_tokens (tokens + bounded_tokens u) || leb o.maximum_records (length us)))
      ≡ false
    → us ≡ []
hard_alone o u [] tokens h hard room = refl
hard_alone o u (f ∷ us) tokens h hard room = absurd (ground arith)

placed-contents :
    (o : BatchOptions) (u : EvidenceUnit) (b : Batching)
    → o.target_tokens ≤ o.hard_tokens
    → exceeds_target o b u ≡ false
    → contents (placed o u b) ≡ contents b ++ clamp o u ∷ []
placed-contents o u b h room = elim (Bool-cases (ltb o.hard_tokens (bounded_tokens u))) [
  | inl hard ↦
      let empty = hard_alone o u b.current b.tokens h hard room in
      rw (hard, empty)
        (append-nil _
          ∙ concat-append b.result _
          ∙ ap (λ xs. xs ++ (record u { estimated_tokens = pos o.hard_tokens }) ∷ [])
              (sym (append-nil (concat b.result))))
  | inr soft ↦ rw soft (sym (append_assoc (concat b.result) b.current (u ∷ [])))
]

batch_step-contents :
    (o : BatchOptions) (u : EvidenceUnit) (b : Batching)
    → o.target_tokens ≤ o.hard_tokens
    → contents (batch_step o u b) ≡ contents b ++ clamp o u ∷ []
batch_step-contents o u b h =
    elim (Bool-cases (not (same_window b.current u) || exceeds_target o b u)) [
      | inl close ↦ rw close (
          placed-contents o u (flushed b) h refl
          ∙ ap (λ xs. xs ++ clamp o u ∷ []) (flushed-contents b))
      | inr keep ↦ rw keep (placed-contents o u b h (ground arith))
    ]

batch_loop-contents :
    (o : BatchOptions) (units : List EvidenceUnit) (b : Batching)
    → o.target_tokens ≤ o.hard_tokens
    → contents (batch_loop o units b) ≡ contents b ++ map (clamp o) units
unfolding batch_loop
batch_loop-contents o [] b h = sym (append-nil (contents b))
batch_loop-contents o (u ∷ units) b h =
    batch_loop-contents o units (batch_step o u b) h
    ∙ ap (λ xs. xs ++ map (clamp o) units) (batch_step-contents o u b h)
    ∙ append_assoc (contents b) (clamp o u ∷ []) (map (clamp o) units)

closed-concat :
    (result : List (List EvidenceUnit)) (current : List EvidenceUnit)
    → concat (closed result current) ≡ concat result ++ current
closed-concat result [] = sym (append-nil (concat result))
closed-concat result (u ∷ us) = concat-append result (u ∷ us)

-- If the target is within the hard limit, the batches of batchEvidenceUnits, one after the other,
-- are the units that it was given, each once and in their order, with an estimate above the hard
-- limit replaced by it.
pub batch_evidence_units-concat :
    (units : List EvidenceUnit) (o : BatchOptions)
    → o.target_tokens ≤ o.hard_tokens
    → concat (batch_evidence_units units o) ≡ map (clamp o) units
unfolding batch_evidence_units
batch_evidence_units-concat units o h =
    let start : Batching = record { result = []; current = []; tokens = 0 } in
    let b = batch_loop o units start in
    closed-concat b.result b.current ∙ batch_loop-contents o units start h
