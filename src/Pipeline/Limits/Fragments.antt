-- ===== src/Pipeline/Limits/Fragments.antt =====
-- What boundFragmentAnalysisBatch of src/domain/pipeline.ts selects.
use clideck_mcp.Prelude.{
  ℕ, ◌+◌, ◌*◌, ◌≤◌, ◌<◌, min, false, ◌&&◌, List, [], ◌∷◌, ◌++◌, ◌≡◌, refl, ap, ◌∙◌, ◌⊎◌, inl, inr,
  arith, ltb, leb, length, length-append, All, Bool-cases,
}
use mathlib.Core.List.{append_assoc}
use clideck_mcp.Pipeline.Limits.{
  Fragment, byte_length, max_source_fragment_bytes, fragment_analysis_evidence_budget_bytes,
  bound_loop, bound_fragment_analysis_batch,
}

abbrev pub total_bytes : List Fragment → ℕ
total_bytes [] = 0
total_bytes (f ∷ fs) = byte_length f.content + total_bytes fs

-- Why the selection ends where it does, if fragments are left.
abbrev pub Stops : ℕ → List Fragment → List Fragment → Type 0
Stops max_bytes selected [] = Unit
Stops max_bytes selected (f ∷ rest) =
    (1 ≤ length selected)
    × ((length selected ≡ 16) ⊎ (max_bytes < total_bytes selected + byte_length f.content))

abbrev pub IsSelection : ℕ → List Fragment → List Fragment → Type 0
IsSelection max_bytes fragments selected =
    (rest : List Fragment) × (selected ++ rest ≡ fragments)
    × (length selected ≤ 16)
    × ((total_bytes selected ≤ max_bytes) ⊎ (length selected ≤ 1))
    × Stops max_bytes selected rest

total_bytes-append :
    (fs : List Fragment) (f : Fragment)
    → total_bytes (fs ++ f ∷ []) ≡ total_bytes fs + byte_length f.content
total_bytes-append [] f = omega arith
total_bytes-append (g ∷ fs) f = omega (arith, total_bytes-append fs f)

bound_loop-IsSelection :
    (max_bytes : ℕ) (fragments selected : List Fragment) (bytes : ℕ)
    → bytes ≡ total_bytes selected
    → length selected ≤ 16
    → (total_bytes selected ≤ max_bytes) ⊎ (length selected ≤ 1)
    → IsSelection max_bytes (selected ++ fragments) (bound_loop max_bytes fragments selected bytes)
unfolding bound_loop
bound_loop-IsSelection max_bytes [] selected bytes e size total = ([], refl, size, total, tt)
bound_loop-IsSelection max_bytes (f ∷ fragments) selected bytes e size total =
    elim (Bool-cases (leb 16 (length selected))) [
      | inl full ↦ rw full (f ∷ fragments, refl, size, total, (ground arith, inl (ground arith)))
      | inr room ↦
          elim (Bool-cases
            (ltb 0 (length selected) && ltb max_bytes (bytes + byte_length f.content))) [
              | inl over ↦
                  rw (room, over)
                    (f ∷ fragments, refl, size, total, (ground arith, inr (ground arith)))
              | inr fits ↦
                  let added = total_bytes-append selected f in
                  let longer = length-append selected (f ∷ []) in
                  let (rest, whole, size', total', stops) =
                    bound_loop-IsSelection max_bytes fragments (selected ++ f ∷ [])
                      (bytes + byte_length f.content) (omega arith) (ground arith)
                      (within added longer fits) in
                  rw (room, fits)
                    (rest, whole ∙ append_assoc selected (f ∷ []) fragments, size', total', stops)
            ]
    ]
  where
    within :
        total_bytes (selected ++ f ∷ []) ≡ total_bytes selected + byte_length f.content
        → length (selected ++ f ∷ []) ≡ length selected + 1
        → ltb 0 (length selected) && ltb max_bytes (bytes + byte_length f.content) ≡ false
        → (total_bytes (selected ++ f ∷ []) ≤ max_bytes) ⊎ (length (selected ++ f ∷ []) ≤ 1)
    within added longer fits = elim (Bool-cases (ltb 0 (length selected))) [
      | inl some_selected ↦ inl (ground arith)
      | inr none_selected ↦ inr (ground arith)
    ]

-- The selection of boundFragmentAnalysisBatch is the first fragments of the list, at most 16, within
-- the byte limit or a single one; and it leaves a fragment only if it has selected one and either 16 are
-- selected or the next one would exceed the limit.
pub bound_fragment_analysis_batch-IsSelection :
    (fragments : List Fragment) (max_bytes : ℕ)
    → IsSelection max_bytes fragments (bound_fragment_analysis_batch fragments max_bytes)
unfolding bound_fragment_analysis_batch
bound_fragment_analysis_batch-IsSelection fragments max_bytes =
    bound_loop-IsSelection max_bytes fragments [] 0 refl (omega arith) (inr (omega arith))

small_total :
    (fs rest : List Fragment)
    → All (λ (f : Fragment). byte_length f.content ≤ max_source_fragment_bytes) (fs ++ rest)
    → total_bytes fs ≤ 4096 * length fs
small_total [] rest h = omega arith
small_total (f ∷ fs) rest (p, h) = omega (arith, small_total fs rest h, p)

small_rest :
    (fs : List Fragment) (f : Fragment) (rest : List Fragment)
    → All (λ (g : Fragment). byte_length g.content ≤ max_source_fragment_bytes) (fs ++ f ∷ rest)
    → byte_length f.content ≤ 4096
small_rest [] f rest (p, h) = p
small_rest (g ∷ fs) f rest (p, h) = small_rest fs f rest h

-- If every fragment keeps maxSourceFragmentBytes, the byte limit of the evidence budget never cuts
-- a batch: it has 16 fragments, or all where there are fewer.
bound_fragment_analysis_batch_full :
    (fragments : List Fragment)
    → All (λ (f : Fragment). byte_length f.content ≤ max_source_fragment_bytes) fragments
    → length (bound_fragment_analysis_batch fragments fragment_analysis_evidence_budget_bytes)
      ≡ min 16 (length fragments)
bound_fragment_analysis_batch_full fragments small =
    let selected =
      bound_fragment_analysis_batch fragments fragment_analysis_evidence_budget_bytes in
    let (rest, whole, size, _, stops) =
      bound_fragment_analysis_batch-IsSelection fragments fragment_analysis_evidence_budget_bytes in
    counted selected rest whole size stops (rw (← whole) at small)
  where
    counted :
        (selected rest : List Fragment)
        → selected ++ rest ≡ fragments
        → length selected ≤ 16
        → Stops fragment_analysis_evidence_budget_bytes selected rest
        → All
            (λ (f : Fragment). byte_length f.content ≤ max_source_fragment_bytes)
            (selected ++ rest)
        → length selected ≡ min 16 (length fragments)
    counted selected [] whole size stops h =
        let n = length-append selected [] in let all = ap length whole in omega arith
    counted selected (f ∷ rest) whole size (some_selected, inl full) h =
        let n = length-append selected (f ∷ rest) in let all = ap length whole in omega arith
    counted selected (f ∷ rest) whole size (some_selected, inr over) h =
        let n = length-append selected (f ∷ rest) in
        let all = ap length whole in
        let total = small_total selected (f ∷ rest) h in
        let next = small_rest selected f rest h in omega arith
