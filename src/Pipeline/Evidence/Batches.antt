-- ===== src/Pipeline/Evidence/Batches.antt =====
-- What batchEvidenceUnits of src/domain/pipeline-v2.ts makes of its units.
use clideck_mcp.Prelude.{
  ℕ, ◌+◌, ◌≤◌, max, String, true, false, ◌&&◌, ◌||◌, not, Option, none, some, List, [], ◌∷◌, ◌++◌,
  ◌≡◌, refl, sym, ap, ◌∙◌, ◌⊎◌, inl, inr, arith, ltb, leb, if◌then◌else◌, length, length-append,
  str_eq, str_eq_iff, All, All-append, Bool-cases,
}
use mathlib.Core.List.{append-nil, append_assoc}
use clideck_mcp.Prelude.Int.{pos}
use clideck_mcp.Pipeline.Evidence.{
  EvidenceUnit, BatchOptions, bounded_tokens, same_class, same_window, Batching, exceeds_target,
  flushed, placed, batch_step, batch_loop, closed, batch_evidence_units,
}

abbrev pub concat : List (List EvidenceUnit) → List EvidenceUnit
concat [] = []
concat (b ∷ bs) = b ++ concat bs

-- A unit whose estimate is above the hard limit counts as the hard limit.
abbrev pub clamp : BatchOptions → EvidenceUnit → EvidenceUnit
clamp o u =
    if ltb o.hard_tokens (bounded_tokens u)
    then record u { estimated_tokens = pos o.hard_tokens }
    else u

abbrev pub total_tokens : List EvidenceUnit → ℕ
total_tokens [] = 0
total_tokens (u ∷ us) = bounded_tokens u + total_tokens us

abbrev pub IsLike : EvidenceUnit → EvidenceUnit → Type 0
IsLike f v = (v.evidence_window ≡ f.evidence_window) × (v.error_class ≡ f.error_class)

-- A batch has a unit, all its units are of one window and one error class, it has at most the
-- maximum of records, and it keeps the target unless it is a single unit.
abbrev pub IsBatch : BatchOptions → List EvidenceUnit → Type 0
IsBatch o [] = ⊥
IsBatch o (f ∷ us) =
    All (IsLike f) us
    × (length (f ∷ us) ≤ max 1 o.maximum_records)
    × ((total_tokens (f ∷ us) ≤ o.target_tokens) ⊎ (us ≡ []))
    × All (λ u. bounded_tokens u ≤ o.hard_tokens) (f ∷ us)

pub concat-append :
    (bs : List (List EvidenceUnit)) (c : List EvidenceUnit) → concat (bs ++ c ∷ []) ≡ concat bs ++ c
concat-append [] c = append-nil c
concat-append (b ∷ bs) c =
    ap (λ rest. b ++ rest) (concat-append bs c) ∙ sym (append_assoc b (concat bs) c)

total_tokens-append :
    (us : List EvidenceUnit) (u : EvidenceUnit)
    → total_tokens (us ++ u ∷ []) ≡ total_tokens us + bounded_tokens u
total_tokens-append [] u = omega arith
total_tokens-append (v ∷ us) u = omega (arith, total_tokens-append us u)

same_class_lem : (a b : Option String) → same_class a b ≡ true → b ≡ a
same_class_lem none none h = refl
same_class_lem none (some b) h = cc
same_class_lem (some a) none h = cc
same_class_lem (some a) (some b) h = ap some (sym ((str_eq_iff a b).0 h))

same_window-IsLike :
    (f u : EvidenceUnit)
    → (str_eq f.evidence_window u.evidence_window && same_class f.error_class u.error_class) ≡ true
    → IsLike f u
same_window-IsLike f u h = (
  sym ((str_eq_iff f.evidence_window u.evidence_window).0 (ground arith)),
  same_class_lem f.error_class u.error_class (ground arith),
)

-- The batch that is being filled: empty, or a batch.
abbrev IsFilling : BatchOptions → List EvidenceUnit → Type 0
IsFilling o [] = Unit
IsFilling o (f ∷ us) = IsBatch o (f ∷ us)

abbrev IsSound : BatchOptions → Batching → Type 0
IsSound o b = All (IsBatch o) b.result × IsFilling o b.current × (b.tokens ≡ total_tokens b.current)

extended :
    (o : BatchOptions) (us : List EvidenceUnit) (u : EvidenceUnit) (tokens : ℕ)
    → IsFilling o us
    → tokens ≡ total_tokens us
    → (same_window us u ≡ true)
    → ltb 0 (length us)
        && (ltb o.target_tokens (tokens + bounded_tokens u) || leb o.maximum_records (length us))
      ≡ false
    → ltb o.hard_tokens (bounded_tokens u) ≡ false
    → IsBatch o (us ++ u ∷ [])
extended o [] u tokens h e like room soft = (tt, omega arith, inr refl, (ground arith, tt))
extended o (f ∷ us) u tokens (alike, count, total, each) e like room soft = (
  All-append (IsLike f) us (u ∷ []) alike (same_window-IsLike f u like, tt),
  (let n = length-append us (u ∷ []) in ground arith),
  inl (let t = total_tokens-append us u in ground arith),
  (each.0, All-append _ us (u ∷ []) each.1 (ground arith, tt)),
)

flushed-IsSound :
    (o : BatchOptions) (b : Batching) → IsSound o b → 1 ≤ length b.current → IsSound o (flushed b)
flushed-IsSound o b (done, filling, _) some_unit = (
  All-append (IsBatch o) b.result (b.current ∷ []) done (whole b.current filling some_unit, tt),
  tt,
  refl,
)
  where
    whole : (us : List EvidenceUnit) → IsFilling o us → 1 ≤ length us → IsBatch o us
    whole [] h k = absurd (omega arith)
    whole (f ∷ us) h k = h

-- A unit above the hard limit becomes a batch of its own.
alone :
    (o : BatchOptions) (u : EvidenceUnit)
    → 1 ≤ o.hard_tokens
    → IsBatch o (record u { estimated_tokens = pos o.hard_tokens } ∷ [])
alone o u h = (tt, omega arith, inr refl, (omega arith, tt))

placed-IsSound :
    (o : BatchOptions) (u : EvidenceUnit) (b : Batching)
    → 1 ≤ o.hard_tokens
    → IsSound o b
    → same_window b.current u ≡ true
    → exceeds_target o b u ≡ false
    → IsSound o (placed o u b)
placed-IsSound o u b h (done, filling, e) like room =
    elim (Bool-cases (ltb o.hard_tokens (bounded_tokens u))) [
      | inl hard ↦ rw hard (All-append (IsBatch o) b.result _ done (alone o u h, tt), filling, e)
      | inr soft ↦ rw soft (
        done,
        fills b.current (extended o b.current u b.tokens filling e like room soft),
        ap (λ n. n + bounded_tokens u) e ∙ sym (total_tokens-append b.current u),
      )
    ]
  where
    fills : (us : List EvidenceUnit) → IsBatch o (us ++ u ∷ []) → IsFilling o (us ++ u ∷ [])
    fills [] k = k
    fills (f ∷ us) k = k

-- What makes the loop close the batch is a unit in it.
closes_some :
    (o : BatchOptions) (b : Batching) (u : EvidenceUnit)
    → (not (same_window b.current u) || exceeds_target o b u) ≡ true
    → 1 ≤ length b.current
closes_some o b u h = go b.current h
  where
    go :
        (us : List EvidenceUnit)
        → (not (same_window us u)
            || (ltb 0 (length us)
                && (ltb o.target_tokens (b.tokens + bounded_tokens u)
                    || leb o.maximum_records (length us))))
          ≡ true
        → 1 ≤ length us
    go [] k = absurd (false_true k)
      where
        false_true : false ≡ true → ⊥
        false_true k = cc
    go (f ∷ us) k = omega arith

batch_step-IsSound :
    (o : BatchOptions) (u : EvidenceUnit) (b : Batching)
    → 1 ≤ o.hard_tokens
    → IsSound o b
    → IsSound o (batch_step o u b)
batch_step-IsSound o u b h sound =
    elim (Bool-cases (not (same_window b.current u) || exceeds_target o b u)) [
      | inl close ↦ rw close (
          placed-IsSound o u (flushed b) h (flushed-IsSound o b sound (closes_some o b u close))
            refl refl)
      | inr keep ↦ rw keep (placed-IsSound o u b h sound (ground arith) (ground arith))
    ]

batch_loop-IsSound :
    (o : BatchOptions) (units : List EvidenceUnit) (b : Batching)
    → 1 ≤ o.hard_tokens
    → IsSound o b
    → IsSound o (batch_loop o units b)
unfolding batch_loop
batch_loop-IsSound o [] b h sound = sound
batch_loop-IsSound o (u ∷ units) b h sound =
    batch_loop-IsSound o units (batch_step o u b) h (batch_step-IsSound o u b h sound)

closed-IsBatch :
    (o : BatchOptions) (result : List (List EvidenceUnit)) (current : List EvidenceUnit)
    → All (IsBatch o) result
    → IsFilling o current
    → All (IsBatch o) (closed result current)
closed-IsBatch o result [] done filling = done
closed-IsBatch o result (u ∷ us) done filling = All-append (IsBatch o) result _ done (filling, tt)

-- With a positive hard limit, every batch of batchEvidenceUnits has at least one unit and at most
-- the maximum of records (or one), all its units are of one window and one error class, none
-- counts more than the hard limit, and together they keep the target unless the batch is one unit.
pub batch_evidence_units-IsBatch :
    (units : List EvidenceUnit) (o : BatchOptions)
    → 1 ≤ o.hard_tokens
    → All (IsBatch o) (batch_evidence_units units o)
unfolding batch_evidence_units
batch_evidence_units-IsBatch units o h =
    let start : Batching = record { result = []; current = []; tokens = 0 } in
    let (done, filling, _) = batch_loop-IsSound o units start h (tt, tt, refl) in
    closed-IsBatch o _ _ done filling
