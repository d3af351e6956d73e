-- ===== src/Pipeline/Tasks/Outranked.antt =====
-- Which of two tasks claimPipelineTask of src/domain/pipeline.ts prefers, without reference to the
-- keys of its ORDER BY clause.
use clideck_mcp.Prelude.{
  ℕ, ◌<◌, String, Bool, true, false, ◌&&◌, not, Option, none, some, List, ◌≡◌, ◌≢◌, ◌⊎◌, ◌↔◌, refl,
  inl, inr, arith, ltb, ◌==◌, ==_iff, if◌then◌else◌, str_eq, str_eq_iff, Bool-cases,
}
use clideck_mcp.Prelude.Int.{ltb_ℤ}
use clideck_mcp.Prelude.Table.{In, any-In, In-any}
use clideck_mcp.Pipeline.Tasks.Tables.{PipelineTask, Demand, Store}
use clideck_mcp.Pipeline.Tasks.Columns.{text_is}
use clideck_mcp.Pipeline.Tasks.Circuits.{is_none}
use clideck_mcp.Pipeline.Tasks.Select.{
  then_by, wants_work, is_wanted, claim_priority, is_repeated, rank, ranks_before,
}
use clideck_mcp.Pipeline.Tasks.Unblocked.{false_iff, text_is_iff}

-- A demand that is not published and does not wait for its context.
pub record IsWanting (id : ℕ) (d : Demand) : Type 0 where
  pub its_id : d.id ≡ id
  pub unpublished : d.status ≢ "published"
  pub has_context : d.last_error_code ≢ some "CONTEXT_REQUIRED"

abbrev pub IsWanted : List Demand → Option ℕ → Type 0
IsWanted demands none = Unit
IsWanted demands (some id) = (d : Demand) × In d demands × IsWanting id d

-- A task of an open demand, or of none in particular.
abbrev pub IsUrgent : List Demand → PipelineTask → Type 0
IsUrgent demands t = (t.queue_class ≡ "demand") × IsWanted demands t.knowledge_demand_id

-- A task of a demand for one source.
abbrev pub IsBound : PipelineTask → Type 0
IsBound t = (is_none t.knowledge_demand_id ≡ false) × (is_none t.source_candidate_id ≡ false)

-- The first key tells, or it does not tell the other way and the rest tells.
abbrev pub FirstBy : (ahead behind rest : Type 0) → Type 0
FirstBy ahead behind rest = ahead ⊎ ((¬ behind) × rest)

-- `a` comes before `b`: the urgent one, else the one of higher priority, else the one that does not
-- repeat a fruitless search, else the older one, else the one bound to a demand and a source.
abbrev pub Outranks : (no_evidence : String → Bool) → Store → PipelineTask → PipelineTask → Type 0
Outranks no_evidence db a b =
    FirstBy (IsUrgent db.demands a × (¬ (IsUrgent db.demands b)))
      (IsUrgent db.demands b × (¬ (IsUrgent db.demands a)))
      (FirstBy (ltb_ℤ (claim_priority b) (claim_priority a) ≡ true)
        (ltb_ℤ (claim_priority a) (claim_priority b) ≡ true)
        (FirstBy
          ((is_repeated no_evidence db.tasks a ≡ false)
            × (is_repeated no_evidence db.tasks b ≡ true))
          ((is_repeated no_evidence db.tasks b ≡ false)
            × (is_repeated no_evidence db.tasks a ≡ true))
          (FirstBy (a.created_at < b.created_at) (b.created_at < a.created_at)
            (IsBound a × (¬ (IsBound b))))))

wanting_parts :
    (a b c : Bool) → (a && not b && not c) ≡ true → (a ≡ true) × (b ≡ false) × (c ≡ false)
wanting_parts a b c h = ground arith

wanting_whole : (a b c : Bool) → a ≡ true → b ≡ false → c ≡ false → (a && not b && not c) ≡ true
wanting_whole a b c p q r = ground arith

IsWanting-iff : (id : ℕ) (d : Demand) → (wants_work id d ≡ true) ↔ IsWanting id d
IsWanting-iff id d = (from, to)
  where
    published_iff : (str_eq d.status "published" ≡ false) ↔ (¬ (d.status ≡ "published"))
    published_iff = false_iff (str_eq d.status "published") _ (str_eq_iff d.status "published")

    context_iff :
        (text_is d.last_error_code "CONTEXT_REQUIRED" ≡ false)
        ↔ (¬ (d.last_error_code ≡ some "CONTEXT_REQUIRED"))
    context_iff =
        false_iff (text_is d.last_error_code "CONTEXT_REQUIRED") _
          (text_is_iff d.last_error_code "CONTEXT_REQUIRED")

    from : wants_work id d ≡ true → IsWanting id d
    from h =
        let (a, b, c) =
          wanting_parts (d.id == id) (str_eq d.status "published")
            (text_is d.last_error_code "CONTEXT_REQUIRED") h in
        record {
          its_id = (==_iff d.id id).0 a;
          unpublished = published_iff.0 b;
          has_context = context_iff.0 c;
        }

    to : IsWanting id d → wants_work id d ≡ true
    to w =
        wanting_whole (d.id == id) (str_eq d.status "published")
          (text_is d.last_error_code "CONTEXT_REQUIRED") ((==_iff d.id id).1 w.its_id)
          (published_iff.1 w.unpublished) (context_iff.1 w.has_context)

IsWanted-iff :
    (demands : List Demand) (o : Option ℕ) → (is_wanted demands o ≡ true) ↔ IsWanted demands o
IsWanted-iff demands none = ((λ h. tt), (λ w. refl))
IsWanted-iff demands (some id) = (
  (λ h. let (d, i, w) = any-In (wants_work id) demands h in (d, i, (IsWanting-iff id d).0 w)),
  (λ (d, i, w). In-any (wants_work id) demands d i ((IsWanting-iff id d).1 w)),
)

-- The first key, and the last.
urgent : List Demand → PipelineTask → Bool
urgent demands t = str_eq t.queue_class "demand" && is_wanted demands t.knowledge_demand_id

IsUrgent-iff :
    (demands : List Demand) (t : PipelineTask) → (urgent demands t ≡ true) ↔ IsUrgent demands t
unfolding urgent
IsUrgent-iff demands t = (
  (λ h.
      let (a, b) = both (str_eq t.queue_class "demand") _ h in
      ((str_eq_iff t.queue_class "demand").0 a, (IsWanted-iff demands t.knowledge_demand_id).0 b)),
  (λ (a, b).
      join (str_eq t.queue_class "demand") _ ((str_eq_iff t.queue_class "demand").1 a)
        ((IsWanted-iff demands t.knowledge_demand_id).1 b)),
)
  where
    both : (a b : Bool) → (a && b) ≡ true → (a ≡ true) × (b ≡ true)
    both a b h = ground arith

    join : (a b : Bool) → a ≡ true → b ≡ true → (a && b) ≡ true
    join a b p q = ground arith

bound : PipelineTask → Bool
bound t = not (is_none t.knowledge_demand_id) && not (is_none t.source_candidate_id)

IsBound-iff : (t : PipelineTask) → (bound t ≡ true) ↔ IsBound t
unfolding bound
IsBound-iff t = ((λ h. (ground arith, ground arith)), (λ (a, b). ground arith))

first_by :
    (less more rest : Bool) (Ahead Behind Rest : Type 0)
    → (Ahead → less ≡ true)
    → ((¬ Behind) → more ≡ false)
    → (Rest → rest ≡ true)
    → FirstBy Ahead Behind Rest
    → then_by less more rest ≡ true
first_by less more rest Ahead Behind Rest p q r (inl a) = let e = p a in ground arith
first_by less more rest Ahead Behind Rest p q r (inr (b, c)) =
    let e = q b in let f = r c in ground arith

-- A key that is 0 where the test holds and 1 elsewhere.
zero_first :
    (a b : Bool) → a ≡ true → b ≡ false → ltb (if a then 0 else 1) (if b then 0 else 1) ≡ true
zero_first a b p q = rw (p, q) refl

not_zero_first :
    (a b : Bool)
    → (a ≡ true → b ≡ false → ⊥)
    → ltb (if a then 0 else 1) (if b then 0 else 1) ≡ false
not_zero_first true true h = refl
not_zero_first true false h = absurd (h refl refl)
not_zero_first false true h = refl
not_zero_first false false h = refl

not_one_first :
    (a b : Bool)
    → (a ≡ false → b ≡ true → ⊥)
    → ltb (if a then 1 else 0) (if b then 1 else 0) ≡ false
not_one_first true true h = refl
not_one_first true false h = refl
not_one_first false true h = absurd (h refl refl)
not_one_first false false h = refl

one_first :
    (a b : Bool) → a ≡ false → b ≡ true → ltb (if a then 1 else 0) (if b then 1 else 0) ≡ true
one_first a b p q = rw (p, q) refl

not_less : (b : Bool) → (¬ (b ≡ true)) → b ≡ false
not_less true h = absurd (h refl)
not_less false h = refl

module _ (no_evidence : String → Bool) (db : Store) (a b : PipelineTask) where
  urgent-false : (t : PipelineTask) → (urgent db.demands t ≡ false) ↔ (¬ (IsUrgent db.demands t))
  urgent-false t = false_iff (urgent db.demands t) _ (IsUrgent-iff db.demands t)

  bound-false : (t : PipelineTask) → (bound t ≡ false) ↔ (¬ (IsBound t))
  bound-false t = false_iff (bound t) _ (IsBound-iff t)

  pub Outranks-ranks_before : Outranks no_evidence db a b → ranks_before no_evidence db a b ≡ true
  unfolding rank urgent bound
  Outranks-ranks_before =
      first_by _ _ _ _ _ _
        (λ (u, v).
          zero_first (urgent db.demands a) (urgent db.demands b) ((IsUrgent-iff db.demands a).1 u)
            ((urgent-false b).1 v))
        (λ h.
          not_zero_first (urgent db.demands b) (urgent db.demands a)
            (λ u v. h ((IsUrgent-iff db.demands b).0 u, (urgent-false a).0 v)))
        (first_by _ _ _ _ _ _ (λ h. h) (λ h. not_less _ h)
          (first_by _ _ _ _ _ _
            (λ (p, q).
              one_first (is_repeated no_evidence db.tasks a) (is_repeated no_evidence db.tasks b) p
                q)
            (λ h.
              not_one_first (is_repeated no_evidence db.tasks b)
                (is_repeated no_evidence db.tasks a) (λ p q. h (p, q)))
            (first_by _ _ _ _ _ _ (λ h. ground arith) (λ h. later h)
              (λ (u, v).
                zero_first (bound a) (bound b) ((IsBound-iff a).1 u) ((bound-false b).1 v)))))
    where
      later : (¬ (b.created_at < a.created_at)) → ltb b.created_at a.created_at ≡ false
      later h = elim (Bool-cases (ltb b.created_at a.created_at)) [
        | inl less ↦ absurd (h (ground arith))
        | inr not_before ↦ not_before
      ]
