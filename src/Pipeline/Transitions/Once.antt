-- ===== src/Pipeline/Transitions/Once.antt =====
-- recordPipelineTransition of src/domain/pipeline-transitions.ts, called again and in a batch.
use clideck_mcp.Prelude.{
  ℕ, zero, suc, String, true, List, [], ◌∷◌, ◌++◌, ◌≡◌, refl, sym, ap, ◌∙◌, arith, All, Bool-cases,
  inl, inr, str_eq_iff,
}
use mathlib.Core.List.{append-nil, append_assoc}
use clideck_mcp.Prelude.Int.{ℤ, pos, negsuc}
use clideck_mcp.Pipeline.Transitions.{
  Transition, EventRow, EventTable, route_of, dedupe_key_of, allowed_routes, has_key, row_of,
  insert_event, Recorded, recorded, route_invalid, record_pipeline_transition, record_counted,
  continue, record_pipeline_transitions,
}

has_key-snoc : (rows : List EventRow) (r : EventRow) → has_key r.dedupe_key (rows ++ r ∷ []) ≡ true
unfolding has_key
has_key-snoc [] r = ground (arith, str_eq_iff r.dedupe_key r.dedupe_key)
has_key-snoc (s ∷ rows) r = ground (arith, has_key-snoc rows r)

has_key-append :
    (key : String) (rows added : List EventRow)
    → has_key key rows ≡ true
    → has_key key (rows ++ added) ≡ true
unfolding has_key
has_key-append key [] added h = cc
has_key-append key (s ∷ rows) added h = ground (arith, has_key-append key rows added)

has_key-insert_event :
    (now count : ℕ) (t : Transition) (table : EventTable)
    → has_key (dedupe_key_of t) (insert_event now count t table).rows ≡ true
has_key-insert_event now count t table = elim (Bool-cases (has_key (dedupe_key_of t) table.rows)) [
  | inl old ↦ unfold insert_event in rw (old, insert_event) old
  | inr new ↦
      unfold insert_event in
      rw (new, insert_event) (has_key-snoc table.rows (row_of now table.next_id count t))
]

insert_event_known :
    (now count : ℕ) (t : Transition) (table : EventTable)
    → has_key (dedupe_key_of t) table.rows ≡ true
    → (insert_event now count t table).rows ≡ table.rows
unfolding insert_event
insert_event_known now count t table old = rw old

-- The rows that a call leaves: what was there, with new rows behind it.
abbrev pub Extends : EventTable → EventTable → Type 0
Extends before after = (added : List EventRow) × (after.rows ≡ before.rows ++ added)

insert_event-Extends :
    (now count : ℕ) (t : Transition) (table : EventTable)
    → Extends table (insert_event now count t table)
insert_event-Extends now count t table = elim (Bool-cases (has_key (dedupe_key_of t) table.rows)) [
  | inl old ↦ ([], insert_event_known now count t table old ∙ sym (append-nil table.rows))
  | inr new ↦ (row_of now table.next_id count t ∷ [], unfold insert_event in rw (new, insert_event))
]

-- Recording the same transition again, at any later time, is accepted and adds no row: if the
-- first call returned a table, then the second returns one with the same rows.
record_twice :
    (now now' : ℕ) (t : Transition) (table table1 : EventTable)
    → record_pipeline_transition now t table ≡ recorded table1
    → (table2 : EventTable) × (record_pipeline_transition now' t table1 ≡ recorded table2)
      × (table2.rows ≡ table1.rows)
unfolding record_pipeline_transition
record_twice now now' t table table1 e = go t.count e
  where
    go :
        (c : ℤ)
        → record_counted now c t table ≡ recorded table1
        → (table2 : EventTable) × (record_counted now' c t table1 ≡ recorded table2)
          × (table2.rows ≡ table1.rows)
    go (negsuc n) h = (table1, refl, refl)
    go (pos zero) h = (table1, refl, refl)
    go (pos (suc n)) h = elim (Bool-cases (allowed_routes (route_of t))) [
      | inr bad ↦ absurd (ground arith)
      | inl ok ↦
          let same : insert_event now (suc n) t table ≡ table1 = ground arith in
          (
            insert_event now' (suc n) t table1,
            rw ok,
            insert_event_known now' (suc n) t table1
                (rw (← same) (has_key-insert_event now (suc n) t table)),
          )
    ]

-- `Number.isInteger(count) && count > 0`.
abbrev pub IsCounted : ℤ → Type 0
IsCounted (negsuc n) = ⊥
IsCounted (pos zero) = ⊥
IsCounted (pos (suc n)) = Unit

-- What a batch that returns has done for one of its transitions.
abbrev pub IsRecorded : EventTable → Transition → Type 0
IsRecorded table t = IsCounted t.count → has_key (dedupe_key_of t) table.rows ≡ true

Extends-trans : (a b c : EventTable) → Extends a b → Extends b c → Extends a c
Extends-trans a b c (xs, p) (ys, q) =
    (xs ++ ys, q ∙ ap (λ zs. zs ++ ys) p ∙ append_assoc a.rows xs ys)

IsRecorded-Extends :
    (a b : EventTable) (t : Transition) → Extends a b → IsRecorded a t → IsRecorded b t
IsRecorded-Extends a b t (added, e) h counted =
    rw e (has_key-append (dedupe_key_of t) a.rows added (h counted))

record_one :
    (now : ℕ) (t : Transition) (table table1 : EventTable)
    → record_pipeline_transition now t table ≡ recorded table1
    → Extends table table1 × IsRecorded table1 t
unfolding record_pipeline_transition
record_one now t table table1 e = go t.count e
  where
    unchanged : recorded table ≡ recorded table1 → Extends table table1
    unchanged h =
        let same : table ≡ table1 = cc in
        ([], ap (λ (x : EventTable). x.rows) (sym same) ∙ sym (append-nil table.rows))

    go :
        (c : ℤ)
        → record_counted now c t table ≡ recorded table1
        → Extends table table1 × (IsCounted c → has_key (dedupe_key_of t) table1.rows ≡ true)
    go (negsuc n) h = (unchanged h, λ no_count. absurd no_count)
    go (pos zero) h = (unchanged h, λ no_count. absurd no_count)
    go (pos (suc n)) h = elim (Bool-cases (allowed_routes (route_of t))) [
      | inr bad ↦ absurd (ground arith)
      | inl ok ↦
          let same : insert_event now (suc n) t table ≡ table1 = ground arith in
          rw (← same) (
            insert_event-Extends now (suc n) t table,
            λ _. has_key-insert_event now (suc n) t table,
          )
    ]

continue-recorded :
    (r : Recorded) (k : EventTable → Recorded) {table : EventTable}
    → continue r k ≡ recorded table
    → (table1 : EventTable) × (r ≡ recorded table1) × (k table1 ≡ recorded table)
continue-recorded (recorded table1) k e = (table1, refl, e)
continue-recorded (route_invalid route table1) k e = cc

-- A batch that returns has kept every row that was there, in front, and each of its transitions
-- with a positive count has a row with its dedupe key.
record_batch :
    (now : ℕ) (ts : List Transition) (table table' : EventTable)
    → record_pipeline_transitions now ts table ≡ recorded table'
    → Extends table table' × All (IsRecorded table') ts
unfolding record_pipeline_transitions
record_batch now [] table table' e =
    let same : table ≡ table' = cc in
    (([], ap (λ (x : EventTable). x.rows) (sym same) ∙ sym (append-nil table.rows)), tt)
record_batch now (t ∷ ts) table table' e =
    let (table1, first, rest) = continue-recorded _ _ e in
    let (kept, one) = record_one now t table table1 first in
    let (kept', others) = record_batch now ts table1 table' rest in
    (
      Extends-trans table table1 table' kept kept',
      (IsRecorded-Extends table1 table' t kept' one, others),
    )
