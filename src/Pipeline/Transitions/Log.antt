-- ===== src/Pipeline/Transitions/Log.antt =====
-- The event table of src/domain/pipeline-transitions.ts as a log.
use clideck_mcp.Prelude.{
  ℕ, zero, suc, ◌+◌, ◌≤◌, ◌<◌, String, true, false, List, [], ◌∷◌, ◌++◌, ◌≡◌, ◌≢◌, arith, All,
  All-append, Bool-cases, inl, inr, str_eq_iff, join,
}
use clideck_mcp.Prelude.Int.{ℤ, pos, negsuc}
use clideck_mcp.Pipeline.Transitions.{
  scope_text, Transition, EventRow, EventTable, route_of, dedupe_key_of, allowed_routes, has_key,
  row_of, insert_event, Recorded, recorded, route_invalid, record_pipeline_transition,
  record_counted, continue, record_pipeline_transitions,
}

-- The ids rise, from `low` on.
abbrev pub IsAscending : ℕ → List EventRow → Type 0
IsAscending low [] = Unit
IsAscending low (r ∷ rows) = (low ≤ r.id) × IsAscending (suc r.id) rows

abbrev pub IsBelow : ℕ → List EventRow → Type 0
IsBelow high rows = All (λ (r : EventRow). r.id < high) rows

-- No two rows have a key in common.
abbrev pub HasDistinctKeys : List EventRow → Type 0
HasDistinctKeys [] = Unit
HasDistinctKeys (r ∷ rows) =
    All (λ (s : EventRow). s.dedupe_key ≢ r.dedupe_key) rows × HasDistinctKeys rows

abbrev pub row_route : EventRow → String
row_route r = join ":" (scope_text r.scope ∷ r.from_stage ∷ r.to_stage ∷ [])

-- The ids rise and lie below the next one, no key stands twice, every row's route is allowed and
-- counts something.
pub record IsLog (table : EventTable) : Type 0 where
  pub first : 1 ≤ table.next_id
  pub ascending : IsAscending 1 table.rows
  pub below : IsBelow table.next_id table.rows
  pub distinct : HasDistinctKeys table.rows
  pub routed : All (λ (r : EventRow). allowed_routes (row_route r) ≡ true) table.rows
  pub counted : All (λ (r : EventRow). 0 < r.item_count) table.rows

IsAscending-snoc :
    (low high : ℕ) (rows : List EventRow) (r : EventRow)
    → low ≤ high
    → IsAscending low rows
    → IsBelow high rows
    → high ≤ r.id
    → IsAscending low (rows ++ r ∷ [])
IsAscending-snoc low high [] r le a b h = omega arith
IsAscending-snoc low high (s ∷ rows) r le (p, a) (q, b) h =
    (p, IsAscending-snoc (suc s.id) high rows r q a b h)

IsBelow-weaken : (high : ℕ) (rows : List EventRow) → IsBelow high rows → IsBelow (high + 1) rows
IsBelow-weaken high [] b = tt
IsBelow-weaken high (r ∷ rows) (p, b) = (omega arith, IsBelow-weaken high rows b)

-- A row whose key is new.
HasDistinctKeys-snoc :
    (rows : List EventRow) (r : EventRow)
    → HasDistinctKeys rows
    → has_key r.dedupe_key rows ≡ false
    → HasDistinctKeys (rows ++ r ∷ [])
unfolding has_key
HasDistinctKeys-snoc [] r d h = (tt, tt)
HasDistinctKeys-snoc (s ∷ rows) r (p, d) h = (
  All-append (λ (q : EventRow). q.dedupe_key ≢ s.dedupe_key) rows (r ∷ []) p
      (ground (arith, str_eq_iff s.dedupe_key r.dedupe_key), tt),
  HasDistinctKeys-snoc rows r d (ground arith),
)

-- The table's own statement keeps the log, at an allowed route and a positive count.
insert_event-IsLog :
    (now count : ℕ) (t : Transition) (table : EventTable)
    → allowed_routes (route_of t) ≡ true
    → 0 < count
    → IsLog table
    → IsLog (insert_event now count t table)
unfolding insert_event
insert_event-IsLog now count t table ok positive log =
    elim (Bool-cases (has_key (dedupe_key_of t) table.rows)) [
      | inl old ↦
          rw (old, insert_event)
            (record {
              first = omega (arith, log.first);
              ascending = log.ascending;
              below = IsBelow-weaken table.next_id table.rows log.below;
              distinct = log.distinct;
              routed = log.routed;
              counted = log.counted;
            })
      | inr new ↦
          let r = row_of now table.next_id count t in
          rw (new, insert_event)
            (record {
              first = omega (arith, log.first);
              ascending =
                  IsAscending-snoc 1 table.next_id table.rows r log.first log.ascending log.below
                    (omega arith);
              below =
                  All-append (λ (q : EventRow). q.id < table.next_id + 1) table.rows (r ∷ [])
                    (IsBelow-weaken table.next_id table.rows log.below) (omega arith, tt);
              distinct = HasDistinctKeys-snoc table.rows r log.distinct new;
              routed =
                  All-append (λ (q : EventRow). allowed_routes (row_route q) ≡ true) table.rows
                    (r ∷ []) log.routed (ok, tt);
              counted =
                  All-append (λ (q : EventRow). 0 < q.item_count) table.rows (r ∷ []) log.counted
                    (positive, tt);
            })
    ]

-- The state that a call leaves, whether it returns or throws.
abbrev pub table_of : Recorded → EventTable
table_of (recorded table) = table
table_of (route_invalid route table) = table

record_pipeline_transition-IsLog :
    (now : ℕ) (t : Transition) (table : EventTable)
    → IsLog table
    → IsLog (table_of (record_pipeline_transition now t table))
unfolding record_pipeline_transition
record_pipeline_transition-IsLog now t table log = go t.count
  where
    go : (c : ℤ) → IsLog (table_of (record_counted now c t table))
    go (negsuc n) = log
    go (pos zero) = log
    go (pos (suc n)) = elim (Bool-cases (allowed_routes (route_of t))) [
      | inl ok ↦ rw ok (insert_event-IsLog now (suc n) t table ok (omega arith) log)
      | inr bad ↦ rw bad log
    ]

-- Recording any batch in a log, at whatever time, leaves a log, also where an invalid route stops
-- the batch: the ids rise and lie below the next one, every dedupe key stands once, and every row
-- has an allowed route and a positive count.
pub record_pipeline_transitions-IsLog :
    (now : ℕ) (ts : List Transition) (table : EventTable)
    → IsLog table
    → IsLog (table_of (record_pipeline_transitions now ts table))
unfolding record_pipeline_transitions
record_pipeline_transitions-IsLog now [] table log = log
record_pipeline_transitions-IsLog now (t ∷ ts) table log =
    let one = record_pipeline_transition-IsLog now t table log in
    go (record_pipeline_transition now t table) (record_pipeline_transitions-IsLog now ts) one
  where
    go :
        (r : Recorded)
        → ((table' : EventTable)
            → IsLog table'
            → IsLog (table_of (record_pipeline_transitions now ts table')))
        → IsLog (table_of r)
        → IsLog (table_of (continue r (record_pipeline_transitions now ts)))
    go (recorded table') more h = more table' h
    go (route_invalid route table') more h = h
