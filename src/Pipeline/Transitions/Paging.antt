-- ===== src/Pipeline/Transitions/Paging.antt =====
-- Reading the log page by page.
use clideck_mcp.Prelude.{
  ℕ, zero, suc, ◌+◌, ◌≤◌, ◌<◌, none, some, List, [], ◌∷◌, ◌++◌, map, ◌≡◌, refl, sym, ap, ◌∙◌, arith,
  Bool-cases, inl, inr, if_both, ltb→lt, ltb, length, take, drop, max, length-take, length-drop,
  length-map, take-take-suc, take-append-drop,
}
use mathlib.Core.List.{map-append}
use native.Mathlib.Numerals.{add-one}
use clideck_mcp.Pipeline.Transitions.{
  EventRow, EventTable, rows_after, order_by_id, max_id, public_transition, last_id,
  list_pipeline_transitions,
}
use clideck_mcp.Pipeline.Transitions.Log.{IsAscending, IsLog}

-- In a log the rows already stand in the order of their ids.
order_by_id_ascending :
    (low : ℕ) (rows : List EventRow) → IsAscending low rows → order_by_id rows ≡ rows
unfolding order_by_id
order_by_id_ascending low [] a = refl
order_by_id_ascending low (r ∷ []) a = refl
order_by_id_ascending low (r ∷ s ∷ rows) (p, (q, a)) =
    rw (order_by_id_ascending (suc r.id) (s ∷ rows) (q, a)) (ground arith)

IsAscending-weaken :
    (low high : ℕ) (rows : List EventRow)
    → low ≤ high
    → IsAscending high rows
    → IsAscending low rows
IsAscending-weaken low high [] h a = tt
IsAscending-weaken low high (r ∷ rows) h (p, a) = (omega arith, a)

rows_after-IsAscending :
    (after low : ℕ) (rows : List EventRow)
    → IsAscending low rows
    → IsAscending low (rows_after after rows)
unfolding rows_after
rows_after-IsAscending after low [] a = tt
rows_after-IsAscending after low (r ∷ rows) (p, a) =
    let rest = rows_after-IsAscending after (suc r.id) rows a in
    if_both (IsAscending low) (ltb after r.id) _ _ (p, rest)
      (IsAscending-weaken low (suc r.id) _ (omega arith) rest)

-- The rows behind a cursor are behind it, in their order.
rows_after-low :
    (after low : ℕ) (rows : List EventRow)
    → IsAscending low rows
    → IsAscending (suc after) (rows_after after rows)
unfolding rows_after
rows_after-low after low [] a = tt
rows_after-low after low (r ∷ rows) (p, a) = elim (Bool-cases (ltb after r.id)) [
  | inl behind ↦
      rw behind (ltb→lt after r.id behind, rows_after-IsAscending after (suc r.id) rows a)
  | inr before ↦ rw before (rows_after-low after (suc r.id) rows a)
]

-- Where every row lies behind the cursor already.
rows_after_all :
    (after low : ℕ) (rows : List EventRow)
    → after < low
    → IsAscending low rows
    → rows_after after rows ≡ rows
unfolding rows_after
rows_after_all after low [] h a = refl
rows_after_all after low (r ∷ rows) h (p, a) = ground (arith, rows_after_all after (suc r.id) rows)

-- A later cursor need not look at what an earlier one has passed.
rows_after-rows_after :
    (after later : ℕ) (rows : List EventRow)
    → after ≤ later
    → rows_after later (rows_after after rows) ≡ rows_after later rows
unfolding rows_after
rows_after-rows_after after later [] h = refl
rows_after-rows_after after later (r ∷ rows) h =
    ground (arith, rows_after-rows_after after later rows)

last_id-ge :
    (n after : ℕ) (rows : List EventRow)
    → IsAscending (suc after) rows
    → after ≤ last_id (take n rows) after
last_id-ge zero after rows a = omega arith
last_id-ge (suc n) after [] a = omega arith
last_id-ge (suc n) after (r ∷ rows) (p, a) = omega (arith, last_id-ge n r.id rows a)

rows_after_skip :
    (after : ℕ) (r : EventRow) (rows : List EventRow)
    → r.id ≤ after
    → rows_after after (r ∷ rows) ≡ rows_after after rows
unfolding rows_after
rows_after_skip after r rows h = ground arith

-- What follows the last row of a page is what the page left.
rows_after-last_id :
    (n after : ℕ) (rows : List EventRow)
    → IsAscending (suc after) rows
    → rows_after (last_id (take n rows) after) rows ≡ drop n rows
rows_after-last_id zero after rows a = rows_after_all after (suc after) rows (omega arith) a
rows_after-last_id (suc n) after [] a = unfold rows_after in refl
rows_after-last_id (suc n) after (r ∷ rows) (p, a) =
    rw (rows_after_skip (last_id (take n rows) r.id) r rows (last_id-ge n r.id rows a))
      (rows_after-last_id n r.id rows a)

-- The rows of a page, without the detour over one row more.
page_rows :
    (after limit : ℕ) (table : EventTable)
    → IsLog table
    → take limit (take (limit + 1) (order_by_id (rows_after after table.rows)))
      ≡ take limit (rows_after after table.rows)
page_rows after limit table log =
    rw
      (order_by_id_ascending 1 (rows_after after table.rows)
        (rows_after-IsAscending after 1 table.rows log.ascending))
      (rw add-one (take-take-suc limit (rows_after after table.rows)))

-- What lies behind a page's next cursor.
rest_rows :
    (after limit : ℕ) (table : EventTable)
    → IsLog table
    → rows_after (last_id (take limit (rows_after after table.rows)) after) table.rows
      ≡ drop limit (rows_after after table.rows)
rest_rows after limit table log =
    let behind = rows_after-low after 1 table.rows log.ascending in
    sym (
      rows_after-rows_after after _ table.rows
        (last_id-ge limit after (rows_after after table.rows) behind))
    ∙ rows_after-last_id limit after (rows_after after table.rows) behind

-- The one row more is there exactly if rows are left.
more_rows :
    {A : Type 0} (limit : ℕ) (rows : List A)
    → ltb limit (length (take (limit + 1) rows)) ≡ ltb 0 (length (drop limit rows))
more_rows limit rows = ground (arith, length-take (limit + 1) rows, length-drop limit rows)

map-take-drop :
    {A B : Type 0} (f : A → B) (n : ℕ) (xs : List A)
    → map f (take n xs) ++ map f (drop n xs) ≡ map f xs
map-take-drop f n xs = rw (← map-append) (ap (map f) (take-append-drop n xs))

-- A page of a log and the events behind its next cursor are together exactly the events behind the
-- cursor that was asked for, in order: none is lost and none comes twice. The page has at most
-- `limit` events, and `has_more` says exactly whether events are left.
pub list_resumes :
    (table : EventTable) (after limit : ℕ)
    → IsLog table
    → ((list_pipeline_transitions table (some after) limit).transitions
          ++ map public_transition (
              rows_after
                (list_pipeline_transitions table (some after) limit).next_cursor
                table.rows)
        ≡ map public_transition (rows_after after table.rows))
      × (length (list_pipeline_transitions table (some after) limit).transitions ≤ limit)
      × ((list_pipeline_transitions table (some after) limit).has_more
          ≡ ltb 0 (
              length (
                rows_after
                  (list_pipeline_transitions table (some after) limit).next_cursor
                  table.rows)))
unfolding list_pipeline_transitions
list_resumes table after limit log =
    let all = rows_after after table.rows in
    let ordered =
      order_by_id_ascending 1 all (rows_after-IsAscending after 1 table.rows log.ascending) in
    rw (page_rows after limit table log, rest_rows after limit table log, ordered)
      (
        map-take-drop public_transition limit all,
        omega (arith, length-map public_transition (take limit all), length-take limit all),
        more_rows limit all,
      )

rows_after-append :
    (after : ℕ) (xs ys : List EventRow)
    → rows_after after (xs ++ ys) ≡ rows_after after xs ++ rows_after after ys
unfolding rows_after
rows_after-append after [] ys = refl
rows_after-append after (x ∷ xs) ys = ground (arith, rows_after-append after xs ys)

rows_after-max_id :
    (k after : ℕ) (rows : List EventRow) → max k (max_id rows) ≤ after → rows_after after rows ≡ []
unfolding rows_after max_id
rows_after-max_id k after [] h = refl
rows_after-max_id k after (r ∷ rows) h = ground (arith, rows_after-max_id r.id after rows)

-- In a log, what follows some rows lies behind the greatest of their ids.
IsAscending-max_id :
    (k : ℕ) (rows added : List EventRow)
    → IsAscending (suc k) (rows ++ added)
    → IsAscending (suc (max k (max_id rows))) added
unfolding max_id
IsAscending-max_id k [] added a = IsAscending-weaken _ (suc k) added (omega arith) a
IsAscending-max_id k (r ∷ rows) added (p, a) =
    IsAscending-weaken _ _ added (omega arith) (IsAscending-max_id r.id rows added a)

-- A reader that asks without a cursor gets no event and the cursor of the log's end: when the log
-- has grown, the events behind that cursor are exactly the added ones.
list_from_now :
    (table grown : EventTable) (added : List EventRow) (limit : ℕ)
    → IsLog grown
    → grown.rows ≡ table.rows ++ added
    → ((list_pipeline_transitions table none limit).transitions ≡ [])
      × (rows_after (list_pipeline_transitions table none limit).next_cursor grown.rows ≡ added)
unfolding list_pipeline_transitions
list_from_now table grown added limit log e =
    let behind = IsAscending-max_id 0 table.rows added (rw e at log.ascending) in
    (
      refl,
      rw
          (
            e,
            rows_after-append (max_id table.rows) table.rows added,
            rows_after-max_id 0 (max_id table.rows) table.rows (omega arith),
          )
          (rows_after_all (max_id table.rows) _ added (omega arith) behind),
    )
