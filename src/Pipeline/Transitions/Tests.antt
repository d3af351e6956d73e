-- ===== src/Pipeline/Transitions/Tests.antt =====
-- Runs of the transition log, and its theorems at them.
use clideck_mcp.Prelude.{
  ◌≤◌, true, none, some, List, [], ◌∷◌, ◌++◌, map, ◌≡◌, refl, arith, length, ltb,
}
use clideck_mcp.Prelude.Int.{pos, negsuc}
use clideck_mcp.Pipeline.Transitions.{
  source_scope, record_scope, progress, Transition, EventTable, allowed_routes, has_key, row_of,
  insert_event, recorded, route_invalid, record_pipeline_transition, record_pipeline_transitions,
  rows_after, order_by_id, max_id, public_transition, list_pipeline_transitions,
}
use clideck_mcp.Pipeline.Transitions.Log.{IsLog, table_of, record_pipeline_transitions-IsLog}
use clideck_mcp.Pipeline.Transitions.Paging.{list_resumes}

-- What a run unfolds.
runs : Unit {0}
unfolding record_pipeline_transition record_pipeline_transitions insert_event has_key allowed_routes
    list_pipeline_transitions rows_after order_by_id max_id
runs = tt

abbrev acquire : Transition
acquire = record {
  scope = source_scope;
  from_stage = "discover";
  to_stage = "acquire";
  count = pos 1;
  kind = progress;
  task_id = "t1";
  dedupe_suffix = none;
}

abbrev ready : Transition
ready = record {
  scope = record_scope;
  from_stage = "analyze";
  to_stage = "ready";
  count = pos 7;
  kind = progress;
  task_id = "t2";
  dedupe_suffix = some "batch-1";
}

abbrev skipped : Transition
skipped = record ready { count = negsuc 0; to_stage = "nowhere" }

abbrev unknown_route : Transition
unknown_route = record ready { to_stage = "acquire" }

abbrev empty_table : EventTable
empty_table = record { rows = []; next_id = 1 }

abbrev batch : List Transition
batch = acquire ∷ skipped ∷ ready ∷ acquire ∷ []

abbrev batch_table : EventTable
batch_table = record { rows = row_of 9 1 1 acquire ∷ row_of 9 2 7 ready ∷ []; next_id = 4 }

-- The repeated transition adds no row, and takes an id all the same.
batch_run : record_pipeline_transitions 9 batch empty_table ≡ recorded batch_table
unfolding runs
batch_run = refl

route_run :
    record_pipeline_transitions 9 (unknown_route ∷ acquire ∷ []) empty_table
    ≡ route_invalid "record:analyze:acquire" empty_table
unfolding runs
route_run = refl

page_run : list_pipeline_transitions batch_table (some 0) 1 ≡ record {
  next_cursor = 1;
  has_more = true;
  transitions = public_transition (row_of 9 1 1 acquire) ∷ [];
}
unfolding runs
page_run = refl

empty-IsLog : IsLog empty_table
empty-IsLog = record {
  first = omega arith;
  ascending = tt;
  below = tt;
  distinct = tt;
  routed = tt;
  counted = tt;
}

batch-IsLog : IsLog batch_table
unfolding runs
batch-IsLog = record_pipeline_transitions-IsLog 9 batch empty_table empty-IsLog

record_pipeline_transitions-IsLog_example :
    IsLog (table_of (record_pipeline_transitions 9 batch empty_table))
record_pipeline_transitions-IsLog_example =
    record_pipeline_transitions-IsLog 9 batch empty_table empty-IsLog

list_resumes_example :
    ((list_pipeline_transitions batch_table (some 0) 1).transitions
        ++ map public_transition (
            rows_after
              (list_pipeline_transitions batch_table (some 0) 1).next_cursor
              batch_table.rows)
      ≡ map public_transition (rows_after 0 batch_table.rows))
    × (length (list_pipeline_transitions batch_table (some 0) 1).transitions ≤ 1)
    × ((list_pipeline_transitions batch_table (some 0) 1).has_more
        ≡ ltb 0 (
            length (
              rows_after
                (list_pipeline_transitions batch_table (some 0) 1).next_cursor
                batch_table.rows)))
list_resumes_example = list_resumes batch_table 0 1 batch-IsLog
