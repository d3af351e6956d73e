-- ===== src/Pipeline/Transitions.antt =====
-- src/domain/pipeline-transitions.ts. The table `pipeline_transition_events` is the list of its
-- rows with the next value of its identity column; a bigint cursor is the number that it spells.
pub mod Log
pub mod Once
pub mod Paging
mod Tests
use clideck_mcp.Prelude.{
  ℕ, zero, suc, ◌+◌, ◌≤◌, ◌<◌, max, String, Bool, true, false, Option, none, some, List, [], ◌∷◌,
  ◌++◌, map, ltb, leb, if◌then◌else◌, length, take, any, join, includes, str_eq,
}
use clideck_mcp.Prelude.Int.{ℤ, pos, negsuc}

pub data TransitionScope : Type 0 where
  source_scope record_scope : TransitionScope

pub data TransitionKind : Type 0 where
  progress escalation retry terminal : TransitionKind

abbrev pub scope_text : TransitionScope → String
scope_text source_scope = "source"
scope_text record_scope = "record"

abbrev pub kind_text : TransitionKind → String
kind_text progress = "progress"
kind_text escalation = "escalation"
kind_text retry = "retry"
kind_text terminal = "terminal"

abbrev pub pipeline_transition_routes : List String
pipeline_transition_routes =
    "source:discover:acquire" ∷ "source:discover:analyze" ∷ "source:acquire:downloaded"
    ∷ "source:downloaded:convert" ∷ "source:convert:chunk" ∷ "source:chunk:analyze"
    ∷ "record:analyze:ready" ∷ "record:analyze:verify" ∷ "record:verify:ready"
    ∷ "record:verify:deep_low" ∷ "record:verify:rejected" ∷ "record:verify:conflict"
    ∷ "record:deep_low:ready" ∷ "record:deep_low:deep_medium" ∷ "record:deep_low:rejected"
    ∷ "record:deep_low:conflict" ∷ "record:deep_medium:ready" ∷ "record:deep_medium:rejected"
    ∷ "record:deep_medium:conflict" ∷ "record:deep_medium:quarantine"
    ∷ "record:deep_medium:manual_exception" ∷ "record:ready:publish" ∷ "record:ready:deep_low"
    ∷ "record:ready:deep_medium" ∷ []

pub allowed_routes : String → Bool
allowed_routes route = includes pipeline_transition_routes route

-- PipelineTransitionInput.
pub record Transition : Type 0 where
  pub scope : TransitionScope
  pub from_stage : String
  pub to_stage : String
  pub count : ℤ
  pub kind : TransitionKind
  pub task_id : String
  pub dedupe_suffix : Option String

pub record EventRow : Type 0 where
  pub id : ℕ
  pub scope : TransitionScope
  pub from_stage : String
  pub to_stage : String
  pub item_count : ℕ
  pub kind : TransitionKind
  pub pipeline_task_id : String
  pub dedupe_key : String
  pub occurred_at : ℕ

pub record EventTable : Type 0 where
  pub rows : List EventRow
  pub next_id : ℕ

abbrev pub route_of : Transition → String
route_of t = join ":" (scope_text t.scope ∷ t.from_stage ∷ t.to_stage ∷ [])

abbrev pub suffix_of : Option String → String
suffix_of none = "completion"
suffix_of (some s) = s

abbrev pub dedupe_key_of : Transition → String
dedupe_key_of t = join ":" (
    "transition"
    ∷ t.task_id
    ∷ t.from_stage
    ∷ t.to_stage
    ∷ kind_text t.kind
    ∷ suffix_of t.dedupe_suffix
    ∷ [])

pub has_key : String → List EventRow → Bool
has_key key rows = any (λ (r : EventRow). str_eq r.dedupe_key key) rows

abbrev pub row_of : ℕ → ℕ → ℕ → Transition → EventRow
row_of now id count t = record {
  id = id;
  scope = t.scope;
  from_stage = t.from_stage;
  to_stage = t.to_stage;
  item_count = count;
  kind = t.kind;
  pipeline_task_id = t.task_id;
  dedupe_key = dedupe_key_of t;
  occurred_at = now;
}

-- `INSERT … ON CONFLICT (dedupe_key) DO NOTHING`. The identity column moves on a conflict too.
pub insert_event : ℕ → ℕ → Transition → EventTable → EventTable
unfolding has_key
insert_event now count t table = record {
  rows =
      if has_key (dedupe_key_of t) table.rows
      then table.rows
      else table.rows ++ row_of now table.next_id count t ∷ [];
  next_id = table.next_id + 1;
}

-- The outcome of the function: it returns, or throws PIPELINE_TRANSITION_ROUTE_INVALID.
pub data Recorded : Type 0 where
  recorded : EventTable → Recorded
  route_invalid : String → EventTable → Recorded

abbrev pub continue : Recorded → (EventTable → Recorded) → Recorded
continue (recorded table) k = k table
continue (route_invalid route table) k = route_invalid route table

abbrev record_counted : ℕ → ℤ → Transition → EventTable → Recorded
record_counted now (negsuc n) t table = recorded table
record_counted now (pos zero) t table = recorded table
record_counted now (pos (suc n)) t table =
    if allowed_routes (route_of t)
    then recorded (insert_event now (suc n) t table)
    else route_invalid (route_of t) table

pub record_pipeline_transition : ℕ → Transition → EventTable → Recorded
record_pipeline_transition now t table = record_counted now t.count t table

-- `for (const transition of transitions)`, which a throw leaves.
pub record_pipeline_transitions : ℕ → List Transition → EventTable → Recorded
record_pipeline_transitions now [] table = recorded table
record_pipeline_transitions now (t ∷ ts) table =
    continue (record_pipeline_transition now t table) (record_pipeline_transitions now ts)

-- `WHERE id > $1`.
pub rows_after : ℕ → List EventRow → List EventRow
rows_after after [] = []
rows_after after (r ∷ rows) =
    if ltb after r.id then r ∷ rows_after after rows else rows_after after rows

-- `ORDER BY id`.
abbrev insert_by_id : EventRow → List EventRow → List EventRow
insert_by_id r [] = r ∷ []
insert_by_id r (s ∷ rows) = if leb r.id s.id then r ∷ s ∷ rows else s ∷ insert_by_id r rows

pub order_by_id : List EventRow → List EventRow
order_by_id [] = []
order_by_id (r ∷ rows) = insert_by_id r (order_by_id rows)

-- `coalesce(max(id), 0)`.
pub max_id : List EventRow → ℕ
max_id [] = 0
max_id (r ∷ rows) = max r.id (max_id rows)

-- A row as the caller sees it: all but the id and the columns that are not selected.
pub record PublicTransition : Type 0 where
  pub scope : TransitionScope
  pub from_stage : String
  pub to_stage : String
  pub count : ℕ
  pub kind : TransitionKind
  pub occurred_at : ℕ

abbrev pub public_transition : EventRow → PublicTransition
public_transition r = record {
  scope = r.scope;
  from_stage = r.from_stage;
  to_stage = r.to_stage;
  count = r.item_count;
  kind = r.kind;
  occurred_at = r.occurred_at;
}

pub record TransitionPage : Type 0 where
  pub next_cursor : ℕ
  pub has_more : Bool
  pub transitions : List PublicTransition

-- `page.at(-1)?.id ?? after`.
abbrev pub last_id : List EventRow → ℕ → ℕ
last_id [] after = after
last_id (r ∷ page) after = last_id page r.id

pub list_pipeline_transitions : EventTable → Option ℕ → ℕ → TransitionPage
list_pipeline_transitions table none limit = record {
  next_cursor = max_id table.rows;
  has_more = false;
  transitions = [];
}
list_pipeline_transitions table (some after) limit =
    let result = take (limit + 1) (order_by_id (rows_after after table.rows)) in
    let page = take limit result in
    record {
      next_cursor = last_id page after;
      has_more = ltb limit (length result);
      transitions = map public_transition page;
    }
