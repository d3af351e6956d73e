-- ===== src/Pipeline/Tasks/Select.antt =====
-- Which task a claim selects: the WHERE and ORDER BY clauses of claimPipelineTask and
-- claimMechanicalPipelineTask of src/domain/pipeline.ts.
use clideck_mcp.Prelude.{
  ℕ, String, Bool, true, false, ◌&&◌, ◌||◌, not, Option, none, some, List, ltb, leb, ◌==◌,
  if◌then◌else◌, str_eq, any,
}
use clideck_mcp.Prelude.Int.{ℤ, pos, ltb_ℤ}
use clideck_mcp.Prelude.Table.{best_row}
use clideck_mcp.Pipeline.Limits.{source_discovery, fragment_analysis}
use clideck_mcp.Pipeline.Tasks.Tables.{TaskStatus, PipelineTask, SourceFragment, Demand, Store}
use clideck_mcp.Pipeline.Tasks.Columns.{is_type, is_ai_task_type, is_queued, text_is, id_is}
use clideck_mcp.Pipeline.Tasks.Queue.{same_id}
use clideck_mcp.Pipeline.Tasks.Circuits.{claimable_execution, is_none}

-- The keys of the order, each smaller first but the priority.
pub record Rank : Type 0 where
  pub demand_class : ℕ
  pub priority : ℤ
  pub repeated : ℕ
  pub created_at : ℕ
  pub unbound : ℕ

abbrev pub then_by : (less more : Bool) → Bool → Bool
then_by less more rest = less || (not more && rest)

abbrev pub rank_before : Rank → Rank → Bool
rank_before a b = then_by (ltb a.demand_class b.demand_class) (ltb b.demand_class a.demand_class) (
    then_by (ltb_ℤ b.priority a.priority) (ltb_ℤ a.priority b.priority) (
      then_by (ltb a.repeated b.repeated) (ltb b.repeated a.repeated) (
        then_by (ltb a.created_at b.created_at) (ltb b.created_at a.created_at)
          (ltb a.unbound b.unbound))))

-- A demand that is still open.
abbrev pub wants_work : ℕ → Demand → Bool
wants_work id d =
    (d.id == id)
    && not (str_eq d.status "published")
    && not (text_is d.last_error_code "CONTEXT_REQUIRED")

abbrev pub is_wanted : List Demand → Option ℕ → Bool
is_wanted demands none = true
is_wanted demands (some id) = any (wants_work id) demands

abbrev pub demand_class : List Demand → PipelineTask → ℕ
demand_class demands t =
    if str_eq t.queue_class "demand" && is_wanted demands t.knowledge_demand_id then 0 else 1

abbrev same_priority : ℤ → ℕ → Bool
same_priority (pos n) m = n == m
same_priority _ m = false

-- claimPrioritySql.
unfoldable pub claim_priority : PipelineTask → ℤ
claim_priority t =
    if str_eq t.queue_class "demand" && same_priority t.priority 165 then pos 160 else t.priority

-- The last completed discovery of the same demand.
abbrev is_previous : PipelineTask → PipelineTask → Bool
is_previous t p =
    is_type t.task_type source_discovery
    && same_id p.knowledge_demand_id t.knowledge_demand_id
    && is_type p.task_type source_discovery
    && elim p.status as (λ _. Bool) [ TaskStatus.completed ↦ true | _ ↦ false ]

abbrev done_later : PipelineTask → PipelineTask → Bool
done_later p q = elim p.completed_at as (λ _. Bool) [
  | none ↦ not (is_none q.completed_at)
  | some a ↦ elim q.completed_at as (λ _. Bool) [ none ↦ false | some b ↦ ltb b a ]
]

-- Whether the discovery `p` brought nothing new: its result counts no inserted source, no reused
-- fragment and no reopened candidate. `no_evidence` reads these keys of the JSON text.
abbrev found_nothing : (String → Bool) → Option PipelineTask → Bool
found_nothing no_evidence none = false
found_nothing no_evidence (some p) = elim p.result as (λ _. Bool) [
  | none ↦ true
  | some r ↦ no_evidence r
]

abbrev pub is_repeated : (String → Bool) → List PipelineTask → PipelineTask → Bool
is_repeated no_evidence tasks t =
    is_type t.task_type source_discovery
    && found_nothing no_evidence (best_row (is_previous t) done_later tasks)

unfoldable pub rank : (String → Bool) → Store → PipelineTask → Rank
unfolding claim_priority best_row
rank no_evidence db t = record {
  demand_class = demand_class db.demands t;
  priority = claim_priority t;
  repeated = if is_repeated no_evidence db.tasks t then 1 else 0;
  created_at = t.created_at;
  unbound =
      if not (is_none t.knowledge_demand_id) && not (is_none t.source_candidate_id) then 0 else 1;
}

abbrev pub ranks_before : (String → Bool) → Store → PipelineTask → PipelineTask → Bool
ranks_before no_evidence db a b = rank_before (rank no_evidence db a) (rank no_evidence db b)

-- A fragment whose retry budget is spent.
abbrev pub spent_fragment : ℕ → SourceFragment → Bool
spent_fragment task_id f = id_is f.reservation_task_id task_id && leb 10 f.attempts

abbrev pub has_spent_fragment : Store → PipelineTask → Bool
has_spent_fragment db t =
    is_type t.task_type fragment_analysis && any (spent_fragment t.id) db.fragments

abbrev pub is_available : ℕ → PipelineTask → Bool
is_available now t = is_queued t.status && leb t.available_at now

-- The WHERE clause of claimPipelineTask, of rows that nobody has locked.
unfoldable pub is_selectable : (PipelineTask → Bool) → ℕ → Store → PipelineTask → Bool
is_selectable locked now db t =
    is_available now t
    && is_ai_task_type t.task_type
    && not (has_spent_fragment db t)
    && claimable_execution now db.profiles db.circuits t
    && not (locked t)

unfoldable pub next_ai_task :
    (String → Bool) → (PipelineTask → Bool) → ℕ → Store → Option PipelineTask
unfolding best_row rank is_selectable claimable_execution
next_ai_task no_evidence locked now db =
    best_row (is_selectable locked now db) (ranks_before no_evidence db) db.tasks

-- The selection of claimMechanicalPipelineTask.
abbrev pub is_mechanical : (PipelineTask → Bool) → ℕ → PipelineTask → Bool
is_mechanical locked now t =
    is_available now t && not (is_ai_task_type t.task_type) && not (locked t)

unfoldable pub mechanical_rank : Store → PipelineTask → Rank
unfolding claim_priority
mechanical_rank db t = record {
  demand_class = demand_class db.demands t;
  priority = claim_priority t;
  repeated = 0;
  created_at = t.created_at;
  unbound = 0;
}

abbrev pub mechanical_before : Store → PipelineTask → PipelineTask → Bool
mechanical_before db a b = rank_before (mechanical_rank db a) (mechanical_rank db b)

unfoldable pub next_mechanical_task : (PipelineTask → Bool) → ℕ → Store → Option PipelineTask
unfolding best_row mechanical_rank
next_mechanical_task locked now db =
    best_row (is_mechanical locked now) (mechanical_before db) db.tasks
