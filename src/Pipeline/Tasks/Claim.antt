-- ===== src/Pipeline/Tasks/Claim.antt =====
-- What claimPipelineTask of src/domain/pipeline.ts sets beside the task: the expert task, the demand
-- and the fragments, and what it reports of an idle executor.
use clideck_mcp.Prelude.{
  ℕ, ◌+◌, String, Bool, false, ◌&&◌, ◌||◌, not, Option, none, some, List, [], ◌∷◌, ltb, ◌==◌,
  if◌then◌else◌, str_eq, any,
}
use clideck_mcp.Prelude.Table.{update_rows}
use clideck_mcp.Expert.Store.{TaskRow, PublicEvent}
use clideck_mcp.Expert.Store as Expert
use clideck_mcp.Pipeline.Limits.{demand_diagnosis, fragment_analysis}
use clideck_mcp.Pipeline.Tasks.Tables.{
  PipelineTask, SourceFragment, Demand, Circuit, Field, text, Store,
}
use clideck_mcp.Pipeline.Tasks.Columns.{is_type, id_is}
use clideck_mcp.Pipeline.Tasks.Recover.{when}
use clideck_mcp.Pipeline.Tasks.Circuits.{is_none}
use clideck_mcp.Pipeline.Tasks.Choice.{Reply, circuit_open, work_in_progress, scheduler_refill}

-- The UPDATE of expert_tasks.
abbrev pub lease_expert : (now lease_until : ℕ) → (owner hash : String) → TaskRow → TaskRow
lease_expert now lease_until owner hash e = record e {
  status = Expert.Status.researching;
  claim_owner = some owner;
  lease_token_hash = some hash;
  lease_until = some lease_until;
  heartbeat_at = some now;
  attempts = e.attempts + 1;
  updated_at = now;
}

abbrev pub queued_expert : ℕ → TaskRow → Bool
queued_expert id e = (e.id == id) && Expert.status_eq e.status Expert.Status.queued

-- The CHECK of expert_tasks: no more than ten attempts.
abbrev pub spent_expert : Option ℕ → List TaskRow → Bool
spent_expert none experts = false
spent_expert (some id) experts = any (λ e. queued_expert id e && ltb 10 (e.attempts + 1)) experts

abbrev pub open_demand : ℕ → Demand → Bool
open_demand id d = (d.id == id) && not (str_eq d.status "published")

abbrev pub start_diagnosis : ℕ → ℕ → Demand → Demand
start_diagnosis now task_id d = record d {
  status = "diagnosing";
  diagnosis_status = "running";
  diagnosis_task_id = some task_id;
  last_seen_at = now;
}

abbrev pub set_diagnosing : ℕ → ℕ → ℕ → Store → Store
set_diagnosing now task_id demand db = record db {
  demands = update_rows (open_demand demand) (start_diagnosis now task_id) db.demands;
}

abbrev pub diagnose_demand : ℕ → PipelineTask → Option ℕ → Store → Store
diagnose_demand now t none db = db
diagnose_demand now t (some demand) db =
    when (is_type t.task_type demand_diagnosis) (set_diagnosing now t.id demand) db

abbrev pub in_list : ℕ → List ℕ → Bool
in_list n [] = false
in_list n (m ∷ ms) = m == n || in_list n ms

abbrev pub reserved_fragment : List ℕ → ℕ → SourceFragment → Bool
reserved_fragment ids task_id f =
    in_list f.id ids && str_eq f.status "reserved" && id_is f.reservation_task_id task_id

abbrev pub start_fragment : SourceFragment → SourceFragment
start_fragment f = record f { status = "analyzing"; attempts = f.attempts + 1 }

abbrev pub set_analyzing : PipelineTask → Store → Store
set_analyzing t db = record db {
  fragments = update_rows (reserved_fragment t.payload.fragments t.id) start_fragment db.fragments;
}

abbrev pub start_fragments : PipelineTask → Store → Store
start_fragments t db = when (is_type t.task_type fragment_analysis) (set_analyzing t) db

-- The fields of an idle executor's heartbeat.
abbrev pub standby : String → List (String × Field)
standby reason = ("status", text "standby") ∷ ("reason", text reason) ∷ []

-- The first circuit that holds a model back, and the work that a claim would wait for.
abbrev pub waits : ℕ → Circuit → Bool
waits now c = ltb now c.open_until || not (is_none c.probe_executor_id)

abbrev pub idle_state : Bool → Bool → Reply
idle_state blocked working =
    if blocked then circuit_open else if working then work_in_progress else scheduler_refill

abbrev pub idle_reason : Bool → Bool → String
idle_reason blocked working =
    if blocked
    then "circuit_cooldown"
    else if working
    then "deterministic_work_in_progress"
    else "scheduler_refill"
