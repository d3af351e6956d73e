-- ===== src/Pipeline/Tasks/Mechanical.antt =====
-- claimMechanicalPipelineTask of src/domain/pipeline.ts: its transaction, after ensurePipelineWork.
use Prim.Native.String
use clideck_mcp.Prelude.{
  ℕ, ◌+◌, String, Bool, true, false, Option, none, some, ltb, ◌==◌, if◌then◌else◌,
}
use clideck_mcp.Prelude.Table.{update_rows}
use clideck_mcp.Pipeline.Limits.{
  TaskType, source_acquisition, source_conversion, source_chunking, source_publication,
}
use clideck_mcp.Pipeline.Tasks.Tables.{TaskStatus, PipelineTask, EventType, empty, Source, Store}
use clideck_mcp.Pipeline.Tasks.Queue.{task_event, has_task_id, concat3}
use clideck_mcp.Pipeline.Tasks.Lease.{stage_text}
use clideck_mcp.Pipeline.Tasks.Select.{next_mechanical_task}

-- sourceStatuses of claimMechanicalPipelineTask.
abbrev pub source_status : TaskType → Option String
source_status source_acquisition = some "acquiring"
source_status source_conversion = some "converting"
source_status source_chunking = some "chunking"
source_status source_publication = some "publishing"
source_status _ = none

unfoldable pub start_source : Option ℕ → Option String → Store → Store
start_source (some id) (some status) db = record db {
  sources = update_rows (λ s. s.id == id) (λ (s : Source). record s { status = status }) db.sources;
}
start_source _ _ db = db

-- The writes of claimMechanicalPipelineTask for the row that it selected. The payload is not set,
-- so the trigger does not fire.
unfoldable pub lease_mechanical_row :
    (now lease_until : ℕ) → (owner hash : String) → PipelineTask → PipelineTask
lease_mechanical_row now lease_until owner hash t = record t {
  status = TaskStatus.running;
  claim_owner = some owner;
  lease_token_hash = some hash;
  lease_until = some lease_until;
  heartbeat_at = some now;
  attempts = t.attempts + 1;
  updated_at = now;
}

pub data MechanicalClaim : Type 0 where
  nothing : MechanicalClaim
  started : PipelineTask → Store → MechanicalClaim
  check_violation : MechanicalClaim

abbrev pub start_mechanical :
    (sha256 : String → String) (now lease_seconds : ℕ) (worker token : String)
    → Store
    → Option PipelineTask
    → MechanicalClaim
start_mechanical sha256 now lease_seconds worker token db none = nothing
start_mechanical sha256 now lease_seconds worker token db (some t) =
    let row = lease_mechanical_row now (now + lease_seconds) worker (sha256 token) in
    if ltb 10 (t.attempts + 1)
    then check_violation
    else started t (
        task_event t EventType.started
          (concat3 worker " started deterministic " (String.◌++◌ (stage_text t.stage) " work."))
          empty
          (start_source t.source_candidate_id (source_status t.task_type)
            (record db { tasks = update_rows (has_task_id t.id) row db.tasks })))

abbrev pub start_enabled :
    (sha256 : String → String) (now lease_seconds : ℕ) (worker token : String)
    → Store
    → Option PipelineTask
    → Bool
    → MechanicalClaim
start_enabled sha256 now lease_seconds worker token db next true =
    start_mechanical sha256 now lease_seconds worker token db next
start_enabled sha256 now lease_seconds worker token db next false = nothing

-- claimMechanicalPipelineTask.
unfoldable pub claim_mechanical :
    (String → String)
    → (now lease_seconds : ℕ) → (PipelineTask → Bool)
    → (worker token : String) → Store
    → MechanicalClaim
unfolding lease_mechanical_row start_source
claim_mechanical sha256 now lease_seconds locked worker token db =
    start_enabled sha256 now lease_seconds worker token db (next_mechanical_task locked now db)
      db.settings.enabled
