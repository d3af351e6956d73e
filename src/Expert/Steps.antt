-- ===== src/Expert/Steps.antt =====
-- The operations on expert tasks of src/domain/tasks.ts, researcher.ts and publication.ts as steps
-- between databases, with the statements by which the task queue of src/domain/pipeline.ts sets an
-- expert task, and the sequences of them in any interleaving. A row's id is fresh when it is
-- inserted (its column is the primary key). The load and the statement of continueExpertTask and of
-- cancelExpertTask are one step here; Races says what another transaction between them can do. No
-- steps are actOnExpertTask of src/domain/admin.ts and updateTaskStatus of
-- src/mcp/postgres-task-store.ts, which set the status of a row whatever it is.
pub mod Advances
pub mod Invariant
pub mod Operations
pub mod Updates
use clideck_mcp.Prelude.{
  ℕ, String, Bool, true, false, Option, none, some, List, [], ◌∷◌, ◌++◌, ◌≡◌, ◌≢◌, ◌<◌, refl, sym,
  ap, ◌∙◌, inl, inr, arith, All, All-append, Bool-cases, Option-cases, if◌then◌else◌,
}
use clideck_mcp.Expert.Store.{
  Status, TaskRow, Artifact, Db, Error, Result, is_terminal, is_leased, update_where, first_where,
  has_id, holds_lease, status_eq, input_required,
}
use clideck_mcp.Expert.Rows.{
  In, HasDistinctIds, Related, first_where-In, Related-refl, update_where-Related,
  update_by_id-Related, Related-trans,
}
use clideck_mcp.Expert.Lifecycle.{
  RowStep, claims, beats, asks, submits, fails, continues, cancels, reserves, completes, rejects,
  expires, recovers, requeues, RowPath, stays, goes, RowPath-id, RowPath-terminal, RowPath-trans,
  IsSound, RowStep-IsSound, RowPath-IsSound,
}
use clideck_mcp.Expert.Claims.{next_claimable-In}
use clideck_mcp.Expert.Researcher.{
  is_claimable, next_claimable, claim_research_task, claim_row, consumed, with_lease, heartbeat_row,
  input_row, submit_row, fail_row, heartbeat_research_task, request_research_input,
  submit_candidate_revision, fail_research_task, CodeChange, propose_code_change,
}
use clideck_mcp.Expert.Client.{
  PublicActor, load_authorized_task, continue_row, cancel_row, continue_expert_task,
  cancel_expert_task,
}
use clideck_mcp.Expert.Client.Create.{Request, Creation, created, refused, create_expert_task}
use clideck_mcp.Expert.Worker.{
  Publication, next_validating, in_status, reserve_row, publishing_lease, completed_row,
  rejected_row, publish_locked, is_overdue, expire_row, lease_expired, recover_row,
  publishing_expired, requeue_row, reserve_candidate, publish_candidate, run_worker_maintenance,
}
use clideck_mcp.Pipeline.Tasks.Claim.{lease_expert, queued_expert}
use clideck_mcp.Pipeline.Tasks.Recover.{return_expert, held_expert}
use clideck_mcp.Pipeline.Tasks.Lease.{pause_expert, renew_expert, has_expert_hash}
use clideck_mcp.Pipeline.Tasks.Fail.{fail_expert}

abbrev pub db_of : Creation → Db
db_of (created task db) = db
db_of (refused db) = db

abbrev pub IsFresh : ℕ → Db → Type 0
IsFresh id db = All (λ (r : TaskRow). r.id ≢ id) db.tasks

-- A statement on the table of tasks alone.
abbrev pub set_tasks : (TaskRow → Bool) → (TaskRow → TaskRow) → Db → Db
set_tasks test set db = record db { tasks = update_where test set db.tasks }

-- The steps whose names begin with `queue_` are the UPDATEs of expert_tasks in claimPipelineTask
-- (which the CHECK of the column `attempts` stops beyond ten), reconcileExpiredLeasesWithClient,
-- heartbeatPipelineTask and failPipelineTask.
pub data Step (sha256 derive_url_token : String → String) : Db → Db → Type 0 where
  creates :
      (now : ℕ) (hook_allows : Bool) (q : Request) (db : Db)
      → IsFresh q.row_id db
      → Step sha256 derive_url_token db
          (db_of (create_expert_task sha256 derive_url_token now hook_allows q db))
  continues_task :
      (now : ℕ) (actor : PublicActor) (public_id : String) (token : Option String)
      (message : String) (db : Db)
      → Step sha256 derive_url_token db
          (continue_expert_task sha256 now actor public_id token message db).1
  cancels_task :
      (now : ℕ) (actor : PublicActor) (public_id : String) (token : Option String) (db : Db)
      → Step sha256 derive_url_token db (cancel_expert_task sha256 now actor public_id token db).1
  claims_task :
      (now lease_seconds : ℕ) (locked : TaskRow → Bool) (researcher token : String) (db : Db)
      → Step sha256 derive_url_token db
          (claim_research_task sha256 now lease_seconds locked researcher token db).1
  beats_lease :
      (now lease_seconds : ℕ) (public_id token : String) (db : Db)
      → Step sha256 derive_url_token db
          (heartbeat_research_task sha256 now lease_seconds public_id token db).1
  asks_requester :
      (now : ℕ) (public_id token question : String) (db : Db)
      → Step sha256 derive_url_token db
          (request_research_input sha256 now public_id token question db).1
  submits_candidate :
      (now : ℕ) (public_id token serialized : String) (rejected : Option Error) (db : Db)
      → Step sha256 derive_url_token db
          (submit_candidate_revision sha256 now public_id token serialized rejected db).1
  fails_task :
      (now : ℕ) (public_id token code message : String) (db : Db)
      → Step sha256 derive_url_token db
          (fail_research_task sha256 now public_id token code message db).1
  proposes_change :
      (now : ℕ) (change : CodeChange) (db : Db)
      → Step sha256 derive_url_token db (propose_code_change now change db).1
  reserves_candidate :
      (now : ℕ) (locked : TaskRow → Bool) (db : Db)
      → Step sha256 derive_url_token db (reserve_candidate now locked db).1
  publishes_candidate :
      (now id : ℕ) (published : Option Publication) (blocking : Bool) (db : Db)
      → Step sha256 derive_url_token db (publish_candidate sha256 now id published blocking db)
  queue_claims :
      (now lease_until id : ℕ) (owner hash : String) (db : Db)
      → All (λ r. queued_expert id r ≡ true → r.attempts < 10) db.tasks
      → Step sha256 derive_url_token db
          (set_tasks (queued_expert id) (lease_expert now lease_until owner hash) db)
  queue_returns :
      (now id : ℕ) (exhausted : Bool) (db : Db)
      → Step sha256 derive_url_token db
          (set_tasks (held_expert id) (return_expert now exhausted) db)
  queue_pauses :
      (now id : ℕ) (db : Db)
      → Step sha256 derive_url_token db (set_tasks (held_expert id) (pause_expert now) db)
  queue_renews :
      (now lease_until id : ℕ) (hash : String) (db : Db)
      → Step sha256 derive_url_token db
          (set_tasks (has_expert_hash id hash) (renew_expert now lease_until) db)
  queue_fails :
      (now id : ℕ) (code message : String) (retrying : Bool) (db : Db)
      → Step sha256 derive_url_token db
          (set_tasks (held_expert id) (fail_expert now code message retrying) db)
  maintains : (now : ℕ) (db : Db) → Step sha256 derive_url_token db (run_worker_maintenance now db)

pub data Reach (sha256 derive_url_token : String → String) (db : Db) : Db → Type 0 where
  here : Reach sha256 derive_url_token db db
  next :
      {db' db'' : Db}
      → Reach sha256 derive_url_token db db'
      → Step sha256 derive_url_token db' db''
      → Reach sha256 derive_url_token db db''
