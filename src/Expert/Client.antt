-- ===== src/Expert/Client.antt =====
-- src/domain/tasks.ts: what a requester does with an expert task. The digest `sha256` is a
-- parameter; the generated public id, row id and random token are arguments.
pub mod Create
use clideck_mcp.Prelude.{
  ℕ, ◌+◌, ◌*◌, String, Bool, true, false, ◌&&◌, ◌||◌, not, Option, none, some, List, [], ◌∷◌, ◌++◌,
  map, ltb, ◌==◌, if◌then◌else◌, str_eq,
}
use Prim.Native.String
use clideck_mcp.Prelude.Int.{ℤ, pos}
use clideck_mcp.Expert.Store.{
  Status, claimed, input_required, expired, Stage, TaskRow, PublicEvent, client_to_researcher, Db,
  Result, ok, err, expert_task_not_found, expert_task_not_waiting_for_input, status_eq, is_terminal,
  text_is, update_where, first_where, has_id, add_event, add_message,
}

-- PublicActor of src/domain/auth.ts; the principal and the role play no part here.
pub data PublicActor : Type 0 where
  anonymous : PublicActor
  tenant : (tenant_id : String) → PublicActor

abbrev pub is_none : Option String → Bool
is_none none = true
is_none (some s) = false

-- `fallbackStage` of toPublicTaskStatus.
unfoldable pub fallback_stage : Status → Stage
fallback_stage claimed = Stage.researching
fallback_stage Status.researching = Stage.researching
fallback_stage input_required = Stage.researching
fallback_stage Status.validating = Stage.validating
fallback_stage Status.publishing = Stage.publishing
fallback_stage Status.completed = Stage.completed
fallback_stage Status.cancelled = Stage.cancelled
fallback_stage Status.failed = Stage.failed
fallback_stage expired = Stage.failed
fallback_stage Status.queued = Stage.queued

pub record Milestone : Type 0 where
  pub stage : Stage
  pub progress_percent : ℕ
  pub message : String
  pub created_at : ℕ

-- PublicTaskStatus. The answer is read from the knowledge tables: here it is the revision's id.
pub record PublicTaskStatus : Type 0 where
  pub task_id : String
  pub status : Status
  pub created_at : ℕ
  pub expires_at : ℕ
  pub input_request : Option String
  pub answer : Option String
  pub failure : Option (String × String)
  pub poll_after_ms : ℕ
  pub stage : Stage
  pub progress_percent : ℕ
  pub milestones : List Milestone

-- `row.failure_code && row.failure_message`; the empty text counts as none.
abbrev pub failure_of : Option String → Option String → Option (String × String)
failure_of (some code) (some message) =
    if str_eq code "" || str_eq message "" then none else some (code, message)
failure_of _ _ = none

abbrev pub poll_after : Status → ℕ
poll_after Status.queued = 3000
poll_after claimed = 3000
poll_after _ = 10000

abbrev pub fallback_progress : Stage → ℕ
fallback_progress Stage.completed = 100
fallback_progress Stage.queued = 5
fallback_progress _ = 50

-- `events.at(-1)`, with the fallbacks behind it.
abbrev pub last_stage : Stage → ℕ → List PublicEvent → Stage × ℕ
last_stage stage percent [] = (stage, percent)
last_stage stage percent (e ∷ es) = last_stage e.stage e.progress_percent es

abbrev pub milestone : PublicEvent → Milestone
milestone e = record {
  stage = e.stage;
  progress_percent = e.progress_percent;
  message = e.public_message;
  created_at = e.created_at;
}

unfoldable pub to_public_task_status : TaskRow → Option String → List PublicEvent → PublicTaskStatus
unfolding fallback_stage
to_public_task_status row answer events =
    let fallback = fallback_stage row.status in
    let (stage, percent) = last_stage fallback (fallback_progress fallback) events in
    record {
      task_id = row.public_id;
      status = row.status;
      created_at = row.created_at;
      expires_at = row.expires_at;
      input_request = row.input_request;
      answer = answer;
      failure = failure_of row.failure_code row.failure_message;
      poll_after_ms = poll_after row.status;
      stage = stage;
      progress_percent = percent;
      milestones = map milestone events;
    }

-- `WHERE task_id = $1 ORDER BY created_at, id`: the events of a task in the order of their
-- insertion, which is that of their times while the clock does not run back.
unfoldable pub events_of : ℕ → List PublicEvent → List PublicEvent
events_of id [] = []
events_of id (e ∷ es) = if e.task_id == id then e ∷ events_of id es else events_of id es

module _ (sha256 : String → String) where
  -- The WHERE clause of loadAuthorizedTask.
  abbrev pub may_see : PublicActor → Option String → TaskRow → Bool
  may_see (tenant tenant_id) access_token r = text_is r.tenant_id tenant_id
  may_see anonymous none r = false
  may_see anonymous (some token) r =
      not (str_eq token "") && is_none r.tenant_id && text_is r.access_token_hash (sha256 token)

  abbrev pub is_authorized : ℕ → PublicActor → String → Option String → TaskRow → Bool
  is_authorized now actor public_id access_token r =
      str_eq r.public_id public_id && ltb now r.expires_at && may_see actor access_token r

  unfoldable pub load_authorized_task :
      ℕ → PublicActor → (public_id : String) → (access_token : Option String) → Db → Option TaskRow
  load_authorized_task now actor public_id access_token db =
      first_where (is_authorized now actor public_id access_token) db.tasks

  abbrev pub presented : Db → Option TaskRow → Result PublicTaskStatus
  presented db none = err expert_task_not_found
  presented db (some row) =
      ok (to_public_task_status row row.result_revision_id (events_of row.id db.events))

  -- getExpertTask.
  unfoldable pub get_expert_task :
      ℕ
      → PublicActor
      → (public_id : String) → (access_token : Option String) → Db
      → Result PublicTaskStatus
  get_expert_task now actor public_id access_token db =
      presented db (load_authorized_task now actor public_id access_token db)

  abbrev pub continue_row : ℕ → TaskRow → TaskRow
  continue_row now r = record r { status = Status.queued; input_request = none; updated_at = now }

  -- The one statement of continueExpertTask, on the task that was loaded.
  unfoldable pub continue_write : ℕ → String → TaskRow → Db → Db
  continue_write now message task db =
      add_event now task.id Stage.queued 10 "Additional input received; task returned to the queue."
        (add_message now task.id client_to_researcher message
          (record db { tasks = update_where (has_id task.id) (continue_row now) db.tasks }))

  abbrev pub continue_loaded :
      ℕ
      → PublicActor
      → String
      → Option String
      → String
      → Db
      → Option TaskRow
      → Result PublicTaskStatus × Db
  continue_loaded now actor public_id access_token message db none = (err expert_task_not_found, db)
  continue_loaded now actor public_id access_token message db (some task) =
      let db' = continue_write now message task db in
      if status_eq task.status input_required
      then (get_expert_task now actor public_id access_token db', db')
      else (err expert_task_not_waiting_for_input, db)

  -- continueExpertTask.
  unfoldable pub continue_expert_task :
      ℕ
      → PublicActor
      → (public_id : String) → (access_token : Option String) → (message : String) → Db
      → Result PublicTaskStatus × Db
  unfolding continue_write
  continue_expert_task now actor public_id access_token message db =
      continue_loaded now actor public_id access_token message db
        (load_authorized_task now actor public_id access_token db)

  abbrev pub cancel_row : ℕ → TaskRow → TaskRow
  cancel_row now r = record r {
    status = Status.cancelled;
    lease_token_hash = none;
    lease_until = none;
    completed_at = some now;
    updated_at = now;
  }

  -- The one statement of cancelExpertTask, on the task that was loaded.
  unfoldable pub cancel_write : ℕ → TaskRow → Db → Db
  cancel_write now task db =
      add_event now task.id Stage.cancelled 100 "Research task cancelled by the requester."
        (record db { tasks = update_where (has_id task.id) (cancel_row now) db.tasks })

  abbrev pub cancel_loaded :
      ℕ → PublicActor → String → Option String → Db → Option TaskRow → Result PublicTaskStatus × Db
  cancel_loaded now actor public_id access_token db none = (err expert_task_not_found, db)
  cancel_loaded now actor public_id access_token db (some task) =
      let db' = cancel_write now task db in
      if is_terminal task.status
      then (ok (to_public_task_status task none []), db)
      else (get_expert_task now actor public_id access_token db', db')

  -- cancelExpertTask.
  unfoldable pub cancel_expert_task :
      ℕ
      → PublicActor
      → (public_id : String) → (access_token : Option String) → Db
      → Result PublicTaskStatus × Db
  unfolding cancel_write
  cancel_expert_task now actor public_id access_token db =
      cancel_loaded now actor public_id access_token db
        (load_authorized_task now actor public_id access_token db)
