-- ===== src/Expert/Store.antt =====
-- The tables that expert tasks live in: `expert_tasks`, `task_public_events`, `task_messages` and
-- `task_artifacts`, with the statements that the operations share. Times are seconds, a bytea hash
-- is a text, and `now()` is an argument of each operation.
use clideck_mcp.Prelude.{
  ℕ, String, Bool, true, false, ◌&&◌, Option, none, some, List, [], ◌∷◌, ◌++◌, ltb, leb, ◌==◌,
  if◌then◌else◌, str_eq,
}
use Prim.Native.String
use clideck_mcp.Prelude.Int.{ℤ}

-- TaskRow['status'].
pub data Status : Type 0 where
  queued claimed researching input_required validating publishing completed failed cancelled
        expired :
      Status

-- PublicTaskStatus['stage'].
pub data Stage : Type 0 where
  queued researching conflict_check validating publishing completed failed cancelled : Stage

pub record TaskRow : Type 0 where
  pub id : ℕ
  pub public_id : String
  pub access_token_hash : Option String
  pub tenant_id : Option String
  pub status : Status
  pub question : String
  pub network_context : String
  pub priority : ℤ
  pub attempts : ℕ
  pub claim_owner : Option String
  pub lease_token_hash : Option String
  pub lease_until : Option ℕ
  pub heartbeat_at : Option ℕ
  pub input_request : Option String
  pub result_revision_id : Option String
  pub failure_code : Option String
  pub failure_message : Option String
  pub expires_at : ℕ
  pub created_at : ℕ
  pub updated_at : ℕ
  pub completed_at : Option ℕ
  pub idempotency_scope_hash : Option String
  pub idempotency_key_hash : Option String

pub record PublicEvent : Type 0 where
  pub task_id : ℕ
  pub stage : Stage
  pub progress_percent : ℕ
  pub public_message : String
  pub created_at : ℕ

pub data Direction : Type 0 where
  client_to_researcher researcher_to_client : Direction

pub record Message : Type 0 where
  pub task_id : ℕ
  pub direction : Direction
  pub body : String
  pub created_at : ℕ

pub data ArtifactType : Type 0 where
  candidate_revision validation_report : ArtifactType

pub record Artifact : Type 0 where
  pub task_id : ℕ
  pub artifact_type : ArtifactType
  pub payload : String
  pub content_hash : String
  pub created_at : ℕ

-- code_change_approvals.
pub record Approval : Type 0 where
  pub task_id : Option ℕ
  pub repository : String
  pub summary : String
  pub proposed_diff : String
  pub risk_assessment : String
  pub requested_by : String
  pub created_at : ℕ

pub record Db : Type 0 where
  pub tasks : List TaskRow
  pub events : List PublicEvent
  pub messages : List Message
  pub artifacts : List Artifact
  pub approvals : List Approval

-- What an operation returns, or the error that it throws.
pub data Error : Type 0 where
  expert_task_not_found expert_task_not_waiting_for_input research_lease_invalid : Error
  candidate_invalid unsafe_provenance_url : Error

pub data Result (A : Type 0) : Type 0 where
  ok : A → Result A
  err : Error → Result A

abbrev pub status_eq : Status → Status → Bool
status_eq Status.queued Status.queued = true
status_eq claimed claimed = true
status_eq Status.researching Status.researching = true
status_eq input_required input_required = true
status_eq Status.validating Status.validating = true
status_eq Status.publishing Status.publishing = true
status_eq Status.completed Status.completed = true
status_eq Status.failed Status.failed = true
status_eq Status.cancelled Status.cancelled = true
status_eq expired expired = true
status_eq _ _ = false

-- `['completed', 'failed', 'cancelled', 'expired'].includes(status)`.
abbrev pub is_terminal : Status → Bool
is_terminal Status.completed = true
is_terminal Status.failed = true
is_terminal Status.cancelled = true
is_terminal expired = true
is_terminal _ = false

-- `status IN ('researching', 'claimed')`.
abbrev pub is_leased : Status → Bool
is_leased Status.researching = true
is_leased claimed = true
is_leased _ = false

-- SQL comparisons: NULL satisfies none of them.
abbrev pub text_is : Option String → String → Bool
text_is none s = false
text_is (some t) s = str_eq t s

abbrev pub time_after : Option ℕ → ℕ → Bool
time_after none now = false
time_after (some t) now = ltb now t

abbrev pub time_reached : Option ℕ → ℕ → Bool
time_reached none now = false
time_reached (some t) now = leb t now

-- `UPDATE expert_tasks SET … WHERE …`.
unfoldable pub update_where : (TaskRow → Bool) → (TaskRow → TaskRow) → List TaskRow → List TaskRow
update_where test set [] = []
update_where test set (r ∷ rows) = (if test r then set r else r) ∷ update_where test set rows

-- `RETURNING`: the first row that the statement touched, as it was.
unfoldable pub first_where : (TaskRow → Bool) → List TaskRow → Option TaskRow
first_where test [] = none
first_where test (r ∷ rows) = if test r then some r else first_where test rows

abbrev pub has_id : ℕ → TaskRow → Bool
has_id id r = r.id == id

-- `WHERE public_id = $1 AND lease_token_hash = $2 AND lease_until > now() AND status IN (…)`.
abbrev pub holds_lease : String → String → ℕ → TaskRow → Bool
holds_lease public_id token_hash now r =
    str_eq r.public_id public_id
    && text_is r.lease_token_hash token_hash
    && time_after r.lease_until now
    && is_leased r.status

-- `INSERT INTO task_public_events`.
abbrev pub add_event : ℕ → ℕ → Stage → ℕ → String → Db → Db
add_event now task_id stage percent message db = record db {
  events =
      db.events
      ++ record {
        task_id = task_id;
        stage = stage;
        progress_percent = percent;
        public_message = message;
        created_at = now;
      }
        ∷ [];
}

-- src/crypto.ts: a digest as bytes is the text of its hexadecimal digits.
abbrev pub sha256_label : (String → String) → String → String
sha256_label sha256 value = String.◌++◌ "sha256:" (sha256 value)

-- `INSERT INTO task_messages`.
abbrev pub add_message : ℕ → ℕ → Direction → String → Db → Db
add_message now task_id direction body db = record db {
  messages =
      db.messages
      ++ record { task_id = task_id; direction = direction; body = body; created_at = now } ∷ [];
}

-- `INSERT INTO task_artifacts`.
abbrev pub add_artifact : ℕ → ℕ → ArtifactType → String → String → Db → Db
add_artifact now task_id type payload hash db = record db {
  artifacts =
      db.artifacts
      ++ record {
        task_id = task_id;
        artifact_type = type;
        payload = payload;
        content_hash = hash;
        created_at = now;
      }
        ∷ [];
}
