-- ===== src/Expert/Client/Create.antt =====
-- createExpertTask of src/domain/tasks.ts. The generated ids, the random access token and the key
-- digest `derive_url_token` (src/crypto.ts, an HMAC) are arguments. The caller's hook
-- `beforeCreate` counts against a quota of its own tables: here it only can refuse, by throwing.
use clideck_mcp.Prelude.{
  ℕ, ◌+◌, ◌*◌, String, Bool, true, false, ◌&&◌, Option, none, some, [], ◌∷◌, ◌++◌, if◌then◌else◌,
  str_eq,
}
use Prim.Native.String
use clideck_mcp.Prelude.Int.{pos}
use clideck_mcp.Expert.Store.{Status, Stage, TaskRow, Db, text_is, first_where, add_event}
use clideck_mcp.Expert.Client.{
  PublicActor, anonymous, tenant, PublicTaskStatus, to_public_task_status, events_of,
}

-- An idempotency key; the empty text counts as none.
abbrev pub key_given : Option String → Option String
key_given none = none
key_given (some key) = if str_eq key "" then none else some key

abbrev scope_default : PublicActor → Option String → String
scope_default actor (some scope) = scope
scope_default anonymous none = "anonymous"
scope_default (tenant tenant_id) none = tenant_id

abbrev scope_or_anonymous : Option String → String
scope_or_anonymous none = "anonymous"
scope_or_anonymous (some scope) = scope

pub record Request : Type 0 where
  pub actor : PublicActor
  pub question : String
  pub network_context : String
  pub idempotency_key : Option String
  pub idempotency_scope : Option String
  pub ttl_minutes : ℕ
  pub public_id : String
  pub row_id : ℕ
  pub random_token : String

-- A task, and the access token that an anonymous caller gets with it.
pub record Created : Type 0 where
  pub task : PublicTaskStatus
  pub access_token : Option String

pub data Creation : Type 0 where
  created : Created → Db → Creation
  refused : Db → Creation

-- `WHERE idempotency_scope_hash = $1 AND idempotency_key_hash = $2`.
abbrev pub has_key : String → String → TaskRow → Bool
has_key scope_hash key_hash r =
    text_is r.idempotency_scope_hash scope_hash && text_is r.idempotency_key_hash key_hash

module _ (sha256 : String → String) (derive_url_token : String → String) where
  abbrev pub scope_hash : Request → String
  scope_hash q = sha256 (scope_default q.actor q.idempotency_scope)

  abbrev pub token_for : Request → PublicActor → Option String → Option String
  token_for q (tenant tenant_id) key = none
  token_for q anonymous none = some q.random_token
  token_for q anonymous (some key) = some (
      derive_url_token (
        String.◌++◌ "expert-access:"
          (String.◌++◌ (scope_or_anonymous q.idempotency_scope) (String.◌++◌ ":" key))))

  abbrev hash_given : Option String → Option String
  hash_given none = none
  hash_given (some text) = some (sha256 text)

  abbrev tenant_of : PublicActor → Option String
  tenant_of anonymous = none
  tenant_of (tenant tenant_id) = some tenant_id

  abbrev scope_hash_given : Request → Option String → Option String
  scope_hash_given q none = none
  scope_hash_given q (some key) = some (scope_hash q)

  abbrev pub new_row : ℕ → Request → Option String → TaskRow
  new_row now q key = record {
    id = q.row_id;
    public_id = q.public_id;
    access_token_hash = hash_given (token_for q q.actor key);
    tenant_id = tenant_of q.actor;
    status = Status.queued;
    question = q.question;
    network_context = q.network_context;
    priority = pos 0;
    attempts = 0;
    claim_owner = none;
    lease_token_hash = none;
    lease_until = none;
    heartbeat_at = none;
    input_request = none;
    result_revision_id = none;
    failure_code = none;
    failure_message = none;
    expires_at = now + 60 * q.ttl_minutes;
    created_at = now;
    updated_at = now;
    completed_at = none;
    idempotency_scope_hash = scope_hash_given q key;
    idempotency_key_hash = hash_given key;
  }

  -- The row and its first event, written after the hook has let the request through.
  abbrev pub insert_new : ℕ → Request → Option String → Db → Creation
  insert_new now q key db =
      let row = new_row now q key in
      let status = to_public_task_status row none [] in
      created
        (record {
          task = record status {
            progress_percent = 5;
            milestones =
                record {
                  stage = Stage.queued;
                  progress_percent = 5;
                  message = "Research task queued for deterministic review.";
                  created_at = now;
                }
                ∷ [];
          };
          access_token = token_for q q.actor key;
        })
        (add_event now row.id Stage.queued 5 "Research task queued for deterministic review."
          (record db { tasks = db.tasks ++ row ∷ [] }))

  abbrev pub guarded : (hook_allows : Bool) → Creation → Db → Creation
  guarded true made db = made
  guarded false made db = refused db

  -- With a key, a row that has it is presented again, and nothing is written.
  abbrev pub found_or_new : ℕ → Bool → Request → String → Db → Option TaskRow → Creation
  found_or_new now hook_allows q key db none =
      guarded hook_allows (insert_new now q (some key) db) db
  found_or_new now hook_allows q key db (some row) =
      created
        (record {
          task = to_public_task_status row none (events_of row.id db.events);
          access_token = token_for q q.actor (some key);
        })
        db

  abbrev pub create_with : ℕ → Bool → Request → Db → Option String → Creation
  create_with now hook_allows q db none = guarded hook_allows (insert_new now q none db) db
  create_with now hook_allows q db (some key) =
      found_or_new now hook_allows q key db
        (first_where (has_key (scope_hash q) (sha256 key)) db.tasks)

  -- createExpertTask. The advisory lock on the key keeps two creations with one key apart, so the
  -- INSERT's own conflict clause meets no row.
  unfoldable pub create_expert_task : ℕ → (hook_allows : Bool) → Request → Db → Creation
  create_expert_task now hook_allows q db =
      create_with now hook_allows q db (key_given q.idempotency_key)
