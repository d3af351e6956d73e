-- ===== src/Expert/Researcher.antt =====
-- src/domain/researcher.ts: how a researcher claims a task and gives it back. The digest `sha256`
-- is a parameter; random tokens are arguments. A row that another transaction has locked is
-- skipped (SKIP LOCKED), so the set of locked rows is an argument of a claim.
use clideck_mcp.Prelude.{
  ℕ, ◌+◌, String, Bool, ◌&&◌, ◌||◌, not, Option, none, some, List, [], ◌∷◌, ltb, ◌==◌, ◌++◌,
  if◌then◌else◌, take, str_eq,
}
use clideck_mcp.Prelude.Int.{ltb_ℤ}
use clideck_mcp.Expert.Store.{
  Status, input_required, Stage, TaskRow, Message, researcher_to_client, candidate_revision, Db,
  Error, Result, ok, err, research_lease_invalid, expert_task_not_found, Approval, sha256_label,
  status_eq, update_where, first_where, has_id, holds_lease, add_event, add_message, add_artifact,
}

-- The WHERE clause of a claim.
abbrev pub is_claimable : ℕ → TaskRow → Bool
is_claimable now r = status_eq r.status Status.queued && ltb now r.expires_at && ltb r.attempts 5

-- `ORDER BY priority DESC, created_at`.
abbrev pub precedes : TaskRow → TaskRow → Bool
precedes a b =
    ltb_ℤ b.priority a.priority
    || not (ltb_ℤ a.priority b.priority) && ltb a.created_at b.created_at

abbrev pub prefer : TaskRow → Option TaskRow → TaskRow
prefer r none = r
prefer r (some best) = if precedes best r then best else r

-- The first row of the ordered selection.
unfoldable pub next_claimable : (TaskRow → Bool) → ℕ → List TaskRow → Option TaskRow
next_claimable locked now [] = none
next_claimable locked now (r ∷ rows) =
    let best = next_claimable locked now rows in
    if is_claimable now r && not (locked r) then some (prefer r best) else best

pub record Claim : Type 0 where
  pub task_id : String
  pub lease_token : String
  pub question : String
  pub context : String
  pub prior_messages : List Message
  pub attempt : ℕ
  pub expires_at : ℕ
  pub lease_seconds : ℕ

unfoldable pub messages_of : ℕ → List Message → List Message
messages_of id [] = []
messages_of id (m ∷ ms) = if m.task_id == id then m ∷ messages_of id ms else messages_of id ms

-- What follows the statement of a lease operation, in its transaction.
abbrev pub input_follow_up : ℕ → String → TaskRow → Db → Db
input_follow_up now question r db =
    add_event now r.id Stage.researching 35
      "Research paused until the requester supplies bounded clarification."
      (add_message now r.id researcher_to_client question db)

abbrev pub submit_follow_up : ℕ → String → String → TaskRow → Db → Db
submit_follow_up now serialized content_hash r db =
    add_event now r.id Stage.validating 60
      "Candidate knowledge submitted to the deterministic policy gate."
      (add_artifact now r.id candidate_revision serialized content_hash db)

abbrev pub fail_follow_up : ℕ → TaskRow → Db → Db
fail_follow_up now r db =
    add_event now r.id Stage.failed 100 "Research ended without publishable knowledge." db

module _ (sha256 : String → String) where
  abbrev pub claim_row : ℕ → ℕ → String → String → TaskRow → TaskRow
  claim_row now lease_seconds researcher token r = record r {
    status = Status.researching;
    attempts = r.attempts + 1;
    claim_owner = some researcher;
    lease_token_hash = some (sha256 token);
    lease_until = some (now + lease_seconds);
    heartbeat_at = some now;
    updated_at = now;
  }

  abbrev claimed_by : ℕ → ℕ → String → String → Db → Option TaskRow → Option Claim × Db
  claimed_by now lease_seconds researcher token db none = (none, db)
  claimed_by now lease_seconds researcher token db (some r) =
      let tasks =
        update_where (has_id r.id) (claim_row now lease_seconds researcher token) db.tasks in
      (
        some (record {
          task_id = r.public_id;
          lease_token = token;
          question = r.question;
          context = r.network_context;
          prior_messages = take 20 (messages_of r.id db.messages);
          attempt = r.attempts + 1;
          expires_at = r.expires_at;
          lease_seconds = lease_seconds;
        }),
        add_event now r.id Stage.researching 25
            "A restricted researcher is structuring a candidate answer."
            (record db { tasks = tasks }),
      )

  -- claimResearchTask; `none` is `{ available: false }`.
  unfoldable pub claim_research_task :
      ℕ → ℕ → (TaskRow → Bool) → (researcher token : String) → Db → Option Claim × Db
  claim_research_task now lease_seconds locked researcher token db =
      claimed_by now lease_seconds researcher token db (next_claimable locked now db.tasks)

  -- What a statement on the row that the token's lease is on comes to: the row is set and `after`
  -- follows for it; no row is RESEARCH_LEASE_INVALID, and the transaction leaves nothing.
  abbrev pub consumed :
      {A : Type 0}
      → (TaskRow → Bool)
      → (TaskRow → TaskRow)
      → (TaskRow → A)
      → (TaskRow → Db → Db)
      → Db
      → Option TaskRow
      → Result A × Db
  consumed held set reply after db none = (err research_lease_invalid, db)
  consumed held set reply after db (some r) =
      (ok (reply (set r)), after r (record db { tasks = update_where held set db.tasks }))

  abbrev pub with_lease :
      {A : Type 0}
      → ℕ
      → (public_id token : String) → (TaskRow → TaskRow)
      → (TaskRow → A)
      → (TaskRow → Db → Db)
      → Db
      → Result A × Db
  with_lease now public_id token set reply after db =
      let held = holds_lease public_id (sha256 token) now in
      consumed held set reply after db (first_where held db.tasks)

  abbrev pub heartbeat_row : ℕ → ℕ → TaskRow → TaskRow
  heartbeat_row now lease_seconds r = record r {
    heartbeat_at = some now;
    lease_until = some (now + lease_seconds);
    updated_at = now;
  }

  -- heartbeatResearchTask; it returns `lease_until`.
  unfoldable pub heartbeat_research_task :
      ℕ → ℕ → (public_id token : String) → Db → Result (Option ℕ) × Db
  heartbeat_research_task now lease_seconds public_id token =
      with_lease now public_id token (heartbeat_row now lease_seconds)
        (λ (r : TaskRow). r.lease_until) (λ _ db. db)

  abbrev pub input_row : ℕ → String → TaskRow → TaskRow
  input_row now question r = record r {
    status = input_required;
    input_request = some question;
    lease_token_hash = none;
    lease_until = none;
    updated_at = now;
  }

  -- requestResearchInput; it returns the task's id and status.
  unfoldable pub request_research_input :
      ℕ → (public_id token question : String) → Db → Result (String × Status) × Db
  request_research_input now public_id token question =
      with_lease now public_id token (input_row now question) (λ _. (public_id, input_required))
        (input_follow_up now question)

  abbrev pub submit_row : ℕ → TaskRow → TaskRow
  submit_row now r = record r {
    status = Status.validating;
    lease_token_hash = none;
    lease_until = none;
    updated_at = now;
  }

  -- submitCandidateRevision. How the schema and the checks of the source URLs end is an argument:
  -- `rejected` is the error that one of them throws, and then no table is touched. It returns the
  -- task's id, status and artifact hash.
  unfoldable pub submit_candidate_revision :
      ℕ
      → (public_id token serialized : String) → (rejected : Option Error) → Db
      → Result (String × Status × String) × Db
  submit_candidate_revision now public_id token serialized (some e) db = (err e, db)
  submit_candidate_revision now public_id token serialized none db =
      let content_hash = sha256_label sha256 serialized in
      with_lease now public_id token (submit_row now)
        (λ _. (public_id, Status.validating, content_hash))
        (submit_follow_up now serialized content_hash) db

  abbrev pub fail_row : ℕ → String → String → TaskRow → TaskRow
  fail_row now code message r = record r {
    status = Status.failed;
    failure_code = some code;
    failure_message = some message;
    lease_token_hash = none;
    lease_until = none;
    completed_at = some now;
    updated_at = now;
  }

  -- failResearchTask; it returns the task's id and status.
  unfoldable pub fail_research_task :
      ℕ → (public_id token code message : String) → Db → Result (String × Status) × Db
  fail_research_task now public_id token code message =
      with_lease now public_id token (fail_row now code message) (λ _. (public_id, Status.failed))
        (fail_follow_up now)

pub record CodeChange : Type 0 where
  pub task_id : Option String
  pub summary : String
  pub proposed_diff : String
  pub risk_assessment : String
  pub requested_by : String

abbrev approve : ℕ → CodeChange → Option ℕ → Db → Result Approval × Db
approve now change task_id db =
    let row : Approval = record {
      task_id = task_id;
      repository = "SmartRoot7/clideck-mcp";
      summary = change.summary;
      proposed_diff = change.proposed_diff;
      risk_assessment = change.risk_assessment;
      requested_by = change.requested_by;
      created_at = now;
    } in
    (ok row, record db { approvals = db.approvals ++ row ∷ [] })

abbrev approve_for : ℕ → CodeChange → Db → Option TaskRow → Result Approval × Db
approve_for now change db none = (err expert_task_not_found, db)
approve_for now change db (some r) = approve now change (some r.id) db

abbrev propose_for : ℕ → CodeChange → Db → Option String → Result Approval × Db
propose_for now change db none = approve now change none db
propose_for now change db (some public_id) =
    approve_for now change db (first_where (λ r. str_eq r.public_id public_id) db.tasks)

-- proposeCodeChange: a change that names a task is recorded only if the task is there.
unfoldable pub propose_code_change : ℕ → CodeChange → Db → Result Approval × Db
propose_code_change now change db = propose_for now change db change.task_id
