-- ===== src/Expert/Steps/Advances.antt =====
-- Each step on expert tasks as a change of the table: row steps, or a new row.
use clideck_mcp.Prelude.{
  ℕ, String, Bool, true, false, Option, none, some, List, [], ◌∷◌, ◌++◌, ◌≡◌, ◌≢◌, refl, sym, ◌∙◌,
  ◌&&◌, ◌==◌, ◌<◌, inl, inr, arith, All, Option-cases,
}
use clideck_mcp.Expert.Store.{
  Status, TaskRow, Db, is_leased, status_eq, first_where, input_required, sha256_label,
}
use clideck_mcp.Expert.Rows.{HasDistinctIds}
use clideck_mcp.Expert.Lifecycle.{RowStep, beats, asks, submits, fails, IsSound}
use clideck_mcp.Expert.Researcher.{
  heartbeat_row, input_row, input_follow_up, submit_follow_up, fail_follow_up, submit_row, fail_row,
  heartbeat_research_task, request_research_input, submit_candidate_revision, fail_research_task,
  CodeChange, propose_code_change,
}
use clideck_mcp.Expert.Client.Create.{
  Creation, Request, has_key, key_given, scope_hash, new_row, insert_new, guarded, found_or_new,
  create_with, create_expert_task,
}
use clideck_mcp.Prelude.Table.{All-map}
use clideck_mcp.Pipeline.Tasks.Claim.{lease_expert, queued_expert}
use clideck_mcp.Pipeline.Tasks.Recover.{return_expert, held_expert}
use clideck_mcp.Pipeline.Tasks.Lease.{pause_expert, renew_expert, has_expert_hash}
use clideck_mcp.Pipeline.Tasks.Fail.{fail_expert}
use clideck_mcp.Expert.Steps.{
  db_of, IsFresh, Step, creates, continues_task, cancels_task, claims_task, beats_lease,
  asks_requester, submits_candidate, fails_task, proposes_change, reserves_candidate,
  publishes_candidate, maintains, queue_claims, queue_returns, queue_pauses, queue_renews,
  queue_fails,
}
use clideck_mcp.Expert.Steps.Updates.{Advances, Advances-refl, update-Advances, update_all-Advances}
use clideck_mcp.Expert.Steps.Operations.{
  claim-Advances, lease_op-Advances, continue-Advances, cancel-Advances, reserve-Advances,
  publish-Advances, maintain-Advances,
}

abbrev tasks_after : Creation → List TaskRow
tasks_after made = (db_of made).tasks

propose_code_change-tasks :
    (now : ℕ) (change : CodeChange) (db : Db)
    → (propose_code_change now change db).1.tasks ≡ db.tasks
unfolding propose_code_change
propose_code_change-tasks now change db = ground arith

-- What an operation does to the table: its rows go on, or one sound row comes with a fresh id.
pub data Changed (sha256 : String → String) (before : List TaskRow) : List TaskRow → Type 0 where
  moves : {after : List TaskRow} → Advances sha256 before after → Changed sha256 before after
  adds :
      {r : TaskRow}
      → IsSound r
      → All (λ (s : TaskRow). s.id ≢ r.id) before
      → Changed sha256 before (before ++ r ∷ [])

module _ (sha256 : String → String) where
  new_row-IsSound :
      (derive_url_token : String → String) (now : ℕ) (q : Request) (key : Option String)
      → IsSound (new_row sha256 derive_url_token now q key)
  new_row-IsSound derive_url_token now q key = ground arith

  create-Changed :
      (derive_url_token : String → String) (now : ℕ) (hook_allows : Bool) (q : Request) (db : Db)
      → IsFresh q.row_id db
      → Changed sha256 db.tasks
          (tasks_after (create_expert_task sha256 derive_url_token now hook_allows q db))
  unfolding create_expert_task
  create-Changed derive_url_token now hook_allows q db fresh = go (key_given q.idempotency_key)
    where
      kept : Changed sha256 db.tasks db.tasks
      kept = moves (Advances-refl sha256 db.tasks)

      inserted :
          (allow : Bool) (key : Option String)
          → Changed sha256 db.tasks (
              tasks_after (
                guarded sha256 derive_url_token allow
                  (insert_new sha256 derive_url_token now q key db)
                  db))
      inserted true key = adds (new_row-IsSound derive_url_token now q key) fresh
      inserted false key = kept

      found :
          (key : String) (row : Option TaskRow)
          → Changed sha256 db.tasks
              (tasks_after (found_or_new sha256 derive_url_token now hook_allows q key db row))
      found key none = inserted hook_allows (some key)
      found key (some row) = kept

      go :
          (key : Option String)
          → Changed sha256 db.tasks
              (tasks_after (create_with sha256 derive_url_token now hook_allows q db key))
      go none = inserted hook_allows none
      go (some key) =
          found key
            (first_where (has_key (scope_hash sha256 derive_url_token q) (sha256 key)) db.tasks)

-- The rows that the queue's statements set.
queued_expert-queued :
    (id : ℕ) (r : TaskRow) → queued_expert id r ≡ true → status_eq r.status Status.queued ≡ true
queued_expert-queued id r h = ground arith

held_expert-leased : (id : ℕ) (r : TaskRow) → held_expert id r ≡ true → is_leased r.status ≡ true
held_expert-leased id r h = ground arith

-- A row that holds a token is leased.
has_expert_hash-leased :
    (id : ℕ) (hash : String) (r : TaskRow)
    → IsSound r
    → has_expert_hash id hash r ≡ true
    → is_leased r.status ≡ true
has_expert_hash-leased id hash r sound h = elim (Option-cases r.lease_token_hash) [
  | inl free ↦ absurd (let clash : false ≡ true = rw free at (second_of (r.id == id) _ h) in cc)
  | inr (token, e) ↦ sym sound.token ∙ rw e refl
]
  where
    second_of : (a b : Bool) → (a && b) ≡ true → b ≡ true
    second_of a b h = ground arith

-- Every operation takes the rows on by row steps, or adds one.
pub Step-Changed :
    {sha256 derive_url_token : String → String} {db db' : Db}
    → Step sha256 derive_url_token db db'
    → HasDistinctIds db.tasks
    → All IsSound db.tasks
    → Changed sha256 db.tasks db'.tasks
unfolding heartbeat_research_task request_research_input submit_candidate_revision
    fail_research_task
Step-Changed {sha256} {derive_url_token} (creates now hook_allows q db fresh) d v =
    create-Changed sha256 derive_url_token now hook_allows q db fresh
Step-Changed {sha256} (continues_task now actor public_id token message db) d v =
    moves (continue-Advances sha256 now actor public_id token message db d)
Step-Changed {sha256} (cancels_task now actor public_id token db) d v =
    moves (cancel-Advances sha256 now actor public_id token db d)
Step-Changed {sha256} (claims_task now lease_seconds locked researcher token db) d v =
    moves (claim-Advances sha256 now lease_seconds locked researcher token db d)
Step-Changed {sha256} (beats_lease now lease_seconds public_id token db) d v = moves (
    lease_op-Advances sha256 now public_id token (heartbeat_row sha256 now lease_seconds)
      (λ (r : TaskRow). r.lease_until) (λ _ x. x) db (λ r x. refl)
      (λ r held. beats now lease_seconds r held))
Step-Changed {sha256} (asks_requester now public_id token question db) d v = moves (
    lease_op-Advances sha256 now public_id token (input_row sha256 now question)
      (λ _. (public_id, input_required)) (input_follow_up now question) db (λ r x. refl)
      (λ r held. asks now question r held))
Step-Changed {sha256} (submits_candidate now public_id token serialized (some e) db) d v =
    moves (Advances-refl sha256 db.tasks)
Step-Changed {sha256} (submits_candidate now public_id token serialized none db) d v = moves (
    lease_op-Advances sha256 now public_id token (submit_row sha256 now)
      (λ _. (public_id, Status.validating, sha256_label sha256 serialized))
      (submit_follow_up now serialized (sha256_label sha256 serialized)) db (λ r x. refl)
      (λ r held. submits now r held))
Step-Changed {sha256} (fails_task now public_id token code message db) d v = moves (
    lease_op-Advances sha256 now public_id token (fail_row sha256 now code message)
      (λ _. (public_id, Status.failed)) (fail_follow_up now) db (λ r x. refl)
      (λ r held. fails now code message r held))
Step-Changed {sha256} (proposes_change now change db) d v = moves proposal
  where
    proposal : Advances sha256 db.tasks (propose_code_change now change db).1.tasks
    proposal = rw (propose_code_change-tasks now change db) (Advances-refl sha256 db.tasks)
Step-Changed {sha256} (reserves_candidate now locked db) d v =
    moves (reserve-Advances sha256 now locked db)
Step-Changed {sha256} (publishes_candidate now id published blocking db) d v =
    moves (publish-Advances sha256 now id published blocking db)
Step-Changed {sha256} (maintains now db) d v = moves (maintain-Advances sha256 now db)
Step-Changed {sha256} (queue_claims now lease_until id owner hash db room) d v = moves (
    update_all-Advances sha256 (queued_expert id) (lease_expert now lease_until owner hash) db.tasks
      (All-map (λ r. queued_expert id r ≡ true → r.attempts < 10)
        (λ r.
          queued_expert id r ≡ true → RowStep sha256 r (lease_expert now lease_until owner hash r))
        (λ r free hit.
          RowStep.queue_claims now lease_until owner hash r (queued_expert-queued id r hit)
            (free hit))
        db.tasks room))
Step-Changed {sha256} (queue_returns now id exhausted db) d v = moves (
    update-Advances sha256 (held_expert id) (return_expert now exhausted) db.tasks
      (λ r hit. RowStep.queue_returns now exhausted r (held_expert-leased id r hit)))
Step-Changed {sha256} (queue_pauses now id db) d v = moves (
    update-Advances sha256 (held_expert id) (pause_expert now) db.tasks
      (λ r hit. RowStep.queue_pauses now r (held_expert-leased id r hit)))
Step-Changed {sha256} (queue_renews now lease_until id hash db) d v = moves (
    update_all-Advances sha256 (has_expert_hash id hash) (renew_expert now lease_until) db.tasks (
      All-map IsSound
        (λ r. has_expert_hash id hash r ≡ true → RowStep sha256 r (renew_expert now lease_until r))
        (λ r sound hit.
          RowStep.queue_renews now lease_until r (has_expert_hash-leased id hash r sound hit))
        db.tasks v))
Step-Changed {sha256} (queue_fails now id code message retrying db) d v = moves (
    update-Advances sha256 (held_expert id) (fail_expert now code message retrying) db.tasks
      (λ r hit. RowStep.queue_fails now code message retrying r (held_expert-leased id r hit)))
