-- ===== src/Expert/Worker.antt =====
-- The knowledge worker's part in expert tasks: processNextCandidate and runWorkerMaintenance of
-- src/domain/publication.ts. Publishing a candidate in the knowledge tables is a parameter of the
-- caller: it yields the revision and the release, or throws.
use clideck_mcp.Prelude.{
  ℕ, ◌+◌, String, Bool, true, false, ◌&&◌, not, Option, none, some, List, [], ◌∷◌, ltb, leb, ◌==◌,
  if◌then◌else◌,
}
use clideck_mcp.Expert.Store.{
  Status, expired, Stage, TaskRow, Artifact, ArtifactType, candidate_revision, validation_report,
  Db, status_eq, is_terminal, is_leased, time_after, time_reached, update_where, first_where,
  add_event, add_artifact, sha256_label,
}

abbrev is_candidate : ArtifactType → Bool
is_candidate candidate_revision = true
is_candidate validation_report = false

-- The newest candidate of a task, `ORDER BY created_at DESC LIMIT 1`.
abbrev newer : Bool → Artifact → Option Artifact → Option Artifact
newer false x best = best
newer true x none = some x
newer true x (some y) = if ltb x.created_at y.created_at then some y else some x

unfoldable pub latest_candidate : ℕ → List Artifact → Option Artifact
latest_candidate id [] = none
latest_candidate id (a ∷ artifacts) =
    newer (a.task_id == id && is_candidate a.artifact_type) a (latest_candidate id artifacts)

-- A validating task with a candidate, `ORDER BY updated_at LIMIT 1`, past the locked rows.
abbrev earlier : TaskRow × Artifact → Option (TaskRow × Artifact) → TaskRow × Artifact
earlier here none = here
earlier here (some best) = if ltb best.0.updated_at here.0.updated_at then best else here

abbrev with_artifact :
    TaskRow → Option Artifact → Option (TaskRow × Artifact) → Option (TaskRow × Artifact)
with_artifact r none best = best
with_artifact r (some a) best = some (earlier (r, a) best)

unfoldable pub next_validating :
    (TaskRow → Bool) → List Artifact → List TaskRow → Option (TaskRow × Artifact)
unfolding latest_candidate
next_validating locked artifacts [] = none
next_validating locked artifacts (r ∷ rows) =
    let best = next_validating locked artifacts rows in
    if status_eq r.status Status.validating && not (locked r)
    then with_artifact r (latest_candidate r.id artifacts) best
    else best

abbrev pub in_status : ℕ → Status → TaskRow → Bool
in_status id status r = r.id == id && status_eq r.status status

abbrev pub reserve_row : ℕ → TaskRow → TaskRow
reserve_row now r = record r {
  status = Status.publishing;
  claim_owner = some "knowledge-worker";
  lease_until = some (now + 600);
  updated_at = now;
}

abbrev reserve : ℕ → Db → Option (TaskRow × Artifact) → Option (TaskRow × Artifact) × Db
reserve now db none = (none, db)
reserve now db (some (r, a)) = (
  some (r, a),
  record db { tasks = update_where (in_status r.id Status.validating) (reserve_row now) db.tasks },
)

-- The first transaction of processNextCandidate.
unfoldable pub reserve_candidate : ℕ → (TaskRow → Bool) → Db → Option (TaskRow × Artifact) × Db
reserve_candidate now locked db = reserve now db (next_validating locked db.artifacts db.tasks)

-- What createKnowledgeRevision and publishKnowledgeBatch yield.
pub record Publication : Type 0 where
  pub revision_id : String
  pub validation_payload : String

abbrev pub completed_row : ℕ → Publication → TaskRow → TaskRow
completed_row now p r = record r {
  status = Status.completed;
  result_revision_id = some p.revision_id;
  claim_owner = none;
  lease_until = none;
  completed_at = some now;
  updated_at = now;
}

abbrev pub rejected_row : ℕ → TaskRow → TaskRow
rejected_row now r = record r {
  status = Status.failed;
  failure_code = some "VALIDATION_FAILED";
  failure_message = some "Candidate failed the structured validation or publication gate.";
  claim_owner = none;
  lease_until = none;
  completed_at = some now;
  updated_at = now;
}

-- `WHERE id = $1 AND status = 'publishing' AND lease_until > now()`.
abbrev pub publishing_lease : ℕ → ℕ → TaskRow → Bool
publishing_lease id now r = in_status id Status.publishing r && time_after r.lease_until now

module _ (sha256 : String → String) where
  abbrev commit_publication : ℕ → ℕ → Db → Publication → Db
  commit_publication now id db p =
      add_event now id Stage.completed 100
        "Knowledge published and available for deterministic reuse."
        (let db' =
            add_artifact now id validation_report p.validation_payload
              (sha256_label sha256 p.validation_payload)
              (add_event now id Stage.publishing 88
                "Validated knowledge is being added to an immutable release."
                (add_event now id Stage.conflict_check 72
                  "Candidate passed schema validation and entered conflict checks." db)) in
          record db' {
            tasks = update_where (in_status id Status.publishing) (completed_row now p) db'.tasks;
          })

  -- The `catch` branch: the transaction is rolled back, the event is written in any case, and the
  -- row is set if it is still being published.
  unfoldable pub reject_candidate : ℕ → ℕ → Db → Db
  reject_candidate now id db =
      add_event now id Stage.failed 100 "Candidate did not pass the publication policy gate."
        (record db {
          tasks = update_where (in_status id Status.publishing) (rejected_row now) db.tasks;
        })

  abbrev pub publish_locked :
      ℕ → ℕ → Option Publication → (blocking_conflict : Bool) → Db → Option TaskRow → Db
  publish_locked now id published blocking db none = reject_candidate now id db
  publish_locked now id published true db (some r) = reject_candidate now id db
  publish_locked now id none false db (some r) = reject_candidate now id db
  publish_locked now id (some p) false db (some r) = commit_publication now id db p

  -- The second transaction of processNextCandidate with its `catch`. `published` is what the
  -- knowledge tables make of the candidate, `none` where its schema or its publication throws.
  unfoldable pub publish_candidate :
      ℕ → ℕ → Option Publication → (blocking_conflict : Bool) → Db → Db
  unfolding reject_candidate
  publish_candidate now id published blocking db =
      publish_locked now id published blocking db (first_where (publishing_lease id now) db.tasks)

  abbrev finish :
      ℕ
      → (Artifact → Option Publication)
      → Bool
      → (Db → Db)
      → Option (TaskRow × Artifact) × Db
      → Bool × Db
  finish now publish blocking between (none, db) = (false, db)
  finish now publish blocking between (some (r, a), db) =
      (true, publish_candidate now r.id (publish a) blocking (between db))

  -- processNextCandidate: `between` is what other transactions do between its two.
  unfoldable pub process_next_candidate :
      ℕ
      → ℕ
      → (TaskRow → Bool)
      → (Artifact → Option Publication)
      → (blocking_conflict : Bool) → (between : Db → Db) → Db
      → Bool × Db
  unfolding reserve_candidate publish_candidate
  process_next_candidate now later locked publish blocking between db =
      finish later publish blocking between (reserve_candidate now locked db)

-- The statements of runWorkerMaintenance on `expert_tasks`.
abbrev pub is_overdue : ℕ → TaskRow → Bool
is_overdue now r = leb r.expires_at now && not (is_terminal r.status)

abbrev pub expire_row : ℕ → TaskRow → TaskRow
expire_row now r = record r {
  status = expired;
  lease_token_hash = none;
  lease_until = none;
  idempotency_scope_hash = none;
  idempotency_key_hash = none;
  completed_at = some now;
  updated_at = now;
}

abbrev pub lease_expired : ℕ → TaskRow → Bool
lease_expired now r = is_leased r.status && time_reached r.lease_until now

abbrev pub recover_row : ℕ → TaskRow → TaskRow
recover_row now r =
    if leb 5 r.attempts
    then record r {
      status = Status.failed;
      failure_code = some "LEASE_ATTEMPTS_EXHAUSTED";
      failure_message = some "Research lease expired too many times.";
      claim_owner = none;
      lease_token_hash = none;
      lease_until = none;
      updated_at = now;
      completed_at = some now;
    }
    else record r {
      status = Status.queued;
      failure_code = none;
      failure_message = none;
      claim_owner = none;
      lease_token_hash = none;
      lease_until = none;
      updated_at = now;
      completed_at = none;
    }

abbrev pub publishing_expired : ℕ → TaskRow → Bool
publishing_expired now r = status_eq r.status Status.publishing && time_reached r.lease_until now

abbrev pub requeue_row : ℕ → TaskRow → TaskRow
requeue_row now r = record r {
  status = Status.validating;
  claim_owner = none;
  lease_until = none;
  updated_at = now;
}

unfoldable pub run_worker_maintenance : ℕ → Db → Db
run_worker_maintenance now db =
    let expired_tasks = update_where (is_overdue now) (expire_row now) db.tasks in
    let recovered = update_where (lease_expired now) (recover_row now) expired_tasks in
    record db { tasks = update_where (publishing_expired now) (requeue_row now) recovered }
