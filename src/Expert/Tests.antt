-- ===== src/Expert/Tests.antt =====
-- Runs of the operations on expert tasks, and the theorems at concrete tables.
use clideck_mcp.Prelude.{
  ℕ, String, Bool, true, false, none, some, [], ◌∷◌, ◌≡◌, ◌⊎◌, refl, inl, arith, All,
}
use Prim.Native.String
use clideck_mcp.Prelude.Int.{pos}
use clideck_mcp.Expert.Store.{Status, Stage, input_required, TaskRow, Db, first_where}
use clideck_mcp.Expert.Rows.{In, HasDistinctIds, Related}
use clideck_mcp.Expert.Researcher.{
  next_claimable, claim_row, claim_research_task, request_research_input, submit_candidate_revision,
  fail_research_task,
}
use clideck_mcp.Expert.Client.{
  events_of, to_public_task_status, anonymous, tenant, continue_expert_task, cancel_expert_task,
  cancel_row, cancel_write, continue_row, continue_write,
}
use clideck_mcp.Expert.Client.Create.{Request, create_expert_task}
use clideck_mcp.Expert.Worker.{reject_candidate, Publication, completed_row, run_worker_maintenance}
use clideck_mcp.Expert.Steps.{db_of, creates, claims_task, here, next}
use clideck_mcp.Expert.Steps.Invariant.{IsWell, Reach-IsWell, Reach-terminal}
use clideck_mcp.Expert.Lifecycle.{IsSound}
use clideck_mcp.Expert.Exclusive.{
  IsFree, IsBest, Takes, claim_research_task-IsBest, claim_exclusive,
}
use clideck_mcp.Expert.Leases.{IsSpent, lease_single_use}
use clideck_mcp.Expert.Maintenance.{IsDue, run_worker_maintenance-IsDue}
use clideck_mcp.Expert.Milestones.{rejected_stage}
use clideck_mcp.Expert.Access.{OnlySeen, OnlySeen-changed}
use clideck_mcp.Expert.Idempotence.{Repeats, create_idempotent}
use clideck_mcp.Expert.Races.{completed_overwritten}

abbrev digest : String → String
digest text = String.◌++◌ "#" text

abbrev unlocked : TaskRow → Bool
unlocked r = false

abbrev no_tables : Db
no_tables = record { tasks = []; events = []; messages = []; artifacts = []; approvals = [] }

abbrev asked : Request
asked = record {
  actor = anonymous;
  question = "Which firmware fixes the flap?";
  network_context = "{}";
  idempotency_key = some "key-1";
  idempotency_scope = none;
  ttl_minutes = 60;
  public_id = "task-1";
  row_id = 1;
  random_token = "random";
}

abbrev asked_again : Request
asked_again = record asked { question = "And now?"; public_id = "task-9"; row_id = 9 }

abbrev asked_by_tenant : Request
asked_by_tenant = record asked {
  actor = tenant "acme";
  idempotency_key = none;
  public_id = "task-2";
  row_id = 2;
}

-- A queued row, as an insertion makes it.
abbrev waiting : ℕ → String → TaskRow
waiting id public_id = record {
  id = id;
  public_id = public_id;
  access_token_hash = some "#secret";
  tenant_id = none;
  status = Status.queued;
  question = "Which firmware fixes the flap?";
  network_context = "{}";
  priority = pos 0;
  attempts = 0;
  claim_owner = none;
  lease_token_hash = none;
  lease_until = none;
  heartbeat_at = none;
  input_request = none;
  result_revision_id = none;
  failure_code = none;
  failure_message = none;
  expires_at = 5000;
  created_at = id;
  updated_at = id;
  completed_at = none;
  idempotency_scope_hash = none;
  idempotency_key_hash = none;
}

abbrev two_waiting : Db
two_waiting = record no_tables { tasks = waiting 1 "task-1" ∷ waiting 2 "task-2" ∷ [] }

abbrev failed : TaskRow
failed = record (waiting 1 "task-1") { status = Status.failed; completed_at = some 50 }

abbrev one_failed : Db
one_failed = record no_tables { tasks = failed ∷ [] }

IsSound-failed : IsSound failed
IsSound-failed = record {
  token = refl;
  lease = refl;
  closed = refl;
  result = refl;
  attempts = omega arith;
}

HasDistinctIds-two_waiting : HasDistinctIds two_waiting.tasks
HasDistinctIds-two_waiting = (((λ e. omega arith), tt), (tt, tt))

abbrev published : Publication
published = record { revision_id = "revision-1"; validation_payload = "{}" }

abbrev done : TaskRow
done = completed_row 20 published (waiting 1 "task-1")

abbrev one_done : Db
one_done = record no_tables { tasks = done ∷ [] }

-- Claimed at 10, until 310.
abbrev one_leased : Db
one_leased = record no_tables {
  tasks = claim_row digest 10 300 "r1" "lease-1" (waiting 1 "task-1") ∷ [];
}

Reach-IsWell_example :
    IsWell
      (claim_research_task digest 200 300 unlocked "r1" "lease-1"
        (db_of (create_expert_task digest digest 100 true asked no_tables))).1
Reach-IsWell_example =
    Reach-IsWell
      (next (next here (creates 100 true asked no_tables tt))
        (claims_task 200 300 unlocked "r1" "lease-1" _))
      (tt, tt)

Reach-terminal_example :
    In failed (db_of (create_expert_task digest digest 100 true asked_by_tenant one_failed)).tasks
Reach-terminal_example =
    Reach-terminal {sha256 = digest} {derive_url_token = digest}
      (next here (creates 100 true asked_by_tenant one_failed ((λ e. omega arith), tt)))
      ((tt, tt), (IsSound-failed, tt)) failed (inl refl) refl

claim_research_task-IsBest_example :
    ((claim_research_task digest 10 300 unlocked "r1" "lease-1" two_waiting ≡ (none, two_waiting))
      × All (λ r. ¬ (IsFree 10 unlocked r)) two_waiting.tasks)
    ⊎ ((r : TaskRow) × IsBest 10 unlocked two_waiting.tasks r
        × Takes digest 10 300 "r1" "lease-1" r
            (claim_research_task digest 10 300 unlocked "r1" "lease-1" two_waiting)
            two_waiting)
claim_research_task-IsBest_example =
    claim_research_task-IsBest digest 10 300 unlocked "r1" "lease-1" two_waiting

claim_exclusive_example :
    In
      (claim_row digest 10 300 "r1" "lease-1" (waiting 1 "task-1"))
      (claim_research_task digest 20 300 unlocked "r2" "lease-2"
        (claim_research_task digest 10 300 unlocked "r1" "lease-1" two_waiting).1).1.tasks
unfolding next_claimable
claim_exclusive_example =
    claim_exclusive digest 10 20 300 unlocked unlocked "r1" "r2" "lease-1" "lease-2" two_waiting
      (waiting 1 "task-1") HasDistinctIds-two_waiting refl

lease_single_use_example :
    ((question : String)
      → IsSpent digest 30 "task-1" "lease-1"
          (request_research_input digest 20 "task-1" "lease-1" question one_leased).1)
    × ((serialized : String)
        → IsSpent digest 30 "task-1" "lease-1"
            (submit_candidate_revision digest 20 "task-1" "lease-1" serialized none one_leased).1)
    × ((code message : String)
        → IsSpent digest 30 "task-1" "lease-1"
            (fail_research_task digest 20 "task-1" "lease-1" code message one_leased).1)
lease_single_use_example = lease_single_use digest 20 30 "task-1" "lease-1" one_leased (omega arith)

run_worker_maintenance-IsDue_example :
    Related (IsDue 6000) two_waiting.tasks (run_worker_maintenance 6000 two_waiting).tasks
run_worker_maintenance-IsDue_example = run_worker_maintenance-IsDue 6000 two_waiting

OnlySeen-changed_example :
    Related
      (OnlySeen digest 10 anonymous "task-2" (some "secret"))
      two_waiting.tasks
      (continue_expert_task digest 10 anonymous "task-2" (some "secret") "more" two_waiting).1.tasks
    × Related
        (OnlySeen digest 10 anonymous "task-2" (some "secret"))
        two_waiting.tasks
        (cancel_expert_task digest 10 anonymous "task-2" (some "secret") two_waiting).1.tasks
OnlySeen-changed_example =
    OnlySeen-changed digest 10 anonymous "task-2" (some "secret") "more" two_waiting
      HasDistinctIds-two_waiting

create_idempotent_example :
    Repeats "task-1"
      (some "#expert-access:anonymous:key-1")
      (db_of (create_expert_task digest digest 100 true asked no_tables))
      (create_expert_task digest digest 900 false asked_again
        (db_of (create_expert_task digest digest 100 true asked no_tables)))
unfolding create_expert_task first_where to_public_task_status
create_idempotent_example =
    create_idempotent digest digest 100 900 true false asked asked_again "key-1" no_tables _ _ refl
      refl (refl, refl, refl)

completed_overwritten_example :
    In (cancel_row digest 30 done) (cancel_write digest 30 (waiting 1 "task-1") one_done).tasks
    × In
        (continue_row digest 30 done)
        (continue_write digest 30 "more" (waiting 1 "task-1") one_done).tasks
completed_overwritten_example =
    completed_overwritten digest 20 30 "more" published (waiting 1 "task-1") (waiting 1 "task-1")
      one_done (inl refl) refl

-- Five claims have ended in a question.
abbrev asking : TaskRow
asking = record (waiting 1 "task-1") { status = input_required; attempts = 5 }

abbrev one_asking : Db
one_asking = record no_tables { tasks = asking ∷ [] }

rejected_stage_example :
    In done (reject_candidate digest 40 1 one_done).tasks
    × ((to_public_task_status done none
          (events_of 1 (reject_candidate digest 40 1 one_done).events)).stage
        ≡ Stage.failed)
    × ((to_public_task_status done none
          (events_of 1 (reject_candidate digest 40 1 one_done).events)).status
        ≡ Status.completed)
rejected_stage_example = rejected_stage digest 40 done none one_done (inl refl) refl
