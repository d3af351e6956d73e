-- ===== src/Pipeline/Tasks/Writes.antt =====
-- What the operations of the queue leave in the table pipeline_tasks: their other writes do not
-- touch it.
use clideck_mcp.Prelude.{
  ℕ, String, Bool, true, false, Option, none, some, List, [], ◌∷◌, ◌≡◌, refl, ◌∙◌,
}
use clideck_mcp.Prelude.Table.{update_rows}
use clideck_mcp.Expert.Store.{TaskRow}
use clideck_mcp.Pipeline.Tasks.Tables.{PipelineTask, Demand, Store}
use clideck_mcp.Pipeline.Tasks.Queue.{has_task_id, record_event}
use clideck_mcp.Pipeline.Tasks.Recover.{set_expert, when, recovered_event, recover_one, recover_all}
use clideck_mcp.Pipeline.Tasks.Lease.{
  pause_task, pause_row, renew_task, renew_row, has_lease_hash, renew_expert_lease,
}
use clideck_mcp.Pipeline.Tasks.Fail.{fail_row, set_demand}
use clideck_mcp.Pipeline.Tasks.FailTask.{fail_task, fail_source_work, fail_target}
use clideck_mcp.Pipeline.Tasks.Claim.{diagnose_demand, start_fragments}

when-tasks :
    (b : Bool) (f : Store → Store) (db : Store)
    → ((d : Store) → (f d).tasks ≡ d.tasks)
    → (when b f db).tasks ≡ db.tasks
unfolding when
when-tasks true f db h = h db
when-tasks false f db h = refl

pub set_expert-tasks :
    (id : Option ℕ) (set : TaskRow → TaskRow) (db : Store) → (set_expert id set db).tasks ≡ db.tasks
unfolding set_expert
set_expert-tasks none set db = refl
set_expert-tasks (some i) set db = refl

set_demand-tasks :
    (id : Option ℕ) (set : Demand → Demand) (db : Store) → (set_demand id set db).tasks ≡ db.tasks
set_demand-tasks none set db = refl
set_demand-tasks (some i) set db = refl

module _ (now : ℕ) (code message : String) (retrying : Bool) (t : PipelineTask) where
  fail_source_work-tasks :
      (id : Option ℕ) (db : Store)
      → (fail_source_work now code message retrying t id db).tasks ≡ db.tasks
  fail_source_work-tasks none db = refl
  fail_source_work-tasks (some i) db =
      when-tasks _ _ _ (λ d. refl)
      ∙ when-tasks _ _ _ (λ d. refl)
      ∙ when-tasks _ _ _ (λ d. refl)
      ∙ when-tasks _ _ _ (λ d. refl)
      ∙ when-tasks _ _ _ (λ d. refl)
      ∙ when-tasks _ _ _ (λ d. refl)
      ∙ when-tasks _ _ _ (λ d. refl)

  fail_target-tasks :
      (id : Option ℕ) (db : Store)
      → (fail_target now code message retrying t id db).tasks ≡ db.tasks
  fail_target-tasks none db = refl
  fail_target-tasks (some i) db = when-tasks _ _ _ (λ d. refl)

  pub fail_task-tasks :
      (db : Store)
      → (fail_task now code message retrying t db).tasks
        ≡ update_rows (has_task_id t.id) (fail_row now code message retrying) db.tasks
  unfolding fail_task record_event
  fail_task-tasks db =
      fail_target-tasks t.coverage_target_id _
      ∙ fail_source_work-tasks t.source_candidate_id _
      ∙ set_expert-tasks t.expert_task_id _ _
      ∙ when-tasks _ _ _ (λ d. refl)
      ∙ set_demand-tasks t.knowledge_demand_id _ _

recovered_event-tasks :
    (t : PipelineTask) (exhausted : Bool) (db : Store)
    → (recovered_event t exhausted db).tasks ≡ db.tasks
unfolding record_event recovered_event
recovered_event-tasks t true db = refl
recovered_event-tasks t false db = refl

recover_one-tasks :
    (now : ℕ) (t : PipelineTask) (db : Store) → (recover_one now t db).tasks ≡ db.tasks
unfolding recover_one
recover_one-tasks now t db =
    recovered_event-tasks t _ _
    ∙ set_expert-tasks t.expert_task_id _ _
    ∙ when-tasks _ _ _ (λ d. refl)
    ∙ when-tasks _ _ _ (λ d. refl)
    ∙ when-tasks _ _ _ (λ d. refl)
    ∙ when-tasks _ _ _ (λ d. refl)

pub recover_all-tasks :
    (now : ℕ) (ts : List PipelineTask) (db : Store) → (recover_all now ts db).tasks ≡ db.tasks
unfolding recover_all
recover_all-tasks now [] db = refl
recover_all-tasks now (t ∷ ts) db =
    recover_all-tasks now ts (recover_one now t db) ∙ recover_one-tasks now t db

pub pause_task-tasks :
    (now : ℕ) (t : PipelineTask) (db : Store)
    → (pause_task now t db).tasks ≡ update_rows (has_task_id t.id) (pause_row now) db.tasks
unfolding pause_task
pause_task-tasks now t db = set_expert-tasks t.expert_task_id _ _ ∙ when-tasks _ _ _ (λ d. refl)

renew_expert_lease-tasks :
    (now lease_until : ℕ) (hash : String) (id : Option ℕ) (db : Store)
    → (renew_expert_lease now lease_until hash id db).tasks ≡ db.tasks
renew_expert_lease-tasks now lease_until hash none db = refl
renew_expert_lease-tasks now lease_until hash (some i) db = refl

pub renew_task-tasks :
    (now lease_until : ℕ) (hash : String) (t : PipelineTask) (db : Store)
    → (renew_task now lease_until hash t db).tasks
      ≡ update_rows (has_lease_hash t.id hash) (renew_row now lease_until) db.tasks
unfolding renew_task
renew_task-tasks now lease_until hash t db =
    renew_expert_lease-tasks now lease_until hash t.expert_task_id _

diagnose_demand-tasks :
    (now : ℕ) (t : PipelineTask) (id : Option ℕ) (db : Store)
    → (diagnose_demand now t id db).tasks ≡ db.tasks
diagnose_demand-tasks now t none db = refl
diagnose_demand-tasks now t (some i) db = when-tasks _ _ _ (λ d. refl)

pub started-tasks :
    (now : ℕ) (t : PipelineTask) (db : Store)
    → (start_fragments t (diagnose_demand now t t.knowledge_demand_id db)).tasks ≡ db.tasks
started-tasks now t db =
    when-tasks _ _ _ (λ d. refl) ∙ diagnose_demand-tasks now t t.knowledge_demand_id db

when-circuits :
    (b : Bool) (f : Store → Store) (db : Store)
    → ((d : Store) → (f d).circuits ≡ d.circuits)
    → (when b f db).circuits ≡ db.circuits
unfolding when
when-circuits true f db h = h db
when-circuits false f db h = refl

diagnose_demand-circuits :
    (now : ℕ) (t : PipelineTask) (id : Option ℕ) (db : Store)
    → (diagnose_demand now t id db).circuits ≡ db.circuits
diagnose_demand-circuits now t none db = refl
diagnose_demand-circuits now t (some i) db = when-circuits _ _ _ (λ d. refl)

pub started-circuits :
    (now : ℕ) (t : PipelineTask) (db : Store)
    → (start_fragments t (diagnose_demand now t t.knowledge_demand_id db)).circuits ≡ db.circuits
started-circuits now t db =
    when-circuits _ _ _ (λ d. refl) ∙ diagnose_demand-circuits now t t.knowledge_demand_id db
