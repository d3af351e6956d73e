-- ===== src/Pipeline/Tasks/Rows.antt =====
-- The rows of pipeline_tasks: what holds of a row, of two rows, and of a row before and after an
-- operation.
use clideck_mcp.Prelude.{
  ℕ, ◌+◌, ◌≤◌, String, Bool, true, false, List, ◌≡◌, ◌≢◌, refl, sym, ◌∙◌, arith, ltb, leb,
  Bool-cases, inl, inr,
}
use clideck_mcp.Prelude.Table.Pairs.{Pairwise, Pairwise-map}
use clideck_mcp.Prelude.Table.Keys.{HasDistinctKeys}
use clideck_mcp.Pipeline.Limits.{demand_diagnosis}
use clideck_mcp.Pipeline.Tasks.Tables.{PipelineTask, Payload}
use clideck_mcp.Pipeline.Tasks.Columns.{is_type, is_live, is_held, is_queued, is_running}
use clideck_mcp.Pipeline.Tasks.Queue.{NewTask, new_task, same_id, complete_row}
use clideck_mcp.Pipeline.Tasks.Circuits.{is_none}
use clideck_mcp.Pipeline.Tasks.Runs.{cancel_run_task}
use clideck_mcp.Pipeline.Tasks.Recover.{recover_task}
use clideck_mcp.Pipeline.Tasks.Lease.{pause_row, renew_row}
use clideck_mcp.Pipeline.Tasks.Fail.{fail_row}
use clideck_mcp.Pipeline.Tasks.Choice.{lease_row}
use clideck_mcp.Pipeline.Tasks.Mechanical.{lease_mechanical_row}

-- A live row is not completed, and any other is; a held row has an owner, a token and a lease, and
-- a queued row has none; no more than ten attempts.
pub record IsSound (t : PipelineTask) : Type 0 where
  pub open_end : is_none t.completed_at ≡ is_live t.status
  pub held_owner : is_held t.status ≡ true → is_none t.claim_owner ≡ false
  pub held_token : is_held t.status ≡ true → is_none t.lease_token_hash ≡ false
  pub held_lease : is_held t.status ≡ true → is_none t.lease_until ≡ false
  pub free_owner : is_queued t.status ≡ true → is_none t.claim_owner ≡ true
  pub free_token : is_queued t.status ≡ true → is_none t.lease_token_hash ≡ true
  pub free_lease : is_queued t.status ≡ true → is_none t.lease_until ≡ true
  pub tries : t.attempts ≤ 10

-- What an operation makes of a row: its identity stays, a row that is over stays as it is, and a
-- sound row stays sound.
pub record Goes (r s : PipelineTask) : Type 0 where
  pub same_row : s.id ≡ r.id
  pub same_key : s.dedupe_key ≡ r.dedupe_key
  pub same_type : s.task_type ≡ r.task_type
  pub same_demand : s.knowledge_demand_id ≡ r.knowledge_demand_id
  pub stays_over : is_live r.status ≡ false → s ≡ r
  pub stays_sound : IsSound r → IsSound s

pub Goes-refl : (r : PipelineTask) → Goes r r
Goes-refl r = record {
  same_row = refl;
  same_key = refl;
  same_type = refl;
  same_demand = refl;
  stays_over = λ h. refl;
  stays_sound = λ s. s;
}

pub Goes-trans : (a b c : PipelineTask) → Goes a b → Goes b c → Goes a c
Goes-trans a b c g h = record {
  same_row = h.same_row ∙ g.same_row;
  same_key = h.same_key ∙ g.same_key;
  same_type = h.same_type ∙ g.same_type;
  same_demand = h.same_demand ∙ g.same_demand;
  stays_over = λ over. let e = g.stays_over over in h.stays_over (rw e over) ∙ e;
  stays_sound = λ s. h.stays_sound (g.stays_sound s);
}

-- Two rows: one primary key each, one live row to a dedupe key, and one live diagnosis to a demand.
pub record Apart (r s : PipelineTask) : Type 0 where
  pub other_id : s.id ≢ r.id
  pub other_key : is_live r.status ≡ true → is_live s.status ≡ true → s.dedupe_key ≢ r.dedupe_key
  pub other_demand :
      is_live r.status ≡ true
      → is_live s.status ≡ true
      → is_type r.task_type demand_diagnosis ≡ true
      → is_type s.task_type demand_diagnosis ≡ true
      → same_id r.knowledge_demand_id s.knowledge_demand_id ≡ false

was_live : {r s : PipelineTask} → Goes r s → is_live s.status ≡ true → is_live r.status ≡ true
was_live {r} {s} g live = elim (Bool-cases (is_live r.status)) [
  | inl yet ↦ yet
  | inr over ↦ rw (← g.stays_over over) live
]

pub Goes-Apart : (r s r' s' : PipelineTask) → Goes r r' → Goes s s' → Apart r s → Apart r' s'
Goes-Apart r s r' s' g h a = record {
  other_id = λ e. a.other_id (sym h.same_row ∙ e ∙ g.same_row);
  other_key = λ p q e. a.other_key (was_live g p) (was_live h q) (sym h.same_key ∙ e ∙ g.same_key);
  other_demand = λ p q u v.
      rw (g.same_demand, h.same_demand)
        (a.other_demand (was_live g p) (was_live h q) (rw g.same_type at u) (rw h.same_type at v));
}

pub Apart-HasDistinctKeys :
    (rows : List PipelineTask)
    → Pairwise Apart rows
    → HasDistinctKeys (λ (t : PipelineTask). t.id) rows
Apart-HasDistinctKeys rows h = each rows (Pairwise-map Apart Other (λ r s a. a.other_id) rows h)
  where
    Other : PipelineTask → PipelineTask → Type 0
    Other r s = s.id ≢ r.id

    each :
        (rs : List PipelineTask)
        → Pairwise Other rs
        → HasDistinctKeys (λ (t : PipelineTask). t.id) rs
    each rs h = h

-- The rows that the operations write.
live_step :
    {r s : PipelineTask}
    → is_live r.status ≡ true
    → s.id ≡ r.id
    → s.dedupe_key ≡ r.dedupe_key
    → s.task_type ≡ r.task_type
    → s.knowledge_demand_id ≡ r.knowledge_demand_id
    → (IsSound r → IsSound s)
    → Goes r s
live_step live a b c d h = record {
  same_row = a;
  same_key = b;
  same_type = c;
  same_demand = d;
  stays_over = λ over. cc;
  stays_sound = h;
}

pub complete_row-Goes :
    (now : ℕ) (result : String) (t : PipelineTask)
    → is_running t.status ≡ true
    → Goes t (complete_row now result t)
unfolding complete_row
complete_row-Goes now result t h = live_step (ground arith) refl refl refl refl (λ s. ground arith)

pub fail_row-Goes :
    (now : ℕ) (code message : String) (retrying : Bool) (t : PipelineTask)
    → is_running t.status ≡ true
    → Goes t (fail_row now code message retrying t)
unfolding fail_row
fail_row-Goes now code message true t h =
    live_step (ground arith) refl refl refl refl (λ s. ground arith)
fail_row-Goes now code message false t h =
    live_step (ground arith) refl refl refl refl (λ s. ground arith)

pub recover_task-Goes :
    (now : ℕ) (t : PipelineTask) → is_held t.status ≡ true → Goes t (recover_task now t)
unfolding recover_task
recover_task-Goes now t h = elim (Bool-cases (leb 5 t.attempts)) [
  | inl spent ↦ rw spent (live_step (ground arith) refl refl refl refl (λ s. ground arith))
  | inr more ↦ rw more (live_step (ground arith) refl refl refl refl (λ s. ground arith))
]

pub cancel_run_task-Goes :
    (now : ℕ) (t : PipelineTask) → is_live t.status ≡ true → Goes t (cancel_run_task now t)
unfolding cancel_run_task
cancel_run_task-Goes now t h = live_step h refl refl refl refl (λ s. ground arith)

pub pause_row-Goes :
    (now : ℕ) (t : PipelineTask) → is_running t.status ≡ true → Goes t (pause_row now t)
unfolding pause_row
pause_row-Goes now t h = live_step (ground arith) refl refl refl refl (λ s. ground arith)

pub renew_row-Goes :
    (now lease_until : ℕ) (t : PipelineTask)
    → is_running t.status ≡ true
    → Goes t (renew_row now lease_until t)
unfolding renew_row
renew_row-Goes now lease_until t h =
    live_step (ground arith) refl refl refl refl (λ s. ground arith)

pub lease_row-Goes :
    (now lease_until : ℕ) (owner hash : String) (payload : Payload) (t : PipelineTask)
    → is_queued t.status ≡ true
    → ltb 10 (t.attempts + 1) ≡ false
    → Goes t (lease_row now lease_until owner hash payload t)
unfolding lease_row
lease_row-Goes now lease_until owner hash payload t h n =
    live_step (ground arith) refl refl refl refl (λ s. ground arith)

pub lease_mechanical_row-Goes :
    (now lease_until : ℕ) (owner hash : String) (t : PipelineTask)
    → is_queued t.status ≡ true
    → ltb 10 (t.attempts + 1) ≡ false
    → Goes t (lease_mechanical_row now lease_until owner hash t)
unfolding lease_mechanical_row
lease_mechanical_row-Goes now lease_until owner hash t h n =
    live_step (ground arith) refl refl refl refl (λ s. ground arith)

pub new_task-IsSound : (id now : ℕ) (q : NewTask) → IsSound (new_task id now q)
unfolding new_task
new_task-IsSound id now q = ground arith
