-- ===== src/Pipeline/Tasks/Results.antt =====
-- recordAgentRunResult of src/domain/pipeline.ts, called again for a run that is over.
use clideck_mcp.Prelude.{
  ℕ, not, str_eq, Bool, true, false, Option, none, some, List, [], ◌∷◌, String, ◌≡◌, ◌≢◌, refl, ap,
  inl, inr, arith, if◌then◌else◌, Bool-cases, Option-cases,
}
use clideck_mcp.Prelude.Table.{update_rows, first_row, All-In, first_row-In}
use clideck_mcp.Prelude.Table.Keys.{HasDistinctKeys}
use clideck_mcp.Pipeline.Tasks.Queue.{or_text}
use clideck_mcp.Pipeline.Tasks.Tables.{RunStatus, timed_out, AgentRun, PipelineTask, Store}
use clideck_mcp.Pipeline.Tasks.Columns.{is_ai_task_type, run_is_running}
use clideck_mcp.Pipeline.Tasks.AgentRuns.{
  RunResult, status_completed, status_failed, finish_run, judge_run, RunReply, recorded,
  already_terminal, can_finish, is_run, task_of, no_running_run, unfinished, failed_circuit,
  completed_circuit, record_agent_run_result,
}

abbrev pub run_id : AgentRun → ℕ
run_id r = r.id

if-runs :
    (b : Bool) (x y db : Store)
    → x.agent_runs ≡ db.agent_runs
    → y.agent_runs ≡ db.agent_runs
    → (if b then x else y).agent_runs ≡ db.agent_runs
if-runs true x y db p q = p
if-runs false x y db p q = q

-- The circuits are all that the judgement of a run changes.
failed-runs :
    (now : ℕ) (input : RunResult) (r : AgentRun) (t : PipelineTask) (profile : String)
    (fingerprint : Option String) (db : Store)
    → (failed_circuit now input r t.task_type profile fingerprint db).agent_runs ≡ db.agent_runs
failed-runs now input r t profile none db = refl
failed-runs now input r t profile (some f) db = if-runs _ _ db db refl refl

completed-runs :
    (r : AgentRun) (t : PipelineTask) (profile : String) (executor : Option String) (db : Store)
    → (completed_circuit r t.task_type profile executor db).agent_runs ≡ db.agent_runs
completed-runs r t profile none db = refl
completed-runs r t profile (some e) db = refl

judge-runs :
    (now : ℕ) (input : RunResult) (r : AgentRun) (t : PipelineTask) (db : Store)
    → (judge_run now input r t db).agent_runs ≡ db.agent_runs
judge-runs now input r t db =
    let profile =
      or_text r.execution_profile
        (if str_eq r.reasoning_effort "medium" then "luna_high" else "luna") in
    let completed = completed_circuit r t.task_type profile r.executor_id db in
    let failed = failed_circuit now input r t.task_type profile input.diagnostic_fingerprint db in
    if-runs (not (is_ai_task_type t.task_type)) db
      (if status_completed input.status
        then completed
        else if status_failed input.status
        then failed
        else db)
      db refl
      (if-runs (status_completed input.status) completed
        (if status_failed input.status then failed else db) db
        (completed-runs r t profile r.executor_id db)
        (if-runs (status_failed input.status) failed db db
          (failed-runs now input r t profile input.diagnostic_fingerprint db) refl))

module _ (now : ℕ) (input : RunResult) where
  stopped :
      (r : AgentRun)
      → run_is_running input.status ≡ false
      → can_finish input.agent_run_id (finish_run now input r) ≡ false
  unfolding finish_run
  stopped r over = rw over (ground arith)

  named :
      (r : AgentRun) → can_finish input.agent_run_id r ≡ true → is_run input.agent_run_id r ≡ true
  named r h = ground arith

  unnamed :
      (s r : AgentRun)
      → r.id ≢ s.id
      → is_run input.agent_run_id r ≡ true
      → is_run input.agent_run_id s ≡ false
  unnamed s r apart h = ground arith

  -- After the UPDATE the run does not run.
  finished-none :
      (rows : List AgentRun)
      → run_is_running input.status ≡ false
      → first_row
          (can_finish input.agent_run_id)
          (update_rows (can_finish input.agent_run_id) (finish_run now input) rows)
        ≡ none
  unfolding update_rows first_row finish_run
  finished-none [] over = refl
  finished-none (r ∷ rows) over = elim (Bool-cases (can_finish input.agent_run_id r)) [
    | inl hit ↦ rw hit (rw (stopped r over) (finished-none rows over))
    | inr miss ↦ rw (miss, miss) (finished-none rows over)
  ]

  -- The run that was updated is the one that the id names.
  finished-run :
      (rows : List AgentRun) (r : AgentRun)
      → HasDistinctKeys run_id rows
      → first_row (can_finish input.agent_run_id) rows ≡ some r
      → first_row
          (is_run input.agent_run_id)
          (update_rows (can_finish input.agent_run_id) (finish_run now input) rows)
        ≡ some (finish_run now input r)
  unfolding update_rows first_row finish_run
  finished-run [] r d e = absurd (let no_row : none ≡ some r = e in cc)
  finished-run (s ∷ rows) r (fresh, d) e = elim (Bool-cases (can_finish input.agent_run_id s)) [
    | inl hit ↦
        let same : s ≡ r = ground arith in
        rw hit (rw (named s hit) (ap (λ x. some (finish_run now input x)) same))
    | inr miss ↦
        let later : first_row (can_finish input.agent_run_id) rows ≡ some r = rw miss at e in
        let (i, c) = first_row-In (can_finish input.agent_run_id) rows later in
        let apart = All-In (λ x. run_id x ≢ run_id s) rows r i fresh in
        rw miss (rw (unnamed s r apart (named r c)) (finished-run rows r d later))
  ]

over-terminal : (s : RunStatus) → run_is_running s ≡ false → no_running_run s ≡ already_terminal s
over-terminal RunStatus.running h = absurd (cc)
over-terminal RunStatus.completed h = refl
over-terminal RunStatus.failed h = refl
over-terminal timed_out h = refl
over-terminal RunStatus.cancelled h = refl

no_running_run-recorded : (s t : RunStatus) → no_running_run s ≢ recorded t
no_running_run-recorded RunStatus.running t e = cc
no_running_run-recorded RunStatus.completed t e = cc
no_running_run-recorded RunStatus.failed t e = cc
no_running_run-recorded timed_out t e = cc
no_running_run-recorded RunStatus.cancelled t e = cc

unfinished-recorded : (o : Option AgentRun) (t : RunStatus) → unfinished o ≢ recorded t
unfinished-recorded none t e = cc
unfinished-recorded (some r) t e = no_running_run-recorded r.status t e

-- The call for a run that is over.
already_over :
    (later : ℕ) (second : RunResult) (d : Store) (r : AgentRun)
    → first_row (can_finish second.agent_run_id) d.agent_runs ≡ none
    → first_row (is_run second.agent_run_id) d.agent_runs ≡ some r
    → run_is_running r.status ≡ false
    → record_agent_run_result later second d ≡ (already_terminal r.status, d)
unfolding record_agent_run_result
already_over later second d r idle named over =
    rw idle (rw named (ap (λ reply. (reply, d)) (over-terminal r.status over)))

-- A result is recorded once. A run's result that is not "running" is recorded for a run whose id no
-- other has; then a second call for that run, with any result and at any time, answers that the run
-- is over, with the status of the first result, and changes nothing: no circuit opens or closes.
pub record_agent_run_result-once :
    (now later : ℕ) (first second : RunResult) (db d : Store)
    → HasDistinctKeys run_id db.agent_runs
    → run_is_running first.status ≡ false
    → second.agent_run_id ≡ first.agent_run_id
    → record_agent_run_result now first db ≡ (recorded first.status, d)
    → record_agent_run_result later second d ≡ (already_terminal first.status, d)
unfolding record_agent_run_result finish_run
record_agent_run_result-once now later first second db d distinct over same h =
    elim (Option-cases (first_row (can_finish first.agent_run_id) db.agent_runs)) [
      | inl lost ↦
          absurd
            (unfinished-recorded _ first.status (ap (λ (x : RunReply × Store). x.0) (rw lost at h)))
      | inr (r, found) ↦ elim (Option-cases (task_of (some r) db)) [
        | inl no_task ↦ absurd (
            unfinished-recorded _ first.status
              (ap (λ (x : RunReply × Store). x.0) (rw (found, no_task) at h)))
        | inr (t, of) ↦
            let updated = record db {
              agent_runs =
                  update_rows (can_finish first.agent_run_id) (finish_run now first) db.agent_runs;
            } in
            let after : judge_run now first r t updated ≡ d =
              ap (λ (x : RunReply × Store). x.1) (rw (found, of) at h) in
            let runs : d.agent_runs ≡ updated.agent_runs =
              rw (← after) (judge-runs now first r t updated) in
            already_over later second d (finish_run now first r)
              (rw (same, runs) (finished-none now first db.agent_runs over))
              (rw (same, runs) (finished-run now first db.agent_runs r distinct found)) over
      ]
    ]
