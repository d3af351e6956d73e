-- ===== src/Pipeline/Tasks/Ended.antt =====
-- The tasks that reconcileTerminalProcessingRunsWithClient of src/domain/intake.ts cancels when the
-- recovery of expired leases of src/domain/pipeline.ts has given tasks up.
use clideck_mcp.Prelude.{
  ℕ, Bool, true, false, ◌&&◌, some, List, [], ◌∷◌, ◌≡◌, refl, sym, inl, inr, arith, All, ◌==◌,
  ==_iff, Bool-cases, Option-cases,
}
use clideck_mcp.Prelude.Table.{update_rows, select_rows, In, any-In}
use clideck_mcp.Pipeline.Tasks.Tables.{PipelineTask, Store}
use clideck_mcp.Pipeline.Tasks.Columns.{is_failed}
use clideck_mcp.Pipeline.Tasks.Runs.{
  ProcessingRun, run_is_active, is_asked, is_ending, run_ids, awaits, cancel_run_task, end_work,
  reconcile_terminal_processing_runs,
}
use clideck_mcp.Pipeline.Tasks.Recover.{exhausted_runs, without, distinct_ids, end_runs}
use mathlib.Core.Path.{subst}

no_runs : (now : ℕ) (t : PipelineTask) → awaits [] now t ≡ false
no_runs now t = ground arith

update-no_runs :
    (now : ℕ) (rows : List PipelineTask)
    → update_rows (awaits [] now) (cancel_run_task now) rows ≡ rows
unfolding update_rows
update-no_runs now [] = refl
update-no_runs now (t ∷ rows) = rw (no_runs now t, update-no_runs now rows) refl

pub end_work-tasks :
    (now : ℕ) (ids : List ℕ) (db : Store)
    → (end_work now ids db).tasks ≡ update_rows (awaits ids now) (cancel_run_task now) db.tasks
unfolding end_work
end_work-tasks now [] db = sym (update-no_runs now db.tasks)
end_work-tasks now (id ∷ ids) db = refl

without-In : (n m : ℕ) (ns : List ℕ) → In m (without n ns) → In m ns
without-In n m [] i = absurd i
without-In n m (k ∷ ns) i =
    let later = without-In n m ns in
    elim (Bool-cases (k == n)) [
      | inl same ↦ inr (later (rw same at i))
      | inr other ↦ either (rw other at i) later
    ]
  where
    either : In m (k ∷ without n ns) → (In m (without n ns) → In m ns) → In m (k ∷ ns)
    either (inl e) later = inl e
    either (inr j) later = inr (later j)

distinct_ids-In : (m : ℕ) (ns : List ℕ) → In m (distinct_ids ns) → In m ns
distinct_ids-In m [] i = absurd i
distinct_ids-In m (n ∷ ns) (inl e) = inl e
distinct_ids-In m (n ∷ ns) (inr i) = inr (distinct_ids-In m ns (without-In n m (distinct_ids ns) i))

asked-In : (ids : List ℕ) (id : ℕ) → is_asked (some ids) id ≡ true → In id ids
asked-In ids id h =
    let (i, j, e) = any-In (λ i. i == id) ids h in subst (λ x. In x ids) ((==_iff i id).0 e) j

-- The tasks of some of the runs that were asked for are cancelled.
pub record Ended (asked : List ℕ) (now : ℕ) (before after : List PipelineTask) : Type 0 where
  pub ids : List ℕ
  pub within : All (λ id. In id asked) ids
  pub rows : after ≡ update_rows (awaits ids now) (cancel_run_task now) before

second_of : (a b c d : Bool) → (a && b && c && d) ≡ true → b ≡ true
second_of a b c d h = ground arith

ending-within :
    (locked : ProcessingRun → Bool) (ids : List ℕ) (now : ℕ) (tasks : List PipelineTask)
    (runs : List ProcessingRun)
    → All
        (λ id. In id ids)
        (run_ids (select_rows (is_ending locked (some (distinct_ids ids)) now tasks) runs))
unfolding select_rows
ending-within locked ids now tasks [] = tt
ending-within locked ids now tasks (run ∷ runs) =
    elim (Bool-cases (is_ending locked (some (distinct_ids ids)) now tasks run)) [
      | inl hit ↦ rw hit (
        distinct_ids-In run.id ids
            (asked-In (distinct_ids ids) run.id (second_of (run_is_active run) _ _ _ hit)),
        ending-within locked ids now tasks runs,
      )
      | inr miss ↦ rw miss (ending-within locked ids now tasks runs)
    ]

pub end_runs-Ended :
    (locked : ProcessingRun → Bool) (asked : List ℕ) (now : ℕ) (runs : List ProcessingRun)
    (db : Store)
    → Ended asked now db.tasks (end_runs locked asked now runs db).1.tasks
unfolding end_runs reconcile_terminal_processing_runs
end_runs-Ended locked [] now runs db = record {
  ids = [];
  within = tt;
  rows = sym (update-no_runs now db.tasks);
}
end_runs-Ended locked (n ∷ ns) now runs db = record {
  ids = _;
  within = ending-within locked (n ∷ ns) now db.tasks runs;
  rows = end_work-tasks now _ db;
}

-- An exhausted run is the run of a failed row.
pub exhausted_runs-In :
    (run : ℕ) (rows : List PipelineTask)
    → In run (exhausted_runs rows)
    → (t : PipelineTask) × In t rows
      × (is_failed t.status ≡ true)
      × (t.processing_run_id ≡ some run)
exhausted_runs-In run [] i = absurd i
exhausted_runs-In run (t ∷ rows) i =
    let later = λ (j : In run (exhausted_runs rows)). after (exhausted_runs-In run rows j) in
    elim (Option-cases t.processing_run_id) [
      | inl nothing ↦ later (rw nothing at i)
      | inr (r, e) ↦ elim (Bool-cases (is_failed t.status)) [
        | inr other ↦ later (rw (e, other) at i)
        | inl failed ↦ first r later e failed (rw (e, failed) at i)
      ]
    ]
  where
    Found : List PipelineTask → Type 0
    Found rs =
        (s : PipelineTask) × In s rs
        × (is_failed s.status ≡ true)
        × (s.processing_run_id ≡ some run)

    after : Found rows → Found (t ∷ rows)
    after (s, k, f, e) = (s, inr k, f, e)

    first :
        (r : ℕ)
        → (In run (exhausted_runs rows) → Found (t ∷ rows))
        → t.processing_run_id ≡ some r
        → is_failed t.status ≡ true
        → In run (r ∷ exhausted_runs rows)
        → Found (t ∷ rows)
    first r later e failed (inl same) = (t, inl refl, failed, rw (← same) e)
    first r later e failed (inr j) = later j
