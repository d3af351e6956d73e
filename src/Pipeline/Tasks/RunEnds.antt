-- ===== src/Pipeline/Tasks/RunEnds.antt =====
-- The end of a processing run whose task is given up: reconcileExpiredLeasesWithClient of
-- src/domain/pipeline.ts with reconcileTerminalProcessingRunsWithClient of src/domain/intake.ts.
use clideck_mcp.Prelude.{
  ℕ, ◌≤◌, Bool, true, false, ◌&&◌, ◌||◌, not, Option, none, some, List, [], ◌∷◌, ◌≡◌, refl, sym, ap,
  ◌∙◌, inl, inr, arith, All, any, ◌==◌, ==_iff, Bool-cases, Option-cases,
}
use clideck_mcp.Prelude.Table.{
  update_rows, select_rows, In, In-any, In-select_rows, In-update_rows, update_rows-All, All-each,
}
use clideck_mcp.Pipeline.Tasks.Tables.{PipelineTask, Store}
use clideck_mcp.Pipeline.Tasks.Columns.{is_failed, is_queued, id_is}
use clideck_mcp.Pipeline.Tasks.Runs.{
  ProcessingRun, run_is_active, is_asked, is_ending, run_ids, of_runs, awaits, cancel_run_task,
  failed_of, reconcile_terminal_processing_runs,
}
use clideck_mcp.Pipeline.Tasks.Recover.{
  recoverable, recover_task, map_rows, recover_all, exhausted_runs, without, distinct_ids, end_runs,
  recover_expired, reconcile_expired_leases,
}
use clideck_mcp.Pipeline.Tasks.Writes.{recover_all-tasks}
use clideck_mcp.Pipeline.Tasks.Ended.{end_work-tasks}
use clideck_mcp.Pipeline.Tasks.Recovered.{Exhausted, expired}

In-without : (n m : ℕ) (ns : List ℕ) → In m ns → (m == n) ≡ false → In m (without n ns)
In-without n m [] i h = absurd i
In-without n m (k ∷ ns) (inl e) h = let other : (k == n) ≡ false = rw e h in rw other (inl e)
In-without n m (k ∷ ns) (inr i) h =
    let later = In-without n m ns i h in
    elim (Bool-cases (k == n)) [ inl same ↦ rw same later | inr other ↦ rw other (inr later) ]

In-distinct_ids : (m : ℕ) (ns : List ℕ) → In m ns → In m (distinct_ids ns)
In-distinct_ids m [] i = absurd i
In-distinct_ids m (n ∷ ns) (inl e) = inl e
In-distinct_ids m (n ∷ ns) (inr i) =
    let later = In-distinct_ids m ns i in
    elim (Bool-cases (m == n)) [
      | inl same ↦ inl (sym ((==_iff m n).0 same))
      | inr other ↦ inr (In-without n m (distinct_ids ns) later other)
    ]

is_asked-In : (ids : List ℕ) (m : ℕ) → In m ids → is_asked (some ids) m ≡ true
is_asked-In ids m i = In-any (λ i. i == m) ids m i ((==_iff m m).1 refl)

In-run_ids :
    (runs : List ProcessingRun) (run : ProcessingRun) → In run runs → In run.id (run_ids runs)
In-run_ids [] run i = absurd i
In-run_ids (r ∷ runs) run (inl e) = inl (ap (λ (x : ProcessingRun). x.id) e)
In-run_ids (r ∷ runs) run (inr i) = inr (In-run_ids runs run i)

all_four :
    (a b c d e : Bool)
    → a ≡ true
    → b ≡ true
    → c ≡ true
    → d ≡ false
    → (a && b && (c || e) && not d) ≡ true
all_four a b c d e p q r s = ground arith

-- No task of the run is queued.
abbrev pub HasNoneQueued : ℕ → List PipelineTask → Type 0
HasNoneQueued run rows =
    All (λ (t : PipelineTask). (id_is t.processing_run_id run && is_queued t.status) ≡ false) rows

cancelled-queued :
    (now run : ℕ) (t : PipelineTask)
    → (id_is (cancel_run_task now t).processing_run_id run
        && is_queued (cancel_run_task now t).status)
      ≡ false
unfolding cancel_run_task
cancelled-queued now run t = ground arith

kept-queued :
    (ids : List ℕ) (now run : ℕ) (t : PipelineTask)
    → In run ids
    → awaits ids now t ≡ false
    → (id_is t.processing_run_id run && is_queued t.status) ≡ false
kept-queued ids now run t i miss = elim (Bool-cases (id_is t.processing_run_id run)) [
  | inr other ↦ rw other refl
  | inl mine ↦ waits (of_runs ids t.processing_run_id) _ (asked t.processing_run_id mine) miss
]
  where
    asked : (o : Option ℕ) → id_is o run ≡ true → of_runs ids o ≡ true
    asked none h = cc
    asked (some n) h =
        let same : n ≡ run = (==_iff n run).0 h in
        rw same (In-any (λ i. i == run) ids run i ((==_iff run run).1 refl))

    waits :
        (a c : Bool)
        → a ≡ true
        → (a && (is_queued t.status || c)) ≡ false
        → (id_is t.processing_run_id run && is_queued t.status) ≡ false
    waits a c p q = ground arith

none_queued :
    (ids : List ℕ) (now run : ℕ) (rows : List PipelineTask)
    → In run ids
    → HasNoneQueued run (update_rows (awaits ids now) (cancel_run_task now) rows)
none_queued ids now run rows i =
    update_rows-All
      (λ (t : PipelineTask). (id_is t.processing_run_id run && is_queued t.status) ≡ false)
      (awaits ids now) (cancel_run_task now) rows
      (All-each _
        (λ t. ((λ hit. cancelled-queued now run t), (λ miss. kept-queued ids now run t i miss)))
        rows)

-- A run that was asked for, has failed and can be closed has no queued task left.
end_runs-HasNoneQueued :
    (locked : ProcessingRun → Bool) (asked : List ℕ) (now : ℕ) (runs : List ProcessingRun)
    (db : Store) (run : ProcessingRun)
    → In run runs
    → run_is_active run ≡ true
    → locked run ≡ false
    → In run.id asked
    → any (failed_of run.id) db.tasks ≡ true
    → HasNoneQueued run.id (end_runs locked asked now runs db).1.tasks
unfolding end_runs reconcile_terminal_processing_runs
end_runs-HasNoneQueued locked [] now runs db run i active free j failed = absurd j
end_runs-HasNoneQueued locked (n ∷ ns) now runs db run i active free j failed =
    let ending =
      all_four (run_is_active run) (is_asked (some (distinct_ids (n ∷ ns))) run.id)
        (any (failed_of run.id) db.tasks) (locked run) _ active
        (is_asked-In (distinct_ids (n ∷ ns)) run.id (In-distinct_ids run.id (n ∷ ns) j)) failed
        free in
    let chosen = In-run_ids _ run (
      In-select_rows (is_ending locked (some (distinct_ids (n ∷ ns))) now db.tasks) runs run i
        ending) in
    rw (end_work-tasks now _ db) (none_queued _ now run.id db.tasks chosen)

In-map_rows :
    (set : PipelineTask → PipelineTask) (rows : List PipelineTask) (t : PipelineTask)
    → In t rows
    → In (set t) (map_rows set rows)
In-map_rows set [] t i = absurd i
In-map_rows set (s ∷ rows) t (inl e) = inl (ap set e)
In-map_rows set (s ∷ rows) t (inr i) = inr (In-map_rows set rows t i)

In-exhausted_runs :
    (run : ℕ) (rows : List PipelineTask) (t : PipelineTask)
    → In t rows
    → is_failed t.status ≡ true
    → t.processing_run_id ≡ some run
    → In run (exhausted_runs rows)
In-exhausted_runs run [] t i failed mine = absurd i
In-exhausted_runs run (s ∷ rows) t (inl e) failed mine =
    let its_run : s.processing_run_id ≡ some run = rw e mine in
    let its_end : is_failed s.status ≡ true = rw e failed in rw (its_run, its_end) (inl refl)
In-exhausted_runs run (s ∷ rows) t (inr i) failed mine =
    let later = In-exhausted_runs run rows t i failed mine in
    elim (Option-cases s.processing_run_id) [
      | inl nothing ↦ rw nothing later
      | inr (r, e) ↦ elim (Bool-cases (is_failed s.status)) [
        | inl over ↦ rw (e, over) (inr later)
        | inr other ↦ rw (e, other) later
      ]
    ]

given_up-failed :
    (now : ℕ) (t : PipelineTask) → 5 ≤ t.attempts → is_failed (recover_task now t).status ≡ true
unfolding recover_task
given_up-failed now t h = ground arith

given_up-run :
    (now : ℕ) (t : PipelineTask) → (recover_task now t).processing_run_id ≡ t.processing_run_id
unfolding recover_task
given_up-run now t = refl

abbrev unlocked : ℕ → PipelineTask → Bool
unlocked = recoverable (λ _. false)

Exhausted-expired :
    (now : ℕ) (rows : List PipelineTask) (run : ℕ)
    → Exhausted now rows run
    → In run (exhausted_runs (expired now rows))
Exhausted-expired now rows run x =
    let chosen =
      In-select_rows (unlocked now) rows x.task x.was_there (let h = x.run_out in ground arith) in
    In-exhausted_runs run (expired now rows) (recover_task now x.task)
      (In-map_rows (recover_task now) (select_rows (unlocked now) rows) x.task chosen)
      (given_up-failed now x.task x.spent) (given_up-run now x.task ∙ x.its_run)

Exhausted-failed :
    (now : ℕ) (rows : List PipelineTask) (run : ℕ)
    → Exhausted now rows run
    → any (failed_of run) (update_rows (unlocked now) (recover_task now) rows) ≡ true
Exhausted-failed now rows run x =
    let there =
      In-update_rows (unlocked now) (recover_task now) rows x.task x.was_there
        (let h = x.run_out in ground arith) in
    In-any (failed_of run) _ (recover_task now x.task) there (
      both (id_is (recover_task now x.task).processing_run_id run) _
        (is_its_run (given_up-run now x.task ∙ x.its_run)) (given_up-failed now x.task x.spent))
  where
    both : (a b : Bool) → a ≡ true → b ≡ true → (a && b) ≡ true
    both a b p q = ground arith

    is_its_run : {o : Option ℕ} → o ≡ some run → id_is o run ≡ true
    is_its_run e = rw e ((==_iff run run).1 refl)

-- When no row of pipeline_tasks is locked: if a row whose lease has run out after five attempts or
-- more has a processing run, and that run is in an active status and not locked, then after
-- reconcileExpiredLeases no task of that run is queued.
pub reconcile-HasNoneQueued :
    (locked_run : ProcessingRun → Bool) (now : ℕ) (runs : List ProcessingRun) (db : Store)
    (run : ProcessingRun)
    → In run runs
    → run_is_active run ≡ true
    → locked_run run ≡ false
    → Exhausted now db.tasks run.id
    → HasNoneQueued run.id (reconcile_expired_leases (λ _. false) locked_run now runs db).1.tasks
unfolding reconcile_expired_leases recover_expired
reconcile-HasNoneQueued locked_run now runs db run i active free x =
    let recovered = record db { tasks = update_rows (unlocked now) (recover_task now) db.tasks } in
    end_runs-HasNoneQueued locked_run (exhausted_runs (expired now db.tasks)) now runs
      (recover_all now (expired now db.tasks) recovered) run i active free
      (Exhausted-expired now db.tasks run.id x)
      (rw (recover_all-tasks now (expired now db.tasks) recovered)
        (Exhausted-failed now db.tasks run.id x))
