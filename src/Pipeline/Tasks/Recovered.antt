-- ===== src/Pipeline/Tasks/Recovered.antt =====
-- What reconcileExpiredLeasesWithClient of src/domain/pipeline.ts does to the tasks.
use clideck_mcp.Prelude.{
  ℕ, ◌≤◌, ◌<◌, Bool, true, false, ◌&&◌, ◌||◌, none, some, List, [], ◌∷◌, ◌≡◌, ◌⊎◌, refl, sym, ap,
  ◌∙◌, inl, inr, arith, All, leb, ◌==◌, ==_iff, Bool-cases, Option-cases,
}
use clideck_mcp.Prelude.Table.{
  update_rows, select_rows, select_rows-In, any-In, All-map, All-In, In, Related, Related-after,
}
use clideck_mcp.Pipeline.Tasks.Tables.{TaskStatus, PipelineTask, Store}
use clideck_mcp.Pipeline.Tasks.Columns.{is_held, is_queued, is_failed, is_reached}
use clideck_mcp.Pipeline.Tasks.Circuits.{is_none}
use clideck_mcp.Pipeline.Tasks.Runs.{ProcessingRun, of_runs, awaits, cancel_run_task}
use clideck_mcp.Pipeline.Tasks.Recover.{
  lease_has_run_out, recoverable, recover_task, map_rows, recover_all, exhausted_runs,
  recover_expired, reconcile_expired_leases,
}
use clideck_mcp.Pipeline.Tasks.Writes.{recover_all-tasks}
use clideck_mcp.Pipeline.Tasks.Ended.{Ended, end_runs-Ended, exhausted_runs-In}

-- What becomes of a row: one whose lease has run out is failed from the fifth attempt on and queued
-- before, without a lease; any other stays as it is.
pub data Recovered (now : ℕ) : PipelineTask → PipelineTask → Type 0 where
  stays : {t : PipelineTask} → lease_has_run_out now t ≡ false → Recovered now t t
  requeued :
      {t s : PipelineTask}
      → lease_has_run_out now t ≡ true
      → t.attempts < 5
      → s.status ≡ TaskStatus.queued
      → s.lease_token_hash ≡ none
      → s.completed_at ≡ none
      → s.attempts ≡ t.attempts
      → s.processing_run_id ≡ t.processing_run_id
      → Recovered now t s
  given_up :
      {t s : PipelineTask}
      → lease_has_run_out now t ≡ true
      → 5 ≤ t.attempts
      → s.status ≡ TaskStatus.failed
      → s.failure_code ≡ some "LEASE_ATTEMPTS_EXHAUSTED"
      → s.completed_at ≡ some now
      → Recovered now t s

recover_task-Recovered :
    (now : ℕ) (t : PipelineTask)
    → lease_has_run_out now t ≡ true
    → Recovered now t (recover_task now t)
unfolding recover_task
recover_task-Recovered now t h = elim (Bool-cases (leb 5 t.attempts)) [
  | inl spent ↦ rw spent (given_up h (ground arith) refl refl refl)
  | inr more ↦ rw more (requeued h (ground arith) refl refl refl refl refl)
]

-- Row by row, where nothing is locked.
update-Recovered :
    (now : ℕ) (rows : List PipelineTask)
    → Related
        (Recovered now)
        rows
        (update_rows (recoverable (λ _. false) now) (recover_task now) rows)
unfolding update_rows
update-Recovered now [] = tt
update-Recovered now (t ∷ rows) = elim (Bool-cases (lease_has_run_out now t)) [
  | inl out ↦ rw out (recover_task-Recovered now t out, update-Recovered now rows)
  | inr held ↦ rw held (stays held, update-Recovered now rows)
]

no_lease_out : (now : ℕ) (t s : PipelineTask) → Recovered now t s → lease_has_run_out now s ≡ false
no_lease_out now t s (stays h) = h
no_lease_out now t s (requeued h n q l c a r) = let e = is_held_queued q in ground arith
  where
    is_held_queued : {st : TaskStatus} → st ≡ TaskStatus.queued → is_held st ≡ false
    is_held_queued q = rw q refl
no_lease_out now t s (given_up h n q f c) = let e = is_held_failed q in ground arith
  where
    is_held_failed : {st : TaskStatus} → st ≡ TaskStatus.failed → is_held st ≡ false
    is_held_failed q = rw q refl

-- The run of a row that was given up.
pub record Exhausted (now : ℕ) (before : List PipelineTask) (run : ℕ) : Type 0 where
  pub task : PipelineTask
  pub was_there : In task before
  pub run_out : lease_has_run_out now task ≡ true
  pub spent : 5 ≤ task.attempts
  pub its_run : task.processing_run_id ≡ some run

map_rows-In :
    (set : PipelineTask → PipelineTask) (rows : List PipelineTask) (u : PipelineTask)
    → In u (map_rows set rows)
    → (t : PipelineTask) × In t rows × (set t ≡ u)
map_rows-In set [] u i = absurd i
map_rows-In set (t ∷ rows) u (inl e) = (t, inl refl, e)
map_rows-In set (t ∷ rows) u (inr i) = let (s, j, e) = map_rows-In set rows u i in (s, inr j, e)

given_up-attempts :
    (now : ℕ) (t : PipelineTask) → is_failed (recover_task now t).status ≡ true → 5 ≤ t.attempts
unfolding recover_task
given_up-attempts now t h = ground arith

recover_task-run :
    (now : ℕ) (t : PipelineTask) → (recover_task now t).processing_run_id ≡ t.processing_run_id
unfolding recover_task
recover_task-run now t = refl

abbrev pub expired : ℕ → List PipelineTask → List PipelineTask
expired now rows = map_rows (recover_task now) (select_rows (recoverable (λ _. false) now) rows)

expired-Exhausted :
    (now : ℕ) (rows : List PipelineTask) (run : ℕ)
    → In run (exhausted_runs (expired now rows))
    → Exhausted now rows run
expired-Exhausted now rows run i =
    let (u, j, failed, r) = exhausted_runs-In run (expired now rows) i in
    let (t, k, e) = map_rows-In (recover_task now) _ u j in
    let (l, hit) = select_rows-In (recoverable (λ _. false) now) rows t k in
    record {
      task = t;
      was_there = l;
      run_out = ground arith;
      spent = given_up-attempts now t (rw e failed);
      its_run = sym (recover_task-run now t) ∙ rw e r;
    }

-- A row that no worker holds: queued, held without a lease, or held by a lease that has run out but
-- not for the last time.
abbrev pub Waits : ℕ → PipelineTask → Type 0
Waits now t =
    (is_queued t.status ≡ true)
    ⊎ (((is_held t.status ≡ true) × (is_none t.lease_until ≡ true))
        ⊎ ((lease_has_run_out now t ≡ true) × (t.attempts < 5)))

-- Such a row is cancelled with its run, when a row of that run was given up.
pub record Cancelled (now : ℕ) (before : List PipelineTask) (t s : PipelineTask) : Type 0 where
  pub run : ℕ
  pub its_run : t.processing_run_id ≡ some run
  pub exhausted : Exhausted now before run
  pub waiting : Waits now t
  pub status : s.status ≡ TaskStatus.cancelled
  pub no_token : s.lease_token_hash ≡ none
  pub completion : is_none s.completed_at ≡ false
  pub tries : s.attempts ≡ t.attempts

abbrev pub Fate : ℕ → List PipelineTask → PipelineTask → PipelineTask → Type 0
Fate now before t s = Recovered now t s ⊎ Cancelled now before t s

of_runs-In :
    (ids : List ℕ) (t : PipelineTask)
    → of_runs ids t.processing_run_id ≡ true
    → (run : ℕ) × In run ids × (t.processing_run_id ≡ some run)
of_runs-In ids t h = elim (Option-cases t.processing_run_id) [
  | inl nothing ↦ absurd (let never : false ≡ true = rw nothing at h in cc)
  | inr (run, e) ↦
      let (i, j, same) = any-In (λ i. i == run) ids (rw e at h) in
      (i, j, e ∙ ap (λ n. some n) (sym ((==_iff i run).0 same)))
]

abbrev free_after : ℕ → PipelineTask → Bool
free_after now u =
    is_queued u.status
    || (is_held u.status && (is_none u.lease_until || is_reached u.lease_until now))

Recovered-Waits :
    (now : ℕ) (t u : PipelineTask)
    → Recovered now t u
    → free_after now u ≡ true
    → Waits now t × (u.processing_run_id ≡ t.processing_run_id) × (u.attempts ≡ t.attempts)
Recovered-Waits now t u (stays h) w = elim (Bool-cases (is_queued t.status)) [
  | inl yet ↦ (inl yet, refl, refl)
  | inr taken ↦ (inr (inl (ground arith, ground arith)), refl, refl)
]
Recovered-Waits now t u (requeued h n q l c a r) w = (inr (inr (h, n)), r, a)
Recovered-Waits now t u (given_up h n q f c) w =
    absurd (closed (is_none u.lease_until || is_reached u.lease_until now) q w)
  where
    closed :
        {st : TaskStatus} (b : Bool)
        → st ≡ TaskStatus.failed
        → (is_queued st || (is_held st && b)) ≡ true
        → ⊥
    closed b q w = let clash : false ≡ true = rw q at w in cc

cancel-Fate :
    (now : ℕ) (before : List PipelineTask) (ids : List ℕ) (t u : PipelineTask)
    → All (Exhausted now before) ids
    → Recovered now t u
    → awaits ids now u ≡ true
    → Cancelled now before t (cancel_run_task now u)
unfolding cancel_run_task
cancel-Fate now before ids t u all r hit =
    let (i, j, e) = of_runs-In ids u (ground arith) in
    let (waits, same, tries) = Recovered-Waits now t u r (ground arith) in
    record {
      run = i;
      its_run = sym same ∙ e;
      exhausted = All-In (Exhausted now before) ids i j all;
      waiting = waits;
      status = refl;
      no_token = refl;
      completion = refl;
      tries = tries;
    }

cancelled-Fate :
    (now : ℕ) (before : List PipelineTask) (ids : List ℕ)
    → All (Exhausted now before) ids
    → (xs ys : List PipelineTask) → Related (Recovered now) xs ys
    → Related (Fate now before) xs (update_rows (awaits ids now) (cancel_run_task now) ys)
unfolding update_rows
cancelled-Fate now before ids all [] [] p = tt
cancelled-Fate now before ids all [] (y ∷ ys) p = absurd p
cancelled-Fate now before ids all (x ∷ xs) [] p = absurd p
cancelled-Fate now before ids all (x ∷ xs) (y ∷ ys) (p, ps) =
    let rest = cancelled-Fate now before ids all xs ys ps in
    elim (Bool-cases (awaits ids now y)) [
      | inl hit ↦ rw hit (inr (cancel-Fate now before ids x y all p hit), rest)
      | inr miss ↦ rw miss (inl p, rest)
    ]

Ended-Fate :
    (now : ℕ) (rows after : List PipelineTask)
    → Ended
        (exhausted_runs (expired now rows))
        now
        (update_rows (recoverable (λ _. false) now) (recover_task now) rows)
        after
    → Related (Fate now rows) rows after
Ended-Fate now rows after e =
    let exhausted =
      All-map (λ run. In run (exhausted_runs (expired now rows))) (Exhausted now rows)
        (expired-Exhausted now rows) e.ids e.within in
    rw e.rows (cancelled-Fate now rows e.ids exhausted rows _ (update-Recovered now rows))

Fate-no_lease_out :
    (now : ℕ) (before : List PipelineTask) (t s : PipelineTask)
    → Fate now before t s
    → lease_has_run_out now s ≡ false
Fate-no_lease_out now before t s (inl r) = no_lease_out now t s r
Fate-no_lease_out now before t s (inr c) = let e = not_held c.status in ground arith
  where
    not_held : {st : TaskStatus} → st ≡ TaskStatus.cancelled → is_held st ≡ false
    not_held q = rw q refl

-- When no row of pipeline_tasks is locked, reconcileExpiredLeases keeps its rows in their order. A
-- row whose lease has run out is failed with LEASE_ATTEMPTS_EXHAUSTED if it had five attempts or
-- more, else it is queued again with the same number of attempts and no lease token, or cancelled;
-- all other rows stay or are cancelled. Cancelled, with a completion time and no lease token, is
-- only a row of the processing run of a row that was failed here, and only one that was queued, was
-- held without a lease, or was not failed though its lease had run out. Afterwards no lease has run
-- out. This holds whatever processing runs there are, in whatever status, locked or not.
pub reconcile-Recovered :
    (locked_run : ProcessingRun → Bool) (now : ℕ) (runs : List ProcessingRun) (db : Store)
    → Related
        (Fate now db.tasks)
        db.tasks
        (reconcile_expired_leases (λ _. false) locked_run now runs db).1.tasks
      × All
          (λ t. lease_has_run_out now t ≡ false)
          (reconcile_expired_leases (λ _. false) locked_run now runs db).1.tasks
unfolding reconcile_expired_leases recover_expired
reconcile-Recovered locked_run now runs db =
    let unlocked = recoverable (λ _. false) now in
    let recovered = record db { tasks = update_rows unlocked (recover_task now) db.tasks } in
    let ended =
      end_runs-Ended locked_run (exhausted_runs (expired now db.tasks)) now runs
        (recover_all now (expired now db.tasks) recovered) in
    let fates =
      Ended-Fate now db.tasks _
        (rw (recover_all-tasks now (expired now db.tasks) recovered) at ended) in
    (
      fates,
      Related-after (Fate now db.tasks) (λ t. lease_has_run_out now t ≡ false)
          (Fate-no_lease_out now db.tasks) db.tasks _ fates,
    )
