-- ===== src/Expert/Milestones.antt =====
-- The stage that a requester sees (toPublicTaskStatus of src/domain/tasks.ts) after the worker's
-- catch branch (processNextCandidate of src/domain/publication.ts).
use clideck_mcp.Prelude.{
  ℕ, String, true, false, Option, List, [], ◌∷◌, ◌++◌, ◌==◌, ◌≡◌, refl, ap, ◌∙◌, inl, inr, arith,
  Bool-cases,
}
use clideck_mcp.Expert.Store.{Status, Stage, TaskRow, PublicEvent, Db, status_eq}
use clideck_mcp.Expert.Rows.{In}
use clideck_mcp.Expert.Client.{
  to_public_task_status, events_of, last_stage, fallback_stage, fallback_progress,
}
use clideck_mcp.Expert.Worker.{in_status, rejected_row, reject_candidate}
use clideck_mcp.Expert.Races.{update_where-In_other}

events_of-append :
    (id : ℕ) (events : List PublicEvent) (e : PublicEvent)
    → (e.task_id == id) ≡ true
    → events_of id (events ++ e ∷ []) ≡ events_of id events ++ e ∷ []
unfolding events_of
events_of-append id [] e mine = rw mine refl
events_of-append id (x ∷ events) e mine = elim (Bool-cases (x.task_id == id)) [
  | inl hit ↦ rw hit (ap (λ xs. x ∷ xs) (events_of-append id events e mine))
  | inr miss ↦ rw miss (events_of-append id events e mine)
]

last_stage-append :
    (stage : Stage) (percent : ℕ) (events : List PublicEvent) (e : PublicEvent)
    → last_stage stage percent (events ++ e ∷ []) ≡ (e.stage, e.progress_percent)
last_stage-append stage percent [] e = refl
last_stage-append stage percent (x ∷ events) e =
    last_stage-append x.stage x.progress_percent events e

-- The catch branch of processNextCandidate leaves the row of a task that is no longer being
-- published, say one that is completed, as it is; but it adds the event 'failed' to it, so that the
-- requester is shown the stage 'failed' beside the task's own status.
pub rejected_stage :
    (sha256 : String → String) (now : ℕ) (r : TaskRow) (answer : Option String) (db : Db)
    → In r db.tasks
    → status_eq r.status Status.publishing ≡ false
    → In r (reject_candidate sha256 now r.id db).tasks
      × ((to_public_task_status r answer
            (events_of r.id (reject_candidate sha256 now r.id db).events)).stage
          ≡ Stage.failed)
      × ((to_public_task_status r answer
            (events_of r.id (reject_candidate sha256 now r.id db).events)).status
          ≡ r.status)
unfolding reject_candidate to_public_task_status
rejected_stage sha256 now r answer db i other =
    let e : PublicEvent = record {
      task_id = r.id;
      stage = Stage.failed;
      progress_percent = 100;
      public_message = "Candidate did not pass the publication policy gate.";
      created_at = now;
    } in
    let mine : (r.id == r.id) ≡ true = ground arith in
    let fallback = fallback_stage r.status in
    (
      update_where-In_other (in_status r.id Status.publishing) (rejected_row now) db.tasks r i
          (ground arith),
      ap (λ es. (last_stage fallback (fallback_progress fallback) es).0)
            (events_of-append r.id db.events e mine)
          ∙ ap (λ p. p.0)
              (last_stage-append fallback (fallback_progress fallback) (events_of r.id db.events)
                e),
      refl,
    )
