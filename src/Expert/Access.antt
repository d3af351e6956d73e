-- ===== src/Expert/Access.antt =====
-- Who may see and change an expert task through src/domain/tasks.ts.
use clideck_mcp.Prelude.{
  ℕ, String, Bool, true, Option, ◌≡◌, refl, ◌⊎◌, inl, inr, Bool-cases, Option-cases,
}
use clideck_mcp.Expert.Store.{
  input_required, TaskRow, Db, status_eq, is_terminal, first_where, update_where, has_id,
}
use clideck_mcp.Expert.Rows.{
  In, HasDistinctIds, Related, Related-refl, first_where-In, update_by_id-Related,
}
use clideck_mcp.Expert.Client.{
  PublicActor, is_authorized, load_authorized_task, continue_expert_task, cancel_expert_task,
  continue_row, cancel_row,
}

-- Unchanged, or a row of this id that the actor may see.
abbrev pub OnlySeen :
    (String → String) → ℕ → PublicActor → String → Option String → TaskRow → TaskRow → Type 0
OnlySeen sha256 now actor public_id access_token r s =
    (s ≡ r) ⊎ (is_authorized sha256 now actor public_id access_token r ≡ true)

-- With a distinct primary key, continueExpertTask and cancelExpertTask leave every row as it is
-- except one with the given public id that has not expired and that the actor may see: a tenant
-- those of its tenant, an anonymous caller those of no tenant whose access token it presents.
pub OnlySeen-changed :
    (sha256 : String → String) (now : ℕ) (actor : PublicActor) (public_id : String)
    (access_token : Option String) (message : String) (db : Db)
    → HasDistinctIds db.tasks
    → Related
        (OnlySeen sha256 now actor public_id access_token)
        db.tasks
        (continue_expert_task sha256 now actor public_id access_token message db).1.tasks
      × Related
          (OnlySeen sha256 now actor public_id access_token)
          db.tasks
          (cancel_expert_task sha256 now actor public_id access_token db).1.tasks
unfolding continue_expert_task cancel_expert_task load_authorized_task
OnlySeen-changed sha256 now actor public_id access_token message db d =
    elim (Option-cases (first_where seen db.tasks)) [
      | inl nobody ↦ rw nobody (unchanged, unchanged)
      | inr (t, found) ↦
          let (i, allowed) = first_where-In seen db.tasks found in
          rw found (
            elim (Bool-cases (status_eq t.status input_required)) [
              | inl waiting ↦ rw waiting (changed (continue_row sha256 now) t i allowed)
              | inr other ↦ rw other unchanged
            ],
            elim (Bool-cases (is_terminal t.status)) [
              | inl over ↦ rw over unchanged
              | inr running ↦ rw running (changed (cancel_row sha256 now) t i allowed)
            ],
          )
    ]
  where
    seen : TaskRow → Bool
    seen = is_authorized sha256 now actor public_id access_token

    R : TaskRow → TaskRow → Type 0
    R = OnlySeen sha256 now actor public_id access_token

    unchanged : Related R db.tasks db.tasks
    unchanged = Related-refl R (λ r. inl refl) db.tasks

    changed :
        (set : TaskRow → TaskRow) (t : TaskRow)
        → In t db.tasks
        → seen t ≡ true
        → Related R db.tasks (update_where (has_id t.id) set db.tasks)
    changed set t i allowed =
        update_by_id-Related R (λ r. inl refl) set db.tasks t d i (inr allowed)
