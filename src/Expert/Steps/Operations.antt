-- ===== src/Expert/Steps/Operations.antt =====
-- The operations of researchers, requesters and the worker on the table of expert tasks, as row
-- steps: each takes the rows it finds on.
use clideck_mcp.Prelude.{
  ℕ, String, Bool, true, false, Option, none, some, ◌≡◌, inl, inr, arith, Bool-cases, Option-cases,
}
use clideck_mcp.Expert.Store.{
  Status, TaskRow, Db, is_terminal, is_leased, update_where, first_where, holds_lease, status_eq,
  input_required,
}
use clideck_mcp.Expert.Rows.{HasDistinctIds, first_where-In, Related-trans}
use clideck_mcp.Expert.Lifecycle.{
  RowStep, claims, continues, cancels, reserves, completes, rejects, expires, recovers, requeues,
  RowPath, RowPath-trans,
}
use clideck_mcp.Expert.Claims.{next_claimable-In}
use clideck_mcp.Expert.Researcher.{
  next_claimable, claim_research_task, claim_row, consumed, with_lease,
}
use clideck_mcp.Expert.Client.{
  PublicActor, load_authorized_task, continue_row, cancel_row, continue_expert_task,
  cancel_expert_task,
}
use clideck_mcp.Expert.Worker.{
  Publication, next_validating, in_status, reserve_row, publishing_lease, completed_row,
  rejected_row, publish_locked, is_overdue, expire_row, lease_expired, recover_row,
  publishing_expired, requeue_row, reserve_candidate, publish_candidate, run_worker_maintenance,
}
use clideck_mcp.Expert.Steps.Updates.{Advances, Advances-refl, update-Advances, loaded_step}

holds_lease-leased :
    (public_id token : String) (now : ℕ) (r : TaskRow)
    → holds_lease public_id token now r ≡ true
    → is_leased r.status ≡ true
holds_lease-leased public_id token now r h = ground arith

module _ (sha256 : String → String) where
  consumed-Advances :
      {A : Type 0} (held : TaskRow → Bool) (set : TaskRow → TaskRow) (reply : TaskRow → A)
      (after : TaskRow → Db → Db) (db : Db) (found : Option TaskRow)
      → ((r : TaskRow) (d : Db) → (after r d).tasks ≡ d.tasks)
      → ((r : TaskRow) → held r ≡ true → RowStep sha256 r (set r))
      → Advances sha256 db.tasks (consumed sha256 held set reply after db found).1.tasks
  consumed-Advances held set reply after db none keeps steps = Advances-refl sha256 db.tasks
  consumed-Advances held set reply after db (some r) keeps steps =
      rw (keeps r (record db { tasks = update_where held set db.tasks }))
        (update-Advances sha256 held set db.tasks steps)

  pub claim-Advances :
      (now lease_seconds : ℕ) (locked : TaskRow → Bool) (researcher token : String) (db : Db)
      → HasDistinctIds db.tasks
      → Advances sha256 db.tasks
          (claim_research_task sha256 now lease_seconds locked researcher token db).1.tasks
  unfolding claim_research_task
  claim-Advances now lease_seconds locked researcher token db d =
      elim (Option-cases (next_claimable locked now db.tasks)) [
        | inl nobody ↦ rw nobody (Advances-refl sha256 db.tasks)
        | inr (r, found) ↦
            let (i, free) = next_claimable-In locked now db.tasks found in
            rw found (
              loaded_step sha256 (claim_row sha256 now lease_seconds researcher token) db r d i
                (claims now lease_seconds researcher token r (ground arith)))
      ]

  pub lease_op-Advances :
      {A : Type 0} (now : ℕ) (public_id token : String) (set : TaskRow → TaskRow)
      (reply : TaskRow → A) (after : TaskRow → Db → Db) (db : Db)
      → ((r : TaskRow) (d : Db) → (after r d).tasks ≡ d.tasks)
      → ((r : TaskRow) → is_leased r.status ≡ true → RowStep sha256 r (set r))
      → Advances sha256 db.tasks (with_lease sha256 now public_id token set reply after db).1.tasks
  lease_op-Advances now public_id token set reply after db keeps steps =
      consumed-Advances (holds_lease public_id (sha256 token) now) set reply after db
        (first_where (holds_lease public_id (sha256 token) now) db.tasks) keeps
        (λ r held. steps r (holds_lease-leased public_id (sha256 token) now r held))

  pub continue-Advances :
      (now : ℕ) (actor : PublicActor) (public_id : String) (token : Option String)
      (message : String) (db : Db)
      → HasDistinctIds db.tasks
      → Advances sha256 db.tasks
          (continue_expert_task sha256 now actor public_id token message db).1.tasks
  unfolding continue_expert_task load_authorized_task
  continue-Advances now actor public_id token message db d =
      elim (Option-cases (load_authorized_task sha256 now actor public_id token db)) [
        | inl nobody ↦ rw nobody (Advances-refl sha256 db.tasks)
        | inr (t, found) ↦
            let (i, _) = first_where-In _ db.tasks found in
            elim (Bool-cases (status_eq t.status input_required)) [
              | inr other ↦ rw (found, other) (Advances-refl sha256 db.tasks)
              | inl waiting ↦
                  rw (found, waiting)
                    (loaded_step sha256 (continue_row sha256 now) db t d i
                      (continues now t waiting))
            ]
      ]

  pub cancel-Advances :
      (now : ℕ) (actor : PublicActor) (public_id : String) (token : Option String) (db : Db)
      → HasDistinctIds db.tasks
      → Advances sha256 db.tasks (cancel_expert_task sha256 now actor public_id token db).1.tasks
  unfolding cancel_expert_task load_authorized_task
  cancel-Advances now actor public_id token db d =
      elim (Option-cases (load_authorized_task sha256 now actor public_id token db)) [
        | inl nobody ↦ rw nobody (Advances-refl sha256 db.tasks)
        | inr (t, found) ↦
            let (i, _) = first_where-In _ db.tasks found in
            elim (Bool-cases (is_terminal t.status)) [
              | inl over ↦ rw (found, over) (Advances-refl sha256 db.tasks)
              | inr running ↦
                  rw (found, running)
                    (loaded_step sha256 (cancel_row sha256 now) db t d i (cancels now t running))
            ]
      ]

  pub reserve-Advances :
      (now : ℕ) (locked : TaskRow → Bool) (db : Db)
      → Advances sha256 db.tasks (reserve_candidate now locked db).1.tasks
  unfolding reserve_candidate
  reserve-Advances now locked db =
      elim (Option-cases (next_validating locked db.artifacts db.tasks)) [
        | inl nobody ↦ rw nobody (Advances-refl sha256 db.tasks)
        | inr ((r, a), found) ↦ rw found (
            update-Advances sha256 (in_status r.id Status.validating) (reserve_row now) db.tasks
              (λ s hit. reserves now s (ground arith)))
      ]

  pub publish-Advances :
      (now id : ℕ) (published : Option Publication) (blocking : Bool) (db : Db)
      → Advances sha256 db.tasks (publish_candidate sha256 now id published blocking db).tasks
  unfolding publish_candidate
  publish-Advances now id published blocking db =
      go published blocking (first_where (publishing_lease id now) db.tasks)
    where
      rejected :
          Advances sha256 db.tasks
            (update_where (in_status id Status.publishing) (rejected_row now) db.tasks)
      rejected =
          update-Advances sha256 (in_status id Status.publishing) (rejected_row now) db.tasks
            (λ s hit. rejects now s (ground arith))

      go :
          (p : Option Publication) (conflict : Bool) (found : Option TaskRow)
          → Advances sha256 db.tasks (publish_locked sha256 now id p conflict db found).tasks
      go p conflict none = rejected
      go p true (some r) = rejected
      go none false (some r) = rejected
      go (some q) false (some r) =
          update-Advances sha256 (in_status id Status.publishing) (completed_row now q) db.tasks
            (λ s hit. completes now q s (ground arith))

  pub maintain-Advances :
      (now : ℕ) (db : Db) → Advances sha256 db.tasks (run_worker_maintenance now db).tasks
  unfolding run_worker_maintenance
  maintain-Advances now db =
      let after_expiry = update_where (is_overdue now) (expire_row now) db.tasks in
      let after_recovery = update_where (lease_expired now) (recover_row now) after_expiry in
      Related-trans (RowPath sha256) (λ a b c. RowPath-trans) db.tasks after_recovery _
        (Related-trans (RowPath sha256) (λ a b c. RowPath-trans) db.tasks after_expiry
          after_recovery
          (update-Advances sha256 (is_overdue now) (expire_row now) db.tasks
            (λ r hit. expires now r (ground arith)))
          (update-Advances sha256 (lease_expired now) (recover_row now) after_expiry
            (λ r hit. recovers now r (ground arith))))
        (update-Advances sha256 (publishing_expired now) (requeue_row now) after_recovery
          (λ r hit. requeues now r (ground arith)))
