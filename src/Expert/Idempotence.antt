-- ===== src/Expert/Idempotence.antt =====
-- createExpertTask of src/domain/tasks.ts called again with the same idempotency key.
use clideck_mcp.Prelude.{
  ℕ, String, Bool, true, false, Option, none, some, List, [], ◌∷◌, ◌++◌, ◌≡◌, refl, sym, ◌∙◌, inl,
  inr, Bool-cases, str_eq_iff,
}
use mathlib.Core.Path.{subst}
use clideck_mcp.Expert.Store.{TaskRow, Db, first_where}
use clideck_mcp.Expert.Client.{PublicActor, anonymous, tenant, to_public_task_status}
use clideck_mcp.Expert.Client.Create.{
  Request, Created, Creation, created, refused, key_given, has_key, scope_hash, token_for, new_row,
  found_or_new, create_expert_task,
}

-- The same key of the same caller; all else may differ.
abbrev pub IsRepeat : Request → Request → Type 0
IsRepeat q q' =
    (q'.actor ≡ q.actor)
    × (q'.idempotency_scope ≡ q.idempotency_scope)
    × (key_given q'.idempotency_key ≡ key_given q.idempotency_key)

-- The task of this id with this access token, and no write.
abbrev pub Repeats : String → Option String → Db → Creation → Type 0
Repeats task_id access_token db (refused after) = ⊥
Repeats task_id access_token db (created made after) =
    (made.task.task_id ≡ task_id) × (made.access_token ≡ access_token) × (after ≡ db)

first_where-append :
    (test : TaskRow → Bool) (rows : List TaskRow) (r : TaskRow)
    → first_where test rows ≡ none
    → test r ≡ true
    → first_where test (rows ++ r ∷ []) ≡ some r
unfolding first_where
first_where-append test [] r e h = rw h refl
first_where-append test (s ∷ rows) r e h = elim (Bool-cases (test s)) [
  | inl hit ↦ absurd (clash (rw (hit, first_where) at e))
  | inr miss ↦ rw miss (first_where-append test rows r (rw (miss, first_where) at e) h)
]
  where
    clash : some s ≡ none → ⊥
    clash e = cc

module _ (sha256 derive_url_token : String → String) where
  -- Once a row with the key is found, the creation presents it.
  found_again :
      (now : ℕ) (hook_allows : Bool) (q : Request) (db : Db) (key : String) (row : TaskRow)
      {access_token : Option String}
      → key_given q.idempotency_key ≡ some key
      → first_where (has_key (scope_hash sha256 derive_url_token q) (sha256 key)) db.tasks
        ≡ some row
      → token_for sha256 derive_url_token q q.actor (some key) ≡ access_token
      → Repeats row.public_id access_token db
          (create_expert_task sha256 derive_url_token now hook_allows q db)
  unfolding create_expert_task to_public_task_status
  found_again now hook_allows q db key row given found token = rw (given, found) (refl, token, refl)

  same_scope :
      (q q' : Request)
      → IsRepeat q q'
      → scope_hash sha256 derive_url_token q' ≡ scope_hash sha256 derive_url_token q
  same_scope q q' (actor, scope, _) = rw (actor, scope) refl

  same_token :
      (q q' : Request) (key : String)
      → IsRepeat q q'
      → token_for sha256 derive_url_token q' q'.actor (some key)
        ≡ token_for sha256 derive_url_token q q.actor (some key)
  same_token q q' key (actor, scope, _) = rw actor (by_actor q.actor)
    where
      by_actor :
          (a : PublicActor)
          → token_for sha256 derive_url_token q' a (some key)
            ≡ token_for sha256 derive_url_token q a (some key)
      by_actor (tenant tenant_id) = refl
      by_actor anonymous = rw scope refl

  new_row-has_key :
      (now : ℕ) (q : Request) (key : String)
      → has_key
          (scope_hash sha256 derive_url_token q)
          (sha256 key)
          (new_row sha256 derive_url_token now q (some key))
        ≡ true
  new_row-has_key now q key = rw ((str_eq_iff _ _).1 refl, (str_eq_iff (sha256 key) _).1 refl) refl

  -- What the first creation makes is what every later one presents.
  abbrev IsRepeatable : Request → Creation → Type 0
  IsRepeatable q (refused db) = Unit
  IsRepeatable q (created made db) =
      (now : ℕ) (hook_allows : Bool) (q' : Request)
      → IsRepeat q q'
      → Repeats made.task.task_id made.access_token db
          (create_expert_task sha256 derive_url_token now hook_allows q' db)

  found-IsRepeatable :
      (now : ℕ) (hook_allows : Bool) (q : Request) (key : String) (db : Db) (found : Option TaskRow)
      → key_given q.idempotency_key ≡ some key
      → first_where (has_key (scope_hash sha256 derive_url_token q) (sha256 key)) db.tasks ≡ found
      → IsRepeatable q (found_or_new sha256 derive_url_token now hook_allows q key db found)
  unfolding to_public_task_status
  found-IsRepeatable now hook_allows q key db (some row) given found = λ now' hook' q' repeat.
      found_again now' hook' q' db key row (repeat.2 ∙ given) (rw (same_scope q q' repeat) found)
        (same_token q q' key repeat)
  found-IsRepeatable now false q key db none given found = tt
  found-IsRepeatable now true q key db none given found = λ now' hook' q' repeat.
      found_again now' hook' q' _ key (new_row sha256 derive_url_token now q (some key))
        (repeat.2 ∙ given)
        (first_where-append _ db.tasks _ (rw (same_scope q q' repeat) found)
          (rw (same_scope q q' repeat) (new_row-has_key now q key)))
        (same_token q q' key repeat)

-- If createExpertTask makes or presents a task under an idempotency key, then a call on the database
-- that it leaves, with the same key, caller and scope, at any time, with any other arguments and
-- whatever the quota hook would say, presents the task with the same id and the same access token,
-- and writes nothing.
pub create_idempotent :
    (sha256 derive_url_token : String → String) (now later : ℕ) (hook_allows hook_allows' : Bool)
    (q q' : Request) (key : String) (db after : Db) (made : Created)
    → key_given q.idempotency_key ≡ some key
    → create_expert_task sha256 derive_url_token now hook_allows q db ≡ created made after
    → IsRepeat q q'
    → Repeats made.task.task_id made.access_token after
        (create_expert_task sha256 derive_url_token later hook_allows' q' after)
unfolding create_expert_task
create_idempotent sha256 derive_url_token now later hook_allows hook_allows' q q' key db after made
      given e =
    subst (IsRepeatable sha256 derive_url_token q) (sym run ∙ e)
      (found-IsRepeatable sha256 derive_url_token now hook_allows q key db _ given refl) later
      hook_allows' q'
  where
    run :
        create_expert_task sha256 derive_url_token now hook_allows q db
        ≡ found_or_new sha256 derive_url_token now hook_allows q key db
            (first_where (has_key (scope_hash sha256 derive_url_token q) (sha256 key)) db.tasks)
    run = rw given refl
