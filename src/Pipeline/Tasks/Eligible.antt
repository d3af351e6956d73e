-- ===== src/Pipeline/Tasks/Eligible.antt =====
-- Which tasks claimPipelineTask of src/domain/pipeline.ts may take, without reference to its query.
use clideck_mcp.Prelude.{
  ℕ, ◌≤◌, ◌<◌, Bool, true, false, ◌&&◌, not, Option, none, some, ◌≡◌, ◌↔◌, refl, ap, inl, inr,
  arith, All, any, leb, str_eq_iff, Bool-cases, ==_iff,
}
use clideck_mcp.Prelude.Table.{All-map, any-none, none-any}
use clideck_mcp.Pipeline.Limits.{fragment_analysis}
use clideck_mcp.Pipeline.Tasks.Tables.{
  TaskStatus, PipelineTask, SourceFragment, ExecutionProfile, Store,
}
use clideck_mcp.Pipeline.Tasks.Columns.{task_type_text, is_type, is_ai_task_type, is_queued, id_is}
use clideck_mcp.Pipeline.Tasks.Circuits.{claimable_execution}
use clideck_mcp.Pipeline.Tasks.Unblocked.{IsOpen, claimable_execution_iff}
use clideck_mcp.Pipeline.Tasks.Select.{
  spent_fragment, has_spent_fragment, is_available, is_selectable,
}

pub record IsEligible (locked : PipelineTask → Bool) (now : ℕ) (db : Store) (t : PipelineTask)
    : Type 0 where
  pub queued : t.status ≡ TaskStatus.queued
  pub due : t.available_at ≤ now
  pub for_ai : is_ai_task_type t.task_type ≡ true
  pub unspent :
      task_type_text t.task_type ≡ "fragment_analysis"
      → All
          (λ (f : SourceFragment). f.reservation_task_id ≡ some t.id → f.attempts < 10)
          db.fragments
  pub unheld :
      All
        (λ (p : ExecutionProfile). p.profile_id ≡ t.execution_profile → IsOpen now db.circuits t p)
        db.profiles
  pub unlocked : locked t ≡ false

id_is_iff : (o : Option ℕ) (n : ℕ) → (id_is o n ≡ true) ↔ (o ≡ some n)
id_is_iff none n = ((λ e. cc), (λ e. cc))
id_is_iff (some m) n = ((λ e. ap (λ x. some x) ((==_iff m n).0 e)), (λ e. (==_iff m n).1 cc))

is_queued_iff : (s : TaskStatus) → (is_queued s ≡ true) ↔ (s ≡ TaskStatus.queued)
is_queued_iff s = (from s, (λ e. rw e refl))
  where
    from : (s : TaskStatus) → is_queued s ≡ true → s ≡ TaskStatus.queued
    from TaskStatus.queued h = refl
    from TaskStatus.claimed h = cc
    from TaskStatus.running h = cc
    from TaskStatus.completed h = cc
    from TaskStatus.failed h = cc
    from TaskStatus.cancelled h = cc
    from TaskStatus.skipped h = cc

-- No fragment of the task is spent.
unspent_iff :
    (db : Store) (t : PipelineTask)
    → (has_spent_fragment db t ≡ false) ↔ (
        task_type_text t.task_type ≡ "fragment_analysis"
        → All
            (λ (f : SourceFragment). f.reservation_task_id ≡ some t.id → f.attempts < 10)
            db.fragments)
unspent_iff db t = (from, to)
  where
    Fresh : SourceFragment → Type 0
    Fresh f = f.reservation_task_id ≡ some t.id → f.attempts < 10

    analyzes : Bool
    analyzes = is_type t.task_type fragment_analysis

    one_from : (f : SourceFragment) → spent_fragment t.id f ≡ false → Fresh f
    one_from f h e =
        below (id_is f.reservation_task_id t.id) f.attempts h
          ((id_is_iff f.reservation_task_id t.id).1 e)
      where
        below : (b : Bool) (n : ℕ) → (b && leb 10 n) ≡ false → b ≡ true → n < 10
        below b n h e = ground arith

    one_to : (f : SourceFragment) → Fresh f → spent_fragment t.id f ≡ false
    one_to f h = elim (Bool-cases (id_is f.reservation_task_id t.id)) [
      | inl mine ↦
          let few : f.attempts < 10 = h ((id_is_iff f.reservation_task_id t.id).0 mine) in
          ground arith
      | inr other ↦ rw other refl
    ]

    from :
        has_spent_fragment db t ≡ false
        → task_type_text t.task_type ≡ "fragment_analysis"
        → All Fresh db.fragments
    from h e =
        All-map (λ f. spent_fragment t.id f ≡ false) Fresh one_from db.fragments
          (any-none (spent_fragment t.id) db.fragments
            (rest analyzes _ h ((str_eq_iff (task_type_text t.task_type) "fragment_analysis").1 e)))
      where
        rest : (a b : Bool) → (a && b) ≡ false → a ≡ true → b ≡ false
        rest a b h e = ground arith

    to :
        (task_type_text t.task_type ≡ "fragment_analysis" → All Fresh db.fragments)
        → has_spent_fragment db t ≡ false
    to h = elim (Bool-cases analyzes) [
      | inr other ↦ rw other refl
      | inl analysis ↦
          let none_spent : any (spent_fragment t.id) db.fragments ≡ false =
            none-any (spent_fragment t.id) db.fragments (
              All-map Fresh (λ f. spent_fragment t.id f ≡ false) one_to db.fragments
                (h ((str_eq_iff (task_type_text t.task_type) "fragment_analysis").0 analysis))) in
          second analyzes _ none_spent
    ]
      where
        second : (a b : Bool) → b ≡ false → (a && b) ≡ false
        second a b h = ground arith

module _ (locked : PipelineTask → Bool) (now : ℕ) (db : Store) (t : PipelineTask) where
  parts :
      (a b c d e : Bool)
      → (a && b && not c && d && not e) ≡ true
      → (a ≡ true) × (b ≡ true) × (c ≡ false) × (d ≡ true) × (e ≡ false)
  parts a b c d e h = ground arith

  whole :
      (a b c d e : Bool)
      → a ≡ true
      → b ≡ true
      → c ≡ false
      → d ≡ true
      → e ≡ false
      → (a && b && not c && d && not e) ≡ true
  whole a b c d e p q r s u = ground arith

  is_available_iff :
      (is_available now t ≡ true) ↔ ((t.status ≡ TaskStatus.queued) × (t.available_at ≤ now))
  is_available_iff = (
    (λ h. ((is_queued_iff t.status).0 (first (is_queued t.status) _ h), ground arith)),
    (λ (q, d). let e = (is_queued_iff t.status).1 q in ground arith),
  )
    where
      first : (a b : Bool) → (a && b) ≡ true → a ≡ true
      first a b h = ground arith

  pub is_selectable_iff : (is_selectable locked now db t ≡ true) ↔ IsEligible locked now db t
  unfolding is_selectable
  is_selectable_iff = (from, to)
    where
      from : is_selectable locked now db t ≡ true → IsEligible locked now db t
      from h =
          let (a, b, c, d, e) =
            parts (is_available now t) (is_ai_task_type t.task_type) (has_spent_fragment db t)
              (claimable_execution now db.profiles db.circuits t) (locked t) h in
          record {
            queued = (is_available_iff.0 a).0;
            due = (is_available_iff.0 a).1;
            for_ai = b;
            unspent = (unspent_iff db t).0 c;
            unheld = (claimable_execution_iff now db.profiles db.circuits t).0 d;
            unlocked = e;
          }

      to : IsEligible locked now db t → is_selectable locked now db t ≡ true
      to i =
          whole (is_available now t) (is_ai_task_type t.task_type) (has_spent_fragment db t)
            (claimable_execution now db.profiles db.circuits t) (locked t)
            (is_available_iff.1 (i.queued, i.due)) i.for_ai ((unspent_iff db t).1 i.unspent)
            ((claimable_execution_iff now db.profiles db.circuits t).1 i.unheld) i.unlocked
