-- ===== src/Pipeline/Tasks/Unblocked.antt =====
-- When the circuits of src/domain/pipeline-execution.ts leave a task a model, without reference to the
-- query of claimableExecutionSql.
use clideck_mcp.Prelude.{
  ℕ, ◌<◌, String, Bool, true, false, ◌&&◌, not, Option, none, some, List, ◌≡◌, ◌≢◌, ◌⊎◌, ◌↔◌, refl,
  ap, inl, inr, arith, All, any, str_eq, str_eq_iff, Bool-cases,
}
use clideck_mcp.Prelude.Table.{All-map, any-none, none-any}
use clideck_mcp.Pipeline.Limits.{TaskType}
use clideck_mcp.Pipeline.Tasks.Tables.{PipelineTask, ExecutionProfile, Circuit}
use clideck_mcp.Pipeline.Tasks.Columns.{task_type_text, is_type, text_is}
use clideck_mcp.Pipeline.Tasks.Circuits.{
  is_circuit, is_none, is_blocked, model_key, has_fallback, holds_back, claimable_execution,
}

-- A circuit that lets nobody use the model: an error of the configuration, a pause that has not
-- passed, or the probe of another executor.
abbrev pub Stops : ℕ → Circuit → Type 0
Stops now c =
    (c.configuration_error ≡ true) ⊎ ((now < c.open_until) ⊎ (is_none c.probe_executor_id ≡ false))

-- The circuit of the profile, the task's type and the model stops the task.
pub record Blocks (now : ℕ) (profile : String) (task_type : TaskType) (model effort : String)
    (c : Circuit) : Type 0 where
  pub its_profile : c.execution_profile ≡ profile
  pub its_type : task_type_text c.task_type ≡ task_type_text task_type
  pub its_model : c.model ≡ model
  pub its_effort : c.reasoning_effort ≡ effort
  pub stops : Stops now c

abbrev pub IsUnblocked : ℕ → List Circuit → String → TaskType → String → String → Type 0
IsUnblocked now circuits profile task_type model effort =
    All (λ c. ¬ (Blocks now profile task_type model effort c)) circuits

-- The fallback of a profile is there, was not tried for this task, and is not blocked.
abbrev pub HasFallback :
    ℕ → List Circuit → PipelineTask → ExecutionProfile → Option (String × String) → Type 0
HasFallback now circuits t p none = ⊥
HasFallback now circuits t p (some (model, effort)) =
    (t.payload.model_fallback_attempted_for ≢ some (model_key p))
    × IsUnblocked now circuits p.profile_id t.task_type model effort

-- The model of the task's profile may be used, or its fallback.
abbrev pub IsOpen : ℕ → List Circuit → PipelineTask → ExecutionProfile → Type 0
IsOpen now circuits t p =
    IsUnblocked now circuits p.profile_id t.task_type p.model p.reasoning_effort
    ⊎ HasFallback now circuits t p p.fallback

pub false_iff : (b : Bool) (P : Type 0) → ((b ≡ true) ↔ P) → (b ≡ false) ↔ (¬ P)
false_iff true P h = ((λ e. cc), (λ refuted. absurd (refuted (h.0 refl))))
false_iff false P h = ((λ e p. let clash : false ≡ true = h.1 p in cc), (λ refuted. refl))

pub text_is_iff : (o : Option String) (s : String) → (text_is o s ≡ true) ↔ (o ≡ some s)
text_is_iff none s = ((λ e. cc), (λ e. cc))
text_is_iff (some t) s =
    ((λ e. ap (λ x. some x) ((str_eq_iff t s).0 e)), (λ e. (str_eq_iff t s).1 cc))

Stops-iff : (now : ℕ) (c : Circuit) → (is_blocked now c ≡ true) ↔ Stops now c
Stops-iff now c = (from, to)
  where
    from : is_blocked now c ≡ true → Stops now c
    from h = elim (Bool-cases c.configuration_error) [
      | inl error ↦ inl error
      | inr fine ↦ elim (Bool-cases (is_none c.probe_executor_id)) [
        | inl idle ↦ inr (inl (ground arith))
        | inr probed ↦ inr (inr probed)
      ]
    ]

    to : Stops now c → is_blocked now c ≡ true
    to (inl h) = ground arith
    to (inr (inl h)) = ground arith
    to (inr (inr h)) = ground arith

all_five :
    (a b c d e : Bool)
    → ((a && b && c && d) && e) ≡ true
    → (a ≡ true) × (b ≡ true) × (c ≡ true) × (d ≡ true) × (e ≡ true)
all_five a b c d e h = ground arith

module _ (now : ℕ) (profile : String) (task_type : TaskType) (model effort : String) where
  Blocks-iff :
      (c : Circuit)
      → ((is_circuit profile task_type model effort c && is_blocked now c) ≡ true)
        ↔ Blocks now profile task_type model effort c
  Blocks-iff c = (from, to)
    where
      from :
          (is_circuit profile task_type model effort c && is_blocked now c) ≡ true
          → Blocks now profile task_type model effort c
      from h =
          let (p, t, m, e, b) =
            all_five (str_eq c.execution_profile profile) (is_type c.task_type task_type)
              (str_eq c.model model) (str_eq c.reasoning_effort effort) (is_blocked now c) h in
          record {
            its_profile = (str_eq_iff c.execution_profile profile).0 p;
            its_type = (str_eq_iff (task_type_text c.task_type) (task_type_text task_type)).0 t;
            its_model = (str_eq_iff c.model model).0 m;
            its_effort = (str_eq_iff c.reasoning_effort effort).0 e;
            stops = (Stops-iff now c).0 b;
          }

      to :
          Blocks now profile task_type model effort c
          → (is_circuit profile task_type model effort c && is_blocked now c) ≡ true
      to b =
          rw
            (
              (str_eq_iff c.execution_profile profile).1 b.its_profile,
              (str_eq_iff (task_type_text c.task_type) (task_type_text task_type)).1 b.its_type,
              (str_eq_iff c.model model).1 b.its_model,
              (str_eq_iff c.reasoning_effort effort).1 b.its_effort,
            )
            ((Stops-iff now c).1 b.stops)

  IsUnblocked-iff :
      (circuits : List Circuit)
      → (any (λ c. is_circuit profile task_type model effort c && is_blocked now c) circuits
          ≡ false)
        ↔ IsUnblocked now circuits profile task_type model effort
  IsUnblocked-iff circuits = (
    (λ h.
        All-map (λ c. test c ≡ false) (λ c. ¬ (Blocks now profile task_type model effort c))
          (λ c. (no_block c).0) circuits (any-none test circuits h)),
    (λ h. none-any test circuits (
        All-map (λ c. ¬ (Blocks now profile task_type model effort c)) (λ c. test c ≡ false)
          (λ c. (no_block c).1) circuits h)),
  )
    where
      test : Circuit → Bool
      test c = is_circuit profile task_type model effort c && is_blocked now c

      no_block :
          (c : Circuit) → (test c ≡ false) ↔ (¬ (Blocks now profile task_type model effort c))
      no_block c = false_iff (test c) _ (Blocks-iff c)

HasFallback-iff :
    (now : ℕ) (circuits : List Circuit) (t : PipelineTask) (p : ExecutionProfile)
    (o : Option (String × String))
    → (has_fallback now circuits t p o ≡ true) ↔ HasFallback now circuits t p o
HasFallback-iff now circuits t p none = ((λ e. cc), (λ e. absurd e))
HasFallback-iff now circuits t p (some (model, effort)) = (from, to)
  where
    tried : Bool
    tried = text_is t.payload.model_fallback_attempted_for (model_key p)

    blocked : Bool
    blocked =
        any (λ c. is_circuit p.profile_id t.task_type model effort c && is_blocked now c) circuits

    untried_iff :
        (tried ≡ false) ↔ (¬ (t.payload.model_fallback_attempted_for ≡ some (model_key p)))
    untried_iff =
        false_iff tried _ (text_is_iff t.payload.model_fallback_attempted_for (model_key p))

    both : (a b : Bool) → (not a && not b) ≡ true → (a ≡ false) × (b ≡ false)
    both a b h = ground arith

    join : (a b : Bool) → a ≡ false → b ≡ false → (not a && not b) ≡ true
    join a b p q = ground arith

    from :
        has_fallback now circuits t p (some (model, effort)) ≡ true
        → HasFallback now circuits t p (some (model, effort))
    from h =
        let (a, b) = both tried blocked h in
        (untried_iff.0 a, (IsUnblocked-iff now p.profile_id t.task_type model effort circuits).0 b)

    to :
        HasFallback now circuits t p (some (model, effort))
        → has_fallback now circuits t p (some (model, effort)) ≡ true
    to (a, b) =
        join tried blocked (untried_iff.1 a)
          ((IsUnblocked-iff now p.profile_id t.task_type model effort circuits).1 b)

holds_back_iff :
    (now : ℕ) (circuits : List Circuit) (t : PipelineTask) (p : ExecutionProfile)
    → (holds_back now circuits t p ≡ false)
      ↔ (p.profile_id ≡ t.execution_profile → IsOpen now circuits t p)
holds_back_iff now circuits t p = (from, to)
  where
    mine : Bool
    mine = str_eq p.profile_id t.execution_profile

    blocked : Bool
    blocked =
        any
          (λ c.
            is_circuit p.profile_id t.task_type p.model p.reasoning_effort c && is_blocked now c)
          circuits

    fallback : Bool
    fallback = has_fallback now circuits t p p.fallback

    primary_iff :
        (blocked ≡ false)
        ↔ IsUnblocked now circuits p.profile_id t.task_type p.model p.reasoning_effort
    primary_iff = IsUnblocked-iff now p.profile_id t.task_type p.model p.reasoning_effort circuits

    way_out : (a b c : Bool) → (a && b && not c) ≡ false → a ≡ true → (b ≡ false) ⊎ (c ≡ true)
    way_out a false c h e = inl refl
    way_out a true c h e = inr (ground arith)

    either : (blocked ≡ false) ⊎ (fallback ≡ true) → IsOpen now circuits t p
    either (inl free) = inl (primary_iff.0 free)
    either (inr left) = inr ((HasFallback-iff now circuits t p p.fallback).0 left)

    from :
        holds_back now circuits t p ≡ false
        → p.profile_id ≡ t.execution_profile
        → IsOpen now circuits t p
    from h e =
        either (way_out mine blocked fallback h ((str_eq_iff p.profile_id t.execution_profile).1 e))

    free : (a b c : Bool) → b ≡ false → (a && b && not c) ≡ false
    free a b c h = ground arith

    left : (a b c : Bool) → c ≡ true → (a && b && not c) ≡ false
    left a b c h = ground arith

    held : IsOpen now circuits t p → holds_back now circuits t p ≡ false
    held (inl u) = free mine blocked fallback (primary_iff.1 u)
    held (inr f) = left mine blocked fallback ((HasFallback-iff now circuits t p p.fallback).1 f)

    other : (a b c : Bool) → a ≡ false → (a && b && not c) ≡ false
    other a b c h = ground arith

    to :
        (p.profile_id ≡ t.execution_profile → IsOpen now circuits t p)
        → holds_back now circuits t p ≡ false
    to h = elim (Bool-cases mine) [
      | inl same ↦ held (h ((str_eq_iff p.profile_id t.execution_profile).0 same))
      | inr other_profile ↦ other mine blocked fallback other_profile
    ]

pub claimable_execution_iff :
    (now : ℕ) (profiles : List ExecutionProfile) (circuits : List Circuit) (t : PipelineTask)
    → (claimable_execution now profiles circuits t ≡ true)
      ↔ All
          (λ (p : ExecutionProfile). p.profile_id ≡ t.execution_profile → IsOpen now circuits t p)
          profiles
unfolding claimable_execution
claimable_execution_iff now profiles circuits t = (
  (λ h.
      All-map (λ p. holds_back now circuits t p ≡ false) Free
        (λ p. (holds_back_iff now circuits t p).0) profiles
        (any-none (holds_back now circuits t) profiles (not_true _ h))),
  (λ h.
      let e : any (holds_back now circuits t) profiles ≡ false =
        none-any (holds_back now circuits t) profiles (
          All-map Free (λ p. holds_back now circuits t p ≡ false)
            (λ p. (holds_back_iff now circuits t p).1) profiles h) in
      rw e refl),
)
  where
    Free : ExecutionProfile → Type 0
    Free p = p.profile_id ≡ t.execution_profile → IsOpen now circuits t p

    not_true : (b : Bool) → not b ≡ true → b ≡ false
    not_true b h = ground arith
