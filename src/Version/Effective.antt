-- ===== src/Version/Effective.antt =====
-- effectiveApplicability of src/domain/applicability.ts: the scope under which a published record
-- is indexed.
use clideck_mcp.Prelude.{
  String, Bool, true, false, ◌&&◌, not, Option, none, some, ◌≡◌, arith, if◌then◌else◌, str_eq,
}
use clideck_mcp.Version.Applicability.{
  ApplicabilityScope, model, architecture, VersionScope, range, SoftwareVersionStrategy,
  derive_version_branch,
}

pub record ApplicabilityInput : Type 0 where
  pub requested_scope : Option ApplicabilityScope
  pub platform_id : Option String
  pub architecture_slug : Option String
  pub requested_version_scope : Option VersionScope
  pub requested_version_branch : Option String
  pub version_minimum : Option String
  pub version_maximum : Option String
  pub version_strategy : SoftwareVersionStrategy

pub record Applicability : Type 0 where
  pub scope : ApplicabilityScope
  pub version_scope : VersionScope
  pub version_branch : Option String
  pub requires_platform_confirmation : Bool

-- The truth value of an optional text.
abbrev pub is_truthy : Option String → Bool
is_truthy none = false
is_truthy (some text) = not (str_eq text "")

abbrev requested_or_default : Option ApplicabilityScope → Option String → ApplicabilityScope
requested_or_default (some scope) platform = scope
requested_or_default none platform =
    if is_truthy platform then model else ApplicabilityScope.vendor_os

abbrev effective_scope : ApplicabilityScope → Option String → Option String → ApplicabilityScope
effective_scope model platform slug =
    if is_truthy platform then model else ApplicabilityScope.vendor_os
effective_scope architecture platform slug =
    if is_truthy slug then architecture else ApplicabilityScope.vendor_os
effective_scope scope platform slug = scope

abbrev same_bounds : Option String → Option String → Bool
same_bounds (some a) (some b) = str_eq a b
same_bounds none none = true
same_bounds _ _ = false

abbrev version_scope_or_default : Option VersionScope → Option String → Option String → VersionScope
version_scope_or_default (some scope) minimum maximum = scope
version_scope_or_default none minimum maximum =
    if is_truthy minimum && is_truthy maximum
    then (if same_bounds minimum maximum then VersionScope.exact else range)
    else VersionScope.unbounded

-- `input.versionMinimum ?? input.versionMaximum`.
abbrev either_text : Option String → Option String → Option String
either_text none b = b
either_text (some a) b = some a

abbrev branch_for : VersionScope → ApplicabilityInput → Option String
branch_for VersionScope.exact i = derive_version_branch i.version_minimum i.version_strategy
branch_for VersionScope.branch i =
    derive_version_branch (either_text i.version_minimum i.version_maximum) i.version_strategy
branch_for _ i = none

abbrev derived_branch : Option String → VersionScope → ApplicabilityInput → Option String
derived_branch (some branch) scope i = some branch
derived_branch none scope i = branch_for scope i

abbrev effective_version_scope : VersionScope → Option String → VersionScope
effective_version_scope VersionScope.branch branch =
    if is_truthy branch then VersionScope.branch else VersionScope.unbounded
effective_version_scope scope branch = scope

abbrev effective_branch : VersionScope → Option String → Option String
effective_branch VersionScope.unbounded branch = none
effective_branch _ branch = branch

abbrev is_model : ApplicabilityScope → Bool
is_model model = true
is_model _ = false

abbrev is_hardware : ApplicabilityScope → Bool
is_hardware model = true
is_hardware architecture = true
is_hardware _ = false

-- effectiveApplicability.
unfoldable pub effective_applicability : ApplicabilityInput → Applicability
effective_applicability i =
    let requested = requested_or_default i.requested_scope i.platform_id in
    let scope = effective_scope requested i.platform_id i.architecture_slug in
    let requested_version_scope =
      version_scope_or_default i.requested_version_scope i.version_minimum i.version_maximum in
    let branch = derived_branch i.requested_version_branch requested_version_scope i in
    let version_scope = effective_version_scope requested_version_scope branch in
    record {
      scope = scope;
      version_scope = version_scope;
      version_branch = effective_branch version_scope branch;
      requires_platform_confirmation = not (is_model scope) && is_hardware requested;
    }

-- The scope names only what is there.
abbrev pub IsGrounded : ApplicabilityInput → Applicability → Type 0
IsGrounded i a =
    (a.scope ≡ model → is_truthy i.platform_id ≡ true)
    × (a.scope ≡ architecture → is_truthy i.architecture_slug ≡ true)
    × (a.version_scope ≡ VersionScope.branch → is_truthy a.version_branch ≡ true)
    × (a.version_scope ≡ VersionScope.unbounded → a.version_branch ≡ none)
    × (a.scope ≡ model → a.requires_platform_confirmation ≡ false)

scope_grounded :
    (r : ApplicabilityScope) (platform slug : Option String)
    → (effective_scope r platform slug ≡ model → is_truthy platform ≡ true)
      × (effective_scope r platform slug ≡ architecture → is_truthy slug ≡ true)
scope_grounded r platform slug = ((λ h. ground arith), (λ h. ground arith))

version_grounded :
    (s : VersionScope) (branch : Option String)
    → (effective_version_scope s branch ≡ VersionScope.branch
        → is_truthy (effective_branch (effective_version_scope s branch) branch) ≡ true)
      × (effective_version_scope s branch ≡ VersionScope.unbounded
          → effective_branch (effective_version_scope s branch) branch ≡ none)
version_grounded s branch = ((λ h. ground arith), (λ h. ground arith))

model_confirmed :
    (s requested : ApplicabilityScope)
    → s ≡ model
    → not (is_model s) && is_hardware requested ≡ false
model_confirmed s requested h = ground arith

-- Whatever is requested, effectiveApplicability gives the scope 'model' only to a record with a
-- platform, and then asks for no confirmation; 'architecture' only to one with an architecture; the
-- version scope 'branch' only with a branch; and 'unbounded' always without one.
pub effective_applicability-IsGrounded :
    (i : ApplicabilityInput) → IsGrounded i (effective_applicability i)
unfolding effective_applicability
effective_applicability-IsGrounded i =
    let requested = requested_or_default i.requested_scope i.platform_id in
    let (at_model, at_architecture) = scope_grounded requested i.platform_id i.architecture_slug in
    let version_scope =
      version_scope_or_default i.requested_version_scope i.version_minimum i.version_maximum in
    let (on_branch, unbound) =
      version_grounded version_scope (derived_branch i.requested_version_branch version_scope i) in
    (at_model, at_architecture, on_branch, unbound, (λ h. model_confirmed _ requested h))
