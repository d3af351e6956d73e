-- ===== src/Version/Match.antt =====
-- What matchVersionApplicability and assuranceFor of src/domain/applicability.ts promise.
use clideck_mcp.Prelude.{
  ℕ, String, true, false, Option, none, some, List, ◌≡◌, refl, sym, ap, ◌∙◌, ◌⊎◌, inl, inr, arith,
  str_eq, Bool-cases,
}
use mathlib.Core.Path.{subst}
use native.Mathlib.Decide.{dec_lt}
use clideck_mcp.Version.{
  normalize_vendor_version, Comparison, less, equal, greater, below_minimum, above_maximum,
  given_version,
}
use clideck_mcp.Version.Order.{component_at, IsBelow, Decides, compare_normalized_versions-Decides}
use clideck_mcp.Version.Applicability.{
  ApplicabilityScope, model, VersionScope, range, PublicVersionMatch, explicit_range,
  AssuranceLevel, SoftwareVersionStrategy, is_equal, is_exactly, match_version_applicability,
  match_requested, match_given, assurance_for,
}

IsBelow-asym : (xs ys : List ℕ) → IsBelow xs ys → IsBelow ys xs → ⊥
IsBelow-asym xs ys (i, same, low) (j, same', low') = elim (dec_lt i j) [
  | yes before ↦ let s = same' i before in omega arith
  | no late ↦ elim (dec_lt j i) [
    | yes after ↦ let s = same j after in omega arith
    | no early ↦ let e : i ≡ j = omega arith in let low_j = rw e at low in omega arith
  ]
]

IsBelow-irrefl :
    (xs ys : List ℕ) → ((i : ℕ) → component_at i xs ≡ component_at i ys) → IsBelow xs ys → ⊥
IsBelow-irrefl xs ys e (i, _, low) = let s = e i in absurd (omega arith)

-- The requested version keeps the bounds that are given.
abbrev pub IsWithin : List ℕ → Option (List ℕ) → Option (List ℕ) → Type 0
IsWithin v minimum maximum =
    ((m : List ℕ) → minimum ≡ some m → ¬ (IsBelow v m))
    × ((m : List ℕ) → maximum ≡ some m → ¬ (IsBelow m v))

abbrev pub IsOutside : List ℕ → Option (List ℕ) → Option (List ℕ) → Type 0
IsOutside v minimum maximum =
    ((m : List ℕ) × (minimum ≡ some m) × IsBelow v m)
    ⊎ ((m : List ℕ) × (maximum ≡ some m) × IsBelow m v)

not-IsBelow :
    (v m : List ℕ) (c : Comparison)
    → Decides v m c
    → (elim c [ less ↦ true | _ ↦ false ]) ≡ false
    → ¬ (IsBelow v m)
not-IsBelow v m less d h = cc
not-IsBelow v m equal d h = λ b. IsBelow-irrefl v m d b
not-IsBelow v m greater d h = λ b. IsBelow-asym v m b d

not-IsBelow_above :
    (v m : List ℕ) (c : Comparison)
    → Decides v m c
    → (elim c [ greater ↦ true | _ ↦ false ]) ≡ false
    → ¬ (IsBelow m v)
not-IsBelow_above v m greater d h = cc
not-IsBelow_above v m equal d h = λ b. IsBelow-irrefl m v (λ i. sym (d i)) b
not-IsBelow_above v m less d h = λ b. IsBelow-asym v m d b

is_below :
    (v m : List ℕ) (c : Comparison)
    → Decides v m c
    → (elim c [ less ↦ true | _ ↦ false ]) ≡ true
    → IsBelow v m
is_below v m less d h = d
is_below v m equal d h = cc
is_below v m greater d h = cc

is_above :
    (v m : List ℕ) (c : Comparison)
    → Decides v m c
    → (elim c [ greater ↦ true | _ ↦ false ]) ≡ true
    → IsBelow m v
is_above v m greater d h = d
is_above v m equal d h = cc
is_above v m less d h = cc

minimum_kept :
    (v : List ℕ) (minimum : Option (List ℕ))
    → below_minimum v minimum ≡ false
    → (m : List ℕ) → minimum ≡ some m
    → ¬ (IsBelow v m)
minimum_kept v none h m e = cc
minimum_kept v (some k) h m e =
    let same : k ≡ m = cc in
    subst (λ x. ¬ (IsBelow v x)) same
      (not-IsBelow v k _ (compare_normalized_versions-Decides v k) h)

maximum_kept :
    (v : List ℕ) (maximum : Option (List ℕ))
    → above_maximum v maximum ≡ false
    → (m : List ℕ) → maximum ≡ some m
    → ¬ (IsBelow m v)
maximum_kept v none h m e = cc
maximum_kept v (some k) h m e =
    let same : k ≡ m = cc in
    subst (λ x. ¬ (IsBelow x v)) same
      (not-IsBelow_above v k _ (compare_normalized_versions-Decides v k) h)

minimum_missed :
    (v : List ℕ) (minimum : Option (List ℕ))
    → below_minimum v minimum ≡ true
    → (m : List ℕ) × (minimum ≡ some m) × IsBelow v m
minimum_missed v none h = cc
minimum_missed v (some k) h = (k, refl, is_below v k _ (compare_normalized_versions-Decides v k) h)

maximum_missed :
    (v : List ℕ) (maximum : Option (List ℕ))
    → above_maximum v maximum ≡ true
    → (m : List ℕ) × (maximum ≡ some m) × IsBelow m v
maximum_missed v none h = cc
maximum_missed v (some k) h = (k, refl, is_above v k _ (compare_normalized_versions-Decides v k) h)

-- For a record with a version range and a requested version that is not the empty text,
-- matchVersionApplicability answers 'explicit_range' and the version is within the bounds that are
-- given, or it answers with no match and the version is below the minimum or above the maximum.
pub range_matches :
    (version : String) (minimum maximum : Option (List ℕ)) (branch : Option String)
    (strategy : SoftwareVersionStrategy)
    → str_eq version "" ≡ false
    → ((match_version_applicability (some version) minimum maximum range branch strategy
          ≡ some explicit_range)
        × IsWithin (normalize_vendor_version version) minimum maximum)
      ⊎ ((match_version_applicability (some version) minimum maximum range branch strategy ≡ none)
          × IsOutside (normalize_vendor_version version) minimum maximum)
unfolding match_version_applicability
range_matches version minimum maximum branch strategy given =
    let v = normalize_vendor_version version in
    elim (Bool-cases (below_minimum v minimum)) [
      | inl low ↦ inr (rw (given, low) refl, inl (minimum_missed v minimum low))
      | inr high_enough ↦ elim (Bool-cases (above_maximum v maximum)) [
        | inl high ↦ inr (rw (given, high_enough, high) refl, inr (maximum_missed v maximum high))
        | inr within ↦ inl (
          rw (given, high_enough, within) refl,
          (minimum_kept v minimum high_enough, maximum_kept v maximum within),
        )
      ]
    ]

abbrev pub IsVersion : List ℕ → Option (List ℕ) → Type 0
IsVersion v bound =
    (m : List ℕ) × (bound ≡ some m) × ((i : ℕ) → component_at i v ≡ component_at i m)

is_equal_lem :
    (v m : List ℕ) (c : Comparison)
    → Decides v m c
    → is_equal c ≡ true
    → (i : ℕ) → component_at i v ≡ component_at i m
is_equal_lem v m equal d h = d
is_equal_lem v m less d h = cc
is_equal_lem v m greater d h = cc

is_exactly_lem :
    (v : List ℕ) (minimum maximum : Option (List ℕ))
    → is_exactly v minimum maximum ≡ true
    → IsVersion v minimum × IsVersion v maximum
is_exactly_lem v none maximum h = cc
is_exactly_lem v (some a) none h = cc
is_exactly_lem v (some a) (some b) h = (
  (a, refl, is_equal_lem v a _ (compare_normalized_versions-Decides v a) (ground arith)),
  (b, refl, is_equal_lem v b _ (compare_normalized_versions-Decides v b) (ground arith)),
)

exact_only :
    (scope : ApplicabilityScope) (m : PublicVersionMatch)
    → assurance_for scope m ≡ AssuranceLevel.exact
    → (scope ≡ model) × (m ≡ PublicVersionMatch.exact)
unfolding assurance_for
exact_only scope m h = (ground arith, ground arith)

requested_exactly :
    (version : String) (minimum maximum : Option (List ℕ)) (scope : VersionScope)
    (branch : Option String) (strategy : SoftwareVersionStrategy)
    → match_requested version minimum maximum scope branch strategy ≡ some PublicVersionMatch.exact
    → is_exactly (normalize_vendor_version version) minimum maximum ≡ true
requested_exactly version minimum maximum VersionScope.unbounded branch strategy h = cc
requested_exactly version minimum maximum range branch strategy h = ground arith
requested_exactly version minimum maximum VersionScope.branch branch strategy h = ground arith
requested_exactly version minimum maximum VersionScope.exact branch strategy h = ground arith

given_exactly :
    (given : Option String) (minimum maximum : Option (List ℕ)) (scope : VersionScope)
    (branch : Option String) (strategy : SoftwareVersionStrategy)
    → match_given given minimum maximum scope branch strategy ≡ some PublicVersionMatch.exact
    → (version : String) × (given ≡ some version)
      × (is_exactly (normalize_vendor_version version) minimum maximum ≡ true)
given_exactly none minimum maximum scope branch strategy h = absurd (ground arith)
given_exactly (some version) minimum maximum scope branch strategy h =
    (version, refl, requested_exactly version minimum maximum scope branch strategy h)

-- If the assurance of an answer for a requested version is 'exact', then the record is scoped to a
-- model, it has a minimum and a maximum, and the requested version has the components of both.
exact_assured :
    (scope : ApplicabilityScope) (version : String) (minimum maximum : Option (List ℕ))
    (version_scope : VersionScope) (branch : Option String) (strategy : SoftwareVersionStrategy)
    (m : PublicVersionMatch)
    → match_version_applicability (some version) minimum maximum version_scope branch strategy
      ≡ some m
    → assurance_for scope m ≡ AssuranceLevel.exact
    → (scope ≡ model)
      × IsVersion (normalize_vendor_version version) minimum
      × IsVersion (normalize_vendor_version version) maximum
unfolding match_version_applicability
exact_assured scope version minimum maximum version_scope branch strategy m matched assured =
    let (at_model, at_exact) = exact_only scope m assured in
    let (v, given, exactly) =
      given_exactly (given_version (some version)) minimum maximum version_scope branch strategy
        (matched ∙ ap some at_exact) in
    let same : v ≡ version = ground arith in
    let (low, high) =
      is_exactly_lem (normalize_vendor_version version) minimum maximum (rw same at exactly) in
    (at_model, low, high)
