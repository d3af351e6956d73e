-- ===== src/Version/Applicability.antt =====
-- deriveVersionBranch, matchVersionApplicability, assuranceFor and publicMatchLevel of
-- src/domain/applicability.ts.
use Prim.Native.String
use clideck_mcp.Prelude.{
  ℕ, zero, suc, String, Bool, true, false, ◌&&◌, not, Option, none, some, List, [], ◌∷◌, leb,
  if◌then◌else◌, length, str_eq, all,
}
use clideck_mcp.Version.{
  digit, char_kind, codes, numeric_runs, normalize_vendor_version, Comparison, less, equal, greater,
  compare_normalized_versions, below_minimum, above_maximum, given_version,
}

pub data ApplicabilityScope : Type 0 where
  model vendor_os architecture os_family : ApplicabilityScope

pub data PublicMatchLevel : Type 0 where
  exact_model vendor_os architecture_os os_family : PublicMatchLevel

pub data VersionScope : Type 0 where
  exact range branch unbounded : VersionScope

pub data PublicVersionMatch : Type 0 where
  exact explicit_range branch unbounded same_branch_fallback : PublicVersionMatch

pub data AssuranceLevel : Type 0 where
  exact compatible generic best_effort : AssuranceLevel

pub data SoftwareVersionStrategy : Type 0 where
  vendor major_minor calendar semantic exact : SoftwareVersionStrategy

-- `version.slice(0, n)` and `version.slice(n)`.
abbrev text_take : ℕ → String → String
text_take zero text = ""
text_take (suc n) String.[] = ""
text_take (suc n) (String.◌∷◌ c text) = String.◌∷◌ c (text_take n text)

abbrev text_drop : ℕ → String → String
text_drop zero text = text
text_drop (suc n) String.[] = ""
text_drop (suc n) (String.◌∷◌ c text) = text_drop n text

abbrev is_digit : ℕ → Bool
is_digit c = elim (char_kind c) [ digit ↦ true | _ ↦ false ]

-- `/^\d{6,8}$/.test(version)`.
abbrev is_calendar_stamp : String → Bool
is_calendar_stamp version =
    let cs = codes version in all is_digit cs && leb 6 (length cs) && leb (length cs) 8

abbrev dotted : String → String → String
dotted a b = String.◌++◌ a (String.◌++◌ "." b)

abbrev first_two : List String → Option String
first_two [] = none
first_two (a ∷ []) = none
first_two (a ∷ b ∷ rest) = some (dotted a b)

abbrev branch_of : String → SoftwareVersionStrategy → Option String
branch_of version SoftwareVersionStrategy.exact = none
branch_of version vendor = none
branch_of version major_minor = first_two (numeric_runs version)
branch_of version semantic = first_two (numeric_runs version)
branch_of version calendar =
    if is_calendar_stamp version
    then some (dotted (text_take 4 version) (text_take 2 (text_drop 4 version)))
    else first_two (numeric_runs version)

abbrev branch_given : Option String → SoftwareVersionStrategy → Option String
branch_given none strategy = none
branch_given (some version) strategy = branch_of version strategy

unfoldable pub derive_version_branch : Option String → SoftwareVersionStrategy → Option String
derive_version_branch version strategy = branch_given (given_version version) strategy

-- `===` of optional texts.
abbrev pub same_text : Option String → Option String → Bool
same_text none none = true
same_text none (some b) = false
same_text (some a) none = false
same_text (some a) (some b) = str_eq a b

abbrev pub is_equal : Comparison → Bool
is_equal equal = true
is_equal less = false
is_equal greater = false

-- `minimum && maximum && compare(…) === 0 && compare(…) === 0`.
abbrev pub is_exactly : List ℕ → Option (List ℕ) → Option (List ℕ) → Bool
is_exactly version (some minimum) (some maximum) =
    is_equal (compare_normalized_versions version minimum)
    && is_equal (compare_normalized_versions version maximum)
is_exactly version _ _ = false

abbrev is_given : Option String → Bool
is_given none = false
is_given (some text) = not (str_eq text "")

abbrev pub match_requested :
    String
    → Option (List ℕ)
    → Option (List ℕ)
    → VersionScope
    → Option String
    → SoftwareVersionStrategy
    → Option PublicVersionMatch
match_requested requested minimum maximum VersionScope.unbounded version_branch strategy =
    some PublicVersionMatch.unbounded
match_requested requested minimum maximum range version_branch strategy =
    let normalized = normalize_vendor_version requested in
    if below_minimum normalized minimum
    then none
    else if above_maximum normalized maximum
    then none
    else some explicit_range
match_requested requested minimum maximum VersionScope.branch version_branch strategy =
    if same_text (derive_version_branch (some requested) strategy) version_branch
    then some PublicVersionMatch.branch
    else none
match_requested requested minimum maximum VersionScope.exact version_branch strategy =
    let requested_branch = derive_version_branch (some requested) strategy in
    if is_exactly (normalize_vendor_version requested) minimum maximum
    then some PublicVersionMatch.exact
    else if is_given requested_branch && same_text requested_branch version_branch
    then some same_branch_fallback
    else none

abbrev match_unrequested : VersionScope → PublicVersionMatch
match_unrequested VersionScope.unbounded = PublicVersionMatch.unbounded
match_unrequested _ = PublicVersionMatch.branch

abbrev pub match_given :
    Option String
    → Option (List ℕ)
    → Option (List ℕ)
    → VersionScope
    → Option String
    → SoftwareVersionStrategy
    → Option PublicVersionMatch
match_given none minimum maximum scope version_branch strategy = some (match_unrequested scope)
match_given (some requested) minimum maximum scope version_branch strategy =
    match_requested requested minimum maximum scope version_branch strategy

-- matchVersionApplicability.
unfoldable pub match_version_applicability :
    (requested : Option String)
    → (minimum maximum : Option (List ℕ)) → VersionScope
    → (version_branch : Option String) → SoftwareVersionStrategy
    → Option PublicVersionMatch
unfolding derive_version_branch
match_version_applicability requested minimum maximum scope version_branch strategy =
    match_given (given_version requested) minimum maximum scope version_branch strategy

unfoldable pub assurance_for : ApplicabilityScope → PublicVersionMatch → AssuranceLevel
assurance_for scope same_branch_fallback = best_effort
assurance_for model PublicVersionMatch.exact = AssuranceLevel.exact
assurance_for ApplicabilityScope.os_family _ = generic
assurance_for _ _ = compatible

unfoldable pub public_match_level : ApplicabilityScope → PublicMatchLevel
public_match_level model = exact_model
public_match_level ApplicabilityScope.vendor_os = PublicMatchLevel.vendor_os
public_match_level architecture = architecture_os
public_match_level ApplicabilityScope.os_family = PublicMatchLevel.os_family
