-- ===== src/Version.antt =====
-- src/version.ts, and the version rules of src/domain/applicability.ts. Versions are ASCII, as
-- networkVersionSchema has it, so lower case is that of the letters A to Z.
pub mod Order
pub mod Applicability
pub mod Match
pub mod Effective
mod Tests
use Prim.Native.String
use Prim.Native.Char.{Char, code}
use clideck_mcp.Prelude.{
  ℕ, zero, suc, ◌+◌, ◌-◌, ◌*◌, min, String, Bool, true, false, ◌&&◌, ◌||◌, not, Option, none, some,
  List, [], ◌∷◌, map, ltb, leb, ◌==◌, if◌then◌else◌, length, take, str_eq,
}

-- What a character is to `/[0-9]+|[a-z]+/g` after `toLowerCase()`.
pub data CharKind : Type 0 where
  digit letter other : CharKind

abbrev pub char_kind : ℕ → CharKind
char_kind c =
    if leb 48 c && leb c 57
    then digit
    else if leb 97 c && leb c 122 || leb 65 c && leb c 90
    then letter
    else other

abbrev same_kind : CharKind → CharKind → Bool
same_kind digit digit = true
same_kind letter letter = true
same_kind _ _ = false

abbrev starts_with_kind : CharKind → String → Bool
starts_with_kind kind String.[] = false
starts_with_kind kind (String.◌∷◌ c text) = same_kind kind (char_kind (code c))

abbrev pub codes : String → List ℕ
codes String.[] = []
codes (String.◌∷◌ c text) = code c ∷ codes text

-- The next character joins the run behind it, or is a run of its own.
abbrev joined : Bool → Char → List String → List String
joined false c runs = String.◌∷◌ c String.[] ∷ runs
joined true c [] = String.◌∷◌ c String.[] ∷ []
joined true c (run ∷ runs) = String.◌∷◌ c run ∷ runs

abbrev is_component : CharKind → Bool
is_component digit = true
is_component letter = true
is_component other = false

-- `version.toLowerCase().match(/[0-9]+|[a-z]+/g)`, each run in the case that it is written in.
unfoldable pub components : String → List String
components String.[] = []
components (String.◌∷◌ c text) =
    let rest = components text in
    let kind = char_kind (code c) in
    if is_component kind then joined (starts_with_kind kind text) c rest else rest

-- `version.match(/\d+/g)`.
unfoldable pub numeric_runs : String → List String
numeric_runs String.[] = []
numeric_runs (String.◌∷◌ c text) =
    let rest = numeric_runs text in
    if same_kind digit (char_kind (code c))
    then joined (starts_with_kind digit text) c rest
    else rest

-- `Number.parseInt(component, 10)`.
abbrev parse_from : ℕ → List ℕ → ℕ
parse_from value [] = value
parse_from value (c ∷ cs) = parse_from (value * 10 + (c - 48)) cs

-- `score * 27 + character.charCodeAt(0) - 96`, of a letter in either case.
abbrev letter_value : ℕ → ℕ
letter_value c = if leb c 90 then c - 64 else c - 96

abbrev score_from : ℕ → List ℕ → ℕ
score_from score [] = score
score_from score (c ∷ cs) = score_from (score * 27 + letter_value c) cs

abbrev pub component_value : String → ℕ
component_value component =
    if starts_with_kind digit component
    then min (parse_from 0 (codes component)) 2000000000
    else 1000000000 + score_from 0 (take 6 (codes component))

-- normalizeVendorVersion.
unfoldable pub normalize_vendor_version : String → List ℕ
unfolding components
normalize_vendor_version version = map component_value (take 16 (components version))

-- The sign that compareNormalizedVersions returns: -1, 0 or 1.
pub data Comparison : Type 0 where
  less equal greater : Comparison

abbrev pub sign_of : ℕ → ℕ → Comparison → Comparison
sign_of a b rest = if a == b then rest else if ltb a b then less else greater

-- compareNormalizedVersions: a missing component is 0.
unfoldable pub compare_normalized_versions : List ℕ → List ℕ → Comparison
compare_normalized_versions [] [] = equal
compare_normalized_versions [] (b ∷ bs) = sign_of 0 b (compare_normalized_versions [] bs)
compare_normalized_versions (a ∷ rest) [] = sign_of a 0 (compare_normalized_versions rest [])
compare_normalized_versions (a ∷ rest) (b ∷ bs) = sign_of a b (compare_normalized_versions rest bs)

-- `minimum && compare(normalized, minimum) < 0` and `maximum && … > 0`.
abbrev pub below_minimum : List ℕ → Option (List ℕ) → Bool
below_minimum version none = false
below_minimum version (some minimum) = elim (compare_normalized_versions version minimum) [
  | less ↦ true
  | _ ↦ false
]

abbrev pub above_maximum : List ℕ → Option (List ℕ) → Bool
above_maximum version none = false
above_maximum version (some maximum) = elim (compare_normalized_versions version maximum) [
  | greater ↦ true
  | _ ↦ false
]

-- `!version`.
abbrev pub given_version : Option String → Option String
given_version none = none
given_version (some version) = if str_eq version "" then none else some version

abbrev applicable : Option String → Option (List ℕ) → Option (List ℕ) → Bool
applicable none minimum maximum = true
applicable (some version) minimum maximum =
    let normalized = normalize_vendor_version version in
    not (below_minimum normalized minimum) && not (above_maximum normalized maximum)

-- isVersionApplicable.
unfoldable pub is_version_applicable : Option String → Option (List ℕ) → Option (List ℕ) → Bool
is_version_applicable version minimum maximum = applicable (given_version version) minimum maximum
