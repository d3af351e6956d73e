-- ===== src/Version/Tests.antt =====
-- Runs of the version rules, and the theorems at them.
use clideck_mcp.Prelude.{false, none, some, [], ◌∷◌, ◌≡◌, refl, ◌⊎◌}
use clideck_mcp.Version.{
  numeric_runs, normalize_vendor_version, equal, compare_normalized_versions, is_version_applicable,
}
use clideck_mcp.Version.Order.{Decides, compare_normalized_versions-Decides}
use clideck_mcp.Version.Applicability.{
  model, range, explicit_range, calendar, major_minor, derive_version_branch,
  match_version_applicability,
}
use clideck_mcp.Version.Match.{IsWithin, IsOutside, range_matches}
use clideck_mcp.Version.Effective.{
  ApplicabilityInput, IsGrounded, effective_applicability, effective_applicability-IsGrounded,
}

normalized : normalize_vendor_version "15.2(4)M7" ≡ 15 ∷ 2 ∷ 4 ∷ 1000000013 ∷ 7 ∷ []
unfolding normalize_vendor_version
normalized = refl

padded : compare_normalized_versions (1 ∷ 2 ∷ []) (1 ∷ 2 ∷ 0 ∷ []) ≡ equal
unfolding compare_normalized_versions
padded = refl

newer : is_version_applicable (some "17.9.1") (some (17 ∷ 3 ∷ [])) (some (17 ∷ 6 ∷ [])) ≡ false
unfolding is_version_applicable normalize_vendor_version compare_normalized_versions
newer = refl

stamp : derive_version_branch (some "20240115") calendar ≡ some "2024.01"
unfolding derive_version_branch
stamp = refl

branch : derive_version_branch (some "17.9.1a") major_minor ≡ some "17.9"
unfolding derive_version_branch numeric_runs
branch = refl

compare_normalized_versions-Decides_example :
    Decides
      (15 ∷ 2 ∷ [])
      (15 ∷ 2 ∷ 4 ∷ [])
      (compare_normalized_versions (15 ∷ 2 ∷ []) (15 ∷ 2 ∷ 4 ∷ []))
compare_normalized_versions-Decides_example =
    compare_normalized_versions-Decides (15 ∷ 2 ∷ []) (15 ∷ 2 ∷ 4 ∷ [])

range_matches_example :
    ((match_version_applicability (some "17.9.1") (some (17 ∷ 3 ∷ [])) none range none major_minor
        ≡ some explicit_range)
      × IsWithin (normalize_vendor_version "17.9.1") (some (17 ∷ 3 ∷ [])) none)
    ⊎ ((match_version_applicability (some "17.9.1") (some (17 ∷ 3 ∷ [])) none range none major_minor
          ≡ none)
        × IsOutside (normalize_vendor_version "17.9.1") (some (17 ∷ 3 ∷ [])) none)
range_matches_example = range_matches "17.9.1" (some (17 ∷ 3 ∷ [])) none none major_minor refl

abbrev input : ApplicabilityInput
input = record {
  requested_scope = some model;
  platform_id = none;
  architecture_slug = none;
  requested_version_scope = none;
  requested_version_branch = none;
  version_minimum = some "17.9";
  version_maximum = some "17.9";
  version_strategy = major_minor;
}

effective_applicability-IsGrounded_example : IsGrounded input (effective_applicability input)
effective_applicability-IsGrounded_example = effective_applicability-IsGrounded input
