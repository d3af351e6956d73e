-- ===== src/Pipeline/Limits/Tests.antt =====
-- Runs of the limits, and their theorems at them.
use clideck_mcp.Prelude.{true, false, List, [], ◌∷◌, ◌≡◌, refl}
use clideck_mcp.Pipeline.Limits.{
  Fragment, byte_length, bound_fragment_analysis_batch, candidate_verification, source_discovery,
  keep_processing, restart_discovery, normal, demand_failure_disposition,
}
use clideck_mcp.Pipeline.Limits.Fragments.{IsSelection, bound_fragment_analysis_batch-IsSelection}

abbrev fragment : Fragment
fragment = record { id = "f"; content = "show vlan" }

abbrev fragments : List Fragment
fragments = fragment ∷ fragment ∷ fragment ∷ []

cut_by_bytes : bound_fragment_analysis_batch fragments 20 ≡ fragment ∷ fragment ∷ []
unfolding bound_fragment_analysis_batch
cut_by_bytes = refl

never_empty : bound_fragment_analysis_batch fragments 3 ≡ fragment ∷ []
unfolding bound_fragment_analysis_batch
never_empty = refl

two_bytes : byte_length "né" ≡ 3
two_bytes = refl

verification_failed : demand_failure_disposition true candidate_verification false ≡ keep_processing
unfolding demand_failure_disposition
verification_failed = refl

discovery_failed : demand_failure_disposition true source_discovery false ≡ restart_discovery
unfolding demand_failure_disposition
discovery_failed = refl

discovery_retried : demand_failure_disposition true source_discovery true ≡ normal
unfolding demand_failure_disposition
discovery_retried = refl

bound_fragment_analysis_batch-IsSelection_example :
    IsSelection 20 fragments (bound_fragment_analysis_batch fragments 20)
bound_fragment_analysis_batch-IsSelection_example =
    bound_fragment_analysis_batch-IsSelection fragments 20
