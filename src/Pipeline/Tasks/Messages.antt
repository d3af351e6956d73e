-- ===== src/Pipeline/Tasks/Messages.antt =====
-- How src/domain/pipeline.ts reads a failure's message: isRetryableCodexPlatformArtifactFailure and
-- shouldReduceDeepReviewBatchOnFailure. Their regular expressions are searches written out: a text
-- is the list of its code points, `\b` is a place where a word begins or ends, and the flag `i`
-- compares lower-case letters.
use clideck_mcp.Prelude.{
  ℕ, zero, suc, ◌+◌, String, Bool, true, false, ◌&&◌, ◌||◌, not, Option, none, some, List, [], ◌∷◌,
  leb, ◌==◌, if◌then◌else◌, str_eq,
}
use Prim.Native.Char.{code}

abbrev pub codes : String → List ℕ
codes String.[] = []
codes (String.◌∷◌ c s) = code c ∷ codes s

abbrev pub lower : ℕ → ℕ
lower c = if leb b'A' c && leb c b'Z' then c + 32 else c

abbrev pub is_digit : ℕ → Bool
is_digit c = leb b'0' c && leb c b'9'

-- `\w`.
abbrev pub is_word : ℕ → Bool
is_word c = is_digit c || (leb b'a' (lower c) && leb (lower c) b'z') || c == b'_'

-- What follows the word at the head of the text, if the text begins with it.
unfoldable pub after_prefix : List ℕ → List ℕ → Option (List ℕ)
after_prefix [] s = some s
after_prefix (p ∷ ps) [] = none
after_prefix (p ∷ ps) (c ∷ s) = let rest = after_prefix ps s in if lower c == p then rest else none

-- `\b` after a word character.
abbrev pub ends_word : List ℕ → Bool
ends_word [] = true
ends_word (c ∷ s) = not (is_word c)

abbrev pub ends_at : Option (List ℕ) → Bool
ends_at none = false
ends_at (some rest) = ends_word rest

-- `(?:request could not be completed|retry later)\b`.
unfoldable pub asks_to_retry : List ℕ → Bool
unfolding after_prefix
asks_to_retry s =
    ends_at (after_prefix (codes "request could not be completed") s)
    || ends_at (after_prefix (codes "retry later") s)

-- `[\s\S]{0,n}\b…`, after a character that is a word character or not.
unfoldable pub retry_within : ℕ → Bool → List ℕ → Bool
unfolding asks_to_retry
retry_within n in_word [] = false
retry_within zero in_word (c ∷ s) = not in_word && asks_to_retry (c ∷ s)
retry_within (suc n) in_word (c ∷ s) =
    (not in_word && asks_to_retry (c ∷ s)) || retry_within n (is_word c) s

abbrev pub gap : ℕ
gap = 240

abbrev pub retry_after : Option (List ℕ) → Bool
retry_after none = false
retry_after (some rest) = ends_word rest && retry_within gap true rest

-- The search of isRetryableCodexPlatformArtifactFailure.
unfoldable pub platform_error_in : Bool → List ℕ → Bool
unfolding after_prefix retry_within
platform_error_in in_word [] = false
platform_error_in in_word (c ∷ s) =
    (not in_word && retry_after (after_prefix (codes "internal_error") (c ∷ s)))
    || platform_error_in (is_word c) s

unfoldable pub is_retryable_codex_platform_artifact_failure : String → Bool
unfolding platform_error_in
is_retryable_codex_platform_artifact_failure failure_message =
    platform_error_in false (codes failure_message)

-- `\bINTERNAL_ERROR\b|retry later with the same safe inputs`.
unfoldable pub transient_in : Bool → List ℕ → Bool
unfolding after_prefix
transient_in in_word [] = false
transient_in in_word (c ∷ s) =
    (not in_word && ends_at (after_prefix (codes "internal_error") (c ∷ s)))
    || elim (after_prefix (codes "retry later with the same safe inputs") (c ∷ s)) as (λ _. Bool) [
      | none ↦ false
      | some rest ↦ true
    ]
    || transient_in (is_word c) s

-- `\d*`, and what follows.
unfoldable pub after_digits : List ℕ → List ℕ
after_digits [] = []
after_digits (c ∷ s) = let rest = after_digits s in if is_digit c then rest else c ∷ s

abbrev pub begins_with : String → List ℕ → Bool
begins_with word s = elim (after_prefix (codes word) s) as (λ _. Bool) [
  | none ↦ false
  | some rest ↦ true
]

-- `(?:\.\d+)?\.content_hash`.
unfoldable pub names_content_hash : List ℕ → Bool
unfolding after_prefix after_digits
names_content_hash [] = false
names_content_hash (c ∷ []) = false
names_content_hash (c ∷ d ∷ s) =
    begins_with ".content_hash" (c ∷ d ∷ s)
    || (c == b'.' && is_digit d && begins_with ".content_hash" (after_digits s))

abbrev pub hash_after : Option (List ℕ) → Bool
hash_after none = false
hash_after (some rest) = names_content_hash rest

unfoldable pub provenance_hash_in : List ℕ → Bool
unfolding after_prefix names_content_hash
provenance_hash_in [] = false
provenance_hash_in (c ∷ s) =
    hash_after (after_prefix (codes "repaired_candidate.provenance") (c ∷ s))
    || provenance_hash_in s

unfoldable pub should_reduce_deep_review_batch_on_failure : (code message : String) → Bool
unfolding transient_in provenance_hash_in
should_reduce_deep_review_batch_on_failure failure_code failure_message =
    str_eq failure_code "AGENT_ARTIFACT_REJECTED"
    && not
        (transient_in false (codes failure_message) || provenance_hash_in (codes failure_message))
