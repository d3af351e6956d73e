-- ===== src/Security/UrlPolicy/Probe.antt =====
-- The probe of src/security/url-policy.ts: assertSafePublicSourceUrlSyntax, safePublicLookup and
-- probePublicSourceUrl. Of Node, isIP, the URL parser and the network are parameters: `parse_url` is
-- none where `new URL` throws, and `network n url` is how the request number `n` ends.
use clideck_mcp.Prelude.{
  ℕ, zero, suc, Bool, true, false, ◌&&◌, ◌||◌, not, Option, none, some, List, [], ◌∷◌, map, leb,
  ltb, ◌==◌, if◌then◌else◌, any, length,
}
use clideck_mcp.Security.UrlPolicy.Addresses.{
  Text, text, same_text, lower, split_on, is_blocked_address,
}

pub record Url : Type 0 where
  pub protocol : Text
  pub username : Text
  pub password : Text
  pub port : Text
  pub hostname : Text

abbrev is_empty : Text → Bool
is_empty [] = true
is_empty (c ∷ s) = false

-- `s.endsWith(t)`.
abbrev ends_with : Text → Text → Bool
ends_with t [] = is_empty t
ends_with t (c ∷ s) = same_text (c ∷ s) t || ends_with t s

abbrev one_of : List Text → Text → Bool
one_of ts s = any (same_text s) ts

-- How assertSafePublicSourceUrlSyntax ends: it returns, it throws, or the parser throws.
pub data Syntax : Type 0 where
  safe unsafe malformed : Syntax

-- safePublicLookup: the addresses that the DNS gives, or none on an error.
pub data Lookup : Type 0 where
  resolved : List Text → Lookup
  lookup_failed blocked : Lookup

abbrev pub first_address : Bool → List Text → Lookup
first_address true addresses = resolved addresses
first_address false [] = blocked
first_address false (a ∷ addresses) = resolved (a ∷ [])

module _ (is_ip : Text → ℕ) where
  unfoldable pub safe_public_lookup : (all : Bool) → Option (List Text) → Lookup
  unfolding is_blocked_address
  safe_public_lookup all none = lookup_failed
  safe_public_lookup all (some addresses) =
      if length addresses == 0 || any (is_blocked_address is_ip) addresses
      then blocked
      else first_address all addresses

  abbrev pub has_unsafe_parts : Url → Bool
  has_unsafe_parts url =
      not (same_text url.protocol (text "https:"))
      || not (is_empty url.username)
      || not (is_empty url.password)
      || (not (is_empty url.port) && not (same_text url.port (text "443")))
      || ltb 253 (length url.hostname)
      || same_text url.hostname (text "localhost")
      || ends_with (text ".local") url.hostname
      || ends_with (text ".lan") url.hostname
      || ends_with (text ".internal") url.hostname

  abbrev pub check_url : Option Url → Syntax
  check_url none = malformed
  check_url (some url) =
      if has_unsafe_parts url
      then unsafe
      else if not (is_ip url.hostname == 0) && is_blocked_address is_ip url.hostname
      then unsafe
      else safe

-- How assertSafeProvenanceUrl ends: it returns, or throws UNSAFE_PROVENANCE_URL or an error of the
-- parser or of the DNS.
pub data Provenance : Type 0 where
  accepted rejected not_resolved : Provenance

module _ (is_ip : Text → ℕ) (dns : Text → Option (List Text)) where
  abbrev pub check_addresses : Option (List Text) → Provenance
  check_addresses none = not_resolved
  check_addresses (some addresses) =
      if length addresses == 0 || any (is_blocked_address is_ip) addresses
      then rejected
      else accepted

  abbrev pub check_host : Option Url → Provenance
  check_host none = not_resolved
  check_host (some url) =
      if not (is_ip url.hostname == 0) then accepted else check_addresses (dns url.hostname)

  abbrev pub check_provenance : Option Url → Syntax → Provenance
  check_provenance url unsafe = rejected
  check_provenance url malformed = not_resolved
  check_provenance url safe = check_host url

  unfoldable pub assert_safe_provenance_url : (Text → Option Url) → Text → Provenance
  unfolding is_blocked_address
  assert_safe_provenance_url parse_url value =
      check_provenance (parse_url value) (check_url is_ip (parse_url value))

-- The error codes of a probe.
pub data ProbeCode : Type 0 where
  unsafe_provenance_url source_preflight_unavailable source_redirect_invalid : ProbeCode
  source_http : ℕ → ProbeCode
  source_mime_not_allowed : ProbeCode

-- PublicSourceProbe.
pub data PublicSourceProbe : Type 0 where
  ok : (final_url media_type : Text) → PublicSourceProbe
  failed : ProbeCode → (retryable : Bool) → PublicSourceProbe

pub record Response : Type 0 where
  pub status : ℕ
  pub location : Option Text
  pub content_type : Option Text

-- How a request ends: in an answer, in UNSAFE_PROVENANCE_URL where safePublicLookup blocked the
-- addresses of its host, or in any other error.
pub data Reply : Type 0 where
  replied : Response → Reply
  lookup_blocked request_failed : Reply

abbrev pub public_source_media_types : List Text
public_source_media_types =
    text "application/pdf"
    ∷ text "application/xhtml+xml"
    ∷ text "text/html"
    ∷ text "text/plain"
    ∷ []

-- The white space of `trim`.
abbrev is_space : ℕ → Bool
is_space c =
    (leb 9 c && leb c 13)
    || c == 32
    || c == 160
    || c == 5760
    || (leb 8192 c && leb c 8202)
    || c == 8232
    || c == 8233
    || c == 8239
    || c == 8287
    || c == 12288
    || c == 65279

abbrev trim_start : Text → Text
trim_start [] = []
trim_start (c ∷ s) = let rest = trim_start s in if is_space c then rest else c ∷ s

abbrev trim_end : Text → Text
trim_end [] = []
trim_end (c ∷ s) = let rest = trim_end s in if is_space c && is_empty rest then [] else c ∷ rest

abbrev first_part : List Text → Text
first_part [] = []
first_part (p ∷ ps) = p

abbrev or_empty : Option Text → Text
or_empty none = []
or_empty (some s) = s

-- `(contentType ?? '').split(';')[0]!.trim().toLowerCase()`.
unfoldable pub media_type_of : Option Text → Text
unfolding split_on
media_type_of content_type =
    map lower (trim_end (trim_start (first_part (split_on b';' (or_empty content_type)))))

abbrev pub is_retryable_status : ℕ → Bool
is_retryable_status status = status == 403 || status == 408 || status == 429 || leb 500 status

abbrev pub is_redirect : ℕ → Bool
is_redirect status = leb 300 status && ltb status 400

-- The URLs that were requested come with the answer.
abbrev pub Answer : Type 0
Answer = PublicSourceProbe × List Text

module _ (is_ip : Text → ℕ) (parse_url : Text → Option Url) (without_hash : Text → Text)
    (resolve_url : (location base : Text) → Option Text) (network : ℕ → Text → Reply) where
  unfoldable pub assert_safe_public_source_url_syntax : Text → Syntax
  unfolding is_blocked_address
  assert_safe_public_source_url_syntax value = check_url is_ip (parse_url value)

  abbrev pub follow : (Text → Answer) → Option Text → Answer
  follow again none = (failed source_preflight_unavailable true, [])
  follow again (some next) = again next

  -- A redirect; `left` more requests may be made.
  abbrev pub redirect : (Text → Answer) → ℕ → Text → Option Text → Answer
  redirect again left url none = (failed source_redirect_invalid false, [])
  redirect again left url (some location) =
      if is_empty location || left == 0
      then (failed source_redirect_invalid false, [])
      else follow again (resolve_url location url)

  abbrev pub receive : Text → Response → Answer
  receive url r =
      let media_type = media_type_of r.content_type in
      if not (r.status == 200) && not (r.status == 206)
      then (failed (source_http r.status) (is_retryable_status r.status), [])
      else if not (one_of public_source_media_types media_type)
      then (failed source_mime_not_allowed false, [])
      else (ok (without_hash url) media_type, [])

  abbrev pub respond : (Text → Answer) → ℕ → Text → Reply → Answer
  respond again left url lookup_blocked = (failed unsafe_provenance_url false, [])
  respond again left url request_failed = (failed source_preflight_unavailable true, [])
  respond again left url (replied r) =
      if is_redirect r.status then redirect again left url r.location else receive url r

  abbrev pub requested : Text → Answer → Answer
  requested url (probe, urls) = (probe, url ∷ urls)

  abbrev pub visit : (Text → Answer) → ℕ → ℕ → Text → Syntax → Answer
  visit again n left url unsafe = (failed unsafe_provenance_url false, [])
  visit again n left url malformed = (failed source_preflight_unavailable true, [])
  visit again n left url safe = requested url (respond again left url (network n url))

  -- The loop of probePublicSourceUrl: `n` requests are made, and `left` more may be.
  unfoldable pub probe_loop : (n left : ℕ) → Text → Answer
  unfolding assert_safe_public_source_url_syntax media_type_of
  probe_loop n zero url = (failed source_redirect_invalid false, [])
  probe_loop n (suc left) url =
      visit (λ next. probe_loop (suc n) left next) n left url
        (assert_safe_public_source_url_syntax url)

  unfoldable pub probe_public_source_url : Text → Answer
  unfolding probe_loop
  probe_public_source_url initial_url = probe_loop 0 6 initial_url
