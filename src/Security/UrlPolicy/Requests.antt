-- ===== src/Security/UrlPolicy/Requests.antt =====
-- What probePublicSourceUrl of src/security/url-policy.ts requests, and what its answers rest on.
use clideck_mcp.Prelude.{
  ℕ, zero, suc, ◌≤◌, Bool, true, false, ◌&&◌, ◌||◌, not, Option, none, some, List, [], ◌∷◌, ◌≡◌,
  refl, inl, inr, ◌⊎◌, arith, ◌==◌, any, length, All, Bool-cases, Option-cases,
}
use clideck_mcp.Prelude.Table.{In}
use clideck_mcp.Security.UrlPolicy.Addresses.{Text, same_text}
use clideck_mcp.Security.UrlPolicy.Probe.{
  Url, Syntax, safe, unsafe, malformed, ProbeCode, unsafe_provenance_url,
  source_preflight_unavailable, source_redirect_invalid, source_http, source_mime_not_allowed,
  PublicSourceProbe, Response, Reply, replied, lookup_blocked, request_failed, Answer,
  public_source_media_types, media_type_of, is_retryable_status, is_redirect, redirect, receive,
  respond, requested, assert_safe_public_source_url_syntax, probe_loop, probe_public_source_url,
}

-- The statuses that are worth another probe.
abbrev pub IsTransient : ℕ → Type 0
IsTransient status = (status ≡ 403) ⊎ ((status ≡ 408) ⊎ ((status ≡ 429) ⊎ (500 ≤ status)))

-- The failures that are worth another probe.
pub data MayRetry : ProbeCode → Bool → Type 0 where
  unsafe_url : MayRetry unsafe_provenance_url false
  no_answer : MayRetry source_preflight_unavailable true
  bad_redirect : MayRetry source_redirect_invalid false
  passing_status : (status : ℕ) → IsTransient status → MayRetry (source_http status) true
  lasting_status : (status : ℕ) → ¬ IsTransient status → MayRetry (source_http status) false
  bad_type : MayRetry source_mime_not_allowed false

status_retry : (status : ℕ) → MayRetry (source_http status) (is_retryable_status status)
status_retry status = elim (Bool-cases (is_retryable_status status)) [
  | inl again ↦ rw again (passing_status status (ground arith))
  | inr never ↦ rw never (lasting_status status (λ i. ground arith))
]

Reply-cases :
    (r : Reply) → ((a : Response) × (r ≡ replied a)) ⊎ ((r ≡ lookup_blocked) ⊎ (r ≡ request_failed))
Reply-cases (replied a) = inl (a, refl)
Reply-cases lookup_blocked = inr (inl refl)
Reply-cases request_failed = inr (inr refl)

Syntax-cases : (s : Syntax) → (s ≡ safe) ⊎ ((s ≡ unsafe) ⊎ (s ≡ malformed))
Syntax-cases safe = inl refl
Syntax-cases unsafe = inr (inl refl)
Syntax-cases malformed = inr (inr refl)

module _ (is_ip : Text → ℕ) (parse_url : Text → Option Url) (without_hash : Text → Text)
    (resolve_url : (location base : Text) → Option Text) (network : ℕ → Text → Reply) where
  abbrev pub IsSafe : Text → Type 0
  IsSafe url =
      assert_safe_public_source_url_syntax is_ip parse_url without_hash resolve_url network url
      ≡ safe

  -- A source that a probe finds is a URL it has requested, whose answer it accepts.
  pub record Found (final_url media_type : Text) (asked : List Text) : Type 0 where
    pub url : Text
    pub count : ℕ
    pub response : Response
    pub was_asked : In url asked
    pub answer : network count url ≡ replied response
    pub success : (response.status == 200 || response.status == 206) ≡ true
    pub media : media_type_of response.content_type ≡ media_type
    pub allowed : any (same_text media_type) public_source_media_types ≡ true
    pub final : without_hash url ≡ final_url

  abbrev pub Explains : PublicSourceProbe → List Text → Type 0
  Explains (PublicSourceProbe.ok final_url media_type) asked = Found final_url media_type asked
  Explains (PublicSourceProbe.failed code retryable) asked = MayRetry code retryable

  pub record IsProbe (most : ℕ) (answer : Answer) : Type 0 where
    pub bounded : length answer.1 ≤ most
    pub all_safe : All IsSafe answer.1
    pub explained : Explains answer.0 answer.1

  fails :
      (most : ℕ) {code : ProbeCode} {retryable : Bool}
      → MayRetry code retryable
      → IsProbe most (PublicSourceProbe.failed code retryable, [])
  fails most m = record { bounded = omega arith; all_safe = tt; explained = m }

  Explains-requested :
      (url : Text) (p : PublicSourceProbe) (asked : List Text)
      → Explains p asked
      → Explains p (url ∷ asked)
  Explains-requested url (PublicSourceProbe.ok f m) asked e = record {
    url = e.url;
    count = e.count;
    response = e.response;
    was_asked = inr e.was_asked;
    answer = e.answer;
    success = e.success;
    media = e.media;
    allowed = e.allowed;
    final = e.final;
  }
  Explains-requested url (PublicSourceProbe.failed c r) asked e = e

  later-IsProbe :
      (most : ℕ) (url : Text) (answer : Answer)
      → IsSafe url
      → IsProbe most answer
      → IsProbe (suc most) (requested is_ip parse_url without_hash resolve_url network url answer)
  later-IsProbe most url (p, urls) s i = record {
    bounded = let b = i.bounded in omega arith;
    all_safe = (s, i.all_safe);
    explained = Explains-requested url p urls i.explained;
  }

  redirect-IsProbe :
      (left : ℕ) (again : Text → Answer) (url : Text) (location : Option Text)
      → ((next : Text) → IsProbe left (again next))
      → IsProbe left
          (redirect is_ip parse_url without_hash resolve_url network again left url location)
  redirect-IsProbe left again url none h = fails left bad_redirect
  redirect-IsProbe left again url (some []) h = fails left bad_redirect
  redirect-IsProbe left again url (some (c ∷ location)) h = elim (Bool-cases (left == 0)) [
    | inl last ↦ rw last (fails left bad_redirect)
    | inr more ↦ rw more (elim (Option-cases (resolve_url (c ∷ location) url)) [
      | inl lost ↦ rw lost (fails left no_answer)
      | inr (next, e) ↦ rw e (h next)
    ])
  ]

  receive-IsProbe :
      (left n : ℕ) (url : Text) (r : Response)
      → IsSafe url
      → network n url ≡ replied r
      → IsProbe (suc left) (
          requested is_ip parse_url without_hash resolve_url network url
            (receive is_ip parse_url without_hash resolve_url network url r))
  receive-IsProbe left n url r s e =
      elim (Bool-cases (not (r.status == 200) && not (r.status == 206))) [
        | inl other ↦ rw other (later-IsProbe left url _ s (fails left (status_retry r.status)))
        | inr success ↦
            elim (Bool-cases
              (any (same_text (media_type_of r.content_type)) public_source_media_types)) [
                | inl allowed ↦
                    rw (success, allowed)
                      (record {
                        bounded = omega arith;
                        all_safe = (s, tt);
                        explained = record {
                          url = url;
                          count = n;
                          response = r;
                          was_asked = inl refl;
                          answer = e;
                          success = ground arith;
                          media = refl;
                          allowed = allowed;
                          final = refl;
                        };
                      })
                | inr not_allowed ↦
                    rw (success, not_allowed) (later-IsProbe left url _ s (fails left bad_type))
              ]
      ]

  respond-IsProbe :
      (left n : ℕ) (again : Text → Answer) (url : Text)
      → IsSafe url
      → ((next : Text) → IsProbe left (again next))
      → IsProbe (suc left) (
          requested is_ip parse_url without_hash resolve_url network url (
            respond is_ip parse_url without_hash resolve_url network again left url
              (network n url)))
  respond-IsProbe left n again url s h = elim (Reply-cases (network n url)) [
    | inr (inl b) ↦ rw b (later-IsProbe left url _ s (fails left unsafe_url))
    | inr (inr lost) ↦ rw lost (later-IsProbe left url _ s (fails left no_answer))
    | inl (r, e) ↦ rw e (elim (Bool-cases (is_redirect r.status)) [
      | inl moved ↦
          rw moved (later-IsProbe left url _ s (redirect-IsProbe left again url r.location h))
      | inr stays ↦ rw stays (receive-IsProbe left n url r s e)
    ])
  ]

  probe_loop-IsProbe :
      (n left : ℕ) (url : Text)
      → IsProbe left (probe_loop is_ip parse_url without_hash resolve_url network n left url)
  unfolding probe_loop
  probe_loop-IsProbe n zero url = fails zero bad_redirect
  probe_loop-IsProbe n (suc left) url =
      elim (Syntax-cases (
        assert_safe_public_source_url_syntax is_ip parse_url without_hash resolve_url network
          url)) [
            | inl s ↦
                rw s (respond-IsProbe left n _ url s (λ next. probe_loop-IsProbe (suc n) left next))
            | inr (inl u) ↦ rw u (fails (suc left) unsafe_url)
            | inr (inr m) ↦ rw m (fails (suc left) no_answer)
          ]

  -- A probe of a source's URL makes at most six requests, each to a URL that passed the syntax check
  -- just before. If it finds a source, then one of those requests was answered with status 200 or
  -- 206 and the media type that it reports, one of the four that are allowed, and the URL it reports
  -- is the requested one without its fragment. A failure is marked retryable with the code
  -- SOURCE_PREFLIGHT_UNAVAILABLE, and with the code of an HTTP status if that is 403, 408, 429 or
  -- from 500 on; a failure with the code of another HTTP status, an unsafe URL, an invalid redirect
  -- or a media type that is not allowed is marked as not retryable. This holds whatever the parser,
  -- isIP and the network do.
  pub probe_public_source_url-IsProbe :
      (initial_url : Text)
      → IsProbe 6
          (probe_public_source_url is_ip parse_url without_hash resolve_url network initial_url)
  unfolding probe_public_source_url
  probe_public_source_url-IsProbe initial_url = probe_loop-IsProbe 0 6 initial_url
