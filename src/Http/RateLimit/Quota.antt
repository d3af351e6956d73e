-- ===== src/Http/RateLimit/Quota.antt =====
-- How many requests consumeRateLimit of src/http/security.ts lets through.
use clideck_mcp.Prelude.{
  ℕ, suc, ◌+◌, ◌-◌, min, String, true, false, ◌&&◌, List, [], ◌∷◌, ◌≡◌, refl, ap, ◌∙◌, inl, inr,
  arith, leb, if◌then◌else◌, Bool-cases, ◌==◌, str_eq, str_eq_iff, All, length,
}
use clideck_mcp.Http.RateLimit.{Bucket, is_bucket, count_request, minute_of, consume_rate_limit}

-- The requests that the window has counted.
abbrev pub requests_in : String → String → ℕ → List Bucket → ℕ
requests_in key route window [] = 0
requests_in key route window (b ∷ buckets) =
    if is_bucket key route window b then b.request_count else requests_in key route window buckets

count_request_counts :
    (key route : String) (window : ℕ) (buckets : List Bucket)
    → ((count_request key route window buckets).0 ≡ requests_in key route window buckets + 1)
      × (requests_in key route window (count_request key route window buckets).1
          ≡ requests_in key route window buckets + 1)
unfolding count_request
count_request_counts key route window [] =
    let self : (str_eq key key && str_eq route route) ≡ true =
      rw ((str_eq_iff key key).1 refl, (str_eq_iff route route).1 refl) refl in
    (omega arith, ground arith)
count_request_counts key route window (b ∷ buckets) =
    let (count, after) = count_request_counts key route window buckets in
    elim (Bool-cases (is_bucket key route window b)) [
      | inl hit ↦ rw hit (refl, rw hit refl)
      | inr miss ↦ rw miss (count, rw miss after)
    ]

-- Requests of one client to one route class, at the times given; how many are allowed.
abbrev pub allowed_of : (String → String) → String → String → ℕ → List ℕ → List Bucket → ℕ
allowed_of sha256 client_key route_class limit [] buckets = 0
allowed_of sha256 client_key route_class limit (now ∷ times) buckets =
    let (verdict, after) = consume_rate_limit sha256 now client_key route_class limit buckets in
    (if verdict.allowed then 1 else 0) + allowed_of sha256 client_key route_class limit times after

consume_step :
    (sha256 : String → String) (now : ℕ) (client_key route_class : String) (limit : ℕ)
    (buckets : List Bucket)
    → ((consume_rate_limit sha256 now client_key route_class limit buckets).0.allowed
        ≡ leb (requests_in (sha256 client_key) route_class (minute_of now) buckets + 1) limit)
      × (requests_in
            (sha256 client_key)
            route_class
            (minute_of now)
            (consume_rate_limit sha256 now client_key route_class limit buckets).1
          ≡ requests_in (sha256 client_key) route_class (minute_of now) buckets + 1)
unfolding consume_rate_limit
consume_step sha256 now client_key route_class limit buckets =
    let (count, after) =
      count_request_counts (sha256 client_key) route_class (minute_of now) buckets in
    (ap (λ n. leb n limit) count, after)

one_more :
    (limit used n : ℕ)
    → (if leb (used + 1) limit then 1 else 0) + min (limit - (used + 1)) n
      ≡ min (limit - used) (suc n)
one_more limit used n = ground arith

-- Of requests of one client to one route class within one minute, at any times in it, exactly as
-- many are allowed as the limit leaves after the requests that the minute has already counted, or
-- all of them where they are fewer.
pub rate_limit_exact :
    (sha256 : String → String) (client_key route_class : String) (limit window : ℕ) (times : List ℕ)
    (buckets : List Bucket)
    → All (λ now. minute_of now ≡ window) times
    → allowed_of sha256 client_key route_class limit times buckets
      ≡ min (limit - requests_in (sha256 client_key) route_class window buckets) (length times)
rate_limit_exact sha256 client_key route_class limit window [] buckets h = omega arith
rate_limit_exact sha256 client_key route_class limit window (now ∷ times) buckets (at, h) =
    let used = requests_in (sha256 client_key) route_class window buckets in
    let after = (consume_rate_limit sha256 now client_key route_class limit buckets).1 in
    let (verdict, counted_now) = consume_step sha256 now client_key route_class limit buckets in
    let rest = rate_limit_exact sha256 client_key route_class limit window times after h in
    let counted_here : requests_in (sha256 client_key) route_class window after ≡ used + 1 =
      rw at at counted_now in
    let verdict_here : (consume_rate_limit sha256 now client_key route_class limit
          buckets).0.allowed
        ≡ leb (used + 1) limit =
      rw at at verdict in
    ap (λ b. (if b then 1 else 0) + allowed_of sha256 client_key route_class limit times after)
      verdict_here
    ∙ ap (λ n. (if leb (used + 1) limit then 1 else 0) + n) rest
    ∙ ap (λ u. (if leb (used + 1) limit then 1 else 0) + min (limit - u) (length times))
        counted_here
    ∙ one_more limit used (length times)

other_untouched :
    (key route key' route' : String) (window window' : ℕ) (buckets : List Bucket)
    → is_bucket key route window (record {
      bucket_key = key';
      route_class = route';
      window_start = window';
      request_count = 1;
    })
      ≡ false
    → requests_in key route window (count_request key' route' window' buckets).1
      ≡ requests_in key route window buckets
unfolding count_request
other_untouched key route key' route' window window' [] apart = rw apart refl
other_untouched key route key' route' window window' (b ∷ buckets) apart =
    let rest = other_untouched key route key' route' window window' buckets apart in
    elim (Bool-cases (is_bucket key' route' window' b)) [
      | inl hit ↦ let mine = elsewhere hit in rw (hit, mine) refl
      | inr miss ↦ rw (miss, rest) refl
    ]
  where
    elsewhere : is_bucket key' route' window' b ≡ true → is_bucket key route window b ≡ false
    elsewhere hit =
        let at_key : b.bucket_key ≡ key' = (str_eq_iff b.bucket_key key').0 (ground arith) in
        let at_route : b.route_class ≡ route' =
          (str_eq_iff b.route_class route').0 (ground arith) in
        let at_window : b.window_start ≡ window' = ground arith in
        ap (λ k. str_eq k key && str_eq b.route_class route && b.window_start == window) at_key
        ∙ ap (λ k. str_eq key' key && str_eq k route && b.window_start == window) at_route
        ∙ ap (λ n. str_eq key' key && str_eq route' route && n == window) at_window
        ∙ apart

-- A request counts in its own bucket alone: the requests that any other client digest, route class
-- or minute has counted stay as they are.
rate_limit_separate :
    (sha256 : String → String) (now : ℕ) (client_key route_class key route : String)
    (limit window : ℕ) (buckets : List Bucket)
    → is_bucket key route window (record {
      bucket_key = sha256 client_key;
      route_class = route_class;
      window_start = minute_of now;
      request_count = 1;
    })
      ≡ false
    → requests_in key route window
        (consume_rate_limit sha256 now client_key route_class limit buckets).1
      ≡ requests_in key route window buckets
unfolding consume_rate_limit
rate_limit_separate sha256 now client_key route_class key route limit window buckets apart =
    other_untouched key route (sha256 client_key) route_class window (minute_of now) buckets apart
