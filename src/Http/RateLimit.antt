-- ===== src/Http/RateLimit.antt =====
-- consumeRateLimit and consumeDailyRateLimit of src/http/security.ts. A time is a second, and
-- `date_trunc` the start of its minute or its day; the digest of a client key is a parameter.
pub mod Quota
mod Tests
use clideck_mcp.Prelude.{
  ℕ, zero, suc, ◌+◌, ◌-◌, ◌*◌, ◌/◌, String, Bool, true, false, ◌&&◌, Option, none, some, List, [],
  ◌∷◌, ◌==◌, leb, if◌then◌else◌, str_eq,
}

-- A row of `rate_limit_buckets`.
pub record Bucket : Type 0 where
  pub bucket_key : String
  pub route_class : String
  pub window_start : ℕ
  pub request_count : ℕ

pub record RateDecision : Type 0 where
  pub allowed : Bool
  pub remaining : ℕ

abbrev pub is_bucket : String → String → ℕ → Bucket → Bool
is_bucket key route window b =
    str_eq b.bucket_key key && str_eq b.route_class route && b.window_start == window

abbrev pub counted : Bucket → Bucket
counted b = record b { request_count = b.request_count + 1 }

-- `INSERT … ON CONFLICT (bucket_key, route_class, window_start) DO UPDATE SET request_count =
-- rate_limit_buckets.request_count + 1 RETURNING request_count`.
unfoldable pub count_request : String → String → ℕ → List Bucket → ℕ × List Bucket
count_request key route window [] = (
  1,
  record { bucket_key = key; route_class = route; window_start = window; request_count = 1 } ∷ [],
)
count_request key route window (b ∷ buckets) =
    let (count, rest) = count_request key route window buckets in
    if is_bucket key route window b
    then (b.request_count + 1, counted b ∷ buckets)
    else (count, b ∷ rest)

-- `date_trunc('minute', now())` and `date_trunc('day', now())`.
abbrev pub minute_of : ℕ → ℕ
minute_of now = now / 60 * 60

abbrev pub day_of : ℕ → ℕ
day_of now = now / 86400 * 86400

abbrev pub decision : ℕ → ℕ → RateDecision
decision limit count = record { allowed = leb count limit; remaining = limit - count }

module _ (sha256 : String → String) where
  abbrev pub consume_window :
      ℕ → (client_key route_class : String) → (limit : ℕ) → List Bucket → RateDecision × List Bucket
  consume_window window client_key route_class limit buckets =
      let (count, after) = count_request (sha256 client_key) route_class window buckets in
      (decision limit count, after)

  -- consumeRateLimit.
  unfoldable pub consume_rate_limit :
      ℕ → (client_key route_class : String) → (limit : ℕ) → List Bucket → RateDecision × List Bucket
  unfolding count_request
  consume_rate_limit now client_key route_class limit buckets =
      consume_window (minute_of now) client_key route_class limit buckets

  -- consumeDailyRateLimit.
  unfoldable pub consume_daily_rate_limit :
      ℕ → (client_key route_class : String) → (limit : ℕ) → List Bucket → RateDecision × List Bucket
  unfolding count_request
  consume_daily_rate_limit now client_key route_class limit buckets =
      consume_window (day_of now) client_key route_class limit buckets
