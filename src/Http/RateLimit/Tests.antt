-- ===== src/Http/RateLimit/Tests.antt =====
-- Runs of the rate limits, and their theorems at them.
use clideck_mcp.Prelude.{ℕ, ◌-◌, min, String, true, false, List, [], ◌∷◌, ◌≡◌, refl, length}
use Prim.Native.String
use clideck_mcp.Http.RateLimit.{Bucket, consume_rate_limit, consume_daily_rate_limit}
use clideck_mcp.Http.RateLimit.Quota.{requests_in, allowed_of, rate_limit_exact}

abbrev digest : String → String
digest text = String.◌++◌ "#" text

abbrev used_twice : List Bucket
used_twice =
    record { bucket_key = "#client"; route_class = "mcp"; window_start = 120; request_count = 2 }
    ∷ []

third_of_two :
    (consume_rate_limit digest 130 "client" "mcp" 2 used_twice).0
    ≡ record { allowed = false; remaining = 0 }
unfolding consume_rate_limit
third_of_two = refl

a_new_day :
    (consume_daily_rate_limit digest 90000 "client" "mcp" 2 used_twice).0
    ≡ record { allowed = true; remaining = 1 }
unfolding consume_daily_rate_limit
a_new_day = refl

abbrev times : List ℕ
times = 121 ∷ 140 ∷ 179 ∷ []

rate_limit_exact_example :
    allowed_of digest "client" "mcp" 3 times used_twice
    ≡ min (3 - requests_in "#client" "mcp" 120 used_twice) (length times)
rate_limit_exact_example =
    rate_limit_exact digest "client" "mcp" 3 120 times used_twice (refl, (refl, (refl, tt)))
