-- ===== src/RateLimit/Tests.antt =====
-- A run of the limiter with one request a minute.
use cdev.Base.{◌≡◌, refl, true, false, ◌≤◌, List, [], ◌∷◌, length, select, arith, ltb, ◌+◌}
use cdev.RateLimit.{with_max_requests, RateLimiterOption, new_rate_limiter}
use cdev.Base.Text.{Text, codes}
use cdev.RateLimit.Key.{HttpRequest, trim_space, trim_start, trim_end, index_from, ip_key_extractor}
use cdev.RateLimit.Host.{bracketed, remote_of, ip_key_extractor-host}
use cdev.RateLimit.Granted.{Call, asks, ticks, granted, granted_le}

abbrev strict : List RateLimiterOption
strict = with_max_requests 1 ∷ []

abbrev calls : List Call
calls = asks 1 "a" ∷ asks 2 "a" ∷ ticks 3 ∷ asks 4 "b" ∷ []

granted_le_example :
    length (
      select
        (λ time. ltb 5 (time + (new_rate_limiter strict).window))
        (granted (new_rate_limiter strict) calls "a"))
    ≤ (new_rate_limiter strict).max_requests
granted_le_example =
    granted_le strict calls 5 "a"
      (omega arith, (omega arith, (omega arith, (omega arith, omega arith))))

-- A client says where it comes from, which counts only behind a trusted proxy.
abbrev header : Text → Text
header name = codes " 10.0.0.1 , 10.0.0.2"

abbrev visit : HttpRequest
visit = record { remote_addr = remote_of (bracketed (codes "::1")) (codes "4711"); header = header }

ip_key_extractor-host_example : ip_key_extractor false visit ≡ codes "::1"
ip_key_extractor-host_example =
    ip_key_extractor-host (bracketed (codes "::1")) (codes "4711") header
      ((λ e. omega arith), ((λ e. omega arith), ((λ e. omega arith), tt)))
      ((λ e. omega arith), ((λ e. omega arith), ((λ e. omega arith), ((λ e. omega arith), tt))))

forwarded : ip_key_extractor true visit ≡ codes "10.0.0.1"
unfolding ip_key_extractor trim_space trim_start trim_end index_from
forwarded = refl
