-- ===== src/RateLimit.antt =====
-- internal/server/http/middleware/ratelimit.go: the sliding-window limiter. `now` is the time a
-- method reads, in nanoseconds; a comparison with now - d is written as one with d on the other side.
pub mod Key
pub mod Host
pub mod Window
pub mod Granted
mod Tests
use cdev.Base.{
  String, ℕ, ◌+◌, ◌*◌, ◌-◌, Bool, true, false, not, List, [], ◌∷◌, ◌++◌, Option, none, some, ltb,
  leb, if◌then◌else◌, length, select, string_eq,
}
use cdev.Base.Map.{Map, lookup, insert, erase, retain}

pub record Bucket : Type 0 where
  pub timestamps : List ℕ
  pub last_access : ℕ

pub record RateLimiter : Type 0 where
  pub max_requests : ℕ
  pub window : ℕ
  pub buckets : Map String Bucket

abbrev pub default_max_requests : ℕ
default_max_requests = 10

-- 1 * time.Minute
abbrev pub default_window : ℕ
default_window = 60 * 1000000000

pub data RateLimiterOption : Type 0 where
  with_max_requests with_window : ℕ → RateLimiterOption

-- The functions that WithMaxRequests and WithWindow return.
abbrev pub apply_option : RateLimiter → RateLimiterOption → RateLimiter
apply_option r (with_max_requests n) = if ltb 0 n then record r { max_requests = n } else r
apply_option r (with_window d) = if ltb 0 d then record r { window = d } else r

abbrev pub apply_options : RateLimiter → List RateLimiterOption → RateLimiter
apply_options r [] = r
apply_options r (opt ∷ opts) = apply_options (apply_option r opt) opts

-- NewRateLimiter
unfoldable pub new_rate_limiter : List RateLimiterOption → RateLimiter
new_rate_limiter opts =
    apply_options
      (record { max_requests = default_max_requests; window = default_window; buckets = [] }) opts

-- ts.After(now - window)
abbrev pub in_window : ℕ → ℕ → ℕ → Bool
in_window window now ts = ltb now (ts + window)

-- The requests of a key that the limiter remembers: none without a bucket.
abbrev pub stamps_of : Option Bucket → List ℕ
stamps_of none = []
stamps_of (some b) = b.timestamps

-- Allow
unfoldable pub allow : RateLimiter → ℕ → String → RateLimiter × Bool
allow r now key =
    let valid = select (in_window r.window now) (stamps_of (lookup key r.buckets)) in
    if leb r.max_requests (length valid)
    then (
      record r {
        buckets = insert key (record { timestamps = valid; last_access = now }) r.buckets;
      },
      false,
    )
    else (
      record r {
        buckets =
            insert key (record { timestamps = valid ++ now ∷ []; last_access = now }) r.buckets;
      },
      true,
    )

-- Remaining; the subtraction stops at 0
unfoldable pub remaining : RateLimiter → ℕ → String → ℕ
remaining r now key =
    r.max_requests - length (select (in_window r.window now) (stamps_of (lookup key r.buckets)))

-- Reset
unfoldable pub reset : RateLimiter → String → RateLimiter
reset r key = record r { buckets = erase key r.buckets }

-- ResetAll
unfoldable pub reset_all : RateLimiter → RateLimiter
reset_all r = record r { buckets = [] }

-- cleanup: b.lastAccess.Before(now - window*2) deletes
unfoldable pub cleanup : RateLimiter → ℕ → RateLimiter
cleanup r now = record r {
  buckets = retain (λ _ b. not (ltb (b.last_access + r.window * 2) now)) r.buckets;
}

-- RateLimitMiddleware, for the key of a request: 429, or the limit and what remains in the headers
-- before the handler runs.
pub data Reply : Type 0 where
  too_many_requests : Reply
  served : ℕ → ℕ → Reply

unfoldable pub rate_limit_middleware : RateLimiter → ℕ → ℕ → String → RateLimiter × Reply
rate_limit_middleware r now later key =
    let (r', allowed) = allow r now key in
    (r', if allowed then served r'.max_requests (remaining r' later key) else too_many_requests)
