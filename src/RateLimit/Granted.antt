-- ===== src/RateLimit/Granted.antt =====
-- How many requests of a key are granted within a window (ratelimit.go).
use cdev.Base.{
  String, ℕ, ◌+◌, ◌*◌, ◌≤◌, ◌≡◌, ◌≢◌, refl, sym, ◌∙◌, Bool, not, List, [], ◌∷◌, ◌++◌, Option, none,
  some, ltb, leb, if◌then◌else◌, length, select, length-select-le, arith, string_eq,
  string_discrete, ite, if_pos, if_neg, Bool-cases, inl, inr,
}
use mathlib.Core.List.{append-nil, append_assoc}
use cdev.Base.Map.{
  lookup, Distinct, kept, lookup-insert, lookup-insert_self, lookup-retain, insert-Distinct,
  retain-Distinct,
}
use cdev.RateLimit.{
  Bucket, RateLimiter, RateLimiterOption, with_max_requests, with_window, apply_option,
  apply_options, new_rate_limiter, in_window, stamps_of, allow, cleanup,
}
use cdev.RateLimit.Window.{Tracks, refused, granted_one, same_later, forgotten}

-- A call of the limiter, or a tick of its cleanup, at a time.
pub data Call : Type 0 where
  asks : ℕ → String → Call
  ticks : ℕ → Call

abbrev pub call : RateLimiter → Call → RateLimiter
call r (asks now key) = (allow r now key).0
call r (ticks now) = cleanup r now

abbrev granted_to : String → String → ℕ → Bool → List ℕ → List ℕ
granted_to key j now allowed rest =
    ite (string_discrete j key) (if allowed then now ∷ rest else rest) rest

-- The times at which requests of a key are granted.
abbrev pub granted : RateLimiter → List Call → String → List ℕ
granted r [] key = []
granted r (asks now j ∷ cs) key =
    granted_to key j now (allow r now j).1 (granted (allow r now j).0 cs key)
granted r (ticks now ∷ cs) key = granted (cleanup r now) cs key

-- Times do not go back, from a first to a last one.
abbrev pub Ordered : ℕ → List Call → ℕ → Type 0
Ordered t [] u = t ≤ u
Ordered t (asks now j ∷ cs) u = (t ≤ now) × Ordered now cs u
Ordered t (ticks now ∷ cs) u = (t ≤ now) × Ordered now cs u

granted_to-append :
    (key j : String) (now : ℕ) (b : Bool) (rest : List ℕ)
    → granted_to key j now b rest ≡ granted_to key j now b [] ++ rest
granted_to-append key j now b rest = ground arith

allow-fields :
    (r : RateLimiter) (now : ℕ) (j : String)
    → ((allow r now j).0.window ≡ r.window) × ((allow r now j).0.max_requests ≡ r.max_requests)
unfolding allow
allow-fields r now j = ground arith

allow-Distinct :
    (r : RateLimiter) (now : ℕ) (j : String)
    → Distinct r.buckets
    → Distinct (allow r now j).0.buckets
unfolding allow
allow-Distinct r now j d =
    let v = select (in_window r.window now) (stamps_of (lookup j r.buckets)) in
    elim (Bool-cases (leb r.max_requests (length v))) [
      | inl e ↦ rw (e) (insert-Distinct j _ r.buckets d)
      | inr e ↦ rw (e) (insert-Distinct j _ r.buckets d)
    ]

allow-other :
    (r : RateLimiter) (now : ℕ) (j key : String)
    → j ≢ key
    → lookup key (allow r now j).0.buckets ≡ lookup key r.buckets
unfolding allow
allow-other r now j key h =
    let v = select (in_window r.window now) (stamps_of (lookup j r.buckets)) in
    elim (Bool-cases (leb r.max_requests (length v))) [
      | inl e ↦ rw (e) (
          ground
            (arith, lookup-insert j key (record { timestamps = v; last_access = now }) r.buckets))
      | inr e ↦ rw (e) (
          ground (
            arith,
            lookup-insert j key (record { timestamps = v ++ now ∷ []; last_access = now })
                r.buckets,
          ))
    ]

-- Allow keeps track of its own key.
allow-own :
    (r : RateLimiter) (last now : ℕ) (key : String) (hist : List ℕ)
    → Tracks r.window r.max_requests last (lookup key r.buckets) hist
    → last ≤ now
    → Tracks r.window r.max_requests now
        (lookup key (allow r now key).0.buckets)
        (hist ++ (if (allow r now key).1 then now ∷ [] else []))
unfolding allow
allow-own r last now key hist k later =
    let v = select (in_window r.window now) (stamps_of (lookup key r.buckets)) in
    elim (Bool-cases (leb r.max_requests (length v))) [
      | inl e ↦ rw (e) (
          rw (lookup-insert_self key (record { timestamps = v; last_access = now }) r.buckets) (
            rw (append-nil hist)
              (refused r.window r.max_requests last now (lookup key r.buckets) hist k later)))
      | inr e ↦ rw (e) (
          rw
            (lookup-insert_self key (record { timestamps = v ++ now ∷ []; last_access = now })
              r.buckets)
            (granted_one r.window r.max_requests last now (lookup key r.buckets) hist k later e))
    ]

allow-Tracks :
    (r : RateLimiter) (last now : ℕ) (j key : String) (hist : List ℕ)
    → Tracks r.window r.max_requests last (lookup key r.buckets) hist
    → last ≤ now
    → Tracks r.window r.max_requests now
        (lookup key (allow r now j).0.buckets)
        (hist ++ granted_to key j now (allow r now j).1 [])
allow-Tracks r last now j key hist k later = elim (string_discrete j key) [
  | yes own ↦ rw (if_pos _ own) (rw (own) (allow-own r last now key hist k later))
  | no other ↦ rw (if_neg _ other) (
      rw (append-nil hist) (
        rw (allow-other r now j key other)
          (same_later r.window r.max_requests last now (lookup key r.buckets) hist k later)))
]

kept-Tracks :
    (w max last now : ℕ) (key : String) (o : Option Bucket) (hist : List ℕ)
    → Tracks w max last o hist
    → last ≤ now
    → Tracks w max now (kept (λ _ b. not (ltb (b.last_access + w * 2) now)) key o) hist
kept-Tracks w max last now key none hist k later = same_later w max last now none hist k later
kept-Tracks w max last now key (some b) hist k later =
    elim (Bool-cases (ltb (b.last_access + w * 2) now)) [
      | inl e ↦ rw (e) (forgotten w max last now (some b) hist k later (ground (arith, e)))
      | inr e ↦ rw (e) (same_later w max last now (some b) hist k later)
    ]

cleanup-Tracks :
    (r : RateLimiter) (last now : ℕ) (key : String) (hist : List ℕ)
    → Distinct r.buckets
    → Tracks r.window r.max_requests last (lookup key r.buckets) hist
    → last ≤ now
    → Tracks r.window r.max_requests now (lookup key (cleanup r now).buckets) hist
unfolding cleanup
cleanup-Tracks r last now key hist d k later =
    rw (lookup-retain (λ _ b. not (ltb (b.last_access + r.window * 2) now)) key r.buckets d)
      (kept-Tracks r.window r.max_requests last now key (lookup key r.buckets) hist k later)

cleanup-fields :
    (r : RateLimiter) (now : ℕ)
    → ((cleanup r now).window ≡ r.window) × ((cleanup r now).max_requests ≡ r.max_requests)
unfolding cleanup
cleanup-fields r now = (refl, refl)

cleanup-Distinct :
    (r : RateLimiter) (now : ℕ) → Distinct r.buckets → Distinct (cleanup r now).buckets
unfolding cleanup
cleanup-Distinct r now d = retain-Distinct _ r.buckets d

run-Tracks :
    (cs : List Call) (r : RateLimiter) (last until : ℕ) (key : String) (hist : List ℕ)
    → Distinct r.buckets
    → Tracks r.window r.max_requests last (lookup key r.buckets) hist
    → Ordered last cs until
    → length (select (in_window r.window until) (hist ++ granted r cs key)) ≤ r.max_requests
unfolding cleanup
run-Tracks [] r last until key hist d k o = rw (append-nil hist) (
    rw (k.agree until o) (
      omega (
        arith,
        length-select-le (in_window r.window until) (stamps_of (lookup key r.buckets)),
        k.few,
      )))
run-Tracks (asks now j ∷ cs) r last until key hist d k o =
    let r' = (allow r now j).0 in
    let one = granted_to key j now (allow r now j).1 [] in
    let (same_window, same_max) = allow-fields r now j in
    let next =
      run-Tracks cs r' now until key (hist ++ one) (allow-Distinct r now j d)
        (rw (same_window, same_max) (allow-Tracks r last now j key hist k o.0)) o.1 in
    rw (granted_to-append key j now (allow r now j).1 (granted r' cs key))
      (rw (sym (append_assoc hist one (granted r' cs key))) (rw (same_window, same_max) at next))
run-Tracks (ticks now ∷ cs) r last until key hist d k o =
    let r' = cleanup r now in
    let (same_window, same_max) = cleanup-fields r now in
    let next =
      run-Tracks cs r' now until key hist (cleanup-Distinct r now d)
        (rw (same_window, same_max) (cleanup-Tracks r last now key hist d k o.0)) o.1 in
    rw (same_window, same_max) at next

apply_options-buckets :
    (r : RateLimiter) (opts : List RateLimiterOption) → (apply_options r opts).buckets ≡ r.buckets
apply_options-buckets r [] = refl
apply_options-buckets r (with_max_requests n ∷ opts) =
    apply_options-buckets (apply_option r (with_max_requests n)) opts ∙ ground arith
apply_options-buckets r (with_window n ∷ opts) =
    apply_options-buckets (apply_option r (with_window n)) opts ∙ ground arith

new_rate_limiter-buckets : (opts : List RateLimiterOption) → (new_rate_limiter opts).buckets ≡ []
unfolding new_rate_limiter
new_rate_limiter-buckets opts = apply_options-buckets _ opts

empty-Tracks : (w max : ℕ) → Tracks w max 0 none []
empty-Tracks w max = record {
  few = omega arith;
  past = tt;
  seen = omega arith;
  agree = λ t h. refl;
}

lookup-new :
    (opts : List RateLimiterOption) (key : String)
    → lookup key (new_rate_limiter opts).buckets ≡ none
unfolding lookup
lookup-new opts key = rw (new_rate_limiter-buckets opts)

-- However often a key asks a new limiter, and whenever the cleanup runs between, the requests of
-- the key that are granted within one window, up to any later time, are at most the limit. Times
-- do not go back, and no key is reset.
pub granted_le :
    (opts : List RateLimiterOption) (cs : List Call) (until : ℕ) (key : String)
    → Ordered 0 cs until
    → length (
        select
          (λ time. ltb until (time + (new_rate_limiter opts).window))
          (granted (new_rate_limiter opts) cs key))
      ≤ (new_rate_limiter opts).max_requests
granted_le opts cs until key o =
    let r = new_rate_limiter opts in
    run-Tracks cs r 0 until key [] (rw (new_rate_limiter-buckets opts) tt)
      (rw (lookup-new opts key) (empty-Tracks r.window r.max_requests)) o
