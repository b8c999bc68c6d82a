-- ===== src/RateLimit/Window.antt =====
-- What the limiter lets through in a window (ratelimit.go).
use cdev.Base.{
  ℕ, ◌+◌, ◌*◌, ◌≤◌, ◌<◌, ◌≡◌, refl, sym, ap, ◌∙◌, Bool, false, List, [], ◌∷◌, ◌++◌, Option, none,
  some, leb, length, length-append, select, length-select-le, All, arith, string_eq,
}
use cdev.RateLimit.{Bucket, in_window, stamps_of}

module _ {ℓ} {A : Type ℓ} where
  select-append : (p : A → Bool) (xs ys : List A) → select p (xs ++ ys) ≡ select p xs ++ select p ys
  select-append p [] ys = refl
  select-append p (x ∷ xs) ys = ground (arith, select-append p xs ys)

-- A later window sees no more than an earlier one.
select_later :
    (w c d : ℕ) (xs : List ℕ)
    → c ≤ d
    → select (in_window w d) (select (in_window w c) xs) ≡ select (in_window w d) xs
select_later w c d [] h = refl
select_later w c d (x ∷ xs) h = ground (arith, select_later w c d xs h)

select-All : (P : ℕ → Type 0) (p : ℕ → Bool) (xs : List ℕ) → All P xs → All P (select p xs)
select-All P p [] a = tt
select-All P p (x ∷ xs) a = ground (arith, select-All P p xs a.1)

All-snoc : (P : ℕ → Type 0) (xs : List ℕ) (x : ℕ) → All P xs → P x → All P (xs ++ x ∷ [])
All-snoc P [] x a h = (h, tt)
All-snoc P (y ∷ xs) x a h = (a.0, All-snoc P xs x a.1 h)

All-le : (a b : ℕ) (xs : List ℕ) → a ≤ b → All (λ t. t ≤ a) xs → All (λ t. t ≤ b) xs
All-le a b [] h x = tt
All-le a b (y ∷ xs) h x = (omega (arith, x.0), All-le a b xs h x.1)

-- Old requests are in no later window.
select_old :
    (w now : ℕ) (a : ℕ) (xs : List ℕ)
    → All (λ t. t ≤ a) xs
    → a + w * 2 < now
    → select (in_window w now) xs ≡ []
select_old w now a [] h lt = refl
select_old w now a (x ∷ xs) h lt = ground (arith, select_old w now a xs h.1 lt, h.0)

abbrev access_of : Option Bucket → ℕ
access_of none = 0
access_of (some b) = b.last_access

-- What a bucket knows of the requests granted to its key up to a time.
pub record Tracks (w max last : ℕ) (o : Option Bucket) (hist : List ℕ) : Type 0 where
  pub few : length (stamps_of o) ≤ max
  pub past : All (λ t. t ≤ access_of o) (stamps_of o)
  pub seen : (access_of o ≤ last)
  pub agree :
      (now : ℕ)
      → last ≤ now
      → select (in_window w now) hist ≡ select (in_window w now) (stamps_of o)

module _ (w max last now : ℕ) (o : Option Bucket) (hist : List ℕ) (k : Tracks w max last o hist)
    (later : last ≤ now) where
  -- The timestamps that Allow keeps.
  abbrev valid : List ℕ
  valid = select (in_window w now) (stamps_of o)

  valid-past : All (λ t. t ≤ now) valid
  valid-past =
      select-All _ _ (stamps_of o)
        (All-le (access_of o) now (stamps_of o) (omega (arith, k.seen, later)) k.past)

  valid-agree : (t : ℕ) → now ≤ t → select (in_window w t) hist ≡ select (in_window w t) valid
  valid-agree t h = k.agree t (omega (arith, later, h)) ∙ sym (select_later w now t (stamps_of o) h)

  pub refused : Tracks w max now (some (record { timestamps = valid; last_access = now })) hist
  refused = record {
    few = omega (arith, length-select-le (in_window w now) (stamps_of o), k.few);
    past = valid-past;
    seen = omega arith;
    agree = valid-agree;
  }

  pub granted_one :
      leb max (length valid) ≡ false
      → Tracks w max now
          (some (record { timestamps = valid ++ now ∷ []; last_access = now }))
          (hist ++ now ∷ [])
  granted_one room = record {
    few = rw (length-append valid (now ∷ [])) (ground (arith, room));
    past = All-snoc _ valid now valid-past (omega arith);
    seen = omega arith;
    agree = λ t h.
        select-append (in_window w t) hist (now ∷ [])
        ∙ ap (λ z. z ++ select (in_window w t) (now ∷ [])) (valid-agree t h)
        ∙ sym (select-append (in_window w t) valid (now ∷ []));
  }

  pub same_later : Tracks w max now o hist
  same_later = record {
    few = k.few;
    past = k.past;
    seen = omega (arith, k.seen, later);
    agree = λ t h. k.agree t (omega (arith, later, h));
  }

  pub forgotten : access_of o + w * 2 < now → Tracks w max now none hist
  forgotten stale = record {
    few = omega arith;
    past = tt;
    seen = omega arith;
    agree = λ t h.
        k.agree t (omega (arith, later, h))
        ∙ select_old w t (access_of o) (stamps_of o) k.past (omega (arith, stale, h));
  }
