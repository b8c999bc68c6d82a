-- ===== src/Git/Cut.antt =====
-- What TruncateDiff leaves of a diff (internal/adapters/git/diff_truncate.go).
use mathlib.Core.List.{append_assoc, append-nil}
use cdev.Base.{
  ℕ, zero, suc, ◌+◌, ◌*◌, ◌≤◌, ◌≡◌, ◌⊎◌, inl, inr, refl, sym, ◌∙◌, ap, Bool, true, false, [], ◌∷◌,
  ◌++◌, arith, length, length-append, leb, Bool-cases, ℕ_discrete,
}
use cdev.Base.Text.{Text, take, drop, take-append}
use cdev.Git.{valid, shrink, truncate_diff, decode}
use cdev.Git.Utf8.{valid-take}

take-drop : (n : ℕ) (s : Text) → take n s ++ drop n s ≡ s
take-drop zero s = refl
take-drop (suc n) [] = refl
take-drop (suc n) (c ∷ s) = ap (◌∷◌ c) (take-drop n s)

length-take : (n : ℕ) (s : Text) → n ≤ length s → length (take n s) ≡ n
length-take zero s le = refl
length-take (suc n) [] le = absurd (omega arith)
length-take (suc n) (c ∷ s) le = ap suc (length-take n s (omega arith))

valid-nil : valid [] ≡ true
unfolding valid decode
valid-nil = refl

-- The loop finds the longest valid start.
shrink-longest :
    (n : ℕ) (s : Text)
    → (j : ℕ) × (j ≤ n)
      × (shrink n s ≡ take j s)
      × (valid (take j s) ≡ true)
      × ((k : ℕ) → k ≤ n → valid (take k s) ≡ true → k ≤ j)
unfolding shrink
shrink-longest zero s = (0, omega arith, refl, valid-nil, λ k le h. le)
shrink-longest (suc n) s =
    let (j, le, is, ok, best) = shrink-longest n s in
    elim (Bool-cases (valid (take (suc n) s))) [
      | inl whole ↦ (suc n, omega arith, rw whole refl, whole, λ k le' h. le')
      | inr cut ↦ (j, omega arith, rw cut is, ok, λ k le' h. best k (smaller k le' h cut) h)
    ]
  where
    smaller : (k : ℕ) → k ≤ suc n → valid (take k s) ≡ true → valid (take (suc n) s) ≡ false → k ≤ n
    smaller k le h cut = elim (ℕ_discrete k (suc n)) [
      | yes p ↦ absurd (true_ne_false (sym h ∙ ap (λ i. valid (take i s)) p ∙ cut))
      | no p ↦ omega arith
    ]
      where
        true_ne_false : true ≡ false → ⊥
        true_ne_false e = cc

-- What is right of a diff, a size in bytes, and what was made of them.
abbrev pub IsCut : Text → ℕ → Text × Bool → Type 0
IsCut diff max_bytes (out, truncated) =
    ((rest : Text) × (out ++ rest ≡ diff))
    × (valid out ≡ true)
    × (length out ≤ max_bytes)
    × (((out ≡ diff) × (truncated ≡ false)) ⊎ ((truncated ≡ true) × (max_bytes ≤ length out + 3)))

take-split : (n : ℕ) (s p q : Text) → take n s ≡ p ++ q → take (length p) s ≡ p
take-split n s p q e =
    ap (take (length p))
      (sym (take-drop n s) ∙ ap (λ t. t ++ drop n s) e ∙ append_assoc p q (drop n s))
    ∙ take-append p (q ++ drop n s)

shrink-IsCut :
    (n : ℕ) (diff : Text) → valid diff ≡ true → n ≤ length diff → IsCut diff n (shrink n diff, true)
shrink-IsCut n diff v le =
    let (j, jn, is, whole, best) = shrink-longest n diff in
    let (p, q, split, good, short) = valid-take n diff v in
    let at = take-split n diff p q split in
    let total : length p + length q ≡ n =
      sym (length-append p q) ∙ ap length (sym split) ∙ length-take n diff le in
    let reach = best (length p) (omega arith) (ap valid at ∙ good) in
    let len : length (take j diff) ≡ j = length-take j diff (omega arith) in
    rw is ((drop j diff, take-drop j diff), whole, omega arith, inr (refl, omega arith))

-- Cutting a diff that is valid UTF-8: the result is a start of it, is valid, and is no longer than the
-- size; it is the whole diff, or it is marked as cut and at most three bytes shorter than the size.
pub truncate_diff-IsCut :
    (diff : Text) (max_size_kb : ℕ)
    → valid diff ≡ true
    → IsCut diff (max_size_kb * 1024) (truncate_diff diff max_size_kb)
unfolding truncate_diff
truncate_diff-IsCut [] zero v = (([], refl), valid-nil, omega arith, inl (refl, refl))
truncate_diff-IsCut (c ∷ s) zero v =
    ((c ∷ s, refl), valid-nil, omega arith, inr (refl, omega arith))
truncate_diff-IsCut diff (suc kb) v = elim (Bool-cases (leb (length diff) (suc kb * 1024))) [
  | inl fits ↦ rw fits (([], append-nil diff), v, ground arith, inl (refl, refl))
  | inr long ↦ rw long (shrink-IsCut (suc kb * 1024) diff v (ground arith))
]
