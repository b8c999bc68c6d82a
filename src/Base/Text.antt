-- ===== src/Base/Text.antt =====
-- Go strings that the program walks: a text is the list of its code points, and the functions of
-- the `strings` package that the source uses, by what they compute on valid UTF-8.
pub mod Fields
use Prim.Native.Nat.{ℕ, zero, suc, ◌-◌}
use Prim.Native.Char.{code}
use Prim.Native.String.{String}
use mathlib.Core.Path.{◌≡◌, refl, ap}
use mathlib.Core.Bool.{Bool, true, false, ◌&&◌}
use mathlib.Core.List.{List, [], ◌∷◌, ◌++◌}
use native.Mathlib.Omega.{arith}
unfoldable use native.Mathlib.Decide.{ℕ_discrete}
use cdev.Base.Tests.{leb, ◌==◌, if◌then◌else◌, Eq, test}
use cdev.Base.Lists.{length, length-append}

abbrev pub Text : Type 0
Text = List ℕ

-- A literal.
abbrev pub codes : String → Text
codes String.[] = []
codes (String.◌∷◌ c s) = code c ∷ codes s

unfoldable pub list_discrete : Discrete Text
unfolding ℕ_discrete
list_discrete [] [] = yes refl
list_discrete [] (y ∷ ys) = no (λ p. cc)
list_discrete (x ∷ xs) [] = no (λ p. cc)
list_discrete (x ∷ xs) (y ∷ ys) = both (ℕ_discrete x y) (list_discrete xs ys)
  where
    both : Dec (x ≡ y) → Dec (xs ≡ ys) → Dec (◌≡◌ {A = Text} (x ∷ xs) (y ∷ ys))
    both (yes p) (yes q) = yes (λ i. p i ∷ q i)
    both (yes p) (no q) = no (λ r. q (cc))
    both (no p) d = no (λ r. p (cc))

instance abbrev pub text_eq : Eq Text
text_eq = record { dec_eq = list_discrete }

-- s == t
unfoldable pub same : Text → Text → Bool
unfolding list_discrete
same s t = test (list_discrete s t)

-- strings.HasPrefix(s, p)
unfoldable pub has_prefix : Text → Text → Bool
has_prefix s [] = true
has_prefix [] (c ∷ p) = false
has_prefix (d ∷ s) (c ∷ p) = d == c && has_prefix s p

abbrev pub take : ℕ → Text → Text
take zero s = []
take (suc n) [] = []
take (suc n) (c ∷ s) = c ∷ take n s

abbrev pub drop : ℕ → Text → Text
drop zero s = s
drop (suc n) [] = []
drop (suc n) (c ∷ s) = drop n s

-- strings.HasSuffix(s, t)
unfoldable pub has_suffix : Text → Text → Bool
unfolding same
has_suffix s t = leb (length t) (length s) && same (drop (length s - length t) s) t

-- strings.TrimSuffix(s, t)
unfoldable pub trim_suffix : Text → Text → Text
unfolding has_suffix
trim_suffix s t = if has_suffix s t then take (length s - length t) s else s

-- strings.TrimPrefix(s, p)
unfoldable pub trim_prefix : Text → Text → Text
unfolding has_prefix
trim_prefix s p = if has_prefix s p then drop (length p) s else s

pub same_refl : (s : Text) → same s s ≡ true
unfolding same
same_refl s = ground arith

pub same-eq : (s t : Text) → same s t ≡ true → s ≡ t
unfolding same
same-eq s t h = ground arith

pub has_prefix-append : (p s : Text) → has_prefix (p ++ s) p ≡ true
unfolding has_prefix
has_prefix-append [] s = refl
has_prefix-append (c ∷ p) s = ground (arith, has_prefix-append p s)

pub drop-append : (p s : Text) → drop (length p) (p ++ s) ≡ s
drop-append [] s = refl
drop-append (c ∷ p) s = drop-append p s

pub take-append : (p s : Text) → take (length p) (p ++ s) ≡ p
take-append [] s = refl
take-append (c ∷ p) s = ap (◌∷◌ c) (take-append p s)

length-sub : (p s : Text) → length (p ++ s) - length s ≡ length p
length-sub p s = omega (arith, length-append p s)

pub has_suffix-append : (p s : Text) → has_suffix (p ++ s) s ≡ true
unfolding has_suffix
has_suffix-append p s =
    rw (length-sub p s) (rw (drop-append p s) (ground (arith, same_refl s, length-append p s)))

pub trim_suffix-append : (p s : Text) → trim_suffix (p ++ s) s ≡ p
unfolding trim_suffix
trim_suffix-append p s = rw (has_suffix-append p s) (rw (length-sub p s) (take-append p s))

pub trim_prefix-append : (p s : Text) → trim_prefix (p ++ s) p ≡ s
unfolding trim_prefix
trim_prefix-append p s = rw (has_prefix-append p s) (drop-append p s)
