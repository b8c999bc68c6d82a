-- ===== src/Git/Tests.antt =====
-- A diff that would be cut inside a character.
use cdev.Base.{ℕ, zero, suc, ◌≡◌, refl, true, [], ◌∷◌, ◌++◌, ◌*◌}
use cdev.Base.Text.{Text}
use cdev.Git.{valid, decode, shrink, truncate_diff, next_byte}
use cdev.Git.Cut.{IsCut, truncate_diff-IsCut}

abbrev letters : ℕ → Text
letters zero = []
letters (suc n) = b'a' ∷ letters n

-- 1023 letters and an é, of two bytes.
unfoldable diff : Text
diff = letters 1023 ++ 195 ∷ 169 ∷ []

diff-valid : valid diff ≡ true
unfolding valid decode next_byte diff
diff-valid = refl

truncate_diff-IsCut_example : IsCut diff (1 * 1024) (truncate_diff diff 1)
truncate_diff-IsCut_example = truncate_diff-IsCut diff 1 diff-valid

-- Of a text that is not UTF-8 nothing is left from the first such byte on.
not_utf8 : shrink 3 (255 ∷ 97 ∷ 98 ∷ 99 ∷ []) ≡ []
unfolding shrink valid decode next_byte
not_utf8 = refl
