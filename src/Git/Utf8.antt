-- ===== src/Git/Utf8.antt =====
-- How far back the last whole character ends.
use cdev.Base.{
  ℕ, zero, suc, ◌+◌, ◌≤◌, ◌<◌, ◌≡◌, ◌⊎◌, inl, inr, refl, sym, subst, ◌∙◌, ap, true, [], ◌∷◌, ◌++◌,
  Option, none, some, arith, length,
}
use cdev.Base.Text.{Text, take}
use cdev.Git.{Pending, done, expect, first_byte, after, next_byte, decode, step, is_done, valid}

-- The bytes that the character still needs at most.
abbrev slack : Pending → ℕ
slack done = 0
slack (expect n lo hi) = n + 1

first_byte-slack : (b : ℕ) (st : Pending) → first_byte b ≡ some st → slack st ≤ 3
first_byte-slack b st h = ground arith

after-slack : (n : ℕ) → slack (after n) ≤ n
after-slack zero = omega arith
after-slack (suc n) = omega arith

next_byte-slack :
    (n lo hi b : ℕ) (st : Pending) → next_byte (expect n lo hi) b ≡ some st → slack st ≤ n
unfolding next_byte
next_byte-slack n lo hi b st h = ground (arith, after-slack n)

-- The text ends at most three bytes after a whole character, or before the first one ends.
abbrev Ends : Pending → Text → Type 0
Ends st s =
    ((p : Text) × (q : Text) × (s ≡ p ++ q) × (decode (some st) p ≡ some done) × (length q ≤ 3))
    ⊎ (length s < slack st)

Ends-next :
    (st next : Pending) (b : ℕ) (s : Text)
    → next_byte st b ≡ some next
    → Ends next s
    → Ends st (b ∷ s)
unfolding decode next_byte
Ends-next st next b s h (inl (p, q, split, at, short)) =
    inl (b ∷ p, q, ap (◌∷◌ b) split, ap (λ o. decode o p) h ∙ at, short)
Ends-next done next b s h (inr short) =
    let le = first_byte-slack b next h in inl ([], b ∷ s, refl, refl, omega arith)
Ends-next (expect n lo hi) next b s h (inr short) =
    let le = next_byte-slack n lo hi b next h in inr (omega arith)

decode-none : (s : Text) → decode none s ≡ none
unfolding decode
decode-none [] = refl
decode-none (b ∷ s) = decode-none s

decode-step :
    (o : Option Pending) (last : Pending) (s : Text)
    → decode o s ≡ some last
    → (st : Pending) × (o ≡ some st)
decode-step none last s h = absurd (none_ne_some (sym (decode-none s) ∙ h))
  where
    none_ne_some : none ≡ some last → ⊥
    none_ne_some e = cc
decode-step (some st) last s h = (st, refl)

decode-Ends : (st last : Pending) (s : Text) → decode (some st) s ≡ some last → Ends st s
unfolding decode
decode-Ends done last [] h = inl ([], [], refl, refl, omega arith)
decode-Ends (expect n lo hi) last [] h = inr (omega arith)
decode-Ends st last (b ∷ s) h =
    let (next, is) = decode-step (next_byte st b) last s h in
    Ends-next st next b s is (decode-Ends next last s (subst (λ o. decode o s ≡ some last) is h))

-- What was read before a text was cut.
decode-take :
    (n : ℕ) (o : Option Pending) (last : Pending) (s : Text)
    → decode o s ≡ some last
    → (st : Pending) × (decode o (take n s) ≡ some st)
unfolding decode
decode-take zero o last s h = decode-step o last s h
decode-take (suc n) o last [] h = (last, h)
decode-take (suc n) o last (b ∷ s) h = decode-take n (step o b) last s h

valid-decode : (s : Text) → valid s ≡ true → decode (some done) s ≡ some done
unfolding valid
valid-decode s h = on (decode (some done) s) h
  where
    on : (o : Option Pending) → is_done o ≡ true → o ≡ some done
    on none e = absurd (cc)
    on (some done) e = refl
    on (some (expect n lo hi)) e = absurd (cc)

decode-valid : (s : Text) → decode (some done) s ≡ some done → valid s ≡ true
unfolding valid
decode-valid s h = rw h refl

-- A valid text that is cut anywhere ends at most three bytes after a valid one.
pub valid-take :
    (n : ℕ) (s : Text)
    → valid s ≡ true
    → (p : Text) × (q : Text) × (take n s ≡ p ++ q) × (valid p ≡ true) × (length q ≤ 3)
valid-take n s v =
    let (st, at) = decode-take n (some done) done s (valid-decode s v) in
    on (decode-Ends done st (take n s) at)
  where
    on :
        Ends done (take n s)
        → (p : Text) × (q : Text) × (take n s ≡ p ++ q) × (valid p ≡ true) × (length q ≤ 3)
    on (inl (p, q, split, whole, short)) = (p, q, split, decode-valid p whole, short)
    on (inr none_left) = absurd (omega arith)
