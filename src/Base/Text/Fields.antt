-- ===== src/Base/Text/Fields.antt =====
-- `strings.Fields`: the runs of characters that are not white space.
use mathlib.Core.Path.{◌≡◌, refl, ap, sym, ◌∙◌}
use mathlib.Core.Bool.{Bool, true, false, ◌&&◌, ◌||◌}
use mathlib.Core.List.{List, [], ◌∷◌, ◌++◌, append-nil, append_assoc}
use mathlib.Core.Logic.{◌≢◌, inl, inr}
use Prim.Native.Nat.{ℕ}
use cdev.Base.Tests.{leb, ◌==◌, Bool-cases}
use cdev.Base.Lists.{All}
use cdev.Base.Text.{Text}

-- unicode.IsSpace
unfoldable pub is_space : ℕ → Bool
is_space c =
    (leb 9 c && leb c 13)
    || c == 32
    || c == 0x85
    || c == 0xa0
    || c == 0x1680
    || (leb 0x2000 c && leb c 0x200a)
    || c == 0x2028
    || c == 0x2029
    || c == 0x202f
    || c == 0x205f
    || c == 0x3000

-- A word that ends joins the list, unless it is empty.
abbrev pub emit : Text → List Text → List Text
emit [] ws = ws
emit (c ∷ w) ws = (c ∷ w) ∷ ws

-- The scan, with the word read so far.
unfoldable pub fields_from : Text → Text → List Text
fields_from w [] = emit w []
fields_from w (c ∷ s) = elim (is_space c) [
  | true ↦ emit w (fields_from [] s)
  | false ↦ fields_from (w ++ c ∷ []) s
]

-- strings.Fields(s)
unfoldable pub fields : Text → List Text
unfolding fields_from
fields s = fields_from [] s

-- A word has no white space and is not empty.
abbrev pub IsWord : Text → Type 0
IsWord w = All (λ c. is_space c ≡ false) w × (w ≢ [])

fields_from_space :
    (w : Text) (c : ℕ) (s : Text)
    → is_space c ≡ true
    → fields_from w (c ∷ s) ≡ emit w (fields_from [] s)
unfolding fields_from
fields_from_space w c s h = rw (h, fields_from)

fields_from_char :
    (w : Text) (c : ℕ) (s : Text)
    → is_space c ≡ false
    → fields_from w (c ∷ s) ≡ fields_from (w ++ c ∷ []) s
unfolding fields_from
fields_from_char w c s h = rw (h, fields_from)

fields_from-word :
    (w v rest : Text)
    → All (λ c. is_space c ≡ false) v
    → fields_from w (v ++ rest) ≡ fields_from (w ++ v) rest
fields_from-word w [] rest a = rw (append-nil w)
fields_from-word w (c ∷ v) rest a =
    fields_from_char w c (v ++ rest) a.0
    ∙ fields_from-word (w ++ c ∷ []) v rest a.1
    ∙ rw (append_assoc w (c ∷ []) v)

emit-word : (w : Text) (ws : List Text) → w ≢ [] → emit w ws ≡ w ∷ ws
emit-word [] ws h = absurd (h refl)
emit-word (c ∷ w) ws h = refl

-- A single word is its own only field.
pub fields-word : (w : Text) → IsWord w → fields w ≡ w ∷ []
unfolding fields
fields-word w h =
    ap (fields_from []) (sym (append-nil w)) ∙ fields_from-word [] w [] h.0 ∙ emit-word w [] h.1

-- Two words with a space between them are the two fields.
pub fields_two_words : (w v : Text) → IsWord w → IsWord v → fields (w ++ 32 ∷ v) ≡ w ∷ v ∷ []
unfolding fields
fields_two_words w v h k =
    fields_from-word [] w (32 ∷ v) h.0
    ∙ fields_from_space w 32 v (unfold is_space in refl)
    ∙ emit-word w (fields_from [] v) h.1
    ∙ ap (◌∷◌ w) (fields-word v k)

All-snoc :
    (w : Text) (c : ℕ)
    → All (λ c. is_space c ≡ false) w
    → is_space c ≡ false
    → All (λ c. is_space c ≡ false) (w ++ c ∷ [])
All-snoc [] c a h = (h, tt)
All-snoc (d ∷ w) c a h = (a.0, All-snoc w c a.1 h)

emit-IsWord :
    (w : Text) (ws : List Text)
    → All (λ c. is_space c ≡ false) w
    → All IsWord ws
    → All IsWord (emit w ws)
emit-IsWord [] ws a b = b
emit-IsWord (c ∷ w) ws a b = ((a, λ p. cc), b)

fields_from-IsWord : (w s : Text) → All (λ c. is_space c ≡ false) w → All IsWord (fields_from w s)
unfolding fields_from
fields_from-IsWord w [] a = emit-IsWord w [] a tt
fields_from-IsWord w (c ∷ s) a = elim (Bool-cases (is_space c)) [
  | inl h ↦
      rw (fields_from_space w c s h)
        (emit-IsWord w (fields_from [] s) a (fields_from-IsWord [] s tt))
  | inr h ↦ rw (fields_from_char w c s h) (fields_from-IsWord (w ++ c ∷ []) s (All-snoc w c a h))
]

-- Every field is a word.
pub fields-IsWord : (s : Text) → All IsWord (fields s)
unfolding fields
fields-IsWord s = fields_from-IsWord [] s tt
