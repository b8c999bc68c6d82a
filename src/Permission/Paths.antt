-- ===== src/Permission/Paths.antt =====
-- The functions of Go's `path/filepath` (on Unix) that internal/permission/pattern.go calls.
use mathlib.Core.List.{reverse, reverse-cons, reverse-reverse, append-nil, append_assoc}
use cdev.Base.{
  is_empty, ℕ, ◌≡◌, ap, sym, ◌∙◌, Bool, true, false, ◌&&◌, ◌||◌, not, List, [], ◌∷◌, ◌++◌, Option,
  none, some, ◌==◌, if◌then◌else◌, inl, inr, Bool-cases,
}
use cdev.Base.Text.{Text, codes, same, same_refl, has_prefix}

-- strings.Split(s, sep) for a separator of one character, with the part read so far
unfoldable pub split_from : ℕ → Text → Text → List Text
split_from sep w [] = w ∷ []
split_from sep w (c ∷ s) = elim (c == sep) [
  | true ↦ w ∷ split_from sep [] s
  | false ↦ split_from sep (w ++ c ∷ []) s
]

unfoldable pub join : Text → List Text → Text
join sep [] = []
join sep (w ∷ []) = w
join sep (w ∷ v ∷ ws) = w ++ (sep ++ join sep (v ∷ ws))

-- What `..` does to the elements before it, latest first.
up : Bool → List Text → List Text
unfolding same
up rooted [] = if rooted then [] else codes ".." ∷ []
up rooted (d ∷ ds) = if same d (codes "..") then codes ".." ∷ d ∷ ds else ds

push_element : Bool → List Text → Text → List Text
unfolding up same
push_element rooted ds e =
    if is_empty e || same e (codes ".")
    then ds
    else if same e (codes "..")
    then up rooted ds
    else e ∷ ds

elements_from : Bool → List Text → List Text → List Text
unfolding push_element
elements_from rooted ds [] = reverse ds
elements_from rooted ds (e ∷ es) = elements_from rooted (push_element rooted ds e) es

abbrev render : Bool → List Text → Text
render true es = b'/' ∷ join (codes "/") es
render false [] = codes "."
render false (e ∷ es) = join (codes "/") (e ∷ es)

-- filepath.Clean
unfoldable pub clean : Text → Text
unfolding elements_from has_prefix split_from join
clean path =
    let rooted = has_prefix path (codes "/") in
    render rooted (elements_from rooted [] (split_from b'/' [] path))

-- From the end back to the first `.` that is met before a `/`.
ext_from : Text → Text → Text
ext_from acc [] = []
ext_from acc (c ∷ r) = if c == b'/' then [] else if c == b'.' then c ∷ acc else ext_from (c ∷ acc) r

-- filepath.Ext
unfoldable pub ext : Text → Text
unfolding ext_from
ext path = ext_from [] (reverse path)

-- What is left of a reversed path from its last `/` on.
from_slash : Text → Text
from_slash [] = []
from_slash (c ∷ r) = if c == b'/' then c ∷ r else from_slash r

-- filepath.Dir
unfoldable pub dir : Text → Text
unfolding from_slash clean
dir path = clean (reverse (from_slash (reverse path)))

-- The elements of a clean path.
abbrev elements : Bool → Text → List Text
elements true (c ∷ []) = []
elements true (c ∷ d ∷ s) = split_from b'/' [] (d ∷ s)
elements _ s = split_from b'/' [] s

-- The elements that are left after the longest common start.
strip_common : List Text → List Text → List Text × List Text
unfolding same
strip_common (x ∷ xs) (y ∷ ys) = if same x y then strip_common xs ys else (x ∷ xs, y ∷ ys)
strip_common xs ys = (xs, ys)

dots : List Text → List Text
dots [] = []
dots (x ∷ xs) = codes ".." ∷ dots xs

append_elements : List Text → List Text → List Text
append_elements [] ys = ys
append_elements (x ∷ xs) ys = x ∷ append_elements xs ys

rel_elements : List Text × List Text → Option Text
unfolding same join dots append_elements
rel_elements ([], ts) = some (join (codes "/") ts)
rel_elements (b ∷ bs, ts) =
    if same b (codes "..")
    then none
    else some (join (codes "/") (append_elements (dots (b ∷ bs)) ts))

rel_clean : Text → Text → Option Text
unfolding same has_prefix split_from strip_common rel_elements
rel_clean b t =
    let rb = has_prefix b (codes "/") in
    let rt = has_prefix t (codes "/") in
    let bs : List Text = if same b (codes ".") then [] else elements rb b in
    let r = rel_elements (strip_common bs (elements rt t)) in
    if same b t then some (codes ".") else if (rb && not rt) || (not rb && rt) then none else r

-- filepath.Rel, with none for its error
unfoldable pub rel : Text → Text → Option Text
unfolding clean rel_clean
rel base targ = rel_clean (clean base) (clean targ)

-- A path is in its own directory.
pub rel_self : (d : Text) → rel d d ≡ some (codes ".")
unfolding rel
rel_self d = rw (same_refl (clean d))

reverse_shift : (c : ℕ) (r acc : Text) → reverse (c ∷ r) ++ acc ≡ reverse r ++ (c ∷ acc)
reverse_shift c r acc = rw (reverse-cons c r) (append_assoc (reverse r) (c ∷ []) acc)

ext_from-suffix : (acc r : Text) → (p : Text) × (reverse r ++ acc ≡ p ++ ext_from acc r)
unfolding ext_from
ext_from-suffix acc [] = (acc, sym (append-nil acc))
ext_from-suffix acc (c ∷ r) = elim (Bool-cases (c == b'/')) [
  | inl slash ↦ (reverse (c ∷ r) ++ acc, rw (slash, append-nil))
  | inr other ↦ elim (Bool-cases (c == b'.')) [
    | inl dot ↦ (reverse r, rw (other, dot) (reverse_shift c r acc))
    | inr letter ↦
        let (p, h) = ext_from-suffix (c ∷ acc) r in
        (p, rw (other, letter) (reverse_shift c r acc ∙ h))
  ]
]

-- An extension is what the path ends in.
pub ext-suffix : (path : Text) → (p : Text) × (path ≡ p ++ ext path)
unfolding ext
ext-suffix path =
    let (p, h) = ext_from-suffix [] (reverse path) in
    (p, sym (append-nil path) ∙ ap (λ (u : Text). u ++ []) (sym (reverse-reverse path)) ∙ h)
