-- ===== src/Permission/Pattern/File.antt =====
-- A file pattern matches the path it was generated from (pattern.go).
use mathlib.Core.List.{append_assoc}
use cdev.Base.{
  is_empty, ℕ, ◌≡◌, refl, sym, ap, ◌∙◌, subst, Bool, true, false, [], ◌∷◌, ◌++◌, some, inl, inr,
  Bool-cases,
}
use cdev.Base.Text.{
  Text, codes, same, has_prefix, has_suffix, has_prefix-append, has_suffix-append,
  trim_suffix-append, trim_prefix-append,
}
use cdev.Permission.Paths.{ext, dir, rel_self, ext-suffix}
use cdev.Permission.Pattern.{match_path, file_of_path, file_of_dir}
use cdev.Permission.Pattern.Shape.{Matched, any-Matched}

-- A path lies in its own directory.
dir-matches :
    (glob : Text → Text → Bool) (p d : Text)
    → dir p ≡ d
    → has_prefix (d ++ codes "/*") (codes "*") ≡ false
    → match_path glob (d ++ codes "/*") (some p) ≡ true
dir-matches glob p d e h =
    rw (h, has_suffix-append d (codes "/*"), trim_suffix-append d (codes "/*"), e, rel_self d)
      (unfold has_prefix in refl)

ext-matches :
    (glob : Text → Text → Bool) (p : Text) → match_path glob (codes "*" ++ ext p) (some p) ≡ true
ext-matches glob p =
    let (q, e) = ext-suffix p in
    rw (has_prefix-append (codes "*") (ext p), trim_prefix-append (codes "*") (ext p))
      (subst (λ u. has_suffix u (ext p) ≡ true) (sym e) (has_suffix-append q (ext p)))

star_start :
    (c : ℕ) (d t : Text) → has_prefix (c ∷ (d ++ t)) (codes "*") ≡ has_prefix (c ∷ d) (codes "*")
unfolding has_prefix
star_start c d t = refl

module _ (glob : Text → Text → Bool) (tool : Text) where
  dir-Matched :
      (p d : Text)
      → dir p ≡ d
      → has_prefix d (codes "*") ≡ false
      → Matched tool (λ c. match_path glob c (some p)) (file_of_dir tool d)
  dir-Matched p [] e h = any-Matched tool _
  dir-Matched p (c ∷ d) e h = elim (Bool-cases (same (c ∷ d) (codes "."))) [
    | inl dot ↦ rw dot (any-Matched tool _)
    | inr named ↦ rw named (
      (c ∷ d) ++ codes "/*",
      ap (λ (u : Text). tool ++ (codes "(" ++ u))
          (sym (append_assoc (c ∷ d) (codes "/*") (codes ")"))),
      inr (dir-matches glob p (c ∷ d) e (star_start c d (codes "/*") ∙ h)),
    )
  ]

  pub path-Matched :
      (p : Text)
      → has_prefix (dir p) (codes "*") ≡ false
      → Matched tool (λ c. match_path glob c (some p)) (file_of_path tool (some p))
  path-Matched p h = elim (Bool-cases (is_empty (ext p))) [
    | inl bare ↦ rw bare (dir-Matched p (dir p) refl h)
    | inr known ↦ rw known (codes "*" ++ ext p, refl, inr (ext-matches glob p))
  ]
