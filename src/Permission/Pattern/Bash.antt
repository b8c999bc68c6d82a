-- ===== src/Permission/Pattern/Bash.antt =====
-- A Bash pattern matches the command it was generated from (pattern.go).
use mathlib.Core.List.{append_assoc}
use cdev.Base.{
  ◌≤◌, ◌⊎◌, ◌≡◌, refl, sym, ap, subst, Bool, true, false, List, [], ◌∷◌, ◌++◌, Option, none, some,
  arith, if◌then◌else◌, length, inl, inr, All,
}
use cdev.Base.Text.{Text, codes, same, same_refl, same-eq, has_suffix-append, trim_suffix-append}
use cdev.Base.Text.Fields.{fields, fields-word, fields_two_words, fields-IsWord, IsWord}
use cdev.Permission.Pattern.{
  parts_match, bash_of_parts, bash_of_command, match_command, bash_base, bash_sub,
}
use cdev.Permission.Pattern.Shape.{wrap, Matched}

-- The content stands for a start of the command's words, or for any command.
Covers : List Text → Text → Type 0
Covers ps content =
    (content ≡ codes "*")
    ⊎ ((prefix : Text) × (content ≡ prefix ++ codes ":*")
        × (parts_match (fields prefix) ps ≡ true)
        × (length (fields prefix) ≤ length ps))

Generated : List Text → Text → Type 0
Generated ps pattern =
    (content : Text) × (pattern ≡ wrap (codes "Bash") content) × Covers ps content

module _ (base : Text) (b : IsWord base) (rest : List Text) where
  bash_base-Generated : Generated (base ∷ rest) (bash_base base)
  unfolding Generated Covers parts_match
  bash_base-Generated = (
    base ++ codes ":*",
    ap (λ (u : Text). codes "Bash(" ++ u) (sym (append_assoc base (codes ":*") (codes ")"))),
    inr (
      base,
      refl,
      rw (fields-word base b) (ground (arith, same_refl base)),
      rw (fields-word base b) (omega arith),
    ),
  )

bash_sub-Generated :
    (base : Text) (b : IsWord base) (rest : List Text)
    → All IsWord rest
    → Generated (base ∷ rest) (bash_sub base rest)
unfolding Generated Covers parts_match
bash_sub-Generated base b [] a = bash_base-Generated base b []
bash_sub-Generated base b (sub ∷ more) a = (
  base ++ 32 ∷ (sub ++ codes ":*"),
  ap (λ (u : Text). codes "Bash(" ++ u) (simp append_assoc),
  inr (
    base ++ 32 ∷ sub,
    simp append_assoc,
    rw (fields_two_words base sub b a.0) (ground (arith, same_refl base, same_refl sub)),
    rw (fields_two_words base sub b a.0) (omega arith),
  ),
)

-- Each branch of the switch is proved under its test.
branch :
    (ps : List Text) (p q : Text) (b : Bool)
    → (b ≡ true → Generated ps p)
    → Generated ps q
    → Generated ps (if b then p else q)
branch ps p q true h k = h refl
branch ps p q false h k = k

bash_of_parts-Generated : (ps : List Text) → All IsWord ps → Generated ps (bash_of_parts ps)
unfolding Generated Covers
bash_of_parts-Generated [] a = (codes "*", refl, inl refl)
bash_of_parts-Generated (base ∷ rest) (b, a) =
    branch _ _ _ _ (λ _. alone)
      (branch _ _ _ _ (as_literal (codes "git")) (
        branch _ _ _ _ (λ _. bash_sub-Generated base b rest a)
          (branch _ _ _ _ (as_literal (codes "go")) alone)))
  where
    alone : Generated (base ∷ rest) (bash_base base)
    alone = bash_base-Generated base b rest

    as_literal : (t : Text) → same base t ≡ true → Generated (base ∷ rest) (bash_sub t rest)
    as_literal t h =
        subst (λ u. Generated (base ∷ rest) (bash_sub u rest)) (same-eq base t h)
          (bash_sub-Generated base b rest a)

match_command-Covers :
    (content cmd : Text)
    → Covers (fields cmd) content
    → (same content (codes "*") ≡ true) ⊎ (match_command content (some cmd) ≡ true)
unfolding Covers
match_command-Covers content cmd (inl h) = inl (rw h (same_refl (codes "*")))
match_command-Covers content cmd (inr (prefix, e, m, l)) = inr (
    rw e (
      rw (has_suffix-append prefix (codes ":*"), trim_suffix-append prefix (codes ":*"))
        (ground arith)))

pub bash-Matched :
    (o : Option Text) → Matched (codes "Bash") (λ c. match_command c o) (bash_of_command o)
unfolding Generated
bash-Matched none = (codes "*", refl, inl (same_refl (codes "*")))
bash-Matched (some cmd) =
    let (content, e, c) = bash_of_parts-Generated (fields cmd) (fields-IsWord cmd) in
    (content, e, match_command-Covers content cmd c)
