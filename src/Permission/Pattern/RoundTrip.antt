-- ===== src/Permission/Pattern/RoundTrip.antt =====
-- A generated pattern matches the request it was generated from (pattern.go).
use cdev.Base.{
  ◌≡◌, refl, Bool, true, false, [], ◌∷◌, Option, none, some, arith, if◌then◌else◌, inl, inr,
  Bool-cases, sym, subst,
}
use cdev.Base.Text.{Text, codes, same, same-eq, has_prefix}
use cdev.Permission.Paths.{dir}
use cdev.Permission.Types.{ToolInput}
use cdev.Permission.Pattern.{
  match_pattern, generate_pattern, generate_bash_pattern, generate_file_pattern, match_bash_pattern,
  match_file_pattern, one_of, non_empty, string_at, file_of_path,
}
use cdev.Permission.Pattern.Shape.{Matched, any-Matched, match_pattern-wrap}
use cdev.Permission.Pattern.Bash.{bash-Matched}
use cdev.Permission.Pattern.File.{path-Matched}

-- The part of MatchPattern after its test for `*`.
abbrev rest_test : (Text → Text → Bool) → Text → ToolInput → Text → Bool
rest_test glob tool input content =
    if same tool (codes "Bash")
    then match_bash_pattern content input
    else if one_of tool (codes "Write" ∷ codes "Edit" ∷ codes "Read" ∷ [])
    then match_file_pattern glob content input
    else same content (codes "*")

module _ (glob : Text → Text → Bool) (input : ToolInput) where
  match_pattern-Matched :
      (tool : Text) (p : Text)
      → Matched tool (rest_test glob tool input) p
      → match_pattern glob p tool input ≡ true
  match_pattern-Matched tool p (content, e, inl any) = rw (e, match_pattern-wrap) (rw any)
  match_pattern-Matched tool p (content, e, inr m) = rw (e, match_pattern-wrap) (ground (arith, m))

  -- The names of the tools are literals, so the tests on them compute.
  bash_round_trip : match_pattern glob (generate_bash_pattern input) (codes "Bash") input ≡ true
  unfolding generate_bash_pattern match_bash_pattern
  bash_round_trip =
      match_pattern-Matched (codes "Bash") _ (bash-Matched (non_empty (string_at "command" input)))

  file_round_trip :
      (tool : Text)
      → same tool (codes "Bash") ≡ false
      → one_of tool (codes "Write" ∷ codes "Edit" ∷ codes "Read" ∷ []) ≡ true
      → (o : Option Text) → non_empty (string_at "file_path" input) ≡ o
      → ((p : Text) → o ≡ some p → has_prefix (dir p) (codes "*") ≡ false)
      → match_pattern glob (file_of_path tool o) tool input ≡ true
  unfolding match_file_pattern
  file_round_trip tool other file none e h = match_pattern-Matched tool _ (any-Matched tool _)
  file_round_trip tool other file (some p) e h =
      let (content, shape, m) = path-Matched glob tool p (h p refl) in
      match_pattern-Matched tool _
        (content, shape, elim m [ inl any ↦ inl any | inr at ↦ inr (rw (other, file, e) at) ])

  -- The directory pattern of a file tool must not start with `*`.
  abbrev pub PlainDir : Text → Type 0
  PlainDir tool =
      (p : Text)
      → one_of tool (codes "Write" ∷ codes "Edit" ∷ codes "Read" ∷ []) ≡ true
      → non_empty (string_at "file_path" input) ≡ some p
      → has_prefix (dir p) (codes "*") ≡ false

  literal_round_trip :
      (tool : Text)
      → same tool (codes "Bash") ≡ false
      → one_of tool (codes "Write" ∷ codes "Edit" ∷ codes "Read" ∷ []) ≡ true
      → PlainDir tool
      → match_pattern glob (generate_file_pattern tool input "file_path") tool input ≡ true
  unfolding generate_file_pattern
  literal_round_trip tool other file h =
      file_round_trip tool other file (non_empty (string_at "file_path" input)) refl
        (λ p e. h p file e)

  if_literal :
      (tool t : Text) (q : Text)
      → (same tool t ≡ true → match_pattern glob q tool input ≡ true)
      → (r : Text) → (same tool t ≡ false → match_pattern glob r tool input ≡ true)
      → match_pattern glob (if same tool t then q else r) tool input ≡ true
  if_literal tool t q h r k = elim (Bool-cases (same tool t)) [
    | inl is ↦ rw is (h is)
    | inr not_is ↦ rw not_is (k not_is)
  ]

  -- A file tool's name can be put in for the literal.
  file_literal :
      (t : Text)
      → same t (codes "Bash") ≡ false
      → one_of t (codes "Write" ∷ codes "Edit" ∷ codes "Read" ∷ []) ≡ true
      → (tool : Text) → PlainDir tool
      → same tool t ≡ true
      → match_pattern glob (generate_file_pattern t input "file_path") tool input ≡ true
  file_literal t other file tool h is =
      let e = same-eq tool t is in
      subst (λ u. match_pattern glob (generate_file_pattern t input "file_path") u input ≡ true)
        (sym e) (literal_round_trip t other file (subst PlainDir e h))

  -- The pattern that is generated from a request matches that request, for every tool and input,
  -- unless a file tool gets a path whose directory starts with `*`.
  pub match_pattern-generate :
      (tool : Text)
      → PlainDir tool
      → match_pattern glob (generate_pattern tool input) tool input ≡ true
  unfolding generate_pattern
  match_pattern-generate tool h =
      if_literal tool (codes "Bash") _
        (λ is.
          subst (λ u. match_pattern glob (generate_bash_pattern input) u input ≡ true)
            (sym (same-eq tool (codes "Bash") is)) bash_round_trip)
        _
        (λ _.
          if_literal tool (codes "Write") _ (file_literal (codes "Write") refl refl tool h) _ (λ _.
            if_literal tool (codes "Edit") _ (file_literal (codes "Edit") refl refl tool h) _ (λ _.
              if_literal tool (codes "Read") _ (file_literal (codes "Read") refl refl tool h) _
                (λ _. match_pattern-Matched tool _ (any-Matched tool _)))))
