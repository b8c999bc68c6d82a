-- ===== src/Permission/Pattern/Shape.antt =====
-- Patterns of the form tool(content), and what MatchPattern makes of them (pattern.go).
use mathlib.Core.List.{append_assoc}
use cdev.Base.{◌+◌, ◌-◌, ◌⊎◌, ◌≡◌, refl, sym, Bool, true, ◌++◌, arith, length, length-append, inl}
use cdev.Base.Text.{
  Text, codes, same, same_refl, has_prefix, has_suffix, has_prefix-append, has_suffix-append, take,
  drop, take-append, drop-append,
}
use cdev.Permission.Types.{ToolInput}
use cdev.Permission.Pattern.{match_pattern, match_content}

-- toolName + "(" + content + ")"
abbrev pub wrap : Text → Text → Text
wrap tool content = tool ++ (codes "(" ++ (content ++ codes ")"))

module _ (tool content : Text) where
  wrap-open : wrap tool content ≡ (tool ++ codes "(") ++ (content ++ codes ")")
  wrap-open = sym (append_assoc tool (codes "(") (content ++ codes ")"))

  wrap-close : wrap tool content ≡ (tool ++ (codes "(" ++ content)) ++ codes ")"
  wrap-close = sym (append_assoc tool (codes "(" ++ content) (codes ")"))

  wrap_prefix : has_prefix (wrap tool content) (tool ++ codes "(") ≡ true
  wrap_prefix = rw wrap-open (has_prefix-append (tool ++ codes "(") (content ++ codes ")"))

  wrap_suffix : has_suffix (wrap tool content) (codes ")") ≡ true
  wrap_suffix = rw wrap-close (has_suffix-append (tool ++ (codes "(" ++ content)) (codes ")"))

  drop-wrap : drop (length tool + 1) (wrap tool content) ≡ content ++ codes ")"
  drop-wrap =
      rw (wrap-open, sym (length-append tool (codes "("))) (drop-append (tool ++ codes "(") _)

  length-wrap : length (wrap tool content) - 1 - (length tool + 1) ≡ length content
  length-wrap = omega (
    arith,
    length-append tool (codes "(" ++ (content ++ codes ")")),
    length-append content (codes ")"),
  )

  slice-wrap :
      take
        (length (wrap tool content) - 1 - (length tool + 1))
        (drop (length tool + 1) (wrap tool content))
      ≡ content
  slice-wrap = rw (length-wrap, drop-wrap) (take-append content (codes ")"))

  -- On a pattern of the form tool(content), the match is decided by the content.
  pub match_pattern-wrap :
      (glob : Text → Text → Bool) (input : ToolInput)
      → match_pattern glob (wrap tool content) tool input ≡ match_content glob tool content input
  unfolding match_pattern
  match_pattern-wrap glob input = rw (wrap_prefix, wrap_suffix, slice-wrap)

-- The pattern has the form tool(content), and the content is matched by the request.
abbrev pub Matched : Text → (Text → Bool) → Text → Type 0
Matched tool test pattern =
    (content : Text) × (pattern ≡ wrap tool content)
    × ((same content (codes "*") ≡ true) ⊎ (test content ≡ true))

pub any-Matched : (tool : Text) (test : Text → Bool) → Matched tool test (tool ++ codes "(*)")
any-Matched tool test = (codes "*", refl, inl (same_refl (codes "*")))
