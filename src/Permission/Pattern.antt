-- ===== src/Permission/Pattern.antt =====
-- internal/permission/pattern.go: the pattern under which a decision is stored, and the test
-- whether a later request matches it. filepath.Match is a parameter, `glob`.
pub mod Shape
pub mod Named
pub mod Bash
pub mod File
pub mod RoundTrip
use cdev.Base.{
  is_empty, String, ℕ, zero, suc, ◌+◌, ◌-◌, Bool, true, false, ◌&&◌, ◌||◌, not, List, [], ◌∷◌, ◌++◌,
  Option, none, some, ltb, if◌then◌else◌, length, string_eq,
}
use cdev.Base.Map.{lookup}
use cdev.Base.Text.{Text, codes, same, has_prefix, has_suffix, trim_prefix, trim_suffix, take, drop}
use cdev.Base.Text.Fields.{fields}
use cdev.Permission.Paths.{ext, dir, rel}
use cdev.Permission.Types.{Value, text, other, ToolInput}

-- v, ok := toolInput[key].(string), with none for !ok
abbrev pub as_text : Option Value → Option Text
as_text none = none
as_text (some other) = none
as_text (some (text t)) = some t

unfoldable pub string_at : String → ToolInput → Option Text
unfolding lookup
string_at key input = as_text (lookup key input)

-- The tests `!ok || s == ""` of the generators and matchers.
abbrev pub non_empty : Option Text → Option Text
non_empty none = none
non_empty (some []) = none
non_empty (some (c ∷ s)) = some (c ∷ s)

unfoldable pub one_of : Text → List Text → Bool
unfolding same
one_of s [] = false
one_of s (t ∷ ts) = same s t || one_of s ts

abbrev bash_any : Text
bash_any = codes "Bash(*)"

-- "Bash(" + baseCmd + ":*)"
abbrev bash_base : Text → Text
bash_base base = codes "Bash(" ++ (base ++ codes ":*)")

-- "Bash(" + baseCmd + " " + parts[1] + ":*)", or without the subcommand if there is none
abbrev bash_sub : Text → List Text → Text
bash_sub base [] = bash_base base
bash_sub base (sub ∷ more) = codes "Bash(" ++ (base ++ 32 ∷ (sub ++ codes ":*)"))

abbrev pub bash_of_parts : List Text → Text
bash_of_parts [] = bash_any
bash_of_parts (base ∷ rest) =
    if one_of base (codes "rm" ∷ codes "mkdir" ∷ codes "touch" ∷ codes "chmod" ∷ codes "chown" ∷ [])
    then bash_base base
    else if same base (codes "git")
    then bash_sub (codes "git") rest
    else if one_of base (codes "npm" ∷ codes "yarn" ∷ codes "pnpm" ∷ [])
    then bash_sub base rest
    else if same base (codes "go")
    then bash_sub (codes "go") rest
    else bash_base base

abbrev bash_of_command : Option Text → Text
bash_of_command none = bash_any
bash_of_command (some cmd) = bash_of_parts (fields cmd)

unfoldable pub generate_bash_pattern : ToolInput → Text
unfolding string_at fields one_of same
generate_bash_pattern input = bash_of_command (non_empty (string_at "command" input))

abbrev file_of_dir : Text → Text → Text
file_of_dir tool d =
    if not (is_empty d) && not (same d (codes "."))
    then tool ++ (codes "(" ++ (d ++ codes "/*)"))
    else tool ++ codes "(*)"

abbrev file_of_path : Text → Option Text → Text
file_of_path tool none = tool ++ codes "(*)"
file_of_path tool (some p) =
    if not (is_empty (ext p))
    then tool ++ (codes "(*" ++ (ext p ++ codes ")"))
    else file_of_dir tool (dir p)

unfoldable pub generate_file_pattern : Text → ToolInput → String → Text
unfolding string_at ext dir same
generate_file_pattern tool input key = file_of_path tool (non_empty (string_at key input))

-- GeneratePattern
unfoldable pub generate_pattern : Text → ToolInput → Text
unfolding generate_bash_pattern generate_file_pattern same
generate_pattern tool input =
    if same tool (codes "Bash")
    then generate_bash_pattern input
    else if same tool (codes "Write")
    then generate_file_pattern (codes "Write") input "file_path"
    else if same tool (codes "Edit")
    then generate_file_pattern (codes "Edit") input "file_path"
    else if same tool (codes "Read")
    then generate_file_pattern (codes "Read") input "file_path"
    else tool ++ codes "(*)"

-- The loop over prefixParts. The length test before it keeps cmdParts[i] in range.
unfoldable pub parts_match : List Text → List Text → Bool
unfolding same
parts_match [] cs = true
parts_match (p ∷ ps) [] = false
parts_match (p ∷ ps) (c ∷ cs) = same c p && parts_match ps cs

abbrev match_command : Text → Option Text → Bool
match_command content none = false
match_command content (some cmd) =
    if has_suffix content (codes ":*")
    then (let ps = fields (trim_suffix content (codes ":*")) in
        let cs = fields cmd in if ltb (length cs) (length ps) then false else parts_match ps cs)
    else same cmd content

unfoldable pub match_bash_pattern : Text → ToolInput → Bool
unfolding string_at fields has_suffix trim_suffix parts_match same
match_bash_pattern content input = match_command content (non_empty (string_at "command" input))

-- err == nil && !strings.HasPrefix(rel, "..")
abbrev inside : Option Text → Bool
inside none = false
inside (some r) = not (has_prefix r (codes ".."))

module _ (glob : Text → Text → Bool) where
  abbrev match_path : Text → Option Text → Bool
  match_path content none = false
  match_path content (some p) =
      if has_prefix content (codes "*")
      then has_suffix p (trim_prefix content (codes "*"))
      else if has_suffix content (codes "/*")
      then inside (rel (trim_suffix content (codes "/*")) (dir p))
      else glob content p

  unfoldable pub match_file_pattern : Text → ToolInput → Bool
  unfolding string_at has_prefix has_suffix trim_prefix trim_suffix rel dir
  match_file_pattern content input = match_path content (non_empty (string_at "file_path" input))

  abbrev match_content : Text → Text → ToolInput → Bool
  match_content tool content input =
      if same content (codes "*")
      then true
      else if same tool (codes "Bash")
      then match_bash_pattern content input
      else if one_of tool (codes "Write" ∷ codes "Edit" ∷ codes "Read" ∷ [])
      then match_file_pattern content input
      else same content (codes "*")

  -- MatchPattern; the slice is pattern[len(toolName)+1 : len(pattern)-1]
  unfoldable pub match_pattern : Text → Text → ToolInput → Bool
  unfolding match_bash_pattern match_file_pattern has_prefix has_suffix same one_of
  match_pattern pattern tool input =
      if not (has_prefix pattern (tool ++ codes "(")) || not (has_suffix pattern (codes ")"))
      then false
      else match_content tool
          (take (length pattern - 1 - (length tool + 1)) (drop (length tool + 1) pattern)) input
