-- ===== src/Permission/Pattern/Named.antt =====
-- A generated pattern is never empty (pattern.go).
use cdev.Base.{◌≢◌, List, [], ◌∷◌, ◌++◌, Option, none, some, ℕ, arith}
use cdev.Base.Text.{Text, codes}
use cdev.Base.Text.Fields.{fields}
use cdev.Permission.Types.{ToolInput}
use cdev.Permission.Paths.{ext, dir}
use cdev.Permission.Pattern.{
  generate_pattern, generate_bash_pattern, generate_file_pattern, bash_of_command, bash_of_parts,
  non_empty, string_at, file_of_path,
}

append-cons-ne-nil : (t : Text) (c : ℕ) (s : Text) → t ++ c ∷ s ≢ []
append-cons-ne-nil [] c s h = cc
append-cons-ne-nil (d ∷ t) c s h = cc

bash_of_parts-ne-nil : (ps : List Text) → bash_of_parts ps ≢ []
bash_of_parts-ne-nil [] h = cc
bash_of_parts-ne-nil (base ∷ []) h = ground arith
bash_of_parts-ne-nil (base ∷ sub ∷ rest) h = ground arith

bash_of_command-ne-nil : (o : Option Text) → bash_of_command o ≢ []
bash_of_command-ne-nil none h = cc
bash_of_command-ne-nil (some cmd) h = bash_of_parts-ne-nil (fields cmd) h

file_of_path-ne-nil : (tool : Text) (o : Option Text) → file_of_path tool o ≢ []
file_of_path-ne-nil tool none h = append-cons-ne-nil tool _ _ h
file_of_path-ne-nil tool (some p) h = ground (
  arith,
  append-cons-ne-nil tool b'(' (codes "*" ++ (ext p ++ codes ")")),
  append-cons-ne-nil tool b'(' (dir p ++ codes "/*)"),
  append-cons-ne-nil tool b'(' (codes "*)"),
)

-- GeneratePattern never returns the empty string, which would mean "do not store".
pub generate_pattern-ne-nil : (tool : Text) (input : ToolInput) → generate_pattern tool input ≢ []
unfolding generate_pattern generate_bash_pattern generate_file_pattern
generate_pattern-ne-nil tool input h = ground (
  arith,
  bash_of_command-ne-nil (non_empty (string_at "command" input)),
  file_of_path-ne-nil (codes "Write") (non_empty (string_at "file_path" input)),
  file_of_path-ne-nil (codes "Edit") (non_empty (string_at "file_path" input)),
  file_of_path-ne-nil (codes "Read") (non_empty (string_at "file_path" input)),
  append-cons-ne-nil tool b'(' (codes "*)"),
)
