-- ===== src/Git.antt =====
-- internal/adapters/git/diff_truncate.go: a diff is cut to a size without cutting a character. The
-- texts are bytes.
pub mod Utf8
pub mod Cut
mod Tests
use cdev.Base.{
  ℕ, zero, suc, ◌*◌, Bool, true, false, ◌&&◌, ◌||◌, List, [], ◌∷◌, Option, none, some, leb, ltb,
  ◌==◌, if◌then◌else◌, length, is_empty,
}
use cdev.Base.Text.{Text, take}

-- Where a decoder of UTF-8 stands: between characters, or before a byte between two bounds with so
-- many bytes of the character after it.
pub data Pending : Type 0 where
  done : Pending
  expect : ℕ → ℕ → ℕ → Pending

abbrev pub between : ℕ → ℕ → ℕ → Bool
between lo hi b = leb lo b && leb b hi

-- The first byte of a character.
abbrev pub first_byte : ℕ → Option Pending
first_byte b =
    if ltb b 0x80
    then some done
    else if between 0xc2 0xdf b
    then some (expect 0 0x80 0xbf)
    else if b == 0xe0
    then some (expect 1 0xa0 0xbf)
    else if b == 0xed
    then some (expect 1 0x80 0x9f)
    else if between 0xe1 0xef b
    then some (expect 1 0x80 0xbf)
    else if b == 0xf0
    then some (expect 2 0x90 0xbf)
    else if b == 0xf4
    then some (expect 2 0x80 0x8f)
    else if between 0xf1 0xf3 b
    then some (expect 2 0x80 0xbf)
    else none

abbrev pub after : ℕ → Pending
after zero = done
after (suc n) = expect n 0x80 0xbf

unfoldable pub next_byte : Pending → ℕ → Option Pending
next_byte done b = first_byte b
next_byte (expect n lo hi) b = if between lo hi b then some (after n) else none

abbrev pub step : Option Pending → ℕ → Option Pending
step none b = none
step (some st) b = next_byte st b

unfoldable pub decode : Option Pending → Text → Option Pending
decode o [] = o
decode o (b ∷ s) = decode (step o b) s

abbrev pub is_done : Option Pending → Bool
is_done none = false
is_done (some done) = true
is_done (some (expect n lo hi)) = false

-- utf8.Valid
unfoldable pub valid : Text → Bool
valid s = is_done (decode (some done) s)

-- The loop of TruncateDiff, over the length that is left.
unfoldable pub shrink : ℕ → Text → Text
shrink zero bytes = []
shrink (suc n) bytes =
    let shorter = shrink n bytes in
    if valid (take (suc n) bytes) then take (suc n) bytes else shorter

-- TruncateDiff; a size that is not positive is 0
unfoldable pub truncate_diff : Text → ℕ → Text × Bool
truncate_diff diff zero = ([], if is_empty diff then false else true)
truncate_diff diff (suc max_size_kb) =
    let max_bytes = suc max_size_kb * 1024 in
    if leb (length diff) max_bytes then (diff, false) else (shrink max_bytes diff, true)
