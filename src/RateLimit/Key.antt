-- ===== src/RateLimit/Key.antt =====
-- The rate limit key of internal/server/http/middleware/ratelimit.go: the address of the client. The
-- texts are bytes here, as the loops index them.
use cdev.Base.{
  ℕ, zero, suc, ◌+◌, ◌≢◌, Bool, not, ◌&&◌, ◌||◌, [], ◌∷◌, Option, none, some, ltb, ◌==◌,
  if◌then◌else◌, length, is_empty, All,
}
use cdev.Base.Text.{Text, codes, take, drop}

-- What the extractors read of an http.Request; a header that is missing is empty.
pub record HttpRequest : Type 0 where
  pub remote_addr : Text
  pub header : Text → Text

abbrev pub byte_at : Text → ℕ → ℕ
byte_at [] i = 0
byte_at (c ∷ s) zero = c
byte_at (c ∷ s) (suc i) = byte_at s i

-- indexByte: the loop over what is left of the text from i on; none is -1
unfoldable pub index_from : ℕ → Text → ℕ → Option ℕ
index_from i [] c = none
index_from i (d ∷ s) c = if d == c then some i else index_from (i + 1) s c

abbrev pub index_byte : Text → ℕ → Option ℕ
index_byte s c = index_from 0 s c

-- lastIndexByte: i counts the indices that are left
unfoldable pub last_index_from : Text → ℕ → ℕ → Option ℕ
last_index_from s zero c = none
last_index_from s (suc i) c = if byte_at s i == c then some i else last_index_from s i c

abbrev pub last_index_byte : Text → ℕ → Option ℕ
last_index_byte s c = last_index_from s (length s) c

-- A space or a tab.
abbrev pub is_blank_byte : ℕ → Bool
is_blank_byte c = c == 32 || c == 9

-- The first loop of trimSpace, over what is left of the text from start on.
unfoldable pub trim_start : ℕ → Text → ℕ
trim_start start [] = start
trim_start start (c ∷ s) = if is_blank_byte c then trim_start (start + 1) s else start

-- The second loop of trimSpace.
unfoldable pub trim_end : Text → ℕ → ℕ → ℕ
trim_end s start zero = zero
trim_end s start (suc e) =
    if ltb start (suc e) && is_blank_byte (byte_at s e) then trim_end s start e else suc e

-- s[a:b]
abbrev pub slice : Text → ℕ → ℕ → Text
slice s a b = drop a (take b s)

-- trimSpace
unfoldable pub trim_space : Text → Text
trim_space s = let start = trim_start 0 s in slice s start (trim_end s start (length s))

abbrev pub first_of : Text → Option ℕ → Text
first_of xff none = trim_space xff
first_of xff (some idx) = if ltb 0 idx then trim_space (take idx xff) else trim_space xff

abbrev pub in_brackets : Text → ℕ → Option ℕ → Text
in_brackets addr idx none = take idx addr
in_brackets addr idx (some bracket_idx) =
    if ltb 0 bracket_idx then slice addr 1 bracket_idx else take idx addr

abbrev pub without_port : Text → Option ℕ → Text
without_port addr none = addr
without_port addr (some idx) =
    if ltb 0 idx
    then (if byte_at addr 0 == b'['
        then in_brackets addr idx (index_byte addr b']')
        else take idx addr)
    else addr

-- IPKeyExtractor; the variable TrustProxy is its first argument
unfoldable pub ip_key_extractor : Bool → HttpRequest → Text
ip_key_extractor trust_proxy r =
    let remote = without_port r.remote_addr (last_index_byte r.remote_addr b':') in
    let xff = r.header (codes "X-Forwarded-For") in
    let xri = r.header (codes "X-Real-IP") in
    if trust_proxy
    then (if not (is_empty xff)
        then first_of xff (index_byte xff b',')
        else if not (is_empty xri)
        then trim_space xri
        else remote)
    else remote

-- HeaderKeyExtractor
unfoldable pub header_key_extractor : Bool → Text → HttpRequest → Text
header_key_extractor trust_proxy name r =
    let val = r.header name in if not (is_empty val) then val else ip_key_extractor trust_proxy r

-- The byte does not occur.
abbrev pub Without : ℕ → Text → Type 0
Without c s = All (λ d. d ≢ c) s
