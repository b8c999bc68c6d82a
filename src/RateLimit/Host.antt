-- ===== src/RateLimit/Host.antt =====
-- The key of a client without a trusted proxy (internal/server/http/middleware/ratelimit.go).
use mathlib.Core.List.{append_assoc}
use cdev.Base.{
  ℕ, zero, suc, ◌+◌, ◌≤◌, ◌<◌, ◌≡◌, ◌≢◌, refl, ◌∙◌, ap, subst, false, [], ◌∷◌, ◌++◌, some, length,
  length-append, arith, ℕ_discrete,
}
use cdev.Base.Text.{Text, take-append}
use cdev.RateLimit.Key.{
  byte_at, index_from, index_byte, last_index_from, last_index_byte, Without, without_port,
  in_brackets, ip_key_extractor,
}

byte_at-append : (h t : Text) (c : ℕ) → byte_at (h ++ c ∷ t) (length h) ≡ c
byte_at-append [] t c = refl
byte_at-append (d ∷ h) t c = byte_at-append h t c

Without-byte_at : (c : ℕ) (p : Text) (k : ℕ) → Without c p → k < length p → byte_at p k ≢ c
Without-byte_at c [] k w lt = absurd (omega arith)
Without-byte_at c (d ∷ p) zero w lt = w.0
Without-byte_at c (d ∷ p) (suc k) w lt = Without-byte_at c p k w.1 (omega arith)

byte_at-after :
    (h p : Text) (c m : ℕ)
    → Without c p
    → length h < m
    → m < length h + suc (length p)
    → byte_at (h ++ c ∷ p) m ≢ c
byte_at-after h p c zero w lt le = absurd (omega arith)
byte_at-after [] p c (suc m) w lt le = Without-byte_at c p m w (omega arith)
byte_at-after (d ∷ h) p c (suc m) w lt le = byte_at-after h p c m w (omega arith) (omega arith)

last_here :
    (h p : Text) (c m : ℕ) → length h ≡ m → last_index_from (h ++ c ∷ p) (suc m) c ≡ some (length h)
unfolding last_index_from
last_here h p c m e = ground (arith, byte_at-append h p c)

last_before :
    (h p : Text) (c m : ℕ)
    → byte_at (h ++ c ∷ p) m ≢ c
    → last_index_from (h ++ c ∷ p) (suc m) c ≡ last_index_from (h ++ c ∷ p) m c
unfolding last_index_from
last_before h p c m ne = ground arith

last_index_from-append :
    (h p : Text) (c m : ℕ)
    → Without c p
    → length h ≤ m
    → m < length h + suc (length p)
    → last_index_from (h ++ c ∷ p) (suc m) c ≡ some (length h)
last_index_from-append h p c zero w ge lt = last_here h p c zero (omega arith)
last_index_from-append h p c (suc m) w ge lt = elim (ℕ_discrete (length h) (suc m)) [
  | yes e ↦ last_here h p c (suc m) e
  | no ne ↦
      last_before h p c (suc m) (byte_at-after h p c (suc m) w (omega arith) lt)
      ∙ last_index_from-append h p c m w (omega arith) (omega arith)
]

last_index_byte-append :
    (h p : Text) (c : ℕ) → Without c p → last_index_byte (h ++ c ∷ p) c ≡ some (length h)
last_index_byte-append h p c w =
    subst (λ n. last_index_from (h ++ c ∷ p) n c ≡ some (length h)) {x = suc (length h + length p)}
      (let len = length-append h (c ∷ p) in omega arith)
      (last_index_from-append h p c (length h + length p) w (omega arith) (omega arith))

index_from-append :
    (i : ℕ) (h t : Text) (c : ℕ) → Without c h → index_from i (h ++ c ∷ t) c ≡ some (i + length h)
unfolding index_from
index_from-append i [] t c w = ground arith
index_from-append i (d ∷ h) t c w = ground (arith, index_from-append (i + 1) h t c w.1)

-- The host of a remote address: as it is, or in the brackets that an IPv6 address has.
pub data Host : Type 0 where
  plain bracketed : Text → Host

abbrev pub IsHost : Host → Type 0
IsHost (plain []) = ⊥
IsHost (plain (c ∷ h)) = c ≢ b'['
IsHost (bracketed h) = Without b']' h

abbrev pub host_text : Host → Text
host_text (plain h) = h
host_text (bracketed h) = h

-- RemoteAddr of a connection from a host and a port.
abbrev pub remote_of : Host → Text → Text
remote_of (plain h) port = h ++ b':' ∷ port
remote_of (bracketed h) port = b'[' ∷ (h ++ b']' ∷ b':' ∷ port)

without_port-plain :
    (c : ℕ) (h port : Text)
    → c ≢ b'['
    → without_port ((c ∷ h) ++ b':' ∷ port) (some (length (c ∷ h))) ≡ c ∷ h
without_port-plain c h port ne = ground (arith, take-append (c ∷ h) (b':' ∷ port))

sliced :
    (h t : Text)
    → in_brackets (b'[' ∷ (h ++ t)) (suc (suc (length h))) (some (0 + length (b'[' ∷ h))) ≡ h
sliced h t = ground (arith, take-append h t)

last_index_byte-bracketed :
    (h port : Text)
    → Without b':' port
    → last_index_byte (remote_of (bracketed h) port) b':' ≡ some (suc (suc (length h)))
last_index_byte-bracketed h port w =
    subst (λ s. last_index_byte (b'[' ∷ s) b':' ≡ some (suc (suc (length h))))
      (append_assoc h (b']' ∷ []) (b':' ∷ port))
      (last_index_byte-append (b'[' ∷ (h ++ b']' ∷ [])) port b':' w
        ∙ ap some (let len = length-append h (b']' ∷ []) in omega arith))

opens :
    (s : Text) (n : ℕ)
    → without_port (b'[' ∷ s) (some (suc n))
      ≡ in_brackets (b'[' ∷ s) (suc n) (index_byte (b'[' ∷ s) b']')
opens s n = ground arith

without_port-bracketed :
    (h port : Text)
    → Without b']' h
    → without_port (remote_of (bracketed h) port) (some (suc (suc (length h)))) ≡ h
without_port-bracketed h port w =
    let at = index_from-append 0 (b'[' ∷ h) (b':' ∷ port) b']' ((λ e. omega arith), w) in
    opens (h ++ b']' ∷ b':' ∷ port) (suc (length h))
    ∙ ap (in_brackets (remote_of (bracketed h) port) (suc (suc (length h)))) at
    ∙ sliced h (b']' ∷ b':' ∷ port)

without_port-remote :
    (h : Host) (port : Text)
    → IsHost h
    → Without b':' port
    → without_port (remote_of h port) (last_index_byte (remote_of h port) b':') ≡ host_text h
without_port-remote (plain []) port v w = absurd v
without_port-remote (plain (c ∷ h)) port v w =
    ap (without_port _) (last_index_byte-append (c ∷ h) port b':' w) ∙ without_port-plain c h port v
without_port-remote (bracketed h) port v w =
    ap (without_port _) (last_index_byte-bracketed h port w) ∙ without_port-bracketed h port v

-- Without a trusted proxy, a connection counts under its host, without the brackets of an IPv6
-- address, whatever its port and its headers are.
pub ip_key_extractor-host :
    (h : Host) (port : Text) (header : Text → Text)
    → IsHost h
    → Without b':' port
    → ip_key_extractor false (record { remote_addr = remote_of h port; header = header })
      ≡ host_text h
unfolding ip_key_extractor
ip_key_extractor-host h port header v w = without_port-remote h port v w
