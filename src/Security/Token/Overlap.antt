-- ===== src/Security/Token/Overlap.antt =====
-- Exchanges and refreshes that overlap (internal/security/token.go): the check of a token and the
-- record of its use are two steps, each under its own lock, with steps of other calls between them.
use cdev.Base.{
  ℕ, ◌+◌, ◌≡◌, ◌≢◌, refl, sym, ap, ◌∙◌, not, List, [], ◌∷◌, Option, none, some, if◌then◌else◌,
  arith, Bool-cases, inl, inr, nat_eq,
}
use cdev.Base.Text.{Text, same, text_eq, same-eq}
use cdev.Base.Map.{
  Map, lookup, insert, erase, Each, Each-insert, Each-erase, Each-lookup, lookup-insert,
}
use cdev.Security.Token.{
  pairing, refresh, TokenPayload, wrong_type, missing_device, Result, ok, err, TokenCodec,
  same_type, TokenManager, TokenPair, Reads, validate_token, revoke_used, refresh_with,
  refresh_token_pair, exchange_with, exchange_pairing_token, pair_for,
  generate_token_pair_with_device_id,
}
use cdev.Security.Token.Revoke.{validated}

pub data Use : Type 0 where
  exchanging refreshing : Use

module _ (x : TokenCodec) where
  abbrev pub accept : Use → Result TokenPayload → Result TokenPayload
  accept u (err e) = err e
  accept exchanging (ok p) = if not (same_type p.type pairing) then err wrong_type else ok p
  accept refreshing (ok p) =
      if not (same_type p.type refresh)
      then err wrong_type
      else if same p.device_id []
      then err missing_device
      else ok p

  -- The part of ExchangePairingToken and RefreshTokenPair that checks the token.
  abbrev pub begin : Use → TokenManager → Reads → Text → Result TokenPayload
  begin u tm reads token = accept u (validate_token x tm reads.validate_at token)

  abbrev pub new_pair : Use → TokenManager → Reads → TokenPayload → Result TokenPair
  new_pair exchanging tm reads p = pair_for x tm reads reads.device
  new_pair refreshing tm reads p = generate_token_pair_with_device_id x tm reads p.device_id

  -- The part that makes the new tokens and records the use.
  abbrev pub finish :
      Use → TokenManager → Reads → Result TokenPayload → TokenManager × Result TokenPair
  finish u tm reads (err e) = (tm, err e)
  finish u tm reads (ok p) = revoke_used x tm reads.revoke_at p.nonce (new_pair u tm reads p)

  abbrev whole : Use → TokenManager → Reads → Text → TokenManager × Result TokenPair
  whole exchanging tm reads token = exchange_pairing_token x tm reads token
  whole refreshing tm reads token = refresh_token_pair x tm reads token

  -- The two parts after one another are the whole method.
  pub finish-begin :
      (u : Use) (tm : TokenManager) (reads : Reads) (token : Text)
      → finish u tm reads (begin u tm reads token) ≡ whole u tm reads token
  unfolding exchange_pairing_token refresh_token_pair
  finish-begin exchanging tm reads token = on (validate_token x tm reads.validate_at token)
    where
      on :
          (r : Result TokenPayload)
          → finish exchanging tm reads (accept exchanging r) ≡ exchange_with x tm reads r
      on (err e) = refl
      on (ok p) = elim (Bool-cases (not (same_type p.type pairing))) [
        | inl other ↦ rw other refl
        | inr right ↦ rw right refl
      ]
  finish-begin refreshing tm reads token = on (validate_token x tm reads.validate_at token)
    where
      on :
          (r : Result TokenPayload)
          → finish refreshing tm reads (accept refreshing r) ≡ refresh_with x tm reads r
      on (err e) = refl
      on (ok p) = elim (Bool-cases (not (same_type p.type refresh))) [
        | inl other ↦ rw other refl
        | inr right ↦ elim (Bool-cases (same p.device_id [])) [
          | inl no_device ↦ rw (right, no_device) refl
          | inr device ↦ rw (right, device) refl
        ]
      ]

-- The manager, the calls that have checked their token and not yet recorded it, and the nonces
-- that were granted a new pair, the last one first.
pub record Server : Type 0 where
  pub manager : TokenManager
  pub checked : Map ℕ (Use × TokenPayload)
  pub granted : List Text

-- A step of the call with this number.
pub data Action : Type 0 where
  begins : ℕ → Use → Reads → Text → Action
  finishes : ℕ → Reads → Action

-- How often a nonce was granted.
abbrev pub times : Text → List Text → ℕ
times n [] = 0
times n (m ∷ ms) = if same m n then times n ms + 1 else times n ms

module _ (x : TokenCodec) where
  abbrev pub begun : Server → ℕ → Use → Result TokenPayload → Server
  begun s i u (err e) = s
  begun s i u (ok p) = record s { checked = insert i (u, p) s.checked }

  abbrev pub recorded : Server → ℕ → TokenPayload → TokenManager × Result TokenPair → Server
  recorded s i p (tm, err e) = record s { checked = erase i s.checked }
  recorded s i p (tm, ok pair) = record {
    manager = tm;
    checked = erase i s.checked;
    granted = p.nonce ∷ s.granted;
  }

  abbrev pub finished : Server → ℕ → Reads → Option (Use × TokenPayload) → Server
  finished s i reads none = s
  finished s i reads (some (u, p)) = recorded s i p (finish x u s.manager reads (ok p))

  abbrev pub act : Server → Action → Server
  act s (begins i u reads token) = begun s i u (begin x u s.manager reads token)
  act s (finishes i reads) = finished s i reads (lookup i s.checked)

  unfoldable pub acts : Server → List Action → Server
  acts s [] = s
  acts s (a ∷ rest) = acts (act s a) rest

  -- The nonce is recorded as used, and no call is about to use it.
  abbrev pub Spent : Text → Server → Type 0
  Spent n s = (lookup n s.manager.revoked_nonces ≢ none) × Each (λ _ c. c.1.nonce ≢ n) s.checked

  accept-ok :
      (u : Use) (r : Result TokenPayload) (p : TokenPayload) → accept x u r ≡ ok p → r ≡ ok p
  accept-ok u (err e) p h = absurd (cc)
  accept-ok exchanging (ok q) p h = ground arith
  accept-ok refreshing (ok q) p h = ground arith

  begun-Spent :
      (n : Text) (s : Server) (i : ℕ) (u : Use) (r : Result TokenPayload)
      → ((p : TokenPayload) → r ≡ ok p → p.nonce ≢ n)
      → Spent n s
      → Spent n (begun s i u r)
  begun-Spent n s i u (err e) h v = v
  begun-Spent n s i u (ok p) h v =
      (v.0, Each-insert (λ _ c. c.1.nonce ≢ n) i (u, p) s.checked (h p refl) v.1)

  begin-other :
      (n : Text) (s : Server) (u : Use) (reads : Reads) (token : Text) (p : TokenPayload)
      → lookup n s.manager.revoked_nonces ≢ none
      → begin x u s.manager reads token ≡ ok p
      → p.nonce ≢ n
  begin-other n s u reads token p v h e =
      let free =
        (validated x s.manager reads.validate_at token p
          (accept-ok u (validate_token x s.manager reads.validate_at token) p h)).1 in
      v (ap (λ (k : Text). lookup k s.manager.revoked_nonces) (sym e) ∙ free)

  recorded-Spent :
      (n : Text) (s : Server) (i : ℕ) (p : TokenPayload) (at : ℕ) (r : Result TokenPair)
      → p.nonce ≢ n
      → Spent n s
      → Spent n (recorded s i p (revoke_used x s.manager at p.nonce r))
        × (times n (recorded s i p (revoke_used x s.manager at p.nonce r)).granted
            ≡ times n s.granted)
  recorded-Spent n s i p at (err e) ne v =
      ((v.0, Each-erase (λ _ c. c.1.nonce ≢ n) i s.checked v.1), refl)
  recorded-Spent n s i p at (ok pair) ne v = (
    (
      (λ h. v.0 (ground (arith, lookup-insert p.nonce n at s.manager.revoked_nonces))),
      Each-erase (λ _ c. c.1.nonce ≢ n) i s.checked v.1,
    ),
    ground (arith, same-eq p.nonce n),
  )

  finished-Spent :
      (n : Text) (s : Server) (i : ℕ) (reads : Reads) (o : Option (Use × TokenPayload))
      → lookup i s.checked ≡ o
      → Spent n s
      → Spent n (finished s i reads o)
        × (times n (finished s i reads o).granted ≡ times n s.granted)
  finished-Spent n s i reads none at v = (v, refl)
  finished-Spent n s i reads (some (u, p)) at v =
      recorded-Spent n s i p reads.revoke_at (new_pair x u s.manager reads p)
        (Each-lookup (λ _ c. c.1.nonce ≢ n) i (u, p) s.checked v.1 at) v

  begun-granted :
      (s : Server) (i : ℕ) (u : Use) (r : Result TokenPayload) → (begun s i u r).granted ≡ s.granted
  begun-granted s i u (err e) = refl
  begun-granted s i u (ok p) = refl

  act-Spent :
      (n : Text) (s : Server) (a : Action)
      → Spent n s
      → Spent n (act s a) × (times n (act s a).granted ≡ times n s.granted)
  act-Spent n s (begins i u reads token) v =
      let r = begin x u s.manager reads token in
      (
        begun-Spent n s i u r (λ p h. begin-other n s u reads token p v.0 h) v,
        ap (times n) (begun-granted s i u r),
      )
  act-Spent n s (finishes i reads) v = finished-Spent n s i reads (lookup i s.checked) refl v

  -- When the use of a nonce is recorded and no call stands between checking it and recording it,
  -- then however exchanges and refreshes of any tokens go on and overlap, no further pair is
  -- granted for that nonce, and it stays so.
  pub acts-Spent :
      (n : Text) (s : Server) (actions : List Action)
      → Spent n s
      → Spent n (acts s actions) × (times n (acts s actions).granted ≡ times n s.granted)
  unfolding acts
  acts-Spent n s [] v = (v, refl)
  acts-Spent n s (a ∷ rest) v =
      let (next, same_times) = act-Spent n s a v in
      let (last, rest_times) = acts-Spent n (act s a) rest next in (last, rest_times ∙ same_times)
