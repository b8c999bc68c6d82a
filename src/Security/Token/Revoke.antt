-- ===== src/Security/Token/Revoke.antt =====
-- A token that is used or revoked is refused (token.go).
use cdev.Base.{
  ℕ, ◌+◌, ◌≡◌, ◌≢◌, ◌⊎◌, refl, sym, ap, true, false, not, [], none, some, ltb, if◌then◌else◌, arith,
  Bool-cases, inl, inr,
}
use cdev.Base.Text.{Text, same, text_eq, same-eq}
use cdev.Base.Map.{lookup, Distinct, lookup-insert_self, lookup-retain}
use cdev.Security.Token.{
  TokenType, pairing, refresh, TokenPayload, TokenError, invalid_token, token_revoked, Result, ok,
  err, TokenCodec, CodecLaws, same_type, TokenManager, TokenPair, Reads, parse_token_payload,
  validate_token, revoke_nonce, revoke_used, refresh_with, refresh_token_pair, exchange_with,
  exchange_pairing_token, revoke_all_tokens, cleanup_expired_revocations, generate_token,
  payload_of,
}
use cdev.Security.Token.Issue.{parse-sealed_any, generate_token-sealed}

module _ (x : TokenCodec) where
  -- A token whose nonce is revoked is refused as revoked, at any time.
  revoked :
      (tm : TokenManager) (now : ℕ) (token : Text) (p : TokenPayload) (at : ℕ)
      → parse_token_payload x tm token ≡ ok p
      → lookup p.nonce tm.revoked_nonces ≡ some at
      → validate_token x tm now token ≡ err token_revoked
  unfolding validate_token
  revoked tm now token p at parsed there = rw (parsed) (rw (there) refl)

  -- What a validation that succeeds has checked.
  pub validated :
      (tm : TokenManager) (now : ℕ) (token : Text) (p : TokenPayload)
      → validate_token x tm now token ≡ ok p
      → (parse_token_payload x tm token ≡ ok p) × (lookup p.nonce tm.revoked_nonces ≡ none)
  unfolding validate_token
  validated tm now token p h = ground arith

  -- The answer of ValidateToken is an error or a payload.
  validate-cases :
      (tm : TokenManager) (now : ℕ) (token : Text)
      → ((e : TokenError) × (validate_token x tm now token ≡ err e))
        ⊎ ((p : TokenPayload) × (validate_token x tm now token ≡ ok p))
  validate-cases tm now token = result_cases (validate_token x tm now token)
    where
      result_cases :
          (r : Result TokenPayload)
          → ((e : TokenError) × (r ≡ err e)) ⊎ ((p : TokenPayload) × (r ≡ ok p))
      result_cases (err e) = inl (e, refl)
      result_cases (ok p) = inr (p, refl)

  -- After a nonce is revoked, its token is refused.
  validate_token-revoke_nonce :
      (tm : TokenManager) (at now : ℕ) (token : Text) (p : TokenPayload)
      → parse_token_payload x tm token ≡ ok p
      → validate_token x (revoke_nonce x tm at p.nonce) now token ≡ err token_revoked
  unfolding parse_token_payload
  validate_token-revoke_nonce tm at now token p parsed =
      revoked (revoke_nonce x tm at p.nonce) now token p at parsed
        (lookup-insert_self p.nonce at tm.revoked_nonces)

  revoke_used-ok :
      (tm tm' : TokenManager) (at : ℕ) (n : Text) (r : Result TokenPair) (pair : TokenPair)
      → revoke_used x tm at n r ≡ (tm', ok pair)
      → tm' ≡ revoke_nonce x tm at n
  revoke_used-ok tm tm' at n (err e) pair h = ground arith
  revoke_used-ok tm tm' at n (ok q) pair h = sym (ap (λ z. z.0) h)

  refresh_with-ok :
      (tm tm' : TokenManager) (reads : Reads) (pair : TokenPair) (p : TokenPayload)
      → refresh_with x tm reads (ok p) ≡ (tm', ok pair)
      → tm' ≡ revoke_nonce x tm reads.revoke_at p.nonce
  refresh_with-ok tm tm' reads pair p h = elim (Bool-cases (same_type p.type refresh)) [
    | inl same_one ↦ elim (Bool-cases (same p.device_id [])) [
      | inl blank ↦ absurd (ground (arith, h, same_one, blank))
      | inr named ↦ revoke_used-ok tm tm' reads.revoke_at p.nonce _ pair (rw (same_one, named) at h)
    ]
    | inr other ↦ absurd (ground (arith, h, other))
  ]

  exchange_with-ok :
      (tm tm' : TokenManager) (reads : Reads) (pair : TokenPair) (p : TokenPayload)
      → exchange_with x tm reads (ok p) ≡ (tm', ok pair)
      → tm' ≡ revoke_nonce x tm reads.revoke_at p.nonce
  exchange_with-ok tm tm' reads pair p h = elim (Bool-cases (same_type p.type pairing)) [
    | inl same_one ↦ revoke_used-ok tm tm' reads.revoke_at p.nonce _ pair (rw (same_one) at h)
    | inr other ↦ absurd (ground (arith, h, other))
  ]

  -- A refresh token works once: in the state that a successful RefreshTokenPair leaves, the token
  -- is refused as revoked by ValidateToken and by RefreshTokenPair, at any time, and the latter
  -- changes nothing.
  pub refresh_token_pair_once :
      (tm tm' : TokenManager) (reads again : Reads) (now : ℕ) (token : Text) (pair : TokenPair)
      → refresh_token_pair x tm reads token ≡ (tm', ok pair)
      → (validate_token x tm' now token ≡ err token_revoked)
        × (refresh_token_pair x tm' again token ≡ (tm', err token_revoked))
  unfolding refresh_token_pair
  refresh_token_pair_once tm tm' reads again now token pair h =
      elim (validate-cases tm reads.validate_at token) [
        | inl (e, bad) ↦ absurd (ground (arith, rw (bad) at h))
        | inr (p, good) ↦
            let made = refresh_with-ok tm tm' reads pair p (rw (good) at h) in
            let (parsed, _) = validated tm reads.validate_at token p good in
            let dead = λ (t : ℕ). validate_token-revoke_nonce tm reads.revoke_at t token p parsed in
            rw (made) (dead now, rw (dead again.validate_at) refl)
      ]

  -- A pairing token works once: in the state that a successful ExchangePairingToken leaves, the
  -- token is refused as revoked by ValidateToken and by ExchangePairingToken, at any time, and the
  -- latter changes nothing.
  pub exchange_pairing_token_once :
      (tm tm' : TokenManager) (reads again : Reads) (now : ℕ) (token : Text) (pair : TokenPair)
      → exchange_pairing_token x tm reads token ≡ (tm', ok pair)
      → (validate_token x tm' now token ≡ err token_revoked)
        × (exchange_pairing_token x tm' again token ≡ (tm', err token_revoked))
  unfolding exchange_pairing_token
  exchange_pairing_token_once tm tm' reads again now token pair h =
      elim (validate-cases tm reads.validate_at token) [
        | inl (e, bad) ↦ absurd (ground (arith, rw (bad) at h))
        | inr (p, good) ↦
            let made = exchange_with-ok tm tm' reads pair p (rw (good) at h) in
            let (parsed, _) = validated tm reads.validate_at token p good in
            let dead = λ (t : ℕ). validate_token-revoke_nonce tm reads.revoke_at t token p parsed in
            rw (made) (dead now, rw (dead again.validate_at) refl)
      ]

-- With distinct nonces, a cleanup keeps a recorded revocation that is not older than the given
-- age, and drops one that is.
pub cleanup_expired_revocations_lem :
    (tm : TokenManager) (now max_age at : ℕ) (nonce : Text)
    → Distinct tm.revoked_nonces
    → lookup nonce tm.revoked_nonces ≡ some at
    → lookup nonce (cleanup_expired_revocations tm now max_age).revoked_nonces
      ≡ (if ltb (at + max_age) now then none else some at)
unfolding cleanup_expired_revocations
cleanup_expired_revocations_lem tm now max_age at nonce d there =
    ground (arith, lookup-retain (λ _ t. not (ltb (t + max_age) now)) nonce tm.revoked_nonces d)

module _ (x : TokenCodec) (laws : CodecLaws x) where
  -- A token generated before a successful RevokeAllTokens is refused as invalid after it, if the
  -- two secrets do not sign its payload alike. The codec has its documented laws.
  pub revoke_all_tokens_lem :
      (tm : TokenManager) (secret token : Text) (now later : ℕ) (nonce : Text) (t : TokenType)
      (secs : ℕ) (device : Text) (expiry : ℕ)
      → generate_token x tm now (some nonce) t secs device ≡ ok (token, expiry)
      → x.hmac tm.server_secret (x.marshal_payload (payload_of x tm now nonce t secs device))
        ≢ x.hmac secret (x.marshal_payload (payload_of x tm now nonce t secs device))
      → validate_token x (revoke_all_tokens tm (some secret) true).0 later token ≡ err invalid_token
  unfolding revoke_all_tokens validate_token
  revoke_all_tokens_lem tm secret token now later nonce t secs device expiry h differ =
      let p = payload_of x tm now nonce t secs device in
      let json = x.marshal_payload p in
      let tm' = (revoke_all_tokens tm (some secret) true).0 in
      let wrong : same (x.hmac tm.server_secret json) (x.hmac secret json) ≡ false =
        elim (Bool-cases (same (x.hmac tm.server_secret json) (x.hmac secret json))) [
          | inl e ↦ absurd (differ (same-eq _ _ e))
          | inr e ↦ e
        ] in
      rw (generate_token-sealed x laws tm now nonce t secs device token expiry h)
        (rw (parse-sealed_any x laws tm tm' p) (rw (wrong) refl))
