-- ===== src/Security/Token/Issue.antt =====
-- A token that the manager issues is accepted by it (token.go).
use cdev.Base.{
  ℕ, ◌+◌, ◌*◌, ◌≤◌, ◌<◌, ◌≡◌, ◌≢◌, refl, sym, ◌∙◌, true, false, [], ◌∷◌, ◌++◌, none, some, ltb,
  if◌then◌else◌, is_some, length, arith, length-append, Bool-cases, inl, inr,
}
use cdev.Base.Text.{Text, same, text_eq, same_refl, same-eq, take-append, drop-append}
use cdev.Base.Map.{lookup}
use cdev.Security.Token.{
  TokenType, pairing, session, refresh, access, unknown, TokenPayload, expired_token, token_revoked,
  Result, ok, err, TokenCodec, CodecLaws, TokenManager, TokenPair, Reads, unix, second, prefix_of,
  pairing_token_prefix, session_token_prefix, refresh_token_prefix, starts, split_prefix,
  valid_type, payload_of, sealed, generate_token, check_signature, parse_token_payload,
  validate_token, calculate_hmac, generate_token_pair_with_device_id, default_access_token_expiry,
  default_refresh_token_expiry,
}

-- One of the four declared types.
abbrev pub IsDeclared : TokenType → Type 0
IsDeclared (unknown _) = ⊥
IsDeclared _ = Unit

-- The type that the prefix stands for.
abbrev pub expected_of : TokenType → TokenType
expected_of pairing = pairing
expected_of refresh = refresh
expected_of _ = session

length_pos : (d : Text) → d ≢ [] → 0 < length d
length_pos [] h = absurd (h refl)
length_pos (c ∷ d) h = omega arith

starts_own : (p d : Text) → d ≢ [] → starts (p ++ d) p ≡ true
starts_own p d h =
    rw (take-append p d) (rw (length-append p d) (ground (arith, same_refl p, length_pos d h)))

starts_other : (p q d : Text) → length p ≡ length q → same q p ≡ false → starts (q ++ d) p ≡ false
starts_other p q d e h = rw (e) (rw (take-append q d) (ground (arith, h)))

split_pairing : (d : Text) → d ≢ [] → split_prefix (pairing_token_prefix ++ d) ≡ some (pairing, d)
unfolding split_prefix
split_pairing d h =
    rw (starts_own pairing_token_prefix d h) (rw (drop-append pairing_token_prefix d))

split_session : (d : Text) → d ≢ [] → split_prefix (session_token_prefix ++ d) ≡ some (session, d)
unfolding split_prefix
split_session d h =
    rw (starts_other pairing_token_prefix session_token_prefix d refl (unfold same in refl))
      (rw (starts_own session_token_prefix d h) (rw (drop-append session_token_prefix d)))

split_refresh : (d : Text) → d ≢ [] → split_prefix (refresh_token_prefix ++ d) ≡ some (refresh, d)
unfolding split_prefix
split_refresh d h =
    rw (starts_other pairing_token_prefix refresh_token_prefix d refl (unfold same in refl)) (
      rw (starts_other session_token_prefix refresh_token_prefix d refl (unfold same in refl))
        (rw (starts_own refresh_token_prefix d h) (rw (drop-append refresh_token_prefix d))))

pub split_prefix-append :
    (t : TokenType) (d : Text) → d ≢ [] → split_prefix (prefix_of t ++ d) ≡ some (expected_of t, d)
split_prefix-append pairing d h = split_pairing d h
split_prefix-append session d h = split_session d h
split_prefix-append access d h = split_session d h
split_prefix-append refresh d h = split_refresh d h
split_prefix-append (unknown s) d h = split_session d h

-- What the manager answers for a token with a payload, at a time.
abbrev pub answer : TokenManager → ℕ → TokenPayload → Result TokenPayload
answer tm now p =
    if is_some (lookup p.nonce tm.revoked_nonces)
    then err token_revoked
    else (if ltb p.expires_at (unix now) then err expired_token else ok p)

expected-valid : (t : TokenType) → IsDeclared t → valid_type (expected_of t) t ≡ true
expected-valid pairing h = refl
expected-valid session h = refl
expected-valid refresh h = refl
expected-valid access h = refl
expected-valid (unknown s) h = absurd h

module _ (x : TokenCodec) (laws : CodecLaws x) where
  -- What the parse of a sealed token leads to, for any manager.
  pub parse-sealed_any :
      (tm tm' : TokenManager) (p : TokenPayload)
      → parse_token_payload x tm' (sealed x tm p)
        ≡ check_signature x tm'
            (expected_of p.type)
            (some (x.marshal_payload p))
            (some (calculate_hmac x tm (x.marshal_payload p)))
  unfolding parse_token_payload
  parse-sealed_any tm tm' p =
      let json = x.marshal_payload p in
      let mac = calculate_hmac x tm json in
      rw (split_prefix-append p.type _ (laws.object_full (x.encode json) (x.encode mac))) (
        rw (laws.decode_back (x.marshal_combined (x.encode json) (x.encode mac))) (
          rw (laws.combined_back (x.encode json) (x.encode mac))
            (rw (laws.decode_back json) (rw (laws.decode_back mac) refl))))

  parse-sealed :
      (tm : TokenManager) (p : TokenPayload)
      → IsDeclared p.type
      → p.server_id ≡ tm.server_id
      → parse_token_payload x tm (sealed x tm p) ≡ ok p
  parse-sealed tm p d e =
      let json = x.marshal_payload p in
      parse-sealed_any tm tm p
      ∙ rw (same_refl (calculate_hmac x tm json)) (
          rw (laws.payload_back p)
            (rw (e) (rw (same_refl tm.server_id) (rw (expected-valid p.type d)))))

  pub generate_token-sealed :
      (tm : TokenManager) (now : ℕ) (nonce : Text) (t : TokenType) (secs : ℕ) (device token : Text)
      (expiry : ℕ)
      → generate_token x tm now (some nonce) t secs device ≡ ok (token, expiry)
      → token ≡ sealed x tm (payload_of x tm now nonce t secs device)
  unfolding generate_token
  generate_token-sealed tm now nonce t secs device token expiry h = cc

  sealed-secret :
      (tm tm' : TokenManager) (p : TokenPayload)
      → tm'.server_secret ≡ tm.server_secret
      → sealed x tm p ≡ sealed x tm' p
  sealed-secret tm tm' p h = rw (h)

  -- A token generated for a declared type is validated, by a manager with the same server id and
  -- secret, with its own payload, unless its nonce is revoked (refused as revoked) or its expiry
  -- second is over (refused as expired). The codec has its documented laws.
  pub validate_token-generate_token :
      (tm later_tm : TokenManager) (now later : ℕ) (nonce : Text) (t : TokenType) (secs : ℕ)
      (device token : Text) (expiry : ℕ)
      → IsDeclared t
      → later_tm.server_id ≡ tm.server_id
      → later_tm.server_secret ≡ tm.server_secret
      → generate_token x tm now (some nonce) t secs device ≡ ok (token, expiry)
      → validate_token x later_tm later token
        ≡ answer later_tm later (payload_of x tm now nonce t secs device)
  unfolding validate_token
  validate_token-generate_token tm later_tm now later nonce t secs device token expiry d same_id
        same_secret h =
      let p = payload_of x tm now nonce t secs device in
      rw (generate_token-sealed tm now nonce t secs device token expiry h) (
        rw (sealed-secret tm later_tm p same_secret) (rw (parse-sealed later_tm p d (sym same_id))))

  -- A fresh token of a declared type is accepted until it expires.
  accepted :
      (tm : TokenManager) (now later : ℕ) (nonce : Text) (t : TokenType) (secs : ℕ) (device : Text)
      → IsDeclared t
      → lookup nonce tm.revoked_nonces ≡ none
      → unix later ≤ unix (now + secs * second)
      → validate_token x tm later (sealed x tm (payload_of x tm now nonce t secs device))
        ≡ ok (payload_of x tm now nonce t secs device)
  unfolding validate_token
  accepted tm now later nonce t secs device d fresh live =
      let p = payload_of x tm now nonce t secs device in
      rw (parse-sealed tm p d refl) (rw (fresh) (ground (arith, live)))

  -- The pair that is issued for a device with two nonces.
  abbrev pub issued_pair : TokenManager → Reads → Text → Text → Text → TokenPair
  issued_pair tm reads device a r = record {
    access_token =
        sealed x tm (payload_of x tm reads.access_at a access default_access_token_expiry device);
    access_token_expiry = reads.access_at + default_access_token_expiry * second;
    refresh_token =
        sealed x tm
          (payload_of x tm reads.refresh_at r refresh default_refresh_token_expiry device);
    refresh_token_expiry = reads.refresh_at + default_refresh_token_expiry * second;
    device_id = device;
    access_nonce = a;
    refresh_nonce = r;
  }

  -- For a device id that is not empty, two nonces that are drawn and not revoked, and clock
  -- readings that check each new token before its expiry second is over,
  -- GenerateTokenPairWithDeviceID succeeds, and the pair has those nonces and that device. The
  -- codec has its documented laws.
  pub generate_token_pair_with_device_id_lem :
      (tm : TokenManager) (reads : Reads) (device a r : Text)
      → device ≢ []
      → reads.access_draw ≡ some a
      → reads.refresh_draw ≡ some r
      → lookup a tm.revoked_nonces ≡ none
      → lookup r tm.revoked_nonces ≡ none
      → unix reads.check_access_at ≤ unix (reads.access_at + default_access_token_expiry * second)
      → unix reads.check_refresh_at
        ≤ unix (reads.refresh_at + default_refresh_token_expiry * second)
      → (pair : TokenPair) × (generate_token_pair_with_device_id x tm reads device ≡ ok pair)
        × (pair.access_nonce ≡ a)
        × (pair.refresh_nonce ≡ r)
        × (pair.device_id ≡ device)
  unfolding generate_token_pair_with_device_id generate_token
  generate_token_pair_with_device_id_lem tm reads device a r full ha hr fa fr la lr =
      let pa = payload_of x tm reads.access_at a access default_access_token_expiry device in
      let pr = payload_of x tm reads.refresh_at r refresh default_refresh_token_expiry device in
      let va =
        accepted tm reads.access_at reads.check_access_at a access default_access_token_expiry
          device tt fa la in
      let vr =
        accepted tm reads.refresh_at reads.check_refresh_at r refresh default_refresh_token_expiry
          device tt fr lr in
      let named : same device [] ≡ false = elim (Bool-cases (same device [])) [
        | inl e ↦ absurd (full (same-eq device [] e))
        | inr e ↦ e
      ] in
      (
        issued_pair tm reads device a r,
        rw (named) (rw (ha) (rw (hr) (rw (va) (rw (vr) refl)))),
        refl,
        refl,
        refl,
      )
