-- ===== src/Security/Token.antt =====
-- internal/security/token.go: signed tokens, their revocation and one-time exchange. What a method
-- reads from the clock (nanoseconds) and the random source (none if it fails) are arguments.
mod Payload
pub mod Issue
pub mod Revoke
pub mod Overlap
pub mod PlainCodec
mod Tests
pub use Payload.*
use cdev.Base.{
  ℕ, ◌+◌, ◌*◌, ◌/◌, ◌-◌, Bool, true, false, ◌&&◌, ◌||◌, not, List, [], ◌++◌, Option, none, some,
  ltb, if◌then◌else◌, is_some, length,
}
use cdev.Base.Text.{Text, codes, same, take, drop, text_eq}
use cdev.Base.Map.{Map, lookup, insert, retain}
use cdev.Security.Token.Payload.{
  TokenType, pairing, session, refresh, access, unknown, local, TokenPayload, TokenError,
  invalid_token, expired_token, invalid_format, token_revoked, random_failed, device_required,
  missing_device, wrong_type, not_persisted, Result, ok, err, TokenCodec, same_type,
}

pub record TokenManager : Type 0 where
  pub server_id : Text
  pub server_secret : Text
  pub revoked_nonces : Map Text ℕ
  pub default_expiry_secs : ℕ

pub record TokenPair : Type 0 where
  pub access_token : Text
  pub access_token_expiry : ℕ
  pub refresh_token : Text
  pub refresh_token_expiry : ℕ
  pub device_id : Text
  pub access_nonce : Text
  pub refresh_nonce : Text

-- What an exchange reads, in the order of the code.
pub record Reads : Type 0 where
  pub validate_at : ℕ
  pub device : Option Text
  pub access_draw : Option Text
  pub access_at : ℕ
  pub refresh_draw : Option Text
  pub refresh_at : ℕ
  pub check_access_at : ℕ
  pub check_refresh_at : ℕ
  pub revoke_at : ℕ

-- time.Second
abbrev pub second : ℕ
second = 1000000000

-- Time.Unix
abbrev pub unix : ℕ → ℕ
unix t = t / second

abbrev pub default_access_token_expiry : ℕ
default_access_token_expiry = 15 * 60

abbrev pub default_refresh_token_expiry : ℕ
default_refresh_token_expiry = 7 * 24 * 3600

abbrev pub pairing_token_prefix : Text
pairing_token_prefix = codes "cdev_p_"

abbrev pub session_token_prefix : Text
session_token_prefix = codes "cdev_s_"

abbrev pub refresh_token_prefix : Text
refresh_token_prefix = codes "cdev_r_"

abbrev pub prefix_of : TokenType → Text
prefix_of pairing = pairing_token_prefix
prefix_of session = session_token_prefix
prefix_of access = session_token_prefix
prefix_of refresh = refresh_token_prefix
prefix_of (unknown _) = session_token_prefix

-- len(token) > len(p) && token[:len(p)] == p
abbrev pub starts : Text → Text → Bool
starts token p = ltb (length p) (length token) && same (take (length p) token) p

-- The switch of parseTokenPayload
unfoldable pub split_prefix : Text → Option (TokenType × Text)
split_prefix token =
    if starts token pairing_token_prefix
    then some (pairing, drop (length pairing_token_prefix) token)
    else (if starts token session_token_prefix
        then some (session, drop (length session_token_prefix) token)
        else (if starts token refresh_token_prefix
            then some (refresh, drop (length refresh_token_prefix) token)
            else none))

-- payload.Type == expectedType, where an access token has the session prefix
abbrev pub valid_type : TokenType → TokenType → Bool
valid_type expected t = same_type t expected || (same_type expected session && same_type t access)

module _ (x : TokenCodec) where
  -- calculateHMAC
  abbrev pub calculate_hmac : TokenManager → Text → Text
  calculate_hmac tm data_bytes = x.hmac tm.server_secret data_bytes

  abbrev pub payload_of : TokenManager → ℕ → Text → TokenType → ℕ → Text → TokenPayload
  payload_of tm now nonce token_type expiry_secs device_id = record {
    version = 1;
    type = token_type;
    server_id = tm.server_id;
    issued_at = unix now;
    expires_at = unix (now + expiry_secs * second);
    nonce = nonce;
    mode = local;
    agent_id = tm.server_id;
    device_id = device_id;
    user_id = [];
  }

  abbrev pub sealed : TokenManager → TokenPayload → Text
  sealed tm payload =
      let json = x.marshal_payload payload in
      prefix_of payload.type
      ++ x.encode (x.marshal_combined (x.encode json) (x.encode (calculate_hmac tm json)))

  -- generateToken: the token and its expiry time
  unfoldable pub generate_token :
      TokenManager → ℕ → Option Text → TokenType → ℕ → Text → Result (Text × ℕ)
  generate_token tm now none token_type expiry_secs device_id = err random_failed
  generate_token tm now (some nonce) token_type expiry_secs device_id = ok (
    sealed tm (payload_of tm now nonce token_type expiry_secs device_id),
    now + expiry_secs * second,
  )

  abbrev pub check_payload : TokenManager → TokenType → Option TokenPayload → Result TokenPayload
  check_payload tm expected none = err invalid_format
  check_payload tm expected (some payload) =
      if not (same payload.server_id tm.server_id)
      then err invalid_token
      else (if valid_type expected payload.type then ok payload else err invalid_format)

  abbrev pub check_signature :
      TokenManager → TokenType → Option Text → Option Text → Result TokenPayload
  check_signature tm expected none _ = err invalid_format
  check_signature tm expected (some _) none = err invalid_format
  check_signature tm expected (some json) (some signature) =
      if not (same signature (calculate_hmac tm json))
      then err invalid_token
      else check_payload tm expected (x.unmarshal_payload json)

  abbrev pub open_combined : TokenManager → TokenType → Option (Text × Text) → Result TokenPayload
  open_combined tm expected none = err invalid_format
  open_combined tm expected (some (p, s)) = check_signature tm expected (x.decode p) (x.decode s)

  abbrev pub open_json : TokenManager → TokenType → Option Text → Result TokenPayload
  open_json tm expected none = err invalid_format
  open_json tm expected (some json) = open_combined tm expected (x.unmarshal_combined json)

  abbrev pub open_prefixed : TokenManager → Option (TokenType × Text) → Result TokenPayload
  open_prefixed tm none = err invalid_format
  open_prefixed tm (some (expected, token_data)) = open_json tm expected (x.decode token_data)

  -- parseTokenPayload
  unfoldable pub parse_token_payload : TokenManager → Text → Result TokenPayload
  parse_token_payload tm token = open_prefixed tm (split_prefix token)

  abbrev pub check_live : TokenManager → ℕ → Result TokenPayload → Result TokenPayload
  check_live tm now (err e) = err e
  check_live tm now (ok payload) =
      if is_some (lookup payload.nonce tm.revoked_nonces)
      then err token_revoked
      else (if ltb payload.expires_at (unix now) then err expired_token else ok payload)

  -- ValidateToken
  unfoldable pub validate_token : TokenManager → ℕ → Text → Result TokenPayload
  validate_token tm now token = check_live tm now (parse_token_payload tm token)

  abbrev pub paired :
      Text → Text × ℕ → Text × ℕ → Result TokenPayload → Result TokenPayload → Result TokenPair
  paired device_id a r (err e) _ = err e
  paired device_id a r (ok _) (err e) = err e
  paired device_id a r (ok access_payload) (ok refresh_payload) = ok (record {
    access_token = a.0;
    access_token_expiry = a.1;
    refresh_token = r.0;
    refresh_token_expiry = r.1;
    device_id = device_id;
    access_nonce = access_payload.nonce;
    refresh_nonce = refresh_payload.nonce;
  })

  abbrev pub pair_of :
      TokenManager → Reads → Text → Result (Text × ℕ) → Result (Text × ℕ) → Result TokenPair
  pair_of tm reads device_id (err e) _ = err e
  pair_of tm reads device_id (ok _) (err e) = err e
  pair_of tm reads device_id (ok a) (ok r) =
      paired device_id a r (validate_token tm reads.check_access_at a.0)
        (validate_token tm reads.check_refresh_at r.0)

  -- GenerateTokenPairWithDeviceID
  unfoldable pub generate_token_pair_with_device_id : TokenManager → Reads → Text → Result TokenPair
  generate_token_pair_with_device_id tm reads device_id =
      if same device_id []
      then err device_required
      else pair_of tm reads device_id
          (generate_token tm reads.access_at reads.access_draw access default_access_token_expiry
            device_id)
          (generate_token tm reads.refresh_at reads.refresh_draw refresh
            default_refresh_token_expiry device_id)

  abbrev pub pair_for : TokenManager → Reads → Option Text → Result TokenPair
  pair_for tm reads none = err random_failed
  pair_for tm reads (some device_id) = generate_token_pair_with_device_id tm reads device_id

  -- GenerateTokenPair
  unfoldable pub generate_token_pair : TokenManager → Reads → Result TokenPair
  generate_token_pair tm reads = pair_for tm reads reads.device

  -- tm.revokedNonces[nonce] = time.Now()
  abbrev pub revoke_nonce : TokenManager → ℕ → Text → TokenManager
  revoke_nonce tm now nonce = record tm { revoked_nonces = insert nonce now tm.revoked_nonces }

  abbrev pub revoke_used :
      TokenManager → ℕ → Text → Result TokenPair → TokenManager × Result TokenPair
  revoke_used tm now nonce (err e) = (tm, err e)
  revoke_used tm now nonce (ok pair) = (revoke_nonce tm now nonce, ok pair)

  abbrev pub refresh_with :
      TokenManager → Reads → Result TokenPayload → TokenManager × Result TokenPair
  refresh_with tm reads (err e) = (tm, err e)
  refresh_with tm reads (ok payload) =
      if not (same_type payload.type refresh)
      then (tm, err wrong_type)
      else (if same payload.device_id []
          then (tm, err missing_device)
          else revoke_used tm reads.revoke_at payload.nonce
              (generate_token_pair_with_device_id tm reads payload.device_id))

  -- RefreshTokenPair
  unfoldable pub refresh_token_pair : TokenManager → Reads → Text → TokenManager × Result TokenPair
  refresh_token_pair tm reads token =
      refresh_with tm reads (validate_token tm reads.validate_at token)

  abbrev pub exchange_with :
      TokenManager → Reads → Result TokenPayload → TokenManager × Result TokenPair
  exchange_with tm reads (err e) = (tm, err e)
  exchange_with tm reads (ok payload) =
      if not (same_type payload.type pairing)
      then (tm, err wrong_type)
      else revoke_used tm reads.revoke_at payload.nonce (pair_for tm reads reads.device)

  -- ExchangePairingToken
  unfoldable pub exchange_pairing_token :
      TokenManager → Reads → Text → TokenManager × Result TokenPair
  exchange_pairing_token tm reads token =
      exchange_with tm reads (validate_token tm reads.validate_at token)

  abbrev pub revoke_parsed :
      TokenManager → ℕ → Result TokenPayload → TokenManager × Option TokenError
  revoke_parsed tm now (err e) = (tm, some e)
  revoke_parsed tm now (ok payload) = (revoke_nonce tm now payload.nonce, none)

  -- RevokeToken
  unfoldable pub revoke_token : TokenManager → ℕ → Text → TokenManager × Option TokenError
  revoke_token tm now token = revoke_parsed tm now (parse_token_payload tm token)

-- RevokeTokenByNonce
unfoldable pub revoke_token_by_nonce : TokenManager → ℕ → Text → TokenManager
revoke_token_by_nonce tm now nonce =
    if same nonce [] then tm else record tm { revoked_nonces = insert nonce now tm.revoked_nonces }

-- RevokeAllTokens: the new secret, if the random source works, and whether it was saved
unfoldable pub revoke_all_tokens :
    TokenManager → Option Text → Bool → TokenManager × Option TokenError
revoke_all_tokens tm none saved = (tm, some random_failed)
revoke_all_tokens tm (some secret) false = (tm, some not_persisted)
revoke_all_tokens tm (some secret) true =
    (record tm { server_secret = secret; revoked_nonces = [] }, none)

-- CleanupExpiredRevocations: revokedAt.Before(now - maxAge)
unfoldable pub cleanup_expired_revocations : TokenManager → ℕ → ℕ → TokenManager
cleanup_expired_revocations tm now max_age = record tm {
  revoked_nonces = retain (λ _ at. not (ltb (at + max_age) now)) tm.revoked_nonces;
}
