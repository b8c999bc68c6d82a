-- ===== src/Security/Token/Payload.antt =====
-- internal/security/token.go: what a token carries, and the encodings that the Go library provides.
use cdev.Base.{ℕ, ◌≡◌, ◌≢◌, Bool, true, false, Option, some, []}
use cdev.Base.Text.{Text, same}

-- TokenType: the declared constants, and any other string that a payload may hold
pub data TokenType : Type 0 where
  pairing session refresh access : TokenType
  unknown : Text → TokenType

pub data TokenMode : Type 0 where
  local cloud : TokenMode

pub record TokenPayload : Type 0 where
  pub version : ℕ
  pub type : TokenType
  pub server_id : Text
  pub issued_at : ℕ
  pub expires_at : ℕ
  pub nonce : Text
  pub mode : TokenMode
  pub agent_id : Text
  pub device_id : Text
  pub user_id : Text

pub data TokenError : Type 0 where
  invalid_token expired_token invalid_format token_revoked : TokenError
  random_failed device_required missing_device wrong_type not_persisted : TokenError

pub data Result {ℓ} (A : Type ℓ) : Type ℓ where
  ok : A → Result A
  err : TokenError → Result A

-- encoding/json, encoding/base64 (RawURLEncoding) and crypto/hmac with SHA-256. Marshal does not
-- fail on the structs at hand.
pub record TokenCodec : Type 0 where
  pub marshal_payload : TokenPayload → Text
  pub unmarshal_payload : Text → Option TokenPayload
  pub marshal_combined : Text → Text → Text
  pub unmarshal_combined : Text → Option (Text × Text)
  pub encode : Text → Text
  pub decode : Text → Option Text
  pub hmac : Text → Text → Text

-- What the Go library documents of them: decoding undoes encoding, and an object is not empty.
pub record CodecLaws (x : TokenCodec) : Type 0 where
  pub payload_back : (p : TokenPayload) → x.unmarshal_payload (x.marshal_payload p) ≡ some p
  pub combined_back : (p s : Text) → x.unmarshal_combined (x.marshal_combined p s) ≡ some (p, s)
  pub decode_back : (t : Text) → x.decode (x.encode t) ≡ some t
  pub object_full : (p s : Text) → x.encode (x.marshal_combined p s) ≢ []

-- payload.Type == expectedType
abbrev pub same_type : TokenType → TokenType → Bool
same_type pairing pairing = true
same_type session session = true
same_type refresh refresh = true
same_type access access = true
same_type (unknown s) (unknown t) = same s t
same_type _ _ = false
