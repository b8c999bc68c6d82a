-- ===== src/Security/Token/PlainCodec.antt =====
-- An encoding with the laws that the token manager relies on: a text is written after its length.
use cdev.Base.{ℕ, zero, suc, ◌≡◌, refl, ap, [], ◌∷◌, ◌++◌, Option, none, some, length}
use cdev.Base.Text.{Text, text_eq, take, drop, take-append, drop-append}
use cdev.Security.Token.{
  TokenType, pairing, session, refresh, access, unknown, local, cloud, TokenMode, TokenPayload,
  TokenCodec, CodecLaws,
}

abbrev put : Text → Text → Text
put t rest = length t ∷ t ++ rest

abbrev get : Text → Text × Text
get [] = ([], [])
get (n ∷ s) = (take n s, drop n s)

get-put : (t rest : Text) → get (put t rest) ≡ (t, rest)
get-put t rest = rw (take-append t rest) (rw (drop-append t rest) refl)

abbrev put_type : TokenType → Text → Text
put_type pairing rest = 0 ∷ put [] rest
put_type session rest = 1 ∷ put [] rest
put_type refresh rest = 2 ∷ put [] rest
put_type access rest = 3 ∷ put [] rest
put_type (unknown s) rest = 4 ∷ put s rest

abbrev type_from : ℕ → Text → TokenType
type_from zero s = pairing
type_from (suc zero) s = session
type_from (suc (suc zero)) s = refresh
type_from (suc (suc (suc zero))) s = access
type_from (suc (suc (suc (suc n)))) s = unknown s

abbrev get_type : Text → TokenType × Text
get_type [] = (pairing, [])
get_type (k ∷ s) = (type_from k (get s).0, (get s).1)

get_type-put : (t : TokenType) (rest : Text) → get_type (put_type t rest) ≡ (t, rest)
get_type-put pairing rest = refl
get_type-put session rest = refl
get_type-put refresh rest = refl
get_type-put access rest = refl
get_type-put (unknown s) rest = rw (take-append s rest) (rw (drop-append s rest) refl)

abbrev put_mode : TokenMode → Text → Text
put_mode local rest = 0 ∷ rest
put_mode cloud rest = 1 ∷ rest

abbrev get_mode : Text → TokenMode × Text
get_mode [] = (local, [])
get_mode (zero ∷ s) = (local, s)
get_mode (suc n ∷ s) = (cloud, s)

get_mode-put : (m : TokenMode) (rest : Text) → get_mode (put_mode m rest) ≡ (m, rest)
get_mode-put local rest = refl
get_mode-put cloud rest = refl

abbrev write : TokenPayload → Text
write p =
    p.version
    ∷ p.issued_at
    ∷ p.expires_at
    ∷ put_type p.type (
        put_mode p.mode
          (put p.server_id (put p.nonce (put p.agent_id (put p.device_id (put p.user_id []))))))

abbrev read_texts : ℕ → ℕ → ℕ → TokenType → TokenMode → Text → TokenPayload
read_texts v i e t m s0 =
    let (server, s1) = get s0 in
    let (nonce, s2) = get s1 in
    let (agent, s3) = get s2 in
    let (device, s4) = get s3 in
    let (user, s5) = get s4 in
    record {
      version = v;
      type = t;
      server_id = server;
      issued_at = i;
      expires_at = e;
      nonce = nonce;
      mode = m;
      agent_id = agent;
      device_id = device;
      user_id = user;
    }

abbrev read_typed : ℕ → ℕ → ℕ → TokenType × Text → TokenPayload
read_typed v i e (t, s) = read_texts v i e t (get_mode s).0 (get_mode s).1

abbrev read : Text → Option TokenPayload
read (v ∷ i ∷ e ∷ s) = some (read_typed v i e (get_type s))
read _ = none

read-write : (p : TokenPayload) → read (write p) ≡ some p
read-write p =
    let r5 = put p.user_id [] in
    let r4 = put p.device_id r5 in
    let r3 = put p.agent_id r4 in
    let r2 = put p.nonce r3 in
    let r1 = put p.server_id r2 in
    rw (get_type-put p.type (put_mode p.mode r1)) (
      rw (get_mode-put p.mode r1) (
        rw (take-append p.server_id r2) (
          rw (drop-append p.server_id r2) (
            rw (take-append p.nonce r3) (
              rw (drop-append p.nonce r3) (
                rw (take-append p.agent_id r4) (
                  rw (drop-append p.agent_id r4) (
                    rw (take-append p.device_id r5)
                      (rw (drop-append p.device_id r5) (rw (take-append p.user_id []) refl))))))))))

abbrev pub plain : TokenCodec
plain = record {
  marshal_payload = write;
  unmarshal_payload = read;
  marshal_combined = λ p s. put p s;
  unmarshal_combined = λ t. some (get t);
  encode = λ t. t;
  decode = λ t. some t;
  hmac = λ secret data_bytes. put secret data_bytes;
}

pub plain-Laws : CodecLaws plain
plain-Laws = record {
  payload_back = read-write;
  combined_back = λ p s. ap (λ z. some z) (get-put p s);
  decode_back = λ t. refl;
  object_full = λ p s e. cc;
}
