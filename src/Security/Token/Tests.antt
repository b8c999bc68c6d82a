-- ===== src/Security/Token/Tests.antt =====
-- Runs of the token manager with a concrete encoding.
use cdev.Base.{◌≡◌, refl, true, List, Option, sym, ◌∙◌, ◌≢◌, ℕ, nat_eq, [], ◌∷◌, none, some}
use cdev.Base.Map.{lookup, insert, erase}
use cdev.Base.Text.{Text, codes, text_eq, list_discrete, same}
use cdev.Security.Token.{
  TokenType, pairing, refresh, invalid_token, token_revoked, err, TokenManager, TokenPair, Reads,
  payload_of, sealed, generate_token, validate_token, parse_token_payload, split_prefix,
  generate_token_pair_with_device_id, refresh_token_pair, exchange_pairing_token, revoke_all_tokens,
}
use cdev.Security.Token.Issue.{answer, issued_pair, validate_token-generate_token}
use cdev.Security.Token.Revoke.{
  refresh_token_pair_once, exchange_pairing_token_once, revoke_all_tokens_lem,
}
use cdev.Security.Token.Overlap.{
  exchanging, refreshing, Server, Action, begins, finishes, acts, Spent, times, acts-Spent,
}
use cdev.Security.Token.PlainCodec.{plain, plain-Laws}

abbrev manager : TokenManager
manager = record {
  server_id = codes "me";
  server_secret = codes "secret";
  revoked_nonces = (codes "old", 5) ∷ [];
  default_expiry_secs = 300;
}

-- The token that the manager issues for a nonce.
abbrev token_of : TokenType → Text
token_of t = sealed plain manager (payload_of plain manager 0 (codes "n0") t 300 (codes "phone"))

abbrev reads : Reads
reads = record {
  validate_at = 1;
  device = some (codes "phone");
  access_draw = some (codes "n1");
  access_at = 2;
  refresh_draw = some (codes "n2");
  refresh_at = 3;
  check_access_at = 4;
  check_refresh_at = 5;
  revoke_at = 6;
}

validate_token-generate_token_example :
    validate_token plain manager 7 (token_of refresh)
    ≡ answer manager 7 (payload_of plain manager 0 (codes "n0") refresh 300 (codes "phone"))
unfolding generate_token
validate_token-generate_token_example =
    validate_token-generate_token plain plain-Laws manager manager 0 7 (codes "n0") refresh 300
      (codes "phone") (token_of refresh) 300000000000 tt refl refl refl

revoke_all_tokens_lem_example :
    validate_token plain
      (revoke_all_tokens manager (some (codes "new")) true).0
      7
      (token_of refresh)
    ≡ err invalid_token
unfolding generate_token
revoke_all_tokens_lem_example =
    revoke_all_tokens_lem plain plain-Laws manager (codes "new") (token_of refresh) 0 7 (codes "n0")
      refresh 300 (codes "phone") 300000000000 refl (λ e. cc)

abbrev phone_pair : TokenPair
phone_pair = issued_pair plain plain-Laws manager reads (codes "phone") (codes "n1") (codes "n2")

abbrev refreshed : TokenManager
refreshed = record manager { revoked_nonces = (codes "old", 5) ∷ (codes "n0", 6) ∷ [] }

refresh_token_pair_once_example :
    (validate_token plain refreshed 9 (token_of refresh) ≡ err token_revoked)
    × (refresh_token_pair plain refreshed reads (token_of refresh) ≡ (refreshed, err token_revoked))
unfolding refresh_token_pair validate_token parse_token_payload split_prefix same lookup
    generate_token_pair_with_device_id generate_token insert
refresh_token_pair_once_example =
    refresh_token_pair_once plain manager refreshed reads reads 9 (token_of refresh) phone_pair refl

exchange_pairing_token_once_example :
    (validate_token plain refreshed 9 (token_of pairing) ≡ err token_revoked)
    × (exchange_pairing_token plain refreshed reads (token_of pairing)
        ≡ (refreshed, err token_revoked))
unfolding exchange_pairing_token validate_token parse_token_payload split_prefix same lookup
    generate_token_pair_with_device_id generate_token insert
exchange_pairing_token_once_example =
    exchange_pairing_token_once plain manager refreshed reads reads 9 (token_of pairing) phone_pair
      refl

abbrev server : Server
server = record { manager = manager; checked = []; granted = [] }

-- The pairing token, again before its use is recorded, and once more after.
abbrev overlapping : List Action
overlapping =
    begins 1 exchanging reads (token_of pairing)
    ∷ begins 2 exchanging reads (token_of pairing)
    ∷ finishes 1 reads
    ∷ finishes 2 reads
    ∷ begins 3 exchanging reads (token_of pairing)
    ∷ finishes 3 reads
    ∷ []

-- Both calls that overlap are granted a pair, the third is not.
overlapping_granted : (acts plain server overlapping).granted ≡ codes "n0" ∷ codes "n0" ∷ []
unfolding acts lookup validate_token parse_token_payload split_prefix same insert
    generate_token_pair_with_device_id generate_token erase
overlapping_granted = refl

abbrev after_use : Server
after_use = record {
  manager = (exchange_pairing_token plain manager reads (token_of pairing)).0;
  checked =
      (1, (refreshing, payload_of plain manager 0 (codes "n7") refresh 300 (codes "phone"))) ∷ [];
  granted = codes "n0" ∷ [];
}

used_at : lookup (codes "n0") after_use.manager.revoked_nonces ≡ some 6
unfolding lookup validate_token parse_token_payload split_prefix same insert
    generate_token_pair_with_device_id generate_token exchange_pairing_token list_discrete
used_at = refl

after_use-Spent : Spent plain (codes "n0") after_use
after_use-Spent = ((λ h. some_ne_none (sym used_at ∙ h)), ((λ h. cc), tt))
  where
    some_ne_none : {n : ℕ} → ◌≢◌ {A = Option ℕ} (some n) none
    some_ne_none h = cc

acts-Spent_example :
    Spent plain (codes "n0") (acts plain after_use overlapping)
    × (times (codes "n0") (acts plain after_use overlapping).granted ≡ 1)
unfolding list_discrete same
acts-Spent_example = acts-Spent plain (codes "n0") after_use overlapping after_use-Spent
