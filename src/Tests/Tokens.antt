-- ===== src/Tests/Tokens.antt =====
-- Tokens of the plain JWT library, a password reset and a rotation.
use auth_manager.Cache.Keys.{refresh_ledger_key}
use auth_manager.Auth.Rotation.{refresh_token-once}
use auth_manager.Auth.{refresh_token}
use auth_manager.Security.Reset.SingleUse.{request_password_reset-consume, consume_reset_token-once}
use auth_manager.Base.Dict.{lookup}
use auth_manager.Base.Errors.{Result, ok, err, authentication_error, refresh_token_reused}
use auth_manager.Cache.{empty, Cache, set, text}
use auth_manager.Security.Reset.{Desk, consume_reset_token, request_password_reset}
use auth_manager.Database.Users.{User, get_user_by_identifier, identify}
use auth_manager.Base.{Text, ◌≡◌, ◌+◌, true, false, ◌∷◌, [], some, none, ◌≢◌, refl, arith}
use auth_manager.Tests.{plain_decode, plain_encode, config, plain_jwt, config-IsValid}
use auth_manager.Records.{Token, ResetRecord}
use auth_manager.Security.Tokens.{
  Claims, validate_token, claims_for, decoded, refresh, access, validate_token_sound, no_additional,
  issue,
}

abbrev refresh_claims : Claims
refresh_claims = claims_for config plain_jwt 0 8 refresh 604800 21 none

abbrev refresh_8 : Token
refresh_8 = plain_encode refresh_claims

abbrev access_8 : Token
access_8 = plain_encode (claims_for config plain_jwt 0 8 access 900 20 none)

access_issued : issue config plain_jwt 0 20 8 access 900 none no_additional ≡ ok (access_8, 20)
unfolding issue
access_issued = refl

refresh_valid :
    (validate_token config plain_jwt 10 refresh_8 refresh ≡ ok refresh_claims)
    × (validate_token config plain_jwt 20 refresh_8 refresh ≡ ok refresh_claims)
unfolding validate_token
refresh_valid = (refl, refl)

-- The ledger entry that the issue of the token left.
abbrev ledger : Cache
ledger = (set 0 (refresh_ledger_key 21) (text 8) (some 604800) empty).1

validate_token_sound_example :
    (plain_decode 10 refresh_8 ≡ decoded refresh_claims)
    × (refresh_claims.type ≡ refresh)
    × (refresh_claims.sub ≢ 0)
validate_token_sound_example =
    validate_token_sound config plain_jwt 10 refresh_8 refresh refresh_claims refresh_valid.0

-- The second use of a refresh token that the ledger knows.
refresh_token-once_example :
    (refresh_token config
      (some plain_jwt)
      20
      32
      33
      refresh_8
      (refresh_token config (some plain_jwt) 10 30 31 refresh_8 (some ledger)).1).0
    ≡ err (authentication_error refresh_token_reused)
refresh_token-once_example =
    refresh_token-once config plain_jwt 10 20 30 31 32 33 refresh_8 refresh_claims ledger
      (omega arith) config-IsValid (omega arith) refresh_valid.0 refresh_valid.1

abbrev digest : Text → Text
digest t = t + 100

abbrev same : Text → Text
same t = t

abbrev user : User
user = record {
  id = 8;
  email = 9;
  username = 0;
  phone = 0;
  hashed_password = 55;
  role = 3;
  is_active = true;
  mfa_enabled = false;
  mfa_secret = 0;
  mfa_backup_codes = [];
  created_at = 0;
  updated_at = 0;
}

abbrev desk : Desk
desk = record {
  cache = empty;
  users = record {
    by_id = (8, user) ∷ [];
    by_email = (9, 8) ∷ [];
    by_username = [];
    by_phone = [];
  };
  sessions = [];
}

abbrev sent : Text → Text → Result (Unit {0})
sent recipient token = ok tt

abbrev issued_record : ResetRecord
issued_record = record { user_id = 8; email = 9; token_hash = 142; created_at = 0 }

abbrev asked : Desk
asked = (request_password_reset digest same config sent 0 42 9 0 0 desk).1

found_user : (get_user_by_identifier same 0 9 0 desk.users).0 ≡ ok (some user)
unfolding get_user_by_identifier identify lookup
found_user = refl

-- The reset token 42 of the user with the address 9, ten microseconds later.
request_password_reset-consume_example :
    (consume_reset_token digest 10 42 asked.cache).0 ≡ ok (some issued_record)
request_password_reset-consume_example =
    request_password_reset-consume digest same config sent 0 10 42 9 0 0 user desk (omega arith)
      (omega arith) (omega arith) found_user (omega arith)

consume_reset_token-once_example :
    (consume_reset_token digest 20 42 (consume_reset_token digest 10 42 asked.cache).1).0 ≡ ok none
consume_reset_token-once_example =
    consume_reset_token-once digest 10 20 42 asked.cache issued_record (omega arith)
      request_password_reset-consume_example
