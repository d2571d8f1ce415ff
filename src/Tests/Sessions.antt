-- ===== src/Tests/Sessions.antt =====
-- A session that is cached and stored, its revocation, and a password reset beside it.
use auth_manager.Sessions.Stale.{validate_session-update_last_active}
use auth_manager.Sessions.{get_session, update_last_active}
use auth_manager.Auth.Logout.{validate_session-logout_user}
use auth_manager.Auth.{logout_user}
use auth_manager.Sessions.Revoked.{validate_session-revoke}
use auth_manager.Security.Reset.Cached.{found_at-reset_password}
use auth_manager.Sessions.Reading.{found_at, get_session-found_at, as_session}
use auth_manager.Cache.Keys.{session_key, reset_key}
use auth_manager.Base.Errors.{Result, ok}
use auth_manager.Cache.Laws.{entry}
use auth_manager.Cache.Laws.Operations.{entry-set}
use auth_manager.Tests.{plain_encode, config, plain_jwt}
use auth_manager.Security.Reset.{Desk, reset_password}
use auth_manager.Database.Users.{User}
use auth_manager.Base.{
  Text, ◌∷◌, some, ◌≡◌, ◌+◌, true, [], false, ◌*◌, second, none, arith, refl, nat_eq, inl, ◌∙◌, ap,
}
use auth_manager.Sessions.Api.{validate_session}
use auth_manager.Sessions.{Store, session_doc, revoke}
use auth_manager.Cache.{Cache, set, json, empty, Raw}
use auth_manager.Records.{Token, SessionDoc, reset, session, active, from_dict}
use auth_manager.Security.Tokens.{Claims, validate_token, claims_for, access}

abbrev session_claims : Claims
session_claims = claims_for config plain_jwt 0 8 access 900 20 (some 4)

abbrev access_4 : Token
access_4 = plain_encode session_claims

access_valid : validate_token config plain_jwt 10 access_4 access ≡ ok session_claims
unfolding validate_token
access_valid = refl

abbrev hashed : Token → Text
hashed [] = 0
hashed (x ∷ xs) = x

abbrev doc_4 : SessionDoc
doc_4 = record {
  id = 4;
  user_id = 8;
  device_id = 5;
  access_token = access_4;
  refresh_token = 70 ∷ [];
  created_at = 0;
  expires_at = 86400 * second;
  last_active = 0;
  ip_address = none;
  user_agent = none;
  metadata = [];
  status = active;
  revoked_at = none;
}

abbrev warm : Cache
warm = (set 0 (session_key 4) (json (session doc_4)) (some 86400) empty).1

abbrev both : Store
both = record { cache = some warm; sessions = (4, doc_4) ∷ [] }

validate_session-revoke_example :
    (validate_session hashed config plain_jwt 10 access_4 (revoke hashed 5 4 both).1).0 ≡ ok none
validate_session-revoke_example =
    validate_session-revoke hashed config plain_jwt 5 10 4 access_4 session_claims both
      (omega arith) access_valid refl

warm-entry : session_doc (entry 20 (session_key 4) warm).value ≡ some doc_4
warm-entry =
    rw
      (entry-set 0 20 (session_key 4) (session_key 4) empty (omega arith) (json (session doc_4))
        86400 (omega arith))
      refl

abbrev plain_hash : Text → Result Text
plain_hash password = ok (password + 1)

abbrev digest : Text → Text
digest t = t + 100

abbrev same : Text → Text
same t = t

abbrev user : User
user = record {
  id = 8;
  email = 9;
  username = 0;
  phone = 0;
  hashed_password = 55;
  role = 3;
  is_active = true;
  mfa_enabled = false;
  mfa_secret = 0;
  mfa_backup_codes = [];
  created_at = 0;
  updated_at = 0;
}

-- A desk with the reset token 42 of the user.
abbrev desk : Desk
desk = record {
  cache =
      (set 0 (reset_key 142)
        (json (reset (record { user_id = 8; email = 9; token_hash = 142; created_at = 0 })))
        (some 3600) warm).1;
  users = record {
    by_id = (8, user) ∷ [];
    by_email = (9, 8) ∷ [];
    by_username = [];
    by_phone = [];
  };
  sessions = (4, doc_4) ∷ [];
}

abbrev reset_42 : Raw
reset_42 = json (reset (record { user_id = 8; email = 9; token_hash = 142; created_at = 0 }))

desk_entry : session_doc (entry 20 (session_key 4) desk.cache).value ≡ some doc_4
desk_entry =
    rw
      (entry-set 0 20 (session_key 4) (reset_key 142) warm (omega arith) reset_42 3600
        (omega arith))
      warm-entry

found_at-reset_password_example :
    (let s' = (reset_password digest same config plain_hash 10 42 77 desk).1 in
      found_at 20 4 (record { cache = some s'.cache; sessions = s'.sessions }))
    ≡ some doc_4
found_at-reset_password_example =
    found_at-reset_password digest same config plain_hash 10 20 42 77 4 (omega arith) doc_4 desk
      desk_entry

access_valid_later : validate_token config plain_jwt 20 access_4 access ≡ ok session_claims
unfolding validate_token
access_valid_later = refl

-- An access token of the session 5.
abbrev other_claims : Claims
other_claims = claims_for config plain_jwt 0 8 access 900 21 (some 5)

abbrev access_5 : Token
access_5 = plain_encode other_claims

other_valid : validate_token config plain_jwt 10 access_5 access ≡ ok other_claims
unfolding validate_token
other_valid = refl

-- A logout with the token of the session 5 that gives the id 4 ends the session 4.
validate_session-logout_user_example :
    (validate_session hashed config plain_jwt 20 access_4
      (logout_user config hashed true (some plain_jwt) 10 access_5 4 both).1).0
    ≡ ok none
validate_session-logout_user_example =
    validate_session-logout_user hashed config plain_jwt 10 20 access_5 access_4 other_claims
      session_claims 4 4 warm ((4, doc_4) ∷ []) (omega arith) (omega arith) other_valid (inl refl)
      access_valid_later refl

copy_read : (get_session hashed 20 4 both).0 ≡ ok (some (from_dict doc_4))
copy_read =
    let cached_copy : found_at 20 4 both ≡ some doc_4 = rw (warm-entry, found_at) refl in
    get_session-found_at hashed 20 4 both ∙ ap (λ o. ok (as_session o)) cached_copy

access_valid_at_last : validate_token config plain_jwt 30 access_4 access ≡ ok session_claims
unfolding validate_token
access_valid_at_last = refl

-- The copy is read at 20 and written at 22, and the revocation comes at 21.
validate_session-update_last_active_example :
    ((validate_session hashed config plain_jwt 30 access_4 (revoke hashed 21 4 both).1).0 ≡ ok none)
    × ((validate_session hashed config plain_jwt 30 access_4
          (update_last_active hashed 20 22 4 (λ x. (revoke hashed 21 4 x).1) both)).0
        ≡ ok (some (record (from_dict doc_4) { last_active = 22 })))
validate_session-update_last_active_example =
    validate_session-update_last_active hashed config plain_jwt 20 21 22 30 access_4 session_claims
      (from_dict doc_4) both (omega arith) (omega arith) (omega arith) copy_read refl (omega arith)
      (omega arith) access_valid_at_last refl refl
