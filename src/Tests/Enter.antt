-- ===== src/Tests/Enter.antt =====
-- A login with a password, on a server without a cache.
use auth_manager.Database.Sessions.{save_session, get_active_sessions}
use auth_manager.Security.Tokens.{create_access_token, create_refresh_token}
use auth_manager.Base.Dict.{lookup, insert}
use auth_manager.Auth.Sound.{login_user_sound}
use auth_manager.Tests.{config, plain_jwt}
use auth_manager.Base.Errors.{Result, ok, err}
use auth_manager.Sessions.Api.{Fresh}
use auth_manager.Auth.Login.{Credentials, Response, login_user}
use auth_manager.Auth.{Server}
use auth_manager.Database.Users.{User, get_user_by_identifier}
use auth_manager.Records.{Token}
use auth_manager.Base.{Text, Bool, true, none, ◌≡◌, ◌∷◌, ◌==◌, false, [], some, refl, ◌+◌, nat_eq}

abbrev same : Text → Text
same t = t

abbrev checks : Text → Text → Bool
checks password stored = stored == password + 1

abbrev hash : Token → Text
hash [] = 0
hash (x ∷ xs) = x

abbrev member : User
member = record {
  id = 8;
  email = 9;
  username = 0;
  phone = 0;
  hashed_password = 78;
  role = 3;
  is_active = true;
  mfa_enabled = false;
  mfa_secret = 0;
  mfa_backup_codes = [];
  created_at = 0;
  updated_at = 0;
}

abbrev server : Server
server = record {
  store = record { cache = none; sessions = [] };
  users = record {
    by_id = (8, member) ∷ [];
    by_email = (9, 8) ∷ [];
    by_username = [];
    by_phone = [];
  };
}

abbrev typed : Credentials
typed = record { username = 0; email = 9; phone = 0; password = 77; mfa_code = 0 }

abbrev fresh : Fresh
fresh = record { session_id = 4; device_id = 5; access_jti = 20; refresh_jti = 21 }

abbrev outcome : Result Response
outcome =
    (login_user same same checks hash config (some plain_jwt) (some plain_jwt) none 10 fresh 30 31
      typed server).0

abbrev response : Response
response = elim outcome [
  | ok r ↦ r
  | err e ↦ record { user = member; session_id = none; tokens = none }
]

lets_in : outcome ≡ ok response
unfolding login_user get_user_by_identifier lookup create_access_token create_refresh_token
    save_session get_active_sessions insert
lets_in = refl

login_user_sound_example :
    (u : User) × ((get_user_by_identifier same 0 9 0 server.users).0 ≡ ok (some u))
    × (u.is_active ≡ true)
    × (checks 77 u.hashed_password ≡ true)
    × (response.user ≡ record u { hashed_password = 0; mfa_secret = 0; mfa_backup_codes = [] })
login_user_sound_example =
    login_user_sound same same checks hash config (some plain_jwt) (some plain_jwt) none 10 fresh 30
      31 typed response server lets_in
