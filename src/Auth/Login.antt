-- ===== src/Auth/Login.antt =====
-- tessera/core/auth_manager.py: `login_user`, for users without a legacy `password_algorithm`.
use auth_manager.Sessions.{Store}
use auth_manager.Security.RateLimit.{
  record_login_failure, enforce_login_rate_limit, clear_login_failures,
}
use auth_manager.Sessions.Api.{create_session, Fresh}
use auth_manager.Security.Tokens.{Jwt}
use auth_manager.Config.{AuthConfig}
use auth_manager.Records.{Token}
use auth_manager.Auth.{
  TokenPair, not, authentication_error, none, Token, AuthConfig, Jwt, false, ℕ, Action, Server,
  limited, issue_token_pair, raise_if, Store, ok, pure, in_users, err, in_store,
}
use auth_manager.Base.Dict.{Dict}
use auth_manager.Database.Users.{User, get_user_by_identifier}
use auth_manager.Base.Errors.{
  Error, authentication_error, rate_limit_error, token_error, Action, code_invalid,
  too_many_attempts, ◌>>◌, raise_if, value_error, config_error, mfa_required, raise, not_found,
  ◌>>=◌, ok, pure, integrity_error, err, permission_error, authentication_failed, provider_error,
  code_expired, key_error,
}
use auth_manager.Base.{
  Text, Option, if◌then◌else◌, Bool, some, ◌∷◌, not, none, [], ◌==◌, true, ◌&&◌, nat_eq, false, ℕ,
  ◌||◌,
}

-- `_normalize_identifier`
pub normalize_identifier : (Text → Text) → (Text → Text) → Text → Text → Text → Text
normalize_identifier lower strip username email phone =
    if not (email == 0)
    then lower (strip email)
    else if not (username == 0)
    then lower (strip username)
    else if phone == 0
    then 0
    else strip phone

-- `_authenticate_password`
unfoldable pub authenticate_password : (Text → Text → Bool) → Text → Option User → Option User
authenticate_password verify password none = none
authenticate_password verify password (some u) =
    if not (u.hashed_password == 0) && verify password u.hashed_password then some u else none

-- `sanitize_user`: the fields that must not leave are gone.
unfoldable pub sanitize_user : User → User
sanitize_user u = record u { hashed_password = 0; mfa_secret = 0; mfa_backup_codes = [] }

-- The errors of the MFA manager that count as a failed login.
abbrev pub counts_as_failure : Error → Bool
counts_as_failure (authentication_error code) = true
counts_as_failure (rate_limit_error after) = true
counts_as_failure value_error = false
counts_as_failure config_error = false
counts_as_failure not_found = false
counts_as_failure integrity_error = false
counts_as_failure permission_error = false
counts_as_failure provider_error = false
counts_as_failure key_error = false
counts_as_failure (token_error code) = false
counts_as_failure code_expired = false
counts_as_failure (code_invalid left) = false
counts_as_failure (too_many_attempts after) = false

abbrev pub is_usable : Option User → Option User
is_usable none = none
is_usable (some u) = if u.is_active then some u else none

pub record Credentials : Type 0 where
  pub username : Text
  pub email : Text
  pub phone : Text
  pub password : Text
  pub mfa_code : Text

pub record Response : Type 0 where
  pub user : User
  pub session_id : Option Text
  pub tokens : Option TokenPair

-- The code of the device info `{"auth_method": "password"}`.
abbrev pub password_device : Dict Text Text
password_device = (2, 3) ∷ []

module _ (lower strip : Text → Text) (verify : Text → Text → Bool) (token_hash : Token → Text)
    (cfg : AuthConfig) (session_jwt token_manager : Option (Jwt cfg))
    (mfa_manager : Option (ℕ → Credentials → Action Server (Unit {0}))) where
  abbrev pub fail_login : ℕ → Text → Error → {A : Type 0} → Action Server A
  fail_login now identifier e = do limited (record_login_failure cfg now identifier); raise e

  -- The MFA gate: an error of the MFA manager is raised again once it is counted.
  pub mfa_gate : ℕ → Text → Credentials → User → Action Server (Unit {0})
  mfa_gate now identifier given u =
      if u.mfa_enabled || cfg.mfa_required
      then (do
        raise_if (given.mfa_code == 0) (authentication_error mfa_required)
        elim mfa_manager [
          | none ↦ raise config_error
          | some verify_mfa_code ↦ λ s.
              let (r, s') = verify_mfa_code now given s in
              elim r [
                | ok done ↦ (ok tt, s')
                | err e ↦
                    if counts_as_failure e then fail_login now identifier e s' else (err e, s')
              ]
        ])
      else pure tt

  -- The session and the tokens of a login that is let through.
  unfoldable pub complete_login : ℕ → Fresh → Text → Text → User → Action Store Response
  unfolding create_session issue_token_pair sanitize_user
  complete_login now fresh a b u = do
    session_id ← (elim session_jwt [
      | none ↦ pure none
      | some jwt ↦ (do
        s ← create_session token_hash cfg jwt now fresh u.id password_device none none
        pure (some s.id))
    ])
    tokens ← issue_token_pair cfg token_manager now a b u.id session_id
    pure (record { user = sanitize_user u; session_id = session_id; tokens = tokens })

  -- What `login_user` does with the user that it found.
  abbrev pub enter :
      ℕ → Text → Fresh → Text → Text → Credentials → Option User → Action Server Response
  enter now identifier fresh a b given found =
      elim (is_usable (authenticate_password verify given.password found)) [
        | none ↦ fail_login now identifier (authentication_error authentication_failed)
        | some u ↦ (do
          mfa_gate now identifier given u
          limited (clear_login_failures cfg now identifier)
          in_store (complete_login now fresh a b u))
      ]

  unfoldable pub login_user : ℕ → Fresh → Text → Text → Credentials → Action Server Response
  unfolding normalize_identifier authenticate_password mfa_gate complete_login
  login_user now fresh a b given = do
    let identifier = normalize_identifier lower strip given.username given.email given.phone
    raise_if (given.password == 0 || identifier == 0) value_error
    limited (enforce_login_rate_limit cfg now identifier)
    found ← in_users (get_user_by_identifier lower given.username given.email given.phone)
    enter now identifier fresh a b given found
