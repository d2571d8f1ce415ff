-- ===== src/Security/Reset.antt =====
-- tessera/utils/security.py, `class SecurityManager`: password resets. `digest` is SHA-256, `lower` is
-- `str.lower`, `hash_password` is the configured password hash and `send` is the email dispatcher.
pub mod Cached
pub mod SingleUse
use auth_manager.Cache.Keys.{reset_key}
use auth_manager.Records.{ResetRecord, session, reset, sms, magic, tokenpair, pending_secret}
use auth_manager.Config.{AuthConfig}
use auth_manager.Database.Sessions.{Table, revoke_all_user_sessions}
use auth_manager.Database.Users.{UserUpdates, Users, get_user_by_identifier, update_user}
use auth_manager.Base.{
  Option, Text, false, ℕ, some, none, ◌≤◌, if◌then◌else◌, ◌≡◌, ◌==◌, ◌&&◌, nat_eq,
}
use auth_manager.Base.Errors.{
  Action, Result, ◌>>◌, raise_if, ok, value_error, ◌>>=◌, call, raise, pure, authentication_error,
  reset_token_invalid,
}
use auth_manager.Cache.{Cache, Raw, num, text, json, get, set, delete}

-- What the manager reads and writes: the cache and the tables of the database.
pub record Desk : Type 0 where
  pub cache : Cache
  pub users : Users
  pub sessions : Table

abbrev pub in_cache : {A : Type 0} → Action Cache A → Action Desk A
in_cache m s = let (r, c) = m s.cache in (r, record s { cache = c })

abbrev pub in_users : {A : Type 0} → Action Users A → Action Desk A
in_users m s = let (r, u) = m s.users in (r, record s { users = u })

abbrev pub in_sessions : {A : Type 0} → Action Table A → Action Desk A
in_sessions m s = let (r, t) = m s.sessions in (r, record s { sessions = t })

-- The record under a reset key; these keys hold nothing else.
abbrev pub reset_doc : Option Raw → Option ResetRecord
reset_doc none = none
reset_doc (some (num n)) = none
reset_doc (some (text t)) = none
reset_doc (some (json (session d))) = none
reset_doc (some (json (reset r))) = some r
reset_doc (some (json (sms r))) = none
reset_doc (some (json (magic r))) = none
reset_doc (some (json (tokenpair a r))) = none
reset_doc (some (json (pending_secret t n))) = none

abbrev pub no_updates : UserUpdates
no_updates = record {
  immutable = false;
  email = none;
  username = none;
  phone = none;
  hashed_password = none;
  role = none;
  is_active = none;
  mfa_enabled = none;
  mfa_secret = none;
  mfa_backup_codes = none;
}

module _ (digest : Text → Text) where
  -- With the fresh token. A message goes out only where the account has an email address.
  pub request_password_reset :
      (Text → Text)
      → AuthConfig
      → (Text → Text → Result (Unit {0}))
      → ℕ
      → Text
      → Text
      → Text
      → Text
      → Action Desk (Unit {0})
  request_password_reset lower cfg send now reset_token email username phone = do
    raise_if (email == 0 && username == 0 && phone == 0) value_error
    user ← in_users (get_user_by_identifier lower username email phone)
    elim user [
      | none ↦ pure tt
      | some u ↦ if u.email == 0 then pure tt else (do
        in_cache (
            set now (reset_key (digest reset_token))
              (json (
                reset (record {
                  user_id = u.id;
                  email = u.email;
                  token_hash = digest reset_token;
                  created_at = now;
                })))
              (some cfg.reset_token_ttl_seconds))
        λ s. (send u.email reset_token, s))
    ]

  -- The record of a token, if its stored hash is the token's.
  abbrev pub matching : Text → Option ResetRecord → Option ResetRecord
  matching token none = none
  matching token (some r) = if r.token_hash == digest token then some r else none

  unfoldable validate_reset_token : ℕ → Text → Action Cache (Option ResetRecord)
  validate_reset_token now token = do
    raise_if (token == 0) value_error
    raw ← call (get now (reset_key (digest token)))
    pure (matching token (reset_doc raw))

  pub consume_reset_token : ℕ → Text → Action Cache (Option ResetRecord)
  consume_reset_token now token = do
    raise_if (token == 0) value_error
    raw ← call (get now (reset_key (digest token)))
    elim (matching token (reset_doc raw)) [
      | none ↦ pure none
      | some r ↦ (do call (delete now (reset_key (digest token))); pure (some r))
    ]

  pub reset_password :
      (Text → Text) → AuthConfig → (Text → Result Text) → ℕ → Text → Text → Action Desk (Unit {0})
  unfolding consume_reset_token
  reset_password lower cfg hash_password now token new_password = do
    raise_if (new_password == 0) value_error
    found ← in_cache (consume_reset_token now token)
    elim found [
      | none ↦ raise (authentication_error reset_token_invalid)
      | some r ↦ (do
        hashed ← (λ s. (hash_password new_password, s))
        in_users
            (update_user lower now r.user_id (record no_updates { hashed_password = some hashed }))
        if cfg.revoke_sessions_on_password_change
            then (do in_sessions (call (revoke_all_user_sessions now r.user_id)); pure tt)
            else pure tt)
    ]
