-- ===== src/Mfa.antt =====
-- tessera/mfa/mfa_setup.py, `class MFAAuthManager`. `totp` is `pyotp.TOTP(secret).verify(code)` at a time,
-- `hash_code` is `_hash_backup_code`. The random secret and backup codes are arguments; the time of the
-- confirmation is not stored.
pub mod Identified
pub mod Budget
pub mod BackupCodes
pub mod Confirmation
pub mod Waiting
use auth_manager.Security.RateLimit.{to_int}
use auth_manager.Records.{pending_secret}
use auth_manager.Cache.Keys.{mfa_rate_key, pending_secret_key}
use auth_manager.Cache.{Raw, Cache, expire, incr, set, json, get, delete, ttl}
use auth_manager.Base.Errors.{
  Action, Code, raise, ◌>>◌, ◌>>=◌, authentication_error, raise_if, rate_limit_error, call, pure,
  authentication_failed, mfa_already_enabled, mfa_setup_pending_missing, mfa_not_enabled,
  mfa_code_invalid, value_error, mfa_backup_code_invalid,
}
use auth_manager.Database.Users.{User, update_user, get_user_by_identifier}
use auth_manager.Base.Int.{ℤ, pos, negsuc}
use auth_manager.Base.{
  ℕ, Option, Text, Bool, some, List, if◌then◌else◌, false, contains, none, ◌∷◌, ◌==◌, max, not,
  ◌&&◌, true, nat_eq, [], leb, map, ◌||◌,
}
use auth_manager.Security.Reset.{Desk, in_cache, in_users, no_updates}

pub record MfaSettings : Type 0 where
  pub max_attempts : ℕ
  pub window_seconds : ℕ

abbrev pub pending_secret_ttl_seconds : ℕ
pending_secret_ttl_seconds = 600

abbrev pub found_user : Option User → Action Desk User
found_user none = raise (authentication_error authentication_failed)
found_user (some u) = pure u

-- `_get_user_or_raise`
unfoldable pub get_user_or_raise : (Text → Text) → Text → Text → Text → Action Desk User
get_user_or_raise lower username email phone = do
  raise_if (username == 0 && email == 0 && phone == 0) value_error
  user ← in_users (get_user_by_identifier lower username email phone)
  found_user user

-- The end of `_check_attempt_budget`, with the remaining seconds.
abbrev pub refuse_attempt : MfaSettings → ℕ → Text → ℤ → Action Cache (Unit {0})
refuse_attempt cfg now user_id (pos remaining) = raise (rate_limit_error (max 1 remaining))
refuse_attempt cfg now user_id (negsuc _) = do
  expire now (mfa_rate_key user_id) cfg.window_seconds
  raise (rate_limit_error (max 1 cfg.window_seconds))

-- `_check_attempt_budget`
unfoldable pub check_attempt_budget : MfaSettings → ℕ → Text → Action Cache (Unit {0})
check_attempt_budget cfg now user_id = do
  raw ← call (get now (mfa_rate_key user_id))
  attempts ← to_int raw
  if leb cfg.max_attempts attempts
      then (do
        remaining ← call (ttl now (mfa_rate_key user_id))
        refuse_attempt cfg now user_id remaining)
      else pure tt

abbrev pub has_no_deadline : ℤ → Bool
has_no_deadline (pos n) = false
has_no_deadline (negsuc n) = n == 0

abbrev pub open_window : MfaSettings → ℕ → Text → Action Cache (Unit {0})
open_window cfg now user_id = do expire now (mfa_rate_key user_id) cfg.window_seconds; pure tt

-- `_record_failed_attempt`
unfoldable pub record_failed_attempt : MfaSettings → ℕ → Text → Action Cache (Unit {0})
record_failed_attempt cfg now user_id = do
  attempts ← incr now (mfa_rate_key user_id)
  if attempts == 1 then open_window cfg now user_id else (do
    remaining ← call (ttl now (mfa_rate_key user_id))
    if has_no_deadline remaining then open_window cfg now user_id else pure tt)

-- `_clear_attempts`
abbrev pub clear_attempts : ℕ → Text → Action Cache (Unit {0})
clear_attempts now user_id = do call (delete now (mfa_rate_key user_id)); pure tt

-- `_store_pending_secret`
abbrev pub store_pending_secret : ℕ → Text → Text → Action Cache (Unit {0})
store_pending_secret now user_id secret =
    set now (pending_secret_key user_id) (json (pending_secret secret now))
      (some pending_secret_ttl_seconds)

-- The stored secret; an empty one counts as none.
abbrev pub secret_of : Option Raw → Option Text
secret_of (some (json (pending_secret secret created_at))) =
    if secret == 0 then none else some secret
secret_of _ = none

-- `_peek_pending_secret`
abbrev pub peek_pending_secret : ℕ → Text → Action Cache (Option Text)
peek_pending_secret now user_id = do
  raw ← call (get now (pending_secret_key user_id))
  pure (secret_of raw)

-- `_take_pending_secret`
unfoldable pub take_pending_secret : ℕ → Text → Action Cache (Option Text)
take_pending_secret now user_id = do
  secret ← peek_pending_secret now user_id
  elim secret [
    | none ↦ pure none
    | some s ↦ (do call (delete now (pending_secret_key user_id)); pure (some s))
  ]

-- A wrong code is counted, then refused.
abbrev pub refuse_code : {A : Type 0} → MfaSettings → ℕ → Text → Code → Action Desk A
refuse_code cfg now user_id code = do
  in_cache (record_failed_attempt cfg now user_id)
  raise (authentication_error code)

-- `stored.remove(candidate)`
abbrev pub remove_one : Text → List Text → List Text
remove_one c [] = []
remove_one c (x ∷ xs) = let rest = remove_one c xs in if c == x then xs else x ∷ rest

module _ (lower : Text → Text) (totp : ℕ → Text → Text → Bool) (hash_code : Text → Text)
    (cfg : MfaSettings) where
  -- `_begin_setup`, which gives the pending secret.
  unfoldable pub begin_setup : ℕ → Text → Text → Text → Text → Action Desk Text
  unfolding get_user_or_raise
  begin_setup now secret username email phone = do
    u ← get_user_or_raise lower username email phone
    in_cache (store_pending_secret now u.id secret)
    pure secret

  unfoldable pub setup_mfa : ℕ → Text → Text → Text → Text → Action Desk Text
  unfolding begin_setup get_user_or_raise
  setup_mfa now secret username email phone = do
    u ← get_user_or_raise lower username email phone
    raise_if u.mfa_enabled (authentication_error mfa_already_enabled)
    begin_setup now secret username email phone

  unfoldable pub reconfigure_mfa : ℕ → Text → Text → Text → Text → Action Desk Text
  unfolding begin_setup get_user_or_raise
  reconfigure_mfa now secret username email phone = do
    u ← get_user_or_raise lower username email phone
    raise_if (not u.mfa_enabled) (authentication_error mfa_not_enabled)
    begin_setup now secret username email phone

  -- The end of `confirm_mfa`, with the secret that the code confirms.
  unfoldable pub activate : ℕ → Text → List Text → Text → Action Desk (List Text)
  activate now user_id backup_codes secret = do
    in_cache (call (delete now (pending_secret_key user_id)))
    in_users (
        update_user lower now user_id (record no_updates {
          mfa_enabled = some true;
          mfa_secret = some secret;
          mfa_backup_codes = some (map hash_code backup_codes);
        }))
    in_cache (clear_attempts now user_id)
    pure backup_codes

  -- The rest of `confirm_mfa`, with the pending secret.
  unfoldable pub confirm : ℕ → Text → Text → List Text → Option Text → Action Desk (List Text)
  unfolding activate record_failed_attempt
  confirm now user_id code backup_codes none =
      raise (authentication_error mfa_setup_pending_missing)
  confirm now user_id code backup_codes (some secret) =
      if totp now secret code
      then activate now user_id backup_codes secret
      else refuse_code cfg now user_id mfa_code_invalid

  unfoldable pub confirm_mfa : ℕ → Text → List Text → Text → Text → Text → Action Desk (List Text)
  unfolding confirm get_user_or_raise check_attempt_budget
  confirm_mfa now code backup_codes username email phone = do
    raise_if (code == 0) value_error
    u ← get_user_or_raise lower username email phone
    in_cache (check_attempt_budget cfg now u.id)
    pending ← in_cache (peek_pending_secret now u.id)
    confirm now u.id code backup_codes pending

  unfoldable pub verify_mfa_code : ℕ → Text → Text → Text → Text → Action Desk (Unit {0})
  unfolding get_user_or_raise check_attempt_budget record_failed_attempt
  verify_mfa_code now code username email phone = do
    raise_if (code == 0) value_error
    u ← get_user_or_raise lower username email phone
    raise_if (not u.mfa_enabled || u.mfa_secret == 0) (authentication_error mfa_not_enabled)
    in_cache (check_attempt_budget cfg now u.id)
    if totp now u.mfa_secret code
        then in_cache (clear_attempts now u.id)
        else refuse_code cfg now u.id mfa_code_invalid

  -- The end of `use_backup_code`, with the user.
  unfoldable pub spend : ℕ → Text → User → Action Desk (Unit {0})
  unfolding record_failed_attempt
  spend now candidate u =
      if contains candidate u.mfa_backup_codes
      then (do
        in_users (
            update_user lower now u.id (record no_updates {
              mfa_backup_codes = some (remove_one candidate u.mfa_backup_codes);
            }))
        in_cache (clear_attempts now u.id))
      else refuse_code cfg now u.id mfa_backup_code_invalid

  unfoldable pub use_backup_code : ℕ → Text → Text → Text → Text → Action Desk (Unit {0})
  unfolding spend get_user_or_raise check_attempt_budget
  use_backup_code now code username email phone = do
    raise_if (code == 0) value_error
    u ← get_user_or_raise lower username email phone
    raise_if (not u.mfa_enabled) (authentication_error mfa_not_enabled)
    in_cache (check_attempt_budget cfg now u.id)
    spend now (hash_code code) u
