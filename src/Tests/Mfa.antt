-- ===== src/Tests/Mfa.antt =====
-- A user whose pending secret is 5 and whose TOTP code is always the secret plus one.
use auth_manager.Mfa.Waiting.{check_attempt_budget-waits}
use auth_manager.Mfa.{
  MfaSettings, store_pending_secret, use_backup_code, confirm_mfa, secret_of, spend, confirm,
  get_user_or_raise, activate, check_attempt_budget,
}
use auth_manager.Mfa.Confirmation.{confirmed, confirm_mfa_sound}
use auth_manager.Cache.Keys.{pending_secret_key, mfa_rate_key}
use auth_manager.Cache.Laws.{entry, absent}
use auth_manager.Base.Counting.{one_if}
use auth_manager.Mfa.BackupCodes.{times, use_backup_code-spends}
use auth_manager.Base.Errors.{ok, err, rate_limit_error}
use auth_manager.Mfa.Identified.{KeyedById}
use auth_manager.Cache.{
  empty, set, get, delete, remove_key, set_expiry, purge_if_expired, is_expired, exists_any,
  drop_key, Cache, ttl, num,
}
use auth_manager.Database.Users.{
  get_user_by_identifier, identify, update_user, index_user, unindex_user, check_unique_identifiers,
}
use auth_manager.Base.Dict.{lookup, erase, insert}
use auth_manager.Base.{Text, ℕ, true, Bool, ◌∷◌, ◌≡◌, ◌==◌, [], arith, ◌+◌, some, nat_eq, refl}
use auth_manager.Security.Reset.{Desk}
use auth_manager.Database.Users.{User}

abbrev same : Text → Text
same t = t

abbrev plus_one : ℕ → Text → Text → Bool
plus_one now secret code = code == secret + 1

abbrev limits : MfaSettings
limits = record { max_attempts = 3; window_seconds = 60 }

abbrev holder : User
holder = record {
  id = 8;
  email = 9;
  username = 0;
  phone = 0;
  hashed_password = 78;
  role = 3;
  is_active = true;
  mfa_enabled = true;
  mfa_secret = 7;
  mfa_backup_codes = 40 ∷ 41 ∷ [];
  created_at = 0;
  updated_at = 0;
}

abbrev desk : Desk
desk = record {
  cache = (store_pending_secret 10 8 5 empty).1;
  users = record {
    by_id = (8, holder) ∷ [];
    by_email = (9, 8) ∷ [];
    by_username = [];
    by_phone = [];
  };
  sessions = [];
}

desk-KeyedById : KeyedById desk.users
unfolding lookup
desk-KeyedById k u there = ground (arith, there)

spent_41 : (use_backup_code same plus_one same limits 20 41 0 9 0 desk).0 ≡ ok tt
unfolding use_backup_code spend get_user_or_raise get_user_by_identifier identify
    check_attempt_budget update_user index_user unindex_user check_unique_identifiers set get delete
    remove_key set_expiry purge_if_expired is_expired exists_any drop_key empty erase insert lookup
spent_41 = refl

confirmed_6 : (confirm_mfa same plus_one same limits 20 6 (50 ∷ []) 0 9 0 desk).0 ≡ ok (50 ∷ [])
unfolding confirm_mfa confirm activate get_user_or_raise get_user_by_identifier identify
    check_attempt_budget update_user index_user unindex_user check_unique_identifiers set get delete
    remove_key set_expiry purge_if_expired is_expired exists_any drop_key empty erase insert lookup
confirmed_6 = refl

use_backup_code-spends_example :
    (u : User) × (after : User) × ((get_user_by_identifier same 0 9 0 desk.users).0 ≡ ok (some u))
    × (u.mfa_enabled ≡ true)
    × (lookup u.id (use_backup_code same plus_one same limits 20 41 0 9 0 desk).1.users.by_id
        ≡ some after)
    × ((d : Text) → times d after.mfa_backup_codes + one_if (d == 41) ≡ times d u.mfa_backup_codes)
use_backup_code-spends_example =
    use_backup_code-spends same plus_one same limits 20 41 0 9 0 desk desk-KeyedById spent_41

confirm_mfa_sound_example :
    (u : User) × (secret : Text) × ((get_user_by_identifier same 0 9 0 desk.users).0 ≡ ok (some u))
    × (secret_of (entry 20 (pending_secret_key u.id) desk.cache).value ≡ some secret)
    × (plus_one 20 secret 6 ≡ true)
    × (lookup u.id (confirm_mfa same plus_one same limits 20 6 (50 ∷ []) 0 9 0 desk).1.users.by_id
        ≡ some (confirmed same plus_one same limits 20 secret (50 ∷ []) u))
    × (entry 30
          (pending_secret_key u.id)
          (confirm_mfa same plus_one same limits 20 6 (50 ∷ []) 0 9 0 desk).1.cache
        ≡ absent)
confirm_mfa_sound_example =
    confirm_mfa_sound same plus_one same limits 20 30 6 (50 ∷ []) 0 9 0 desk (50 ∷ []) (omega arith)
      desk-KeyedById confirmed_6

-- Three failed attempts, in a window that ends after 60 seconds.
abbrev exhausted : Cache
exhausted = record {
  values = (mfa_rate_key 8, num 3) ∷ [];
  lists = [];
  hashes = [];
  expiry = (mfa_rate_key 8, 60000000) ∷ [];
}

refused_60 : (check_attempt_budget limits 10 8 exhausted).0 ≡ err (rate_limit_error 60)
unfolding check_attempt_budget get ttl purge_if_expired is_expired exists_any lookup
refused_60 = refl

check_attempt_budget-waits_example :
    (check_attempt_budget limits 60000010 8 (check_attempt_budget limits 10 8 exhausted).1).0
    ≡ ok tt
check_attempt_budget-waits_example =
    check_attempt_budget-waits limits 8 10 60000010 60 exhausted (omega arith) (omega arith)
      refused_60 (omega arith)
