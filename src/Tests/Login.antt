-- ===== src/Tests/Login.antt =====
-- Runs of the login rate limiter, from an empty cache and for the identifier 7.
use auth_manager.Base.Errors.{ok, err, authentication_error, account_locked}
use auth_manager.Cache.Keys.{login_counter_key, lockout_key, Key}
use auth_manager.Tests.{config, config-IsValid}
use auth_manager.Security.RateLimit.Standing.{clean, admit, fail_standing}
use auth_manager.Cache.Laws.{entry}
use auth_manager.Cache.Laws.Operations.{entry-empty}
use auth_manager.Cache.{Cache, empty}
use auth_manager.Security.RateLimit.{enforce_login_rate_limit, record_login_failure}
use auth_manager.Security.RateLimit.Runs.{Within, fail_all, lockout_at_limit}
use auth_manager.Security.RateLimit.Refines.{
  Leaves, record_login_failure-Leaves, enforce_login_rate_limit-admit,
}
use auth_manager.Base.{List, ◌≢◌, ℕ, arith, ◌+◌, ◌*◌, some, second, ◌≡◌, ◌∷◌, [], ◌≤◌, refl, Text}

abbrev first_times : List ℕ
first_times = 1 * second ∷ 2 * second ∷ []

clean_start : Leaves 0 7 clean empty
clean_start t h = record {
  counted = entry-empty t (login_counter_key 7);
  locked = entry-empty t (lockout_key 7);
}

abbrev seven_id : Text
seven_id = 7

seven : seven_id ≢ 0
seven = omega arith

in_window : Within 0 (0 + 60 * second) first_times
in_window = (omega arith, omega arith, (omega arith, omega arith, tt))

-- The third failure locks the identifier until 102 seconds.
lockout_at_limit_example :
    (enforce_login_rate_limit config
      (50 * second)
      7
      (fail_all config 7 (0 ∷ first_times) (some empty))).0
    ≡ err (authentication_error account_locked)
lockout_at_limit_example =
    lockout_at_limit config config-IsValid refl 7 seven 0 first_times empty clean_start in_window
      refl (50 * second) (omega arith)

record_login_failure-Leaves_example :
    (c' : Cache) × (record_login_failure config 0 7 (some empty) ≡ (ok tt, some c'))
    × Leaves 0 7 (fail_standing config 0 clean) c'
record_login_failure-Leaves_example =
    record_login_failure-Leaves config config-IsValid refl 0 7 seven clean empty
      (clean_start 0 (omega arith))

enforce_login_rate_limit-admit_example :
    (c' : Cache) × (enforce_login_rate_limit config 0 7 (some empty)
      ≡ (admit config 0 clean, some c'))
    × ((t : ℕ) (j : Key) → 0 ≤ t → entry t j c' ≡ entry t j empty)
enforce_login_rate_limit-admit_example =
    enforce_login_rate_limit-admit config config-IsValid refl 0 7 seven clean empty
      (clean_start 0 (omega arith))
