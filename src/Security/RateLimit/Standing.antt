-- ===== src/Security/RateLimit/Standing.antt =====
-- tessera/utils/security.py: what rate limiting promises, as a machine on the standing of one
-- identifier, and the cache that stands for it.
use auth_manager.Cache.Keys.{login_counter_key, lockout_key}
use auth_manager.Cache.{num, Cache}
use auth_manager.Cache.Laws.{Entry, absent, entry}
use auth_manager.Base.Errors.{
  Result, err, authentication_error, account_locked, rate_limit_error, ok,
}
use auth_manager.Config.{AuthConfig}
use auth_manager.Base.{
  Option, none, ℕ, some, ◌+◌, if◌then◌else◌, Text, leb, ◌*◌, second, ◌==◌, ◌≡◌, nat_eq, max, ◌-◌,
  ◌/◌,
}

-- The failures counted in the current window with the window's end, and the end of a lockout.
pub record Standing : Type 0 where
  pub count : Option (ℕ × ℕ)
  pub lock : Option ℕ

abbrev pub clean : Standing
clean = record { count = none; lock = none }

abbrev age_count : ℕ → Option (ℕ × ℕ) → Option (ℕ × ℕ)
age_count t none = none
age_count t (some (n, deadline)) = if leb deadline t then none else some (n, deadline)

abbrev age_lock : ℕ → Option ℕ → Option ℕ
age_lock t none = none
age_lock t (some deadline) = if leb deadline t then none else some deadline

-- The standing at a later time.
abbrev pub age : ℕ → Standing → Standing
age t s = record { count = age_count t s.count; lock = age_lock t s.lock }

abbrev pub attempts_after : Option (ℕ × ℕ) → ℕ
attempts_after none = 1
attempts_after (some (n, _)) = n + 1

module _ (cfg : AuthConfig) (now : ℕ) where
  abbrev pub window_after : Option (ℕ × ℕ) → ℕ
  window_after none = now + cfg.rate_limit_window_seconds * second
  window_after (some (n, deadline)) =
      if n == 0 then now + cfg.rate_limit_window_seconds * second else deadline

  -- A failure is counted; the one that reaches the limit locks the identifier and starts afresh.
  unfoldable pub fail_standing : Standing → Standing
  fail_standing s =
      if leb cfg.rate_limit_max_attempts (attempts_after s.count)
      then record {
        count = none;
        lock = some (now + cfg.account_lockout_duration_seconds * second);
      }
      else record s { count = some (attempts_after s.count, window_after s.count) }

  -- An attempt is refused while the identifier is locked, or with the budget used up.
  unfoldable pub admit : Standing → Result (Unit {0})
  admit s = elim s.lock [
    | some _ ↦ err (authentication_error account_locked)
    | none ↦ elim s.count [
      | none ↦
          if leb cfg.rate_limit_max_attempts 0
          then err (rate_limit_error (max 1 cfg.rate_limit_window_seconds))
          else ok tt
      | some (n, deadline) ↦
          if leb cfg.rate_limit_max_attempts n
          then err (rate_limit_error (max 1 ((deadline - now + (second - 1)) / second)))
          else ok tt
    ]
  ]

abbrev pub counter_entry : ℕ → ℕ → Entry
counter_entry n deadline = record {
  value = some (num n);
  items = none;
  fields = none;
  deadline = some deadline;
}

abbrev pub count_entry : Option (ℕ × ℕ) → Entry
count_entry none = absent
count_entry (some (n, deadline)) = counter_entry n deadline

abbrev pub lock_entry : Option ℕ → Entry
lock_entry none = absent
lock_entry (some deadline) = counter_entry 1 deadline

-- At time `t` the cache stands for `s`.
pub record Holds (t : ℕ) (identifier : Text) (s : Standing) (c : Cache) : Type 0 where
  pub counted : entry t (login_counter_key identifier) c ≡ count_entry s.count
  pub locked : entry t (lockout_key identifier) c ≡ lock_entry s.lock
