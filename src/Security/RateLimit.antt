-- ===== src/Security/RateLimit.antt =====
-- tessera/utils/security.py: `enforce_login_rate_limit`, `record_login_failure` and
-- `clear_login_failures`. A call reads the clock once.
pub mod Standing
pub mod Counter
pub mod Refines
pub mod Runs
use auth_manager.Cache.Keys.{Key, lockout_key, login_counter_key}
use auth_manager.Cache.{Cache, Raw, num, text, json, expire, set, incr, exists, ttl, delete, get}
use auth_manager.Config.{AuthConfig}
use auth_manager.Base.Int.{ℤ, pos, negsuc}
use auth_manager.Base.{
  Option, ℕ, Bool, Text, if◌then◌else◌, ◌==◌, some, false, max, nat_eq, none, leb,
}
use auth_manager.Base.Errors.{
  Action, ok, pure, raise, value_error, rate_limit_error, ◌>>◌, ◌>>=◌, call, raise_if,
  authentication_error, account_locked,
}

-- With no cache a call returns at once.
abbrev pub on_cache : Action Cache (Unit {0}) → Action (Option Cache) (Unit {0})
on_cache m none = (ok tt, none)
on_cache m (some c) = let (r, c') = m c in (r, some c')

-- `int(raw) if raw is not None else 0`
abbrev pub to_int : Option Raw → Action Cache ℕ
to_int none = pure 0
to_int (some (num n)) = pure n
to_int (some (text t)) = raise value_error
to_int (some (json d)) = raise value_error

abbrev is_minus_one : ℤ → Bool
is_minus_one (pos n) = false
is_minus_one (negsuc n) = n == 0

-- The budget test of `enforce_login_rate_limit`, once `attempts` is at the limit.
refuse_over_budget : AuthConfig → ℕ → Key → ℤ → Action Cache (Unit {0})
refuse_over_budget cfg now k (pos remaining) = raise (rate_limit_error (max 1 remaining))
refuse_over_budget cfg now k (negsuc _) = do
  expire now k cfg.rate_limit_window_seconds
  raise (rate_limit_error (max 1 cfg.rate_limit_window_seconds))

pub check_budget : AuthConfig → ℕ → Text → Action Cache (Unit {0})
unfolding refuse_over_budget
check_budget cfg now identifier = do
  locked ← call (exists now (lockout_key identifier))
  raise_if locked (authentication_error account_locked)
  raw_count ← call (get now (login_counter_key identifier))
  attempts ← to_int raw_count
  if leb cfg.rate_limit_max_attempts attempts
      then (do
        remaining ← call (ttl now (login_counter_key identifier))
        refuse_over_budget cfg now (login_counter_key identifier) remaining)
      else pure tt

pub enforce_login_rate_limit : AuthConfig → ℕ → Text → Action (Option Cache) (Unit {0})
unfolding check_budget
enforce_login_rate_limit cfg now identifier = do
  raise_if (identifier == 0) value_error
  on_cache (if cfg.rate_limit_enabled then check_budget cfg now identifier else pure tt)

-- The counter gets its deadline when it is created, or when it is found without one.
start_window : AuthConfig → ℕ → Key → ℕ → Action Cache (Unit {0})
start_window cfg now k attempts =
    if attempts == 1 then (do expire now k cfg.rate_limit_window_seconds; pure tt) else (do
      remaining ← call (ttl now k)
      if is_minus_one remaining
          then (do expire now k cfg.rate_limit_window_seconds; pure tt)
          else pure tt)

-- At the limit the lockout marker replaces the counter.
engage_lockout : AuthConfig → ℕ → Text → Action Cache (Unit {0})
engage_lockout cfg now identifier = do
  set now (lockout_key identifier) (num 1) (some cfg.account_lockout_duration_seconds)
  call (delete now (login_counter_key identifier))
  pure tt

pub count_failure : AuthConfig → ℕ → Text → Action Cache (Unit {0})
unfolding start_window engage_lockout
count_failure cfg now identifier = do
  attempts ← incr now (login_counter_key identifier)
  start_window cfg now (login_counter_key identifier) attempts
  if leb cfg.rate_limit_max_attempts attempts then engage_lockout cfg now identifier else pure tt

pub record_login_failure : AuthConfig → ℕ → Text → Action (Option Cache) (Unit {0})
unfolding count_failure
record_login_failure cfg now identifier = do
  raise_if (identifier == 0) value_error
  on_cache (if cfg.rate_limit_enabled then count_failure cfg now identifier else pure tt)

pub clear_counters : ℕ → Text → Action Cache (Unit {0})
clear_counters now identifier = do
  call (delete now (login_counter_key identifier))
  call (delete now (lockout_key identifier))
  pure tt

pub clear_login_failures : AuthConfig → ℕ → Text → Action (Option Cache) (Unit {0})
unfolding clear_counters
clear_login_failures cfg now identifier = do
  raise_if (identifier == 0) value_error
  on_cache (if cfg.rate_limit_enabled then clear_counters now identifier else pure tt)
