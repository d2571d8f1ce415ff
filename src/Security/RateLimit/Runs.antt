-- ===== src/Security/RateLimit/Runs.antt =====
-- tessera/utils/security.py: rows of failed logins, and the lockout that they lead to.
use native.Mathlib.Nat.{le_refl}
use auth_manager.Base.Errors.{ok, err, authentication_error, account_locked, Result}
use auth_manager.Security.RateLimit.Refines.{
  Leaves, record_login_failure-Leaves, enforce_login_rate_limit-admit,
}
use auth_manager.Security.RateLimit.{record_login_failure, enforce_login_rate_limit, ok}
use auth_manager.Cache.{Cache}
use auth_manager.Security.RateLimit.Standing.{Standing, fail_standing, age, clean, admit}
use auth_manager.Base.{
  ℕ, Text, List, Option, ◌∷◌, ◌≡◌, ◌≤◌, true, [], ◌<◌, ◌≢◌, ◌+◌, some, length, none, ◌*◌, arith,
  second, refl, if◌then◌else◌, leb, ap,
}
use auth_manager.Config.{AuthConfig, IsValid}

-- Failed logins at the given times, one after the other.
pub fail_all : AuthConfig → Text → List ℕ → Option Cache → Option Cache
fail_all cfg identifier [] c = c
fail_all cfg identifier (now ∷ ts) c =
    fail_all cfg identifier ts (record_login_failure cfg now identifier c).1

fail_standings : AuthConfig → List ℕ → Standing → Standing
fail_standings cfg [] s = s
fail_standings cfg (now ∷ ts) s = fail_standings cfg ts (fail_standing cfg now (age now s))

-- Times that do not go back, from `lo` on and before `hi`.
abbrev pub Within : ℕ → ℕ → List ℕ → Type 0
Within lo hi [] = Unit {0}
Within lo hi (t ∷ ts) = (lo ≤ t) × (t < hi) × Within t hi ts

abbrev pub last_of : ℕ → List ℕ → ℕ
last_of lo [] = lo
last_of lo (t ∷ ts) = last_of t ts

module _ (cfg : AuthConfig) (valid : IsValid cfg) (enabled : cfg.rate_limit_enabled ≡ true)
    (identifier : Text) (named : identifier ≢ 0) where
  -- The cache follows the standing through a row of failures.
  fail_all-Leaves :
      (lo hi : ℕ) (ts : List ℕ) (s : Standing) (c : Cache)
      → Within lo hi ts
      → Leaves lo identifier s c
      → (c' : Cache) × (fail_all cfg identifier ts (some c) ≡ some c')
        × Leaves (last_of lo ts) identifier (fail_standings cfg ts s) c'
  unfolding fail_all fail_standings
  fail_all-Leaves lo hi [] s c w l = (c, refl, l)
  fail_all-Leaves lo hi (now ∷ ts) s c w l =
      let (c1, e, l1) =
        record_login_failure-Leaves cfg valid enabled now identifier named (age now s) c
          (l now w.0) in
      rw e (fail_all-Leaves now hi ts (fail_standing cfg now (age now s)) c1 w.2 l1)

  -- Within the window the failures add up until they reach the limit.
  count_up :
      (lo n deadline : ℕ) (ts : List ℕ)
      → 0 < n
      → Within lo deadline ts
      → n + length ts < cfg.rate_limit_max_attempts
      → fail_standings cfg ts (record { count = some (n, deadline); lock = none })
        ≡ record { count = some (n + length ts, deadline); lock = none }
  unfolding fail_standings fail_standing
  count_up lo n deadline [] p w h = ground arith
  count_up lo n deadline (t ∷ ts) p w h =
      ground (arith, count_up t (n + 1) deadline ts (omega arith) w.2 (omega arith))

  reach_limit :
      (lo n deadline : ℕ) (ts : List ℕ)
      → 0 < n
      → n < cfg.rate_limit_max_attempts
      → Within lo deadline ts
      → n + length ts ≡ cfg.rate_limit_max_attempts
      → fail_standings cfg ts (record { count = some (n, deadline); lock = none }) ≡ record {
        count = none;
        lock = some (last_of lo ts + cfg.account_lockout_duration_seconds * second);
      }
  unfolding fail_standings fail_standing
  reach_limit lo n deadline [] p below w h = absurd (omega arith)
  reach_limit lo n deadline (t ∷ []) p below w h = ground arith
  reach_limit lo n deadline (t ∷ u ∷ ts) p below w h =
      ground (
        arith,
        reach_limit t (n + 1) deadline (u ∷ ts) (omega arith) (omega arith) w.2 (omega arith),
      )

  full_standing :
      (start : ℕ) (ts : List ℕ)
      → Within start (start + cfg.rate_limit_window_seconds * second) ts
      → 1 + length ts ≡ cfg.rate_limit_max_attempts
      → fail_standings cfg (start ∷ ts) clean ≡ record {
        count = none;
        lock = some (last_of start ts + cfg.account_lockout_duration_seconds * second);
      }
  unfolding fail_standings fail_standing
  full_standing start [] w full = ground arith
  full_standing start (t ∷ ts) w full =
      let deadline = start + cfg.rate_limit_window_seconds * second in
      ground (arith, reach_limit start 1 deadline (t ∷ ts) (omega arith) (omega arith) w full)

  few_standing :
      (start : ℕ) (ts : List ℕ)
      → Within start (start + cfg.rate_limit_window_seconds * second) ts
      → 1 + length ts < cfg.rate_limit_max_attempts
      → fail_standings cfg (start ∷ ts) clean ≡ record {
        count = some (1 + length ts, start + cfg.rate_limit_window_seconds * second);
        lock = none;
      }
  unfolding fail_standings fail_standing
  few_standing start ts w few =
      let deadline = start + cfg.rate_limit_window_seconds * second in
      ground (arith, count_up start 1 deadline ts (omega arith) w few)

  module _ (start : ℕ) (ts : List ℕ) (c : Cache) (fresh : Leaves start identifier clean c)
      (within : Within start (start + cfg.rate_limit_window_seconds * second) ts) where
    abbrev after_failures : Option Cache
    after_failures = fail_all cfg identifier (start ∷ ts) (some c)

    decided :
        (t : ℕ)
        → last_of start ts ≤ t
        → (enforce_login_rate_limit cfg t identifier after_failures).0
          ≡ admit cfg t (age t (fail_standings cfg (start ∷ ts) clean))
    decided t h =
        let deadline = start + cfg.rate_limit_window_seconds * second in
        let (c', e, l) =
          fail_all-Leaves start deadline (start ∷ ts) clean c
            (le_refl start, grind (arith, valid.window), within) fresh in
        let s = age t (fail_standings cfg (start ∷ ts) clean) in
        let (c'', e', same) =
          enforce_login_rate_limit-admit cfg valid enabled t identifier named s c' (l t h) in
        rw e (ap (λ (p : Result (Unit {0}) × Option Cache). p.0) e')

    -- With a valid configuration that limits logins, for a nonempty identifier with a clean
    -- standing: as many failures within one window as the limit make every later login refused as
    -- locked until the lockout has run its time, and then admitted again.
    pub lockout_at_limit :
        1 + length ts ≡ cfg.rate_limit_max_attempts
        → (t : ℕ) → last_of start ts ≤ t
        → (enforce_login_rate_limit cfg t identifier after_failures).0 ≡ (
            if leb (last_of start ts + cfg.account_lockout_duration_seconds * second) t
            then ok tt
            else err (authentication_error account_locked))
    unfolding admit
    lockout_at_limit full t h = rw (decided t h, full_standing start ts within full) (ground arith)

    -- With a valid configuration that limits logins, for a nonempty identifier with a clean
    -- standing: fewer failures within one window than the limit refuse no later login.
    admitted_below_limit :
        1 + length ts < cfg.rate_limit_max_attempts
        → (t : ℕ) → last_of start ts ≤ t
        → (enforce_login_rate_limit cfg t identifier after_failures).0 ≡ ok tt
    unfolding admit
    admitted_below_limit few t h = rw (decided t h, few_standing start ts within few) (ground arith)
