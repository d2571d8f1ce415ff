-- ===== src/Security/RateLimit/Refines.antt =====
-- tessera/utils/security.py: the rate-limit functions implement the machine on standings.
use native.Mathlib.Nat.{le_refl}
use auth_manager.Cache.Laws.{entry, entry_later, exists_lem, get_lem}
use auth_manager.Cache.Laws.Operations.{
  entry-exists, entry-get, ttl_lem, entry-ttl, expire_lem, entry-expire_missing, entry-delete,
}
use auth_manager.Base.Errors.{ok}
use auth_manager.Security.RateLimit.Counter.{failure_entry, count_failure_lem}
use auth_manager.Security.RateLimit.{
  record_login_failure, count_failure, ok, check_budget, enforce_login_rate_limit,
  clear_login_failures, clear_counters,
}
use auth_manager.Cache.Keys.{Key, login_counter_key, lockout_key, key_eq_iff}
use auth_manager.Cache.{Cache, exists, get, ttl, delete}
use auth_manager.Security.RateLimit.Standing.{
  Standing, Holds, age, fail_standing, admit, count_entry, lock_entry, clean,
}
use auth_manager.Config.{AuthConfig, IsValid}
use auth_manager.Base.{ℕ, Text, ◌≡◌, true, ◌≤◌, ◌≢◌, some, arith, Option, none}

-- What a call has done to the standing of its identifier, at its time and at every later one.
abbrev pub Leaves : ℕ → Text → Standing → Cache → Type 0
Leaves now identifier s c = (t : ℕ) → now ≤ t → Holds t identifier (age t s) c

module _ (cfg : AuthConfig) (valid : IsValid cfg) (now : ℕ) (identifier : Text) (c : Cache) where
  -- `check_budget` decides as the standing does, and changes no entry.
  checked :
      (o : Option (ℕ × ℕ)) (l : Option ℕ)
      → entry now (login_counter_key identifier) c ≡ count_entry o
      → entry now (lockout_key identifier) c ≡ lock_entry l
      → (t : ℕ) (j : Key) → now ≤ t
      → let (r, c') = check_budget cfg now identifier c in
        (r ≡ admit cfg now (record { count = o; lock = l })) × (entry t j c' ≡ entry t j c)
  unfolding check_budget admit
  checked o (some until) counted locked t j h = ground (
    arith,
    exists_lem now (lockout_key identifier) c,
    entry-exists now t j (lockout_key identifier) c h,
  )
  checked none none counted locked t j h =
      let k = login_counter_key identifier in
      let c1 = (exists now (lockout_key identifier) c).1 in
      let c2 = (get now k c1).1 in
      let c3 = (ttl now k c2).1 in
      ground (
        arith,
        exists_lem now (lockout_key identifier) c,
        entry-exists now t j (lockout_key identifier) c h,
        entry-exists now now k (lockout_key identifier) c (le_refl now),
        get_lem now k c1,
        entry-get now t j k c1 h,
        entry-get now now k k c1 (le_refl now),
        ttl_lem now k c2,
        entry-ttl now t j k c2 h,
        entry-ttl now now k k c2 (le_refl now),
        expire_lem now k c3 cfg.rate_limit_window_seconds valid.window,
        entry-expire_missing now t j k c3 h cfg.rate_limit_window_seconds,
      )
  checked (some (n, deadline)) none counted locked t j h =
      let k = login_counter_key identifier in
      let c1 = (exists now (lockout_key identifier) c).1 in
      let c2 = (get now k c1).1 in
      ground (
        arith,
        exists_lem now (lockout_key identifier) c,
        entry-exists now t j (lockout_key identifier) c h,
        entry-exists now now k (lockout_key identifier) c (le_refl now),
        get_lem now k c1,
        entry-get now t j k c1 h,
        entry-get now now k k c1 (le_refl now),
        ttl_lem now k c2,
        entry-ttl now t j k c2 h,
      )

module _ (cfg : AuthConfig) (valid : IsValid cfg) (enabled : cfg.rate_limit_enabled ≡ true)
    (now : ℕ) (identifier : Text) (named : identifier ≢ 0) (s : Standing) (c : Cache)
    (holds : Holds now identifier s c) where
  failed_entry :
      (t : ℕ) (j : Key)
      → now ≤ t
      → let (r, c') = count_failure cfg now identifier c in
        (r ≡ ok tt)
        × (entry t j c' ≡ failure_entry cfg valid now identifier c s.count holds.counted t j)
  failed_entry = count_failure_lem cfg valid now identifier c s.count holds.counted

  failed-Leaves :
      Leaves now identifier (fail_standing cfg now s) (count_failure cfg now identifier c).1
  unfolding fail_standing failure_entry
  failed-Leaves t h = record {
    counted = ground (arith, failed_entry t (login_counter_key identifier) h);
    locked = ground (
      arith,
      failed_entry t (lockout_key identifier) h,
      entry_later now t (lockout_key identifier) c h,
      holds.locked,
    );
  }

  -- With a valid configuration that limits logins, for a nonempty identifier whose standing the
  -- cache holds: a failed login succeeds in counting, and leaves the cache holding what the
  -- standing becomes, now and, aged, at every later time.
  pub record_login_failure-Leaves :
      (c' : Cache) × (record_login_failure cfg now identifier (some c) ≡ (ok tt, some c'))
      × Leaves now identifier (fail_standing cfg now s) c'
  unfolding record_login_failure
  record_login_failure-Leaves = (
    (count_failure cfg now identifier c).1,
    ground (arith, failed_entry now (lockout_key identifier) (le_refl now)),
    failed-Leaves,
  )

  -- With a valid configuration that limits logins, for a nonempty identifier whose standing the
  -- cache holds: a login is admitted or refused exactly as the standing says, and the check
  -- changes no entry.
  pub enforce_login_rate_limit-admit :
      (c' : Cache) × (enforce_login_rate_limit cfg now identifier (some c)
        ≡ (admit cfg now s, some c'))
      × ((t : ℕ) (j : Key) → now ≤ t → entry t j c' ≡ entry t j c)
  unfolding enforce_login_rate_limit
  enforce_login_rate_limit-admit =
      let same = checked cfg valid now identifier c s.count s.lock holds.counted holds.locked in
      (
        (check_budget cfg now identifier c).1,
        ground (arith, same now (lockout_key identifier) (le_refl now)),
        λ t j h. (same t j h).1,
      )

  -- With a configuration that limits logins, for a nonempty identifier: clearing the failures
  -- leaves a clean standing, also after a lockout.
  clear_login_failures-Leaves :
      (c' : Cache) × (clear_login_failures cfg now identifier (some c) ≡ (ok tt, some c'))
      × Leaves now identifier clean c'
  unfolding clear_login_failures clear_counters
  clear_login_failures-Leaves =
      let c1 = (delete now (login_counter_key identifier) c).1 in
      (
        (delete now (lockout_key identifier) c1).1,
        ground arith,
        λ t h. record {
          counted = ground (
            arith,
            entry-delete now t (login_counter_key identifier) (login_counter_key identifier) c h,
            entry-delete now t (login_counter_key identifier) (lockout_key identifier) c1 h,
          );
          locked =
              ground
                (arith, entry-delete now t (lockout_key identifier) (lockout_key identifier) c1 h);
        },
      )

module _ (cfg : AuthConfig) (valid : IsValid cfg) (now : ℕ) (identifier : Text) (s : Standing)
    (c : Cache) (holds : Holds now identifier s c) where
  -- With a valid configuration, for an identifier whose standing the cache holds: counting a
  -- failure changes the two keys of that identifier and no other key of the cache.
  count_failure-others :
      (t : ℕ) (j : Key)
      → now ≤ t
      → j ≢ login_counter_key identifier
      → j ≢ lockout_key identifier
      → entry t j (count_failure cfg now identifier c).1 ≡ entry t j c
  unfolding failure_entry
  count_failure-others t j h other free = ground (
    arith,
    count_failure_lem cfg valid now identifier c s.count holds.counted t j h,
    key_eq_iff j (login_counter_key identifier),
    key_eq_iff j (lockout_key identifier),
  )
