-- ===== src/Security/RateLimit/Counter.antt =====
-- tessera/utils/security.py: each rate-limit function refines the machine on standings.
use native.Mathlib.Nat.{le_refl}
use auth_manager.Base.Errors.{ok}
use auth_manager.Security.RateLimit.{start_window, ok, count_failure}
use auth_manager.Security.RateLimit.Standing.{
  count_entry, attempts_after, counter_entry, window_after,
}
use auth_manager.Cache.Laws.{entry, at, aged, aged-entry, Entry, absent}
use auth_manager.Cache.Laws.Operations.{
  entry-incr, expire_lem, entry-expire, ttl_lem, entry-ttl, incr_lem, set_lem, entry-set,
  entry-delete,
}
use auth_manager.Cache.Keys.{Key, login_counter_key, lockout_key}
use auth_manager.Cache.{Cache, next_value, incr, num, set}
use auth_manager.Base.{
  ℕ, Text, Option, ◌≡◌, ◌≤◌, some, none, refl, arith, if◌then◌else◌, leb, ◌+◌, ◌*◌, second,
}
use auth_manager.Config.{AuthConfig, IsValid}

module _ (cfg : AuthConfig) (valid : IsValid cfg) (now : ℕ) (identifier : Text) (c : Cache) where
  abbrev pub key : Key
  key = login_counter_key identifier

  -- The counter once `incr` has run.
  module _ (o : Option (ℕ × ℕ)) (held : entry now key c ≡ count_entry o) where
    counts : next_value (entry now key c).value ≡ some (attempts_after o)
    counts = rw held (go o)
      where
        go : (p : Option (ℕ × ℕ)) → next_value (count_entry p).value ≡ some (attempts_after p)
        go none = refl
        go (some q) = refl

    incremented :
        (t : ℕ) (j : Key)
        → now ≤ t
        → entry t j (incr now key c).1
          ≡ at j key
              (aged t (let e = count_entry o in record e { value = some (num (attempts_after o)) }))
              (entry t j c)
    incremented t j h = rw (← held) (entry-incr now t j key c h (attempts_after o) counts)

  -- `start_window` after it: the deadline is set if the counter is new.
  started :
      (o : Option (ℕ × ℕ))
      → entry now key c ≡ count_entry o
      → (t : ℕ) (j : Key) → now ≤ t
      → let (r, c') = start_window cfg now key (attempts_after o) (incr now key c).1 in
        (r ≡ ok tt)
        × (entry t j c'
            ≡ at j key
                (aged t (counter_entry (attempts_after o) (window_after cfg now o)))
                (entry t j c))
  unfolding start_window
  started none held t j h = ground (
    arith,
    incremented none held now key (le_refl now),
    incremented none held t j h,
    expire_lem now key (incr now key c).1 cfg.rate_limit_window_seconds valid.window,
    entry-expire now t j key (incr now key c).1 h cfg.rate_limit_window_seconds valid.window,
  )
  started (some (n, d)) held t j h = ground (
    arith,
    incremented (some (n, d)) held now key (le_refl now),
    incremented (some (n, d)) held t j h,
    expire_lem now key (incr now key c).1 cfg.rate_limit_window_seconds valid.window,
    entry-expire now t j key (incr now key c).1 h cfg.rate_limit_window_seconds valid.window,
    aged-entry now key c,
    ttl_lem now key (incr now key c).1,
    entry-ttl now t j key (incr now key c).1 h,
  )

  module _ (o : Option (ℕ × ℕ)) (held : entry now key c ≡ count_entry o) where
    attempts_lem : (incr now key c).0 ≡ ok (attempts_after o)
    attempts_lem = incr_lem now key c (attempts_after o) (counts o held)

    -- The cache after `record_login_failure`, key by key.
    unfoldable pub failure_entry : (t : ℕ) (j : Key) → Entry
    failure_entry t j =
        if leb cfg.rate_limit_max_attempts (attempts_after o)
        then at j key absent (
            at j (lockout_key identifier)
              (aged t (counter_entry 1 (now + cfg.account_lockout_duration_seconds * second)))
              (entry t j c))
        else at j key (aged t (counter_entry (attempts_after o) (window_after cfg now o)))
            (entry t j c)

    pub count_failure_lem :
        (t : ℕ) (j : Key)
        → now ≤ t
        → let (r, c') = count_failure cfg now identifier c in
          (r ≡ ok tt) × (entry t j c' ≡ failure_entry t j)
    unfolding count_failure failure_entry
    count_failure_lem t j h =
        let c2 = (start_window cfg now key (attempts_after o) (incr now key c).1).1 in
        let seconds = cfg.account_lockout_duration_seconds in
        let c3 = (set now (lockout_key identifier) (num 1) (some seconds) c2).1 in
        ground (
          arith,
          attempts_lem,
          started o held t j h,
          set_lem now (lockout_key identifier) c2 (num 1) seconds valid.lockout,
          entry-set now t j (lockout_key identifier) c2 h (num 1) seconds valid.lockout,
          entry-delete now t j key c3 h,
        )
