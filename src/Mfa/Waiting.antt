-- ===== src/Mfa/Waiting.antt =====
-- tessera/mfa/mfa_setup.py: who waits as long as the refusal says is let through.
use native.Mathlib.Nat.{le_refl}
use auth_manager.Cache.Laws.Operations.{expire_lem, entry-expire, entry-ttl, ttl_lem, entry-get}
use auth_manager.Base.Errors.{ok, err, rate_limit_error, ◌>>◌, raise, bind-step}
use auth_manager.Cache.Keys.{mfa_rate_key, key_eq_iff, Key}
use auth_manager.Cache.Laws.{entry, is_present, absent, remaining, get_lem, Entry, entry_later}
use auth_manager.Cache.{Cache, get, expire, num, ttl, Raw, text, json}
use auth_manager.Base.{
  Text, ℕ, ◌≤◌, ◌<◌, Option, ◌≡◌, true, none, ◌∙◌, ◌+◌, ap, ◌*◌, second, leb, some, false, arith,
  refl, ◌-◌, ◌/◌, max, sym, Bool-cases, inr, inl,
}
use auth_manager.Mfa.{MfaSettings, Text, check_attempt_budget, Cache, mfa_rate_key, refuse_attempt}

-- Rounding up.
rounded_up : (n : ℕ) → n ≤ (n + (second - 1)) / second * second
rounded_up n = omega arith

module _ (cfg : MfaSettings) (user_id : Text) where
  admitted :
      (t : ℕ) (c : Cache)
      → 0 < cfg.max_attempts
      → entry t (mfa_rate_key user_id) c ≡ absent
      → (check_attempt_budget cfg t user_id c).0 ≡ ok tt
  unfolding check_attempt_budget
  admitted t c some_attempts gone =
      let K = mfa_rate_key user_id in
      let nothing : (get t K c).0 ≡ none = get_lem t K c ∙ ap (λ (e : Entry). e.value) gone in
      let none_spent : leb cfg.max_attempts 0 ≡ false = ground (arith, some_attempts) in
      rw (nothing, none_spent) refl

  module _ (now t : ℕ) (later : now ≤ t) (window : 0 < cfg.window_seconds) where
    -- The refusal, with the seconds that are left.
    refused_gone :
        (d : Option ℕ) (retry_after : ℕ) (c : Cache)
        → is_present (entry now (mfa_rate_key user_id) c) ≡ true
        → (entry now (mfa_rate_key user_id) c).deadline ≡ d
        → (refuse_attempt cfg now user_id (remaining now (entry now (mfa_rate_key user_id) c)) c).0
          ≡ err (rate_limit_error retry_after)
        → now + retry_after * second ≤ t
        → entry t
            (mfa_rate_key user_id)
            (refuse_attempt cfg now user_id
              (remaining now (entry now (mfa_rate_key user_id) c))
              c).1
          ≡ absent
    refused_gone none retry_after c there is refused waited =
        let K = mfa_rate_key user_id in
        let waits : (expire now K cfg.window_seconds
                >> raise {A = Unit {0}} (rate_limit_error (max 1 cfg.window_seconds)))
              c
            ≡ (
              err (rate_limit_error (max 1 cfg.window_seconds)),
              (expire now K cfg.window_seconds c).1,
            ) =
          bind-step (expire now K cfg.window_seconds)
            (λ _. raise (rate_limit_error (max 1 cfg.window_seconds))) c _
            (expire_lem now K c cfg.window_seconds window) in
        let seconds : retry_after ≡ max 1 cfg.window_seconds =
          ground (arith, rw (there, is, waits) at refused) in
        rw (there, is, waits)
          (ground (
            arith,
            seconds,
            waited,
            entry-expire now t K K c later cfg.window_seconds window there,
            key_eq_iff K K,
          ))
    refused_gone (some d) retry_after c there is refused waited =
        let K = mfa_rate_key user_id in
        let seconds : retry_after ≡ max 1 ((d - now + (second - 1)) / second) =
          ground (arith, rw (there, is) at refused) in
        let over : d ≤ t = omega (arith, seconds, waited, rounded_up (d - now)) in
        rw (there, is) (ground (arith, over, is, entry_later now t K c later))

    -- The counter is at its limit: what is left when the seconds of the refusal are over.
    counted_out :
        (n retry_after : ℕ) (c : Cache)
        → (entry now (mfa_rate_key user_id) c).value ≡ some (num n)
        → (refuse_attempt cfg now user_id
            (ttl now (mfa_rate_key user_id) c).0
            (ttl now (mfa_rate_key user_id) c).1).0
          ≡ err (rate_limit_error retry_after)
        → now + retry_after * second ≤ t
        → entry t
            (mfa_rate_key user_id)
            (refuse_attempt cfg now user_id
              (ttl now (mfa_rate_key user_id) c).0
              (ttl now (mfa_rate_key user_id) c).1).1
          ≡ absent
    counted_out n retry_after c held refused waited =
        let K = mfa_rate_key user_id in
        let c2 = (ttl now K c).1 in
        let same : entry now K c2 ≡ entry now K c = entry-ttl now now K K c (le_refl now) in
        let left : (ttl now K c).0 ≡ remaining now (entry now K c2) =
          ttl_lem now K c ∙ ap (remaining now) (sym same) in
        let there : is_present (entry now K c2) ≡ true =
          ground (arith, ap (λ (e : Entry). e.value) same, held) in
        rw left (
          refused_gone (entry now K c2).deadline retry_after c2 there refl (rw left at refused)
            waited)

    run_out :
        (retry_after : ℕ) (c : Cache)
        → 0 < cfg.max_attempts
        → (check_attempt_budget cfg now user_id c).0 ≡ err (rate_limit_error retry_after)
        → now + retry_after * second ≤ t
        → entry t (mfa_rate_key user_id) (check_attempt_budget cfg now user_id c).1 ≡ absent
    unfolding check_attempt_budget
    run_out retry_after c some_attempts refused waited = by_raw (get now K c).0 refl
      where
        K : Key
        K = mfa_rate_key user_id

        c1 : Cache
        c1 = (get now K c).1

        held : (o : Option Raw) → (get now K c).0 ≡ o → (entry now K c1).value ≡ o
        held o is =
            ap (λ (e : Entry). e.value) (entry-get now now K K c (le_refl now))
            ∙ sym (get_lem now K c)
            ∙ is

        by_raw :
            (o : Option Raw)
            → (get now K c).0 ≡ o
            → entry t K (check_attempt_budget cfg now user_id c).1 ≡ absent
        by_raw none is = absurd (ground (arith, is, refused, some_attempts))
        by_raw (some (text x)) is = absurd (ground (arith, is, refused))
        by_raw (some (json x)) is = absurd (ground (arith, is, refused))
        by_raw (some (num n)) is = elim (Bool-cases (leb cfg.max_attempts n)) [
          | inr below ↦ absurd (ground (arith, rw (is, below) at refused))
          | inl spent ↦
              rw (is, spent)
                (counted_out n retry_after c1 (held (some (num n)) is) (rw (is, spent) at refused)
                  waited)
        ]

  -- With a positive limit and window: who is refused by `_check_attempt_budget` with a number of seconds to
  -- wait, and makes no attempt before they are over, is let through then.
  pub check_attempt_budget-waits :
      (now t retry_after : ℕ) (c : Cache)
      → 0 < cfg.max_attempts
      → 0 < cfg.window_seconds
      → (check_attempt_budget cfg now user_id c).0 ≡ err (rate_limit_error retry_after)
      → now + retry_after * second ≤ t
      → (check_attempt_budget cfg t user_id (check_attempt_budget cfg now user_id c).1).0 ≡ ok tt
  check_attempt_budget-waits now t retry_after c some_attempts window refused waited =
      admitted t (check_attempt_budget cfg now user_id c).1 some_attempts
        (run_out now t (omega (arith, waited)) window retry_after c some_attempts refused waited)
