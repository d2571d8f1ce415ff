-- ===== src/Mfa/Budget.antt =====
-- tessera/mfa/mfa_setup.py: the budget of attempts leaves the other cache keys alone.
use auth_manager.Base.{Bool-cases, inl, inr, ◌∙◌, nat_eq, none}
use auth_manager.Security.RateLimit.{to_int}
use auth_manager.Cache.Laws.Operations.{entry-expire_ne, entry-ttl, entry-get}
use auth_manager.Cache.Laws.{entry}
use auth_manager.Cache.{Cache, ttl, Raw, num, text, json, get}
use auth_manager.Base.Errors.{Action, ◌>>=◌, call, pure, after-bind}
use auth_manager.Base.Int.{ℤ, pos, negsuc}
use auth_manager.Cache.Keys.{Key, key_eq, mfa_rate_key}
use auth_manager.Base.{
  Text, ℕ, ◌≤◌, ◌≡◌, false, some, if◌then◌else◌, leb, arith, Option, refl, Bool-cases,
}
use auth_manager.Mfa.{MfaSettings, Text, check_attempt_budget, ℤ, Cache, refuse_attempt, to_int}

module _ (cfg : MfaSettings) (now t : ℕ) (user_id : Text) (j : Key) (later : now ≤ t)
    (other : key_eq j (mfa_rate_key user_id) ≡ false) where
  refuse_attempt-kept :
      (z : ℤ) (c : Cache) → entry t j (refuse_attempt cfg now user_id z c).1 ≡ entry t j c
  refuse_attempt-kept (pos n) c = refl
  refuse_attempt-kept (negsuc n) c =
      ground
        (arith, entry-expire_ne now t j (mfa_rate_key user_id) c later cfg.window_seconds other)

  -- The budget of attempts is kept beside the other keys.
  pub check_attempt_budget-kept :
      (c : Cache) → entry t j (check_attempt_budget cfg now user_id c).1 ≡ entry t j c
  unfolding check_attempt_budget
  check_attempt_budget-kept c =
      let K = mfa_rate_key user_id in
      let read = entry-get now t j K c later in
      after-bind Same (to_int (get now K c).0) judge (get now K c).1
        (λ _ _. to_int-kept (get now K c).0 (get now K c).1 ∙ read)
        (λ n _.
          judge-kept n (to_int (get now K c).0 (get now K c).1).1
          ∙ to_int-kept (get now K c).0 (get now K c).1
          ∙ read)
    where
      Same : Cache → Type 0
      Same c' = entry t j c' ≡ entry t j c

      judge : ℕ → Action Cache (Unit {0})
      judge attempts =
          if leb cfg.max_attempts attempts
          then (do
            remaining ← call (ttl now (mfa_rate_key user_id))
            refuse_attempt cfg now user_id remaining)
          else pure tt

      to_int-kept : (o : Option Raw) (c : Cache) → entry t j (to_int o c).1 ≡ entry t j c
      to_int-kept none c = refl
      to_int-kept (some (num n)) c = refl
      to_int-kept (some (text x)) c = refl
      to_int-kept (some (json d)) c = refl

      judge-kept : (n : ℕ) (c : Cache) → entry t j (judge n c).1 ≡ entry t j c
      judge-kept n c = elim (Bool-cases (leb cfg.max_attempts n)) [
        | inl spent ↦ rw spent (
            refuse_attempt-kept (ttl now (mfa_rate_key user_id) c).0
              (ttl now (mfa_rate_key user_id) c).1
            ∙ entry-ttl now t j (mfa_rate_key user_id) c later)
        | inr left ↦ rw left refl
      ]
