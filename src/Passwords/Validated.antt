-- ===== src/Passwords/Validated.antt =====
-- tessera/password_security/password_validator.py: what `validate_password` decides.
use auth_manager.Passwords.Breaches.{check_breached, breach, validate_password}
use auth_manager.Base.Dict.{lookup, insert, lookup-insert}
use auth_manager.Base.Chars.{Chars}
use auth_manager.Base.{
  ℕ, Bool, Option, ◌≡◌, Text, some, ◌<◌, ltb, ◌⊎◌, none, max, nat_eq, [], ◌↔◌, inl, inr, refl,
  arith, if◌then◌else◌, ◌&&◌, leb, Bool-cases, nat_beq_iff, ◌∙◌, ap, ◌++◌, subst, List, sym,
}
use auth_manager.Passwords.Breaches.{
  BreachCache, Provider, Breach, check_breached, from_cache, ask, breach_errors,
}
use auth_manager.Passwords.{
  PasswordPolicy, Complaint, ℕ, Bool, Chars, breach_database_unreachable, compromised,
  policy_errors,
}
use auth_manager.Passwords.Accepted.{Meets, both_iff, policy_errors-Meets}
use mathlib.Core.Bool.{true, false}

-- What is known of a password's leaks. The flag says whether the count is positive, as the provider
-- gives it.
pub data Knowledge : Type 0 where
  unchecked unknown : Knowledge
  leaked : ℕ → Knowledge

-- The policy rejects a password from the given number of leaks on, and one that cannot be checked
-- if the provider fails closed.
abbrev pub Passes : PasswordPolicy → Bool → Knowledge → Type 0
Passes policy fail_closed unchecked = Unit {0}
Passes policy fail_closed unknown = fail_closed ≡ false
Passes policy fail_closed (leaked n) = n < max 1 policy.min_breach_count

-- The answer of the provider, where the flag fits the count.
abbrev pub Answers : Option (Bool × ℕ) → Knowledge → Type 0
Answers none k = k ≡ unknown
Answers (some (b, n)) k = (b ≡ ltb 0 n) × (k ≡ leaked n)

abbrev pub Knows :
    (Chars → Text) → PasswordPolicy → Option Provider → Chars → BreachCache → Knowledge → Type 0
Knows password_key policy none s cache k = k ≡ unchecked
Knows password_key policy (some provider) s cache k =
    (policy.check_breached ≡ false × (k ≡ unchecked))
    ⊎ ((policy.check_breached ≡ true)
        × Answers
            (elim (lookup (password_key s) cache) [ none ↦ provider.check s | some v ↦ some v ]) k)

abbrev pub closed : Option Provider → Bool
closed none = false
closed (some provider) = provider.fail_closed

module _ (password_key : Chars → Text) (policy : PasswordPolicy) where
  cached_iff :
      (b : Bool) (n : ℕ)
      → b ≡ ltb 0 n
      → (breach_errors password_key policy (breach b n none) ≡ [])
        ↔ (n < max 1 policy.min_breach_count)
  unfolding breach_errors
  cached_iff b n flag = ground (arith, flag)

  fresh_iff :
      (b : Bool) (n : ℕ)
      → b ≡ ltb 0 n
      → (breach_errors password_key policy
            (breach b n (if b && leb policy.min_breach_count n then some (compromised n) else none))
          ≡ [])
        ↔ (n < max 1 policy.min_breach_count)
  unfolding breach_errors
  fresh_iff b n flag = ground (arith, flag)

  outage_iff :
      (closing : Bool)
      → (breach_errors password_key policy (breach closing 0 (some breach_database_unreachable))
          ≡ [])
        ↔ (closing ≡ false)
  unfolding breach_errors
  outage_iff true = ground arith
  outage_iff false = ground arith

  from_cache_iff :
      (provider : Provider) (s : Chars) (found : Option (Bool × ℕ)) (cache : BreachCache)
      (k : Knowledge)
      → Answers (elim found [ none ↦ provider.check s | some v ↦ some v ]) k
      → (breach_errors password_key policy (from_cache password_key policy provider s found cache).0
          ≡ [])
        ↔ Passes policy provider.fail_closed k
  unfolding from_cache ask
  from_cache_iff provider s (some (b, n)) cache k (flag, known) = rw known (cached_iff b n flag)
  from_cache_iff provider s none cache k known = go (provider.check s) known
    where
      go :
          (answer : Option (Bool × ℕ))
          → Answers answer k
          → (breach_errors password_key policy (ask password_key policy provider s answer cache).0
              ≡ [])
            ↔ Passes policy provider.fail_closed k
      go none known' = rw known' (outage_iff provider.fail_closed)
      go (some (b, n)) (flag, known') = rw known' (fresh_iff b n flag)

  asked :
      (provider : Provider) (s : Chars) (cache : BreachCache)
      → policy.check_breached ≡ true
      → check_breached password_key policy (some provider) s cache
        ≡ from_cache password_key policy provider s (lookup (password_key s) cache) cache
  unfolding check_breached
  asked provider s cache on = simp on refl

  skipped :
      (provider : Provider) (s : Chars) (cache : BreachCache)
      → policy.check_breached ≡ false
      → check_breached password_key policy (some provider) s cache ≡ (breach false 0 none, cache)
  unfolding check_breached
  skipped provider s cache off = simp off refl

  unchecked_iff :
      (closing : Bool)
      → (breach_errors password_key policy (breach false 0 none) ≡ [])
        ↔ Passes policy closing unchecked
  unfolding breach_errors
  unchecked_iff closing = (λ e. tt, λ h. refl)

  -- The errors do not depend on whether the answer comes from the cache.
  same_errors :
      (n : ℕ)
      → breach_errors password_key policy (breach (ltb 0 n) n none)
        ≡ breach_errors password_key policy (
            breach
              (ltb 0 n)
              n
              (if ltb 0 n && leb policy.min_breach_count n then some (compromised n) else none))
  unfolding breach_errors
  same_errors n = ground arith

  breach_errors_iff :
      (provider : Option Provider) (s : Chars) (cache : BreachCache) (k : Knowledge)
      → Knows password_key policy provider s cache k
      → (breach_errors password_key policy (check_breached password_key policy provider s cache).0
          ≡ [])
        ↔ Passes policy (closed provider) k
  unfolding check_breached
  breach_errors_iff none s cache k known = rw known (unchecked_iff (closed none))
  breach_errors_iff (some provider) s cache k (inl (off, known)) =
      rw (known, skipped provider s cache off) (unchecked_iff provider.fail_closed)
  breach_errors_iff (some provider) s cache k (inr (on, known)) =
      rw (asked provider s cache on)
        (from_cache_iff provider s (lookup (password_key s) cache) cache k known)

  -- A password is valid exactly when it meets the policy and what is known of its leaks passes:
  -- fewer leaks than the policy rejects, by the cache or else by the provider, whose flag fits its
  -- count; or no answer from a provider that does not fail closed.
  pub validate_password-Meets :
      (lower : Chars → Chars) (is_decimal : ℕ → Bool) (provider : Option Provider)
      (s username : Chars) (cache : BreachCache) (k : Knowledge)
      → Knows password_key policy provider s cache k
      → ((validate_password password_key policy lower is_decimal provider s username cache).0 ≡ [])
        ↔ (Meets policy lower is_decimal s username × Passes policy (closed provider) k)
  unfolding validate_password
  validate_password-Meets lower is_decimal provider s username cache k known =
      both_iff _ _ (policy_errors-Meets policy lower is_decimal s username)
        (breach_errors_iff provider s cache k known)

  fresh_answer :
      (provider : Provider) (s : Chars) (cache : BreachCache) (v : Bool × ℕ)
      → policy.check_breached ≡ true
      → provider.check s ≡ some v
      → lookup (password_key s) cache ≡ none
      → check_breached password_key policy (some provider) s cache
        ≡ ask password_key policy provider s (some v) cache
  unfolding from_cache
  fresh_answer provider s cache v on answer missing =
      asked provider s cache on
      ∙ ap (λ o. from_cache password_key policy provider s o cache) missing
      ∙ ap (λ o. ask password_key policy provider s o cache) answer

  cached_answer :
      (provider : Provider) (s : Chars) (cache : BreachCache) (b : Bool) (n : ℕ)
      → policy.check_breached ≡ true
      → let kept = insert (password_key s) (b, n) cache in
        check_breached password_key policy (some provider) s kept ≡ (breach b n none, kept)
  unfolding from_cache
  cached_answer provider s cache b n on =
      let kept = insert (password_key s) (b, n) cache in
      let found : lookup (password_key s) kept ≡ some (b, n) = ground (
        arith,
        lookup-insert (password_key s) (password_key s) (b, n) cache,
        nat_beq_iff (password_key s) (password_key s),
      ) in
      asked provider s kept on ∙ ap (λ o. from_cache password_key policy provider s o kept) found

  -- Once the provider has answered for a password, later checks of it give the same errors whatever
  -- the provider says then, and do not change the cache.
  pub validate_password-cached :
      (lower : Chars → Chars) (is_decimal : ℕ → Bool) (first later : Provider) (s username : Chars)
      (cache : BreachCache) (n : ℕ)
      → first.check s ≡ some (ltb 0 n, n)
      → lookup (password_key s) cache ≡ none
      → let (errors, cache') =
          validate_password password_key policy lower is_decimal (some first) s username cache in
        validate_password password_key policy lower is_decimal (some later) s username cache'
        ≡ (errors, cache')
  unfolding validate_password ask
  validate_password-cached lower is_decimal first later s username cache n answer missing =
      elim (Bool-cases policy.check_breached) [
        | inr off ↦ rw (skipped first s cache off, skipped later s cache off) refl
        | inl on ↦
            let kept : BreachCache = insert (password_key s) (ltb 0 n, n) cache in
            let errors : List Complaint = policy_errors policy lower is_decimal s username in
            let conclude : Breach × BreachCache → List Complaint × BreachCache =
              λ c. (errors ++ breach_errors password_key policy c.0, c.1) in
            let fresh = ap conclude (fresh_answer first s cache (ltb 0 n, n) on answer missing) in
            let again = ap conclude (cached_answer later s cache (ltb 0 n) n on) in
            subst
              (λ (r : List Complaint × BreachCache).
                validate_password password_key policy lower is_decimal (some later) s username r.1
                ≡ r)
              (sym fresh) (again ∙ ap (λ e. (errors ++ e, kept)) (same_errors n))
      ]
