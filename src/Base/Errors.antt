-- ===== src/Base/Errors.antt =====
-- tessera/errors.py: the exceptions as values, and actions that keep the state when one is raised.
use auth_manager.Base.{◌≡◌, arith, refl, ap, subst, sym}
use mathlib.Core.Bool.{Bool, true, false}
use Prim.Native.Nat.{ℕ}

-- The `code` with which an `AuthenticationError` or a `TokenError` is raised.
pub data Code : Type 0 where
  account_locked authentication_failed mfa_required refresh_token_reused reset_token_invalid : Code
  mfa_not_enabled mfa_already_enabled mfa_code_invalid mfa_backup_code_invalid : Code
  mfa_setup_pending_missing magic_link_invalid user_not_found : Code
  token_invalid token_expired token_wrong_type : Code

pub data Error : Type 0 where
  value_error config_error not_found integrity_error permission_error provider_error : Error
  -- Python's own, from a dict without the key
  key_error : Error
  authentication_error token_error : Code → Error
  -- with `retry_after`
  rate_limit_error : ℕ → Error
  code_expired : Error
  -- with the attempts that remain
  code_invalid : ℕ → Error
  too_many_attempts : ℕ → Error

pub data Result {ℓ} (A : Type ℓ) : Type ℓ where
  ok : A → Result A
  err : Error → Result A

-- A method call on a state `S`. What was written before an exception stays written.
abbrev pub Action : Type 0 → Type 0 → Type 0
Action S A = S → Result A × S

module _ {S : Type 0} where
  infixl 5 ◌>>=◌ ◌>>◌
  abbrev pub ◌>>=◌ : {A B : Type 0} → Action S A → (A → Action S B) → Action S B
  ◌>>=◌ m f s = let (r, s') = m s in elim r [ ok a ↦ f a s' | err e ↦ (err e, s') ]

  abbrev pub ◌>>◌ : {A B : Type 0} → Action S A → Action S B → Action S B
  m >> k = m >>= λ _. k

  abbrev pub pure : {A : Type 0} → A → Action S A
  pure a s = (ok a, s)

  abbrev pub raise : {A : Type 0} → Error → Action S A
  raise e s = (err e, s)

  abbrev pub raise_if : Bool → Error → Action S (Unit {0})
  raise_if true e s = (err e, s)
  raise_if false e s = (ok tt, s)

  -- A read, a write, and a call that does both and cannot raise.
  abbrev pub gets : {A : Type 0} → (S → A) → Action S A
  gets f s = (ok (f s), s)

  abbrev pub modify : (S → S) → Action S (Unit {0})
  modify f s = (ok tt, f s)

  abbrev pub call : {A : Type 0} → (S → A × S) → Action S A
  call f s = let (a, s') = f s in (ok a, s')

  -- A sequence that succeeds: both parts do.
  pub bind-ok :
      {A B : Type 0} (m : Action S A) (f : A → Action S B) (s : S) (b : B)
      → ((m >>= f) s).0 ≡ ok b
      → (a : A) × ((m s).0 ≡ ok a) × ((f a (m s).1).0 ≡ ok b)
  bind-ok {A = A} {B = B} m f s b = go (m s)
    where
      go :
          (p : Result A × S)
          → (elim p.0 as (λ x. Result B × S) [ ok a ↦ f a p.1 | err e ↦ (err e, p.1) ]).0 ≡ ok b
          → (a : A) × (p.0 ≡ ok a) × ((f a p.1).0 ≡ ok b)
      go (ok a, s') e = (a, refl, e)
      go (err x, s') e = absurd (ground arith)

  -- A sequence goes on from what its first part gives.
  pub bind-step :
      {A B : Type 0} (m : Action S A) (f : A → Action S B) (s : S) (a : A)
      → (m s).0 ≡ ok a
      → (m >>= f) s ≡ f a (m s).1
  bind-step {A = A} {B = B} m f s a = go (m s)
    where
      go :
          (p : Result A × S)
          → p.0 ≡ ok a
          → (elim p.0 as (λ x. Result B × S) [ ok x ↦ f x p.1 | err e ↦ (err e, p.1) ]) ≡ f a p.1
      go (ok x, s') e = let same : x ≡ a = ground arith in ap (λ y. f y s') same
      go (err x, s') e = absurd (ground arith)

  -- A guard that did not raise.
  pub raise_if-ok :
      {B : Type 0} (b : Bool) (e : Error) (m : Action S B) (s : S) (x : B)
      → ((raise_if b e >> m) s).0 ≡ ok x
      → (b ≡ false) × ((raise_if b e >> m) s ≡ m s)
  raise_if-ok true e m s x done = absurd (ground arith)
  raise_if-ok false e m s x done = (refl, refl)

  -- What follows only to give a value leaves the state.
  pub bind-pure : {A B : Type 0} (m : Action S A) (b : B) (s : S) → ((m >> pure b) s).1 ≡ (m s).1
  bind-pure m b s = ground arith

-- What holds of the state through a method call.
module _ {S : Type 0} (P : S → Type 0) where
  pub after_raise_if :
      {A : Type 0} (b : Bool) (e : Error) (m : Action S A) (s : S)
      → P s
      → (b ≡ false → P (m s).1)
      → P ((raise_if b e >> m) s).1
  after_raise_if true e m s h k = h
  after_raise_if false e m s h k = k refl

  pub after-bind :
      {A B : Type 0} (m : Action S A) (f : A → Action S B) (s : S)
      → ((e : Error) → (m s).0 ≡ err e → P (m s).1)
      → ((a : A) → (m s).0 ≡ ok a → P (f a (m s).1).1)
      → P ((m >>= f) s).1
  after-bind {A = A} {B = B} m f s = go (m s)
    where
      go :
          (p : Result A × S)
          → ((e : Error) → p.0 ≡ err e → P p.1)
          → ((a : A) → p.0 ≡ ok a → P (f a p.1).1)
          → P (elim p.0 as (λ x. Result B × S) [ ok a ↦ f a p.1 | err e ↦ (err e, p.1) ]).1
      go (ok a, s') h k = k a refl
      go (err e, s') h k = h e refl

  -- Where the whole succeeds, so does its first part.
  pub after-ok :
      {A B : Type 0} (m : Action S A) (f : A → Action S B) (s : S) (b : B)
      → ((m >>= f) s).0 ≡ ok b
      → ((a : A) → (m s).0 ≡ ok a → (f a (m s).1).0 ≡ ok b → P (f a (m s).1).1)
      → P ((m >>= f) s).1
  after-ok {B = B} m f s b done k =
      let (a, first, second) = bind-ok m f s b done in
      subst (λ (p : Result B × S). P p.1) (sym (bind-step m f s a first)) (k a first second)
