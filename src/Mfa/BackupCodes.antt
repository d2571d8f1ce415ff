-- ===== src/Mfa/BackupCodes.antt =====
-- tessera/mfa/mfa_setup.py: a backup code is used up.
use auth_manager.Mfa.Identified.{KeyedById, get_user_or_raise_ok}
use auth_manager.Base.Errors.{
  ok, Code, Action, mfa_backup_code_invalid, bind-ok, bind-step, ◌>>◌, raise_if,
  authentication_error, mfa_not_enabled, ◌>>=◌, raise_if-ok, value_error,
}
use auth_manager.Base.Dict.{lookup, lookup-insert}
use auth_manager.Base.Counting.{one_if}
use auth_manager.Base.{
  Text, List, ℕ, contains, Bool, ◌∷◌, ◌≡◌, ◌==◌, true, ◌+◌, arith, some, [], nat_eq, Option,
  Bool-cases, ◌≢◌, inr, inl, not,
}
use auth_manager.Database.Users.{
  update_user, check_unique_identifiers, index_user, unindex_user, UserUpdates, Users,
  apply_updates, get_user_by_identifier,
}
use auth_manager.Mfa.{
  Desk, User, in_cache, in_users, no_updates, update_user, Text, MfaSettings, spend, remove_one,
  refuse_code, clear_attempts, use_backup_code, check_attempt_budget, get_user_or_raise,
}

-- What `update_user` leaves under the id, where it succeeds.
pub update_user-stored :
    (lower : Text → Text) (now : ℕ) (user_id : Text) (updates : UserUpdates) (users : Users)
    (r : User) (x : Option User)
    → lookup user_id users.by_id ≡ some r
    → (update_user lower now user_id updates users).0 ≡ ok x
    → lookup user_id (update_user lower now user_id updates users).1.by_id
      ≡ some (record (apply_updates updates r) { updated_at = now })
unfolding update_user check_unique_identifiers index_user unindex_user
update_user-stored lower now user_id updates users r x there done = ground (
  arith,
  there,
  lookup-insert user_id user_id (record (apply_updates updates r) { updated_at = now }) users.by_id,
  nat_eq.beq_iff user_id user_id,
)

-- How often a digest stands in a list.
abbrev pub times : Text → List Text → ℕ
times d [] = 0
times d (x ∷ xs) = one_if (d == x) + times d xs

times-remove_one :
    (d c : Text) (xs : List Text)
    → contains c xs ≡ true
    → times d (remove_one c xs) + one_if (d == c) ≡ times d xs
times-remove_one d c [] here = absurd (ground arith)
times-remove_one d c (x ∷ xs) here = ground (arith, times-remove_one d c xs)

pub refuse_code-refused :
    (cfg : MfaSettings) (now : ℕ) (user_id : Text) (code : Code) (s : Desk)
    → (refuse_code {A = Unit {0}} cfg now user_id code s).0 ≢ ok tt
refuse_code-refused cfg now user_id code s done = ground arith

module _ (lower : Text → Text) (totp : ℕ → Text → Text → Bool) (hash_code : Text → Text)
    (cfg : MfaSettings) where
  spend-stored :
      (now candidate : Text) (u : User) (s : Desk)
      → lookup u.id s.users.by_id ≡ some u
      → (spend lower totp hash_code cfg now candidate u s).0 ≡ ok tt
      → (contains candidate u.mfa_backup_codes ≡ true)
        × (lookup u.id (spend lower totp hash_code cfg now candidate u s).1.users.by_id
            ≡ some (record u {
              mfa_backup_codes = remove_one candidate u.mfa_backup_codes;
              updated_at = now;
            }))
  unfolding spend
  spend-stored now candidate u s there done =
      elim (Bool-cases (contains candidate u.mfa_backup_codes)) [
        | inr absent_code ↦ absurd (
            refuse_code-refused cfg now u.id mfa_backup_code_invalid s
              (rw (absent_code, spend) at done))
        | inl here ↦
            let (x, written, cleared) =
              bind-ok write (λ _. in_cache (clear_attempts now u.id)) s tt
                (rw (here, spend) at done) in
            let kept = bind-step write (λ _. in_cache (clear_attempts now u.id)) s x written in
            (
              here,
              rw (here, spend)
                  (rw kept (update_user-stored lower now u.id spent s.users u x there written)),
            )
      ]
    where
      spent : UserUpdates
      spent = record no_updates {
        mfa_backup_codes = some (remove_one candidate u.mfa_backup_codes);
      }

      write : Action Desk (Option User)
      write = in_users (update_user lower now u.id spent)

  -- Users stand under their ids. A backup code that is accepted belongs to the user whom the identifiers
  -- name, with MFA enabled, and afterwards the user's stored codes have its hash once less and every other
  -- hash as often as before.
  pub use_backup_code-spends :
      (now code username email phone : Text) (s : Desk)
      → KeyedById s.users
      → (use_backup_code lower totp hash_code cfg now code username email phone s).0 ≡ ok tt
      → (u : User) × (after : User) × ((get_user_by_identifier lower username email phone s.users).0
          ≡ ok (some u))
        × (u.mfa_enabled ≡ true)
        × (lookup u.id
              (use_backup_code lower totp hash_code cfg now code username email phone
                s).1.users.by_id
            ≡ some after)
        × ((d : Text)
            → times d after.mfa_backup_codes + one_if (d == hash_code code)
              ≡ times d u.mfa_backup_codes)
  unfolding use_backup_code
  use_backup_code-spends now code username email phone s keyed done =
      let (_, given) = raise_if-ok (code == 0) value_error named s tt done in
      let (u, found, rest) =
        bind-ok (get_user_or_raise lower username email phone) enabled s tt (rw given at done) in
      let (is, there, same) = get_user_or_raise_ok lower username email phone s u keyed found in
      let step1 = bind-step (get_user_or_raise lower username email phone) enabled s u found in
      let on =
        raise_if-ok (not u.mfa_enabled) (authentication_error mfa_not_enabled) (checked u) s tt
          (rw same at rest) in
      let (_, within, spending) =
        bind-ok (check u) (λ _. spend lower totp hash_code cfg now (hash_code code) u) s tt
          (rw on.1 at (rw same at rest)) in
      let step2 =
        bind-step (check u) (λ _. spend lower totp hash_code cfg now (hash_code code) u) s tt
          within in
      let (here, stored) = spend-stored now (hash_code code) u (check u s).1 there spending in
      (
        u,
        record u {
          mfa_backup_codes = remove_one (hash_code code) u.mfa_backup_codes;
          updated_at = now;
        },
        is,
        ground (arith, on.0),
        rw (given, step1, same, on.1, step2) stored,
        λ d. times-remove_one d (hash_code code) u.mfa_backup_codes here,
      )
    where
      check : User → Action Desk (Unit {0})
      check u = in_cache (check_attempt_budget cfg now u.id)

      checked : User → Action Desk (Unit {0})
      checked u = check u >> spend lower totp hash_code cfg now (hash_code code) u

      enabled : User → Action Desk (Unit {0})
      enabled u = raise_if (not u.mfa_enabled) (authentication_error mfa_not_enabled) >> checked u

      named : Action Desk (Unit {0})
      named = get_user_or_raise lower username email phone >>= enabled
