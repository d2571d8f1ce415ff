-- ===== src/Mfa/Confirmation.antt =====
-- tessera/mfa/mfa_setup.py: MFA is switched on by a code for the pending secret only.
use auth_manager.Mfa.Budget.{check_attempt_budget-kept}
use native.Mathlib.Nat.{le_refl}
use auth_manager.Mfa.Identified.{KeyedById, get_user_or_raise_ok}
use auth_manager.Base.{Bool-cases, inl, inr, ◌∙◌, nat_eq, none, ◌==◌, ap, ◌≢◌, sym}
use auth_manager.Cache.Keys.{key_eq_iff}
use auth_manager.Mfa.BackupCodes.{update_user-stored}
use auth_manager.Cache.Laws.Operations.{entry-delete}
use auth_manager.Database.Users.{UserUpdates, update_user, get_user_by_identifier}
use auth_manager.Cache.Laws.{entry, absent, get_lem, Entry}
use auth_manager.Cache.{delete, get}
use auth_manager.Base.Errors.{
  ok, Action, ◌>>=◌, pure, ◌>>◌, bind-ok, bind-step, raise_if-ok, value_error, mfa_code_invalid,
}
use auth_manager.Base.Dict.{lookup}
use auth_manager.Cache.Keys.{Key, mfa_rate_key, pending_secret_key, key_eq_iff}
use auth_manager.Base.{
  Text, ℕ, Bool, ◌≤◌, List, ◌≡◌, some, true, map, arith, Option, refl, Bool-cases,
}
use auth_manager.Mfa.{
  Desk, User, in_cache, in_users, no_updates, MfaSettings, Text, activate, check_attempt_budget,
  clear_attempts, confirm_mfa, secret_of, peek_pending_secret, confirm, get_user_or_raise,
  refuse_code,
}

module _ (lower : Text → Text) (totp : ℕ → Text → Text → Bool) (hash_code : Text → Text)
    (cfg : MfaSettings) where
  activate-stored :
      (now t : ℕ) (u : User) (backup_codes : List Text) (secret : Text) (s : Desk)
      (shown : List Text)
      → now ≤ t
      → lookup u.id s.users.by_id ≡ some u
      → (activate lower totp hash_code cfg now u.id backup_codes secret s).0 ≡ ok shown
      → (shown ≡ backup_codes)
        × (lookup u.id
              (activate lower totp hash_code cfg now u.id backup_codes secret s).1.users.by_id
            ≡ some (record u {
              mfa_enabled = true;
              mfa_secret = secret;
              mfa_backup_codes = map hash_code backup_codes;
              updated_at = now;
            }))
        × (entry t
              (pending_secret_key u.id)
              (activate lower totp hash_code cfg now u.id backup_codes secret s).1.cache
            ≡ absent)
  unfolding activate
  activate-stored now t u backup_codes secret s shown later there done =
      let (x, written, closed) = bind-ok write (λ _. finish) s1 shown done in
      let step = bind-step write (λ _. finish) s1 x written in
      (
        ground (arith, closed),
        rw step (update_user-stored lower now u.id enabled s.users u x there written),
        rw step (
            ground (
              arith,
              entry-delete now t K (mfa_rate_key u.id) s1.cache later,
              entry-delete now t K K s.cache later,
              key_eq_iff K K,
            )),
      )
    where
      K : Key
      K = pending_secret_key u.id

      s1 : Desk
      s1 = record s { cache = (delete now K s.cache).1 }

      enabled : UserUpdates
      enabled = record no_updates {
        mfa_enabled = some true;
        mfa_secret = some secret;
        mfa_backup_codes = some (map hash_code backup_codes);
      }

      write : Action Desk (Option User)
      write = in_users (update_user lower now u.id enabled)

      finish : Action Desk (List Text)
      finish = in_cache (clear_attempts now u.id) >> pure backup_codes

  -- The user as confirmed.
  abbrev pub confirmed : ℕ → Text → List Text → User → User
  confirmed now secret shown u = record u {
    mfa_enabled = true;
    mfa_secret = secret;
    mfa_backup_codes = map hash_code shown;
    updated_at = now;
  }

  confirm-stored :
      (now t code : Text) (u : User) (backup_codes : List Text) (o : Option Text) (s : Desk)
      (shown : List Text)
      → now ≤ t
      → lookup u.id s.users.by_id ≡ some u
      → (confirm lower totp hash_code cfg now u.id code backup_codes o s).0 ≡ ok shown
      → (secret : Text) × (o ≡ some secret)
        × (totp now secret code ≡ true)
        × (lookup u.id
              (confirm lower totp hash_code cfg now u.id code backup_codes o s).1.users.by_id
            ≡ some (confirmed now secret shown u))
        × (entry t
              (pending_secret_key u.id)
              (confirm lower totp hash_code cfg now u.id code backup_codes o s).1.cache
            ≡ absent)
  unfolding confirm
  confirm-stored now t code u backup_codes none s shown later there done = absurd (ground arith)
  confirm-stored now t code u backup_codes (some secret) s shown later there done =
      elim (Bool-cases (totp now secret code)) [
        | inr wrong ↦ absurd (refused (rw wrong at done))
        | inl right ↦
            let (same, stored, gone) =
              activate-stored now t u backup_codes secret s shown later there (rw right at done) in
            (
              secret,
              refl,
              right,
              rw right
                  (stored ∙ ap (λ (l : List Text). some (confirmed now secret l u)) (sym same)),
              rw right gone,
            )
      ]
    where
      refused : (refuse_code cfg now u.id mfa_code_invalid s).0 ≢ ok shown
      refused e = ground arith

  -- Users stand under their ids. If `confirm_mfa` succeeds, there was a live pending secret for the user
  -- whom the identifiers name and the code was right for it. Afterwards MFA is on for that user, with this
  -- secret and the hashes of the codes that are handed out, and the pending secret is gone for good.
  pub confirm_mfa_sound :
      (now t code : Text) (backup_codes : List Text) (username email phone : Text) (s : Desk)
      (shown : List Text)
      → now ≤ t
      → KeyedById s.users
      → (confirm_mfa lower totp hash_code cfg now code backup_codes username email phone s).0
        ≡ ok shown
      → (u : User) × (secret : Text) × ((get_user_by_identifier lower username email phone
            s.users).0
          ≡ ok (some u))
        × (secret_of (entry now (pending_secret_key u.id) s.cache).value ≡ some secret)
        × (totp now secret code ≡ true)
        × (lookup u.id
              (confirm_mfa lower totp hash_code cfg now code backup_codes username email phone
                s).1.users.by_id
            ≡ some (confirmed now secret shown u))
        × (entry t
              (pending_secret_key u.id)
              (confirm_mfa lower totp hash_code cfg now code backup_codes username email phone
                s).1.cache
            ≡ absent)
  unfolding confirm_mfa
  confirm_mfa_sound now t code backup_codes username email phone s shown later keyed done =
      let (_, given) = raise_if-ok (code == 0) value_error named s shown done in
      let (u, found, rest) =
        bind-ok (get_user_or_raise lower username email phone) checked s shown (rw given at done) in
      let (is, there, same) = get_user_or_raise_ok lower username email phone s u keyed found in
      let step1 = bind-step (get_user_or_raise lower username email phone) checked s u found in
      let (v, within, reading) = bind-ok (check u) (λ _. peek u) s shown (rw same at rest) in
      let step2 = bind-step (check u) (λ _. peek u) s v within in
      let K = pending_secret_key u.id in
      let c1 = (check u s).1.cache in
      let live : secret_of (get now K c1).0 ≡ secret_of (entry now K s.cache).value =
        ap secret_of (get_lem now K c1)
        ∙ ap (λ (e : Entry). secret_of e.value)
            (check_attempt_budget-kept cfg now now u.id K (le_refl now) refl s.cache) in
      let (secret, pending, right, stored, gone) =
        confirm-stored now t code u backup_codes (secret_of (get now K c1).0)
          (record s { cache = (get now K c1).1 }) shown later there reading in
      (
        u,
        secret,
        is,
        sym live ∙ pending,
        right,
        rw (given, step1, same, step2) stored,
        rw (given, step1, same, step2) gone,
      )
    where
      check : User → Action Desk (Unit {0})
      check u = in_cache (check_attempt_budget cfg now u.id)

      peek : User → Action Desk (List Text)
      peek u =
          in_cache (peek_pending_secret now u.id)
          >>= confirm lower totp hash_code cfg now u.id code backup_codes

      checked : User → Action Desk (List Text)
      checked u = check u >> peek u

      named : Action Desk (List Text)
      named = get_user_or_raise lower username email phone >>= checked
