-- ===== src/Mfa/Identified.antt =====
-- tessera/mfa/mfa_setup.py: the user whom the identifiers name.
use auth_manager.Base.Errors.{ok, Result, err}
use auth_manager.Base.Dict.{lookup}
use auth_manager.Base.{
  Text, ◌≡◌, some, Option, nat_eq, arith, none, refl, ◌==◌, ap, ◌&&◌, ◌∙◌, false,
}
use auth_manager.Database.Users.{Users, get_user_by_identifier, identify}
use auth_manager.Mfa.{Desk, User, Text, get_user_or_raise}

-- Each user stands under its id.
abbrev pub KeyedById : Users → Type 0
KeyedById users = (k : Text) (u : User) → lookup k users.by_id ≡ some u → u.id ≡ k

module _ (lower : Text → Text) (username email phone : Text) (s : Desk) (u : User) where
  identified :
      (get_user_by_identifier lower username email phone s.users).0 ≡ ok (some u)
      → (k : Text) × (lookup k s.users.by_id ≡ some u)
  unfolding get_user_by_identifier
  identified found = by_index (identify lower username email phone s.users) refl
    where
      by_index :
          (o : Option Text)
          → identify lower username email phone s.users ≡ o
          → (k : Text) × (lookup k s.users.by_id ≡ some u)
      by_index none is = absurd (ground (arith, is, found))
      by_index (some k) is = (k, ground (arith, is, found))

  read_only : (get_user_by_identifier lower username email phone s.users).1 ≡ s.users
  unfolding get_user_by_identifier
  read_only = ground arith

  named :
      (get_user_or_raise lower username email phone s).0 ≡ ok u
      → (username == 0 && email == 0 && phone == 0) ≡ false
  unfolding get_user_or_raise
  named done = ground arith

  found_ok :
      (get_user_or_raise lower username email phone s).0 ≡ ok u
      → ((get_user_by_identifier lower username email phone s.users).0 ≡ ok (some u))
        × ((get_user_or_raise lower username email phone s).1 ≡ s)
  unfolding get_user_or_raise
  found_ok done = by_answer (get_user_by_identifier lower username email phone s.users).0 refl
    where
      by_answer :
          (r : Result (Option User))
          → (get_user_by_identifier lower username email phone s.users).0 ≡ r
          → ((get_user_by_identifier lower username email phone s.users).0 ≡ ok (some u))
            × ((get_user_or_raise lower username email phone s).1 ≡ s)
      by_answer (err e) is = absurd (ground (arith, is, named done, done))
      by_answer (ok none) is = absurd (ground (arith, is, named done, done))
      by_answer (ok (some v)) is =
          (ground (arith, is, named done, done), ground (arith, is, named done, read_only))

  -- The user is found, stands under its id, and nothing is written.
  pub get_user_or_raise_ok :
      KeyedById s.users
      → (get_user_or_raise lower username email phone s).0 ≡ ok u
      → ((get_user_by_identifier lower username email phone s.users).0 ≡ ok (some u))
        × (lookup u.id s.users.by_id ≡ some u)
        × ((get_user_or_raise lower username email phone s).1 ≡ s)
  get_user_or_raise_ok keyed done =
      let (found, same) = found_ok done in
      let (k, there) = identified found in
      (found, ap (λ (i : Text). lookup i s.users.by_id) (keyed k u there) ∙ there, same)
