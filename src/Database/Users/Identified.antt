-- ===== src/Database/Users/Identified.antt =====
-- tessera/db/memory.py: a run of calls on the user table, and what the lookup by identifier then
-- finds.
use auth_manager.Base.Errors.{ok, err, key_error}
use auth_manager.Database.Users.Consistent.{
  Consistent, create_user-Consistent, update_user-Consistent, delete_user-Consistent,
}
use auth_manager.Base.Dict.{lookup, Dict}
use auth_manager.Base.{
  Text, ℕ, List, ◌≢◌, ◌∷◌, ◌≡◌, [], none, some, nat_eq, arith, Option, inr, ◌⊎◌, inl, refl,
  Bool-cases, Option-cases, ◌==◌, sym, ◌∙◌, ap,
}
use auth_manager.Database.Users.{
  User, Users, identify, lookup, UserUpdates, create_user, update_user, delete_user, or_index,
  get_user_by_identifier, ok, err,
}
use auth_manager.Database.Users.Consistent.{no_users}

pub data UserCall : Type 0 where
  create_call : User → UserCall
  update_call : ℕ → Text → UserUpdates → UserCall
  delete_call : Text → UserCall

module _ (lower : Text → Text) where
  abbrev pub perform_user : UserCall → Users → Users
  perform_user (create_call u) s = (create_user lower u s).1
  perform_user (update_call now user_id updates) s = (update_user lower now user_id updates s).1
  perform_user (delete_call user_id) s = (delete_user lower user_id s).1

  abbrev pub perform_users : List UserCall → Users → Users
  perform_users [] s = s
  perform_users (call ∷ calls) s = perform_users calls (perform_user call s)

  -- A new user comes with an id that is not empty and that no user in the table has.
  abbrev pub HasFreshId : UserCall → Users → Type 0
  HasFreshId (create_call u) s = (u.id ≢ 0) × (lookup u.id s.by_id ≡ none)
  HasFreshId (update_call now user_id updates) s = Unit
  HasFreshId (delete_call user_id) s = Unit

  abbrev pub HaveFreshIds : List UserCall → Users → Type 0
  HaveFreshIds [] s = Unit
  HaveFreshIds (call ∷ calls) s = HasFreshId call s × HaveFreshIds calls (perform_user call s)

  perform_users-Consistent :
      (calls : List UserCall) (s : Users)
      → HaveFreshIds calls s
      → Consistent lower s
      → Consistent lower (perform_users calls s)
  perform_users-Consistent [] s fresh good = good
  perform_users-Consistent (create_call u ∷ calls) s ((real, new), fresh) good =
      perform_users-Consistent calls (create_user lower u s).1 fresh
        (create_user-Consistent lower u s real new good)
  perform_users-Consistent (update_call now user_id updates ∷ calls) s (_, fresh) good =
      perform_users-Consistent calls (update_user lower now user_id updates s).1 fresh
        (update_user-Consistent lower now user_id updates s good)
  perform_users-Consistent (delete_call user_id ∷ calls) s (_, fresh) good =
      perform_users-Consistent calls (delete_user lower user_id s).1 fresh
        (delete_user-Consistent lower user_id s good)

  no_users-Consistent : Consistent lower no_users
  unfolding lookup
  no_users-Consistent = (
    λ id u found. absurd (ground (arith, found)),
    (λ key id found. absurd (ground (arith, found)), λ id u found. absurd (ground (arith, found))),
    (λ key id found. absurd (ground (arith, found)), λ id u found. absurd (ground (arith, found))),
    (λ key id found. absurd (ground (arith, found)), λ id u found. absurd (ground (arith, found))),
  )

  or_index-found :
      (o : Option Text) (field key : Text) (index : Dict Text Text) (id : Text)
      → or_index lower o field key index ≡ some id
      → (o ≡ some id) ⊎ (lookup key index ≡ some id)
  or_index-found (some i) field key index id e = inl e
  or_index-found none field key index id e = elim (Bool-cases (field == 0)) [
    | inl empty ↦ absurd (ground (arith, empty, e))
    | inr named ↦ inr (ground (arith, named, e))
  ]

  identify-present :
      (username email phone : Text) (s : Users) (id : Text)
      → Consistent lower s
      → identify lower username email phone s ≡ some id
      → (u : User) × (lookup id s.by_id ≡ some u)
  unfolding identify
  identify-present username email phone s id (own, by_email, by_username, by_phone) found =
      elim (or_index-found
        (or_index lower (or_index lower none email (lower email) s.by_email) username
          (lower username) s.by_username)
        phone phone s.by_phone id found) [
          | inr here ↦ let (u, has, _, _) = by_phone.0 phone id here in (u, has)
          | inl before ↦
              elim (or_index-found (or_index lower none email (lower email) s.by_email) username
                (lower username) s.by_username id before) [
                  | inr here ↦
                      let (u, has, _, _) = by_username.0 (lower username) id here in (u, has)
                  | inl first ↦ elim (or_index-found none email (lower email) s.by_email id first) [
                    | inr here ↦ let (u, has, _, _) = by_email.0 (lower email) id here in (u, has)
                    | inl e ↦ absurd (ground (arith, e))
                  ]
                ]
        ]

  found_user :
      (username email phone : Text) (s : Users) (id : Text) (u : User)
      → identify lower username email phone s ≡ some id
      → lookup id s.by_id ≡ some u
      → get_user_by_identifier lower username email phone s ≡ (ok (some u), s)
  unfolding get_user_by_identifier
  found_user username email phone s id u is_at has = rw (get_user_by_identifier, is_at, has) refl

  no_key_error :
      (username email phone : Text) (s : Users)
      → Consistent lower s
      → (get_user_by_identifier lower username email phone s).0 ≢ err key_error
  unfolding get_user_by_identifier
  no_key_error username email phone s good raised =
      elim (Option-cases (identify lower username email phone s)) [
        | inl nobody ↦ absurd (ground (arith, nobody, raised))
        | inr (id, is_at) ↦
            let (u, has) = identify-present username email phone s id good is_at in
            let e = found_user username email phone s id u is_at has in
            absurd (ground (arith, sym raised ∙ ap (λ p. p.0) e))
      ]

  identify-email :
      (s : Users) (id : Text) (u : User)
      → Consistent lower s
      → lookup id s.by_id ≡ some u
      → u.email ≢ 0
      → get_user_by_identifier lower 0 u.email 0 s ≡ (ok (some u), s)
  unfolding identify
  identify-email s id u (own, by_email, by_username, by_phone) has named =
      found_user 0 u.email 0 s id u (ground (arith, named, by_email.1 id u has named)) has

  identify-username :
      (s : Users) (id : Text) (u : User)
      → Consistent lower s
      → lookup id s.by_id ≡ some u
      → u.username ≢ 0
      → get_user_by_identifier lower u.username 0 0 s ≡ (ok (some u), s)
  unfolding identify
  identify-username s id u (own, by_email, by_username, by_phone) has named =
      found_user u.username 0 0 s id u (ground (arith, named, by_username.1 id u has named)) has

  identify-phone :
      (s : Users) (id : Text) (u : User)
      → Consistent lower s
      → lookup id s.by_id ≡ some u
      → u.phone ≢ 0
      → get_user_by_identifier lower 0 0 u.phone s ≡ (ok (some u), s)
  unfolding identify
  identify-phone s id u (own, by_email, by_username, by_phone) has named =
      found_user 0 0 u.phone s id u (ground (arith, named, by_phone.1 id u has named)) has

  -- After any run of creations, changes and deletions from the empty table, where each new user
  -- comes with an id that is not empty and not in use, `get_user_by_identifier` never raises
  -- `KeyError`, and for each user of the table it returns that user, given the email address, the
  -- username or the phone number alone, where the user has one.
  pub perform_users-identified :
      (calls : List UserCall)
      → HaveFreshIds calls no_users
      → ((username email phone : Text)
          → (get_user_by_identifier lower username email phone (perform_users calls no_users)).0
            ≢ err key_error)
        × ((id : Text) (u : User)
            → lookup id (perform_users calls no_users).by_id ≡ some u
            → (u.email ≢ 0
                → get_user_by_identifier lower 0 u.email 0 (perform_users calls no_users)
                  ≡ (ok (some u), perform_users calls no_users))
              × (u.username ≢ 0
                  → get_user_by_identifier lower u.username 0 0 (perform_users calls no_users)
                    ≡ (ok (some u), perform_users calls no_users))
              × (u.phone ≢ 0
                  → get_user_by_identifier lower 0 0 u.phone (perform_users calls no_users)
                    ≡ (ok (some u), perform_users calls no_users)))
  perform_users-identified calls fresh = (
    λ username email phone. no_key_error username email phone s good,
    λ id u has. (
      identify-email s id u good has,
      identify-username s id u good has,
      identify-phone s id u good has,
    ),
  )
    where
      s : Users
      s = perform_users calls no_users

      good : Consistent lower s
      good = perform_users-Consistent calls no_users fresh no_users-Consistent
