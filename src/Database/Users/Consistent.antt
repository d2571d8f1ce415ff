-- ===== src/Database/Users/Consistent.antt =====
-- tessera/db/memory.py: the indexes of the users after each operation.
use auth_manager.Database.Users.Changes.{Agrees-create, Agrees-remove, Agrees-replace}
use auth_manager.Base.Errors.{
  after_raise_if, integrity_error, ◌>>◌, modify, pure, value_error, Action,
}
use auth_manager.Base.Dict.{Dict, lookup, erase, insert, lookup-erase, lookup-insert}
use auth_manager.Base.{
  Text, [], ◌≢◌, ◌≡◌, some, none, Bool-cases, ◌==◌, Option-cases, inl, sym, nat_eq, inr, arith, ◌∙◌,
  refl, ap, ◌||◌, ℕ, Option, false,
}
use auth_manager.Database.Users.{
  User, Users, Text, Dict, create_user, check_unique_identifiers, index_user, taken, update_user,
  delete_user, unindex_user, UserUpdates, apply_updates,
}
use auth_manager.Database.Users.Indexed.{Agrees, not_first}
use mathlib.Core.Option.{some-injective}

abbrev pub same_text : Text → Text
same_text t = t

abbrev pub no_users : Users
no_users = record { by_id = []; by_email = []; by_username = []; by_phone = [] }

-- Each user stands under the own id, which is not empty.
abbrev pub HasOwnIds : Dict Text User → Type 0
HasOwnIds table = (id : Text) (u : User) → lookup id table ≡ some u → (u.id ≡ id) × (id ≢ 0)

module _ (lower : Text → Text) where
  -- The three indexes hold exactly the identifiers of the users in the table.
  abbrev pub Consistent : Users → Type 0
  Consistent s =
      HasOwnIds s.by_id
      × Agrees (λ u. u.email) lower s.by_id s.by_email
      × Agrees (λ u. u.username) lower s.by_id s.by_username
      × Agrees (λ u. u.phone) same_text s.by_id s.by_phone

  no_zero : (table : Dict Text User) → HasOwnIds table → lookup 0 table ≡ none
  no_zero table own = elim (Option-cases (lookup 0 table)) [
    | inl gone ↦ gone
    | inr (u, found) ↦ absurd ((own 0 u found).1 refl)
  ]

  HasOwnIds-insert :
      (table : Dict Text User) (id : Text) (u : User)
      → u.id ≡ id
      → id ≢ 0
      → HasOwnIds table
      → HasOwnIds (insert id u table)
  HasOwnIds-insert table id u is_id real own j v found = elim (Bool-cases (j == id)) [
    | inl mine ↦
        let same : v ≡ u =
          some-injective v u (sym found ∙ ground (arith, lookup-insert j id u table, mine)) in
        let own_id : v.id ≡ u.id = ap (λ (x : User). x.id) same in
        let key : j ≡ id = ground (arith, mine) in
        (own_id ∙ is_id ∙ sym key, ground (arith, key, real))
    | inr other ↦ own j v (ground (arith, lookup-insert j id u table, other, found))
  ]

  HasOwnIds-erase :
      (table : Dict Text User) (id : Text) → HasOwnIds table → HasOwnIds (erase id table)
  HasOwnIds-erase table id own j v found =
      own j v (not_first (j == id) (lookup j table) v (sym (lookup-erase j id table) ∙ found)).1

  -- The test of the identifiers, and then the rest of the method.
  after_check :
      {A : Type 0} (P : Users → Type 0) (email username phone : Text) (exclude : Option Text)
      (m : Action Users A) (s : Users)
      → P s
      → (taken email (lower email) exclude s.by_email ≡ false
          → taken username (lower username) exclude s.by_username ≡ false
          → taken phone phone exclude s.by_phone ≡ false
          → P (m s).1)
      → P ((check_unique_identifiers lower email username phone exclude >> m) s).1
  unfolding check_unique_identifiers
  after_check P email username phone exclude m s kept rest =
      after_raise_if P
        (taken email (lower email) exclude s.by_email
          || taken username (lower username) exclude s.by_username
          || taken phone phone exclude s.by_phone)
        integrity_error m s kept
        (λ free. rest (ground (arith, free)) (ground (arith, free)) (ground (arith, free)))

  pub create_user-Consistent :
      (u : User) (s : Users)
      → u.id ≢ 0
      → lookup u.id s.by_id ≡ none
      → Consistent s
      → Consistent (create_user lower u s).1
  unfolding create_user check_unique_identifiers index_user
  create_user-Consistent u s real fresh (own, email, username, phone) =
      after_check Consistent u.email u.username u.phone none store s (own, email, username, phone)
        (λ free_email free_username free_phone. (
          HasOwnIds-insert s.by_id u.id u refl real own,
          Agrees-create (λ x. x.email) lower s.by_id s.by_email u.id u gone fresh free_email email,
          Agrees-create (λ x. x.username) lower s.by_id s.by_username u.id u gone fresh
              free_username username,
          Agrees-create (λ x. x.phone) same_text s.by_id s.by_phone u.id u gone fresh free_phone
              phone,
        ))
    where
      gone : lookup 0 s.by_id ≡ none
      gone = no_zero s.by_id own

      store : Action Users User
      store = do
        modify (λ (x : Users). index_user lower u (record x { by_id = insert u.id u x.by_id }))
        pure u

  pub update_user-Consistent :
      (now : ℕ) (user_id : Text) (updates : UserUpdates) (s : Users)
      → Consistent s
      → Consistent (update_user lower now user_id updates s).1
  unfolding update_user check_unique_identifiers index_user unindex_user
  update_user-Consistent now user_id updates s (own, email, username, phone) =
      elim (Option-cases (lookup user_id s.by_id)) [
        | inl none_found ↦ rw (update_user, none_found) (own, email, username, phone)
        | inr (r, has) ↦
            let r' : User = record (apply_updates updates r) { updated_at = now } in
            let gone = no_zero s.by_id own in
            let (is_id, real) = own user_id r has in
            let store : Action Users (Option User) = (do
              modify (λ (x : Users).
                  index_user lower r'
                    (record (unindex_user lower r x) { by_id = insert user_id r' x.by_id }))
              pure (some r')) in
            rw (update_user, has)
              (after_raise_if Consistent updates.immutable value_error
                (check_unique_identifiers lower r'.email r'.username r'.phone (some user_id)
                  >> store)
                s (own, email, username, phone)
                (λ _.
                  after_check Consistent r'.email r'.username r'.phone (some user_id) store s
                    (own, email, username, phone)
                    (λ free_email free_username free_phone. (
                      HasOwnIds-insert s.by_id user_id r' is_id real own,
                      Agrees-replace (λ x. x.email) lower s.by_id s.by_email user_id r.id r r' is_id
                          gone has free_email email,
                      Agrees-replace (λ x. x.username) lower s.by_id s.by_username user_id r.id r r'
                          is_id gone has free_username username,
                      Agrees-replace (λ x. x.phone) same_text s.by_id s.by_phone user_id r.id r r'
                          is_id gone has free_phone phone,
                    ))))
      ]

  pub delete_user-Consistent :
      (user_id : Text) (s : Users) → Consistent s → Consistent (delete_user lower user_id s).1
  unfolding delete_user unindex_user
  delete_user-Consistent user_id s (own, email, username, phone) =
      elim (Option-cases (lookup user_id s.by_id)) [
        | inl gone ↦ rw (delete_user, gone) (own, email, username, phone)
        | inr (r, has) ↦
            let (is_id, _) = own user_id r has in
            rw (delete_user, has)
              (
                HasOwnIds-erase s.by_id user_id own,
                Agrees-remove (λ x. x.email) lower s.by_id s.by_email user_id r.id r is_id has
                    email,
                Agrees-remove (λ x. x.username) lower s.by_id s.by_username user_id r.id r is_id has
                    username,
                Agrees-remove (λ x. x.phone) same_text s.by_id s.by_phone user_id r.id r is_id has
                    phone,
              )
      ]
