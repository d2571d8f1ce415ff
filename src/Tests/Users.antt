-- ===== src/Tests/Users.antt =====
-- A user table in which a user is created and renamed, and another is created and deleted.
use auth_manager.Base.Errors.{err, key_error, ok}
use auth_manager.Base.{Text, List, false, arith, ◌≡◌, ◌≢◌, true, some, ◌∷◌, [], none, refl, nat_eq}
use auth_manager.Base.Dict.{lookup, erase, insert}
use auth_manager.Database.Users.{
  check_unique_identifiers, index_user, unindex_user, create_user, update_user, delete_user,
  get_user_by_identifier, UserUpdates, User,
}
use auth_manager.Database.Users.Consistent.{no_users}
use auth_manager.Database.Users.Identified.{
  UserCall, create_call, update_call, delete_call, HaveFreshIds, perform_users,
  perform_users-identified,
}

abbrev keep_case : Text → Text
keep_case t = t

abbrev member_with : Text → Text → User
member_with user_id name = record {
  id = user_id;
  email = 9;
  username = name;
  phone = 0;
  hashed_password = 78;
  role = 3;
  is_active = true;
  mfa_enabled = false;
  mfa_secret = 0;
  mfa_backup_codes = [];
  created_at = 0;
  updated_at = 0;
}

abbrev renaming : UserUpdates
renaming = record {
  immutable = false;
  email = some 10;
  username = none;
  phone = none;
  hashed_password = none;
  role = none;
  is_active = none;
  mfa_enabled = none;
  mfa_secret = none;
  mfa_backup_codes = none;
}

abbrev history : List UserCall
history =
    create_call (member_with 8 4)
    ∷ update_call 5 8 renaming
    ∷ create_call (member_with 7 6)
    ∷ delete_call 7
    ∷ create_call (member_with 6 4)
    ∷ []

history-HaveFreshIds : HaveFreshIds keep_case history no_users
unfolding create_user update_user delete_user check_unique_identifiers index_user unindex_user
    lookup erase insert
history-HaveFreshIds = (
  (λ e. absurd (ground (arith, e)), refl),
  (
    tt,
    ((λ e. absurd (ground (arith, e)), refl), (tt, ((λ e. absurd (ground (arith, e)), refl), tt))),
  ),
)

-- The name 4 is not free, so the last creation is refused.
names_after : (perform_users keep_case history no_users).by_username ≡ (4, 8) ∷ []
unfolding create_user update_user delete_user check_unique_identifiers index_user unindex_user
    lookup erase insert
names_after = refl

perform_users-identified_example :
    ((username email phone : Text)
      → (get_user_by_identifier keep_case username email phone
          (perform_users keep_case history no_users)).0
        ≢ err key_error)
    × ((id : Text) (u : User)
        → lookup id (perform_users keep_case history no_users).by_id ≡ some u
        → (u.email ≢ 0
            → get_user_by_identifier keep_case 0 u.email 0
                (perform_users keep_case history no_users)
              ≡ (ok (some u), perform_users keep_case history no_users))
          × (u.username ≢ 0
              → get_user_by_identifier keep_case u.username 0 0
                  (perform_users keep_case history no_users)
                ≡ (ok (some u), perform_users keep_case history no_users))
          × (u.phone ≢ 0
              → get_user_by_identifier keep_case 0 0 u.phone
                  (perform_users keep_case history no_users)
                ≡ (ok (some u), perform_users keep_case history no_users)))
perform_users-identified_example = perform_users-identified keep_case history history-HaveFreshIds
