-- ===== src/Database/Users.antt =====
-- tessera/db/memory.py: the user table and its three identifier indexes. `lower` stands for
-- `str.lower`. A missing identifier is the empty string, which the code treats the same way.
pub mod Indexed
pub mod Changes
pub mod Consistent
pub mod Identified
use auth_manager.Base.Errors.{
  Action, raise_if, ok, ◌>>◌, modify, err, value_error, integrity_error, pure, key_error,
}
use auth_manager.Base.Dict.{Dict, lookup, insert, erase}
use auth_manager.Base.{
  Text, Bool, Option, ℕ, some, if◌then◌else◌, none, ◌==◌, false, nat_eq, not, ◌||◌, true, ◌&&◌,
  List,
}

pub record User : Type 0 where
  pub id : Text
  pub email : Text
  pub username : Text
  pub phone : Text
  pub hashed_password : Text
  pub role : Text
  pub is_active : Bool
  pub mfa_enabled : Bool
  pub mfa_secret : Text
  pub mfa_backup_codes : List Text
  pub created_at : ℕ
  pub updated_at : ℕ

pub record Users : Type 0 where
  pub by_id : Dict Text User
  pub by_email : Dict Text Text
  pub by_username : Dict Text Text
  pub by_phone : Dict Text Text

-- The keys that `updates` may hold; `immutable` says that "id" or "created_at" is among them.
pub record UserUpdates : Type 0 where
  pub immutable : Bool
  pub email : Option Text
  pub username : Option Text
  pub phone : Option Text
  pub hashed_password : Option Text
  pub role : Option Text
  pub is_active : Option Bool
  pub mfa_enabled : Option Bool
  pub mfa_secret : Option Text
  pub mfa_backup_codes : Option (List Text)

-- `updates.get(field, record.get(field))`
abbrev pub updated {ℓ} : {A : Type ℓ} → Option A → A → A
updated none old = old
updated (some new) old = new

abbrev pub apply_updates : UserUpdates → User → User
apply_updates u r = record r {
  email = updated u.email r.email;
  username = updated u.username r.username;
  phone = updated u.phone r.phone;
  hashed_password = updated u.hashed_password r.hashed_password;
  role = updated u.role r.role;
  is_active = updated u.is_active r.is_active;
  mfa_enabled = updated u.mfa_enabled r.mfa_enabled;
  mfa_secret = updated u.mfa_secret r.mfa_secret;
  mfa_backup_codes = updated u.mfa_backup_codes r.mfa_backup_codes;
}

-- One index gains an entry, unless the identifier is empty.
abbrev pub index_one : Text → Text → Text → Dict Text Text → Dict Text Text
index_one field key user_id index = if field == 0 then index else insert key user_id index

-- One index loses its entry, if it is the user's.
abbrev pub unindex_one : Text → Text → Text → Dict Text Text → Dict Text Text
unindex_one field key user_id index = if field == 0 then index else elim (lookup key index) [
  | none ↦ index
  | some owner ↦ if owner == user_id then erase key index else index
]

-- An identifier that another user holds.
abbrev pub taken : Text → Text → Option Text → Dict Text Text → Bool
taken field key exclude index = if field == 0 then false else elim (lookup key index) [
  | none ↦ false
  | some owner ↦
      not (owner == 0) && elim exclude [ none ↦ true | some user_id ↦ not (owner == user_id) ]
]

module _ (lower : Text → Text) where
  -- `_index_user`
  unfoldable pub index_user : User → Users → Users
  index_user u s = record s {
    by_email = index_one u.email (lower u.email) u.id s.by_email;
    by_username = index_one u.username (lower u.username) u.id s.by_username;
    by_phone = index_one u.phone u.phone u.id s.by_phone;
  }

  -- `_unindex_user`
  unfoldable pub unindex_user : User → Users → Users
  unindex_user u s = record s {
    by_email = unindex_one u.email (lower u.email) u.id s.by_email;
    by_username = unindex_one u.username (lower u.username) u.id s.by_username;
    by_phone = unindex_one u.phone u.phone u.id s.by_phone;
  }

  -- `_check_unique_identifiers`
  unfoldable pub check_unique_identifiers :
      Text → Text → Text → Option Text → Action Users (Unit {0})
  check_unique_identifiers email username phone exclude s =
      raise_if
        (taken email (lower email) exclude s.by_email
          || taken username (lower username) exclude s.by_username
          || taken phone phone exclude s.by_phone)
        integrity_error s

  unfoldable pub create_user : User → Action Users User
  unfolding check_unique_identifiers index_user
  create_user u = do
    check_unique_identifiers u.email u.username u.phone none
    modify (λ (s : Users). index_user u (record s { by_id = insert u.id u s.by_id }))
    pure u

  abbrev pub get_user_by_id : Text → Users → Option User
  get_user_by_id user_id s = lookup user_id s.by_id

  -- The id found so far, or else the entry of the next index.
  abbrev pub or_index : Option Text → Text → Text → Dict Text Text → Option Text
  or_index (some user_id) field key index = some user_id
  or_index none field key index = if field == 0 then none else lookup key index

  unfoldable pub identify : Text → Text → Text → Users → Option Text
  identify username email phone s =
      or_index
        (or_index (or_index none email (lower email) s.by_email) username (lower username)
          s.by_username)
        phone phone s.by_phone

  -- `get_user_by_identifier`: `self._users[user_id]` raises `KeyError` where the index is stale.
  unfoldable pub get_user_by_identifier : Text → Text → Text → Action Users (Option User)
  unfolding identify
  get_user_by_identifier username email phone s = elim (identify username email phone s) [
    | none ↦ (ok none, s)
    | some user_id ↦ elim (lookup user_id s.by_id) [
      | none ↦ (err key_error, s)
      | some u ↦ (ok (some u), s)
    ]
  ]

  unfoldable pub update_user : ℕ → Text → UserUpdates → Action Users (Option User)
  unfolding check_unique_identifiers index_user unindex_user
  update_user now user_id updates s = elim (lookup user_id s.by_id) [
    | none ↦ (ok none, s)
    | some r ↦
        (do
          raise_if updates.immutable value_error
          let r' : User = record (apply_updates updates r) { updated_at = now }
          check_unique_identifiers r'.email r'.username r'.phone (some user_id)
          modify (λ (x : Users).
              index_user r' (record (unindex_user r x) { by_id = insert user_id r' x.by_id }))
          pure (some r'))
          s
  ]

  unfoldable pub delete_user : Text → Users → Bool × Users
  unfolding unindex_user
  delete_user user_id s = elim (lookup user_id s.by_id) [
    | none ↦ (false, s)
    | some r ↦ (true, unindex_user r (record s { by_id = erase user_id s.by_id }))
  ]
