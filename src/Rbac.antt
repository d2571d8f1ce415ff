-- ===== src/Rbac.antt =====
-- tessera/admin/rbac_manager.py, `class RBACManager`, over the role tables of tessera/db/memory.py.
pub mod Database
pub mod Termination
pub mod Evaluation
pub mod Acyclic
use auth_manager.Base.Errors.{
  Action, ◌>>◌, err, raise_if, ok, not_found, permission_error, value_error, modify, ◌>>=◌, gets,
}
use auth_manager.Base.Chars.{Chars, codes, strip, lower, is_empty, chars_eq}
use Prim.Native.Nat.{ℕ, suc}
use auth_manager.Base.Dict.{Dict, values, insert, lookup, has_key, erase}
use auth_manager.Base.{
  List, if◌then◌else◌, ℕ, Option, Text, Bool, some, ◌∷◌, [], ◌||◌, false, suc, true, none, contains,
  length, keep, nat_eq, ◌&&◌, ◌==◌, zero, not,
}
use auth_manager.Rbac.Database.{
  Tables, Role, list_roles, Scope, save_role, Assignment, delete_role_assignment, parent_of,
  opt_beq, scope_beq, global, save_role_assignment,
}

-- `Role`s are loaded into a cache when the manager is first used.
pub record Manager : Type 0 where
  pub db : Tables
  pub roles_by_id : Dict Text Role
  pub loaded : Bool

-- `load`
abbrev pub load_roles : List Role → Dict Text Role → Dict Text Role
load_roles [] d = d
load_roles (r ∷ rs) d = load_roles rs (insert r.id r d)

unfoldable pub ensure_loaded : Manager → Manager
ensure_loaded m =
    if m.loaded
    then m
    else record m { roles_by_id = load_roles (list_roles m.db) []; loaded = true }

abbrev pub system_role_names : List Chars
system_role_names = codes "owner" ∷ codes "admin" ∷ codes "superadmin" ∷ []

is_system_role : Role → Bool
is_system_role r = r.is_system || contains (lower r.name) system_role_names

-- The `while` loop of `_check_cycle`: `some true` where a role comes up again, `some false` at the
-- end of the chain of parents, and `none` out of fuel.
pub walk : ℕ → Dict Text Role → List Text → Option Text → Option Bool
walk fuel roles visited none = some false
walk zero roles visited (some current) = none
walk (suc fuel) roles visited (some current) =
    let rest = walk fuel roles (current ∷ visited) (parent_of roles current) in
    if contains current visited then some true else rest

-- Each round visits another role, so one round more than there are roles is enough.
pub check_cycle : Dict Text Role → Text → Text → Option Bool
unfolding walk
check_cycle roles role_id parent_id =
    walk (suc (length roles)) roles (role_id ∷ []) (some parent_id)

-- Saves a role through the database and refreshes the cache.
save : ℕ → Text → Role → Action Manager Role
save now new_id r m =
    let (result, db) = save_role now new_id r m.db in
    elim result [
      | err e ↦ (err e, record m { db = db })
      | ok saved ↦
          (ok saved, record m { db = db; roles_by_id = insert saved.id saved m.roles_by_id })
    ]

abbrev or_keep {ℓ} : {A : Type ℓ} → Option A → A → A
or_keep none a = a
or_keep (some b) a = b

unfoldable create_role :
    ℕ → Text → Chars → Text → List Chars → Option Text → Option Text → Bool → Action Manager Role
unfolding save
create_role now new_id name description permissions inherits_from organization_id is_system = do
  raise_if (is_empty (strip name)) value_error
  modify ensure_loaded
  roles ← gets (λ m. m.roles_by_id)
  raise_if (elim inherits_from [ none ↦ false | some p ↦ not (has_key p roles) ]) value_error
  save now new_id (record {
    id = 0;
    name = strip name;
    description = description;
    permissions = permissions;
    inherits_from = inherits_from;
    organization_id = organization_id;
    is_system = is_system;
    created_at = none;
    updated_at = 0;
  })

-- What `update_role` is given; `none` leaves a field as it is.
pub record RoleUpdates : Type 0 where
  pub name : Option Chars
  pub description : Option Text
  pub permissions : Option (List Chars)
  pub inherits_from : Option Text

-- The parent and cycle tests of `update_role`; running out of fuel would be an error too.
check_parent : Dict Text Role → Text → Option Text → Bool
check_parent roles role_id none = true
check_parent roles role_id (some parent) =
    has_key parent roles
    && elim (check_cycle roles role_id parent) [ none ↦ false | some again ↦ not again ]

merge : Text → Role → RoleUpdates → Role
merge role_id role u = record role {
  id = role_id;
  name = elim u.name [ none ↦ role.name | some n ↦ strip n ];
  description = or_keep u.description role.description;
  permissions = or_keep u.permissions role.permissions;
  inherits_from = elim u.inherits_from [ none ↦ role.inherits_from | some p ↦ some p ];
}

abbrev blank_name : Option Chars → Bool
blank_name none = false
blank_name (some n) = is_empty (strip n)

pub update_role : ℕ → Text → RoleUpdates → Action Manager Role
unfolding is_system_role check_parent check_cycle merge save
update_role now role_id u m =
    let m' = ensure_loaded m in
    elim (lookup role_id m'.roles_by_id) [
      | none ↦ (err not_found, m')
      | some role ↦
          (do
            raise_if (is_system_role role) permission_error
            raise_if (blank_name u.name) value_error
            raise_if (not (check_parent m'.roles_by_id role_id u.inherits_from)) value_error
            save now role_id (merge role_id role u))
            m'
    ]

unfoldable pub delete_role : Text → Action Manager Bool
unfolding is_system_role
delete_role role_id m =
    let m' = ensure_loaded m in
    elim (lookup role_id m'.roles_by_id) [
      | none ↦ (ok false, m')
      | some role ↦
          if is_system_role role
          then (err permission_error, m')
          else let (result, db) = Database.delete_role role_id m'.db in
            elim result [
              | err e ↦ (err e, record m' { db = db })
              | ok removed ↦ (
                ok removed,
                record m' {
                  db = db;
                  roles_by_id = if removed then erase role_id m'.roles_by_id else m'.roles_by_id;
                },
              )
            ]
    ]

-- `list_roles`: with an organization, the global roles and those of that organization.
unfoldable list_manager_roles : Option Text → Manager → List Role × Manager
list_manager_roles org m =
    let m' = ensure_loaded m in
    let all = values m'.roles_by_id in
    (
      elim org [
        | none ↦ all
        | some o ↦
            keep (λ r. opt_beq r.organization_id none || opt_beq r.organization_id (some o)) all
      ],
      m',
    )

unfoldable assign_role :
    ℕ → Text → Text → Text → Scope → Option Text → Text → Option ℕ → Action Manager Assignment
assign_role now new_id user_id role_id scope scope_id granted_by expires_at = do
  raise_if (user_id == 0) value_error
  raise_if (granted_by == 0) value_error
  modify ensure_loaded
  roles ← gets (λ m. m.roles_by_id)
  raise_if (not (has_key role_id roles)) not_found
  raise_if (not (scope_beq scope global) && elim scope_id [ none ↦ true | some s ↦ s == 0 ])
      value_error
  λ m.
      let (r, db) =
        save_role_assignment
          (record {
            id = new_id;
            user_id = user_id;
            role_id = role_id;
            scope_type = scope;
            scope_id = scope_id;
            granted_by = granted_by;
            expires_at = expires_at;
            created_at = now;
          })
          m.db in
      (r, record m { db = db })

unfoldable revoke_assignment : Text → Manager → Bool × Manager
revoke_assignment id m =
    let (removed, db) = delete_role_assignment id m.db in (removed, record m { db = db })
