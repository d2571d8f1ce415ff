-- ===== src/Rbac/Database.antt =====
-- tessera/db/memory.py: roles and role assignments.
use auth_manager.Base.Errors.{Result, err, value_error, integrity_error, ok}
use auth_manager.Base.Chars.{Chars, is_empty, chars_eq}
use auth_manager.Base.Dict.{Dict, lookup, has_key, values, erase, insert}
use auth_manager.Base.{
  Bool, Text, Option, ℕ, true, List, some, false, not, if◌then◌else◌, none, ◌==◌, ◌∷◌, ◌&&◌, nat_eq,
  ◌||◌, [], sort_by, keep,
}

pub data Scope : Type 0 where
  global organization team resource : Scope

abbrev pub scope_beq : Scope → Scope → Bool
scope_beq global global = true
scope_beq organization organization = true
scope_beq team team = true
scope_beq resource resource = true
scope_beq _ _ = false

-- An id of 0 is a role that has none yet.
pub record Role : Type 0 where
  pub id : Text
  pub name : Chars
  pub description : Text
  pub permissions : List Chars
  pub inherits_from : Option Text
  pub organization_id : Option Text
  pub is_system : Bool
  pub created_at : Option ℕ
  pub updated_at : ℕ

pub record Assignment : Type 0 where
  pub id : Text
  pub user_id : Text
  pub role_id : Text
  pub scope_type : Scope
  pub scope_id : Option Text
  pub granted_by : Text
  pub expires_at : Option ℕ
  pub created_at : ℕ

pub record Tables : Type 0 where
  pub roles : Dict Text Role
  pub assignments : Dict Text Assignment

-- The uniqueness loop of `save_role`: `existing` is the id of the stored role, if there is one.
abbrev is_other : Option Text → Text → Bool
is_other none id = true
is_other (some existing) id = not (id == existing)

pub name_taken : Chars → Option Text → List Role → Bool
name_taken name existing [] = false
name_taken name existing (r ∷ rs) =
    (r.name == name && is_other existing r.id) || name_taken name existing rs

abbrev pub or_else {ℓ} : {A : Type ℓ} → Option A → Option A → Option A
or_else none o = o
or_else (some a) o = some a

abbrev pub stored_id : Option Role → Option Text
stored_id none = none
stored_id (some r) = some r.id

-- `save_role`, with the clock and a fresh id.
unfoldable pub save_role : ℕ → Text → Role → Tables → Result Role × Tables
unfolding name_taken
save_role now new_id r db =
    let existing : Option Role = if r.id == 0 then none else lookup r.id db.roles in
    if is_empty r.name
    then (err value_error, db)
    else if name_taken r.name (stored_id existing) (values db.roles)
    then (err integrity_error, db)
    else let created : Option ℕ = elim existing [ none ↦ some now | some old ↦ old.created_at ] in
      let record_id : Text = elim existing [
        | none ↦ if r.id == 0 then new_id else r.id
        | some _ ↦ r.id
      ] in
      let saved : Role = record r {
        id = record_id;
        created_at = or_else r.created_at created;
        updated_at = now;
      } in
      (ok saved, record db { roles = insert saved.id saved db.roles })

abbrev created_or_zero : Role → ℕ
created_or_zero r = elim r.created_at [ none ↦ 0 | some t ↦ t ]

-- Every stored role has its `created_at`.
unfoldable pub list_roles : Tables → List Role
list_roles db = sort_by created_or_zero (values db.roles)

abbrev has_assignment : Text → List Assignment → Bool
has_assignment role_id [] = false
has_assignment role_id (a ∷ rest) = a.role_id == role_id || has_assignment role_id rest

unfoldable pub delete_role : Text → Tables → Result Bool × Tables
delete_role role_id db =
    if has_key role_id db.roles
    then if has_assignment role_id (values db.assignments)
      then (err integrity_error, db)
      else (ok true, record db { roles = erase role_id db.roles })
    else (ok false, db)

-- `save_role_assignment`; the record carries its fresh id.
unfoldable pub save_role_assignment : Assignment → Tables → Result Assignment × Tables
save_role_assignment a db =
    if a.user_id == 0 || a.role_id == 0
    then (err value_error, db)
    else if has_key a.role_id db.roles
    then (ok a, record db { assignments = insert a.id a db.assignments })
    else (err integrity_error, db)

abbrev pub opt_beq : Option Text → Option Text → Bool
opt_beq none none = true
opt_beq none (some b) = false
opt_beq (some a) none = false
opt_beq (some a) (some b) = a == b

abbrev asked {ℓ} : {A : Type ℓ} → Option A → (A → Bool) → Bool
asked none p = true
asked (some a) p = p a

-- The filters of `query_role_assignments`.
abbrev pub is_asked_for : Option Text → Option Text → Option Scope → Option Text → Assignment → Bool
is_asked_for user_id role_id scope_type scope_id a =
    asked user_id (λ u. a.user_id == u)
    && asked role_id (λ r. a.role_id == r)
    && asked scope_type (λ s. scope_beq a.scope_type s)
    && asked scope_id (λ s. opt_beq a.scope_id (some s))

abbrev pub assigned_at : Assignment → ℕ
assigned_at a = a.created_at

unfoldable pub query_role_assignments :
    Option Text → Option Text → Option Scope → Option Text → Tables → List Assignment
query_role_assignments user_id role_id scope_type scope_id db =
    sort_by assigned_at
      (keep (is_asked_for user_id role_id scope_type scope_id) (values db.assignments))

unfoldable pub delete_role_assignment : Text → Tables → Bool × Tables
delete_role_assignment id db =
    (has_key id db.assignments, record db { assignments = erase id db.assignments })

-- The `inherits_from` of a role that is there.
abbrev pub parent_of : Dict Text Role → Text → Option Text
parent_of roles id = elim (lookup id roles) [ none ↦ none | some r ↦ r.inherits_from ]
