-- ===== src/Tests/Rbac.antt =====
-- A user with a role that inherits from another one.
use auth_manager.Rbac.Evaluation.Sound.{Holds, has_permission_sound}
use auth_manager.Rbac.Evaluation.Matching.{Covers, permission_matches-Covers}
use auth_manager.Rbac.Evaluation.Resolve.{resolve_role_permissions_total}
use auth_manager.Rbac.Termination.{check_cycle_total}
use auth_manager.Base.Chars.{Chars, codes}
use auth_manager.Rbac.Acyclic.{IsAcyclic, update_role-IsAcyclic, missing, step, Grounded, root}
use auth_manager.Rbac.Evaluation.{
  has_permission, permission_matches, resolve_role_permissions, assignment_matches,
}
use auth_manager.Rbac.{Manager, RoleUpdates, ensure_loaded, update_role, check_cycle}
use auth_manager.Base.Dict.{Dict, lookup}
use auth_manager.Rbac.Database.{Role, Assignment, global, organization, query_role_assignments}
use auth_manager.Base.{
  Text, ◌≢◌, Bool, List, ◌∷◌, none, arith, Option, [], some, ◌≡◌, false, true, ◌↔◌, Option-cases,
  ◌⊎◌, inl, nat_eq, refl, inr, subst, sym,
}

abbrev role : Text → Chars → List Chars → Option Text → Role
role id name permissions inherits_from = record {
  id = id;
  name = name;
  description = 0;
  permissions = permissions;
  inherits_from = inherits_from;
  organization_id = none;
  is_system = false;
  created_at = some 0;
  updated_at = 0;
}

abbrev reader : Role
reader = role 1 (codes "reader") (codes "docs:read" ∷ []) none

abbrev editor : Role
editor = role 2 (codes "editor") (codes "docs:write:*" ∷ []) (some 1)

abbrev roles : Dict Text Role
roles = (1, reader) ∷ (2, editor) ∷ []

abbrev granted : Assignment
granted = record {
  id = 31;
  user_id = 8;
  role_id = 2;
  scope_type = global;
  scope_id = none;
  granted_by = 9;
  expires_at = some 100;
  created_at = 0;
}

abbrev manager : Manager
manager = record {
  db = record { roles = roles; assignments = (31, granted) ∷ [] };
  roles_by_id = roles;
  loaded = true;
}

has_it : (has_permission 50 8 (codes "docs:read") organization (some 4) manager).0 ≡ some true
unfolding has_permission query_role_assignments ensure_loaded assignment_matches lookup
    permission_matches
has_it = refl

has_permission_sound_example :
    Holds 50 8 (codes "docs:read") organization (some 4) (ensure_loaded manager)
has_permission_sound_example =
    has_permission_sound 50 8 (codes "docs:read") organization (some 4) manager has_it

-- The editor becomes the parent of the reader: refused, since the editor inherits from the reader.
abbrev closing : RoleUpdates
closing = record { name = none; description = none; permissions = none; inherits_from = some 2 }

known_parent :
    (k : Text) (r : Role)
    → lookup k roles ≡ some r
    → (r.inherits_from ≡ none) ⊎ (r.inherits_from ≡ some 1)
unfolding lookup
known_parent k r found = ground arith

reader_there : lookup 1 roles ≡ some reader
unfolding lookup
reader_there = refl

roles-IsAcyclic : IsAcyclic (ensure_loaded manager).roles_by_id
unfolding ensure_loaded
roles-IsAcyclic k = elim (Option-cases (lookup k roles)) [
  | inl gone ↦ missing gone
  | inr (r, found) ↦ elim (known_parent k r found) [
    | inl top ↦ step r found (subst (Grounded roles) (sym top) root)
    | inr below ↦ step r found (subst (Grounded roles) (sym below) (step reader reader_there root))
  ]
]

abbrev reader_id : Text
reader_id = 1

one_id : reader_id ≢ 0
one_id = omega arith

update_role-IsAcyclic_example : IsAcyclic (update_role 60 1 closing manager).1.roles_by_id
update_role-IsAcyclic_example = update_role-IsAcyclic 60 1 closing manager one_id roles-IsAcyclic

check_cycle_total_example : (again : Bool) × (check_cycle roles 1 2 ≡ some again)
check_cycle_total_example = check_cycle_total roles 1 2

resolve_role_permissions_total_example :
    (ps : List Chars) × (resolve_role_permissions roles editor ≡ some ps)
resolve_role_permissions_total_example = resolve_role_permissions_total roles editor

permission_matches-Covers_example :
    (permission_matches (codes "docs:*") (codes "docs:read") ≡ true) ↔ (
      (codes "docs:*" ≢ [])
      × (codes "docs:read" ≢ [])
      × Covers (codes "docs:*") (codes "docs:read"))
permission_matches-Covers_example = permission_matches-Covers (codes "docs:*") (codes "docs:read")
