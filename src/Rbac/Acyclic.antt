-- ===== src/Rbac/Acyclic.antt =====
-- tessera/admin/rbac_manager.py: updates keep the inheritance of roles free of cycles.
use auth_manager.Base.Errors.{◌>>◌, raise_if, permission_error, value_error}
use auth_manager.Base.Chars.{is_empty}
use auth_manager.Rbac.Database.{Role, save_role, name_taken, stored_id, or_else}
use auth_manager.Base.{
  Text, Option, some, ◌≢◌, none, ◌≡◌, ℕ, arith, Bool-cases, nat_eq, List, ◌==◌, contains, inl, true,
  inr, false, ◌∙◌, suc, Option-cases, ◌∷◌, zero, subst, ◌⊎◌, if◌then◌else◌, length, [], sym, not,
  refl,
}
use auth_manager.Rbac.{
  walk, Text, Role, save, save_role, Manager, is_empty, RoleUpdates, check_parent, merge,
  check_cycle, is_system_role, blank_name, update_role, ensure_loaded,
}
use auth_manager.Base.Dict.{Dict, lookup, insert, lookup-insert, values}

-- The chain of parents from a role comes to an end.
pub data Grounded (roles : Dict Text Role) : Option Text → Type 0 where
  root : Grounded roles none
  missing : {k : Text} → lookup k roles ≡ none → Grounded roles (some k)
  step :
      {k : Text} (r : Role)
      → lookup k roles ≡ some r
      → Grounded roles r.inherits_from
      → Grounded roles (some k)

abbrev pub IsAcyclic : Dict Text Role → Type 0
IsAcyclic roles = (k : Text) → Grounded roles (some k)

-- A chain that the walk follows to its end does not pass through what was visited before, so it is
-- there in every table that differs at such a role only.
walk-Grounded :
    (roles roles' : Dict Text Role) (id : Text)
    → ((k : Text) → k ≢ id → lookup k roles' ≡ lookup k roles)
    → (fuel : ℕ) (visited : List Text) (o : Option Text) → contains id visited ≡ true
    → walk fuel roles visited o ≡ some false
    → Grounded roles' o
unfolding walk
walk-Grounded roles roles' id agree zero visited none seen e = root
walk-Grounded roles roles' id agree (suc fuel) visited none seen e = root
walk-Grounded roles roles' id agree zero visited (some c) seen e = cc
walk-Grounded roles roles' id agree (suc fuel) visited (some c) seen e =
    elim (Bool-cases (contains c visited)) [
      | inl again ↦ absurd (ground arith)
      | inr fresh ↦
          let other : c ≢ id = λ same. cc in
          elim (Option-cases (lookup c roles)) [
            | inl gone ↦ missing (agree c other ∙ gone)
            | inr (r, found) ↦ step r (agree c other ∙ found) (
                walk-Grounded roles roles' id agree fuel (c ∷ visited) r.inherits_from
                  (ground arith) (ground arith))
          ]
    ]

module _ (roles : Dict Text Role) (id : Text) (r : Role) where
  agree_elsewhere : (k : Text) → k ≢ id → lookup k (insert id r roles) ≡ lookup k roles
  agree_elsewhere k other = ground (arith, lookup-insert k id r roles)

  found_there : lookup id (insert id r roles) ≡ some r
  found_there = ground (arith, lookup-insert id id r roles)

  -- With a new parent whose chain ends, every chain ends.
  reparent :
      {o : Option Text}
      → Grounded (insert id r roles) r.inherits_from
      → Grounded roles o
      → Grounded (insert id r roles) o
  reparent g root = root
  reparent g (missing {k = k} gone) = elim (Bool-cases (k == id)) [
    | inl here ↦ let same : k ≡ id = ground arith in rw same (step r found_there g)
    | inr other ↦ missing (agree_elsewhere k (ground arith) ∙ gone)
  ]
  reparent g (step {k = k} s found rest) = elim (Bool-cases (k == id)) [
    | inl here ↦ let same : k ≡ id = ground arith in rw same (step r found_there g)
    | inr other ↦ step s (agree_elsewhere k (ground arith) ∙ found) (reparent g rest)
  ]

  -- With the same parent as before, every chain is as before.
  same_parent :
      (old : Role)
      → lookup id roles ≡ some old
      → r.inherits_from ≡ old.inherits_from
      → {o : Option Text} → Grounded roles o
      → Grounded (insert id r roles) o
  same_parent old was e root = root
  same_parent old was e (missing {k = k} gone) = elim (Bool-cases (k == id)) [
    | inl here ↦ absurd (ground arith)
    | inr other ↦ missing (agree_elsewhere k (ground arith) ∙ gone)
  ]
  same_parent old was e (step {k = k} s found rest) = elim (Bool-cases (k == id)) [
    | inl here ↦
        let same : k ≡ id = ground arith in
        let path : s.inherits_from ≡ r.inherits_from = ground arith in
        let chain = subst (Grounded (insert id r roles)) path (same_parent old was e rest) in
        rw same (step r found_there chain)
    | inr other ↦ step s (agree_elsewhere k (ground arith) ∙ found) (same_parent old was e rest)
  ]

-- What a save of a role that has an id leaves in the cache: the roles as they were, or that role
-- with its times filled in.
save-cases :
    (now : ℕ) (new_id : Text) (r : Role) (m : Manager)
    → r.id ≢ 0
    → let roles' = (save now new_id r m).1.roles_by_id in
      (roles' ≡ m.roles_by_id)
      ⊎ ((s : Role) × (s.inherits_from ≡ r.inherits_from) × (roles' ≡ insert r.id s m.roles_by_id))
unfolding save save_role
save-cases now new_id r m named = elim (Bool-cases (is_empty r.name)) [
  | inl nameless ↦ inl (ground arith)
  | inr has_name ↦
      let existing : Option Role = if r.id == 0 then none else lookup r.id m.db.roles in
      elim (Bool-cases (name_taken r.name (stored_id existing) (values m.db.roles))) [
        | inl taken ↦ inl (ground arith)
        | inr free ↦ elim (Option-cases (lookup r.id m.db.roles)) [
          | inl new ↦ inr (
            record r { created_at = or_else r.created_at (some now); updated_at = now },
            refl,
            ground arith,
          )
          | inr (old, there) ↦ inr (
            record r { created_at = or_else r.created_at old.created_at; updated_at = now },
            refl,
            ground arith,
          )
        ]
      ]
]

check_cycle-Grounded :
    (roles : Dict Text Role) (id p : Text) (s : Role)
    → check_cycle roles id p ≡ some false
    → Grounded (insert id s roles) (some p)
unfolding check_cycle
check_cycle-Grounded roles id p s e =
    walk-Grounded roles (insert id s roles) id (agree_elsewhere roles id s) (suc (length roles))
      (id ∷ []) (some p) (ground arith) e

module _ (now : ℕ) (role_id : Text) (u : RoleUpdates) (m : Manager) (role : Role)
    (named : role_id ≢ 0) (acyclic : IsAcyclic m.roles_by_id)
    (found : lookup role_id m.roles_by_id ≡ some role) where
  -- The new parent's chain ends, or the parent is the old one.
  merged-IsAcyclic :
      (o : Option Text) (s : Role)
      → check_parent m.roles_by_id role_id o ≡ true
      → s.inherits_from ≡ elim o [ none ↦ role.inherits_from | some p ↦ some p ]
      → IsAcyclic (insert role_id s m.roles_by_id)
  unfolding check_parent
  merged-IsAcyclic none s ok e k = same_parent m.roles_by_id role_id s role found e (acyclic k)
  merged-IsAcyclic (some p) s ok e k =
      let chain : Grounded (insert role_id s m.roles_by_id) (some p) =
        check_cycle-Grounded m.roles_by_id role_id p s (ground arith) in
      reparent m.roles_by_id role_id s
        (subst (Grounded (insert role_id s m.roles_by_id)) (sym e) chain) (acyclic k)

  saved-IsAcyclic :
      check_parent m.roles_by_id role_id u.inherits_from ≡ true
      → IsAcyclic (save now role_id (merge role_id role u) m).1.roles_by_id
  unfolding merge
  saved-IsAcyclic ok = elim (save-cases now role_id (merge role_id role u) m named) [
    | inl same ↦ rw same acyclic
    | inr (s, e, stored) ↦ rw stored (merged-IsAcyclic u.inherits_from s ok e)
  ]

  update_found :
      IsAcyclic
        ((do
          raise_if (is_system_role role) permission_error
          raise_if (blank_name u.name) value_error
          raise_if (not (check_parent m.roles_by_id role_id u.inherits_from)) value_error
          save now role_id (merge role_id role u))
          m).1.roles_by_id
  update_found = elim (Bool-cases (is_system_role role)) [
    | inl system ↦ rw system acyclic
    | inr own ↦ elim (Bool-cases (blank_name u.name)) [
      | inl blank ↦ rw (own, blank) acyclic
      | inr has_name ↦ elim (Bool-cases (check_parent m.roles_by_id role_id u.inherits_from)) [
        | inl ok ↦ rw (own, has_name, ok) (saved-IsAcyclic ok)
        | inr refused ↦ rw (own, has_name, refused) acyclic
      ]
    ]
  ]

-- An update of a nonempty role id never closes a cycle: whatever it is given, and whether or not
-- it is refused, roles whose chains of parents all end stay so.
pub update_role-IsAcyclic :
    (now : ℕ) (role_id : Text) (u : RoleUpdates) (m : Manager)
    → role_id ≢ 0
    → IsAcyclic (ensure_loaded m).roles_by_id
    → IsAcyclic (update_role now role_id u m).1.roles_by_id
unfolding update_role
update_role-IsAcyclic now role_id u m named acyclic =
    elim (Option-cases (lookup role_id (ensure_loaded m).roles_by_id)) [
      | inl unknown ↦ rw (unknown, update_role) acyclic
      | inr (role, found) ↦
          rw (found, update_role)
            (update_found now role_id u (ensure_loaded m) role named acyclic found)
    ]
