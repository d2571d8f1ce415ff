-- ===== src/Rbac/Evaluation/Sound.antt =====
-- tessera/admin/rbac_manager.py: nobody has a permission that was not granted.
use auth_manager.Rbac.{Manager, ensure_loaded}
use auth_manager.Rbac.Evaluation.{
  add_new, resolve_role_permissions, collect_permissions, collect_roles, assignment_matches,
  any_matches, get_user_assignments, has_permission, Manager, permission_matches,
  get_effective_permissions, is_expired_at, get_user_roles, is_unexpired,
}
use auth_manager.Base.Chars.{Chars, chars_eq}
use auth_manager.Rbac.Database.{
  Role, Scope, Assignment, query_role_assignments, is_asked_for, assigned_at,
}
use auth_manager.Base.{
  List, Text, ◌∷◌, ◌≡◌, some, ◌⊎◌, [], nat_eq, ℕ, Option, keep, sort_by, inl, true, Bool-cases, inr,
  contains, Option-cases, none, arith, refl, false,
}
use auth_manager.Base.Dict.{Dict, lookup, values}
use auth_manager.Rbac.Evaluation.Inherited.{
  Among-sort_by, Lists, Among-keep, Among, Among-add_new, resolve_role_permissions_sound,
}

-- A role among `rs` from which the permission comes.
abbrev From : Dict Text Role → Chars → List Role → Type 0
From roles g rs = (r : Role) × Among r rs × Lists roles g r

collect_permissions_sound :
    (roles : Dict Text Role) (g : Chars) (rs : List Role) (permissions ps : List Chars)
    → collect_permissions roles permissions rs ≡ some ps
    → Among g ps
    → Among g permissions ⊎ From roles g rs
unfolding collect_permissions
collect_permissions_sound roles g [] permissions ps e m =
    let same : permissions ≡ ps = ground arith in inl (rw same m)
collect_permissions_sound roles g (r ∷ rs) permissions ps e m =
    elim (Option-cases (resolve_role_permissions roles r)) [
      | inl out ↦ absurd (ground arith)
      | inr (own, found) ↦
          elim (collect_permissions_sound roles g rs (add_new permissions own) ps
            (ground (arith, found)) m) [
              | inl old ↦ elim (Among-add_new g permissions own old) [
                | inl known ↦ inl known
                | inr new ↦
                    inr (r, inl refl, resolve_role_permissions_sound roles r g own found new)
              ]
              | inr (s, there, listed) ↦ inr (s, inr there, listed)
            ]
    ]

-- The assignment that put a role among a user's roles.
abbrev Assigned : Dict Text Role → Scope → Option Text → Role → List Assignment → Type 0
Assigned roles scope scope_id r granted =
    (a : Assignment) × Among a granted
    × (assignment_matches a scope scope_id ≡ true)
    × (lookup a.role_id roles ≡ some r)

later-Assigned :
    (roles : Dict Text Role) (scope : Scope) (scope_id : Option Text) (r : Role) (b : Assignment)
    (granted : List Assignment)
    → Assigned roles scope scope_id r granted
    → Assigned roles scope scope_id r (b ∷ granted)
later-Assigned roles scope scope_id r b granted (a, there, ok, found) = (a, inr there, ok, found)

collect_roles_sound :
    (roles : Dict Text Role) (scope : Scope) (scope_id : Option Text) (r : Role) (seen : List Text)
    (granted : List Assignment)
    → Among r (collect_roles roles scope scope_id seen granted)
    → Assigned roles scope scope_id r granted
unfolding collect_roles
collect_roles_sound roles scope scope_id r seen [] m = elim m [ ]
collect_roles_sound roles scope scope_id r seen (a ∷ granted) m =
    let later = later-Assigned roles scope scope_id r a granted in
    let skip = λ (m' : Among r (collect_roles roles scope scope_id seen granted)).
      later (collect_roles_sound roles scope scope_id r seen granted m') in
    elim (Bool-cases (assignment_matches a scope scope_id)) [
      | inl ok ↦ elim (Option-cases (lookup a.role_id roles)) [
        | inl gone ↦ skip (rw (ok, gone, collect_roles) at m)
        | inr (s, found) ↦ elim (Bool-cases (contains s.id seen)) [
          | inl known ↦ skip (rw (ok, found, known) at m)
          | inr new ↦ elim (rw (ok, found, new) at m) [
            | inl e ↦ (a, inl refl, ok, rw e found)
            | inr rest ↦
                later (collect_roles_sound roles scope scope_id r (s.id ∷ seen) granted rest)
          ]
        ]
      ]
      | inr other ↦ skip (rw other at m)
    ]

any_matches_sound :
    (gs : List Chars) (permission : Chars)
    → any_matches gs permission ≡ true
    → (g : Chars) × Among g gs × (permission_matches g permission ≡ true)
any_matches_sound [] permission e = cc
any_matches_sound (g ∷ gs) permission e = elim (Bool-cases (permission_matches g permission)) [
  | inl hit ↦ (g, inl refl, hit)
  | inr miss ↦
      let (h, there, hit) = any_matches_sound gs permission (ground arith) in (h, inr there, hit)
]

-- Why a user holds a permission at a time and in a scope: an assignment of the user's that has not
-- expired and covers the scope, its role, and a grant that the role or an ancestor of it lists.
pub record Holds (now : ℕ) (user_id : Text) (permission : Chars) (scope : Scope)
    (scope_id : Option Text) (m : Manager) : Type 0 where
  pub assignment : Assignment
  pub stored : Among assignment (values m.db.assignments)
  pub of_user : assignment.user_id ≡ user_id
  pub live : is_expired_at now assignment.expires_at ≡ false
  pub covers : assignment_matches assignment scope scope_id ≡ true
  pub role : Role
  pub assigned : lookup assignment.role_id m.roles_by_id ≡ some role
  pub grant : Chars
  pub listed : Lists m.roles_by_id grant role
  pub matches : permission_matches grant permission ≡ true

assignment_sound :
    (now : ℕ) (user_id : Text) (a : Assignment) (m : Manager)
    → Among a (get_user_assignments now user_id none none false m)
    → Among a (values m.db.assignments)
      × (a.user_id ≡ user_id)
      × (is_expired_at now a.expires_at ≡ false)
unfolding get_user_assignments query_role_assignments
assignment_sound now user_id a m there =
    let p = is_asked_for (some user_id) none none none in
    let all = values m.db.assignments in
    let (unexpired, found) =
      Among-keep (is_unexpired now) a (sort_by assigned_at (keep p all)) there in
    let (wanted, stored) = Among-keep p a all (Among-sort_by assigned_at a (keep p all) found) in
    (stored, mine a wanted, alive a unexpired)
  where
    mine :
        (b : Assignment) → is_asked_for (some user_id) none none none b ≡ true → b.user_id ≡ user_id
    mine b e = ground arith

    alive : (b : Assignment) → is_unexpired now b ≡ true → is_expired_at now b.expires_at ≡ false
    alive b e = ground arith

-- A permission is granted only where an unexpired assignment of that user, whose scope covers the
-- question, names a role that lists, itself or through an ancestor, a permission that matches.
pub has_permission_sound :
    (now : ℕ) (user_id : Text) (permission : Chars) (scope : Scope) (scope_id : Option Text)
    (m : Manager)
    → (has_permission now user_id permission scope scope_id m).0 ≡ some true
    → Holds now user_id permission scope scope_id (ensure_loaded m)
unfolding has_permission get_effective_permissions get_user_roles
has_permission_sound now user_id permission scope scope_id m e =
    let m' = ensure_loaded m in
    let as' = get_user_assignments now user_id none none false m' in
    let rs = collect_roles m'.roles_by_id scope scope_id [] as' in
    elim (Option-cases (collect_permissions m'.roles_by_id [] rs)) [
      | inl out ↦ absurd (ground arith)
      | inr (ps, found) ↦
          let (g, in_ps, hit) = any_matches_sound ps permission (ground arith) in
          elim (collect_permissions_sound m'.roles_by_id g rs [] ps found in_ps) [
            | inl none_yet ↦ elim none_yet [ ]
            | inr (r, in_rs, listed) ↦
                let (a, in_as, covers, assigned) =
                  collect_roles_sound m'.roles_by_id scope scope_id r [] as' in_rs in
                let (stored, of_user, live) = assignment_sound now user_id a m' in_as in
                record {
                  assignment = a;
                  stored = stored;
                  of_user = of_user;
                  live = live;
                  covers = covers;
                  role = r;
                  assigned = assigned;
                  grant = g;
                  listed = listed;
                  matches = hit;
                }
          ]
    ]
