-- ===== src/Rbac/Evaluation.antt =====
-- tessera/admin/rbac_manager.py: `permission_matches` and the evaluation of a user's permissions.
pub mod Inherited
pub mod Matching
pub mod Resolve
pub mod Sound
use auth_manager.Rbac.{Manager, ensure_loaded, global, opt_beq}
use auth_manager.Base.Dict.{Dict, lookup}
use auth_manager.Rbac.Database.{
  Assignment, Scope, scope_beq, Role, query_role_assignments, global, opt_beq,
}
use auth_manager.Base.{
  ℕ, List, Option, Bool, Text, ◌∷◌, none, if◌then◌else◌, false, ◌==◌, some, contains, suc, [], ◌||◌,
  true, leb, keep, ◌&&◌, length, nat_eq, zero, not,
}
use auth_manager.Base.Chars.{Chars, starts_with, is_empty, chars_eq}

-- `granted[:-1]`, if `granted` ends in `*`.
abbrev pub star_prefix : Chars → Option Chars
star_prefix [] = none
star_prefix (c ∷ []) = if c == b'*' then some [] else none
star_prefix (c ∷ d ∷ s) = elim (star_prefix (d ∷ s)) [ none ↦ none | some p ↦ some (c ∷ p) ]

unfoldable pub permission_matches : Chars → Chars → Bool
unfolding starts_with
permission_matches granted requested =
    if is_empty granted || is_empty requested
    then false
    else if granted == requested
    then true
    else elim (star_prefix granted) [ none ↦ false | some p ↦ starts_with p requested ]

abbrev pub is_expired_at : ℕ → Option ℕ → Bool
is_expired_at now none = false
is_expired_at now (some t) = leb t now

abbrev pub is_unexpired : ℕ → Assignment → Bool
is_unexpired now a = not (is_expired_at now a.expires_at)

pub get_user_assignments : ℕ → Text → Option Scope → Option Text → Bool → Manager → List Assignment
get_user_assignments now user_id scope_type scope_id include_expired m =
    let found = query_role_assignments (some user_id) none scope_type scope_id m.db in
    if include_expired then found else keep (is_unexpired now) found

-- `_assignment_matches`
unfoldable pub assignment_matches : Assignment → Scope → Option Text → Bool
assignment_matches a scope scope_id =
    scope_beq a.scope_type global || (scope_beq a.scope_type scope && opt_beq a.scope_id scope_id)

-- The loop of `get_user_roles`, with the ids seen so far.
pub collect_roles : Dict Text Role → Scope → Option Text → List Text → List Assignment → List Role
collect_roles roles scope scope_id seen [] = []
collect_roles roles scope scope_id seen (a ∷ rest) =
    let skip = collect_roles roles scope scope_id seen rest in
    if assignment_matches a scope scope_id
    then elim (lookup a.role_id roles) [
      | none ↦ skip
      | some r ↦
          if contains r.id seen
          then skip
          else r ∷ collect_roles roles scope scope_id (r.id ∷ seen) rest
    ]
    else skip

pub get_user_roles : ℕ → Text → Scope → Option Text → Manager → List Role × Manager
unfolding get_user_assignments collect_roles
get_user_roles now user_id scope scope_id m =
    let m' = ensure_loaded m in
    (
      collect_roles m'.roles_by_id scope scope_id []
          (get_user_assignments now user_id none none false m'),
      m',
    )

-- `set.update`
abbrev pub add_new : List Chars → List Chars → List Chars
add_new collected [] = collected
add_new collected (p ∷ ps) = add_new (if contains p collected then collected else p ∷ collected) ps

abbrev pub push_parent : Dict Text Role → Option Text → List Role → List Role
push_parent roles none stack = stack
push_parent roles (some parent) stack =
    if parent == 0 then stack else elim (lookup parent roles) [ none ↦ stack | some r ↦ r ∷ stack ]

-- The loop of `_resolve_role_permissions`, with the top of the stack in front; `none` out of fuel.
pub resolve : ℕ → Dict Text Role → List Text → List Chars → List Role → Option (List Chars)
resolve fuel roles visited collected [] = some collected
resolve zero roles visited collected (r ∷ stack) = none
resolve (suc fuel) roles visited collected (r ∷ stack) =
    let again = resolve fuel roles visited collected stack in
    let on =
      resolve fuel roles (r.id ∷ visited) (add_new collected r.permissions)
        (push_parent roles r.inherits_from stack) in
    if contains r.id visited then again else on

-- The role itself, each role of the table once, and a last round that finds a visited role.
abbrev pub resolve_fuel : Dict Text Role → ℕ
resolve_fuel roles = suc (suc (length roles))

pub resolve_role_permissions : Dict Text Role → Role → Option (List Chars)
unfolding resolve
resolve_role_permissions roles r = resolve (resolve_fuel roles) roles [] [] (r ∷ [])

pub collect_permissions : Dict Text Role → List Chars → List Role → Option (List Chars)
unfolding resolve_role_permissions
collect_permissions roles permissions [] = some permissions
collect_permissions roles permissions (r ∷ rs) = elim (resolve_role_permissions roles r) [
  | none ↦ none
  | some ps ↦ collect_permissions roles (add_new permissions ps) rs
]

-- The set of `get_effective_permissions`, before it is sorted.
pub get_effective_permissions :
    ℕ → Text → Scope → Option Text → Manager → Option (List Chars) × Manager
unfolding get_user_roles collect_permissions
get_effective_permissions now user_id scope scope_id m =
    let (roles, m') = get_user_roles now user_id scope scope_id m in
    (collect_permissions m'.roles_by_id [] roles, m')

abbrev pub any_matches : List Chars → Chars → Bool
any_matches [] permission = false
any_matches (g ∷ gs) permission = permission_matches g permission || any_matches gs permission

unfoldable pub has_permission :
    ℕ → Text → Chars → Scope → Option Text → Manager → Option Bool × Manager
unfolding get_effective_permissions
has_permission now user_id permission scope scope_id m =
    let (effective, m') = get_effective_permissions now user_id scope scope_id m in
    (elim effective [ none ↦ none | some ps ↦ some (any_matches ps permission) ], m')
