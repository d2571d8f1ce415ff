-- ===== src/Rbac/Evaluation/Resolve.antt =====
-- tessera/admin/rbac_manager.py: `_resolve_role_permissions` ends on every table.
use auth_manager.Base.Chars.{Chars}
use auth_manager.Rbac.Database.{Role}
use auth_manager.Rbac.Evaluation.{
  resolve, resolve_role_permissions, Role, Chars, push_parent, add_new,
}
use auth_manager.Base.Dict.{lookup, Dict}
use auth_manager.Base.{
  List, Text, ℕ, length, ◌∷◌, ◌≡◌, ◌≤◌, Option, keep, arith, some, length-keep-le, ◌<◌, not,
  contains, suc, [], false, Bool-cases, nat_eq, ◌==◌, inl, inr, Option-cases, zero, none, refl,
}

-- The same count by the ids that the roles carry, which is what `_resolve_role_permissions` visits.
unvisited_ids : List Text → Dict Text Role → ℕ
unvisited_ids visited roles = length (keep (λ e. not (contains e.1.id visited)) roles)

unvisited_ids-cons-le :
    (k : Text) (visited : List Text) (roles : Dict Text Role)
    → unvisited_ids (k ∷ visited) roles ≤ unvisited_ids visited roles
unfolding unvisited_ids
unvisited_ids-cons-le k visited [] = omega arith
unvisited_ids-cons-le k visited ((j, r) ∷ roles) =
    ground (arith, unvisited_ids-cons-le k visited roles)

unvisited_ids-cons-lt :
    (k : Text) (visited : List Text) (roles : Dict Text Role) (r : Role)
    → lookup k roles ≡ some r
    → contains r.id visited ≡ false
    → unvisited_ids (r.id ∷ visited) roles < unvisited_ids visited roles
unfolding unvisited_ids lookup
unvisited_ids-cons-lt k visited [] r e h = cc
unvisited_ids-cons-lt k visited ((j, s) ∷ roles) r e h =
    ground
      (arith, unvisited_ids-cons-le r.id visited roles, unvisited_ids-cons-lt k visited roles r)

unvisited_ids-le :
    (visited : List Text) (roles : Dict Text Role) → unvisited_ids visited roles ≤ length roles
unfolding unvisited_ids
unvisited_ids-le visited roles = length-keep-le _ roles

-- At most one role waits on the stack, and it stands in the table.
abbrev Ready : ℕ → Dict Text Role → List Text → List Role → Type 0
Ready fuel roles visited [] = Unit {0}
Ready fuel roles visited (r ∷ []) =
    ((k : Text) × (lookup k roles ≡ some r)) × (unvisited_ids visited roles < fuel)
Ready fuel roles visited (r ∷ s ∷ stack) = ⊥

parent-Ready :
    (fuel : ℕ) (roles : Dict Text Role) (visited : List Text) (o : Option Text)
    → unvisited_ids visited roles < fuel
    → Ready fuel roles visited (push_parent roles o [])
parent-Ready fuel roles visited none h = tt
parent-Ready fuel roles visited (some p) h = elim (Bool-cases (p == 0)) [
  | inl no_parent ↦ rw (no_parent, Ready) tt
  | inr named ↦ elim (Option-cases (lookup p roles)) [
    | inl gone ↦ rw (named, gone, Ready) tt
    | inr (r, found) ↦ rw (named, found, Ready) ((p, found), h)
  ]
]

resolve_total :
    (fuel : ℕ) (roles : Dict Text Role) (visited : List Text) (collected : List Chars)
    (stack : List Role)
    → Ready fuel roles visited stack
    → (ps : List Chars) × (resolve fuel roles visited collected stack ≡ some ps)
unfolding resolve
resolve_total zero roles visited collected [] h = (collected, refl)
resolve_total (suc fuel) roles visited collected [] h = (collected, refl)
resolve_total zero roles visited collected (r ∷ []) h = elim (h.1) [ ]
resolve_total (suc fuel) roles visited collected (r ∷ []) h =
    elim (Bool-cases (contains r.id visited)) [
      | inl seen ↦ rw seen (resolve_total fuel roles visited collected [] tt)
      | inr fresh ↦ rw fresh (
          resolve_total fuel roles (r.id ∷ visited) (add_new collected r.permissions)
            (push_parent roles r.inherits_from [])
            (parent-Ready fuel roles (r.id ∷ visited) r.inherits_from
              (omega (arith, unvisited_ids-cons-lt h.0.0 visited roles r h.0.1 fresh))))
    ]
resolve_total fuel roles visited collected (r ∷ s ∷ stack) h = elim h [ ]

-- The permissions of a role are always found, whatever the table and the inheritance in it.
pub resolve_role_permissions_total :
    (roles : Dict Text Role) (r : Role)
    → (ps : List Chars) × (resolve_role_permissions roles r ≡ some ps)
unfolding resolve_role_permissions resolve
resolve_role_permissions_total roles r =
    resolve_total (suc (length roles)) roles (r.id ∷ []) (add_new [] r.permissions)
      (push_parent roles r.inherits_from [])
      (parent-Ready (suc (length roles)) roles (r.id ∷ []) r.inherits_from
        (omega (arith, unvisited_ids-le (r.id ∷ []) roles)))
