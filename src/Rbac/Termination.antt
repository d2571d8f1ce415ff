-- ===== src/Rbac/Termination.antt =====
-- tessera/admin/rbac_manager.py: `_check_cycle` ends on every table, also on one whose inheritance
-- has a cycle.
use auth_manager.Rbac.Database.{Role, parent_of}
use auth_manager.Rbac.{walk, Role, check_cycle, parent_of}
use auth_manager.Base.Dict.{lookup, Dict}
use auth_manager.Base.{
  List, Text, ℕ, length, ◌∷◌, ◌≤◌, ◌<◌, keep, arith, length-keep-le, Bool, not, some, [], contains,
  ◌≡◌, suc, nat_eq, Bool-cases, inl, true, inr, Option-cases, false, zero, Option, none, refl,
}

-- The entries of the table whose keys have not been visited.
unvisited : List Text → Dict Text Role → ℕ
unvisited visited roles = length (keep (λ e. not (contains e.0 visited)) roles)

unvisited-cons-le :
    (k : Text) (visited : List Text) (roles : Dict Text Role)
    → unvisited (k ∷ visited) roles ≤ unvisited visited roles
unfolding unvisited
unvisited-cons-le k visited [] = omega arith
unvisited-cons-le k visited ((j, r) ∷ roles) = ground (arith, unvisited-cons-le k visited roles)

unvisited-cons-lt :
    (k : Text) (visited : List Text) (roles : Dict Text Role) (r : Role)
    → lookup k roles ≡ some r
    → contains k visited ≡ false
    → unvisited (k ∷ visited) roles < unvisited visited roles
unfolding unvisited lookup
unvisited-cons-lt k visited [] r e h = cc
unvisited-cons-lt k visited ((j, s) ∷ roles) r e h =
    ground (arith, unvisited-cons-le k visited roles, unvisited-cons-lt k visited roles r)

unvisited-le :
    (visited : List Text) (roles : Dict Text Role) → unvisited visited roles ≤ length roles
unfolding unvisited
unvisited-le visited roles = length-keep-le _ roles

-- Fuel for the rounds that are left.
abbrev Enough : ℕ → Dict Text Role → List Text → Option Text → Type 0
Enough fuel roles visited none = Unit {0}
Enough fuel roles visited (some current) = unvisited visited roles < fuel

Enough-for_parent :
    (fuel : ℕ) (roles : Dict Text Role) (visited : List Text) (current : Text)
    → unvisited visited roles < suc fuel
    → contains current visited ≡ false
    → Enough fuel roles (current ∷ visited) (parent_of roles current)
Enough-for_parent fuel roles visited current h fresh = elim (Option-cases (lookup current roles)) [
  | inl gone ↦ rw (gone, Enough) tt
  | inr (r, found) ↦
      rw (found, Enough)
        (go r.inherits_from (unvisited-cons-lt current visited roles r found fresh))
]
  where
    go :
        (o : Option Text)
        → unvisited (current ∷ visited) roles < unvisited visited roles
        → Enough fuel roles (current ∷ visited) o
    go none less = tt
    go (some p) less = omega arith

walk_total :
    (fuel : ℕ) (roles : Dict Text Role) (visited : List Text) (o : Option Text)
    → Enough fuel roles visited o
    → (again : Bool) × (walk fuel roles visited o ≡ some again)
unfolding walk
walk_total zero roles visited none h = (false, refl)
walk_total (suc fuel) roles visited none h = (false, refl)
walk_total zero roles visited (some current) h = elim h [ ]
walk_total (suc fuel) roles visited (some current) h =
    elim (Bool-cases (contains current visited)) [
      | inl seen ↦ (true, rw seen)
      | inr fresh ↦ rw fresh (
          walk_total fuel roles (current ∷ visited) (parent_of roles current)
            (Enough-for_parent fuel roles visited current h fresh))
    ]

-- The cycle test always answers.
pub check_cycle_total :
    (roles : Dict Text Role) (role_id parent_id : Text)
    → (again : Bool) × (check_cycle roles role_id parent_id ≡ some again)
unfolding check_cycle
check_cycle_total roles role_id parent_id =
    walk_total (suc (length roles)) roles (role_id ∷ []) (some parent_id)
      (omega (arith, unvisited-le (role_id ∷ []) roles))
