-- ===== src/Rbac/Evaluation/Inherited.antt =====
-- tessera/admin/rbac_manager.py: the permissions that a role gets from its ancestors.
use auth_manager.Rbac.Evaluation.{
  resolve, add_new, push_parent, resolve_role_permissions, resolve_fuel,
}
use auth_manager.Base.Chars.{Chars, chars_eq}
use auth_manager.Rbac.Database.{Role}
use auth_manager.Base.{
  List, Text, ◌∷◌, ◌≡◌, some, ◌⊎◌, [], nat_eq, Bool, ℕ, Option, keep, place_by, sort_by, inl, true,
  Bool-cases, inr, leb, contains, ◌==◌, suc, Option-cases, zero, none, if◌then◌else◌, arith, refl,
}
use auth_manager.Base.Dict.{Dict, lookup}

-- `s` is `r` or an ancestor of it.
pub data Inherits (roles : Dict Text Role) (s : Role) : Role → Type 0 where
  itself : Inherits roles s s
  parent :
      {r p : Role} (k : Text)
      → r.inherits_from ≡ some k
      → lookup k roles ≡ some p
      → Inherits roles s p
      → Inherits roles s r

-- What stands in a list, found by a test.
abbrev pub Among : {A : Type 0} → A → List A → Type 0
Among a [] = ⊥
Among a (x ∷ xs) = (a ≡ x) ⊎ Among a xs

pub Among-keep :
    {A : Type 0} (p : A → Bool) (a : A) (xs : List A)
    → Among a (keep p xs)
    → (p a ≡ true) × Among a xs
Among-keep p a [] m = elim m [ ]
Among-keep p a (x ∷ xs) m = elim (Bool-cases (p x)) [
  | inl kept ↦ elim (let m' : Among a (x ∷ keep p xs) = rw kept at m in m') [
    | inl e ↦ (rw e kept, inl e)
    | inr rest ↦ let (pa, there) = Among-keep p a xs rest in (pa, inr there)
  ]
  | inr dropped ↦
      let (pa, there) = Among-keep p a xs (let m' : Among a (keep p xs) = rw dropped at m in m') in
      (pa, inr there)
]

pub Among-place_by :
    {A : Type 0} (key : A → ℕ) (a x : A) (xs : List A)
    → Among a (place_by key x xs)
    → Among a (x ∷ xs)
Among-place_by key a x [] m = m
Among-place_by key a x (y ∷ ys) m = elim (Bool-cases (leb (key x) (key y))) [
  | inl first ↦ let m' : Among a (x ∷ y ∷ ys) = rw first at m in m'
  | inr later ↦ elim (let m' : Among a (y ∷ place_by key x ys) = rw later at m in m') [
    | inl e ↦ inr (inl e)
    | inr rest ↦ elim (Among-place_by key a x ys rest) [
      | inl e ↦ inl e
      | inr there ↦ inr (inr there)
    ]
  ]
]

pub Among-sort_by :
    {A : Type 0} (key : A → ℕ) (a : A) (xs : List A) → Among a (sort_by key xs) → Among a xs
Among-sort_by key a [] m = m
Among-sort_by key a (x ∷ xs) m = elim (Among-place_by key a x (sort_by key xs) m) [
  | inl e ↦ inl e
  | inr rest ↦ inr (Among-sort_by key a xs rest)
]

pub Among-add_new :
    (g : Chars) (c ps : List Chars) → Among g (add_new c ps) → Among g c ⊎ Among g ps
Among-add_new g c [] m = inl m
Among-add_new g c (p ∷ ps) m = elim (Among-add_new g (if contains p c then c else p ∷ c) ps m) [
  | inl old ↦ elim (Bool-cases (contains p c)) [
    | inl known ↦ inl (let m' : Among g c = rw known at old in m')
    | inr fresh ↦ elim (let m' : Among g (p ∷ c) = rw fresh at old in m') [
      | inl e ↦ inr (inl e)
      | inr there ↦ inl there
    ]
  ]
  | inr rest ↦ inr (inr rest)
]

-- A permission that a role or one of its ancestors lists.
abbrev pub Lists : Dict Text Role → Chars → Role → Type 0
Lists roles g r = (s : Role) × Inherits roles s r × Among g s.permissions

further :
    (roles : Dict Text Role) {s r : Role} (t : Role) (k : Text)
    → Inherits roles s r
    → s.inherits_from ≡ some k
    → lookup k roles ≡ some t
    → Inherits roles t r
further roles t k itself e found = parent k e found itself
further roles t k (parent j e' found' rest) e found =
    parent j e' found' (further roles t k rest e found)

-- Every role on the stack is an ancestor of the role that the loop began with.
abbrev Above : Dict Text Role → Role → List Role → Type 0
Above roles r [] = Unit {0}
Above roles r (s ∷ stack) = Inherits roles s r × Above roles r stack

push_parent-Above :
    (roles : Dict Text Role) (r s : Role) (o : Option Text) (stack : List Role)
    → s.inherits_from ≡ o
    → Inherits roles s r
    → Above roles r stack
    → Above roles r (push_parent roles o stack)
push_parent-Above roles r s none stack e h above = above
push_parent-Above roles r s (some p) stack e h above = elim (Bool-cases (p == 0)) [
  | inl no_parent ↦ rw (no_parent, Above) above
  | inr named ↦ elim (Option-cases (lookup p roles)) [
    | inl gone ↦ rw (named, gone, Above) above
    | inr (t, found) ↦ rw (named, found, Above) (further roles t p h e found, above)
  ]
]

resolve_sound :
    (roles : Dict Text Role) (r : Role) (g : Chars) (fuel : ℕ) (visited : List Text)
    (collected : List Chars) (stack : List Role) (ps : List Chars)
    → Above roles r stack
    → resolve fuel roles visited collected stack ≡ some ps
    → Among g ps
    → Among g collected ⊎ Lists roles g r
unfolding resolve
resolve_sound roles r g zero visited collected [] ps above e m =
    let same : collected ≡ ps = ground arith in inl (rw same m)
resolve_sound roles r g (suc fuel) visited collected [] ps above e m =
    let same : collected ≡ ps = ground arith in inl (rw same m)
resolve_sound roles r g zero visited collected (s ∷ stack) ps above e m = cc
resolve_sound roles r g (suc fuel) visited collected (s ∷ stack) ps above e m =
    elim (Bool-cases (contains s.id visited)) [
      | inl seen ↦ resolve_sound roles r g fuel visited collected stack ps above.1 (rw seen at e) m
      | inr fresh ↦
          elim (resolve_sound roles r g fuel (s.id ∷ visited) (add_new collected s.permissions)
            (push_parent roles s.inherits_from stack) ps
            (push_parent-Above roles r s s.inherits_from stack refl above.0 above.1) (rw fresh at e)
            m) [
              | inl old ↦ elim (Among-add_new g collected s.permissions old) [
                | inl known ↦ inl known
                | inr own ↦ inr (s, above.0, own)
              ]
              | inr listed ↦ inr listed
            ]
    ]

pub resolve_role_permissions_sound :
    (roles : Dict Text Role) (r : Role) (g : Chars) (ps : List Chars)
    → resolve_role_permissions roles r ≡ some ps
    → Among g ps
    → Lists roles g r
unfolding resolve_role_permissions
resolve_role_permissions_sound roles r g ps e m =
    elim (resolve_sound roles r g (resolve_fuel roles) [] [] (r ∷ []) ps (itself, tt) e m) [
      | inl none_yet ↦ elim none_yet [ ]
      | inr listed ↦ listed
    ]
