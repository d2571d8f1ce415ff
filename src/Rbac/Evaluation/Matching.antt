-- ===== src/Rbac/Evaluation/Matching.antt =====
-- tessera/admin/rbac_manager.py: what `permission_matches` accepts.
use auth_manager.Base.{
  ◌≡◌, ◌++◌, Option, ◌∷◌, some, true, [], arith, ◌↔◌, Option-cases, ◌≢◌, refl, inl, inr, Bool-cases,
  ap, ◌==◌, none,
}
use auth_manager.Rbac.Evaluation.{permission_matches, star_prefix, Option}
use auth_manager.Base.Chars.{Chars, starts_with, chars_beq_iff, chars_eq}

star_prefix-append : (p : Chars) → star_prefix (p ++ b'*' ∷ []) ≡ some p
star_prefix-append [] = refl
star_prefix-append (c ∷ []) = refl
star_prefix-append (c ∷ d ∷ p) = rw (star_prefix-append (d ∷ p))

star_prefix_sound : (g p : Chars) → star_prefix g ≡ some p → g ≡ p ++ b'*' ∷ []
star_prefix_sound [] p e = cc
star_prefix_sound (c ∷ []) p e = ground arith
star_prefix_sound (c ∷ d ∷ s) p e = elim (Option-cases (star_prefix (d ∷ s))) [
  | inl out ↦ ground arith
  | inr (q, found) ↦ ground (arith, star_prefix_sound (d ∷ s) q found)
]

starts_with_sound : (p s : Chars) → starts_with p s ≡ true → (t : Chars) × (s ≡ p ++ t)
unfolding starts_with
starts_with_sound [] s e = (s, refl)
starts_with_sound (c ∷ p) [] e = cc
starts_with_sound (c ∷ p) (d ∷ s) e =
    let (t, shape) = starts_with_sound p s (ground arith) in (t, ground arith)

starts_with-append : (p t : Chars) → starts_with p (p ++ t) ≡ true
unfolding starts_with
starts_with-append [] t = refl
starts_with-append (c ∷ p) t = ground (arith, starts_with-append p t)

-- What a grant covers: itself, and for a grant that ends in `*` every name with what stands before
-- the star in front.
pub data Covers (granted requested : Chars) : Type 0 where
  exact : granted ≡ requested → Covers granted requested
  wildcard :
      (p t : Chars) → granted ≡ p ++ b'*' ∷ [] → requested ≡ p ++ t → Covers granted requested

Covers-of_match :
    (g r : Chars) (o : Option Chars)
    → star_prefix g ≡ o
    → permission_matches g r ≡ true
    → Covers g r
unfolding permission_matches
Covers-of_match g r none e h = exact (ground (arith, chars_beq_iff g r))
Covers-of_match g r (some p) e h = elim (Bool-cases (g == r)) [
  | inl same ↦ exact ((chars_beq_iff g r).0 same)
  | inr other ↦
      let (t, shape) = starts_with_sound p r (ground arith) in
      wildcard p t (star_prefix_sound g p e) shape
]

match_of_Covers : (g r : Chars) → g ≢ [] → r ≢ [] → Covers g r → permission_matches g r ≡ true
unfolding permission_matches
match_of_Covers g r some_g some_r (exact e) = ground (arith, chars_beq_iff g r)
match_of_Covers g r some_g some_r (wildcard p t eg er) = ground (
  arith,
  chars_beq_iff g r,
  ap star_prefix eg,
  star_prefix-append p,
  ap (starts_with p) er,
  starts_with-append p t,
)

-- `permission_matches` accepts exactly the names that a grant covers, and never an empty name.
pub permission_matches-Covers :
    (granted requested : Chars)
    → (permission_matches granted requested ≡ true)
      ↔ ((granted ≢ []) × (requested ≢ []) × Covers granted requested)
unfolding permission_matches
permission_matches-Covers granted requested = (
  λ h. (
    λ e. ground arith,
    λ e. ground arith,
    Covers-of_match granted requested (star_prefix granted) refl h,
  ),
  λ h. match_of_Covers granted requested h.0 h.1 h.2,
)
