-- ===== src/Organizations/Slugs.antt =====
-- tessera/organizations/org_manager.py and tessera/db/memory.py: the slugs that are made from names.
use mathlib.Core.List.{reverse-cons}
-- A lower-case letter, a digit or a dash.
use auth_manager.Database.Organizations.{dashes, is_slug_char, lstrip_dash, slugify}
use auth_manager.Base.Chars.{Chars, lower, is_empty, codes}
use auth_manager.Base.{
  ℕ, Bool, ◌≡◌, ◌++◌, true, ◌&&◌, ◌||◌, ◌∷◌, ◌==◌, arith, [], false, nat_eq, refl, reverse, ap, sym,
  ◌∙◌,
}

abbrev pub is_safe : ℕ → Bool
is_safe c = is_slug_char c || c == b'-'

abbrev pub all_safe : Chars → Bool
all_safe [] = true
all_safe (c ∷ s) = is_safe c && all_safe s

all_safe-dashes : (replaced : Bool) (s : Chars) → all_safe (dashes replaced s) ≡ true
unfolding dashes
all_safe-dashes replaced [] = refl
all_safe-dashes replaced (c ∷ s) = ground (arith, all_safe-dashes false s, all_safe-dashes true s)

all_safe-lstrip_dash : (s : Chars) → all_safe s ≡ true → all_safe (lstrip_dash s) ≡ true
all_safe-lstrip_dash [] h = refl
all_safe-lstrip_dash (c ∷ s) h = ground (arith, h, all_safe-lstrip_dash s)

all_safe-append : (a b : Chars) → all_safe (a ++ b) ≡ (all_safe a && all_safe b)
all_safe-append [] b = refl
all_safe-append (c ∷ a) b = ground (arith, all_safe-append a b)

lower_safe : (s : Chars) → all_safe s ≡ true → lower s ≡ s
unfolding lower
lower_safe [] h = refl
lower_safe (c ∷ s) h = ground (arith, h, lower_safe s)

all_safe-reverse : (s : Chars) → all_safe s ≡ true → all_safe (reverse s) ≡ true
all_safe-reverse [] h = refl
all_safe-reverse (c ∷ s) h =
    rw (reverse-cons c s)
      (ground (arith, h, all_safe-append (reverse s) (c ∷ []), all_safe-reverse s))

-- What is left of the dashes and letters between the outer dashes.
stripped : Chars → Chars
stripped name = reverse (lstrip_dash (reverse (lstrip_dash (dashes false (lower name)))))

all_safe-stripped : (name : Chars) → all_safe (stripped name) ≡ true
unfolding stripped
all_safe-stripped name =
    let s = lstrip_dash (dashes false (lower name)) in
    all_safe-reverse (lstrip_dash (reverse s)) (
      all_safe-lstrip_dash (reverse s) (
        all_safe-reverse s
          (all_safe-lstrip_dash (dashes false (lower name)) (all_safe-dashes false (lower name)))))

-- Whatever the name, with the case mapping of ASCII, its slug is not empty, has lower-case letters,
-- digits and dashes only, and is its own lower-case form, under which the slug index has it.
pub slugify-safe :
    (name : Chars)
    → (is_empty (slugify name) ≡ false)
      × (all_safe (slugify name) ≡ true)
      × (lower (slugify name) ≡ slugify name)
unfolding slugify stripped
slugify-safe name = by_rest (stripped name) refl
  where
    by_rest :
        (s : Chars)
        → stripped name ≡ s
        → (is_empty (slugify name) ≡ false)
          × (all_safe (slugify name) ≡ true)
          × (lower (slugify name) ≡ slugify name)
    by_rest [] is = rw (is, slugify) (refl, refl, lower_safe (codes "org") refl)
    by_rest (c ∷ s) is =
        let safe : all_safe (c ∷ s) ≡ true = ap all_safe (sym is) ∙ all_safe-stripped name in
        rw (is, slugify) (refl, safe, lower_safe (c ∷ s) safe)
