-- ===== src/Base/Counting.antt =====
-- How many values of a dict pass a test, and how writes change the number.
use auth_manager.Base.Dict.{Dict, lookup, insert, erase, values, lookup-insert, lookup-erase}
use auth_manager.Base.{
  Bool, ℕ, Eq, if◌then◌else◌, List, Option, length, place_by, sort_by, ◌+◌, ◌≤◌, some, ◌≡◌, ◌∷◌, [],
  keep, arith, find_first, none, Bool-cases, ◌==◌, inl, is_some, refl, inr, leb, ◌<◌, true,
}

abbrev pub one_if : Bool → ℕ
one_if b = if b then 1 else 0

abbrev pub count_at {κ} : {V : Type κ} → (V → Bool) → Option V → ℕ
count_at p none = 0
count_at p (some v) = one_if (p v)

module _ {ℓ} {A : Type ℓ} where
  abbrev pub count : (A → Bool) → List A → ℕ
  count p [] = 0
  count p (x ∷ xs) = one_if (p x) + count p xs

  pub length-keep : (p : A → Bool) (xs : List A) → length (keep p xs) ≡ count p xs
  length-keep p [] = refl
  length-keep p (x ∷ xs) = ground (arith, length-keep p xs)

  count-place_by :
      (p : A → Bool) (key : A → ℕ) (x : A) (xs : List A)
      → count p (place_by key x xs) ≡ one_if (p x) + count p xs
  count-place_by p key x [] = refl
  count-place_by p key x (y ∷ ys) = ground (arith, count-place_by p key x ys)

  pub count-sort_by :
      (p : A → Bool) (key : A → ℕ) (xs : List A) → count p (sort_by key xs) ≡ count p xs
  count-sort_by p key [] = refl
  count-sort_by p key (x ∷ xs) =
      omega (arith, count-place_by p key x (sort_by key xs), count-sort_by p key xs)

  find_first-place_by :
      (p : A → Bool) (key : A → ℕ) (x : A) (xs : List A)
      → one_if (p x) + count p xs ≤ 1
      → find_first p (place_by key x xs) ≡ (if p x then some x else find_first p xs)
  find_first-place_by p key x [] h = refl
  find_first-place_by p key x (y ∷ ys) h = elim (Bool-cases (leb (key x) (key y))) [
    | inl first ↦ rw (first, place_by) refl
    | inr later ↦ rw (later, place_by) (ground (arith, find_first-place_by p key x ys))
  ]

  -- Sorting does not change which one is found, where there is one at most.
  pub find_first-sort_by :
      (p : A → Bool) (key : A → ℕ) (xs : List A)
      → count p xs ≤ 1
      → find_first p (sort_by key xs) ≡ find_first p xs
  find_first-sort_by p key [] h = refl
  find_first-sort_by p key (x ∷ xs) h = ground (
    arith,
    find_first-sort_by p key xs,
    count-sort_by p key xs,
    find_first-place_by p key x (sort_by key xs),
  )

  pub find_first-count :
      (p : A → Bool) (xs : List A)
      → 0 < count p xs
      → (x : A) × (find_first p xs ≡ some x) × (p x ≡ true)
  find_first-count p [] h = absurd (omega arith)
  find_first-count p (x ∷ xs) h = elim (Bool-cases (p x)) [
    | inl here ↦ (x, ground (arith, here), here)
    | inr not_here ↦
        let (y, found, passes) = find_first-count p xs (ground (arith, not_here)) in
        (y, ground (arith, not_here, found), passes)
  ]

  length-place_by : (key : A → ℕ) (x : A) (xs : List A) → length (place_by key x xs) ≡ length xs + 1
  length-place_by key x [] = refl
  length-place_by key x (y ∷ ys) = ground (arith, length-place_by key x ys)

  pub length-sort_by : (key : A → ℕ) (xs : List A) → length (sort_by key xs) ≡ length xs
  length-sort_by key [] = refl
  length-sort_by key (x ∷ xs) =
      omega (arith, length-place_by key x (sort_by key xs), length-sort_by key xs)

module _ {ℓ κ} {K : Type ℓ} {V : Type κ} ⦃e : Eq K⦄ where
  -- Each key stands once, as in every Python dict.
  abbrev pub Distinct : Dict K V → Type (ℓ ⊔ κ)
  Distinct [] = Unit
  Distinct ((k, v) ∷ d) = (lookup k d ≡ none) × Distinct d

  -- Each value carries its key.
  abbrev pub Keyed : (V → K) → Dict K V → Type (ℓ ⊔ κ)
  Keyed key [] = Unit
  Keyed key ((k, v) ∷ d) = (key v ≡ k) × Keyed key d

  pub count-insert :
      (p : V → Bool) (k : K) (v : V) (d : Dict K V)
      → count p (values (insert k v d)) + count_at p (lookup k d)
        ≡ count p (values d) + one_if (p v)
  unfolding lookup insert
  count-insert p k v [] = omega arith
  count-insert p k v ((j, w) ∷ d) = ground (arith, count-insert p k v d)

  erase_missing : (k : K) (d : Dict K V) → lookup k d ≡ none → erase k d ≡ d
  unfolding lookup erase
  erase_missing k [] gone = refl
  erase_missing k ((j, w) ∷ d) gone = ground (arith, erase_missing k d)

  pub count-erase :
      (p : V → Bool) (k : K) (d : Dict K V)
      → Distinct d
      → count p (values (erase k d)) + count_at p (lookup k d) ≡ count p (values d)
  unfolding lookup erase
  count-erase p k [] u = refl
  count-erase p k ((j, w) ∷ d) u =
      ground (arith, e.beq_iff k j, erase_missing k d, count-erase p k d)

  pub Distinct-insert : (k : K) (v : V) (d : Dict K V) → Distinct d → Distinct (insert k v d)
  unfolding lookup insert
  Distinct-insert k v [] u = (refl, tt)
  Distinct-insert k v ((j, w) ∷ d) u = elim (Bool-cases (k == j)) [
    | inl same ↦ rw (same, insert) (ground (arith, e.beq_iff k j))
    | inr other ↦
        rw (other, insert)
          (
            ground (arith, e.beq_iff k j, e.beq_iff j k, lookup-insert j k v d),
            Distinct-insert k v d u.1,
          )
  ]

  pub Distinct-erase : (k : K) (d : Dict K V) → Distinct d → Distinct (erase k d)
  unfolding lookup erase
  Distinct-erase k [] u = tt
  Distinct-erase k ((j, w) ∷ d) u =
      ground (arith, e.beq_iff k j, e.beq_iff j k, lookup-erase j k d, Distinct-erase k d)

  pub Keyed-insert :
      (key : V → K) (k : K) (v : V) (d : Dict K V)
      → key v ≡ k
      → Keyed key d
      → Keyed key (insert k v d)
  unfolding insert
  Keyed-insert key k v [] h u = (h, tt)
  Keyed-insert key k v ((j, w) ∷ d) h u = ground (arith, Keyed-insert key k v d)

  pub Keyed-erase : (key : V → K) (k : K) (d : Dict K V) → Keyed key d → Keyed key (erase k d)
  unfolding erase
  Keyed-erase key k [] u = tt
  Keyed-erase key k ((j, w) ∷ d) u = ground (arith, Keyed-erase key k d)

  -- The value with a key is found under that key.
  pub find_first-Keyed :
      (key : V → K) (p : V → Bool) (k : K) (d : Dict K V)
      → ((v : V) → p v ≡ (key v == k))
      → Keyed key d
      → find_first p (values d) ≡ lookup k d
  unfolding lookup
  find_first-Keyed key p k [] tests u = refl
  find_first-Keyed key p k ((j, w) ∷ d) tests u =
      ground (arith, tests w, e.beq_iff (key w) k, e.beq_iff k j, find_first-Keyed key p k d tests)

  pub count-Keyed :
      (key : V → K) (p : V → Bool) (k : K) (d : Dict K V)
      → ((v : V) → p v ≡ (key v == k))
      → Keyed key d
      → Distinct d
      → count p (values d) ≡ (if is_some (lookup k d) then 1 else 0)
  unfolding lookup
  count-Keyed key p k [] tests u d = refl
  count-Keyed key p k ((j, w) ∷ rest) tests u d =
      ground (arith, tests w, e.beq_iff (key w) k, e.beq_iff k j, count-Keyed key p k rest tests)

  pub Keyed-lookup :
      (key : V → K) (k : K) (v : V) (d : Dict K V) → Keyed key d → lookup k d ≡ some v → key v ≡ k
  unfolding lookup
  Keyed-lookup key k v [] u found = absurd (ground arith)
  Keyed-lookup key k v ((j, w) ∷ d) u found =
      ground (arith, e.beq_iff k j, Keyed-lookup key k v d u.1)
