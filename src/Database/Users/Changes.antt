-- ===== src/Database/Users/Changes.antt =====
-- tessera/db/memory.py: an identifier index where a user is created or changed, past the test that
-- the identifier is not taken.
use mathlib.Core.Option.{some-injective}
use auth_manager.Base.Dict.{Dict, lookup, insert, erase, lookup-erase, lookup-insert}
use auth_manager.Base.{
  Text, Option, ◌≡◌, none, ◌≢◌, some, arith, sym, Option-cases, ◌∙◌, inl, ap, inr, Bool-cases,
  nat_eq, ◌==◌, not, ◌&&◌, subst,
}
use auth_manager.Database.Users.{User, index_one, unindex_one, taken, Text, Dict}
use auth_manager.Database.Users.Indexed.{
  Agrees, LeadsTo, Agrees-index, Agrees-unindex, not_first, lookup-unindex_one, Agrees-same,
}
use mathlib.Core.Bool.{false}

module _ (field : User → Text) (norm : Text → Text) where
  -- No entry leads to the empty id.
  untaken :
      (table : Dict Text User) (index : Dict Text Text) (key : Text) (exclude : Option Text)
      (own : Text)
      → lookup 0 table ≡ none
      → own ≢ 0
      → taken own key exclude index ≡ false
      → LeadsTo field norm table index
      → (i : Text) → lookup key index ≡ some i
      → exclude ≡ some i
  untaken table index key none own no_zero named free leads i found =
      let (u, hu, _, _) = leads key i found in
      let zero_id : i ≡ 0 = ground (arith, free, found, named) in
      absurd (ground (arith, sym hu ∙ ap (λ x. lookup x table) zero_id ∙ no_zero))
  untaken table index key (some id) own no_zero named free leads i found =
      let (u, hu, _, _) = leads key i found in
      elim (Bool-cases (i == 0)) [
        | inl zero_id ↦
            let e : i ≡ 0 = ground (arith, zero_id) in
            absurd (ground (arith, sym hu ∙ ap (λ x. lookup x table) e ∙ no_zero))
        | inr real ↦ ground (arith, free, found, named, real)
      ]

  -- A new user whose identifier is not taken.
  pub Agrees-create :
      (table : Dict Text User) (index : Dict Text Text) (id : Text) (u : User)
      → lookup 0 table ≡ none
      → lookup id table ≡ none
      → taken (field u) (norm (field u)) none index ≡ false
      → Agrees field norm table index
      → Agrees field norm (insert id u table) (index_one (field u) (norm (field u)) id index)
  Agrees-create table index id u no_zero fresh free agrees =
      Agrees-index field norm table index id u fresh
        (λ named. elim (Option-cases (lookup (norm (field u)) index)) [
          | inl gone ↦ gone
          | inr (i, found) ↦ absurd (
              ground (
                arith,
                untaken table index (norm (field u)) none (field u) no_zero named free agrees.0 i
                    found,
              ))
        ])
        agrees

  -- A changed user whose new identifier no other user has.
  Agrees-update :
      (table : Dict Text User) (index : Dict Text Text) (id : Text) (r r' : User)
      → lookup 0 table ≡ none
      → lookup id table ≡ some r
      → taken (field r') (norm (field r')) (some id) index ≡ false
      → Agrees field norm table index
      → Agrees field norm (insert id r' table) (
          index_one
            (field r')
            (norm (field r'))
            id
            (unindex_one (field r) (norm (field r)) id index))
  Agrees-update table index id r r' no_zero has free agrees =
      Agrees-same field norm (insert id r' (erase id table)) (insert id r' table) _
        (λ j. ground (
          arith,
          lookup-insert j id r' table,
          lookup-insert j id r' (erase id table),
          lookup-erase j id table,
        ))
        (Agrees-index field norm (erase id table) rest id r'
          (ground (arith, lookup-erase id id table)) unused without)
    where
      rest : Dict Text Text
      rest = unindex_one (field r) (norm (field r)) id index

      without : Agrees field norm (erase id table) rest
      without = Agrees-unindex field norm table index id r has agrees

      unused : field r' ≢ 0 → lookup (norm (field r')) rest ≡ none
      unused named = elim (Option-cases (lookup (norm (field r')) rest)) [
        | inl gone ↦ gone
        | inr (i, found) ↦
            let (v, hv, _, _) = without.0 (norm (field r')) i found in
            let (_, old) =
              not_first (not (field r == 0) && norm (field r') == norm (field r))
                (lookup (norm (field r')) index) i
                (sym (lookup-unindex_one field norm table index id r (norm (field r')) agrees.1 has)
                  ∙ found) in
            let mine =
              untaken table index (norm (field r')) (some id) (field r') no_zero named free agrees.0
                i old in
            absurd (ground (arith, lookup-erase i id table, hv, some-injective id i mine))
      ]

  -- The same with the id that the changed record has.
  pub Agrees-replace :
      (table : Dict Text User) (index : Dict Text Text) (id own : Text) (r r' : User)
      → own ≡ id
      → lookup 0 table ≡ none
      → lookup id table ≡ some r
      → taken (field r') (norm (field r')) (some id) index ≡ false
      → Agrees field norm table index
      → Agrees field norm (insert id r' table) (
          index_one
            (field r')
            (norm (field r'))
            own
            (unindex_one (field r) (norm (field r)) own index))
  Agrees-replace table index id own r r' is_id no_zero has free agrees =
      subst
        (λ (x : Text). Agrees field norm (insert id r' table) (
          index_one (field r') (norm (field r')) x
            (unindex_one (field r) (norm (field r)) x index)))
        (sym is_id) (Agrees-update table index id r r' no_zero has free agrees)

  pub Agrees-remove :
      (table : Dict Text User) (index : Dict Text Text) (id own : Text) (r : User)
      → own ≡ id
      → lookup id table ≡ some r
      → Agrees field norm table index
      → Agrees field norm (erase id table) (unindex_one (field r) (norm (field r)) own index)
  Agrees-remove table index id own r is_id has agrees =
      subst
        (λ (x : Text).
          Agrees field norm (erase id table) (unindex_one (field r) (norm (field r)) x index))
        (sym is_id) (Agrees-unindex field norm table index id r has agrees)
