-- ===== src/Database/Users/Indexed.antt =====
-- tessera/db/memory.py: one identifier index of the users against the user table. `field` is the
-- identifier of a user and `norm` what the index has of it.
use mathlib.Core.Option.{some-injective}
use auth_manager.Base.Dict.{Dict, lookup, erase, insert, lookup-erase, lookup-insert}
use auth_manager.Base.{
  Text, ◌≡◌, some, ◌∙◌, none, ◌≢◌, sym, if◌then◌else◌, not, nat_eq, ◌==◌, ◌&&◌, Bool-cases, inl,
  inr, arith, refl, Bool, ap, Option, nat_beq_iff,
}
use auth_manager.Database.Users.{User, index_one, unindex_one, Text, Dict}
use mathlib.Core.Bool.{true, false}

pub not_first :
    {A : Type 0} (c : Bool) (o : Option A) (a : A)
    → (if c then none else o) ≡ some a
    → (c ≡ false) × (o ≡ some a)
not_first true o a e = absurd (ground (arith, e))
not_first false o a e = (refl, e)

module _ (field : User → Text) (norm : Text → Text) where
  -- Each entry leads to the user who has the identifier.
  abbrev pub LeadsTo : Dict Text User → Dict Text Text → Type 0
  LeadsTo table index =
      (key id : Text)
      → lookup key index ≡ some id
      → (u : User) × (lookup id table ≡ some u) × (field u ≢ 0) × (norm (field u) ≡ key)

  -- Each user with an identifier has an entry.
  abbrev pub HasEntries : Dict Text User → Dict Text Text → Type 0
  HasEntries table index =
      (id : Text) (u : User)
      → lookup id table ≡ some u
      → field u ≢ 0
      → lookup (norm (field u)) index ≡ some id

  abbrev pub Agrees : Dict Text User → Dict Text Text → Type 0
  Agrees table index = LeadsTo table index × HasEntries table index

  -- Only what the table gives for an id counts.
  pub Agrees-same :
      (table other : Dict Text User) (index : Dict Text Text)
      → ((id : Text) → lookup id other ≡ lookup id table)
      → Agrees table index
      → Agrees other index
  Agrees-same table other index same (leads, entries) = (
    λ key id found.
        let (u, has, some_field, is_key) = leads key id found in
        (u, same id ∙ has, some_field, is_key),
    λ id u has. entries id u (sym (same id) ∙ has),
  )

  -- The entry of the removed user, if it has one, is gone, and the others stay.
  pub lookup-unindex_one :
      (table : Dict Text User) (index : Dict Text Text) (id : Text) (r : User) (key : Text)
      → HasEntries table index
      → lookup id table ≡ some r
      → lookup key (unindex_one (field r) (norm (field r)) id index)
        ≡ (if not (field r == 0) && key == norm (field r) then none else lookup key index)
  lookup-unindex_one table index id r key entries has = elim (Bool-cases (field r == 0)) [
    | inl empty ↦ rw empty refl
    | inr named ↦
        let own = entries id r has (λ e. absurd (ground (arith, named, e))) in
        rw (named, own) (ground (arith, lookup-erase key (norm (field r)) index))
  ]

  -- Two users of one id are one.
  same_field :
      (table : Dict Text User) (i id : Text) (u r : User)
      → lookup i table ≡ some u
      → lookup id table ≡ some r
      → i ≡ id
      → field u ≡ field r
  same_field table i id u r hu hr same =
      ap field (some-injective u r (sym hu ∙ ap (λ x. lookup x table) same ∙ hr))

  pub Agrees-unindex :
      (table : Dict Text User) (index : Dict Text Text) (id : Text) (r : User)
      → lookup id table ≡ some r
      → Agrees table index
      → Agrees (erase id table) (unindex_one (field r) (norm (field r)) id index)
  Agrees-unindex table index id r has (leads, entries) = (
    λ key i found.
        let (off, old) =
          not_first (not (field r == 0) && key == norm (field r)) (lookup key index) i
            (sym (lookup-unindex_one table index id r key entries has) ∙ found) in
        let (u, hu, named, is_key) = leads key i old in
        let apart : i ≢ id = λ same.
          let e = same_field table i id u r hu has same in
          absurd (ground (arith, off, named, is_key, e, ap norm e)) in
        (u, ground (arith, lookup-erase i id table, apart, hu), named, is_key),
    λ i u kept named.
        let (apart, hu) =
          not_first (i == id) (lookup i table) u (sym (lookup-erase i id table) ∙ kept) in
        let entry = entries i u hu named in
        lookup-unindex_one table index id r (norm (field u)) entries has
        ∙ (elim (Bool-cases (not (field r == 0) && norm (field u) == norm (field r))) [
          | inr off ↦ rw off entry
          | inl shared ↦
              let own = entries id r has (λ e. absurd (ground (arith, shared, e))) in
              let one =
                ap (λ k. lookup k index)
                  ((nat_beq_iff (norm (field u)) (norm (field r))).0 (ground (arith, shared))) in
              absurd (ground (arith, apart, some-injective i id (sym entry ∙ one ∙ own)))
        ]),
  )

  lookup-index_one :
      (index : Dict Text Text) (id : Text) (u : User) (key : Text)
      → lookup key (index_one (field u) (norm (field u)) id index)
        ≡ (if not (field u == 0) && key == norm (field u) then some id else lookup key index)
  lookup-index_one index id u key = elim (Bool-cases (field u == 0)) [
    | inl empty ↦ rw empty refl
    | inr named ↦ rw named (lookup-insert key (norm (field u)) id index)
  ]

  pub Agrees-index :
      (table : Dict Text User) (index : Dict Text Text) (id : Text) (u : User)
      → lookup id table ≡ none
      → (field u ≢ 0 → lookup (norm (field u)) index ≡ none)
      → Agrees table index
      → Agrees (insert id u table) (index_one (field u) (norm (field u)) id index)
  Agrees-index table index id u fresh free (leads, entries) = (
    λ key i found. elim (Bool-cases (not (field u == 0) && key == norm (field u))) [
      | inl own ↦
          let mine : id ≡ i = ground (arith, own, sym (lookup-index_one index id u key) ∙ found) in
          (
            u,
            ground (arith, lookup-insert i id u table, mine),
            (λ e. absurd (ground (arith, own, e))),
            ground (arith, own),
          )
      | inr off ↦
          let old : lookup key index ≡ some i =
            ground (arith, off, sym (lookup-index_one index id u key) ∙ found) in
          let (v, hv, named, is_key) = leads key i old in
          let apart : i ≢ id =
            λ same. absurd (ground (arith, sym hv ∙ ap (λ x. lookup x table) same ∙ fresh)) in
          (v, ground (arith, lookup-insert i id u table, apart, hv), named, is_key)
    ],
    λ i v kept named. elim (Bool-cases (i == id)) [
      | inl mine ↦
          let e : field v ≡ field u =
            ap field
              (some-injective v u (sym kept ∙ ground (arith, lookup-insert i id u table, mine))) in
          ground (arith, lookup-index_one index id u (norm (field v)), e, ap norm e, named, mine)
      | inr apart ↦
          let hv : lookup i table ≡ some v =
            ground (arith, lookup-insert i id u table, apart, kept) in
          let entry = entries i v hv named in
          lookup-index_one index id u (norm (field v))
          ∙ (elim (Bool-cases (not (field u == 0) && norm (field v) == norm (field u))) [
            | inr off ↦ rw off entry
            | inl shared ↦
                let gone = free (λ e. absurd (ground (arith, shared, e))) in
                let one =
                  ap (λ k. lookup k index)
                    ((nat_beq_iff (norm (field v)) (norm (field u))).0 (ground (arith, shared))) in
                absurd (ground (arith, sym entry ∙ one ∙ gone))
          ])
    ],
  )
