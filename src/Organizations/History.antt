-- ===== src/Organizations/History.antt =====
-- tessera/organizations/org_manager.py: what holds after any sequence of calls.
use auth_manager.Organizations.Owners.{IsOwned, IsSound}
use auth_manager.Base.Dict.{lookup, has_key, lookup-erase, insert, lookup-insert}
use auth_manager.Database.Organizations.{Org, Orgs, Member, owner, store_org}
use auth_manager.Database.Memberships.{delete_organization, members_of, add_org_member, set_members}
use auth_manager.Base.{
  Text, ◌≡◌, Option-cases, [], ◌∷◌, inl, false, sym, arith, true, inr, ◌≢◌, ◌∙◌, Bool-cases, nat_eq,
  ◌==◌, refl,
}

module _ (j : Text) (s s' : Orgs) where
  pub as_before :
      members_of j s' ≡ members_of j s
      → has_key j s'.by_id ≡ has_key j s.by_id
      → IsSound j s
      → IsSound j s'
  as_before here ids at = record {
    distinct = rw here at.distinct;
    keyed = rw here at.keyed;
    owned = λ e. rw here (at.owned (sym ids ∙ e));
    orphan = λ e. here ∙ at.orphan (sym ids ∙ e);
  }

  -- No organization, and no member of it.
  pub gone : members_of j s' ≡ [] → has_key j s'.by_id ≡ false → IsSound j s'
  gone none_left unknown = record {
    distinct = rw none_left tt;
    keyed = rw none_left tt;
    owned = λ e. absurd (ground (arith, unknown));
    orphan = λ e. none_left;
  }

  -- One member, an owner.
  founded :
      (m : Member)
      → members_of j s' ≡ (m.user_id, m) ∷ []
      → has_key j s'.by_id ≡ true
      → m.role ≡ owner
      → IsSound j s'
  unfolding lookup
  founded m alone known owns = record {
    distinct = rw alone (refl, tt);
    keyed = rw alone (refl, tt);
    owned = λ e. rw (alone, owns) (omega arith);
    orphan = λ e. absurd (ground (arith, known));
  }

pub delete_organization-IsOwned :
    (org_id : Text) (s : Orgs) → IsOwned s → IsOwned (delete_organization org_id s).1
unfolding delete_organization
delete_organization-IsOwned org_id s owned = elim (Option-cases (lookup org_id s.by_id)) [
  | inl unknown ↦ rw (unknown, delete_organization) owned
  | inr (org, known) ↦
      rw (known, delete_organization)
        (λ j. elim (Bool-cases (j == org_id)) [
          | inl here ↦
              gone j s _ (ground (arith, here, lookup-erase j org_id s.members))
                (ground (arith, here, lookup-erase j org_id s.by_id))
          | inr other ↦
              as_before j s _ (ground (arith, other, lookup-erase j org_id s.members))
                (ground (arith, other, lookup-erase j org_id s.by_id)) (owned j)
        ])
]

module _ (org : Org) (m : Member) (s : Orgs) where
  -- The first member of an organization that has none.
  first_member :
      has_key org.id s.by_id ≡ false
      → members_of org.id s ≡ []
      → m.user_id ≢ 0
      → (add_org_member org.id m (store_org org s)).1
        ≡ set_members org.id ((m.user_id, m) ∷ []) (store_org org s)
  unfolding add_org_member insert lookup
  first_member fresh none_yet named =
      let known = lookup-insert org.id org.id org s.by_id in
      let empty : members_of org.id (store_org org s) ≡ [] = stored_members in
      ground (arith, known, empty)
    where
      stored_members : members_of org.id (store_org org s) ≡ []
      stored_members = elim (Bool-cases (has_key org.id s.members)) [
        | inl there ↦ rw there none_yet
        | inr new ↦ rw new (ground (arith, lookup-insert org.id org.id [] s.members))
      ]

  -- The organization with its owner as the first member.
  pub stored-IsOwned :
      has_key org.id s.by_id ≡ false
      → m.user_id ≢ 0
      → m.role ≡ owner
      → IsOwned s
      → IsOwned (add_org_member org.id m (store_org org s)).1
  stored-IsOwned fresh named owns owned j =
      rw (first_member fresh ((owned org.id).orphan fresh) named) (elim (Bool-cases (j == org.id)) [
        | inl here ↦
            founded j s _ m
              (ground (
                arith,
                here,
                lookup-insert j org.id ((m.user_id, m) ∷ []) (store_org org s).members,
              ))
              (ground (arith, here, lookup-insert j org.id org s.by_id)) owns
        | inr other ↦
            as_before j s _
              (ground (
                arith,
                other,
                lookup-insert j org.id ((m.user_id, m) ∷ []) (store_org org s).members,
                others j other,
              ))
              (ground (arith, other, lookup-insert j org.id org s.by_id)) (owned j)
      ])
    where
      others : (j : Text) → (j == org.id) ≡ false → members_of j (store_org org s) ≡ members_of j s
      others j other = elim (Bool-cases (has_key org.id s.members)) [
        | inl there ↦ rw there refl
        | inr new ↦ rw new (ground (arith, lookup-insert j org.id [] s.members))
      ]

-- Only the invitations change, or what is written of an organization that was there.
pub same-IsOwned :
    (s s' : Orgs)
    → s'.members ≡ s.members
    → ((j : Text) → has_key j s'.by_id ≡ has_key j s.by_id)
    → IsOwned s
    → IsOwned s'
same-IsOwned s s' here ids owned j = as_before j s s' (rw here refl) (ids j) (owned j)
