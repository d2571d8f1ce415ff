-- ===== src/Organizations/Owners.antt =====
-- tessera/organizations/org_manager.py: every organization keeps an owner, operation by operation.
use auth_manager.Organizations.{is_owner}
use auth_manager.Database.Memberships.{
  add_org_member, remove_org_member, members_of, set_members, update_org_member,
}
use auth_manager.Base.Dict.{Dict, lookup, has_key, values, lookup-insert, insert, erase}
use auth_manager.Base.Counting.{
  Distinct, count, Keyed, count-erase, count-insert, Distinct-erase, Keyed-erase, Keyed-lookup,
  count_at, Distinct-insert, Keyed-insert,
}
use auth_manager.Base.{
  Text, ℕ, ◌≡◌, true, some, ◌<◌, Bool-cases, ◌&&◌, false, inl, leb, [], ◌==◌, inr, arith, nat_eq,
  not, ap, refl,
}
use auth_manager.Database.Organizations.{Member, Orgs, OrgRole, is_owner_role}

abbrev pub member_key : Member → Text
member_key m = m.user_id

abbrev pub owners : Text → Orgs → ℕ
owners org_id s = count is_owner (values (members_of org_id s))

-- What holds of one organization id: its members stand under their user ids, each once, there is an
-- owner if the organization exists, and no member if it does not.
pub record IsSound (org_id : Text) (s : Orgs) : Type 0 where
  pub distinct : Distinct (members_of org_id s)
  pub keyed : Keyed member_key (members_of org_id s)
  pub owned : has_key org_id s.by_id ≡ true → 0 < owners org_id s
  pub orphan : has_key org_id s.by_id ≡ false → members_of org_id s ≡ []

abbrev pub IsOwned : Orgs → Type 0
IsOwned s = (org_id : Text) → IsSound org_id s

module _ (org_id : Text) (s : Orgs) (sound : IsOwned s) where
  -- A write of the members of an existing organization that leaves it an owner.
  pub set_members-IsOwned :
      (d : Dict Text Member)
      → has_key org_id s.by_id ≡ true
      → Distinct d
      → Keyed member_key d
      → 0 < count is_owner (values d)
      → IsOwned (set_members org_id d s)
  set_members-IsOwned d known u k some_owner j = elim (Bool-cases (j == org_id)) [
    | inl same ↦ record {
      distinct = rw (here same) u;
      keyed = rw (here same) k;
      owned = λ e. rw (here same) some_owner;
      orphan = λ e. absurd (ground (arith, same));
    }
    | inr other ↦ record {
      distinct = rw (there other) (sound j).distinct;
      keyed = rw (there other) (sound j).keyed;
      owned = λ e. rw (there other) ((sound j).owned e);
      orphan = λ e. rw (there other) ((sound j).orphan e);
    }
  ]
    where
      here : (j == org_id) ≡ true → members_of j (set_members org_id d s) ≡ d
      here same = ground (arith, lookup-insert j org_id d s.members)

      there : (j == org_id) ≡ false → members_of j (set_members org_id d s) ≡ members_of j s
      there other = ground (arith, lookup-insert j org_id d s.members)

  -- A member of an organization that exists.
  pub known_org :
      (user_id : Text)
      → has_key user_id (members_of org_id s) ≡ true
      → has_key org_id s.by_id ≡ true
  unfolding lookup
  known_org user_id there = elim (Bool-cases (has_key org_id s.by_id)) [
    | inl known ↦ known
    | inr unknown ↦ absurd (ground (arith, (sound org_id).orphan unknown))
  ]

  pub add_org_member-IsOwned : (m : Member) → IsOwned (add_org_member org_id m s).1
  unfolding add_org_member
  add_org_member-IsOwned m = elim (Bool-cases (has_key org_id s.by_id)) [
    | inr unknown ↦ rw (unknown, add_org_member) sound
    | inl known ↦ elim (Bool-cases (m.user_id == 0)) [
      | inl nameless ↦ rw (known, nameless, add_org_member) sound
      | inr named ↦ elim (Bool-cases (has_key m.user_id d)) [
        | inl there ↦
            rw (known, named, there, add_org_member)
              (set_members-IsOwned d known at.distinct at.keyed (at.owned known))
        | inr new ↦
            rw (known, named, new, add_org_member)
              (set_members-IsOwned (insert m.user_id m d) known
                (Distinct-insert m.user_id m d at.distinct)
                (Keyed-insert member_key m.user_id m d refl at.keyed) (more new (at.owned known)))
      ]
    ]
  ]
    where
      d : Dict Text Member
      d = members_of org_id s

      at : IsSound org_id s
      at = sound org_id

      more :
          has_key m.user_id d ≡ false
          → 0 < count is_owner (values d)
          → 0 < count is_owner (values (insert m.user_id m d))
      more new h = ground (arith, count-insert is_owner m.user_id m d)

  pub remove_org_member-IsOwned :
      (user_id : Text) (m : Member)
      → lookup user_id (members_of org_id s) ≡ some m
      → (is_owner m && leb (owners org_id s) 1) ≡ false
      → IsOwned (remove_org_member org_id user_id s).1
  unfolding remove_org_member
  remove_org_member-IsOwned user_id m found spare =
      let d = members_of org_id s in
      let at = sound org_id in
      let there : has_key user_id d ≡ true = ground (arith, found) in
      let counted = count-erase is_owner user_id d at.distinct in
      let known = known_org user_id there in
      rw (there, remove_org_member)
        (set_members-IsOwned (erase user_id d) known (Distinct-erase user_id d at.distinct)
          (Keyed-erase member_key user_id d at.keyed)
          (ground (arith, at.owned known, counted, ap (count_at is_owner) found)))

  pub update_org_member-IsOwned :
      (user_id : Text) (role : OrgRole) (m : Member)
      → lookup user_id (members_of org_id s) ≡ some m
      → (is_owner m && not (is_owner_role role) && leb (owners org_id s) 1) ≡ false
      → IsOwned (update_org_member org_id user_id role s).1
  unfolding update_org_member
  update_org_member-IsOwned user_id role m found spare =
      let d = members_of org_id s in
      let at = sound org_id in
      let saved : Member = record m { role = role } in
      let counted = count-insert is_owner user_id saved d in
      let known = known_org user_id (ground (arith, found)) in
      let same : m.user_id ≡ user_id = Keyed-lookup member_key user_id m d at.keyed found in
      rw (found, update_org_member)
        (set_members-IsOwned (insert user_id saved d) known
          (Distinct-insert user_id saved d at.distinct)
          (Keyed-insert member_key user_id saved d same at.keyed)
          (ground (arith, at.owned known, counted, ap (count_at is_owner) found)))
