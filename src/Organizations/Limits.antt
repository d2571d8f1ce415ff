-- ===== src/Organizations/Limits.antt =====
-- tessera/organizations/org_manager.py: the cap on the members of an organization.
use auth_manager.Database.Users.{User, get_user_by_id}
use auth_manager.Organizations.Invitations.{
  accept_invitation, consume, accept, wrong_email, is_over,
}
use auth_manager.Base.Errors.{
  Error, ok, after_raise_if, value_error, not_found, call, ◌>>◌, permission_error,
}
use auth_manager.Organizations.{OrgStore, add_member, Error, add_to, capacity, new_member, in_orgs}
use auth_manager.Base.Counting.{length-sort_by}
use auth_manager.Database.Organizations.{Orgs, Member, Org, OrgRole, get_organization, Invitation}
use auth_manager.Database.Memberships.{
  add_org_member, get_org_members, members_of, member_added_at, set_members,
  get_invitation_by_token, delete_invitation,
}
use auth_manager.Base.Dict.{insert, Dict, values, lookup-insert, has_key}
use auth_manager.Base.{
  Text, ℕ, ◌≡◌, ◌≤◌, length, ◌+◌, ◌==◌, arith, nat_eq, ◌∷◌, [], Bool-cases, ◌∙◌, inr, Option, ap,
  inl, some, max, leb, none, is_some, ◌&&◌, ◌||◌, subst,
}

abbrev pub size : Text → Orgs → ℕ
size org_id s = length (get_org_members org_id s)

size-length : (org_id : Text) (s : Orgs) → size org_id s ≡ length (values (members_of org_id s))
size-length org_id s = length-sort_by member_added_at (values (members_of org_id s))

length-insert :
    (k : Text) (m : Member) (d : Dict Text Member)
    → length (values (insert k m d)) ≤ length (values d) + 1
unfolding insert
length-insert k m [] = omega arith
length-insert k m ((j, w) ∷ d) = ground (arith, length-insert k m d)

set_members-size :
    (org_id : Text) (d : Dict Text Member) (s : Orgs)
    → size org_id (set_members org_id d s) ≡ length (values d)
set_members-size org_id d s =
    let here : members_of org_id (set_members org_id d s) ≡ d =
      ground (arith, nat_eq.beq_iff org_id org_id, lookup-insert org_id org_id d s.members) in
    size-length org_id (set_members org_id d s)
    ∙ ap (λ (d : Dict Text Member). length (values d)) here

-- One member more at most.
add_org_member-size :
    (org_id : Text) (m : Member) (s : Orgs)
    → size org_id (add_org_member org_id m s).1 ≤ size org_id s + 1
unfolding add_org_member
add_org_member-size org_id m s = elim (Bool-cases (has_key org_id s.by_id)) [
  | inr unknown ↦ rw (unknown, add_org_member) (omega arith)
  | inl known ↦ elim (Bool-cases (m.user_id == 0)) [
    | inl nameless ↦ rw (known, nameless, add_org_member) (omega arith)
    | inr named ↦ elim (Bool-cases (has_key m.user_id d)) [
      | inl there ↦
          rw (known, named, there, add_org_member)
            (omega (arith, set_members-size org_id d s, before))
      | inr new ↦
          rw (known, named, new, add_org_member)
            (omega (
              arith,
              set_members-size org_id (insert m.user_id m d) s,
              before,
              length-insert m.user_id m d,
            ))
    ]
  ]
]
  where
    d : Dict Text Member
    d = members_of org_id s

    before : size org_id s ≡ length (values d)
    before = size-length org_id s

module _ (s : OrgStore) (id_of : Org → Text) (m : Member) (full : Error) (org : Org) (n : ℕ) where
  pub add_to-bounded :
      capacity org ≡ ok n
      → size (id_of org) (add_to id_of m full (some org) s).1.orgs ≤ max (size (id_of org) s.orgs) n
  unfolding add_to
  add_to-bounded limit =
      rw (limit, add_to)
        (after_raise_if UnderCap (leb n (size (id_of org) s.orgs)) full
          (in_orgs (add_org_member (id_of org) m)) s (omega arith)
          (λ room.
            let grown = add_org_member-size (id_of org) m s.orgs in
            ground (arith, room, add_org_member-size (id_of org) m s.orgs)))
    where
      UnderCap : OrgStore → Type 0
      UnderCap s' = size (id_of org) s'.orgs ≤ max (size (id_of org) s.orgs) n

-- For an organization that exists and has a cap: adding a member directly never takes it past the cap,
-- and one that is past it already does not grow.
add_member-bounded :
    (strip_text : Text → Text) (now : ℕ) (org_id user_id : Text) (role : OrgRole)
    (added_by : Option Text) (s : OrgStore) (org : Org) (n : ℕ)
    → get_organization org_id s.orgs ≡ some org
    → capacity org ≡ ok n
    → length
        (get_org_members org_id (add_member strip_text now org_id user_id role added_by s).1.orgs)
      ≤ max (length (get_org_members org_id s.orgs)) n
unfolding add_member
add_member-bounded strip_text now org_id user_id role added_by s org n there limit =
    let new = new_member now user_id role added_by none in
    after_raise_if (λ s'. size org_id s'.orgs ≤ max (size org_id s.orgs) n)
      (is_some (get_organization org_id s.orgs) && (user_id == 0 || strip_text user_id == 0))
      value_error (add_to (λ _. org_id) new value_error (get_organization org_id s.orgs)) s
      (omega arith) (λ _. rw there (add_to-bounded s (λ _. org_id) new value_error org n limit))

module _ (lower : Text → Text) (none_text : Text) (now : ℕ) (user_id : Text) (s : OrgStore)
    (i : Invitation) (org : Org) (n : ℕ) (there : get_organization i.org_id s.orgs ≡ some org)
    (same : org.id ≡ i.org_id) (limit : capacity org ≡ ok n) where
  abbrev pub UnderCap : OrgStore → Type 0
  UnderCap s' = size i.org_id s'.orgs ≤ max (size i.org_id s.orgs) n

  consume-bounded : (u : Option User) → UnderCap (consume lower none_text now user_id i u s).1
  unfolding consume delete_invitation
  consume-bounded none = omega arith
  consume-bounded (some u) =
      let used : OrgStore = record s { orgs = (delete_invitation i.id s.orgs).1 } in
      let m = new_member now user_id i.role (some i.invited_by) (some i.id) in
      after_raise_if UnderCap (wrong_email lower none_text i u) not_found
        (in_orgs (call (delete_invitation i.id)) >> λ s'.
          add_to (λ org. org.id) m permission_error (get_organization i.org_id s'.orgs) s')
        s (omega arith)
        (λ _. rw there (
          subst
            (λ id.
              size id (add_to (λ org. org.id) m permission_error (some org) used).1.orgs
              ≤ max (size id s.orgs) n)
            same (add_to-bounded used (λ org. org.id) m permission_error org n limit)))

  pub accept-bounded : UnderCap (accept lower none_text now user_id (some i) s).1
  unfolding accept delete_invitation
  accept-bounded = elim (Bool-cases i.is_pending) [
    | inr answered ↦ rw (answered, accept) (omega arith)
    | inl pending ↦ elim (Bool-cases (is_over now i.expires_at)) [
      | inl over ↦ rw (pending, over, accept) (omega arith)
      | inr on ↦ rw (pending, on, accept) (consume-bounded (get_user_by_id lower user_id s.users))
    ]
  ]

-- Accepting an invitation never takes the organization past its cap either.
accept_invitation-bounded :
    (lower : Text → Text) (none_text : Text) (now : ℕ) (token user_id : Text) (s : OrgStore)
    (i : Invitation) (org : Org) (n : ℕ)
    → get_invitation_by_token token s.orgs ≡ some i
    → get_organization i.org_id s.orgs ≡ some org
    → org.id ≡ i.org_id
    → capacity org ≡ ok n
    → length
        (get_org_members i.org_id (accept_invitation lower none_text now token user_id s).1.orgs)
      ≤ max (length (get_org_members i.org_id s.orgs)) n
unfolding accept_invitation
accept_invitation-bounded lower none_text now token user_id s i org n found there same limit =
    after_raise_if (λ s'. size i.org_id s'.orgs ≤ max (size i.org_id s.orgs) n) (token == 0)
      value_error (λ s. accept lower none_text now user_id (get_invitation_by_token token s.orgs) s)
      s (omega arith)
      (λ _. rw found (accept-bounded lower none_text now user_id s i org n there same limit))
