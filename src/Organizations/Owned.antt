-- ===== src/Organizations/Owned.antt =====
-- tessera/organizations/org_manager.py: every call of the manager leaves each organization an owner.
use auth_manager.Base.Errors.{
  Error, after_raise_if, permission_error, Result, value_error, call, err, ok, ◌>>=◌, after-bind,
}
use auth_manager.Base.Counting.{
  count-Keyed, length-keep, find_first-sort_by, count-sort_by, find_first-Keyed,
}
use auth_manager.Base.Dict.{lookup, values}
use auth_manager.Database.Memberships.{
  get_org_members, members_of, member_added_at, remove_org_member, update_org_member,
  add_org_member,
}
use auth_manager.Organizations.Owners.{
  IsOwned, IsSound, owners, member_key, remove_org_member-IsOwned, update_org_member-IsOwned,
  add_org_member-IsOwned,
}
use auth_manager.Database.Organizations.{
  Orgs, OrgRole, Member, Org, is_owner_role, get_organization,
}
use auth_manager.Organizations.{
  remove_member, update_member_role, OrgStore, Orgs, OrgRole, last_owner, is_owner, get_org_members,
  is_user, remove_found, update_found, add_to, add_member, Error, updated_member, in_orgs, capacity,
  new_member,
}
use auth_manager.Base.{
  Text, find_first, ◌≡◌, leb, ap, ℕ, ◌&&◌, ◌∙◌, sym, arith, nat_eq, Option, some, not, length, none,
  refl, is_some, ◌==◌, ◌||◌,
}

find-lookup :
    (org_id user_id : Text) (s : Orgs)
    → IsSound org_id s
    → find_first (is_user user_id) (get_org_members org_id s) ≡ lookup user_id (members_of org_id s)
find-lookup org_id user_id s at =
    let d = members_of org_id s in
    let tests = λ (m : Member). refl in
    let once = count-Keyed member_key (is_user user_id) user_id d tests at.keyed at.distinct in
    find_first-sort_by (is_user user_id) member_added_at (values d) (ground (arith, once))
    ∙ find_first-Keyed member_key (is_user user_id) user_id d tests at.keyed

last_owner-owners :
    (org_id : Text) (s : Orgs) → last_owner (get_org_members org_id s) ≡ leb (owners org_id s) 1
last_owner-owners org_id s =
    ap (λ (n : ℕ). leb n 1)
      (length-keep is_owner (get_org_members org_id s)
        ∙ count-sort_by is_owner member_added_at (values (members_of org_id s)))

abbrev pub Owned : OrgStore → Type 0
Owned s = IsOwned s.orgs

module _ (s : OrgStore) (owned : Owned s) where
  remove_found-Owned :
      (org_id user_id : Text) (o : Option Member)
      → o ≡ lookup user_id (members_of org_id s.orgs)
      → Owned (remove_found org_id user_id (get_org_members org_id s.orgs) o s).1
  unfolding remove_found
  remove_found-Owned org_id user_id none e = owned
  remove_found-Owned org_id user_id (some m) e =
      after_raise_if Owned (is_owner m && last_owner (get_org_members org_id s.orgs))
        permission_error (in_orgs (call (remove_org_member org_id user_id))) s owned
        (λ spare.
          remove_org_member-IsOwned org_id s.orgs owned user_id m (sym e)
            (rw (← last_owner-owners org_id s.orgs) spare))

  pub remove_member-Owned : (org_id user_id : Text) → Owned (remove_member org_id user_id s).1
  unfolding remove_member
  remove_member-Owned org_id user_id =
      remove_found-Owned org_id user_id
        (find_first (is_user user_id) (get_org_members org_id s.orgs))
        (find-lookup org_id user_id s.orgs (owned org_id))

  update_found-Owned :
      (org_id user_id : Text) (role : OrgRole) (o : Option Member)
      → o ≡ lookup user_id (members_of org_id s.orgs)
      → Owned (update_found org_id user_id role (get_org_members org_id s.orgs) o s).1
  unfolding update_found
  update_found-Owned org_id user_id role none e = owned
  update_found-Owned org_id user_id role (some m) e =
      after_raise_if Owned
        (is_owner m && not (is_owner_role role) && last_owner (get_org_members org_id s.orgs))
        permission_error (in_orgs (call (update_org_member org_id user_id role)) >>= updated_member)
        s owned
        (λ spare.
          let kept =
            update_org_member-IsOwned org_id s.orgs owned user_id role m (sym e)
              (rw (← last_owner-owners org_id s.orgs) spare) in
          after-bind Owned (in_orgs (call (update_org_member org_id user_id role))) updated_member s
            (λ _ _. kept) (λ o _. raised _ o kept))
    where
      raised : (s' : OrgStore) (o : Option Member) → Owned s' → Owned (updated_member o s').1
      raised s' none h = h
      raised s' (some x) h = h

  pub update_member_role-Owned :
      (org_id user_id : Text) (role : OrgRole) → Owned (update_member_role org_id user_id role s).1
  unfolding update_member_role
  update_member_role-Owned org_id user_id role =
      update_found-Owned org_id user_id role
        (find_first (is_user user_id) (get_org_members org_id s.orgs))
        (find-lookup org_id user_id s.orgs (owned org_id))

  pub add_to-Owned :
      (id_of : Org → Text) (m : Member) (full : Error) (o : Option Org)
      → Owned (add_to id_of m full o s).1
  unfolding add_to
  add_to-Owned id_of m full none = owned
  add_to-Owned id_of m full (some org) = checked (capacity org) refl
    where
      checked : (r : Result ℕ) → capacity org ≡ r → Owned (add_to id_of m full (some org) s).1
      checked (err e) c = rw (c, add_to) owned
      checked (ok n) c =
          rw (c, add_to)
            (after_raise_if Owned (leb n (length (get_org_members (id_of org) s.orgs))) full
              (in_orgs (add_org_member (id_of org) m)) s owned
              (λ _. add_org_member-IsOwned (id_of org) s.orgs owned m))

  pub add_member-Owned :
      (strip_text : Text → Text) (now : ℕ) (org_id user_id : Text) (role : OrgRole)
      (added_by : Option Text)
      → Owned (add_member strip_text now org_id user_id role added_by s).1
  unfolding add_member
  add_member-Owned strip_text now org_id user_id role added_by =
      let org = get_organization org_id s.orgs in
      let m = new_member now user_id role added_by none in
      after_raise_if Owned (is_some org && (user_id == 0 || strip_text user_id == 0)) value_error
        (add_to (λ _. org_id) m value_error org) s owned
        (λ _. add_to-Owned (λ _. org_id) m value_error org)
