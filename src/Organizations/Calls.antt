-- ===== src/Organizations/Calls.antt =====
-- tessera/organizations/org_manager.py: sequences of calls, with what other components write between them.
use auth_manager.Database.Organizations.{guest, member, admin}
use auth_manager.Base.Counting.{find_first-count, count-sort_by}
use auth_manager.Database
use auth_manager.Organizations.Accepting.{purge-IsOwned, accept_invitation-Owned}
use auth_manager.Database.Memberships.{get_org_members, member_added_at, members_of}
use auth_manager.Organizations.Kept.{
  update-Owned, delete_org-Owned, send_invitation-Owned, decline_invitation-Owned,
}
use auth_manager.Organizations.History.{gone}
use auth_manager.Organizations.Founding.{create_organization-Owned}
use auth_manager.Organizations.Owned.{
  Owned, add_member-Owned, remove_member-Owned, update_member_role-Owned,
}
use auth_manager.Base.Dict.{has_key, lookup, values}
use auth_manager.Cache.{Cache}
use auth_manager.Database.Users.{Users}
use auth_manager.Base.Errors.{Result}
use auth_manager.Database.Organizations.{
  Plan, Org, OrgUpdates, Invitation, OrgRole, no_orgs, get_organization, owner, Member,
  is_owner_role, admin, member,
}
use auth_manager.Organizations.Invitations.{
  OrgSettings, send_invitation, accept_invitation, decline_invitation, get_pending_invitations,
}
use auth_manager.Base.Chars.{Chars}
use auth_manager.Organizations.{
  ℕ, Text, Chars, Plan, Org, Result, OrgStore, Users, update, Cache, delete_org, add_member,
  remove_member, update_member_role, is_owner, get_org_members,
}
use auth_manager.Base.{
  ℕ, Text, Bool, Option, ◌≡◌, false, nat_eq, some, refl, find_first, true, arith,
}
use auth_manager.Organizations
use auth_manager.Organizations.Invitations

-- A call with its arguments, the clock and the random values that it draws.
pub data Call : Type 0 where
  creates : ℕ → Text → Chars → Chars → Text → Option Text → Plan → Option Chars → Call
  updates : ℕ → Text → OrgUpdates → Call
  deletes : Text → Call
  adds : ℕ → Text → Text → OrgRole → Option Text → Call
  removes : Text → Text → Call
  changes_role : Text → Text → OrgRole → Call
  invites_to : ℕ → Text → Text → Text → Text → OrgRole → Text → Option ℕ → Option Text → Call
  lists : ℕ → Text → Call
  accepts : ℕ → Text → Text → Call
  declines : Text → Call
  -- The user table and the cache belong to other components too.
  elsewhere : Users → Option Cache → Call

module _ (lower strip_text : Text → Text) (has_at : Text → Bool) (none_text : Text)
    (cfg : OrgSettings) (email_service : Option (Org → Invitation → Result (Unit {0}))) where
  -- The state after a call, whether it raises or not.
  abbrev pub run : Call → OrgStore → OrgStore
  run (creates now new_id suffix name owner_id description plan slug) s =
      (Organizations.create_organization strip_text now new_id suffix name owner_id description plan
        slug s).1
  run (updates now org_id u) s = (update now org_id u s).1
  run (deletes org_id) s = (delete_org org_id s).1
  run (adds now org_id user_id role added_by) s =
      (add_member strip_text now org_id user_id role added_by s).1
  run (removes org_id user_id) s = (remove_member org_id user_id s).1
  run (changes_role org_id user_id role) s = (update_member_role org_id user_id role s).1
  run (invites_to now new_id new_token org_id email role invited_by hours message) s =
      (send_invitation lower strip_text has_at cfg email_service now new_id new_token org_id email
        role invited_by hours message s).1
  run (lists now org_id) s = record s {
    orgs = (Organizations.Invitations.get_pending_invitations now org_id s.orgs).1;
  }
  run (accepts now token user_id) s = (accept_invitation lower none_text now token user_id s).1
  run (declines token) s = (decline_invitation token s).1
  run (elsewhere users cache) s = record s { users = users; cache = cache }

  -- `uuid.uuid4()` gives an id that no organization has.
  abbrev pub IsFresh : Call → OrgStore → Type 0
  IsFresh (creates now new_id suffix name owner_id description plan slug) s =
      has_key new_id s.orgs.by_id ≡ false
  IsFresh _ s = Unit

  pub data Reach : OrgStore → Type 0 where
    start :
        (users : Users) (cache : Option Cache)
        → Reach (record { orgs = no_orgs; users = users; cache = cache })
    then : (c : Call) (s : OrgStore) → Reach s → IsFresh c s → Reach (run c s)

  run-Owned : (c : Call) (s : OrgStore) → IsFresh c s → Owned s → Owned (run c s)
  unfolding get_pending_invitations
  run-Owned (creates now new_id suffix name owner_id description plan slug) s fresh owned =
      create_organization-Owned s owned strip_text now new_id suffix name owner_id description plan
        slug fresh
  run-Owned (updates now org_id u) s _ owned = update-Owned s owned now org_id u
  run-Owned (deletes org_id) s _ owned = delete_org-Owned s owned org_id
  run-Owned (adds now org_id user_id role added_by) s _ owned =
      add_member-Owned s owned strip_text now org_id user_id role added_by
  run-Owned (removes org_id user_id) s _ owned = remove_member-Owned s owned org_id user_id
  run-Owned (changes_role org_id user_id role) s _ owned =
      update_member_role-Owned s owned org_id user_id role
  run-Owned (invites_to now new_id new_token org_id email role invited_by hours message) s _ owned =
      send_invitation-Owned s owned cfg lower strip_text has_at email_service now new_id new_token
        org_id email role invited_by hours message
  run-Owned (lists now org_id) s _ owned =
      purge-IsOwned now (Database.Memberships.get_pending_invitations org_id s.orgs) s.orgs owned
  run-Owned (accepts now token user_id) s _ owned =
      accept_invitation-Owned lower none_text s owned now token user_id
  run-Owned (declines token) s _ owned = decline_invitation-Owned s owned token
  run-Owned (elsewhere users cache) s _ owned = owned

  Reach-Owned : (s : OrgStore) → Reach s → Owned s
  unfolding lookup
  Reach-Owned _ (start users cache) = λ j. gone j no_orgs no_orgs refl refl
  Reach-Owned _ (then c s reached fresh) = run-Owned c s fresh (Reach-Owned s reached)

  -- After any sequence of calls that starts without organizations, in which each new organization
  -- gets an id that none has, every organization that can be fetched has a member who is an owner.
  pub Reach-has_owner :
      (s : OrgStore)
      → Reach s
      → (org_id : Text) (org : Org) → get_organization org_id s.orgs ≡ some org
      → (m : Member) × (find_first is_owner (get_org_members org_id s.orgs) ≡ some m)
        × (m.role ≡ owner)
  Reach-has_owner s reached org_id org there =
      let h = Reach-Owned s reached org_id in
      let (m, found, owns) = find_first-count is_owner (get_org_members org_id s.orgs) (
        rw (count-sort_by is_owner member_added_at (values (members_of org_id s.orgs)))
          (h.owned (ground (arith, there)))) in
      (m, found, is_owner_role-owner m.role owns)
    where
      is_owner_role-owner : (r : OrgRole) → is_owner_role r ≡ true → r ≡ owner
      is_owner_role-owner owner e = refl
      is_owner_role-owner admin e = absurd (ground arith)
      is_owner_role-owner member e = absurd (ground arith)
      is_owner_role-owner guest e = absurd (ground arith)
