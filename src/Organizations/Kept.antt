-- ===== src/Organizations/Kept.antt =====
-- tessera/organizations/org_manager.py: the calls that add and remove no member.
use auth_manager.Base.Chars.{chars_eq}
use auth_manager.Base.Chars.{lower}
use auth_manager.Organizations.Invitations.{
  issue, enforce_invitation_rate_limit, deliver, invite, send_invitation, invites, new_invitation,
}
use auth_manager.Organizations
use auth_manager.Organizations.Invitations
use auth_manager.Cache.{Cache}
use auth_manager.Base.Errors.{
  Action, Result, after-bind, pure, ◌>>=◌, call, bind-pure, after_raise_if, value_error, raise_if,
  integrity_error, ◌>>◌,
}
use auth_manager.Organizations.Invitations.{OrgSettings, decline_invitation, issue, in_cache}
use auth_manager.Organizations.Owned.{Owned}
use auth_manager.Base.Dict.{lookup-insert, lookup, has_key, insert}
use auth_manager.Organizations.History.{same-IsOwned, delete_organization-IsOwned}
use auth_manager.Organizations.Owners.{IsOwned}
use auth_manager.Base.{
  ℕ, Text, arith, refl, nat_eq, Bool, Option, some, none, Option-cases, ◌≡◌, inl, false, ◌⊎◌, inr,
  Bool-cases, ◌==◌, ◌||◌, not, is_some, find_first,
}
use auth_manager.Organizations.{
  update_organization, ℕ, Text, OrgStore, update, delete_org, updated_org, Action, Cache, in_orgs,
  lower, result,
}
use auth_manager.Database.Memberships.{
  create_invitation, delete_invitation, get_invitation_by_token, get_pending_invitations,
}
use auth_manager.Database.Organizations.{
  update_organization, Invitation, OrgUpdates, Orgs, Org, apply_org_updates, slug_taken, OrgRole,
  get_organization,
}

stored-has_key :
    (j org_id : Text) (o saved : Org) (s : Orgs)
    → lookup org_id s.by_id ≡ some o
    → has_key j (insert org_id saved s.by_id) ≡ has_key j s.by_id
stored-has_key j org_id o saved s there =
    ground (arith, nat_eq.beq_iff j org_id, lookup-insert j org_id saved s.by_id)

-- Either nothing is written, or the record of one organization.
updated-cases :
    (now : ℕ) (org_id : Text) (u : OrgUpdates) (s : Orgs) (org : Org)
    → lookup org_id s.by_id ≡ some org
    → ((update_organization now org_id u s).1 ≡ s)
      ⊎ ((saved : Org) × ((update_organization now org_id u s).1.by_id
            ≡ insert org_id saved s.by_id))
unfolding update_organization
updated-cases now org_id u s org there = elim (Bool-cases u.immutable) [
  | inl fixed ↦ inl (rw (there, fixed, update_organization) refl)
  | inr free ↦ elim (Option-cases u.slug) [
    | inl same ↦ inr (apply_org_updates now u org, rw (there, free, same, update_organization) refl)
    | inr (new, e) ↦ elim (Bool-cases (slug_taken org_id (lookup (lower new) s.by_slug))) [
      | inl taken ↦ inl (rw (there, free, e, taken, update_organization) refl)
      | inr untaken ↦ elim (Bool-cases (has_key org.slug s.by_slug)) [
        | inl known ↦ inr (
          apply_org_updates now u (record org { slug = lower new }),
          rw (there, free, e, untaken, known, update_organization) refl,
        )
        | inr stale ↦ inl (rw (there, free, e, untaken, stale, update_organization) refl)
      ]
    ]
  ]
]

update_organization-IsOwned :
    (now : ℕ) (org_id : Text) (u : OrgUpdates) (s : Orgs)
    → IsOwned s
    → IsOwned (update_organization now org_id u s).1
unfolding update_organization
update_organization-IsOwned now org_id u s owned = elim (Option-cases (lookup org_id s.by_id)) [
  | inl missing ↦ rw (missing, update_organization) owned
  | inr (org, there) ↦ elim (updated-cases now org_id u s org there) [
    | inl kept ↦ rw kept owned
    | inr (saved, stored) ↦
        same-IsOwned s _ (ground arith) (λ j. rw stored (stored-has_key j org_id org saved s there))
          owned
  ]
]

create_invitation-IsOwned :
    (i : Invitation) (s : Orgs) → IsOwned s → IsOwned (create_invitation i s).1
unfolding create_invitation
create_invitation-IsOwned i s owned = same-IsOwned s _ (ground arith) (λ j. ground arith) owned

pub delete_invitation-IsOwned :
    (id : Text) (s : Orgs) → IsOwned s → IsOwned (delete_invitation id s).1
unfolding delete_invitation
delete_invitation-IsOwned id s owned = same-IsOwned s _ refl (λ j. refl) owned

module _ (s : OrgStore) (owned : Owned s) where
  pub update-Owned : (now : ℕ) (org_id : Text) (u : OrgUpdates) → Owned (update now org_id u s).1
  unfolding update
  update-Owned now org_id u =
      let kept = update_organization-IsOwned now org_id u s.orgs owned in
      after-bind Owned (in_orgs (update_organization now org_id u)) updated_org s (λ _ _. kept)
        (λ o _. raised _ o kept)
    where
      raised : (s' : OrgStore) (o : Option Org) → Owned s' → Owned (updated_org o s').1
      raised s' none h = h
      raised s' (some x) h = h

  pub delete_org-Owned : (org_id : Text) → Owned (delete_org org_id s).1
  unfolding delete_org
  delete_org-Owned org_id = delete_organization-IsOwned org_id s.orgs owned

  pub decline_invitation-Owned : (token : Text) → Owned (decline_invitation token s).1
  unfolding decline_invitation
  decline_invitation-Owned token = found (get_invitation_by_token token s.orgs)
    where
      found :
          (o : Option Invitation)
          → Owned
              ((elim o as (λ x. Action OrgStore Bool) [
                | none ↦ pure false
                | some i ↦ in_orgs (call (delete_invitation i.id))
              ])
                s).1
      found none = owned
      found (some i) = delete_invitation-IsOwned i.id s.orgs owned

  module _ (cfg : OrgSettings) where
    in_cache-Owned :
        (m : Action Cache (Unit {0})) → Owned (Organizations.Invitations.in_cache m s).1
    in_cache-Owned m = ground arith

    issue-Owned :
        (email_service : Option (Org → Invitation → Result (Unit {0}))) (now : ℕ) (org_id : Text)
        (org : Org) (i : Invitation)
        → Owned (Organizations.Invitations.issue cfg email_service now org_id org i s).1
    unfolding issue
    issue-Owned email_service now org_id org i =
        let create : Action OrgStore Invitation = in_orgs (create_invitation i) in
        after-bind Owned
          (Organizations.Invitations.in_cache (enforce_invitation_rate_limit cfg now org_id))
          (λ _. create >>= deliver email_service org) s (λ _ _. limited)
          (λ _ _.
            after-bind Owned create (deliver email_service org)
              (in_cache (enforce_invitation_rate_limit cfg now org_id) s).1
              (λ _ _. create_invitation-IsOwned i _ limited)
              (λ a _. delivered _ email_service a (create_invitation-IsOwned i _ limited)))
      where
        limited : Owned (in_cache (enforce_invitation_rate_limit cfg now org_id) s).1
        limited = in_cache-Owned (enforce_invitation_rate_limit cfg now org_id)

        delivered :
            (s' : OrgStore) (service : Option (Org → Invitation → Result (Unit {0})))
            (a : Invitation)
            → Owned s'
            → Owned (deliver service org a s').1
        delivered s' none a h = h
        delivered s' (some send) a h = rw (bind-pure (result (send org a)) a s') h

    invite-Owned :
        (lower strip : Text → Text) (has_at : Text → Bool)
        (email_service : Option (Org → Invitation → Result (Unit {0}))) (now : ℕ)
        (new_id new_token org_id email : Text) (role : OrgRole) (invited_by : Text)
        (hours : Option ℕ) (message : Option Text) (o : Option Org)
        → Owned
            (invite lower strip has_at cfg email_service now new_id new_token org_id email role
              invited_by hours message o s).1
    unfolding invite
    invite-Owned lower strip has_at email_service now new_id new_token org_id email role invited_by
          hours message none =
        owned
    invite-Owned lower strip has_at email_service now new_id new_token org_id email role invited_by
          hours message (some org) =
        let pending = get_pending_invitations org_id s.orgs in
        let no_address = email == 0 || not (has_at email) in
        let twice = is_some (find_first (invites lower (lower (strip email))) pending) in
        let i =
          new_invitation cfg now new_id new_token org_id (strip email) role invited_by hours
            message in
        let end = issue cfg email_service now org_id org i in
        after_raise_if Owned no_address value_error (raise_if twice integrity_error >> end) s owned
          (λ _.
            after_raise_if Owned twice integrity_error end s owned
              (λ _. issue-Owned email_service now org_id org i))

    pub send_invitation-Owned :
        (lower strip : Text → Text) (has_at : Text → Bool)
        (email_service : Option (Org → Invitation → Result (Unit {0}))) (now : ℕ)
        (new_id new_token org_id email : Text) (role : OrgRole) (invited_by : Text)
        (hours : Option ℕ) (message : Option Text)
        → Owned
            (send_invitation lower strip has_at cfg email_service now new_id new_token org_id email
              role invited_by hours message s).1
    unfolding send_invitation
    send_invitation-Owned lower strip has_at email_service now new_id new_token org_id email role
          invited_by hours message =
        invite-Owned lower strip has_at email_service now new_id new_token org_id email role
          invited_by hours message (get_organization org_id s.orgs)
