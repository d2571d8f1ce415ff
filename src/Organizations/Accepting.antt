-- ===== src/Organizations/Accepting.antt =====
-- tessera/organizations/org_manager.py: invitations that are listed and accepted.
use auth_manager.Organizations.Kept.{delete_invitation-IsOwned}
use auth_manager.Base.Errors.{after_raise_if, value_error, not_found, call, ◌>>◌, permission_error}
use auth_manager.Database.Users.{User, get_user_by_id}
use auth_manager.Database.Memberships.{get_invitation_by_token, delete_invitation}
use auth_manager.Organizations.Owners.{IsOwned}
use auth_manager.Organizations.Owned.{Owned, add_to-Owned}
use auth_manager.Database.Organizations.{Invitation, Orgs, get_organization}
use auth_manager.Organizations.{Text, OrgStore, new_member, in_orgs, add_to}
use auth_manager.Base.{
  Text, ℕ, List, Option, ◌∷◌, Bool-cases, some, inr, ◌==◌, inl, nat_eq, none, [],
}
use auth_manager.Organizations.Invitations.{
  purge, consume, accept, accept_invitation, is_over, wrong_email,
}

pub purge-IsOwned :
    (now : ℕ) (l : List Invitation) (s : Orgs) → IsOwned s → IsOwned (purge now l s).1
unfolding purge
purge-IsOwned now [] s owned = owned
purge-IsOwned now (i ∷ rest) s owned = elim (Bool-cases (is_over now i.expires_at)) [
  | inl over ↦
      rw (over, purge)
        (purge-IsOwned now rest (delete_invitation i.id s).1
          (delete_invitation-IsOwned i.id s owned))
  | inr on ↦ rw (on, purge) (purge-IsOwned now rest s owned)
]

module _ (lower : Text → Text) (none_text : Text) (s : OrgStore) (owned : Owned s) where
  consume-Owned :
      (now : ℕ) (user_id : Text) (i : Invitation) (u : Option User)
      → Owned (consume lower none_text now user_id i u s).1
  unfolding consume
  consume-Owned now user_id i none = owned
  consume-Owned now user_id i (some u) =
      let s' : OrgStore = record s { orgs = (delete_invitation i.id s.orgs).1 } in
      let m = new_member now user_id i.role (some i.invited_by) (some i.id) in
      after_raise_if Owned (wrong_email lower none_text i u) not_found
        (in_orgs (call (delete_invitation i.id)) >> λ s'.
          add_to (λ org. org.id) m permission_error (get_organization i.org_id s'.orgs) s')
        s owned
        (λ _.
          add_to-Owned s' (delete_invitation-IsOwned i.id s.orgs owned) (λ org. org.id) m
            permission_error (get_organization i.org_id s'.orgs))

  accept-Owned :
      (now : ℕ) (user_id : Text) (o : Option Invitation)
      → Owned (accept lower none_text now user_id o s).1
  unfolding accept
  accept-Owned now user_id none = owned
  accept-Owned now user_id (some i) = elim (Bool-cases i.is_pending) [
    | inr answered ↦ rw (answered, accept) owned
    | inl pending ↦ elim (Bool-cases (is_over now i.expires_at)) [
      | inl over ↦ rw (pending, over, accept) (delete_invitation-IsOwned i.id s.orgs owned)
      | inr on ↦
          rw (pending, on, accept)
            (consume-Owned now user_id i (get_user_by_id lower user_id s.users))
    ]
  ]

  pub accept_invitation-Owned :
      (now : ℕ) (token user_id : Text)
      → Owned (accept_invitation lower none_text now token user_id s).1
  unfolding accept_invitation
  accept_invitation-Owned now token user_id =
      let found = get_invitation_by_token token s.orgs in
      after_raise_if Owned (token == 0) value_error
        (λ s. accept lower none_text now user_id (get_invitation_by_token token s.orgs) s) s owned
        (λ _. accept-Owned now user_id found)
