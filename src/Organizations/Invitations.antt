-- ===== src/Organizations/Invitations.antt =====
-- tessera/organizations/org_manager.py: invitations.
use auth_manager.Database
use auth_manager.Database.Memberships.{
  get_invitation_by_token, delete_invitation, add_org_member, create_invitation,
}
use auth_manager.Cache.Keys.{invite_rate_key}
use auth_manager.Database.Users.{User, get_user_by_id}
use auth_manager.Database.Organizations.{Invitation, Org, Orgs, Member, OrgRole, get_organization}
use auth_manager.Organizations.{OrgStore, in_orgs, result, add_to, new_member}
use auth_manager.Cache.{Cache, incr, expire}
use auth_manager.Base.Errors.{
  Action, ◌>>=◌, Result, gets, ok, ◌>>◌, raise, raise_if, pure, not_found, value_error,
  rate_limit_error, call, permission_error, integrity_error,
}
use auth_manager.Base.{
  ℕ, Option, Text, some, Bool, if◌then◌else◌, false, List, ◌==◌, leb, none, ◌∷◌, ◌*◌, not, nat_eq,
  true, ◌&&◌, ltb, [], ◌||◌, is_some, find_first, ◌+◌, second,
}

pub record OrgSettings : Type 0 where
  pub invitation_ttl_seconds : ℕ
  pub max_invitations_per_window : ℕ
  pub invitation_rate_window_seconds : ℕ

-- `_enforce_invitation_rate_limit`
unfoldable pub enforce_invitation_rate_limit : OrgSettings → ℕ → Text → Action Cache (Unit {0})
enforce_invitation_rate_limit cfg now org_id = do
  count ← incr now (invite_rate_key org_id)
  if count == 1
      then (do expire now (invite_rate_key org_id) cfg.invitation_rate_window_seconds; pure tt)
      else pure tt
  raise_if (ltb cfg.max_invitations_per_window count)
      (rate_limit_error cfg.invitation_rate_window_seconds)

abbrev pub in_cache : Action Cache (Unit {0}) → Action OrgStore (Unit {0})
in_cache m s = elim s.cache [
  | none ↦ (ok tt, s)
  | some c ↦ let (r, c') = m c in (r, record s { cache = some c' })
]

-- The lifetime of an invitation in seconds.
abbrev pub invitation_ttl : OrgSettings → Option ℕ → ℕ
invitation_ttl cfg none = cfg.invitation_ttl_seconds
invitation_ttl cfg (some hours) = if hours == 0 then cfg.invitation_ttl_seconds else hours * 3600

-- An invitation that has run out.
abbrev pub is_over : ℕ → Option ℕ → Bool
is_over now none = false
is_over now (some t) = leb t now

-- With the email service, where there is one.
abbrev pub deliver :
    Option (Org → Invitation → Result (Unit {0})) → Org → Invitation → Action OrgStore Invitation
deliver none org i = pure i
deliver (some send) org i = do result (send org i); pure i

-- The end of `send_invitation`.
unfoldable pub issue :
    OrgSettings
    → Option (Org → Invitation → Result (Unit {0}))
    → ℕ
    → Text
    → Org
    → Invitation
    → Action OrgStore Invitation
unfolding enforce_invitation_rate_limit
issue cfg email_service now org_id org i = do
  in_cache (enforce_invitation_rate_limit cfg now org_id)
  invitation ← in_orgs (create_invitation i)
  deliver email_service org invitation

abbrev pub invites : (Text → Text) → Text → Invitation → Bool
invites lower email i = lower i.email == email

abbrev pub new_invitation :
    OrgSettings
    → ℕ
    → Text
    → Text
    → Text
    → Text
    → OrgRole
    → Text
    → Option ℕ
    → Option Text
    → Invitation
new_invitation cfg now new_id new_token org_id email role invited_by expires_in_hours message =
    record {
      id = new_id;
      org_id = org_id;
      email = email;
      role = role;
      is_pending = true;
      invited_by = invited_by;
      message = message;
      token = new_token;
      created_at = now;
      expires_at = some (now + invitation_ttl cfg expires_in_hours * second);
    }

-- The loop of `get_pending_invitations`, which purges the expired ones.
unfoldable pub purge : ℕ → List Invitation → Orgs → List Invitation × Orgs
purge now [] s = ([], s)
purge now (i ∷ rest) s = elim (is_over now i.expires_at) [
  | true ↦ purge now rest (delete_invitation i.id s).1
  | false ↦ let (active, s') = purge now rest s in (i ∷ active, s')
]

unfoldable pub get_pending_invitations : ℕ → Text → Orgs → List Invitation × Orgs
unfolding purge
get_pending_invitations now org_id s =
    purge now (Database.Memberships.get_pending_invitations org_id s) s

module _ (lower strip : Text → Text) (has_at : Text → Bool) (cfg : OrgSettings) where
  -- The rest of `send_invitation`, with the organization that was found.
  unfoldable pub invite :
      Option (Org → Invitation → Result (Unit {0}))
      → ℕ
      → Text
      → Text
      → Text
      → Text
      → OrgRole
      → Text
      → Option ℕ
      → Option Text
      → Option Org
      → Action OrgStore Invitation
  unfolding issue
  invite email_service now new_id new_token org_id email role invited_by expires_in_hours message
        none s =
      raise not_found s
  invite email_service now new_id new_token org_id email role invited_by expires_in_hours message
        (some org) s =
      let pending = Database.Memberships.get_pending_invitations org_id s.orgs in
      (do
        raise_if (email == 0 || not (has_at email)) value_error
        raise_if (is_some (find_first (invites lower (lower (strip email))) pending))
            integrity_error
        issue cfg email_service now org_id org (
            new_invitation cfg now new_id new_token org_id (strip email) role invited_by
              expires_in_hours message))
        s

  unfoldable pub send_invitation :
      Option (Org → Invitation → Result (Unit {0}))
      → ℕ
      → Text
      → Text
      → Text
      → Text
      → OrgRole
      → Text
      → Option ℕ
      → Option Text
      → Action OrgStore Invitation
  unfolding invite
  send_invitation email_service now new_id new_token org_id email role invited_by expires_in_hours
        message s =
      invite email_service now new_id new_token org_id email role invited_by expires_in_hours
        message (get_organization org_id s.orgs) s

-- `none_text` is the text `none`.
module _ (lower : Text → Text) (none_text : Text) where
  -- `str(user.get("email", "")).lower()`: the text of `None` where the user has no address.
  abbrev pub user_email : User → Text
  user_email u = if u.email == 0 then none_text else lower u.email

  -- An invitation that was issued for another address.
  abbrev pub wrong_email : Invitation → User → Bool
  wrong_email i u =
      not (lower i.email == 0) && not (user_email u == 0) && not (lower i.email == user_email u)

  -- The end of `accept_invitation`: the invitation is consumed before the member is added.
  unfoldable pub consume : ℕ → Text → Invitation → Option User → Action OrgStore Member
  consume now user_id i none = raise not_found
  consume now user_id i (some u) = do
    raise_if (wrong_email i u) not_found
    in_orgs (call (delete_invitation i.id))
    org ← gets (λ s. get_organization i.org_id s.orgs)
    add_to (λ org. org.id) (new_member now user_id i.role (some i.invited_by) (some i.id))
        permission_error org

  -- The rest of `accept_invitation`, with the invitation that was found.
  unfoldable pub accept : ℕ → Text → Option Invitation → Action OrgStore Member
  unfolding consume
  accept now user_id none = raise not_found
  accept now user_id (some i) = do
    raise_if (not i.is_pending) not_found
    if is_over now i.expires_at
        then (do in_orgs (call (delete_invitation i.id)); raise not_found)
        else λ s. consume now user_id i (get_user_by_id lower user_id s.users) s

  unfoldable pub accept_invitation : ℕ → Text → Text → Action OrgStore Member
  unfolding accept
  accept_invitation now token user_id = do
    raise_if (token == 0) value_error
    λ s. accept now user_id (get_invitation_by_token token s.orgs) s

unfoldable pub decline_invitation : Text → Action OrgStore Bool
decline_invitation token = do
  found ← gets (λ s. get_invitation_by_token token s.orgs)
  elim found [ none ↦ pure false | some i ↦ in_orgs (call (delete_invitation i.id)) ]
