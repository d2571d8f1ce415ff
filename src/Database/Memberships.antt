-- ===== src/Database/Memberships.antt =====
-- tessera/db/memory.py: the deletion and the listing of organizations, their members and invitations.
use auth_manager.Base.Chars.{chars_eq}
use auth_manager.Base.Errors.{Action, err, integrity_error, value_error, ok}
use auth_manager.Base.Dict.{Dict, lookup, insert, has_key, values, erase}
use auth_manager.Database.Organizations.{Org, Member, Invitation, Orgs, OrgRole}
use auth_manager.Base.{
  Text, ℕ, Bool, Option, List, if◌then◌else◌, ◌==◌, find_first, ◌∷◌, [], sort_by, not, true, ◌&&◌,
  keep, nat_eq, none, false, take, some, drop, length,
}

-- The dict comprehension of `delete_organization`.
abbrev pub without_org : Text → Dict Text Invitation → Dict Text Invitation
without_org org_id [] = []
without_org org_id ((k, i) ∷ d) =
    let rest = without_org org_id d in if i.org_id == org_id then rest else (k, i) ∷ rest

unfoldable pub delete_organization : Text → Orgs → Bool × Orgs
delete_organization org_id s = elim (lookup org_id s.by_id) [
  | none ↦ (false, s)
  | some org ↦ (
    true,
    record {
      by_id = erase org_id s.by_id;
      by_slug = erase org.slug s.by_slug;
      members = erase org_id s.members;
      invitations = without_org org_id s.invitations;
    },
  )
]

abbrev pub org_created_at : Org → ℕ
org_created_at org = org.created_at

-- Oldest first, with the number of all.
unfoldable pub list_organizations : ℕ → ℕ → Orgs → List Org × ℕ
list_organizations limit offset s =
    let ordered = sort_by org_created_at (values s.by_id) in
    (take limit (drop offset ordered), length ordered)

-- `self._org_members.get(org_id, {})`
abbrev pub members_of : Text → Orgs → Dict Text Member
members_of org_id s = elim (lookup org_id s.members) [ none ↦ [] | some d ↦ d ]

abbrev pub set_members : Text → Dict Text Member → Orgs → Orgs
set_members org_id d s = record s { members = insert org_id d s.members }

unfoldable pub add_org_member : Text → Member → Action Orgs Member
add_org_member org_id m s =
    if not (has_key org_id s.by_id)
    then (err integrity_error, s)
    else if m.user_id == 0
    then (err value_error, s)
    else if has_key m.user_id (members_of org_id s)
    then (err integrity_error, set_members org_id (members_of org_id s) s)
    else (ok m, set_members org_id (insert m.user_id m (members_of org_id s)) s)

abbrev pub member_added_at : Member → ℕ
member_added_at m = m.added_at

abbrev pub get_org_members : Text → Orgs → List Member
get_org_members org_id s = sort_by member_added_at (values (members_of org_id s))

-- `update_org_member`, for the one key that the managers update.
unfoldable pub update_org_member : Text → Text → OrgRole → Orgs → Option Member × Orgs
update_org_member org_id user_id role s = elim (lookup user_id (members_of org_id s)) [
  | none ↦ (none, s)
  | some m ↦
      let saved : Member = record m { role = role } in
      (some saved, set_members org_id (insert user_id saved (members_of org_id s)) s)
]

unfoldable pub remove_org_member : Text → Text → Orgs → Bool × Orgs
remove_org_member org_id user_id s =
    if has_key user_id (members_of org_id s)
    then (true, set_members org_id (erase user_id (members_of org_id s)) s)
    else (false, s)

-- `create_invitation`, with the record that carries its fresh id and token.
unfoldable pub create_invitation : Invitation → Action Orgs Invitation
create_invitation i s =
    if i.org_id == 0
    then (err value_error, s)
    else if has_key i.org_id s.by_id
    then (ok i, record s { invitations = insert i.id i s.invitations })
    else (err integrity_error, s)

abbrev has_token : Text → Invitation → Bool
has_token token i = i.token == token

unfoldable pub get_invitation_by_token : Text → Orgs → Option Invitation
get_invitation_by_token token s = find_first (has_token token) (values s.invitations)

abbrev pub invited_at : Invitation → ℕ
invited_at i = i.created_at

abbrev pub is_pending_of : Text → Invitation → Bool
is_pending_of org_id i = i.org_id == org_id && i.is_pending

unfoldable pub get_pending_invitations : Text → Orgs → List Invitation
get_pending_invitations org_id s =
    keep (is_pending_of org_id) (sort_by invited_at (values s.invitations))

unfoldable pub delete_invitation : Text → Orgs → Bool × Orgs
delete_invitation id s =
    (has_key id s.invitations, record s { invitations = erase id s.invitations })
