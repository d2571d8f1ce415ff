-- ===== src/Organizations.antt =====
-- tessera/organizations/org_manager.py, `class OrganizationManager`. `lower` and `strip_text` stand for the
-- `str` methods on the strings that are only compared, `has_at` for `"@" in email`. Roles are given as
-- values of `OrgRole`; the fresh ids, tokens and suffixes are arguments.
pub mod Invitations
pub mod Owners
pub mod Owned
pub mod History
pub mod Founding
pub mod Kept
pub mod Accepting
pub mod Calls
pub mod Limits
pub mod Slugs
use auth_manager.Database
use auth_manager.Database.Memberships.{
  list_organizations, delete_organization, get_org_members, add_org_member, remove_org_member,
  update_org_member,
}
use auth_manager.Cache.{Cache}
use auth_manager.Database.Users.{Users}
use auth_manager.Base.Chars.{Chars, is_empty, starts_with, lower, strip}
use auth_manager.Base.{
  Option, Text, ℕ, List, some, Bool, if◌then◌else◌, keep, ◌++◌, true, ltb, ◌==◌, is_some, leb,
  find_first, none, ◌∷◌, ◌||◌, length, nat_eq, [], take, false, drop, ◌-◌, ◌&&◌, ◌*◌, not,
}
use auth_manager.Base.Errors.{
  Action, Result, ok, err, Error, ◌>>◌, key_error, raise_if, call, ◌>>=◌, value_error, gets, raise,
  pure, not_found, permission_error,
}
use auth_manager.Database.Organizations.{
  Orgs, Plan, Org, Member, OrgUpdates, OrgRole, is_owner_role, update_organization, free,
  get_organization, pro, unknown, enterprise, slugify, get_organization_by_slug, owner,
}

pub record OrgStore : Type 0 where
  pub orgs : Orgs
  pub users : Users
  pub cache : Option Cache

abbrev pub in_orgs : {A : Type 0} → Action Orgs A → Action OrgStore A
in_orgs m s = let (r, o) = m s.orgs in (r, record s { orgs = o })

-- `PLAN_MAX_MEMBERS[plan]`
abbrev pub plan_max_members : Plan → Result ℕ
plan_max_members free = ok 10
plan_max_members pro = ok 50
plan_max_members enterprise = ok 1000
plan_max_members unknown = err key_error

-- `org.get("max_members", PLAN_MAX_MEMBERS[org.get("plan", "free")])`: the default is looked up also
-- where it is not used.
abbrev pub capacity : Org → Result ℕ
capacity org = elim (plan_max_members org.plan) [
  | err e ↦ err e
  | ok n ↦ elim org.max_members [ none ↦ ok n | some m ↦ ok m ]
]

abbrev pub result : {S A : Type 0} → Result A → Action S A
result r s = (r, s)

abbrev pub or_name : Option Chars → Chars → Chars
or_name none name = name
or_name (some []) name = name
or_name (some (c ∷ s)) name = c ∷ s

-- The slug with a random suffix where it is taken.
abbrev pub free_slug : Chars → Chars → Option Org → Chars
free_slug base suffix none = base
free_slug base suffix (some org) = base ++ b'-' ∷ suffix

abbrev pub new_member : ℕ → Text → OrgRole → Option Text → Option Text → Member
new_member now user_id role added_by invitation_id = record {
  user_id = user_id;
  role = role;
  added_by = added_by;
  invitation_id = invitation_id;
  added_at = now;
}

-- The write of an organization and of its owner.
abbrev pub with_owner : ℕ → Text → Org → Action OrgStore Org
with_owner now owner_id o = do
  org ← in_orgs (Database.Organizations.create_organization o)
  in_orgs (add_org_member org.id (new_member now owner_id owner none none))
  pure org

-- The rest of `create_organization`, for a plan with a member limit.
unfoldable pub found :
    ℕ → Text → Chars → Chars → Text → Option Text → Plan → Option Chars → ℕ → Action OrgStore Org
found now new_id suffix name owner_id description plan slug limit s =
    let base = slugify (or_name slug name) in
    elim (get_organization_by_slug base s.orgs) [
      | err e ↦ (err e, s)
      | ok taken ↦
          with_owner now owner_id
            (record {
              id = new_id;
              name = strip name;
              slug = free_slug base suffix taken;
              description = description;
              plan = plan;
              max_members = some limit;
              owner_id = owner_id;
              is_active = true;
              created_at = now;
              updated_at = now;
            })
            s
    ]

-- A string that is no key of `PLAN_MAX_MEMBERS`.
abbrev pub is_unknown : Plan → Bool
is_unknown unknown = true
is_unknown free = false
is_unknown pro = false
is_unknown enterprise = false

unfoldable pub create_organization :
    (Text → Text)
    → ℕ
    → Text
    → Chars
    → Chars
    → Text
    → Option Text
    → Plan
    → Option Chars
    → Action OrgStore Org
create_organization strip_text now new_id suffix name owner_id description plan slug = do
  raise_if (is_empty (strip name)) value_error
  raise_if (owner_id == 0 || strip_text owner_id == 0) value_error
  raise_if (is_unknown plan) value_error
  limit ← result (plan_max_members plan)
  found now new_id suffix name owner_id description plan slug limit

abbrev pub updated_org : Option Org → Action OrgStore Org
updated_org none = raise not_found
updated_org (some org) = pure org

-- `update_organization`
unfoldable pub update : ℕ → Text → OrgUpdates → Action OrgStore Org
update now org_id u = do found ← in_orgs (update_organization now org_id u); updated_org found

-- `delete_organization`
unfoldable pub delete_org : Text → Action OrgStore Bool
delete_org org_id = in_orgs (call (delete_organization org_id))

-- `needle in haystack`
abbrev pub occurs_in : Chars → Chars → Bool
occurs_in needle [] = is_empty needle
occurs_in needle (c ∷ s) = starts_with needle (c ∷ s) || occurs_in needle s

abbrev pub found_by : Option Chars → Org → Bool
found_by none org = true
found_by (some []) org = true
found_by (some (c ∷ s)) org =
    occurs_in (lower (c ∷ s)) (lower org.name) || occurs_in (lower (c ∷ s)) (lower org.slug)

-- The page and the number of all that match.
unfoldable pub get_organizations_paginated : ℕ → ℕ → Option Chars → OrgStore → Result (List Org × ℕ)
get_organizations_paginated page page_size search s =
    if ltb page 1 || ltb page_size 1
    then err value_error
    else let rows = keep (found_by search) (list_organizations 10000 0 s.orgs).0 in
      ok (take page_size (drop ((page - 1) * page_size) rows), length rows)

abbrev pub is_user : Text → Member → Bool
is_user user_id m = m.user_id == user_id

abbrev pub has_user : Text → Orgs → Org → Bool
has_user user_id s org = is_some (find_first (is_user user_id) (get_org_members org.id s))

unfoldable pub get_user_organizations : Text → OrgStore → List Org
get_user_organizations user_id s =
    keep (has_user user_id s.orgs) (list_organizations 10000 0 s.orgs).0

-- members

-- The member cap, with the error that the caller raises at it.
abbrev pub check_capacity : Text → Org → Error → Action OrgStore (Unit {0})
check_capacity org_id org full = do
  max_members ← result (capacity org)
  members ← gets (λ s. get_org_members org_id s.orgs)
  raise_if (leb max_members (length members)) full

-- A member of an organization that exists, where it has room.
unfoldable pub add_to : (Org → Text) → Member → Error → Option Org → Action OrgStore Member
add_to id_of m full none = raise not_found
add_to id_of m full (some org) = do
  check_capacity (id_of org) org full
  in_orgs (add_org_member (id_of org) m)

unfoldable pub add_member :
    (Text → Text) → ℕ → Text → Text → OrgRole → Option Text → Action OrgStore Member
unfolding add_to
add_member strip_text now org_id user_id role added_by s =
    let org = get_organization org_id s.orgs in
    (do
      raise_if (is_some org && (user_id == 0 || strip_text user_id == 0)) value_error
      add_to (λ _. org_id) (new_member now user_id role added_by none) value_error org)
      s

abbrev pub is_owner : Member → Bool
is_owner m = is_owner_role m.role

-- At most one owner is left.
abbrev pub last_owner : List Member → Bool
last_owner members = leb (length (keep is_owner members)) 1

-- The rest of `remove_member`, with the member that was found.
unfoldable pub remove_found : Text → Text → List Member → Option Member → Action OrgStore Bool
remove_found org_id user_id members none = pure false
remove_found org_id user_id members (some m) = do
  raise_if (is_owner m && last_owner members) permission_error
  in_orgs (call (remove_org_member org_id user_id))

unfoldable pub remove_member : Text → Text → Action OrgStore Bool
unfolding remove_found
remove_member org_id user_id s =
    let members = get_org_members org_id s.orgs in
    remove_found org_id user_id members (find_first (is_user user_id) members) s

abbrev pub updated_member : Option Member → Action OrgStore Member
updated_member none = raise not_found
updated_member (some m) = pure m

-- The rest of `update_member_role`.
unfoldable pub update_found :
    Text → Text → OrgRole → List Member → Option Member → Action OrgStore Member
update_found org_id user_id new_role members none = raise not_found
update_found org_id user_id new_role members (some m) = do
  raise_if (is_owner m && not (is_owner_role new_role) && last_owner members) permission_error
  updated ← in_orgs (call (update_org_member org_id user_id new_role))
  updated_member updated

unfoldable pub update_member_role : Text → Text → OrgRole → Action OrgStore Member
unfolding update_found
update_member_role org_id user_id new_role s =
    let members = get_org_members org_id s.orgs in
    update_found org_id user_id new_role members (find_first (is_user user_id) members) s

unfoldable pub get_member_role : Text → Text → OrgStore → Option OrgRole
get_member_role org_id user_id s =
    elim (find_first (is_user user_id) (get_org_members org_id s.orgs)) [
      | none ↦ none
      | some m ↦ some m.role
    ]
