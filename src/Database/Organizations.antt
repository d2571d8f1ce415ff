-- ===== src/Database/Organizations.antt =====
-- tessera/db/memory.py: organizations, their members and their invitations.
use auth_manager.Base.Errors.{Action, Result, ok, err, value_error, key_error, integrity_error}
use auth_manager.Base.Chars.{Chars, lower, codes, is_empty, chars_eq}
use auth_manager.Base.Dict.{Dict, lookup, has_key, insert, erase}
use auth_manager.Base.{
  Bool, Text, ℕ, Option, true, leb, reverse, some, false, ◌∷◌, ◌&&◌, if◌then◌else◌, not, nat_eq,
  none, [], ◌||◌, ◌==◌,
}

pub data OrgRole : Type 0 where
  owner admin member guest : OrgRole

abbrev pub is_owner_role : OrgRole → Bool
is_owner_role owner = true
is_owner_role admin = false
is_owner_role member = false
is_owner_role guest = false

-- organizations/org_manager.py: the keys of `PLAN_MAX_MEMBERS`, and any other string.
pub data Plan : Type 0 where
  free pro enterprise unknown : Plan

pub record Org : Type 0 where
  pub id : Text
  pub name : Chars
  pub slug : Chars
  pub description : Option Text
  pub plan : Plan
  pub max_members : Option ℕ
  pub owner_id : Text
  pub is_active : Bool
  pub created_at : ℕ
  pub updated_at : ℕ

-- The keys that `updates` may hold; `immutable` says that "id" is among them.
pub record OrgUpdates : Type 0 where
  pub immutable : Bool
  pub slug : Option Chars
  pub name : Option Chars
  pub description : Option (Option Text)
  pub plan : Option Plan
  pub max_members : Option ℕ
  pub is_active : Option Bool

pub record Member : Type 0 where
  pub user_id : Text
  pub role : OrgRole
  pub added_by : Option Text
  pub invitation_id : Option Text
  pub added_at : ℕ

-- An invitation is deleted when it is used, so its stored status stays the first one.
pub record Invitation : Type 0 where
  pub id : Text
  pub org_id : Text
  pub email : Text
  pub role : OrgRole
  pub is_pending : Bool
  pub invited_by : Text
  pub message : Option Text
  pub token : Text
  pub created_at : ℕ
  pub expires_at : Option ℕ

pub record Orgs : Type 0 where
  pub by_id : Dict Text Org
  pub by_slug : Dict Chars Text
  pub members : Dict Text (Dict Text Member)
  pub invitations : Dict Text Invitation

abbrev pub no_orgs : Orgs
no_orgs = record { by_id = []; by_slug = []; members = []; invitations = [] }

-- `[^a-z0-9]+` becomes one dash.
abbrev pub is_slug_char : ℕ → Bool
is_slug_char c = (leb b'a' c && leb c b'z') || (leb b'0' c && leb c b'9')

-- `re.sub(r"[^a-z0-9]+", "-", s)`; the flag says that the characters before were replaced.
unfoldable pub dashes : Bool → Chars → Chars
dashes replaced [] = []
dashes replaced (c ∷ s) =
    if is_slug_char c
    then c ∷ dashes false s
    else if replaced
    then dashes true s
    else b'-' ∷ dashes true s

abbrev pub lstrip_dash : Chars → Chars
lstrip_dash [] = []
lstrip_dash (c ∷ s) = if c == b'-' then lstrip_dash s else c ∷ s

-- `_slugify`, in tessera/organizations/org_manager.py as well.
unfoldable pub slugify : Chars → Chars
unfolding dashes lower
slugify name = elim (reverse (lstrip_dash (reverse (lstrip_dash (dashes false (lower name)))))) [
  | [] ↦ codes "org"
  | c ∷ s ↦ c ∷ s
]

-- A new organization, with its slug and no member.
abbrev pub store_org : Org → Orgs → Orgs
store_org org s = record s {
  by_id = insert org.id org s.by_id;
  by_slug = insert org.slug org.id s.by_slug;
  members = if has_key org.id s.members then s.members else insert org.id [] s.members;
}

-- `create_organization`, with the record that carries its fresh id and times.
unfoldable pub create_organization : Org → Action Orgs Org
unfolding lower
create_organization org s =
    let slug = lower org.slug in
    if is_empty org.name
    then (err value_error, s)
    else if has_key slug s.by_slug
    then (err integrity_error, s)
    else let saved : Org = record org { slug = slug } in (ok saved, store_org saved s)

abbrev pub get_organization : Text → Orgs → Option Org
get_organization org_id s = lookup org_id s.by_id

-- `self._orgs[org_id]` raises `KeyError` where the index is stale.
unfoldable pub get_organization_by_slug : Chars → Orgs → Result (Option Org)
unfolding lower
get_organization_by_slug slug s = elim (lookup (lower slug) s.by_slug) [
  | none ↦ ok none
  | some org_id ↦ elim (lookup org_id s.by_id) [ none ↦ err key_error | some org ↦ ok (some org) ]
]

abbrev or_old {ℓ} : {A : Type ℓ} → Option A → A → A
or_old none old = old
or_old (some new) old = new

abbrev or_old? {ℓ} : {A : Type ℓ} → Option A → Option A → Option A
or_old? none old = old
or_old? (some new) old = some new

-- `record.update(...)` for all keys but the slug.
abbrev pub apply_org_updates : ℕ → OrgUpdates → Org → Org
apply_org_updates now u org = record org {
  name = or_old u.name org.name;
  description = or_old u.description org.description;
  plan = or_old u.plan org.plan;
  max_members = or_old? u.max_members org.max_members;
  is_active = or_old u.is_active org.is_active;
  updated_at = now;
}

-- A slug that another organization holds.
abbrev pub slug_taken : Text → Option Text → Bool
slug_taken org_id none = false
slug_taken org_id (some holder) = not (holder == 0) && not (holder == org_id)

unfoldable pub update_organization : ℕ → Text → OrgUpdates → Action Orgs (Option Org)
unfolding lower
update_organization now org_id u s = elim (lookup org_id s.by_id) [
  | none ↦ (ok none, s)
  | some org ↦ if u.immutable then (err value_error, s) else elim u.slug [
    | none ↦
        let saved = apply_org_updates now u org in
        (ok (some saved), record s { by_id = insert org_id saved s.by_id })
    | some new ↦
        let slug = lower new in
        if slug_taken org_id (lookup slug s.by_slug)
        then (err integrity_error, s)
        else if not (has_key org.slug s.by_slug)
        then (err key_error, s)
        else let saved = apply_org_updates now u (record org { slug = slug }) in
          (
            ok (some saved),
            record s {
              by_id = insert org_id saved s.by_id;
              by_slug = insert slug org_id (erase org.slug s.by_slug);
            },
          )
  ]
]
