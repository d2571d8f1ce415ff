-- ===== src/Tests/Organizations.antt =====
-- An organization with a cap of one member.
use auth_manager.Organizations.Slugs.{all_safe, slugify-safe}
use auth_manager.Base.Dict.{lookup, insert}
use auth_manager.Database.Memberships.{add_org_member, get_org_members}
use auth_manager.Base.Chars.{codes, lower, strip, is_empty}
use auth_manager.Database.Organizations.{
  Org, no_orgs, slugify, free, dashes, get_organization_by_slug, Member, owner, guest,
}
use auth_manager.Organizations.Calls.{Call, creates, run, Reach}
use auth_manager.Organizations.{OrgStore, found, is_owner, new_member, add_member}
use auth_manager.Organizations.Invitations.{OrgSettings, new_invitation}
use auth_manager.Base.{Text, Bool, true, [], none, some, find_first, ◌≡◌, refl, ◌∷◌, false}
use auth_manager.Organizations.Calls.{Reach-has_owner}
use auth_manager.Organizations
use auth_manager.Database

abbrev same : Text → Text
same t = t

abbrev has_at : Text → Bool
has_at t = true

abbrev limits : OrgSettings
limits = record {
  invitation_ttl_seconds = 100;
  max_invitations_per_window = 3;
  invitation_rate_window_seconds = 60;
}

abbrev none_yet : OrgStore
none_yet = record {
  orgs = no_orgs;
  users = record { by_id = []; by_email = []; by_username = []; by_phone = [] };
  cache = none;
}

abbrev founding : Call
founding = creates 5 7 [] (codes "Ab c") 3 none free none

abbrev founded_store : OrgStore
founded_store = run same same has_at 99 limits none founding none_yet

abbrev small : Org
small = record {
  id = 7;
  name = codes "Ab c";
  slug = codes "ab-c";
  description = none;
  plan = free;
  max_members = some 10;
  owner_id = 3;
  is_active = true;
  created_at = 5;
  updated_at = 5;
}

Reach-has_owner_example :
    (m : Member) × (find_first is_owner (get_org_members 7 founded_store.orgs) ≡ some m)
    × (m.role ≡ owner)
unfolding Organizations.create_organization found Database.Organizations.create_organization
    add_org_member slugify dashes lower strip lookup insert get_organization_by_slug
Reach-has_owner_example =
    Reach-has_owner same same has_at 99 limits none founded_store
      (Reach.then founding none_yet (Reach.start none_yet.users none) refl) 7 small refl

-- The organization with room for its owner alone.
abbrev full_store : OrgStore
full_store = record none_yet {
  orgs = record {
    by_id = (7, record small { max_members = some 1 }) ∷ [];
    by_slug = (codes "ab-c", 7) ∷ [];
    members = (7, (3, new_member 5 3 owner none none) ∷ []) ∷ [];
    invitations = (2, new_invitation limits 6 2 11 7 12 guest 3 none none) ∷ [];
  };
}

abbrev full : Org
full = record small { max_members = some 1 }

slugify-safe_example :
    (is_empty (slugify (codes "A  b!")) ≡ false)
    × (all_safe (slugify (codes "A  b!")) ≡ true)
    × (lower (slugify (codes "A  b!")) ≡ slugify (codes "A  b!"))
slugify-safe_example = slugify-safe (codes "A  b!")
