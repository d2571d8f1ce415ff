-- ===== src/Organizations/Founding.antt =====
-- tessera/organizations/org_manager.py: a new organization has its owner.
use Organizations.{unknown, free, pro}
use auth_manager.Organizations
use auth_manager.Organizations.History.{stored-IsOwned}
use auth_manager.Base.Chars.{is_empty, lower, chars_eq, Chars, strip}
use auth_manager.Database.Memberships.{add_org_member}
use auth_manager.Base.Errors.{
  ◌>>=◌, ◌>>◌, pure, bind-pure, Action, Error, after-bind, err, ok, value_error, integrity_error,
  after_raise_if, Result, raise_if,
}
use auth_manager.Base.{
  ◌≡◌, false, ◌≢◌, Bool-cases, inl, inr, nat_eq, arith, ◌⊎◌, refl, Text, ℕ, Option, none, ◌==◌,
  ◌||◌,
}
use auth_manager.Base.Dict.{has_key}
use auth_manager.Database.Organizations.{
  Org, Member, Orgs, store_org, Plan, get_organization_by_slug, slugify,
}
use auth_manager.Organizations.Owned.{Owned}
use auth_manager.Organizations.{
  OrgStore, owner, Org, in_orgs, ◌>>=◌, add_org_member, is_empty, result, plan_max_members, or_name,
  new_member, found, with_owner, is_unknown,
}
use auth_manager.Database

abbrev saved_org : Org → Org
saved_org o = record o { slug = lower o.slug }

-- The two ends of the write.
created-cases :
    (o : Org) (s : Orgs)
    → ((e : Error) × (Database.Organizations.create_organization o s ≡ (err e, s)))
      ⊎ (Database.Organizations.create_organization o s
          ≡ (ok (saved_org o), store_org (saved_org o) s))
unfolding Database.Organizations.create_organization
created-cases o s = elim (Bool-cases (is_empty o.name)) [
  | inl nameless ↦ inl (value_error, rw nameless refl)
  | inr titled ↦ elim (Bool-cases (has_key (lower o.slug) s.by_slug)) [
    | inl taken ↦ inl (integrity_error, rw (titled, taken) refl)
    | inr new ↦ inr (rw (titled, new) refl)
  ]
]

module _ (s : OrgStore) (owned : Owned s) where
  -- The write of the organization, then of its owner.
  stored :
      (o : Org) (now : ℕ) (owner_id : Text)
      → has_key o.id s.orgs.by_id ≡ false
      → owner_id ≢ 0
      → Owned (with_owner now owner_id o s).1
  stored o now owner_id fresh named = elim (created-cases o s.orgs) [
    | inl (e, refused) ↦
        after-bind Owned create add s (λ _ _. rw refused owned)
          (λ a eq. absurd (ground (arith, refused)))
    | inr done ↦
        after-bind Owned create add s (λ x eq. absurd (ground (arith, done)))
          (λ a eq.
            let same : a ≡ saved_org o = ground (arith, done) in
            rw (bind-pure (in_orgs (add_org_member a.id m)) a, done, same)
              (stored-IsOwned (saved_org o) m s.orgs fresh named refl owned))
  ]
    where
      m : Member
      m = new_member now owner_id owner none none

      create : Action OrgStore Org
      create = in_orgs (Database.Organizations.create_organization o)

      add : Org → Action OrgStore Org
      add org = in_orgs (add_org_member org.id m) >> pure org

  found-Owned :
      (now : ℕ) (new_id : Text) (suffix name : Chars) (owner_id : Text) (description : Option Text)
      (plan : Plan) (slug : Option Chars) (limit : ℕ)
      → has_key new_id s.orgs.by_id ≡ false
      → owner_id ≢ 0
      → Owned (found now new_id suffix name owner_id description plan slug limit s).1
  unfolding found
  found-Owned now new_id suffix name owner_id description plan slug limit fresh named =
      by_answer (get_organization_by_slug (slugify (or_name slug name)) s.orgs) refl
    where
      by_answer :
          (r : Result (Option Org))
          → get_organization_by_slug (slugify (or_name slug name)) s.orgs ≡ r
          → Owned (found now new_id suffix name owner_id description plan slug limit s).1
      by_answer (err e) answer = rw (answer, found) owned
      by_answer (ok o) answer = rw (answer, found) (stored _ now owner_id fresh named)

  pub create_organization-Owned :
      (strip_text : Text → Text) (now : ℕ) (new_id : Text) (suffix name : Chars) (owner_id : Text)
      (description : Option Text) (plan : Plan) (slug : Option Chars)
      → has_key new_id s.orgs.by_id ≡ false
      → Owned
          (Organizations.create_organization strip_text now new_id suffix name owner_id description
            plan slug s).1
  unfolding Organizations.create_organization
  create_organization-Owned strip_text now new_id suffix name owner_id description plan slug fresh =
      let end = found now new_id suffix name owner_id description plan slug in
      let nameless = is_empty (strip name) in
      let no_owner = owner_id == 0 || strip_text owner_id == 0 in
      let third = result (plan_max_members plan) >>= end in
      let second = raise_if (is_unknown plan) value_error >> third in
      after_raise_if Owned nameless value_error (raise_if no_owner value_error >> second) s owned
        (λ _. after_raise_if Owned no_owner value_error second s owned (λ named.
          after_raise_if Owned (is_unknown plan) value_error third s owned (λ _.
            after-bind Owned (result (plan_max_members plan)) end s (λ _ _. owned)
              (λ limit _.
                found-Owned now new_id suffix name owner_id description plan slug limit fresh
                  (ground (arith, named))))))
