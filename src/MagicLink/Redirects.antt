-- ===== src/MagicLink/Redirects.antt =====
-- tessera/passwordless/magic_link.py: where a link may lead.
use auth_manager.MagicLink.{
  Url, LinkSettings, host_of, allowed_hosts, no_host, validate_redirect_url, candidate,
}
use auth_manager.Base.Errors.{Result, ok, err}
use auth_manager.Base.{
  Text, ◌≢◌, ◌⊎◌, List, ◌≡◌, contains, true, nat_eq, ◌==◌, ◌++◌, false, inr, some, ◌∷◌, arith,
  Bool-cases, ◌<◌, inl, [], refl,
}

module _ (split : Text → Result Url) (lower : Text → Text) (cfg : LinkSettings) where
  -- The URL is there and has this host, in lower case.
  abbrev HasHost : Text → Text → Type 0
  HasHost url host =
      (u : Url) × (url ≢ 0) × (split url ≡ ok u) × (host ≢ 0) × (lower u.netloc ≡ host)

  -- The host of the configured redirect or of the site itself.
  abbrev pub IsConfigured : Text → Type 0
  IsConfigured host = HasHost cfg.default_redirect_url host ⊎ HasHost cfg.base_url host

  -- A URL gives at most one host, its own.
  host_of-HasHost :
      (url host : Text) (hosts : List Text)
      → host_of split lower cfg url ≡ ok hosts
      → contains host hosts ≡ true
      → HasHost url host
  host_of-HasHost url host hosts e among = elim (Bool-cases (url == 0)) [
    | inl empty ↦ absurd (ground (arith, e, empty, among))
    | inr named ↦ of_split (split url) refl named
  ]
    where
      of_split : (r : Result Url) → split url ≡ r → (url == 0) ≡ false → HasHost url host
      of_split (err x) is named = absurd (ground (arith, e, is, named))
      of_split (ok u) is named =
          let some_host : lower u.netloc ≢ 0 = λ none. ground (arith, e, is, named, none, among) in
          let same : lower u.netloc ≡ host = ground (arith, e, is, named, some_host, among) in
          (u, ground (arith, named), is, ground (arith, some_host, same), same)

  -- A URL that has a host gives one.
  host_of-gives :
      (url host : Text) (hosts : List Text)
      → host_of split lower cfg url ≡ ok hosts
      → HasHost url host
      → no_host split lower cfg hosts ≡ false
  host_of-gives url host hosts e (u, named, is, some_host, same) =
      ground (arith, e, named, is, some_host, same)

  no_host-append :
      (xs ys : List Text)
      → no_host split lower cfg (xs ++ ys) ≡ true
      → (no_host split lower cfg xs ≡ true) × (no_host split lower cfg ys ≡ true)
  no_host-append [] ys e = (refl, e)
  no_host-append (x ∷ xs) ys e = absurd (ground (arith, e))

  contains-append :
      (host : Text) (xs ys : List Text)
      → contains host (xs ++ ys) ≡ true
      → (contains host xs ≡ true) ⊎ (contains host ys ≡ true)
  contains-append host [] ys e = inr e
  contains-append host (x ∷ xs) ys e = elim (Bool-cases (host == x)) [
    | inl here ↦ inl (ground (arith, here))
    | inr other ↦ elim (contains-append host xs ys (ground (arith, e, other))) [
      | inl left ↦ inl (ground (arith, other, left))
      | inr right ↦ inr right
    ]
  ]

  -- The allow-list is the hosts of the two configured URLs.
  allowed_hosts-parts :
      (hosts : List Text)
      → allowed_hosts split lower cfg ≡ ok hosts
      → (xs ys : List Text) × (host_of split lower cfg cfg.default_redirect_url ≡ ok xs)
        × (host_of split lower cfg cfg.base_url ≡ ok ys)
        × (hosts ≡ xs ++ ys)
  unfolding allowed_hosts
  allowed_hosts-parts hosts e =
      go (host_of split lower cfg cfg.default_redirect_url) (host_of split lower cfg cfg.base_url)
        refl refl
    where
      go :
          (r q : Result (List Text))
          → host_of split lower cfg cfg.default_redirect_url ≡ r
          → host_of split lower cfg cfg.base_url ≡ q
          → (xs ys : List Text) × (host_of split lower cfg cfg.default_redirect_url ≡ ok xs)
            × (host_of split lower cfg cfg.base_url ≡ ok ys)
            × (hosts ≡ xs ++ ys)
      go (err x) q is_r is_q = absurd (ground (arith, e, is_r))
      go (ok xs) (err x) is_r is_q = absurd (ground (arith, e, is_r, is_q))
      go (ok xs) (ok ys) is_r is_q = (xs, ys, is_r, is_q, ground (arith, e, is_r, is_q))

  -- A host of the allow-list is configured, and an empty list says that none is.
  allowed_hosts-IsConfigured :
      (host : Text) (hosts : List Text)
      → allowed_hosts split lower cfg ≡ ok hosts
      → (no_host split lower cfg hosts ≡ false → contains host hosts ≡ true)
      → IsConfigured host ⊎ ((h : Text) → ¬ IsConfigured h)
  allowed_hosts-IsConfigured host hosts e passes =
      let (xs, ys, is_a, is_b, parts) = allowed_hosts-parts hosts e in
      elim (Bool-cases (no_host split lower cfg hosts)) [
        | inl empty ↦
            let (no_a, no_b) = no_host-append xs ys (ground (arith, empty, parts)) in
            inr (λ h configured. elim configured [
              | inl default ↦
                  absurd
                    (ground (arith, no_a, host_of-gives cfg.default_redirect_url h xs is_a default))
              | inr base ↦ absurd (ground (arith, no_b, host_of-gives cfg.base_url h ys is_b base))
            ])
        | inr some_host ↦
            elim (contains-append host xs ys (ground (arith, passes some_host, parts))) [
              | inl among ↦ inl (inl (host_of-HasHost cfg.default_redirect_url host xs is_a among))
              | inr among ↦ inl (inr (host_of-HasHost cfg.base_url host ys is_b among))
            ]
      ]

  -- What the code tests, before the allow-list is read.
  checked :
      (redirect_url url : Text)
      → validate_redirect_url split lower cfg redirect_url ≡ ok (some url)
      → (u : Url) × (hosts : List Text) × (split url ≡ ok u)
        × (u.is_http ≡ true)
        × (0 < u.netloc)
        × (allowed_hosts split lower cfg ≡ ok hosts)
        × (no_host split lower cfg hosts ≡ false → contains (lower u.netloc) hosts ≡ true)
  unfolding validate_redirect_url
  checked redirect_url url accepted =
      by_split (split (candidate split lower cfg redirect_url)) (allowed_hosts split lower cfg) refl
        refl
    where
      by_split :
          (r : Result Url) (a : Result (List Text))
          → split (candidate split lower cfg redirect_url) ≡ r
          → allowed_hosts split lower cfg ≡ a
          → (u : Url) × (hosts : List Text) × (split url ≡ ok u)
            × (u.is_http ≡ true)
            × (0 < u.netloc)
            × (allowed_hosts split lower cfg ≡ ok hosts)
            × (no_host split lower cfg hosts ≡ false → contains (lower u.netloc) hosts ≡ true)
      by_split (err e) a is hosts_are = absurd (ground (arith, is, accepted))
      by_split (ok u) (err e) is hosts_are = absurd (ground (arith, is, hosts_are, accepted))
      by_split (ok u) (ok hosts) is hosts_are =
          let same : candidate split lower cfg redirect_url ≡ url =
            ground (arith, is, hosts_are, accepted) in
          (
            u,
            hosts,
            rw (← same) is,
            ground (arith, is, hosts_are, accepted),
            ground (arith, is, hosts_are, accepted),
            hosts_are,
            λ some_host. ground (arith, is, hosts_are, accepted, some_host),
          )

  -- A redirect that is accepted is an http or https URL with a host, and this host, in lower case,
  -- is the one of `default_redirect_url` or the one of `base_url`, unless neither of these has a
  -- host.
  pub validate_redirect_url-allowed :
      (redirect_url url : Text)
      → validate_redirect_url split lower cfg redirect_url ≡ ok (some url)
      → (u : Url) × (split url ≡ ok u)
        × (u.is_http ≡ true)
        × (0 < u.netloc)
        × (IsConfigured (lower u.netloc) ⊎ ((h : Text) → ¬ IsConfigured h))
  validate_redirect_url-allowed redirect_url url accepted =
      let (u, hosts, is, http, host, hosts_are, passes) = checked redirect_url url accepted in
      (u, is, http, host, allowed_hosts-IsConfigured (lower u.netloc) hosts hosts_are passes)
