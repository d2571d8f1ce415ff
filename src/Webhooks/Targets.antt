-- ===== src/Webhooks/Targets.antt =====
-- tessera/webhooks/webhook_manager.py: where requests go.
use auth_manager.Cache.Keys.{webhook_queue_key}
use auth_manager.Cache.{lpush}
use auth_manager.Base.Errors.{after-bind, bind-pure}
use auth_manager.Base.{
  Option, List, Text, some, Bool, ◌≡◌, ◌∷◌, false, ℕ, true, [], ◌<◌, arith, ◌≢◌, ◌⊎◌, none, ◌++◌,
  refl, inl, inr, Bool-cases, ◌+◌, ◌*◌, second, ap, ◌∙◌,
}
use auth_manager.Webhooks.Delivery.{
  in_cache, push_retry, schedule_retry, attempt_delivery, send_request, push_job, nth,
  retry_delays_seconds, in_db, delivery_record, is_success, deliver_to,
}
use auth_manager.Webhooks.{other_scheme}
use auth_manager.Webhooks.Delivery.{Hub, Job, World, Post, deliver_job}
use auth_manager.Webhooks.{
  ParsedUrl, Address, Resolver, all_allowed, Option, List, Text, validate_endpoint_url, https,
  check_parsed, resolves_safely, http, port_or_default, Scheme, scheme_allowed,
}
use auth_manager.Database.Webhooks.{Endpoint, get_webhook_endpoint, save_webhook_delivery}

-- An address that no network of its own and no cloud uses, and none in 100.64.0.0/10.
abbrev pub IsPublic : Option Address → Type 0
IsPublic none = ⊥
IsPublic (some a) =
    (a.is_private ≡ false)
    × (a.is_loopback ≡ false)
    × (a.is_link_local ≡ false)
    × (a.is_reserved ≡ false)
    × (a.is_unspecified ≡ false)
    × (a.is_multicast ≡ false)
    × (a.version ≡ 4 → (a.value < 1681915904) ⊎ (1686110207 < a.value))

abbrev pub AllPublic : List (Option Address) → Type 0
AllPublic [] = Unit {0}
AllPublic (a ∷ addrs) = IsPublic a × AllPublic addrs

-- What a safe URL is, at what the name service says.
abbrev pub IsSafe : (Text → Option ParsedUrl) → Bool → Resolver → Text → Type 0
IsSafe urlparse production resolver url =
    (u : ParsedUrl) × (port : Option ℕ) × (addrs : List (Option Address)) × (urlparse url ≡ some u)
    × ((u.scheme ≡ https) ⊎ ((u.scheme ≡ http) × (production ≡ false)))
    × (u.hostname ≢ 0)
    × (u.port ≡ some port)
    × (resolver u.hostname (port_or_default u.scheme port) ≡ some addrs)
    × (addrs ≢ [])
    × AllPublic addrs

all_allowed-AllPublic : (addrs : List (Option Address)) → all_allowed addrs ≡ true → AllPublic addrs
unfolding all_allowed
all_allowed-AllPublic [] e = tt
all_allowed-AllPublic (none ∷ addrs) e = absurd (ground (arith, e))
all_allowed-AllPublic (some a ∷ addrs) e = ground (arith, e, all_allowed-AllPublic addrs)

module _ (urlparse : Text → Option ParsedUrl) (production : Bool) where
  resolved :
      (o : Option (List (Option Address)))
      → resolves_safely o ≡ true
      → (addrs : List (Option Address)) × (o ≡ some addrs) × (addrs ≢ []) × AllPublic addrs
  unfolding resolves_safely
  resolved none e = absurd (ground arith)
  resolved (some []) e = absurd (ground arith)
  resolved (some (a ∷ addrs)) e =
      (a ∷ addrs, refl, λ same. absurd (ground arith), all_allowed-AllPublic (a ∷ addrs) e)

  allowed_scheme :
      (s : Scheme)
      → scheme_allowed production s ≡ true
      → (s ≡ https) ⊎ ((s ≡ http) × (production ≡ false))
  allowed_scheme https e = inl refl
  allowed_scheme http e = inr (refl, ground (arith, e))
  allowed_scheme other_scheme e = absurd (ground (arith, e))

  checked :
      (resolver : Resolver) (url : Text) (u : ParsedUrl)
      → urlparse url ≡ some u
      → check_parsed urlparse production resolver u ≡ true
      → IsSafe urlparse production resolver url
  unfolding check_parsed
  checked resolver url u parsed accepted = by_port u.port refl
    where
      by_port : (o : Option (Option ℕ)) → u.port ≡ o → IsSafe urlparse production resolver url
      by_port none e = absurd (ground (arith, e, accepted))
      by_port (some port) e =
          let (addrs, found, some_address, public) =
            resolved (resolver u.hostname (port_or_default u.scheme port))
              (ground (arith, e, accepted)) in
          (
            u,
            port,
            addrs,
            parsed,
            allowed_scheme u.scheme (ground (arith, accepted)),
            ground (arith, accepted),
            e,
            found,
            some_address,
            public,
          )

  -- A URL that is accepted is safe: https, or http outside production, with a host all of whose
  -- addresses are public, and it has at least one.
  pub validate_endpoint_url-IsSafe :
      (resolver : Resolver) (url : Text)
      → validate_endpoint_url urlparse production resolver url ≡ true
      → IsSafe urlparse production resolver url
  unfolding validate_endpoint_url check_parsed resolves_safely
  validate_endpoint_url-IsSafe resolver url accepted = by_parse (urlparse url) refl
    where
      by_parse : (o : Option ParsedUrl) → urlparse url ≡ o → IsSafe urlparse production resolver url
      by_parse none e = absurd (ground (arith, e, accepted))
      by_parse (some u) e = checked resolver url u e (ground (arith, e, accepted))

  module _ (dumps : Job → Text) (loads : Text → Option Job) where
    push_retry-posts :
        (w : World) (job : Job) (delay : Option ℕ) (h : Hub)
        → (push_retry dumps loads urlparse production w job delay h).1.posts ≡ h.posts
    unfolding push_retry push_job
    push_retry-posts w job none h = refl
    push_retry-posts w job (some delay) h =
        let retry = record job {
          attempts = job.attempts + 1;
          scheduled_for = w.now + delay * second;
        } in
        ap (λ (t : Hub). t.posts)
          (bind-pure (in_cache (lpush w.now webhook_queue_key (dumps retry ∷ []))) tt h)

    schedule_retry-posts :
        (w : World) (job : Job) (success : Bool) (h : Hub)
        → (schedule_retry dumps loads urlparse production w job success h).1.posts ≡ h.posts
    unfolding schedule_retry
    schedule_retry-posts w job true h = refl
    schedule_retry-posts w job false h =
        push_retry-posts w job (nth job.attempts retry_delays_seconds) h

    attempt_delivery-posts :
        (w : World) (job : Job) (e : Endpoint) (h : Hub)
        → (attempt_delivery dumps loads urlparse production w job e h).1.posts
          ≡ (send_request dumps loads urlparse production w job e h).1.posts
    unfolding attempt_delivery
    attempt_delivery-posts w job e h =
        let (status, sent) = send_request dumps loads urlparse production w job e h in
        after-bind (λ (t : Hub). t.posts ≡ sent.posts)
          (in_db (
            save_webhook_delivery (delivery_record dumps loads urlparse production w job e status)))
          (λ _. schedule_retry dumps loads urlparse production w job (is_success status)) sent
          (λ _ _. refl) (λ _ _. schedule_retry-posts w job (is_success status) _)

    send_request-IsSafe :
        (w : World) (job : Job) (e : Endpoint) (h : Hub)
        → let sent = (send_request dumps loads urlparse production w job e h).1.posts in
          (sent ≡ h.posts)
          ⊎ ((p : Post) × (sent ≡ h.posts ++ p ∷ [])
              × (p.url ≡ e.url)
              × IsSafe urlparse production w.resolver e.url)
    unfolding send_request
    send_request-IsSafe w job e h =
        elim (Bool-cases (validate_endpoint_url urlparse production w.resolver e.url)) [
          | inl safe ↦
              rw safe (inr (_, refl, refl, validate_endpoint_url-IsSafe w.resolver e.url safe))
          | inr unsafe ↦ rw unsafe (inl refl)
        ]

    -- The one request that went out, to the enabled endpoint that was found, at a safe URL.
    abbrev pub SentTo : World → Option Endpoint → List Post → List Post → Type 0
    SentTo w found before after =
        (e : Endpoint) × (p : Post) × (found ≡ some e)
        × (e.enabled ≡ true)
        × (after ≡ before ++ p ∷ [])
        × (p.url ≡ e.url)
        × IsSafe urlparse production w.resolver e.url

    deliver_to-safe :
        (w : World) (job : Job) (found : Option Endpoint) (h : Hub)
        → let after = (deliver_to dumps loads urlparse production w job found h).1.posts in
          (after ≡ h.posts) ⊎ SentTo w found h.posts after
    unfolding deliver_to
    deliver_to-safe w job none h = inl refl
    deliver_to-safe w job (some e) h = elim (Bool-cases e.enabled) [
      | inl on ↦
          let posts : (deliver_to dumps loads urlparse production w job (some e) h).1.posts
              ≡ (send_request dumps loads urlparse production w job e h).1.posts =
            simp on (attempt_delivery-posts w job e h) in
          elim (send_request-IsSafe w job e h) [
            | inl none_sent ↦ inl (posts ∙ none_sent)
            | inr (p, sent, target, safe) ↦ inr (e, p, refl, on, posts ∙ sent, target, safe)
          ]
      | inr off ↦ inl (simp off refl)
    ]

    -- If an attempt sends a request at all: it is the only one, it goes to the URL of the job's
    -- endpoint, which is enabled, and by what the name service says then the URL is https, or http
    -- outside production, and has a host with addresses, all of them public.
    pub deliver_job-safe :
        (w : World) (job : Job) (h : Hub)
        → (deliver_job dumps loads urlparse production w job h).1.posts ≢ h.posts
        → SentTo w
            (get_webhook_endpoint job.endpoint_id h.db)
            h.posts
            (deliver_job dumps loads urlparse production w job h).1.posts
    unfolding deliver_job
    deliver_job-safe w job h sent =
        elim (deliver_to-safe w job (get_webhook_endpoint job.endpoint_id h.db) h) [
          | inl same ↦ absurd (sent same)
          | inr to ↦ to
        ]
