-- ===== src/MagicLink/Sent.antt =====
-- tessera/passwordless/magic_link.py: what a sent link gives.
use auth_manager.MagicLink.SingleUse.{reads}
use auth_manager.Database.Users.{User, get_user_by_identifier}
use auth_manager.MagicLink.{
  in_cache, issue, deliver, start_window, check_send_rate_limit, send_window_seconds, record_send,
  Url, is_minus_one, LinkSettings, LinkDesk, magic_doc, audit, link_sent, or_no_url,
  send_magic_link, redeem, validate_redirect_url, account, User, verify_magic_link,
}
use auth_manager.Records.{MagicRecord, magic}
use auth_manager.Base.Dict.{Dict}
use auth_manager.Base.{
  ◌∙◌, inr, nat_eq, Option, Bool, ◌<◌, ltb, ◌+◌, ◌*◌, some, second, none, ap, refl, true,
}
use auth_manager.Cache.Laws.Operations.{entry-expire_ne, entry-incr_ne, entry-ttl, entry-set}
use auth_manager.Base.Errors.{Action, ◌>>=◌, call, pure, after-bind, Result, ◌>>◌, ok, after-ok}
use auth_manager.Cache.Laws.{entry, Entry}
use auth_manager.Cache.{Cache, ttl, incr, set, json}
use auth_manager.Cache.Keys.{Key, key_eq, magic_rate_key, magic_link_key, key_eq_iff}
use auth_manager.Base.{ℕ, Text, ◌≤◌, ◌≡◌, false, arith, if◌then◌else◌, ◌==◌, Bool-cases, inl, ◌∙◌}

module _ (now t : ℕ) (email : Text) (j : Key) (later : now ≤ t)
    (other : key_eq j (magic_rate_key email) ≡ false) where
  start_window-kept : (c : Cache) → entry t j (start_window now email c).1 ≡ entry t j c
  start_window-kept c =
      ground
        (arith, entry-expire_ne now t j (magic_rate_key email) c later send_window_seconds other)

  record_send-kept : (c : Cache) → entry t j (record_send now email c).1 ≡ entry t j c
  unfolding record_send
  record_send-kept c =
      let counted = entry-incr_ne now t j (magic_rate_key email) c later other in
      after-bind (λ c'. entry t j c' ≡ entry t j c) (incr now (magic_rate_key email)) rest c
        (λ _ _. counted)
        (λ n _.
          let c' = (incr now (magic_rate_key email) c).1 in
          elim (Bool-cases (n == 1)) [
            | inl first ↦ rw first (start_window-kept c' ∙ counted)
            | inr more ↦ rw more (
                ground (
                  arith,
                  counted,
                  entry-ttl now t j (magic_rate_key email) c' later,
                  start_window-kept (ttl now (magic_rate_key email) c').1,
                ))
          ])
    where
      rest : ℕ → Action Cache (Unit {0})
      rest attempts = if attempts == 1 then start_window now email else (do
        remaining ← call (ttl now (magic_rate_key email))
        if is_minus_one remaining then start_window now email else pure tt)

module _ (split : Text → Result Url) (lower strip : Text → Text) (user_role : Text)
    (cfg : LinkSettings) (email_service : Option (Text → Text → Result Bool)) (now t : ℕ)
    (token : Text) (metadata : Dict Text Text) (later : now ≤ t)
    (alive : 0 < cfg.magic_link_ttl_seconds) where
  abbrev pub record_of : Text → Option Text → MagicRecord
  record_of email redirect_url = record {
    email = email;
    redirect_url = redirect_url;
    metadata = metadata;
    created_at = now;
  }

  -- The cache holds the link while it lives, and the users are the same.
  Holds : MagicRecord → LinkDesk → LinkDesk → Type 0
  Holds r s s' =
      (magic_doc (entry t (magic_link_key token) s'.cache).value
        ≡ (if ltb t (now + cfg.magic_link_ttl_seconds * second) then some r else none))
      × (s'.users ≡ s.users)

  after_set :
      (r : MagicRecord) (s s0 : LinkDesk)
      → s.users ≡ s0.users
      → Holds r s0
          (in_cache
            (set now (magic_link_key token) (json (magic r)) (some cfg.magic_link_ttl_seconds))
            s).1
  unfolding Holds
  after_set r s s0 same =
      let K = magic_link_key token in
      (
        ground (
          arith,
          entry-set now t K K s.cache later (json (magic r)) cfg.magic_link_ttl_seconds alive,
          key_eq_iff K K,
        ),
        same,
      )

  -- The rest of `issue`, once the link is stored.
  ending : Text → Option Text → Action LinkDesk Bool
  ending email redirect_url =
      in_cache (record_send now email)
      >> (deliver split lower strip user_role cfg email_service email token >>= λ sent.
          audit (link_sent email (or_no_url redirect_url)) >> pure sent)

  ending-Holds :
      (email : Text) (redirect_url : Option Text) (r : MagicRecord) (s0 s : LinkDesk)
      → Holds r s0 s
      → Holds r s0 (ending email redirect_url s).1
  unfolding Holds ending
  ending-Holds email redirect_url r s0 s h =
      after-bind (Holds r s0) (in_cache (record_send now email)) (λ _. tail) s (λ _ _. counted)
        (λ _ _.
          after-bind (Holds r s0) send close s1 (λ _ _. delivered email_service)
            (λ b _. delivered email_service))
    where
      send : Action LinkDesk Bool
      send = deliver split lower strip user_role cfg email_service email token

      close : Bool → Action LinkDesk Bool
      close sent = audit (link_sent email (or_no_url redirect_url)) >> pure sent

      tail : Action LinkDesk Bool
      tail = send >>= close

      s1 : LinkDesk
      s1 = (in_cache (record_send now email) s).1

      counted : Holds r s0 s1
      counted = (
        ap (λ (e : Entry). magic_doc e.value)
              (record_send-kept now t email (magic_link_key token) later refl s.cache)
            ∙ h.0,
        h.1,
      )

      delivered :
          (o : Option (Text → Text → Result Bool))
          → Holds r s0 (deliver split lower strip user_role cfg o email token s1).1
      delivered none = counted
      delivered (some f) = counted

  -- What a link gives that was sent with success, to an account that is there.
  issue-Holds :
      (email : Text) (redirect_url : Option Text) (s : LinkDesk) (sent : Bool)
      → (issue split lower strip user_role cfg email_service now token email redirect_url metadata
          s).0
        ≡ ok sent
      → Holds
          (record_of email redirect_url)
          s
          (issue split lower strip user_role cfg email_service now token email redirect_url metadata
            s).1
  unfolding issue ending
  issue-Holds email redirect_url s sent done =
      after-ok (Holds r s) (in_cache (check_send_rate_limit now email))
        (λ _. store >> ending email redirect_url) s sent done
        (λ _ _ _.
          after-bind (Holds r s) store (λ _. ending email redirect_url) s1
            (λ _ _. after_set r s1 s refl)
            (λ _ _. ending-Holds email redirect_url r s (store s1).1 (after_set r s1 s refl)))
    where
      r : MagicRecord
      r = record_of email redirect_url

      store : Action LinkDesk (Unit {0})
      store =
          in_cache
            (set now (magic_link_key token) (json (magic r)) (some cfg.magic_link_ttl_seconds))

      s1 : LinkDesk
      s1 = (in_cache (check_send_rate_limit now email) s).1

  sent-Holds :
      (email url : Text) (safe : Option Text) (s : LinkDesk) (sent : Bool)
      → (send_magic_link split lower strip user_role cfg email_service now token email url metadata
          s).0
        ≡ ok sent
      → validate_redirect_url split lower cfg url ≡ ok safe
      → Holds
          (record_of (lower (strip email)) safe)
          s
          (send_magic_link split lower strip user_role cfg email_service now token email url
            metadata s).1
  unfolding send_magic_link
  sent-Holds email url safe s sent done valid = elim (Bool-cases (email == 0)) [
    | inl missing ↦ absurd (ground (arith, missing, done))
    | inr given ↦
        rw (given, valid)
          (issue-Holds (lower (strip email)) safe s sent (rw (given, valid) at done))
  ]

  -- A link that was sent with success, with a lifetime and a token that are not empty, to an address
  -- that an account has: until the lifetime is over, the next use of the token gives that account, with
  -- the redirect that was checked and the metadata that were given.
  pub send_magic_link-verify :
      (email url new_id : Text) (safe : Option Text) (s : LinkDesk) (sent : Bool) (u : User)
      → (send_magic_link split lower strip user_role cfg email_service now token email url metadata
          s).0
        ≡ ok sent
      → validate_redirect_url split lower cfg url ≡ ok safe
      → 0 < token
      → 0 < lower (strip email)
      → (get_user_by_identifier lower 0 (lower (strip email)) 0 s.users).0 ≡ ok (some u)
      → t < now + cfg.magic_link_ttl_seconds * second
      → (verify_magic_link split lower strip user_role cfg t new_id token
          (send_magic_link split lower strip user_role cfg email_service now token email url
            metadata s).1).0
        ≡ ok (
          u,
          record {
            email = lower (strip email);
            redirect_url = safe;
            metadata = metadata;
            created_at = now;
          },
        )
  unfolding Holds redeem account
  send_magic_link-verify email url new_id safe s sent u done valid given address known in_time =
      let (held, same) = sent-Holds email url safe s sent done valid in
      let alive_now : ltb t (now + cfg.magic_link_ttl_seconds * second) ≡ true =
        ground (arith, in_time) in
      let has_address : (lower (strip email) == 0) ≡ false = ground (arith, address) in
      rw
        (
          reads split lower strip user_role cfg t new_id token
              (send_magic_link split lower strip user_role cfg email_service now token email url
                metadata s).1
              given,
          held,
          alive_now,
          has_address,
          redeem,
        )
        (ground (arith, known, same))
