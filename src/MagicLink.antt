-- ===== src/MagicLink.antt =====
-- tessera/passwordless/magic_link.py, `class MagicLinkManager`. `split` is `urlsplit`, `lower` and
-- `strip` are the methods of `str`, `user_role` is the text `user`, and `send` is the email service,
-- which gets the address and the token of the link. The fresh token and user id are arguments.
pub mod SingleUse
pub mod Redirects
pub mod Sent
use auth_manager.Base.Dict.{Dict}
use auth_manager.Security.RateLimit.{to_int}
use auth_manager.Cache.Keys.{magic_rate_key, magic_link_key}
use auth_manager.Records.{MagicRecord, magic}
use auth_manager.Database.Users.{Users, User, create_user, get_user_by_identifier}
use auth_manager.Base.Int.{ℤ, pos, negsuc}
use auth_manager.Base.Errors.{
  Action, Result, modify, ◌>>=◌, ◌>>◌, raise, call, err, rate_limit_error, ok, pure, value_error,
  raise_if, authentication_error, user_not_found, magic_link_invalid,
}
use auth_manager.Cache.{Cache, Raw, expire, incr, get, ttl, json, set, delete}
use auth_manager.Base.{
  Text, Bool, ℕ, Option, List, if◌then◌else◌, ◌∷◌, false, ◌==◌, true, some, nat_eq, [], max, ◌++◌,
  not, none, leb, ◌&&◌, ◌||◌, contains,
}

-- The fields of `AuthConfig` that are read here; an empty text is no URL.
pub record LinkSettings : Type 0 where
  pub default_redirect_url : Text
  pub base_url : Text
  pub magic_link_ttl_seconds : ℕ
  pub auto_create_users : Bool

-- What is read of the result of `urlsplit`.
pub record Url : Type 0 where
  pub is_http : Bool
  pub netloc : Text

pub data LinkEvent : Type 0 where
  link_sent : Text → Text → LinkEvent
  link_missing : LinkEvent
  link_user_not_found user_created : Text → LinkEvent
  link_verified : Text → Text → LinkEvent

-- The cache, the user table and the audit events, newest first.
pub record LinkDesk : Type 0 where
  pub cache : Cache
  pub users : Users
  pub audit : List LinkEvent

abbrev pub in_cache : {A : Type 0} → Action Cache A → Action LinkDesk A
in_cache m s = let (r, c) = m s.cache in (r, record s { cache = c })

abbrev pub in_users : {A : Type 0} → Action Users A → Action LinkDesk A
in_users m s = let (r, u) = m s.users in (r, record s { users = u })

-- `_audit`
abbrev pub audit : LinkEvent → Action LinkDesk (Unit {0})
audit e = modify (λ (s : LinkDesk). record s { audit = e ∷ s.audit })

abbrev pub result : {A : Type 0} → Result A → Action LinkDesk A
result r s = (r, s)

abbrev pub max_sends_per_window : ℕ
max_sends_per_window = 3

abbrev pub send_window_seconds : ℕ
send_window_seconds = 300

-- The remaining seconds, once the window is set again where it has no deadline.
abbrev pub refuse_send : ℕ → Text → ℤ → Action Cache (Unit {0})
refuse_send now email (pos remaining) = raise (rate_limit_error (max 1 remaining))
refuse_send now email (negsuc _) = do
  expire now (magic_rate_key email) send_window_seconds
  raise (rate_limit_error (max 1 send_window_seconds))

-- `_check_send_rate_limit`
unfoldable pub check_send_rate_limit : ℕ → Text → Action Cache (Unit {0})
check_send_rate_limit now email = do
  raw ← call (get now (magic_rate_key email))
  attempts ← to_int raw
  if leb max_sends_per_window attempts
      then (do remaining ← call (ttl now (magic_rate_key email)); refuse_send now email remaining)
      else pure tt

abbrev pub is_minus_one : ℤ → Bool
is_minus_one (pos n) = false
is_minus_one (negsuc n) = n == 0

abbrev pub start_window : ℕ → Text → Action Cache (Unit {0})
start_window now email = do expire now (magic_rate_key email) send_window_seconds; pure tt

-- `_record_send`
unfoldable pub record_send : ℕ → Text → Action Cache (Unit {0})
record_send now email = do
  attempts ← incr now (magic_rate_key email)
  if attempts == 1 then start_window now email else (do
    remaining ← call (ttl now (magic_rate_key email))
    if is_minus_one remaining then start_window now email else pure tt)

-- `get_json` on a link key; these keys hold nothing else.
abbrev pub magic_doc : Option Raw → Option MagicRecord
magic_doc (some (json (magic r))) = some r
magic_doc _ = none

module _ (split : Text → Result Url) (lower : Text → Text) (cfg : LinkSettings) where
  abbrev pub host_of : Text → Result (List Text)
  host_of url = if url == 0 then ok [] else elim (split url) [
    | err e ↦ err e
    | ok u ↦ ok (if lower u.netloc == 0 then [] else lower u.netloc ∷ [])
  ]

  -- `_allowed_hosts`
  unfoldable pub allowed_hosts : Result (List Text)
  allowed_hosts = elim (host_of cfg.default_redirect_url) [
    | err e ↦ err e
    | ok a ↦ elim (host_of cfg.base_url) [ err e ↦ err e | ok b ↦ ok (a ++ b) ]
  ]

  abbrev pub no_host : List Text → Bool
  no_host [] = true
  no_host (_ ∷ _) = false

  -- `redirect_url or self.config.default_redirect_url`
  abbrev pub candidate : Text → Text
  candidate redirect_url = if redirect_url == 0 then cfg.default_redirect_url else redirect_url

  -- The host test of `_validate_redirect_url`.
  abbrev pub check_host : Text → Text → Result (List Text) → Result (Option Text)
  check_host url netloc (err e) = err e
  check_host url netloc (ok hosts) =
      if not (no_host hosts) && not (contains (lower netloc) hosts)
      then err value_error
      else ok (some url)

  -- `_validate_redirect_url`; an absent URL is the empty text.
  unfoldable pub validate_redirect_url : Text → Result (Option Text)
  unfolding allowed_hosts
  validate_redirect_url redirect_url =
      let url = candidate redirect_url in
      if url == 0 then ok none else elim (split url) [
        | err e ↦ err e
        | ok u ↦
            if not u.is_http || u.netloc == 0
            then err value_error
            else check_host url u.netloc allowed_hosts
      ]

abbrev pub or_no_url : Option Text → Text
or_no_url none = 0
or_no_url (some url) = url

module _ (split : Text → Result Url) (lower strip : Text → Text) (user_role : Text)
    (cfg : LinkSettings) where
  -- The call of the email service, where there is one.
  abbrev pub deliver : Option (Text → Text → Result Bool) → Text → Text → Action LinkDesk Bool
  deliver none email token = pure false
  deliver (some send) email token = result (send email token)

  -- The rest of `send_magic_link`, with the address in lower case and the checked redirect.
  unfoldable pub issue :
      Option (Text → Text → Result Bool)
      → ℕ
      → Text
      → Text
      → Option Text
      → Dict Text Text
      → Action LinkDesk Bool
  unfolding check_send_rate_limit record_send
  issue email_service now token email redirect_url metadata = do
    in_cache (check_send_rate_limit now email)
    in_cache (
        set now (magic_link_key token)
          (json (
            magic (record {
              email = email;
              redirect_url = redirect_url;
              metadata = metadata;
              created_at = now;
            })))
          (some cfg.magic_link_ttl_seconds))
    in_cache (record_send now email)
    sent ← deliver email_service email token
    audit (link_sent email (or_no_url redirect_url))
    pure sent

  unfoldable pub send_magic_link :
      Option (Text → Text → Result Bool)
      → ℕ
      → Text
      → Text
      → Text
      → Dict Text Text
      → Action LinkDesk Bool
  unfolding issue validate_redirect_url
  send_magic_link email_service now token email redirect_url metadata = do
    raise_if (email == 0) value_error
    safe_redirect ← result (validate_redirect_url split lower cfg redirect_url)
    issue email_service now token (lower (strip email)) safe_redirect metadata

  unfoldable pub resend_magic_link :
      Option (Text → Text → Result Bool) → ℕ → Text → Text → Action LinkDesk Bool
  unfolding send_magic_link
  resend_magic_link email_service now token email =
      send_magic_link email_service now token email 0 []

  abbrev pub new_user : ℕ → Text → Text → User
  new_user now new_id email = record {
    id = new_id;
    email = email;
    username = 0;
    phone = 0;
    hashed_password = 0;
    role = user_role;
    is_active = true;
    mfa_enabled = false;
    mfa_secret = 0;
    mfa_backup_codes = [];
    created_at = now;
    updated_at = now;
  }

  -- The account of the address, created where that is configured.
  unfoldable pub account : ℕ → Text → Text → Option User → Action LinkDesk User
  account now new_id email (some u) = pure u
  account now new_id email none =
      if cfg.auto_create_users
      then (do
        u ← in_users (create_user lower (new_user now new_id email))
        audit (user_created email)
        pure u)
      else (do audit (link_user_not_found email); raise (authentication_error user_not_found))

  -- What follows the read of the record: it is deleted first.
  unfoldable pub redeem :
      ℕ → Text → Text → Option MagicRecord → Action LinkDesk (User × MagicRecord)
  unfolding account
  redeem now new_id token none = do
    audit link_missing
    raise (authentication_error magic_link_invalid)
  redeem now new_id token (some r) = do
    in_cache (call (delete now (magic_link_key token)))
    found ←
        (if r.email == 0 then pure none else in_users (get_user_by_identifier lower 0 r.email 0))
    u ← account now new_id r.email found
    audit (link_verified r.email u.id)
    pure (u, r)

  unfoldable pub verify_magic_link : ℕ → Text → Text → Action LinkDesk (User × MagicRecord)
  unfolding redeem
  verify_magic_link now new_id token = do
    raise_if (token == 0) value_error
    raw ← in_cache (call (get now (magic_link_key token)))
    redeem now new_id token (magic_doc raw)
