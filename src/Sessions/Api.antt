-- ===== src/Sessions/Api.antt =====
-- tessera/sessions/session_manager.py: the calls that issue tokens or check one.
use auth_manager.Database.Sessions.{get_active_sessions}
use auth_manager.Cache.Keys.{session_refresh_key}
use auth_manager.Cache.{get, delete}
use auth_manager.Base.Chars.{chars_eq}
use auth_manager.Base.Dict.{Dict, lookup, insert}
use auth_manager.Base.Errors.{Action, ◌>>=◌, ◌>>◌, err, raise_if, call, ok, value_error, pure}
use auth_manager.Sessions.{
  store_session, index_user_session, Action, get_session, Store, enforce_session_limit, Dict,
  cached, get, session_refresh_key, session_ref, get_active_sessions,
}
use auth_manager.Security.Tokens.{
  Jwt, create_access_token, validate_token, access, refresh, create_refresh_token,
}
use auth_manager.Config.{AuthConfig}
use auth_manager.Base.{
  Text, ℕ, Option, some, Bool, if◌then◌else◌, ◌==◌, ◌||◌, none, false, leb, nat_eq, not, ◌+◌, ◌*◌,
  find_first, second,
}
use auth_manager.Records.{Token, SessionDoc, Session, from_dict}

-- The code of the key "device_id" in a session's metadata.
abbrev pub device_id_field : Text
device_id_field = 1

abbrev chosen : Option Text → Text → Text
chosen none fresh = fresh
chosen (some t) fresh = if t == 0 then fresh else t

-- The random values of one call of `create_session`.
pub record Fresh : Type 0 where
  pub session_id : Text
  pub device_id : Text
  pub access_jti : Text
  pub refresh_jti : Text

module _ (token_hash : Token → Text) (cfg : AuthConfig) (jwt : Jwt cfg) where
  -- `_issue_session_tokens`, with two fresh jtis.
  pub issue_session_tokens : ℕ → Text → Text → Text → Text → Action Store (Token × Token)
  issue_session_tokens now jti1 jti2 user_id session_id s =
      elim (create_access_token cfg jwt now jti1 user_id
        (record { reserved = false; session_id = some session_id }) none) [
          | err e ↦ (err e, s)
          | ok (access_token, _) ↦ elim (create_refresh_token cfg jwt now jti2 user_id none) [
            | err e ↦ (err e, s)
            | ok (refresh_token, _) ↦ (ok (access_token, refresh_token), s)
          ]
        ]

  unfoldable pub create_session :
      ℕ → Fresh → Text → Dict Text Text → Option Text → Option Text → Action Store Session
  unfolding issue_session_tokens store_session index_user_session enforce_session_limit
  create_session now fresh user_id device_info ip_address user_agent = do
    raise_if (user_id == 0) value_error
    let device_id = chosen (lookup device_id_field device_info) fresh.device_id
    tokens ← issue_session_tokens now fresh.access_jti fresh.refresh_jti user_id fresh.session_id
    let s : Session = record {
      id = fresh.session_id;
      user_id = user_id;
      device_id = device_id;
      access_token = tokens.0;
      refresh_token = tokens.1;
      created_at = now;
      expires_at = now + cfg.session_expiry_seconds * second;
      last_active = now;
      ip_address = ip_address;
      user_agent = user_agent;
      metadata = insert device_id_field device_id device_info;
      is_revoked = false;
    }
    store_session token_hash now s
    index_user_session token_hash now user_id fresh.session_id
    enforce_session_limit token_hash cfg now user_id
    pure s

  -- The checks of `validate_session` on the session that the token names.
  abbrev pub usable : ℕ → Text → Option Session → Option Session
  usable now sub none = none
  usable now sub (some s) =
      if s.is_revoked || leb s.expires_at now || not (sub == s.user_id) then none else some s

  unfoldable pub validate_session : ℕ → Token → Action Store (Option Session)
  unfolding get_session
  validate_session now access_token = elim (validate_token cfg jwt now access_token access) [
    | err e ↦ pure none
    | ok c ↦ elim c.session_id [
      | none ↦ pure none
      | some sid ↦
          if sid == 0
          then pure none
          else (do found ← get_session token_hash now sid; pure (usable now c.sub found))
    ]
  ]

  abbrev holds_token : Token → SessionDoc → Bool
  holds_token token d = d.refresh_token == token

  -- `_resolve_session_for_refresh`: the cache ledger, or without a cache the stored tokens.
  pub resolve_session_for_refresh : ℕ → Token → Text → Action Store (Option Session)
  unfolding get_session
  resolve_session_for_refresh now refresh_token user_id s = elim s.cache [
    | some c ↦
        (do
          raw ← cached none (call (get now (session_refresh_key (token_hash refresh_token))))
          elim (session_ref raw) [ none ↦ pure none | some sid ↦ get_session token_hash now sid ])
          s
    | none ↦
        elim (find_first (holds_token refresh_token) (get_active_sessions user_id s.sessions)) [
          | none ↦ (ok none, s)
          | some d ↦ (ok (some (from_dict d)), s)
        ]
  ]

  unfoldable refresh_session : ℕ → Text → Text → Token → Action Store (Option Session)
  unfolding resolve_session_for_refresh issue_session_tokens store_session
  refresh_session now jti1 jti2 refresh_token =
      elim (validate_token cfg jwt now refresh_token refresh) [
        | err e ↦ pure none
        | ok c ↦ (do
          found ← resolve_session_for_refresh now refresh_token c.sub
          elim found [
            | none ↦ pure none
            | some s ↦ if s.is_revoked || leb s.expires_at now then pure none else (do
              cached false (call (delete now (session_refresh_key (token_hash refresh_token))))
              tokens ← issue_session_tokens now jti1 jti2 s.user_id s.id
              let s' : Session = record s {
                expires_at = now + cfg.session_expiry_seconds * second;
                last_active = now;
                access_token = tokens.0;
                refresh_token = tokens.1;
              }
              store_session token_hash now s'
              pure (some s'))
          ])
      ]
