-- ===== src/Sessions/Stale.antt =====
-- tessera/sessions/session_manager.py: `_update_last_active` writes the copy that it read, in a task of
-- its own.
use auth_manager.Sessions.Revoked.{validate_session-revoke}
use auth_manager.Base.Errors.{ok}
use auth_manager.Sessions.Api.{validate_session}
use auth_manager.Security.Tokens.{Jwt, Claims, validate_token, access}
use auth_manager.Config.{AuthConfig}
use auth_manager.Cache.Laws.Operations.{set_lem, entry-set}
use auth_manager.Base.Dict.{lookup-insert}
use auth_manager.Sessions.Reading.{found_at, get_session-found_at}
use auth_manager.Cache.{Cache, json, set, text}
use auth_manager.Database.Sessions.{save_session, Table}
use auth_manager.Sessions.{
  store_session, ttl_until, save_session, Cache, update_last_active, AuthConfig, write_last_active,
  Jwt, Store, get_session, ok, revoke,
}
use auth_manager.Base.{
  Text, ℕ, ◌≤◌, ◌<◌, arith, Option, ◌≢◌, ◌≡◌, some, none, nat_eq, false, ap, ◌∙◌,
}
use auth_manager.Records.{Token, Session, SessionDoc, to_dict, session, active, from_dict}
use auth_manager.Cache.Keys.{session_key, session_refresh_key, key_eq_iff}

module _ (token_hash : Token → Text) (write t : ℕ) (h : write ≤ t) (u : Session) where
  abbrev touched : SessionDoc
  touched = to_dict (record u { last_active = write })

  ttl_until-pos : (expires_at : ℕ) → 0 < ttl_until write expires_at
  ttl_until-pos expires_at = ground arith

  -- What is stored is found, in the cache as long as it holds, and in the database after that.
  found_at-store_session :
      (o : Option Cache) (table : Table)
      → u.user_id ≢ 0
      → found_at t u.id
          (store_session token_hash write
            (record u { last_active = write })
            (record { cache = o; sessions = table })).1
        ≡ some touched
  unfolding store_session save_session
  found_at-store_session none table named = ground (arith, lookup-insert u.id u.id touched table)
  found_at-store_session (some c) table named = ground (
    arith,
    lookup-insert u.id u.id touched table,
    set_lem write (session_key u.id) c (json (session touched)) (ttl_until write u.expires_at)
        (ttl_until-pos u.expires_at),
    entry-set write t (session_key u.id) (session_key u.id) c h (json (session touched))
        (ttl_until write u.expires_at) (ttl_until-pos u.expires_at),
    entry-set write t (session_key u.id) (session_refresh_key (token_hash u.refresh_token))
        (set write (session_key u.id) (json (session touched)) (some (ttl_until write u.expires_at))
          c).1
        h (text u.id) (ttl_until write u.expires_at) (ttl_until-pos u.expires_at),
    key_eq_iff (session_key u.id) (session_key u.id),
  )

module _ (token_hash : Token → Text) where
  update_last_active-written :
      (read write : ℕ) (session_id : Text) (others : Store → Store) (u : Session) (s : Store)
      → (get_session token_hash read session_id s).0 ≡ ok (some u)
      → u.is_revoked ≡ false
      → update_last_active token_hash read write session_id others s
        ≡ (store_session token_hash write
            (record u { last_active = write })
            (others (get_session token_hash read session_id s).1)).1
  unfolding update_last_active write_last_active
  update_last_active-written read write session_id others u s found live =
      ground (arith, found, live)

  module _ (cfg : AuthConfig) (jwt : Jwt cfg) where
    -- What `validate_session` says of a session that is found.
    validate_session-found :
        (t : ℕ) (token : Token) (c : Claims) (d : SessionDoc) (s : Store)
        → validate_token cfg jwt t token access ≡ ok c
        → c.session_id ≡ some d.id
        → d.id ≢ 0
        → c.sub ≡ d.user_id
        → t < d.expires_at
        → d.status ≡ active
        → found_at t d.id s ≡ some d
        → (validate_session token_hash cfg jwt t token s).0 ≡ ok (some (from_dict d))
    unfolding validate_session
    validate_session-found t token c d s valid names real owner unexpired live found =
        ground (arith, get_session-found_at token_hash t d.id s)

    -- A revocation while `_update_last_active` waits is undone. The task has read the copy of a
    -- session that is not revoked and has its own id and a user, the session is revoked, and the
    -- task writes: from then until the session expires, `validate_session` hands it out for every
    -- access token that is valid and names the session and its user. Where the revocation comes
    -- without the task, it refuses that token.
    pub validate_session-update_last_active :
        (read revoked write t : ℕ) (token : Token) (c : Claims) (u : Session) (s : Store)
        → revoked ≤ write
        → write ≤ t
        → t < u.expires_at
        → (get_session token_hash read u.id s).0 ≡ ok (some u)
        → u.is_revoked ≡ false
        → u.id ≢ 0
        → u.user_id ≢ 0
        → validate_token cfg jwt t token access ≡ ok c
        → c.session_id ≡ some u.id
        → c.sub ≡ u.user_id
        → ((validate_session token_hash cfg jwt t token (revoke token_hash revoked u.id s).1).0
            ≡ ok none)
          × ((validate_session token_hash cfg jwt t token (
                update_last_active token_hash read write u.id
                  (λ x. (revoke token_hash revoked u.id x).1)
                  s)).0
              ≡ ok (some (record u { last_active = write })))
    validate_session-update_last_active read revoked write t token c u s before after unexpired
          found live real owner valid names owns =
        (
          validate_session-revoke token_hash cfg jwt revoked t u.id token c s (omega arith) valid
              names,
          ap (λ x. (validate_session token_hash cfg jwt t token x).0)
                (update_last_active-written read write u.id
                  (λ x. (revoke token_hash revoked u.id x).1) u s found live)
              ∙ validate_session-found t token c (to_dict (record u { last_active = write }))
                  (store_session token_hash write (record u { last_active = write }) r).1 valid
                  names real owns unexpired (ground (arith, live))
                  (found_at-store_session token_hash write t after u r.cache r.sessions owner)
              ∙ ground (arith, live),
        )
      where
        r : Store
        r = (revoke token_hash revoked u.id (get_session token_hash read u.id s).1).1
