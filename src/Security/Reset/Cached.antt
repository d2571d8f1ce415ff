-- ===== src/Security/Reset/Cached.antt =====
-- tessera/utils/security.py and sessions/session_manager.py: a password reset and the cached sessions.
use auth_manager.Sessions.Reading.{found_at}
use auth_manager.Cache.Keys.{session_key, reset_key}
use auth_manager.Sessions.{session_doc}
use auth_manager.Cache.Laws.{entry}
use auth_manager.Cache.Laws.Operations.{entry-get, entry-delete}
use auth_manager.Cache.{Cache, get}
use auth_manager.Records.{SessionDoc}
use auth_manager.Security.Reset.{consume_reset_token, reset_password, Desk, Cache}
use auth_manager.Base.Errors.{Result}
use auth_manager.Config.{AuthConfig}
use auth_manager.Base.{Text, ℕ, ◌≤◌, ◌≡◌, if◌then◌else◌, ◌==◌, some, arith, ap, nat_eq}

module _ (digest lower : Text → Text) (cfg : AuthConfig) (hash_password : Text → Result Text)
    (now t : ℕ) (token new_password session_id : Text) (h : now ≤ t) where
  entry-consume :
      (c : Cache)
      → entry t (session_key session_id) (consume_reset_token digest now token c).1
        ≡ entry t (session_key session_id) c
  unfolding consume_reset_token
  entry-consume c =
      let K = session_key session_id in
      let R = reset_key (digest token) in
      ground (arith, entry-get now t K R c h, entry-delete now t K R (get now R c).1 h)

  cache-reset_password :
      (s : Desk)
      → (reset_password digest lower cfg hash_password now token new_password s).1.cache
        ≡ (if new_password == 0 then s.cache else (consume_reset_token digest now token s.cache).1)
  unfolding reset_password
  cache-reset_password s = ground arith

  -- Whatever comes of a password reset, a session with a live cached copy is found unchanged after
  -- it, also where the reset is configured to revoke the user's sessions.
  pub found_at-reset_password :
      (d : SessionDoc) (s : Desk)
      → session_doc (entry t (session_key session_id) s.cache).value ≡ some d
      → (let s' = (reset_password digest lower cfg hash_password now token new_password s).1 in
          found_at t session_id (record { cache = some s'.cache; sessions = s'.sessions }))
        ≡ some d
  found_at-reset_password d s live = ground (
    arith,
    live,
    ap (entry t (session_key session_id)) (cache-reset_password s),
    entry-consume s.cache,
  )
