-- ===== src/Sessions.antt =====
-- tessera/sessions/session_manager.py, `class SessionManager`, over the cache and the session table.
-- Calls read the clock once; the random ids and jtis are arguments.
pub mod Api
pub mod Reading
pub mod Revoked
pub mod Stale
use auth_manager.Base.Dict.{Dict, lookup, insert}
use auth_manager.Security.Tokens.{
  Jwt, create_access_token, validate_token, access, refresh, create_refresh_token,
}
use auth_manager.Base.Int.{pos, negsuc}
use auth_manager.Base.Chars.{is_empty}
use auth_manager.Cache.Keys.{user_sessions_key, session_key, session_refresh_key}
use auth_manager.Config.{AuthConfig}
use auth_manager.Database.Sessions.{
  Table, get_active_sessions, revoke_session, revoke_all_user_sessions, save_session,
}
use auth_manager.Cache.{Cache, Raw, lpush, set, num, get, lrange, delete, text, json}
use auth_manager.Records.{
  Token, Session, SessionDoc, status_revoked, from_dict, session, reset, to_dict, sms, magic,
  tokenpair, pending_secret,
}
use auth_manager.Base.Errors.{Action, ◌>>◌, ◌>>=◌, call, pure, gets, ok, err, raise_if, value_error}
use auth_manager.Base.{
  Option, ℕ, Text, max, Bool, List, some, ◌-◌, if◌then◌else◌, none, not, false, sort_by, ◌/◌, ◌∷◌,
  ◌==◌, map, second, ◌||◌, [], leb, nat_eq, length, keep, take, reverse, find_first, ◌+◌, ◌*◌,
}
use auth_manager.Database

pub record Store : Type 0 where
  pub cache : Option Cache
  pub sessions : Table

-- A cache call, with what stands in for its result where no cache is configured.
abbrev pub cached : {A : Type 0} → A → Action Cache A → Action Store A
cached d m s = elim s.cache [
  | none ↦ (ok d, s)
  | some c ↦ let (r, c') = m c in (r, record s { cache = some c' })
]

abbrev pub stored : {A : Type 0} → Action Table A → Action Store A
stored m s = let (r, t) = m s.sessions in (r, record s { sessions = t })

-- The JSON object under a session key; these keys hold nothing else.
abbrev pub session_doc : Option Raw → Option SessionDoc
session_doc none = none
session_doc (some (num n)) = none
session_doc (some (text t)) = none
session_doc (some (json (session d))) = some d
session_doc (some (json (reset r))) = none
session_doc (some (json (sms r))) = none
session_doc (some (json (magic r))) = none
session_doc (some (json (tokenpair a r))) = none
session_doc (some (json (pending_secret t n))) = none

-- The session id that the refresh ledger maps a token to.
abbrev pub session_ref : Option Raw → Option Text
session_ref none = none
session_ref (some (num n)) = none
session_ref (some (text t)) = if t == 0 then none else some t
session_ref (some (json d)) = none

-- `max(1, int((expires_at - now).total_seconds()))`
abbrev pub ttl_until : ℕ → ℕ → ℕ
ttl_until now expires_at = max 1 ((expires_at - now) / second)

module _ (token_hash : Token → Text) where
  -- `_store_session`
  pub store_session : ℕ → Session → Action Store (Unit {0})
  store_session now s = do
    cached tt (
        set now (session_key s.id) (json (session (to_dict s))) (some (ttl_until now s.expires_at)))
    stored (save_session (to_dict s))
    if is_empty s.refresh_token
        then pure tt
        else cached tt (
            set now (session_refresh_key (token_hash s.refresh_token)) (text s.id)
              (some (ttl_until now s.expires_at)))

  -- The copy that `_get_session` puts back into the cache.
  abbrev pub recache : ℕ → Text → SessionDoc → Action Store (Unit {0})
  recache now session_id d =
      if status_revoked d.status || leb ((d.expires_at - now) / second) 0
      then pure tt
      else cached tt (
          set now (session_key session_id) (json (session d))
            (some ((d.expires_at - now) / second)))

  -- `_get_session`: the cache first, then the database.
  pub get_session : ℕ → Text → Action Store (Option Session)
  get_session now session_id = do
    raw ← cached none (call (get now (session_key session_id)))
    elim (session_doc raw) [
      | some d ↦ pure (some (from_dict d))
      | none ↦ (do
        record_found ← gets (λ s. Database.Sessions.get_session session_id s.sessions)
        elim record_found [
          | none ↦ pure none
          | some d ↦ (do recache now session_id d; pure (some (from_dict d)))
        ])
    ]

  -- `_index_user_session`
  pub index_user_session : ℕ → Text → Text → Action Store (Unit {0})
  index_user_session now user_id session_id =
      cached 0 (lpush now (user_sessions_key user_id) (session_id ∷ [])) >> pure tt

  abbrev pub other_than : Text → Text → Bool
  other_than session_id sid = not (sid == session_id)

  abbrev pub put_back : ℕ → Text → List Text → Action Cache (Unit {0})
  put_back now user_id [] = pure tt
  put_back now user_id (x ∷ xs) = do
    lpush now (user_sessions_key user_id) (reverse (x ∷ xs))
    pure tt

  -- The last part of `_drop_session_state`: the index of the user without one session.
  abbrev pub reindex : ℕ → Text → Text → Action Cache (Unit {0})
  reindex now user_id session_id = do
    ids ← call (lrange now (user_sessions_key user_id) (pos 0) (negsuc 0))
    call (delete now (user_sessions_key user_id))
    put_back now user_id (keep (other_than session_id) ids)

  -- The ledger entry of the refresh token that the database still holds.
  abbrev pub drop_refresh : ℕ → Option SessionDoc → Action Cache (Unit {0})
  drop_refresh now none = pure tt
  drop_refresh now (some d) =
      if is_empty d.refresh_token
      then pure tt
      else (do call (delete now (session_refresh_key (token_hash d.refresh_token))); pure tt)

  pub drop_session_state : ℕ → Text → Text → Action Store (Unit {0})
  drop_session_state now user_id session_id = do
    cached false (call (delete now (session_key session_id)))
    record_found ← gets (λ s. Database.Sessions.get_session session_id s.sessions)
    cached tt (drop_refresh now record_found)
    cached tt (reindex now user_id session_id)

  -- The eviction loop of `_enforce_session_limit`.
  pub evict : ℕ → Text → List SessionDoc → Action Store (Unit {0})
  unfolding drop_session_state
  evict now user_id [] = pure tt
  evict now user_id (d ∷ ds) = do
    stored (call (revoke_session now d.id))
    drop_session_state now user_id d.id
    evict now user_id ds

  abbrev pub created : SessionDoc → ℕ
  created d = d.created_at

  pub enforce_session_limit : AuthConfig → ℕ → Text → Action Store (Unit {0})
  unfolding evict
  enforce_session_limit cfg now user_id = do
    active ← gets (λ s. get_active_sessions user_id s.sessions)
    if leb cfg.max_concurrent_sessions 0 || leb (length active) cfg.max_concurrent_sessions
        then pure tt
        else evict now user_id
            (take (length active - cfg.max_concurrent_sessions) (sort_by created active))

  -- `revoke_session`
  pub revoke : ℕ → Text → Action Store Bool
  unfolding get_session drop_session_state
  revoke now session_id = do
    found ← get_session now session_id
    revoked_now ← stored (call (revoke_session now session_id))
    elim found [ none ↦ pure tt | some s ↦ drop_session_state now s.user_id session_id ]
    pure revoked_now

  -- The loop of `revoke_all_user_sessions`.
  pub drop_all : ℕ → Text → List SessionDoc → Action Store (Unit {0})
  unfolding drop_session_state
  drop_all now user_id [] = pure tt
  drop_all now user_id (d ∷ ds) = do drop_session_state now user_id d.id; drop_all now user_id ds

  unfoldable revoke_all : ℕ → Text → Action Store ℕ
  unfolding drop_all
  revoke_all now user_id = do
    active ← gets (λ s. get_active_sessions user_id s.sessions)
    n ← stored (call (revoke_all_user_sessions now user_id))
    drop_all now user_id active
    pure n

  -- The write of `_update_last_active`, with the copy that it read.
  pub write_last_active : ℕ → Session → Action Store (Unit {0})
  unfolding store_session
  write_last_active now s =
      if s.is_revoked then pure tt else store_session now (record s { last_active = now })

  -- `_update_last_active`, the task that `validate_session` schedules: the read at `read`, what the
  -- others do while it waits, and the write at `write`.
  pub update_last_active : ℕ → ℕ → Text → (Store → Store) → Store → Store
  unfolding get_session write_last_active
  update_last_active read write session_id others s =
      let (found, s₁) = get_session read session_id s in
      let s₂ = others s₁ in
      elim found [ err e ↦ s₂ | ok none ↦ s₂ | ok (some u) ↦ (write_last_active write u s₂).1 ]

-- `get_active_sessions`, oldest first.
unfoldable get_active : Text → Store → List Session
get_active user_id s =
    sort_by (λ (x : Session). x.created_at) (map from_dict (get_active_sessions user_id s.sessions))
