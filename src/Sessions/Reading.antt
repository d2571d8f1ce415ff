-- ===== src/Sessions/Reading.antt =====
-- tessera/sessions/session_manager.py: what `_get_session` finds.
use auth_manager.Base.Errors.{ok}
use auth_manager.Cache.Keys.{session_key}
use auth_manager.Base.Dict.{lookup}
use auth_manager.Cache.{Cache, json, get}
use auth_manager.Records.{Token, SessionDoc, Session, from_dict, session}
use auth_manager.Base.{
  ℕ, Option, Text, ◌≡◌, none, some, arith, Option-cases, nat_eq, inl, inr, refl, ◌-◌, ◌/◌, second,
}
use auth_manager.Sessions.{
  Store, session_doc, recache, get_session, ℕ, Option, Token, Cache, lookup, session_key, ok,
}
use auth_manager.Database.Sessions.{Table}
use auth_manager.Cache.Laws.{entry, get_lem}
use auth_manager.Cache.Laws.Operations.{set_lem}

-- The live cached copy of a session, or else its row in the database.
abbrev pub found_at : ℕ → Text → Store → Option SessionDoc
found_at t session_id s = elim s.cache [
  | none ↦ lookup session_id s.sessions
  | some c ↦ elim (session_doc (entry t (session_key session_id) c).value) [
    | some d ↦ some d
    | none ↦ lookup session_id s.sessions
  ]
]

abbrev pub as_session : Option SessionDoc → Option Session
as_session none = none
as_session (some d) = some (from_dict d)

module _ (token_hash : Token → Text) (t : ℕ) (session_id : Text) (table : Table) where
  recache_lem :
      (d : SessionDoc) (c : Cache)
      → (recache token_hash t session_id d (record { cache = some c; sessions = table })).0 ≡ ok tt
  recache_lem d c =
      ground (
        arith,
        set_lem t (session_key session_id) c (json (session d)) ((d.expires_at - t) / second),
      )

  uncached :
      (o : Option SessionDoc) (c : Cache)
      → lookup session_id table ≡ o
      → session_doc (entry t (session_key session_id) c).value ≡ none
      → (get_session token_hash t session_id (record { cache = some c; sessions = table })).0
        ≡ ok (as_session o)
  unfolding get_session
  uncached none c e miss = ground (arith, get_lem t (session_key session_id) c)
  uncached (some d) c e miss = ground (
    arith,
    get_lem t (session_key session_id) c,
    recache_lem d (get t (session_key session_id) c).1,
  )

  hit :
      (d : SessionDoc) (c : Cache)
      → session_doc (entry t (session_key session_id) c).value ≡ some d
      → (get_session token_hash t session_id (record { cache = some c; sessions = table })).0
        ≡ ok (some (from_dict d))
  unfolding get_session
  hit d c e = ground (arith, get_lem t (session_key session_id) c)

  no_cache :
      (o : Option SessionDoc)
      → lookup session_id table ≡ o
      → (get_session token_hash t session_id (record { cache = none; sessions = table })).0
        ≡ ok (as_session o)
  unfolding get_session
  no_cache none e = ground arith
  no_cache (some d) e = ground arith

-- A read takes the cached copy while it lives, and the database otherwise; it never raises.
pub get_session-found_at :
    (token_hash : Token → Text) (t : ℕ) (session_id : Text) (s : Store)
    → (get_session token_hash t session_id s).0 ≡ ok (as_session (found_at t session_id s))
get_session-found_at token_hash t session_id s = go s.cache refl
  where
    go :
        (o : Option Cache)
        → s.cache ≡ o
        → (get_session token_hash t session_id (record s { cache = o })).0
          ≡ ok (as_session (found_at t session_id (record s { cache = o })))
    go none e = no_cache token_hash t session_id s.sessions _ refl
    go (some c) e = elim (Option-cases (session_doc (entry t (session_key session_id) c).value)) [
      | inl miss ↦ rw (miss, as_session) (uncached token_hash t session_id s.sessions _ c refl miss)
      | inr (d, found) ↦ rw (found, as_session) (hit token_hash t session_id s.sessions d c found)
    ]
