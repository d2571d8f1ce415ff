-- ===== src/Sessions/Revoked.antt =====
-- tessera/sessions/session_manager.py: a revoked session stays revoked for every later read.
use auth_manager.Sessions.Api.{validate_session, usable}
use auth_manager.Security.Tokens.{Jwt, Claims, validate_token, access}
use auth_manager.Config.{AuthConfig}
use auth_manager.Sessions.Reading.{found_at, get_session-found_at, as_session}
use auth_manager.Base.Int.{pos, negsuc}
use auth_manager.Cache.Keys.{session_key, session_refresh_key, user_sessions_key, key_eq_iff}
use auth_manager.Base.Errors.{ok}
use auth_manager.Cache.Laws.{entry, absent, get_lem, entry_later}
use auth_manager.Cache.Laws.Operations.{entry-delete, entry-lrange, entry-lpush_ne, entry-get}
use auth_manager.Sessions.{
  drop_refresh, ok, session_key, reindex, pos, put_back, other_than, drop_session_state,
  get_session, session_doc, Store, revoke, AuthConfig, Jwt,
}
use auth_manager.Cache.{Cache, lrange, delete}
use auth_manager.Base.Dict.{lookup, lookup-insert}
use auth_manager.Records.{Token, SessionDoc, status_revoked, Session, from_dict}
use auth_manager.Database.Sessions.{revoke_session, Table, revoke_doc}
use auth_manager.Base.{
  Option, ℕ, Text, Bool, ◌≤◌, true, some, ◌≡◌, Option-cases, inl, arith, none, inr, refl, nat_eq,
  List, keep, ◌∷◌, reverse, ◌∙◌, [], ap,
}

-- A session that no read hands out as usable.
abbrev pub is_void : Option SessionDoc → Bool
is_void none = true
is_void (some d) = status_revoked d.status

revoke_session-void :
    (now : ℕ) (session_id : Text) (table : Table)
    → is_void (lookup session_id (revoke_session now session_id table).1) ≡ true
unfolding revoke_session
revoke_session-void now session_id table = elim (Option-cases (lookup session_id table)) [
  | inl missing ↦ rw (missing, revoke_session) (rw missing refl)
  | inr (d, found) ↦
      rw (found, revoke_session)
        (ground (arith, lookup-insert session_id session_id (revoke_doc now d) table))
]

module _ (token_hash : Token → Text) (now t : ℕ) (session_id : Text) (h : now ≤ t) where
  drop_refresh_lem :
      (o : Option SessionDoc) (c : Cache) → (drop_refresh token_hash now o c).0 ≡ ok tt
  drop_refresh_lem o c = ground arith

  entry-drop_refresh :
      (o : Option SessionDoc) (c : Cache)
      → entry t (session_key session_id) (drop_refresh token_hash now o c).1
        ≡ entry t (session_key session_id) c
  entry-drop_refresh none c = refl
  entry-drop_refresh (some d) c = ground (
    arith,
    entry-delete now t (session_key session_id) (session_refresh_key (token_hash d.refresh_token)) c
        h,
  )

  entry-put_back :
      (user_id : Text) (ids : List Text) (c : Cache)
      → entry t (session_key session_id) (put_back token_hash now user_id ids c).1
        ≡ entry t (session_key session_id) c
  entry-put_back user_id [] c = refl
  entry-put_back user_id (x ∷ xs) c = ground (
    arith,
    entry-lpush_ne now t (session_key session_id) (user_sessions_key user_id) c h (reverse (x ∷ xs))
        refl,
  )

  entry-reindex :
      (user_id : Text) (c : Cache)
      → entry t (session_key session_id) (reindex token_hash now user_id session_id c).1
        ≡ entry t (session_key session_id) c
  entry-reindex user_id c =
      let U = user_sessions_key user_id in
      let (ids, c₁) = lrange now U (pos 0) (negsuc 0) c in
      let c₂ = (delete now U c₁).1 in
      entry-put_back user_id (keep (other_than token_hash session_id) ids) c₂
      ∙ entry-delete now t (session_key session_id) U c₁ h
      ∙ entry-lrange now t (session_key session_id) U c h (pos 0) (negsuc 0)

  drop_session_state_lem :
      (user_id : Text) (c : Cache) (table : Table)
      → (drop_session_state token_hash now user_id session_id
          (record { cache = some c; sessions = table })).1
        ≡ record {
          cache =
              some
                (reindex token_hash now user_id session_id
                  (drop_refresh token_hash now
                    (lookup session_id table)
                    (delete now (session_key session_id) c).1).1).1;
          sessions = table;
        }
  unfolding drop_session_state lookup
  drop_session_state_lem user_id c table =
      rw (drop_refresh_lem (lookup session_id table) (delete now (session_key session_id) c).1) refl

  dropped :
      (user_id : Text) (c : Cache) (table : Table)
      → entry t
          (session_key session_id)
          (reindex token_hash now user_id session_id
            (drop_refresh token_hash now
              (lookup session_id table)
              (delete now (session_key session_id) c).1).1).1
        ≡ absent
  dropped user_id c table =
      entry-reindex user_id _
      ∙ entry-drop_refresh (lookup session_id table) _
      ∙ entry-delete now t (session_key session_id) (session_key session_id) c h
      ∙ ground (arith, key_eq_iff (session_key session_id) (session_key session_id))

  -- Once its state is dropped, a session is what the database says.
  found_at-drop :
      (user_id : Text) (o : Option Cache) (table : Table)
      → found_at t session_id
          (drop_session_state token_hash now user_id session_id
            (record { cache = o; sessions = table })).1
        ≡ lookup session_id table
  unfolding drop_session_state
  found_at-drop user_id none table = refl
  found_at-drop user_id (some c) table =
      rw (drop_session_state_lem user_id c table) (rw (dropped user_id c table, found_at) refl)

  unfound_miss :
      (c : Cache) (table : Table)
      → lookup session_id table ≡ none
      → session_doc (entry now (session_key session_id) c).value ≡ none
      → found_at t session_id
          (get_session token_hash now session_id (record { cache = some c; sessions = table })).1
        ≡ none
  unfolding get_session
  unfound_miss c table missing miss = ground (
    arith,
    get_lem now (session_key session_id) c,
    entry-get now t (session_key session_id) (session_key session_id) c h,
    entry_later now t (session_key session_id) c h,
  )

  sessions-get_session :
      (s : Store) → (get_session token_hash now session_id s).1.sessions ≡ s.sessions
  unfolding get_session
  sessions-get_session s = ground arith

  revoke_found :
      (u : Session) (s : Store)
      → (get_session token_hash now session_id s).0 ≡ ok (some u)
      → (revoke token_hash now session_id s).1
        ≡ (drop_session_state token_hash now u.user_id session_id (
            let s' = (get_session token_hash now session_id s).1 in
            record s' { sessions = (revoke_session now session_id s'.sessions).1 })).1
  unfolding revoke
  revoke_found u s e = ground (arith, e)

  revoke_unfound :
      (s : Store)
      → (get_session token_hash now session_id s).0 ≡ ok none
      → lookup session_id s.sessions ≡ none
      → (revoke token_hash now session_id s).1 ≡ (get_session token_hash now session_id s).1
  unfolding revoke revoke_session
  revoke_unfound s e missing = ground (arith, e, sessions-get_session s)

  revoke_found-void :
      (u : Session) (s : Store)
      → (get_session token_hash now session_id s).0 ≡ ok (some u)
      → is_void (found_at t session_id (revoke token_hash now session_id s).1) ≡ true
  revoke_found-void u s e =
      let s' = (get_session token_hash now session_id s).1 in
      ap (λ x. is_void (found_at t session_id x)) (revoke_found u s e)
      ∙ ap is_void (found_at-drop u.user_id s'.cache (revoke_session now session_id s'.sessions).1)
      ∙ revoke_session-void now session_id s'.sessions

  nothing_stored :
      (s : Store) → found_at now session_id s ≡ none → lookup session_id s.sessions ≡ none
  nothing_stored s e = ground arith

  unfound :
      (o : Option Cache) (table : Table)
      → found_at now session_id (record { cache = o; sessions = table }) ≡ none
      → found_at t session_id
          (get_session token_hash now session_id (record { cache = o; sessions = table })).1
        ≡ none
  unfolding get_session
  unfound none table e = ground arith
  unfound (some c) table e =
      unfound_miss c table (nothing_stored (record { cache = some c; sessions = table }) e)
        (ground arith)

  -- Whatever held a session, no read after `revoke_session` finds it usable.
  pub revoke-void :
      (s : Store) → is_void (found_at t session_id (revoke token_hash now session_id s).1) ≡ true
  revoke-void s =
      let read = get_session-found_at token_hash now session_id s in
      elim (Option-cases (found_at now session_id s)) [
        | inl e ↦
            let absent_now : (get_session token_hash now session_id s).0 ≡ ok none =
              read ∙ ap (λ o. ok (as_session o)) e in
            ap (λ x. is_void (found_at t session_id x))
              (revoke_unfound s absent_now (nothing_stored s e))
            ∙ ap is_void (unfound s.cache s.sessions e)
        | inr (d, e) ↦ revoke_found-void (from_dict d) s (read ∙ ap (λ o. ok (as_session o)) e)
      ]

module _ (token_hash : Token → Text) (cfg : AuthConfig) (jwt : Jwt cfg) where
  void_usable :
      (now sub : Text) (o : Option SessionDoc)
      → is_void o ≡ true
      → usable token_hash cfg jwt now sub (as_session o) ≡ none
  void_usable now sub none void = refl
  void_usable now sub (some d) void = ground arith

  -- On the state that `revoke_session` leaves, `validate_session` refuses every access token that
  -- is valid and names the session, at every later time, whichever of the cache and the database
  -- held the session.
  pub validate_session-revoke :
      (now t : ℕ) (session_id : Text) (token : Token) (c : Claims) (s : Store)
      → now ≤ t
      → validate_token cfg jwt t token access ≡ ok c
      → c.session_id ≡ some session_id
      → (validate_session token_hash cfg jwt t token (revoke token_hash now session_id s).1).0
        ≡ ok none
  unfolding validate_session
  validate_session-revoke now t session_id token c s h valid names = ground (
    arith,
    get_session-found_at token_hash t session_id (revoke token_hash now session_id s).1,
    void_usable t c.sub (found_at t session_id (revoke token_hash now session_id s).1)
        (revoke-void token_hash now t session_id h s),
  )
