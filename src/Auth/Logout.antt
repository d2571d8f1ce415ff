-- ===== src/Auth/Logout.antt =====
-- tessera/core/auth_manager.py: what a logout ends.
use auth_manager.Sessions.Revoked.{validate_session-revoke}
use auth_manager.Sessions.Api.{validate_session}
use auth_manager.Base.Errors.{ok, Result, bind-step, bind-pure}
use auth_manager.Database.Sessions.{Table}
use auth_manager.Cache.{Cache}
use auth_manager.Sessions.{Store, revoke}
use auth_manager.Auth.{
  logout_user, Claims, Store, Cache, end_token, access, some, ok, revoke, none, false, Result,
  end_session, first_id,
}
use auth_manager.Security.Tokens.{Jwt, validate_token, Claims, access}
use auth_manager.Config.{AuthConfig}
use auth_manager.Base.{
  Text, ℕ, ◌<◌, some, ◌≤◌, ◌≡◌, arith, true, none, ap, ◌∙◌, ◌==◌, false, nat_eq, ◌⊎◌, inl, inr,
}
use auth_manager.Records.{Token}

module _ (token_hash : Token → Text) (cfg : AuthConfig) (jwt : Jwt cfg) where
  ended :
      (now : ℕ) (token : Token) (claims : Claims) (given session_id : Text) (c : Cache)
      (table : Table)
      → validate_token cfg jwt now token access ≡ ok claims
      → first_id cfg given claims.session_id ≡ session_id
      → (end_token cfg (some jwt) now token given (record { cache = some c; sessions = table })).0
        ≡ ok session_id
  unfolding validate_token
  ended now token claims given session_id c table valid names = ground arith

  logout_user-revoke :
      (now : ℕ) (token : Token) (given session_id : Text) (s : Store)
      → 0 < session_id
      → (end_token cfg (some jwt) now token given s).0 ≡ ok session_id
      → (logout_user cfg token_hash true (some jwt) now token given s).1
        ≡ (revoke token_hash now session_id (end_token cfg (some jwt) now token given s).1).1
  unfolding logout_user
  logout_user-revoke now token given session_id s named ends =
      let s' = (end_token cfg (some jwt) now token given s).1 in
      let nonzero : (session_id == 0) ≡ false = ground arith in
      ap (λ (p : Result (Unit {0}) × Store). p.1)
        (bind-step (end_token cfg (some jwt) now token given) (end_session cfg token_hash true now)
          s session_id ends)
      ∙ rw (nonzero, end_session) (bind-pure (revoke token_hash now session_id) tt s')

  -- A logout with a valid access token, on a server with a cache and a session manager, where the
  -- nonempty id of a session is given, or none is given and the token names the session: on the
  -- state that the logout leaves, `validate_session` refuses every access token that names that
  -- session, at every later time at which this token decodes.
  pub validate_session-logout_user :
      (now t : ℕ) (token other : Token) (claims others : Claims) (given session_id : Text)
      (c : Cache) (table : Table)
      → now ≤ t
      → 0 < session_id
      → validate_token cfg jwt now token access ≡ ok claims
      → ((given ≡ session_id) ⊎ (given ≡ 0) × (claims.session_id ≡ some session_id))
      → validate_token cfg jwt t other access ≡ ok others
      → others.session_id ≡ some session_id
      → (validate_session token_hash cfg jwt t other
          (logout_user cfg token_hash true
            (some jwt)
            now
            token
            given
            (record { cache = some c; sessions = table })).1).0
        ≡ ok none
  validate_session-logout_user now t token other claims others given session_id c table h named
        valid ends later names =
      let s : Store = record { cache = some c; sessions = table } in
      let end = ended now token claims given session_id c table valid (first ends) in
      ap (λ (x : Store). (validate_session token_hash cfg jwt t other x).0)
        (logout_user-revoke now token given session_id s named end)
      ∙ validate_session-revoke token_hash cfg jwt now t session_id other others
          (end_token cfg (some jwt) now token given s).1 h later names
    where
      first :
          (given ≡ session_id) ⊎ (given ≡ 0) × (claims.session_id ≡ some session_id)
          → first_id cfg given claims.session_id ≡ session_id
      first (inl e) = ground (arith, e, named)
      first (inr (none_given, own)) = ground (arith, none_given, own)
