-- ===== src/Auth/Rotation.antt =====
-- tessera/core/auth_manager.py: a refresh token is rotated once.
use auth_manager.Records.{tokenpair, Token}
use auth_manager.Base.Errors.{err, authentication_error, refresh_token_reused, ok, Result}
use auth_manager.Cache.Keys.{refresh_ledger_key, access_ledger_key, tokenpair_key, key_eq_iff}
use auth_manager.Cache.Laws.{is_present, entry, delete_lem, absent}
use auth_manager.Cache.Laws.Operations.{set_lem, entry-set, entry-delete}
use auth_manager.Cache.{Cache, Raw, text, set, json, delete}
use auth_manager.Base.{ℕ, Text, ◌≤◌, ◌≢◌, ◌≡◌, false, arith, some, ◌<◌, ◌∙◌, ap, refl}
use auth_manager.Auth.{
  rotate, Text, TokenPair, Claims, Cache, refresh_ledger_key, record_pair, false, err,
  authentication_error, refresh_token_reused, access_ledger_key, text, refresh_token_ttl_seconds,
  set, some, json, tokenpair, tokenpair_key, create_access_token, delete, refresh_token,
  create_refresh_token, Token, make_pair, validate_token, no_additional, refresh, ok, Result,
}
use auth_manager.Security.Tokens.{
  Jwt, Claims, create_access_token, create_refresh_token, validate_token, no_additional, refresh,
}
use auth_manager.Config.{AuthConfig, IsValid, refresh_token_ttl_seconds}

module _ (cfg : AuthConfig) (jwt : Jwt cfg) where
  -- A refresh token whose jti is not in the ledger is refused, and no pair is recorded.
  rotate_reused :
      (now : ℕ) (a b : Text) (claims : Claims) (c : Cache)
      → is_present (entry now (refresh_ledger_key claims.jti) c) ≡ false
      → (rotate cfg jwt now a b claims c).0 ≡ err (authentication_error refresh_token_reused)
  unfolding rotate
  rotate_reused now a b claims c gone =
      ground (arith, delete_lem now (refresh_ledger_key claims.jti) c)

  entry-record_pair :
      (now t : ℕ) (user_id jti : Text) (p : TokenPair) (c : Cache)
      → now ≤ t
      → IsValid cfg
      → jti ≢ p.refresh_jti
      → entry t (refresh_ledger_key jti) (record_pair cfg now user_id p c).1
        ≡ entry t (refresh_ledger_key jti) c
  unfolding record_pair
  entry-record_pair now t user_id jti p c h valid other =
      let K = refresh_ledger_key jti in
      let R = refresh_ledger_key p.refresh_jti in
      let A = access_ledger_key p.access_jti in
      let v : Raw = text user_id in
      let days = refresh_token_ttl_seconds cfg in
      let c₁ = (set now R v (some days) c).1 in
      let c₂ = (set now A v (some cfg.access_token_ttl_seconds) c₁).1 in
      let pair : Raw = json (tokenpair p.access_jti p.refresh_jti) in
      let refresh_ttl : 0 < days = ground (arith, valid.refresh_ttl) in
      ground (
        arith,
        set_lem now R c v days refresh_ttl,
        set_lem now A c₁ v cfg.access_token_ttl_seconds valid.access_ttl,
        entry-set now t K R c h v days refresh_ttl,
        entry-set now t K A c₁ h v cfg.access_token_ttl_seconds valid.access_ttl,
        entry-set now t K (tokenpair_key user_id) c₂ h pair days refresh_ttl,
        key_eq_iff K R,
      )

  make_pair-refresh_jti :
      (now : ℕ) (a b user_id : Text) (p : TokenPair)
      → make_pair cfg jwt now a b user_id no_additional ≡ ok p
      → p.refresh_jti ≡ b
  unfolding create_access_token create_refresh_token
  make_pair-refresh_jti now a b user_id p e = ground arith

  deleted :
      (now t : ℕ) (jti : Text) (c : Cache)
      → now ≤ t
      → entry t (refresh_ledger_key jti) (delete now (refresh_ledger_key jti) c).1 ≡ absent
  deleted now t jti c h =
      let K = refresh_ledger_key jti in entry-delete now t K K c h ∙ ground (arith, key_eq_iff K K)

  -- Once used, a refresh token has no ledger entry, whatever came of the call.
  entry-rotate :
      (now t : ℕ) (a b : Text) (claims : Claims) (c : Cache)
      → now ≤ t
      → IsValid cfg
      → claims.jti ≢ b
      → entry t (refresh_ledger_key claims.jti) (rotate cfg jwt now a b claims c).1 ≡ absent
  unfolding rotate
  entry-rotate now t a b claims c h valid other =
      go (make_pair cfg jwt now a b claims.sub no_additional) refl
    where
      gone :
          entry t (refresh_ledger_key claims.jti) (delete now (refresh_ledger_key claims.jti) c).1
          ≡ absent
      gone = deleted now t claims.jti c h

      go :
          (r : Result TokenPair)
          → make_pair cfg jwt now a b claims.sub no_additional ≡ r
          → entry t (refresh_ledger_key claims.jti) (rotate cfg jwt now a b claims c).1 ≡ absent
      go (err e) made = ground (arith, gone)
      go (ok p) made =
          let fresh = make_pair-refresh_jti now a b claims.sub p made in
          let differs : claims.jti ≢ p.refresh_jti = λ same. other (same ∙ fresh) in
          ground (
            arith,
            gone,
            entry-record_pair now t claims.sub claims.jti p
                (delete now (refresh_ledger_key claims.jti) c).1 h valid differs,
          )

  -- With a valid configuration: once `refresh_token` was called with a token on a server with a
  -- cache, whatever came of it, every later call with that token is refused as reused, where the
  -- token still decodes to the same claims and the jti that was fresh for the first call is not
  -- the token's.
  pub refresh_token-once :
      (now t : ℕ) (a b a' b' : Text) (token : Token) (claims : Claims) (c : Cache)
      → now ≤ t
      → IsValid cfg
      → claims.jti ≢ b
      → validate_token cfg jwt now token refresh ≡ ok claims
      → validate_token cfg jwt t token refresh ≡ ok claims
      → (refresh_token cfg
          (some jwt)
          t
          a'
          b'
          token
          (refresh_token cfg (some jwt) now a b token (some c)).1).0
        ≡ err (authentication_error refresh_token_reused)
  unfolding refresh_token
  refresh_token-once now t a b a' b' token claims c h valid other first later = ground (
    arith,
    first,
    later,
    rotate_reused t a' b' claims (rotate cfg jwt now a b claims c).1
        (ap is_present (entry-rotate now t a b claims c h valid other)),
  )
