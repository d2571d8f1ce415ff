-- ===== src/Auth.antt =====
-- tessera/core/auth_manager.py, `class TraditionalAuthManager`: login, token rotation and logout.
-- The code outside the repository is a parameter: `token_hash` (SHA-256), the JWT library, `lower` and
-- `strip` (`str` methods), `verify` (the password hash), and the MFA manager that is passed in.
pub mod Login
pub mod Logout
pub mod Rotation
pub mod Sound
use auth_manager.Database.Sessions.{revoke_session}
use auth_manager.Base.Chars.{is_empty}
use auth_manager.Cache.Keys.{refresh_ledger_key, access_ledger_key, tokenpair_key}
use auth_manager.Security.Tokens.{
  Jwt, Additional, Claims, create_access_token, validate_token, create_refresh_token, refresh,
  access, no_additional, given,
}
use auth_manager.Cache.{Cache, set, text, delete, json}
use auth_manager.Base.{Option, Text, ℕ, some, Bool, none, if◌then◌else◌, false, ◌==◌, nat_eq, not}
use auth_manager.Database.Users.{Users}
use auth_manager.Config.{AuthConfig, refresh_token_ttl_seconds}
use auth_manager.Records.{Token, tokenpair}
use auth_manager.Base.Errors.{
  Action, pure, err, ok, ◌>>◌, Result, config_error, ◌>>=◌, call, raise_if, authentication_error,
  refresh_token_reused,
}
use auth_manager.Sessions.{Store, cached, revoke, stored}

pub record Server : Type 0 where
  pub store : Store
  pub users : Users

abbrev pub in_store : {A : Type 0} → Action Store A → Action Server A
in_store m s = let (r, x) = m s.store in (r, record s { store = x })

abbrev pub in_users : {A : Type 0} → Action Users A → Action Server A
in_users m s = let (r, u) = m s.users in (r, record s { users = u })

-- A call of the rate limiter, made only where a cache is configured.
abbrev pub limited : Action (Option Cache) (Unit {0}) → Action Server (Unit {0})
limited m s = elim s.store.cache [
  | none ↦ (ok tt, s)
  | some c ↦
      let (r, o) = m (some c) in
      (r, record s { store = record { cache = o; sessions = s.store.sessions } })
]

-- A call of the cache.
abbrev pub on_store_cache : {A : Type 0} → A → Action Cache A → Action Server A
on_store_cache d m = in_store (cached d m)

pub record TokenPair : Type 0 where
  pub access_token : Token
  pub refresh_token : Token
  pub access_jti : Text
  pub refresh_jti : Text

module _ (cfg : AuthConfig) where
  -- The three cache entries of an issued pair.
  pub record_pair : ℕ → Text → TokenPair → Action Cache (Unit {0})
  record_pair now user_id p = do
    set now (refresh_ledger_key p.refresh_jti) (text user_id) (some (refresh_token_ttl_seconds cfg))
    set now (access_ledger_key p.access_jti) (text user_id) (some cfg.access_token_ttl_seconds)
    set now (tokenpair_key user_id) (json (tokenpair p.access_jti p.refresh_jti))
        (some (refresh_token_ttl_seconds cfg))

  -- Two tokens with the jtis `a` and `b`.
  abbrev pub make_pair : Jwt cfg → ℕ → Text → Text → Text → Additional → Result TokenPair
  make_pair jwt now a b user_id additional =
      elim (create_access_token cfg jwt now a user_id additional none) [
        | err e ↦ err e
        | ok (access_token, access_jti) ↦ elim (create_refresh_token cfg jwt now b user_id none) [
          | err e ↦ err e
          | ok (refresh_token, refresh_jti) ↦ ok (record {
            access_token = access_token;
            refresh_token = refresh_token;
            access_jti = access_jti;
            refresh_jti = refresh_jti;
          })
        ]
      ]

  abbrev pub nonempty : Option Text → Option Text
  nonempty none = none
  nonempty (some t) = given t

  -- `_issue_token_pair`; an empty session id is left out of the claims.
  pub issue_token_pair :
      Option (Jwt cfg) → ℕ → Text → Text → Text → Option Text → Action Store (Option TokenPair)
  unfolding record_pair
  issue_token_pair none now a b user_id session_id = pure none
  issue_token_pair (some jwt) now a b user_id session_id = do
    p ← (λ s. (
      make_pair jwt now a b user_id (record { reserved = false; session_id = nonempty session_id }),
      s,
    ))
    cached tt (record_pair now user_id p)
    pure (some p)

  -- `refresh_token`, on a configured cache: the ledger entry is deleted before the new pair is made.
  pub rotate : Jwt cfg → ℕ → Text → Text → Claims → Action Cache TokenPair
  unfolding record_pair
  rotate jwt now a b c = do
    was_present ← call (delete now (refresh_ledger_key c.jti))
    raise_if (not was_present) (authentication_error refresh_token_reused)
    p ← (λ s. (make_pair jwt now a b c.sub no_additional, s))
    record_pair now c.sub p
    pure p

  pub refresh_token : Option (Jwt cfg) → ℕ → Text → Text → Token → Action (Option Cache) TokenPair
  unfolding rotate
  refresh_token none now a b token s = (err config_error, s)
  refresh_token (some jwt) now a b token none = (err config_error, none)
  refresh_token (some jwt) now a b token (some c) =
      elim (validate_token cfg jwt now token refresh) [
        | err e ↦ (err e, some c)
        | ok claims ↦ let (r, c') = rotate jwt now a b claims c in (r, some c')
      ]

  -- `session_id or payload.get("session_id")`
  abbrev pub first_id : Text → Option Text → Text
  first_id given none = given
  first_id given (some sid) = if given == 0 then sid else given

  -- The access token's part of `logout_user`; it gives the session id to revoke.
  abbrev pub end_token : Option (Jwt cfg) → ℕ → Token → Text → Action Store Text
  end_token none now token session_id s = (ok session_id, s)
  end_token (some jwt) now token session_id s =
      if is_empty token
      then (ok session_id, s)
      else elim (validate_token cfg jwt now token access) [
        | err e ↦ (ok session_id, s)
        | ok claims ↦ elim s.cache [
          | none ↦ (ok session_id, s)
          | some c ↦
              (do
                cached false (call (delete now (access_ledger_key claims.jti)))
                pure (first_id session_id claims.session_id))
                s
        ]
      ]

  -- The end of `logout_user`, with or without a session manager.
  abbrev pub end_session : (Token → Text) → Bool → ℕ → Text → Action Store (Unit {0})
  end_session token_hash session_manager now sid =
      if sid == 0
      then pure tt
      else if session_manager
      then (do revoke token_hash now sid; pure tt)
      else (do stored (call (revoke_session now sid)); pure tt)

  pub logout_user :
      (Token → Text) → Bool → Option (Jwt cfg) → ℕ → Token → Text → Action Store (Unit {0})
  logout_user token_hash session_manager token_manager now token session_id = do
    sid ← end_token token_manager now token session_id
    end_session token_hash session_manager now sid
