-- ===== src/Tests.antt =====
-- Concrete configurations and collaborators, on which the modules below run the program and apply the
-- theorems.
pub mod Login
pub mod Enter
pub mod Tokens
pub mod Sessions
pub mod Rbac
pub mod Audit
pub mod Organizations
pub mod Sms
pub mod MagicLink
pub mod Mfa
pub mod Saml
pub mod Webhooks
pub mod Passwords
pub mod AuditLogger
pub mod Users
use auth_manager.Records.{Token}
use auth_manager.Base.{
  Option, ℕ, true, arith, Text, if◌then◌else◌, false, some, ◌==◌, ◌∷◌, ◌≡◌, ◌+◌, none, [], leb, ◌-◌,
  ◌*◌, nat_eq, refl, second,
}
use auth_manager.Security.Tokens.{
  TokenType, Claims, Jwt, IsSound, access, Decoded, refresh, expired_signature, decoded,
  invalid_token,
}
use auth_manager.Config.{AuthConfig, IsValid}

-- Three attempts per minute, then a lockout of 100 seconds.
abbrev pub config : AuthConfig
config = record {
  access_token_ttl_seconds = 900;
  refresh_token_ttl_days = 7;
  jwt_issuer = 0;
  jwt_audience = 0;
  jwt_clock_skew_seconds = 5;
  session_expiry_seconds = 86400;
  max_concurrent_sessions = 2;
  revoke_sessions_on_password_change = true;
  rate_limit_enabled = true;
  rate_limit_max_attempts = 3;
  rate_limit_window_seconds = 60;
  account_lockout_duration_seconds = 100;
  mfa_required = false;
  reset_token_ttl_seconds = 3600;
  magic_link_ttl_seconds = 900;
  auto_create_users = false;
}

pub config-IsValid : IsValid config
config-IsValid = record {
  access_ttl = omega arith;
  refresh_ttl = omega arith;
  clock_skew = omega arith;
  session_expiry = omega arith;
  concurrent_sessions = omega arith;
  window = omega arith;
  lockout = omega arith;
  reset_ttl = omega arith;
  magic_link_ttl = omega arith;
}

abbrev pub type_code : TokenType → ℕ
type_code access = 0
type_code refresh = 1

abbrev pub opt_code : Option Text → ℕ
opt_code none = 0
opt_code (some t) = t + 1

abbrev pub opt_of : ℕ → Option Text
opt_of n = if n == 0 then none else some (n - 1)

-- A JWT library that writes the claims out as they are.
abbrev pub plain_encode : Claims → Token
plain_encode c =
    c.sub
    ∷ type_code c.type
    ∷ c.jti
    ∷ c.iat
    ∷ c.exp
    ∷ opt_code c.iss
    ∷ opt_code c.aud
    ∷ opt_code c.session_id
    ∷ []

abbrev pub plain_decode : ℕ → Token → Decoded
plain_decode now (sub ∷ type ∷ jti ∷ iat ∷ exp ∷ iss ∷ aud ∷ session_id ∷ []) =
    if leb (exp + 5 * second) now
    then expired_signature
    else decoded (record {
      sub = sub;
      type = if type == 0 then access else refresh;
      jti = jti;
      iat = iat;
      exp = exp;
      iss = opt_of iss;
      aud = opt_of aud;
      session_id = opt_of session_id;
    })
plain_decode now _ = invalid_token

abbrev pub plain_jwt : Jwt config
plain_jwt = record { encode = plain_encode; decode = plain_decode }

type_round_trip : (type : TokenType) → (if type_code type == 0 then access else refresh) ≡ type
type_round_trip access = refl
type_round_trip refresh = refl

opt_round_trip : (o : Option Text) → opt_of (opt_code o) ≡ o
opt_round_trip none = refl
opt_round_trip (some t) = ground arith

pub plain_jwt-IsSound : IsSound config plain_jwt
plain_jwt-IsSound = record {
  round_trip = λ now c issued live iss aud. ground (
    arith,
    type_round_trip c.type,
    opt_round_trip c.iss,
    opt_round_trip c.aud,
    opt_round_trip c.session_id,
  );
  expiry = λ now c over. ground arith;
  not_empty = λ c. refl;
}
