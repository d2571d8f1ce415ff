-- ===== src/Security/Tokens.antt =====
-- tessera/utils/security.py, `class JWTTokenManager`. PyJWT's `encode` and `decode` are parameters.
use auth_manager.Base.Chars.{is_empty}
use auth_manager.Base.Errors.{
  Result, ok, err, value_error, token_error, token_invalid, token_expired, token_wrong_type,
}
use auth_manager.Records.{Token}
use auth_manager.Config.{AuthConfig, refresh_token_ttl_seconds}
use auth_manager.Base.{
  Bool, Text, false, true, ℕ, Option, none, if◌then◌else◌, ◌≤◌, ◌+◌, ◌≡◌, ◌≢◌, ◌==◌, ◌<◌, ◌*◌, some,
  second, arith, leb, nat_eq, not,
}

pub data TokenType : Type 0 where
  access refresh : TokenType

abbrev pub type_beq : TokenType → TokenType → Bool
type_beq access access = true
type_beq access refresh = false
type_beq refresh access = false
type_beq refresh refresh = true

pub record Claims : Type 0 where
  pub sub : Text
  pub type : TokenType
  pub jti : Text
  pub iat : ℕ
  pub exp : ℕ
  pub iss : Option Text
  pub aud : Option Text
  pub session_id : Option Text

-- `additional_claims`: whether one of them is a reserved claim, and the one that the program passes.
pub record Additional : Type 0 where
  pub reserved : Bool
  pub session_id : Option Text

abbrev pub no_additional : Additional
no_additional = record { reserved = false; session_id = none }

-- How `jwt.decode` ends.
pub data Decoded : Type 0 where
  decoded : Claims → Decoded
  expired_signature missing_claim invalid_token : Decoded

-- PyJWT with the manager's secret, algorithm, issuer, audience and leeway.
pub record Jwt (cfg : AuthConfig) : Type 0 where
  pub encode : Claims → Token
  pub decode : ℕ → Token → Decoded

abbrev pub given : Text → Option Text
given t = if t == 0 then none else some t

-- The documented behaviour of PyJWT that the program relies on: a token that it signed decodes to its
-- claims until it expires, with the leeway, and is reported as expired from then on.
pub record IsSound (cfg : AuthConfig) (jwt : Jwt cfg) : Type 0 where
  pub round_trip :
      (now : ℕ) (c : Claims)
      → c.iat ≤ now
      → now < c.exp + cfg.jwt_clock_skew_seconds * second
      → c.iss ≡ given cfg.jwt_issuer
      → c.aud ≡ given cfg.jwt_audience
      → jwt.decode now (jwt.encode c) ≡ decoded c
  pub expiry :
      (now : ℕ) (c : Claims)
      → c.exp + cfg.jwt_clock_skew_seconds * second ≤ now
      → jwt.decode now (jwt.encode c) ≡ expired_signature
  pub not_empty : (c : Claims) → is_empty (jwt.encode c) ≡ false

module _ (cfg : AuthConfig) (jwt : Jwt cfg) where
  abbrev pub claims_for : ℕ → Text → TokenType → ℕ → Text → Option Text → Claims
  claims_for now subject type ttl_seconds jti session_id = record {
    sub = subject;
    type = type;
    jti = jti;
    iat = now;
    exp = now + ttl_seconds * second;
    iss = given cfg.jwt_issuer;
    aud = given cfg.jwt_audience;
    session_id = session_id;
  }

  -- `_issue`; `fresh` is the random jti that stands in where none is given.
  unfoldable pub issue :
      ℕ → Text → Text → TokenType → ℕ → Option Text → Additional → Result (Token × Text)
  issue now fresh subject type ttl_seconds jti additional =
      if subject == 0
      then err value_error
      else if elim jti [ none ↦ false | some j ↦ j == 0 ]
      then err value_error
      else if additional.reserved
      then err value_error
      else let token_jti : Text = elim jti [ none ↦ fresh | some j ↦ j ] in
        ok (
          jwt.encode (claims_for now subject type ttl_seconds token_jti additional.session_id),
          token_jti,
        )

  unfoldable pub create_access_token :
      ℕ → Text → Text → Additional → Option Text → Result (Token × Text)
  unfolding issue
  create_access_token now fresh user additional jti =
      issue now fresh user access cfg.access_token_ttl_seconds jti additional

  unfoldable pub create_refresh_token : ℕ → Text → Text → Option Text → Result (Token × Text)
  unfolding issue
  create_refresh_token now fresh user jti =
      issue now fresh user refresh (refresh_token_ttl_seconds cfg) jti no_additional

  -- `validate_token`
  unfoldable pub validate_token : ℕ → Token → TokenType → Result Claims
  validate_token now token expected_type =
      if is_empty token then err (token_error token_invalid) else elim (jwt.decode now token) [
        | expired_signature ↦ err (token_error token_expired)
        | missing_claim ↦ err (token_error token_invalid)
        | invalid_token ↦ err (token_error token_invalid)
        | decoded c ↦
            if not (type_beq c.type expected_type)
            then err (token_error token_wrong_type)
            else if c.sub == 0
            then err (token_error token_invalid)
            else ok c
      ]

  -- What `validate_token` lets through has the expected type and a subject.
  pub validate_token_sound :
      (now : ℕ) (token : Token) (expected : TokenType) (c : Claims)
      → validate_token now token expected ≡ ok c
      → (jwt.decode now token ≡ decoded c) × (c.type ≡ expected) × (c.sub ≢ 0)
  unfolding validate_token
  validate_token_sound now token expected c e = ground arith

  module _ (sound : IsSound cfg jwt) where
    -- For a JWT library that is sound: a token issued for a nonempty subject without reserved
    -- claims is accepted as the type that it was issued as, with the claims that it was issued
    -- with, until its time and the leeway are over; then it is reported as expired, and before
    -- that as of the wrong type where another type is expected.
    validate-issue :
        (issued now : ℕ) (fresh subject : Text) (type expected : TokenType) (ttl : ℕ)
        (additional : Additional)
        → subject ≢ 0
        → additional.reserved ≡ false
        → issued ≤ now
        → (token : Token) (jti : Text)
        → issue issued fresh subject type ttl none additional ≡ ok (token, jti)
        → validate_token now token expected ≡ (
            if leb (issued + ttl * second + cfg.jwt_clock_skew_seconds * second) now
            then err (token_error token_expired)
            else if type_beq type expected
            then ok (claims_for issued subject type ttl fresh additional.session_id)
            else err (token_error token_wrong_type))
    unfolding issue validate_token
    validate-issue issued now fresh subject type expected ttl additional named free later token jti
          e =
        let c = claims_for issued subject type ttl fresh additional.session_id in
        let is_token : token ≡ jwt.encode c = ground arith in
        rw (is_token, sound.not_empty c)
          (ground (arith, sound.round_trip now c later, sound.expiry now c))
