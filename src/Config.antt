-- ===== src/Config.antt =====
-- tessera/config.py, `class AuthConfig`: the fields that the modelled components read. A secret or a
-- URL is a text, and a count or a duration in seconds is a natural number.
use auth_manager.Base.{ℕ, ◌<◌, Text, ◌*◌, Bool}

pub record AuthConfig : Type 0 where
  pub access_token_ttl_seconds : ℕ
  pub refresh_token_ttl_days : ℕ
  pub jwt_issuer : Text
  pub jwt_audience : Text
  pub jwt_clock_skew_seconds : ℕ
  pub session_expiry_seconds : ℕ
  pub max_concurrent_sessions : ℕ
  pub revoke_sessions_on_password_change : Bool
  pub rate_limit_enabled : Bool
  pub rate_limit_max_attempts : ℕ
  pub rate_limit_window_seconds : ℕ
  pub account_lockout_duration_seconds : ℕ
  pub mfa_required : Bool
  pub reset_token_ttl_seconds : ℕ
  pub magic_link_ttl_seconds : ℕ
  pub auto_create_users : Bool

abbrev pub refresh_token_ttl_seconds : AuthConfig → ℕ
refresh_token_ttl_seconds c = c.refresh_token_ttl_days * 86400

-- What `validate` checks of these fields.
pub record IsValid (c : AuthConfig) : Type 0 where
  pub access_ttl : 0 < c.access_token_ttl_seconds
  pub refresh_ttl : 0 < c.refresh_token_ttl_days
  pub clock_skew : 0 < c.jwt_clock_skew_seconds
  pub session_expiry : 0 < c.session_expiry_seconds
  pub concurrent_sessions : 0 < c.max_concurrent_sessions
  pub window : 0 < c.rate_limit_window_seconds
  pub lockout : 0 < c.account_lockout_duration_seconds
  pub reset_ttl : 0 < c.reset_token_ttl_seconds
  pub magic_link_ttl : 0 < c.magic_link_ttl_seconds
