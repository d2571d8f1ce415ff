-- ===== src/Records.antt =====
-- The records that the components hand to the cache (as JSON, `set_json`) and to the database.
use auth_manager.Base.Chars.{Chars}
use auth_manager.Base.{ℕ, Text, Bool, true, false, Option, none, if◌then◌else◌}
use auth_manager.Base.Dict.{Dict}

-- An encoded JWT; the empty one is no token.
abbrev pub Token : Type 0
Token = Chars

-- sessions/session_manager.py: the `status` of a stored session.
pub data Status : Type 0 where
  active revoked : Status

abbrev pub is_active_status : Status → Bool
is_active_status active = true
is_active_status revoked = false

-- sessions/session_manager.py, `class Session`.
pub record Session : Type 0 where
  pub id : Text
  pub user_id : Text
  pub device_id : Text
  pub access_token : Token
  pub refresh_token : Token
  pub created_at : ℕ
  pub expires_at : ℕ
  pub last_active : ℕ
  pub ip_address : Option Text
  pub user_agent : Option Text
  pub metadata : Dict Text Text
  pub is_revoked : Bool

-- The dict that `to_dict` writes; the database adds `revoked_at`.
pub record SessionDoc : Type 0 where
  pub id : Text
  pub user_id : Text
  pub device_id : Text
  pub access_token : Token
  pub refresh_token : Token
  pub created_at : ℕ
  pub expires_at : ℕ
  pub last_active : ℕ
  pub ip_address : Option Text
  pub user_agent : Option Text
  pub metadata : Dict Text Text
  pub status : Status
  pub revoked_at : Option ℕ

abbrev pub to_dict : Session → SessionDoc
to_dict s = record {
  id = s.id;
  user_id = s.user_id;
  device_id = s.device_id;
  access_token = s.access_token;
  refresh_token = s.refresh_token;
  created_at = s.created_at;
  expires_at = s.expires_at;
  last_active = s.last_active;
  ip_address = s.ip_address;
  user_agent = s.user_agent;
  metadata = s.metadata;
  status = if s.is_revoked then revoked else active;
  revoked_at = none;
}

abbrev pub status_revoked : Status → Bool
status_revoked active = false
status_revoked revoked = true

abbrev pub from_dict : SessionDoc → Session
from_dict d = record {
  id = d.id;
  user_id = d.user_id;
  device_id = d.device_id;
  access_token = d.access_token;
  refresh_token = d.refresh_token;
  created_at = d.created_at;
  expires_at = d.expires_at;
  last_active = d.last_active;
  ip_address = d.ip_address;
  user_agent = d.user_agent;
  metadata = d.metadata;
  is_revoked = status_revoked d.status;
}

-- utils/security.py: what `request_password_reset` stores.
pub record ResetRecord : Type 0 where
  pub user_id : Text
  pub email : Text
  pub token_hash : Text
  pub created_at : ℕ

-- sms/sms_manager.py: what `send_verification_code` stores.
pub record SmsRecord : Type 0 where
  pub code_hash : Text
  pub attempts : ℕ
  pub expires_at : ℕ
  pub last_sent_at : ℕ

-- passwordless/magic_link.py: what `send_magic_link` stores.
pub record MagicRecord : Type 0 where
  pub email : Text
  pub redirect_url : Option Text
  pub metadata : Dict Text Text
  pub created_at : ℕ

pub data Document : Type 0 where
  session : SessionDoc → Document
  reset : ResetRecord → Document
  sms : SmsRecord → Document
  magic : MagicRecord → Document
  -- the jtis of the access and the refresh token
  tokenpair : Text → Text → Document
  -- mfa/mfa_setup.py: the pending secret, with its time
  pending_secret : Text → ℕ → Document
