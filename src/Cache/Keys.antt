-- ===== src/Cache/Keys.antt =====
-- The cache keys: a template of the program and the text that is formatted into it. The templates
-- differ in their fixed first part and none of these is the beginning of another, so two keys are
-- the same string exactly when template and text agree.
use auth_manager.Base.{ℕ, ◌≡◌, ◌↔◌, Text, Bool, ◌&&◌, arith, Eq, ◌==◌, true, nat_eq}

pub record Key : Type 0 where
  pub template : ℕ
  pub name : Text

abbrev pub key_eq : Key → Key → Bool
key_eq a b = a.template == b.template && a.name == b.name

pub key_eq_iff : (a b : Key) → (key_eq a b ≡ true) ↔ (a ≡ b)
key_eq_iff a b = ground arith

instance abbrev pub Key_eq : Eq Key
Key_eq = record { beq = key_eq; beq_iff = key_eq_iff }

-- utils/security.py
abbrev pub login_counter_key : Text → Key
login_counter_key identifier = record { template = 0; name = identifier }

abbrev pub lockout_key : Text → Key
lockout_key identifier = record { template = 1; name = identifier }

abbrev pub reset_key : Text → Key
reset_key token_hash = record { template = 2; name = token_hash }

-- sessions/session_manager.py
abbrev pub session_key : Text → Key
session_key session_id = record { template = 3; name = session_id }

abbrev pub user_sessions_key : Text → Key
user_sessions_key user_id = record { template = 4; name = user_id }

abbrev pub session_refresh_key : Text → Key
session_refresh_key token_hash = record { template = 5; name = token_hash }

-- core/auth_manager.py
abbrev pub refresh_ledger_key : Text → Key
refresh_ledger_key jti = record { template = 6; name = jti }

abbrev pub access_ledger_key : Text → Key
access_ledger_key jti = record { template = 7; name = jti }

abbrev pub tokenpair_key : Text → Key
tokenpair_key user_id = record { template = 8; name = user_id }

-- sms/sms_manager.py
abbrev pub sms_key : Text → Key
sms_key phone = record { template = 9; name = phone }

abbrev pub sms_rate_key : Text → Key
sms_rate_key phone = record { template = 10; name = phone }

-- mfa/mfa_setup.py
abbrev pub mfa_rate_key : Text → Key
mfa_rate_key user_id = record { template = 11; name = user_id }

abbrev pub pending_secret_key : Text → Key
pending_secret_key user_id = record { template = 12; name = user_id }

-- passwordless/magic_link.py
abbrev pub magic_link_key : Text → Key
magic_link_key token = record { template = 13; name = token }

abbrev pub magic_rate_key : Text → Key
magic_rate_key email = record { template = 14; name = email }

-- organizations/org_manager.py
abbrev pub invite_rate_key : Text → Key
invite_rate_key org_id = record { template = 15; name = org_id }

-- webhooks/webhook_manager.py; the key of the queue has no part to fill in.
abbrev pub webhook_queue_key : Key
webhook_queue_key = record { template = 16; name = 0 }

abbrev pub delivery_seen_key : Text → Key
delivery_seen_key delivery_id = record { template = 17; name = delivery_id }
