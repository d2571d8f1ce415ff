-- ===== src/Sms.antt =====
-- tessera/sms/sms_manager.py, `class SMSManager`. `digest` is SHA-256, whose hexadecimal text is never
-- empty. The random code is an argument; `body` makes the message from it, and `provider` is the SMS
-- service: it raises, or answers with a message id where it accepted the message.
pub mod Guesses
pub mod Sends
pub mod Refusals
use auth_manager.Cache.Keys.{sms_rate_key, sms_key}
use auth_manager.Records.{SmsRecord, sms}
use auth_manager.Base.Errors.{
  Action, Result, Error, err, raise, ◌>>=◌, ◌>>◌, call, pure, raise_if, code_expired, ok,
  too_many_attempts, value_error, code_invalid, provider_error,
}
use auth_manager.Cache.{Raw, Cache, json, incr, ttl, expire, delete, get, set}
use auth_manager.Base.Int.{ℤ, pos, negsuc}
use auth_manager.Base.{
  ℕ, ◌<◌, Option, Text, some, ◌+◌, if◌then◌else◌, ◌*◌, ◌==◌, second, none, ◌||◌, leb, ltb, nat_eq,
  not, ◌-◌, Bool, true, false,
}

pub record SmsSettings : Type 0 where
  pub expiration_seconds : ℕ
  pub max_attempts : ℕ
  pub rate_limit_window_seconds : ℕ
  pub max_sends_per_window : ℕ

-- What `__init__` checks.
pub record IsValidSms (cfg : SmsSettings) : Type 0 where
  pub expiration : 0 < cfg.expiration_seconds
  pub attempts : 0 < cfg.max_attempts
  pub window : 0 < cfg.rate_limit_window_seconds
  pub sends : 0 < cfg.max_sends_per_window

-- `remaining if remaining > 0 else default`
abbrev pub seconds_or : ℕ → ℤ → ℕ
seconds_or default (pos n) = if n == 0 then default else n
seconds_or default (negsuc n) = default

-- `get_json` on a state key; these keys hold nothing else.
abbrev pub sms_doc : Option Raw → Option SmsRecord
sms_doc (some (json (sms r))) = some r
sms_doc _ = none

abbrev pub too_many_sends : SmsSettings → ℕ → Text → Action Cache (Unit {0})
too_many_sends cfg now phone = do
  remaining ← call (ttl now (sms_rate_key phone))
  raise (too_many_attempts (seconds_or cfg.rate_limit_window_seconds remaining))

-- The window starts with its first message.
abbrev pub first_send : SmsSettings → ℕ → Text → ℕ → Action Cache (Unit {0})
first_send cfg now phone count =
    if count == 1
    then (do expire now (sms_rate_key phone) cfg.rate_limit_window_seconds; pure tt)
    else pure tt

-- `_check_send_rate_limit`
unfoldable pub check_send_rate_limit : SmsSettings → ℕ → Text → Action Cache (Unit {0})
check_send_rate_limit cfg now phone = do
  count ← incr now (sms_rate_key phone)
  first_send cfg now phone count
  if ltb cfg.max_sends_per_window count then too_many_sends cfg now phone else pure tt

abbrev pub is_provider_error : Error → Bool
is_provider_error provider_error = true
is_provider_error _ = false

-- `success` with the message id, or the dict of a failure.
pub data SendReport : Type 0 where
  sent : Text → SendReport
  not_sent : SendReport

module _ (digest : Text → Text) (cfg : SmsSettings) where
  abbrev pub new_record : ℕ → Text → SmsRecord
  new_record now code = record {
    code_hash = digest code;
    attempts = 0;
    expires_at = now + cfg.expiration_seconds * second;
    last_sent_at = now;
  }

  -- What follows the call of the provider. An error of the provider is caught, another one is not.
  unfoldable pub after_send : ℕ → Text → Text → Result (Option Text) → Action Cache SendReport
  after_send now phone code (err e) = if is_provider_error e then pure not_sent else raise e
  after_send now phone code (ok none) = pure not_sent
  after_send now phone code (ok (some message_id)) = do
    set now (sms_key phone) (json (sms (new_record now code))) (some cfg.expiration_seconds)
    pure (sent message_id)

  unfoldable pub send_verification_code :
      (Text → Text)
      → (Text → Text → Result (Option Text))
      → (Text → Text)
      → ℕ
      → Text
      → Text
      → Action Cache SendReport
  unfolding check_send_rate_limit after_send
  send_verification_code strip provider body now code phone = do
    raise_if (phone == 0 || strip phone == 0) value_error
    check_send_rate_limit cfg now phone
    after_send now phone code (provider phone (body code))

  unfoldable pub resend_code :
      (Text → Text)
      → (Text → Text → Result (Option Text))
      → (Text → Text)
      → ℕ
      → Text
      → Text
      → Action Cache SendReport
  unfolding send_verification_code
  resend_code strip provider body now code phone = do
    call (delete now (sms_key phone))
    send_verification_code strip provider body now code phone

  abbrev pub forget : {A : Type 0} → ℕ → Text → Error → Action Cache A
  forget now phone e = do call (delete now (sms_key phone)); raise e

  abbrev pub report_wrong : ℕ → Text → SmsRecord → Action Cache (Unit {0})
  report_wrong now phone r =
      if leb cfg.max_attempts r.attempts
      then forget now phone (too_many_attempts cfg.expiration_seconds)
      else raise (code_invalid (cfg.max_attempts - r.attempts))

  -- The branch of a code that does not match.
  unfoldable pub wrong_code : ℕ → Text → SmsRecord → Action Cache (Unit {0})
  wrong_code now phone r = do
    remaining ← call (ttl now (sms_key phone))
    let counted : SmsRecord = record r { attempts = r.attempts + 1 }
    set now (sms_key phone) (json (sms counted))
        (some (seconds_or cfg.expiration_seconds remaining))
    report_wrong now phone counted

  -- The rest of `verify_code`, with the stored record.
  unfoldable pub verify_found : ℕ → Text → Text → Option SmsRecord → Action Cache (Unit {0})
  unfolding wrong_code
  verify_found now phone code none = raise code_expired
  verify_found now phone code (some r) =
      if r.code_hash == 0
      then raise code_expired
      else if leb r.expires_at now
      then forget now phone code_expired
      else if leb cfg.max_attempts r.attempts
      then forget now phone (too_many_attempts cfg.expiration_seconds)
      else if not (digest code == r.code_hash)
      then wrong_code now phone r
      else (do call (delete now (sms_key phone)); pure tt)

  unfoldable pub verify_code : ℕ → Text → Text → Action Cache (Unit {0})
  unfolding verify_found
  verify_code now phone code = do
    raw ← call (get now (sms_key phone))
    verify_found now phone code (sms_doc raw)
