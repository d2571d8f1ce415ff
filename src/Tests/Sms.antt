-- ===== src/Tests/Sms.antt =====
-- A phone number that gets the code 4, with three guesses.
use auth_manager.Cache.Laws.{entry}
use auth_manager.Sms.{check_send_rate_limit, verify_found, sent, new_record}
use auth_manager.Base.Dict.{insert, erase, lookup}
use auth_manager.Sms.Sends.{send_verification_code-verify, is_accepted}
use auth_manager.Sms.Refusals.{send_verification_code-kept, is_sent}
use auth_manager.Sms.Guesses.{record_at, guess_all, guess_all-refused}
use auth_manager.Base.Errors.{Result, ok, err, provider_error}
use auth_manager.Cache.{
  Cache, empty, incr, expire, set, set_expiry, purge_if_expired, get, is_expired, exists_any,
  drop_key, remove_key, delete,
}
use auth_manager.Sms.{
  SmsSettings, IsValidSms, send_verification_code, verify_code, check_send_rate_limit, after_send,
}
use auth_manager.Base.{
  Text, ◌+◌, arith, Option, ◌≡◌, ltb, some, ◌*◌, refl, second, ◌&&◌, ◌==◌, false, ◌∷◌, [], ◌≢◌,
  nat_eq,
}

abbrev hash : Text → Text
hash t = t + 1

abbrev same : Text → Text
same t = t

abbrev settings : SmsSettings
settings = record {
  expiration_seconds = 300;
  max_attempts = 2;
  rate_limit_window_seconds = 60;
  max_sends_per_window = 3;
}

settings-IsValidSms : IsValidSms settings
settings-IsValidSms = record {
  expiration = omega arith;
  attempts = omega arith;
  window = omega arith;
  sends = omega arith;
}

abbrev accepting : Text → Text → Result (Option Text)
accepting to message = ok (some 1)

abbrev failing : Text → Text → Result (Option Text)
failing to message = err provider_error

abbrev after_sending : Cache
after_sending = (send_verification_code hash settings same accepting same 10 4 8 empty).1

sent_code : (send_verification_code hash settings same accepting same 10 4 8 empty).0 ≡ ok (sent 1)
unfolding send_verification_code check_send_rate_limit after_send set incr expire set_expiry
    purge_if_expired is_expired exists_any empty erase insert lookup
sent_code = refl

stored_code : record_at hash settings 8 10 after_sending ≡ some (new_record hash settings 10 4)
unfolding send_verification_code check_send_rate_limit after_send set incr expire set_expiry
    purge_if_expired is_expired exists_any empty erase insert lookup entry
stored_code = refl

accepted_code : (verify_code hash settings 20 8 4 after_sending).0 ≡ ok tt
unfolding send_verification_code check_send_rate_limit after_send verify_code verify_found set get
    incr expire set_expiry purge_if_expired is_expired exists_any drop_key remove_key delete empty
    erase insert lookup
accepted_code = refl

failed_send :
    is_sent hash settings same failing same 20 30 5 8
      (omega arith)
      (send_verification_code hash settings same failing same 20 5 8 after_sending).0
    ≡ false
unfolding send_verification_code check_send_rate_limit after_send set incr expire set_expiry
    purge_if_expired is_expired exists_any empty erase insert lookup
failed_send = refl

guess_all-refused_example :
    (verify_code hash settings 40 8 4
      (guess_all hash settings 8 ((20, 5) ∷ (30, 6) ∷ []) after_sending)).0
    ≢ ok tt
guess_all-refused_example =
    guess_all-refused hash settings 8 10 40 ((20, 5) ∷ (30, 6) ∷ []) 4
      (new_record hash settings 10 4) after_sending settings-IsValidSms stored_code (omega arith)
      (omega arith, refl, (omega arith, refl, omega arith)) (omega arith)

send_verification_code-verify_example :
    is_accepted hash settings (verify_code hash settings 20 8 4 after_sending).0
    ≡ (ltb 20 (10 + 300 * second) && hash 4 == hash 4)
send_verification_code-verify_example =
    send_verification_code-verify hash settings same accepting same settings-IsValidSms 10 20 4 8
      (omega arith) 4 1 empty (omega arith) sent_code

send_verification_code-kept_example :
    record_at hash settings 8 30
      (send_verification_code hash settings same failing same 20 5 8 after_sending).1
    ≡ record_at hash settings 8 30 after_sending
send_verification_code-kept_example =
    send_verification_code-kept hash settings same failing same 20 30 5 8 (omega arith)
      after_sending settings-IsValidSms failed_send
