-- ===== src/Sms/Sends.antt =====
-- tessera/sms/sms_manager.py: what a message leaves behind, and that a code works once.
use auth_manager.Cache.Laws.Operations.{entry-delete, set_lem, entry-set}
use auth_manager.Cache.Keys.{sms_key, key_eq_iff}
use auth_manager.Cache.Laws.{entry, absent, get_lem}
use auth_manager.Sms.Guesses.{wrong_code-refused, record_at}
use auth_manager.Cache.{Cache, get, Raw, json}
use auth_manager.Records.{SmsRecord, sms}
use auth_manager.Base.Errors.{
  Result, ok, err, code_expired, Action, bind-ok, raise_if, value_error, ◌>>◌, bind-step,
}
use auth_manager.Sms.{
  SmsSettings, verify_found, Result, SmsRecord, Cache, verify_code, sms_key, sms_doc, IsValidSms,
  after_send, sent, new_record, send_verification_code, SendReport, check_send_rate_limit,
}
use auth_manager.Base.{
  Text, ℕ, Option, Bool, false, true, some, ◌≡◌, not, arith, ◌==◌, ◌&&◌, ltb, none, nat_eq, ◌≤◌,
  refl, ◌∙◌, ap, if◌then◌else◌, ◌+◌, ◌*◌, second, ◌<◌, ◌||◌,
}

module _ (digest : Text → Text) (cfg : SmsSettings) where
  -- The answer of `verify_code`, read off the record.
  abbrev pub answer : ℕ → Text → Option SmsRecord → Bool
  answer now code none = false
  answer now code (some r) =
      not (r.code_hash == 0)
      && ltb now r.expires_at
      && ltb r.attempts cfg.max_attempts
      && digest code == r.code_hash

  abbrev pub is_accepted : Result (Unit {0}) → Bool
  is_accepted (ok _) = true
  is_accepted (err _) = false

  answer_lem :
      (now : ℕ) (phone code : Text) (o : Option SmsRecord) (c : Cache)
      → is_accepted (verify_found digest cfg now phone code o c).0 ≡ answer now code o
  unfolding verify_found
  answer_lem now phone code none c = refl
  answer_lem now phone code (some r) c = ground (arith, wrong_code-refused digest cfg phone now r c)

  verify_code-answer :
      (now : ℕ) (phone code : Text) (c : Cache)
      → is_accepted (verify_code digest cfg now phone code c).0
        ≡ answer now code (record_at digest cfg phone now c)
  unfolding verify_code
  verify_code-answer now phone code c =
      answer_lem now phone code (sms_doc (get now (sms_key phone) c).0)
        (get now (sms_key phone) c).1
      ∙ ap (λ (v : Option Raw). answer now code (sms_doc v)) (get_lem now (sms_key phone) c)

  used :
      (now t : ℕ) (phone code : Text) (o : Option SmsRecord) (c : Cache)
      → now ≤ t
      → (verify_found digest cfg now phone code o c).0 ≡ ok tt
      → entry t (sms_key phone) (verify_found digest cfg now phone code o c).1 ≡ absent
  unfolding verify_found
  used now t phone code none c later e = absurd (ground arith)
  used now t phone code (some r) c later e =
      let K = sms_key phone in
      ground (
        arith,
        wrong_code-refused digest cfg phone now r c,
        entry-delete now t K K c later,
        key_eq_iff K K,
      )

  verified-gone :
      (now t : ℕ) (phone code : Text) (c : Cache)
      → now ≤ t
      → (verify_code digest cfg now phone code c).0 ≡ ok tt
      → entry t (sms_key phone) (verify_code digest cfg now phone code c).1 ≡ absent
  unfolding verify_code
  verified-gone now t phone code c later accepted =
      used now t phone code (sms_doc (get now (sms_key phone) c).0) (get now (sms_key phone) c).1
        later accepted

  none_sent :
      (t : ℕ) (phone again : Text) (c : Cache)
      → entry t (sms_key phone) c ≡ absent
      → (verify_code digest cfg t phone again c).0 ≡ err code_expired
  unfolding verify_code verify_found
  none_sent t phone again c gone = rw (get_lem t (sms_key phone) c, gone, verify_found) refl

  -- A code is accepted at most once: after a success, the next call for the phone, at any later time and
  -- with any text, finds no code.
  verify_code-once :
      (now t : ℕ) (phone code again : Text) (c : Cache)
      → now ≤ t
      → (verify_code digest cfg now phone code c).0 ≡ ok tt
      → (verify_code digest cfg t phone again (verify_code digest cfg now phone code c).1).0
        ≡ err code_expired
  verify_code-once now t phone code again c later accepted =
      none_sent t phone again (verify_code digest cfg now phone code c).1
        (verified-gone now t phone code c later accepted)

  module _ (strip : Text → Text) (provider : Text → Text → Result (Option Text))
      (body : Text → Text) (valid : IsValidSms cfg) (now t : ℕ) (code phone : Text)
      (later : now ≤ t) where
    stored :
        (o : Result (Option Text)) (id : Text) (c : Cache)
        → (after_send digest cfg now phone code o c).0 ≡ ok (sent id)
        → record_at digest cfg phone t (after_send digest cfg now phone code o c).1 ≡ (
            if ltb t (now + cfg.expiration_seconds * second)
            then some (new_record digest cfg now code)
            else none)
    unfolding after_send
    stored (err e) id c done = absurd (ground arith)
    stored (ok none) id c done = absurd (ground arith)
    stored (ok (some m)) id c done =
        let K = sms_key phone in
        ground (
          arith,
          set_lem now K c (json (sms (new_record digest cfg now code))) cfg.expiration_seconds
              valid.expiration,
          entry-set now t K K c later (json (sms (new_record digest cfg now code)))
              cfg.expiration_seconds valid.expiration,
          key_eq_iff K K,
        )

    last_step :
        (id : Text) (c : Cache)
        → (send_verification_code digest cfg strip provider body now code phone c).0 ≡ ok (sent id)
        → (c' : Cache) × (send_verification_code digest cfg strip provider body now code phone c
            ≡ after_send digest cfg now phone code (provider phone (body code)) c')
    unfolding send_verification_code
    last_step id c done =
        let (u, checked, limited) =
          bind-ok checks (λ _. check_send_rate_limit cfg now phone >> send) c (sent id) done in
        let (v, counted, stored) =
          bind-ok (check_send_rate_limit cfg now phone) (λ _. send) (checks c).1 (sent id)
            limited in
        (
          (check_send_rate_limit cfg now phone (checks c).1).1,
          bind-step checks (λ _. check_send_rate_limit cfg now phone >> send) c u checked
              ∙ bind-step (check_send_rate_limit cfg now phone) (λ _. send) (checks c).1 v counted,
        )
      where
        checks : Action Cache (Unit {0})
        checks = raise_if (phone == 0 || strip phone == 0) value_error

        send : Action Cache SendReport
        send = after_send digest cfg now phone code (provider phone (body code))

    -- For a valid configuration, a hash that is not empty and a message that the provider accepted: until
    -- `expiration_seconds` after the message, the next call is_accepted the code that was sent, and no text
    -- with another hash; from then on it is_accepted none.
    pub send_verification_code-verify :
        (guess id : Text) (c : Cache)
        → 0 < digest code
        → (send_verification_code digest cfg strip provider body now code phone c).0 ≡ ok (sent id)
        → is_accepted
            (verify_code digest cfg t phone guess
              (send_verification_code digest cfg strip provider body now code phone c).1).0
          ≡ (ltb t (now + cfg.expiration_seconds * second) && digest guess == digest code)
    send_verification_code-verify guess id c named done =
        let (c', same) = last_step id c done in
        let o = provider phone (body code) in
        let left : record_at digest cfg phone t
              (send_verification_code digest cfg strip provider body now code phone c).1
            ≡ (if ltb t (now + cfg.expiration_seconds * second)
                then some (new_record digest cfg now code)
                else none) =
          rw same (stored o id c' (rw (← same) done)) in
        verify_code-answer t phone guess
          (send_verification_code digest cfg strip provider body now code phone c).1
        ∙ ap (answer t guess) left
        ∙ ground (arith, valid.attempts)
