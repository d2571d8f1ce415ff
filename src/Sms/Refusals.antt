-- ===== src/Sms/Refusals.antt =====
-- tessera/sms/sms_manager.py: a message that is refused or fails leaves the pending code alone.
use auth_manager.Records.{sms}
use auth_manager.Sms.Guesses.{record_at}
use auth_manager.Cache.Laws.Operations.{entry-expire_ne, entry-ttl, entry-incr_ne, set_lem}
use auth_manager.Cache.Laws.{entry, Entry}
use auth_manager.Cache.{Cache, incr, json}
use auth_manager.Cache.Keys.{key_eq, sms_key, sms_rate_key}
use auth_manager.Base.Errors.{Result, Action, err, pure, ◌>>◌, after-bind, ok, bind-step}
use auth_manager.Base.{
  Text, ℕ, ◌≤◌, Option, ◌≡◌, false, if◌then◌else◌, arith, ltb, ◌∙◌, Bool-cases, inl, inr, Bool,
  some, true, none, refl, ◌==◌, ◌||◌, ap, nat_eq, sym,
}
use auth_manager.Sms.{
  SmsSettings, Result, check_send_rate_limit, Cache, first_send, too_many_sends, SendReport,
  after_send, send_verification_code, IsValidSms, sent, sms, new_record, sms_doc,
}
use auth_manager.Sms.{not_sent, sent}

module _ (cfg : SmsSettings) (now t : ℕ) (phone : Text) (later : now ≤ t) where
  other_key : key_eq (sms_key phone) (sms_rate_key phone) ≡ false
  other_key = ground arith

  first_send-kept :
      (n : ℕ) (c : Cache)
      → entry t (sms_key phone) (first_send cfg now phone n c).1 ≡ entry t (sms_key phone) c
  first_send-kept n c =
      let step =
        entry-expire_ne now t (sms_key phone) (sms_rate_key phone) c later
          cfg.rate_limit_window_seconds other_key in
      ground (arith, step)

  too_many_sends-kept :
      (c : Cache)
      → entry t (sms_key phone) (too_many_sends cfg now phone c).1 ≡ entry t (sms_key phone) c
  too_many_sends-kept c = entry-ttl now t (sms_key phone) (sms_rate_key phone) c later

  pub check_send_rate_limit-kept :
      (c : Cache)
      → entry t (sms_key phone) (check_send_rate_limit cfg now phone c).1
        ≡ entry t (sms_key phone) c
  unfolding check_send_rate_limit
  check_send_rate_limit-kept c =
      let counted = entry-incr_ne now t (sms_key phone) (sms_rate_key phone) c later other_key in
      after-bind Same (incr now (sms_rate_key phone)) rest c (λ _ _. counted)
        (λ n _.
          let c' = (incr now (sms_rate_key phone) c).1 in
          after-bind Same (first_send cfg now phone n) (λ _. over n) c'
            (λ _ _. first_send-kept n c' ∙ counted)
            (λ _ _. elim (Bool-cases (ltb cfg.max_sends_per_window n)) [
              | inl many ↦ rw many (too_many_sends-kept _ ∙ first_send-kept n c' ∙ counted)
              | inr few ↦ rw few (first_send-kept n c' ∙ counted)
            ]))
    where
      Same : Cache → Type 0
      Same c' = entry t (sms_key phone) c' ≡ entry t (sms_key phone) c

      over : ℕ → Action Cache (Unit {0})
      over n = if ltb cfg.max_sends_per_window n then too_many_sends cfg now phone else pure tt

      rest : ℕ → Action Cache (Unit {0})
      rest n = first_send cfg now phone n >> over n

module _ (digest : Text → Text) (cfg : SmsSettings) (strip : Text → Text)
    (provider : Text → Text → Result (Option Text)) (body : Text → Text) (now t : ℕ)
    (code phone : Text) (later : now ≤ t) where
  abbrev pub is_sent : Result SendReport → Bool
  is_sent (ok (sent id)) = true
  is_sent (ok not_sent) = false
  is_sent (err e) = false

  after_send-kept :
      (o : Result (Option Text)) (c : Cache)
      → IsValidSms cfg
      → is_sent (after_send digest cfg now phone code o c).0 ≡ false
      → (after_send digest cfg now phone code o c).1 ≡ c
  unfolding after_send
  after_send-kept (err e) c valid failed = ground arith
  after_send-kept (ok none) c valid failed = refl
  after_send-kept (ok (some id)) c valid failed = absurd (
      ground (
        arith,
        failed,
        set_lem now (sms_key phone) c (json (sms (new_record digest cfg now code)))
            cfg.expiration_seconds valid.expiration,
      ))

  -- For a valid configuration: a call that does not report success, be it refused by the rate limit,
  -- for an empty phone number or by the provider, leaves the code that was sent before as it was.
  pub send_verification_code-kept :
      (c : Cache)
      → IsValidSms cfg
      → is_sent (send_verification_code digest cfg strip provider body now code phone c).0 ≡ false
      → record_at digest cfg phone t
          (send_verification_code digest cfg strip provider body now code phone c).1
        ≡ record_at digest cfg phone t c
  unfolding send_verification_code
  send_verification_code-kept c valid failed = elim (Bool-cases no_phone) [
    | inl empty ↦ rw empty refl
    | inr given ↦ rw given (
        after-bind Kept (check_send_rate_limit cfg now phone) (λ _. send) c (λ _ _. same)
          (λ u is.
            let ended = bind-step (check_send_rate_limit cfg now phone) (λ _. send) c u is in
            rw
              (after_send-kept (provider phone (body code)) checked valid (
                ap (λ (p : Result SendReport × Cache). is_sent p.0) (sym ended)
                ∙ rw given at failed))
              same))
  ]
    where
      no_phone : Bool
      no_phone = phone == 0 || strip phone == 0

      send : Action Cache SendReport
      send = after_send digest cfg now phone code (provider phone (body code))

      checked : Cache
      checked = (check_send_rate_limit cfg now phone c).1

      same : record_at digest cfg phone t checked ≡ record_at digest cfg phone t c
      same =
          ap (λ (e : Entry). sms_doc e.value) (check_send_rate_limit-kept cfg now t phone later c)

      Kept : Cache → Type 0
      Kept c' = record_at digest cfg phone t c' ≡ record_at digest cfg phone t c
