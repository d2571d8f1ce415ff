-- ===== src/Sms/Guesses.antt =====
-- tessera/sms/sms_manager.py: how many codes can be tried.
use native.Mathlib.Nat.{le_refl}
use auth_manager.Base.Errors.{Error, after-bind, too_many_attempts, code_expired, ok}
use auth_manager.Cache.Laws.Operations.{entry-delete, entry-set, entry-get}
use auth_manager.Base.Int.{ℤ, pos, negsuc}
use auth_manager.Cache.Keys.{sms_key, key_eq_iff}
use auth_manager.Cache.Laws.{entry, entry_later, Entry, get_lem}
use auth_manager.Records.{SmsRecord, sms}
use auth_manager.Cache.{Cache, delete, set, json, ttl, get}
use auth_manager.Base.{
  Text, ℕ, Option, ◌≤◌, ◌≡◌, arith, ◌==◌, some, false, ◌+◌, nat_eq, ◌<◌, none, Bool-cases, leb, inl,
  inr, refl, ◌≢◌, ap, ◌∙◌, sym, List, length, ◌∷◌, [], suc,
}
use auth_manager.Sms.{
  sms_doc, Text, SmsSettings, verify_code, Cache, SmsRecord, sms_key, ℤ, seconds_or, wrong_code,
  verify_found, Error, forget, report_wrong, IsValidSms,
}

module _ (digest : Text → Text) (cfg : SmsSettings) (phone : Text) where
  -- The record of the phone at a time.
  abbrev pub record_at : ℕ → Cache → Option SmsRecord
  record_at t c = sms_doc (entry t (sms_key phone) c).value

  -- No code of hash `h` is live, or the attempts on it leave `n` at most.
  pub Left : Text → ℕ → ℕ → Cache → Type 0
  Left h t n c =
      (r : SmsRecord)
      → record_at t c ≡ some r
      → (r.code_hash ≡ h) × (cfg.max_attempts ≤ r.attempts + n)

  Left-later : (h : Text) (now t n : ℕ) (c : Cache) → now ≤ t → Left h now n c → Left h t n c
  unfolding Left
  Left-later h now t n c later left r found =
      left r (ground (arith, found, entry_later now t (sms_key phone) c))

  Left-found :
      (h : Text) (t n : ℕ) (c : Cache) (r : SmsRecord)
      → Left h t n c
      → record_at t c ≡ some r
      → (r.code_hash ≡ h) × (cfg.max_attempts ≤ r.attempts + n)
  unfolding Left
  Left-found h t n c r left found = left r found

  Left-start :
      (t n : ℕ) (c : Cache) (r : SmsRecord)
      → record_at t c ≡ some r
      → cfg.max_attempts ≤ n
      → Left r.code_hash t n c
  unfolding Left
  Left-start t n c r found enough r' found' =
      let same : r ≡ r' = ground (arith, found, found') in rw (← same) (refl, omega (arith, enough))

  gone-Left :
      (h : Text) (now t n : ℕ) (c : Cache) → now ≤ t → Left h t n (delete now (sms_key phone) c).1
  unfolding Left
  gone-Left h now t n c later r found = absurd (
      ground (
        arith,
        found,
        entry-delete now t (sms_key phone) (sms_key phone) c later,
        key_eq_iff (sms_key phone) (sms_key phone),
      ))

  seconds_or-pos : (default : ℕ) (z : ℤ) → 0 < default → 0 < seconds_or default z
  seconds_or-pos default (pos n) h = ground arith
  seconds_or-pos default (negsuc n) h = h

  -- What is written with a deadline is what is found, while it is.
  stored-Left :
      (h : Text) (now t n ttl : ℕ) (r : SmsRecord) (c : Cache)
      → now ≤ t
      → 0 < ttl
      → r.code_hash ≡ h
      → cfg.max_attempts ≤ r.attempts + n
      → Left h t n (set now (sms_key phone) (json (sms r)) (some ttl) c).1
  unfolding Left
  stored-Left h now t n ttl r c later alive same bound r' found =
      let K = sms_key phone in
      let there = entry-set now t K K c later (json (sms r)) ttl alive in
      let is_r : r ≡ r' = ground (arith, found, there, key_eq_iff K K) in rw (← is_r) (same, bound)

  module _ (h : Text) (now t n : ℕ) (later : now ≤ t) (live : 0 < cfg.expiration_seconds) where
    forget-Left :
        (e : Error) (c : Cache) → Left h t n (forget digest cfg {A = Unit {0}} now phone e c).1
    forget-Left e c = gone-Left h now t n c later

    wrong_code-Left :
        (r : SmsRecord) (c : Cache)
        → r.code_hash ≡ h
        → cfg.max_attempts ≤ r.attempts + (suc n)
        → Left h t n (wrong_code digest cfg now phone r c).1
    unfolding wrong_code
    wrong_code-Left r c same bound =
        after-bind (Left h t n) (set now (sms_key phone) (json (sms counted)) (some ttl_left))
          (λ _. report_wrong digest cfg now phone counted) c1 (λ _ _. stored)
          (λ _ _. elim (Bool-cases (leb cfg.max_attempts (r.attempts + 1))) [
            | inl last ↦ rw last (forget-Left (too_many_attempts cfg.expiration_seconds) _)
            | inr more ↦ rw more stored
          ])
      where
        c1 : Cache
        c1 = (ttl now (sms_key phone) c).1

        counted : SmsRecord
        counted = record r { attempts = r.attempts + 1 }

        ttl_left : ℕ
        ttl_left = seconds_or cfg.expiration_seconds (ttl now (sms_key phone) c).0

        stored : Left h t n (set now (sms_key phone) (json (sms counted)) (some ttl_left) c1).1
        stored =
            stored-Left h now t n ttl_left counted c1 later
              (seconds_or-pos cfg.expiration_seconds (ttl now (sms_key phone) c).0 live) same
              (omega (arith, bound))

    verify_none-Left : (code : Text) (c : Cache) → record_at now c ≡ none → Left h t n c
    unfolding Left
    verify_none-Left code c is r found =
        absurd (ground (arith, found, is, entry_later now t (sms_key phone) c))

    verify_found-Left :
        (code : Text) (o : Option SmsRecord) (c : Cache)
        → 0 < h
        → (digest code == h) ≡ false
        → record_at now c ≡ o
        → ((r : SmsRecord)
            → o ≡ some r
            → (r.code_hash ≡ h) × (cfg.max_attempts ≤ r.attempts + (suc n)))
        → Left h t n (verify_found digest cfg now phone code o c).1
    unfolding verify_found
    verify_found-Left code none c named wrong is left = verify_none-Left code c is
    verify_found-Left code (some r) c named wrong is left =
        let (same, bound) = left r refl in
        let hashed : (r.code_hash == 0) ≡ false = ground (arith, same) in
        let differs : (digest code == r.code_hash) ≡ false = ground (arith, same, wrong) in
        elim (Bool-cases (leb r.expires_at now)) [
          | inl over ↦ rw (hashed, over, verify_found) (forget-Left code_expired c)
          | inr on ↦ elim (Bool-cases (leb cfg.max_attempts r.attempts)) [
            | inl spent ↦
                rw (hashed, on, spent, verify_found)
                  (forget-Left (too_many_attempts cfg.expiration_seconds) c)
            | inr some_left ↦
                rw (hashed, on, some_left, differs, verify_found) (wrong_code-Left r c same bound)
          ]
        ]

    -- A guess that does not match leaves one attempt less.
    verify_code-Left :
        (code : Text) (c : Cache)
        → 0 < h
        → (digest code == h) ≡ false
        → Left h now (suc n) c
        → Left h t n (verify_code digest cfg now phone code c).1
    unfolding verify_code
    verify_code-Left code c named wrong left =
        let K = sms_key phone in
        let c1 = (get now K c).1 in
        let is : record_at now c1 ≡ sms_doc (get now K c).0 =
          ap (λ (e : Entry). sms_doc e.value) (entry-get now now K K c (le_refl now))
          ∙ ap sms_doc (sym (get_lem now K c)) in
        verify_found-Left code (sms_doc (get now K c).0) c1 named wrong is (λ r found.
          Left-found h now (suc n) c r left (ap sms_doc (sym (get_lem now K c)) ∙ found))

  pub wrong_code-refused :
      (now : ℕ) (r : SmsRecord) (c : Cache) → (wrong_code digest cfg now phone r c).0 ≢ ok tt
  unfolding wrong_code
  wrong_code-refused now r c accepted = ground arith

  -- What an accepted code says of the record.
  pub accepted-record :
      (now : ℕ) (code : Text) (o : Option SmsRecord) (c : Cache)
      → (verify_found digest cfg now phone code o c).0 ≡ ok tt
      → (r : SmsRecord) × (o ≡ some r) × (r.attempts < cfg.max_attempts)
  unfolding verify_found
  accepted-record now code none c accepted = absurd (ground arith)
  accepted-record now code (some r) c accepted =
      (r, refl, ground (arith, wrong_code-refused now r c))

  -- No attempt is left: no code is accepted.
  spent_code :
      (h : Text) (now : ℕ) (code : Text) (c : Cache)
      → Left h now 0 c
      → (verify_code digest cfg now phone code c).0 ≢ ok tt
  unfolding verify_code
  spent_code h now code c left accepted =
      let K = sms_key phone in
      let (r, found, room) =
        accepted-record now code (sms_doc (get now K c).0) (get now K c).1 accepted in
      let bound = Left-found h now 0 c r left (ap sms_doc (sym (get_lem now K c)) ∙ found) in
      omega (arith, bound.1, room)

  -- Guesses with the times at which they are made.
  abbrev pub guess_all : List (ℕ × Text) → Cache → Cache
  guess_all [] c = c
  guess_all ((now, code) ∷ rest) c = guess_all rest (verify_code digest cfg now phone code c).1

  -- The times do not run backwards, and no guess has the hash.
  abbrev pub WrongFrom : Text → ℕ → List (ℕ × Text) → ℕ → Type 0
  WrongFrom h now [] end = now ≤ end
  WrongFrom h now ((at, code) ∷ rest) end =
      (now ≤ at) × ((digest code == h) ≡ false) × WrongFrom h at rest end

  guess_all-Left :
      (h : Text) (now end : ℕ) (guesses : List (ℕ × Text)) (c : Cache)
      → 0 < cfg.expiration_seconds
      → 0 < h
      → WrongFrom h now guesses end
      → Left h now (length guesses) c
      → Left h end 0 (guess_all guesses c)
  guess_all-Left h now end [] c live named wrong left = Left-later h now end 0 c wrong left
  guess_all-Left h now end ((at, code) ∷ rest) c live named (here, differs, wrong) left =
      guess_all-Left h at end rest (verify_code digest cfg at phone code c).1 live named wrong (
        verify_code-Left h at at (length rest) (le_refl at) live code c named differs
          (Left-later h now at (suc (length rest)) c here left))

  -- For a valid configuration and a stored code whose hash is not empty: after as many wrong guesses as
  -- `max_attempts` allows, or more, made at times that do not run backwards, no code is accepted for
  -- the phone, the right one included.
  pub guess_all-refused :
      (now end : ℕ) (guesses : List (ℕ × Text)) (code : Text) (r : SmsRecord) (c : Cache)
      → IsValidSms cfg
      → record_at now c ≡ some r
      → 0 < r.code_hash
      → WrongFrom r.code_hash now guesses end
      → cfg.max_attempts ≤ length guesses
      → (verify_code digest cfg end phone code (guess_all guesses c)).0 ≢ ok tt
  guess_all-refused now end guesses code r c valid found named wrong enough =
      spent_code r.code_hash end code (guess_all guesses c) (
        guess_all-Left r.code_hash now end guesses c valid.expiration named wrong
          (Left-start now (length guesses) c r found enough))
