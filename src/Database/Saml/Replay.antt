-- ===== src/Database/Saml/Replay.antt =====
-- tessera/db/memory.py: a SAML response is fresh once, and a SAML request is answered once.
-- The calls on the tables, with the clock.
use auth_manager.Base.Errors.{ok}
use auth_manager.Base.Dict.{lookup, lookup-insert, erase, lookup-erase}
use auth_manager.Database.Saml.{
  SamlTables, save_saml_request, consume_saml_request, lookup, save_saml_response_id,
  saml_request_expired, check_and_record_saml_response_id, save_saml_user_mapping,
  saml_response_expired, record_fresh,
}
use auth_manager.Base.{
  ℕ, List, Text, Bool, ◌∷◌, ◌==◌, true, ◌≡◌, [], false, not, some, ◌&&◌, none, nat_eq, arith, ◌+◌,
  ◌*◌, second, ◌<◌, Option, refl, Bool-cases, leb, inr, inl, if◌then◌else◌,
}

pub data SamlCall : Type 0 where
  saves_request : ℕ → Text → Text → ℕ → SamlCall
  consumes_request : ℕ → Text → SamlCall
  saves_response : ℕ → Text → ℕ → SamlCall
  checks_response : ℕ → Text → SamlCall
  maps_user : Text → Text → Text → SamlCall

abbrev pub run_saml : SamlCall → SamlTables → SamlTables
run_saml (saves_request now request_id d ttl) s = (save_saml_request now request_id d ttl s).1
run_saml (consumes_request now request_id) s = (consume_saml_request now request_id s).1
run_saml (saves_response now response_id ttl) s = (save_saml_response_id now response_id ttl s).1
run_saml (checks_response now response_id) s =
    (check_and_record_saml_response_id now response_id s).1
run_saml (maps_user name_id sp user_id) s = (save_saml_user_mapping name_id sp user_id s).1

abbrev pub run_all : List SamlCall → SamlTables → SamlTables
run_all [] s = s
run_all (c ∷ cs) s = run_all cs (run_saml c s)

-- A call that gives the entry of a response a lifetime.
abbrev pub limits_response : Text → SamlCall → Bool
limits_response id (saves_response now response_id ttl) = response_id == id
limits_response id (saves_request now request_id d ttl) = false
limits_response id (consumes_request now request_id) = false
limits_response id (checks_response now response_id) = false
limits_response id (maps_user name_id sp user_id) = false

abbrev pub none_limits : Text → List SamlCall → Bool
none_limits id [] = true
none_limits id (c ∷ cs) = not (limits_response id c) && none_limits id cs

-- The entry that stays.
abbrev Recorded : Text → SamlTables → Type 0
Recorded id s = lookup id s.response_ids ≡ some none

-- The test of a response, by its entry.
abbrev judged : ℕ → Text → SamlTables → Option (Option ℕ) → Bool × SamlTables
judged now id s none = (true, s)
judged now id s (some none) = (false, s)
judged now id s (some (some expires)) =
    if leb expires now
    then (true, record s { response_ids = erase id s.response_ids })
    else (false, s)

expired-judged :
    (now : ℕ) (id : Text) (s : SamlTables) (o : Option (Option ℕ))
    → lookup id s.response_ids ≡ o
    → saml_response_expired now id s ≡ judged now id s o
unfolding saml_response_expired
expired-judged now id s none is = rw (is, saml_response_expired) refl
expired-judged now id s (some none) is = rw (is, saml_response_expired) refl
expired-judged now id s (some (some expires)) is = rw (is, saml_response_expired) refl

judged-Recorded :
    (id response_id : Text) (now : ℕ) (s : SamlTables) (o : Option (Option ℕ))
    → lookup response_id s.response_ids ≡ o
    → Recorded id s
    → Recorded id
        (record_fresh response_id (judged now response_id s o).0 (judged now response_id s o).1).1
judged-Recorded id response_id now s none is h =
    ground (
      arith,
      h,
      is,
      nat_eq.beq_iff id response_id,
      lookup-insert id response_id none s.response_ids,
    )
judged-Recorded id response_id now s (some none) is h = h
judged-Recorded id response_id now s (some (some expires)) is h =
    elim (Bool-cases (leb expires now)) [
      | inr on ↦ rw on h
      | inl over ↦ rw over (
          ground (
            arith,
            h,
            is,
            nat_eq.beq_iff id response_id,
            lookup-insert id response_id none (erase response_id s.response_ids),
            lookup-erase id response_id s.response_ids,
          ))
    ]

-- Another check leaves it, and so does one of the same response.
check-Recorded :
    (id response_id : Text) (now : ℕ) (s : SamlTables)
    → Recorded id s
    → Recorded id (check_and_record_saml_response_id now response_id s).1
unfolding check_and_record_saml_response_id
check-Recorded id response_id now s h = elim (Bool-cases (response_id == 0)) [
  | inl empty ↦ rw empty h
  | inr named ↦
      rw (named, expired-judged now response_id s (lookup response_id s.response_ids) refl)
        (judged-Recorded id response_id now s (lookup response_id s.response_ids) refl h)
]

call-Recorded :
    (id : Text) (c : SamlCall) (s : SamlTables)
    → limits_response id c ≡ false
    → Recorded id s
    → Recorded id (run_saml c s)
unfolding save_saml_request consume_saml_request saml_request_expired save_saml_response_id
    check_and_record_saml_response_id saml_response_expired save_saml_user_mapping
call-Recorded id (saves_request now request_id d ttl) s other h = ground (arith, h)
call-Recorded id (consumes_request now request_id) s other h = ground (arith, h)
call-Recorded id (saves_response now response_id ttl) s other h = ground (
  arith,
  h,
  other,
  nat_eq.beq_iff response_id id,
  nat_eq.beq_iff id response_id,
  lookup-insert id response_id (some (now + ttl * second)) s.response_ids,
)
call-Recorded id (checks_response now response_id) s other h = check-Recorded id response_id now s h
call-Recorded id (maps_user name_id sp user_id) s other h = ground (arith, h)

all-Recorded :
    (id : Text) (cs : List SamlCall) (s : SamlTables)
    → none_limits id cs ≡ true
    → Recorded id s
    → Recorded id (run_all cs s)
all-Recorded id [] s others h = h
all-Recorded id (c ∷ cs) s others h =
    all-Recorded id cs (run_saml c s) (ground (arith, others))
      (call-Recorded id c s (ground (arith, others)) h)

fresh-Recorded :
    (now : ℕ) (id : Text) (s : SamlTables)
    → (check_and_record_saml_response_id now id s).0 ≡ ok true
    → Recorded id (check_and_record_saml_response_id now id s).1
unfolding check_and_record_saml_response_id
fresh-Recorded now id s fresh = elim (Bool-cases (id == 0)) [
  | inl empty ↦ absurd (ground (arith, fresh, empty))
  | inr named ↦ rw named (
      recorded (saml_response_expired now id s).0 (saml_response_expired now id s).1
        (ground (arith, rw named at fresh)))
]
  where
    recorded :
        (b : Bool) (s' : SamlTables)
        → (record_fresh id b s').0 ≡ true
        → Recorded id (record_fresh id b s').1
    recorded false s' e = absurd (ground (arith, e))
    recorded true s' e =
        ground (arith, nat_eq.beq_iff id id, lookup-insert id id none s'.response_ids)

nonempty_id :
    (now : ℕ) (id : Text) (s : SamlTables)
    → (check_and_record_saml_response_id now id s).0 ≡ ok true
    → 0 < id
unfolding check_and_record_saml_response_id
nonempty_id now id s fresh = ground arith

replayed :
    (now : ℕ) (id : Text) (s : SamlTables)
    → Recorded id s
    → 0 < id
    → (check_and_record_saml_response_id now id s).0 ≡ ok false
unfolding check_and_record_saml_response_id saml_response_expired
replayed now id s h named =
    let given : (id == 0) ≡ false = ground (arith, named) in
    rw (given, h, saml_response_expired) refl

-- A SAML response that was found fresh is a replay ever after: whatever calls on the SAML tables come in
-- between, at whatever times, save those that give the entry of that response a lifetime.
pub check_and_record_saml_response_id-once :
    (now t : ℕ) (id : Text) (cs : List SamlCall) (s : SamlTables)
    → (check_and_record_saml_response_id now id s).0 ≡ ok true
    → none_limits id cs ≡ true
    → (check_and_record_saml_response_id t id
        (run_all cs (check_and_record_saml_response_id now id s).1)).0
      ≡ ok false
check_and_record_saml_response_id-once now t id cs s fresh others =
    replayed t id (run_all cs (check_and_record_saml_response_id now id s).1)
      (all-Recorded id cs (check_and_record_saml_response_id now id s).1 others
        (fresh-Recorded now id s fresh))
      (nonempty_id now id s fresh)
