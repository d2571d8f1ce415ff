-- ===== src/Database/Saml.antt =====
-- tessera/db/memory.py: the SAML requests, the identifiers of SAML responses and the user mappings. The
-- data of a request are opaque.
pub mod Replay
-- A name id at a service provider.
use auth_manager.Base.Errors.{Action, ◌>>◌, raise_if, value_error, modify, ◌>>=◌, call}
use auth_manager.Base.Dict.{Dict, lookup, insert, erase}
use auth_manager.Base.{
  Text, Bool, ◌≡◌, Eq, ℕ, ◌==◌, true, Option, ◌&&◌, ◌↔◌, some, none, arith, if◌then◌else◌, false,
  nat_eq, leb, ◌||◌, ◌+◌, ◌*◌, second,
}

pub record NameKey : Type 0 where
  pub name_id : Text
  pub sp_entity_id : Text

abbrev pub name_eq : NameKey → NameKey → Bool
name_eq a b = a.name_id == b.name_id && a.sp_entity_id == b.sp_entity_id

pub name_eq_iff : (a b : NameKey) → (name_eq a b ≡ true) ↔ (a ≡ b)
name_eq_iff a b = ground arith

instance abbrev pub NameKey_eq : Eq NameKey
NameKey_eq = record { beq = name_eq; beq_iff = name_eq_iff }

-- A request has its deadline; the entry of a response has none where it stays for good.
pub record SamlTables : Type 0 where
  pub requests : Dict Text (Text × ℕ)
  pub response_ids : Dict Text (Option ℕ)
  pub user_mappings : Dict NameKey Text

-- `_saml_request_expired`
unfoldable pub saml_request_expired : ℕ → Text → SamlTables → Bool × SamlTables
saml_request_expired now request_id s = elim (lookup request_id s.requests) [
  | none ↦ (true, s)
  | some (d, expires) ↦
      if leb expires now
      then (true, record s { requests = erase request_id s.requests })
      else (false, s)
]

unfoldable pub save_saml_request : ℕ → Text → Text → ℕ → Action SamlTables (Unit {0})
save_saml_request now request_id d ttl_seconds = do
  raise_if (request_id == 0) value_error
  raise_if (ttl_seconds == 0) value_error
  modify (λ (s : SamlTables). record s {
    requests = insert request_id (d, now + ttl_seconds * second) s.requests;
  })

-- The request that is taken out, if it is still there.
abbrev pub pop_request : Text → Option (Text × ℕ) → SamlTables → Option Text × SamlTables
pop_request request_id none s = (none, s)
pop_request request_id (some (d, expires)) s =
    (some d, record s { requests = erase request_id s.requests })

unfoldable pub consume_saml_request : ℕ → Text → SamlTables → Option Text × SamlTables
unfolding saml_request_expired
consume_saml_request now request_id s =
    let (expired, s') = saml_request_expired now request_id s in
    elim expired [
      | true ↦ (none, s')
      | false ↦ pop_request request_id (lookup request_id s'.requests) s'
    ]

-- `_saml_response_expired`
unfoldable pub saml_response_expired : ℕ → Text → SamlTables → Bool × SamlTables
saml_response_expired now response_id s = elim (lookup response_id s.response_ids) [
  | none ↦ (true, s)
  | some none ↦ (false, s)
  | some (some expires) ↦
      if leb expires now
      then (true, record s { response_ids = erase response_id s.response_ids })
      else (false, s)
]

unfoldable pub save_saml_response_id : ℕ → Text → ℕ → Action SamlTables (Unit {0})
save_saml_response_id now response_id ttl_seconds = do
  raise_if (response_id == 0) value_error
  raise_if (ttl_seconds == 0) value_error
  modify (λ (s : SamlTables). record s {
    response_ids = insert response_id (some (now + ttl_seconds * second)) s.response_ids;
  })

-- A response that is fresh is recorded for good.
abbrev pub record_fresh : Text → Bool → SamlTables → Bool × SamlTables
record_fresh response_id false s = (false, s)
record_fresh response_id true s =
    (true, record s { response_ids = insert response_id none s.response_ids })

unfoldable pub check_and_record_saml_response_id : ℕ → Text → Action SamlTables Bool
unfolding saml_response_expired
check_and_record_saml_response_id now response_id = do
  raise_if (response_id == 0) value_error
  expired ← call (saml_response_expired now response_id)
  call (record_fresh response_id expired)

unfoldable pub save_saml_user_mapping : Text → Text → Text → Action SamlTables (Unit {0})
save_saml_user_mapping name_id sp_entity_id user_id = do
  raise_if (name_id == 0 || sp_entity_id == 0 || user_id == 0) value_error
  modify (λ (s : SamlTables). record s {
    user_mappings =
        insert (record { name_id = name_id; sp_entity_id = sp_entity_id }) user_id s.user_mappings;
  })

abbrev get_saml_user_mapping : Text → Text → SamlTables → Option Text
get_saml_user_mapping name_id sp_entity_id s =
    lookup (record { name_id = name_id; sp_entity_id = sp_entity_id }) s.user_mappings
