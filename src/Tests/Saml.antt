-- ===== src/Tests/Saml.antt =====
-- The response 5, checked twice with other calls in between.
use auth_manager.Base.Errors.{ok}
use auth_manager.Base.Dict.{lookup}
use auth_manager.Database.Saml.Replay.{
  SamlCall, run_all, saves_response, checks_response, consumes_request,
  check_and_record_saml_response_id-once, maps_user,
}
use auth_manager.Base.{List, [], ◌≡◌, ◌∷◌, true, false, refl}
use auth_manager.Database.Saml.{
  SamlTables, check_and_record_saml_response_id, saml_response_expired,
}

abbrev no_tables : SamlTables
no_tables = record { requests = []; response_ids = []; user_mappings = [] }

abbrev between : List SamlCall
between =
    saves_response 20 6 100 ∷ checks_response 30 5 ∷ consumes_request 40 5 ∷ maps_user 1 2 3 ∷ []

fresh_5 : (check_and_record_saml_response_id 10 5 no_tables).0 ≡ ok true
unfolding check_and_record_saml_response_id saml_response_expired lookup
fresh_5 = refl

check_and_record_saml_response_id-once_example :
    (check_and_record_saml_response_id 50 5
      (run_all between (check_and_record_saml_response_id 10 5 no_tables).1)).0
    ≡ ok false
check_and_record_saml_response_id-once_example =
    check_and_record_saml_response_id-once 10 50 5 between no_tables fresh_5 refl
