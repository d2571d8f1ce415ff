-- ===== src/Security/Reset/SingleUse.antt =====
-- tessera/utils/security.py: a reset token works once, and only while it lives.
use auth_manager.Cache.Keys.{reset_key, key_eq_iff}
use auth_manager.Cache.Laws.{entry, absent, get_lem, aged, Entry}
use auth_manager.Cache.Laws.Operations.{entry-delete, set_lem, entry-set}
use auth_manager.Database.Users.{User, get_user_by_identifier, identify}
use auth_manager.Records.{ResetRecord, reset}
use auth_manager.Base.Errors.{Result, ok}
use auth_manager.Cache.{Cache, get, json}
use auth_manager.Config.{AuthConfig}
use auth_manager.Security.Reset.{
  consume_reset_token, Cache, Result, ResetRecord, Users, Desk, matching, reset_doc,
  request_password_reset, reset_key,
}
use auth_manager.Base.{
  Text, ℕ, ◌<◌, ◌≡◌, ◌≤◌, some, none, if◌then◌else◌, arith, ltb, ◌+◌, ◌*◌, second, ◌∙◌, ap, ◌==◌,
  ◌&&◌, false, nat_eq,
}

module _ (digest : Text → Text) where
  consume_reset_token_lem :
      (now : ℕ) (token : Text) (c : Cache)
      → 0 < token
      → (consume_reset_token digest now token c).0
        ≡ ok (matching digest token (reset_doc (entry now (reset_key (digest token)) c).value))
  unfolding consume_reset_token
  consume_reset_token_lem now token c given =
      ground (arith, get_lem now (reset_key (digest token)) c)

  consumed_gone :
      (now t : ℕ) (token : Text) (c : Cache) (r : ResetRecord)
      → now ≤ t
      → 0 < token
      → matching digest token (reset_doc (entry now (reset_key (digest token)) c).value) ≡ some r
      → entry t (reset_key (digest token)) (consume_reset_token digest now token c).1 ≡ absent
  unfolding consume_reset_token
  consumed_gone now t token c r h given found =
      let K = reset_key (digest token) in
      ground (arith, get_lem now K c, entry-delete now t K K (get now K c).1 h)

  nonempty :
      (now : ℕ) (token : Text) (c : Cache) (r : ResetRecord)
      → (consume_reset_token digest now token c).0 ≡ ok (some r)
      → 0 < token
  unfolding consume_reset_token
  nonempty now token c r e = ground arith

  -- A reset token is consumed at most once: after one `consume_reset_token` that hands out the
  -- record, every later one finds nothing.
  pub consume_reset_token-once :
      (now t : ℕ) (token : Text) (c : Cache) (r : ResetRecord)
      → now ≤ t
      → (consume_reset_token digest now token c).0 ≡ ok (some r)
      → (consume_reset_token digest t token (consume_reset_token digest now token c).1).0 ≡ ok none
  consume_reset_token-once now t token c r h e =
      let given = nonempty now token c r e in
      consume_reset_token_lem t token _ given
      ∙ ap (λ (x : Entry). ok (matching digest token (reset_doc x.value)))
          (consumed_gone now t token c r h given
            (ground (arith, consume_reset_token_lem now token c given)))

  -- Who asks with no identifier is not found.
  named :
      (lower : Text → Text) (email username phone : Text) (u : User) (users : Users)
      → (get_user_by_identifier lower username email phone users).0 ≡ ok (some u)
      → (email == 0 && username == 0 && phone == 0) ≡ false
  unfolding get_user_by_identifier identify
  named lower email username phone u users found = ground arith

  requested :
      (lower : Text → Text) (cfg : AuthConfig) (send : Text → Text → Result (Unit {0})) (now t : ℕ)
      (token email username phone : Text) (u : User) (s : Desk)
      → now ≤ t
      → 0 < cfg.reset_token_ttl_seconds
      → (get_user_by_identifier lower username email phone s.users).0 ≡ ok (some u)
      → 0 < u.email
      → entry t
          (reset_key (digest token))
          (request_password_reset digest lower cfg send now token email username phone s).1.cache
        ≡ aged t (record {
          value = some (
              json (
                reset (record {
                  user_id = u.id;
                  email = u.email;
                  token_hash = digest token;
                  created_at = now;
                })));
          items = none;
          fields = none;
          deadline = some (now + cfg.reset_token_ttl_seconds * second);
        })
  unfolding request_password_reset
  requested lower cfg send now t token email username phone u s h live found mail =
      let K = reset_key (digest token) in
      ground (
        arith,
        named lower email username phone u s.users found,
        set_lem now K s.cache
            (json (
              reset (record {
                user_id = u.id;
                email = u.email;
                token_hash = digest token;
                created_at = now;
              })))
            cfg.reset_token_ttl_seconds,
        entry-set now t K K s.cache h
            (json (
              reset (record {
                user_id = u.id;
                email = u.email;
                token_hash = digest token;
                created_at = now;
              })))
            cfg.reset_token_ttl_seconds,
        key_eq_iff K K,
      )

  -- For a known account with an email address, a nonempty fresh token and a positive lifetime:
  -- what `request_password_reset` stores, `consume_reset_token` returns for that token until the
  -- lifetime is over, and nothing from then on.
  pub request_password_reset-consume :
      (lower : Text → Text) (cfg : AuthConfig) (send : Text → Text → Result (Unit {0})) (now t : ℕ)
      (token email username phone : Text) (u : User) (s : Desk)
      → now ≤ t
      → 0 < token
      → 0 < cfg.reset_token_ttl_seconds
      → (get_user_by_identifier lower username email phone s.users).0 ≡ ok (some u)
      → 0 < u.email
      → (consume_reset_token digest t token
          (request_password_reset digest lower cfg send now token email username phone s).1.cache).0
        ≡ ok (
            if ltb t (now + cfg.reset_token_ttl_seconds * second)
            then some (record {
              user_id = u.id;
              email = u.email;
              token_hash = digest token;
              created_at = now;
            })
            else none)
  request_password_reset-consume lower cfg send now t token email username phone u s h given live
        found mail =
      consume_reset_token_lem t token _ given
      ∙ ap (λ (x : Entry). ok (matching digest token (reset_doc x.value)))
          (requested lower cfg send now t token email username phone u s h live found mail)
      ∙ ground arith
