-- ===== src/Auth/Sound.antt =====
-- tessera/core/auth_manager.py: who a login lets in.
use auth_manager.Security.RateLimit.{clear_login_failures, enforce_login_rate_limit}
use auth_manager.Sessions.{Store}
use auth_manager.Database.Users.{User, get_user_by_identifier}
use auth_manager.Sessions.Api.{Fresh}
use auth_manager.Cache.{Cache}
use auth_manager.Auth.{Server, Cache, limited, Users, Store, some, ok, raise_if, in_users, in_store}
use auth_manager.Base.Errors.{Action, ok, raise_if, value_error, bind-ok, ◌>>◌, ◌>>=◌}
use auth_manager.Auth.Login.{
  Credentials, complete_login, authenticate_password, login_user, Response, is_usable, enter,
  normalize_identifier, mfa_gate, sanitize_user,
}
use auth_manager.Security.Tokens.{Jwt}
use auth_manager.Config.{AuthConfig}
use auth_manager.Records.{Token}
use auth_manager.Base.{
  false, Text, Bool, Option, ℕ, ◌≡◌, some, arith, true, Option-cases, inl, ◌==◌, inr, ◌||◌, ◌∙◌,
  nat_eq, ap, sym, refl, [],
}

module _ (lower strip : Text → Text) (verify : Text → Text → Bool) (token_hash : Token → Text)
    (cfg : AuthConfig) (session_jwt token_manager : Option (Jwt cfg))
    (mfa_manager : Option (ℕ → Credentials → Action Server (Unit {0}))) where
  complete_login-user :
      (now : ℕ) (fresh : Fresh) (a b : Text) (u : User) (r : Response) (s : Store)
      → (complete_login lower strip verify token_hash cfg session_jwt token_manager mfa_manager now
          fresh a b u s).0
        ≡ ok r
      → r.user ≡ sanitize_user u
  unfolding complete_login
  complete_login-user now fresh a b u r s e = ground arith

  usable_user :
      (password : Text) (o : Option User) (u : User)
      → is_usable (authenticate_password verify password o) ≡ some u
      → (o ≡ some u) × (u.is_active ≡ true) × (verify password u.hashed_password ≡ true)
  unfolding authenticate_password
  usable_user password o u e = ground arith

  checked-users :
      (wrong : Bool) (s : Server) → (raise_if {S = Server} wrong value_error s).1.users ≡ s.users
  checked-users true s = refl
  checked-users false s = refl

  limited-users :
      (m : Action (Option Cache) (Unit {0})) (s : Server) → (limited m s).1.users ≡ s.users
  limited-users m s = ground arith

  -- Who enters was found, is active and has the matching password.
  enter-user :
      (now : ℕ) (identifier : Text) (fresh : Fresh) (a b : Text) (given : Credentials)
      (found : Option User) (r : Response) (s : Server)
      → (enter lower strip verify token_hash cfg session_jwt token_manager mfa_manager now
          identifier fresh a b given found s).0
        ≡ ok r
      → (u : User) × (is_usable (authenticate_password verify given.password found) ≡ some u)
        × (r.user ≡ sanitize_user u)
  enter-user now identifier fresh a b given found r s e =
      elim (Option-cases (is_usable (authenticate_password verify given.password found))) [
        | inl refused ↦ absurd (ground arith)
        | inr (u, let_in) ↦
            let gate =
              mfa_gate lower strip verify token_hash cfg session_jwt token_manager mfa_manager now
                identifier given u in
            let clear : Action Server (Unit {0}) =
              limited (clear_login_failures cfg now identifier) in
            let complete =
              complete_login lower strip verify token_hash cfg session_jwt token_manager mfa_manager
                now fresh a b u in
            let (x, e₁, e₂) =
              bind-ok gate (λ _. clear >> in_store complete) s r (rw (let_in, enter) at e) in
            let (y, e₃, e₄) = bind-ok clear (λ _. in_store complete) (gate s).1 r e₂ in
            let same = complete_login-user now fresh a b u r (clear (gate s).1).1.store e₄ in
            (u, let_in, same)
      ]

  -- A login that is let through: the identifiers name an active user of the table, whose stored hash
  -- the password matches, and the response holds that user without the password hash and the MFA
  -- secrets.
  pub login_user_sound :
      (now : ℕ) (fresh : Fresh) (a b : Text) (given : Credentials) (r : Response) (s : Server)
      → (login_user lower strip verify token_hash cfg session_jwt token_manager mfa_manager now
          fresh a b given s).0
        ≡ ok r
      → (u : User) × ((get_user_by_identifier lower given.username given.email given.phone
            s.users).0
          ≡ ok (some u))
        × (u.is_active ≡ true)
        × (verify given.password u.hashed_password ≡ true)
        × (r.user ≡ record u { hashed_password = 0; mfa_secret = 0; mfa_backup_codes = [] })
  unfolding login_user sanitize_user
  login_user_sound now fresh a b given r s e =
      let identifier = normalize_identifier lower strip given.username given.email given.phone in
      let check : Action Server (Unit {0}) =
        raise_if (given.password == 0 || identifier == 0) value_error in
      let limit : Action Server (Unit {0}) =
        limited (enforce_login_rate_limit cfg now identifier) in
      let find : Action Server (Option User) =
        in_users (get_user_by_identifier lower given.username given.email given.phone) in
      let go_in =
        enter lower strip verify token_hash cfg session_jwt token_manager mfa_manager now identifier
          fresh a b given in
      let (x, e₁, e₂) = bind-ok check (λ _. limit >> (find >>= go_in)) s r e in
      let (y, e₃, e₄) = bind-ok limit (λ _. find >>= go_in) (check s).1 r e₂ in
      let (found, e₅, e₆) = bind-ok find go_in (limit (check s).1).1 r e₄ in
      let (u, let_in, same_user) = enter-user now identifier fresh a b given found r _ e₆ in
      let (there, active, matches) = usable_user given.password found u let_in in
      let look = λ (us : Users).
        (get_user_by_identifier lower given.username given.email given.phone us).0 in
      let same : (limit (check s).1).1.users ≡ s.users =
        limited-users (enforce_login_rate_limit cfg now identifier) (check s).1
        ∙ checked-users (given.password == 0 || identifier == 0) s in
      (u, ap look (sym same) ∙ e₅ ∙ ap ok there, active, matches, same_user)
