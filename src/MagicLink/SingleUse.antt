-- ===== src/MagicLink/SingleUse.antt =====
-- tessera/passwordless/magic_link.py: a token works once, whatever comes of its use.
use native.Mathlib.Nat.{le_refl}
use auth_manager.Cache.Laws.Operations.{entry-delete, entry-get}
use auth_manager.Cache.Keys.{magic_link_key, Key, key_eq_iff}
use auth_manager.Cache.Laws.{entry, entry_later, get_lem, Entry}
use auth_manager.Cache.{delete, get}
use auth_manager.Database.Users.{User, get_user_by_identifier}
use auth_manager.Records.{MagicRecord}
use auth_manager.MagicLink.{
  Url, LinkSettings, account, redeem, verify_magic_link, LinkDesk, MagicRecord, User, magic_doc,
  delete, magic_link_key, in_users, audit, link_verified,
}
use auth_manager.Base.Errors.{
  Result, err, authentication_error, magic_link_invalid, Action, pure, ◌>>◌, ◌>>=◌, after-bind,
}
use auth_manager.Base.{
  Text, ℕ, Option, some, ◌≤◌, ◌≡◌, ◌<◌, arith, none, refl, if◌then◌else◌, ◌==◌, ◌∙◌, nat_eq, false,
  ap,
}

module _ (split : Text → Result Url) (lower strip : Text → Text) (user_role : Text)
    (cfg : LinkSettings) where
  account-cache :
      (now : ℕ) (new_id email : Text) (o : Option User) (s : LinkDesk)
      → (account split lower strip user_role cfg now new_id email o s).1.cache ≡ s.cache
  unfolding account
  account-cache now new_id email none s = ground arith
  account-cache now new_id email (some u) s = refl

  -- Once there is a record, only its deletion touches the cache.
  redeem-cache :
      (now : ℕ) (new_id token : Text) (r : MagicRecord) (s : LinkDesk)
      → (redeem split lower strip user_role cfg now new_id token (some r) s).1.cache
        ≡ (delete now (magic_link_key token) s.cache).1
  unfolding redeem
  redeem-cache now new_id token r s =
      after-bind Same find finish used (λ _ _. found_same)
        (λ o _.
          after-bind Same (account split lower strip user_role cfg now new_id r.email o) close
            (find used).1 (λ _ _. account-cache now new_id r.email o (find used).1 ∙ found_same)
            (λ u _. account-cache now new_id r.email o (find used).1 ∙ found_same))
    where
      used : LinkDesk
      used = record s { cache = (delete now (magic_link_key token) s.cache).1 }

      Same : LinkDesk → Type 0
      Same s' = s'.cache ≡ used.cache

      find : Action LinkDesk (Option User)
      find = if r.email == 0 then pure none else in_users (get_user_by_identifier lower 0 r.email 0)

      close : User → Action LinkDesk (User × MagicRecord)
      close u = audit (link_verified r.email u.id) >> pure (u, r)

      finish : Option User → Action LinkDesk (User × MagicRecord)
      finish o = account split lower strip user_role cfg now new_id r.email o >>= close

      found_same : (find used).1.cache ≡ used.cache
      found_same = ground arith

  redeem-gone :
      (now t : ℕ) (new_id token : Text) (o : Option MagicRecord) (s : LinkDesk)
      → now ≤ t
      → magic_doc (entry now (magic_link_key token) s.cache).value ≡ o
      → magic_doc
          (entry t
            (magic_link_key token)
            (redeem split lower strip user_role cfg now new_id token o s).1.cache).value
        ≡ none
  unfolding redeem
  redeem-gone now t new_id token o s later is = by_record o is
    where
      K : Key
      K = magic_link_key token

      by_record :
          (o : Option MagicRecord)
          → magic_doc (entry now K s.cache).value ≡ o
          → magic_doc
              (entry t K
                (redeem split lower strip user_role cfg now new_id token o s).1.cache).value
            ≡ none
      by_record none is = ground (arith, is, entry_later now t K s.cache later)
      by_record (some r) is =
          rw (redeem-cache now new_id token r s)
            (ground (arith, entry-delete now t K K s.cache later, key_eq_iff K K))

  pub reads :
      (now : ℕ) (new_id token : Text) (s : LinkDesk)
      → 0 < token
      → verify_magic_link split lower strip user_role cfg now new_id token s
        ≡ redeem split lower strip user_role cfg now new_id token
            (magic_doc (entry now (magic_link_key token) s.cache).value)
            (record s { cache = (get now (magic_link_key token) s.cache).1 })
  unfolding verify_magic_link
  reads now new_id token s given =
      let named : (token == 0) ≡ false = ground (arith, given) in
      rw (named, ← get_lem now (magic_link_key token) s.cache) refl

  missing :
      (t : ℕ) (new_id token : Text) (s : LinkDesk)
      → 0 < token
      → magic_doc (entry t (magic_link_key token) s.cache).value ≡ none
      → (verify_magic_link split lower strip user_role cfg t new_id token s).0
        ≡ err (authentication_error magic_link_invalid)
  unfolding redeem
  missing t new_id token s given gone = rw (reads t new_id token s given, gone, redeem) refl

  -- Whatever comes of `verify_magic_link` with a token that is not empty, the next call with that token, at
  -- any later time, fails.
  pub verify_magic_link-once :
      (now t : ℕ) (new_id other_id token : Text) (s : LinkDesk)
      → now ≤ t
      → 0 < token
      → (verify_magic_link split lower strip user_role cfg t other_id token
          (verify_magic_link split lower strip user_role cfg now new_id token s).1).0
        ≡ err (authentication_error magic_link_invalid)
  verify_magic_link-once now t new_id other_id token s later given =
      missing t other_id token
        (verify_magic_link split lower strip user_role cfg now new_id token s).1 given
        (rw (reads now new_id token s given) (
          redeem-gone now t new_id token (magic_doc (entry now K s.cache).value) read later
            (ap (λ (e : Entry). magic_doc e.value) (entry-get now now K K s.cache (le_refl now)))))
    where
      K : Key
      K = magic_link_key token

      read : LinkDesk
      read = record s { cache = (get now K s.cache).1 }
