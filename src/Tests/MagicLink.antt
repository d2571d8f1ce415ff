-- ===== src/Tests/MagicLink.antt =====
-- A site at one host, and an account with the address 9.
use auth_manager.Base.Dict.{lookup, erase, insert}
use auth_manager.MagicLink.{check_send_rate_limit, issue, record_send}
use auth_manager.MagicLink.Redirects.{validate_redirect_url-allowed, IsConfigured}
use auth_manager.MagicLink.Sent.{send_magic_link-verify}
use auth_manager.MagicLink.SingleUse.{verify_magic_link-once}
use auth_manager.Cache.{
  empty, set, get, incr, expire, set_expiry, purge_if_expired, is_expired, exists_any,
}
use auth_manager.Base.Errors.{
  Result, err, ok, authentication_error, magic_link_invalid, value_error,
}
use auth_manager.Database.Users.{User, get_user_by_identifier, identify}
use auth_manager.MagicLink.{
  LinkSettings, LinkDesk, verify_magic_link, validate_redirect_url, send_magic_link, allowed_hosts,
  Url,
}
use auth_manager.Base.{Text, false, true, ◌≡◌, none, ◌∷◌, [], ◌<◌, some, arith, refl, nat_eq, ◌⊎◌}

abbrev same : Text → Text
same t = t

abbrev parsed : Text → Result Url
parsed url = ok (record { is_http = true; netloc = url })

abbrev settings : LinkSettings
settings = record {
  default_redirect_url = 0;
  base_url = 50;
  magic_link_ttl_seconds = 600;
  auto_create_users = false;
}

abbrev account_of : User
account_of = record {
  id = 8;
  email = 9;
  username = 0;
  phone = 0;
  hashed_password = 78;
  role = 3;
  is_active = true;
  mfa_enabled = false;
  mfa_secret = 0;
  mfa_backup_codes = [];
  created_at = 0;
  updated_at = 0;
}

abbrev desk : LinkDesk
desk = record {
  cache = empty;
  users = record {
    by_id = (8, account_of) ∷ [];
    by_email = (9, 8) ∷ [];
    by_username = [];
    by_phone = [];
  };
  audit = [];
}

verify_magic_link-once_example :
    (verify_magic_link parsed same same 3 settings 20 31 70
      (verify_magic_link parsed same same 3 settings 10 30 70 desk).1).0
    ≡ err (authentication_error magic_link_invalid)
verify_magic_link-once_example =
    verify_magic_link-once parsed same same 3 settings 10 20 30 31 70 desk (omega arith)
      (omega arith)

validate_redirect_url-allowed_example :
    (u : Url) × (parsed 50 ≡ ok u)
    × (u.is_http ≡ true)
    × (0 < u.netloc)
    × (IsConfigured parsed same settings (same u.netloc)
        ⊎ ((h : Text) → ¬ IsConfigured parsed same settings h))
unfolding validate_redirect_url allowed_hosts
validate_redirect_url-allowed_example =
    validate_redirect_url-allowed parsed same settings 50 50 refl

-- A link to another host is refused.
other_host : validate_redirect_url parsed same settings 51 ≡ err value_error
unfolding validate_redirect_url allowed_hosts
other_host = refl

link_is_sent : (send_magic_link parsed same same 3 settings none 10 70 9 50 [] desk).0 ≡ ok false
unfolding send_magic_link issue validate_redirect_url allowed_hosts check_send_rate_limit
    record_send set get incr expire set_expiry purge_if_expired is_expired exists_any empty erase
    insert lookup
link_is_sent = refl

checked_redirect : validate_redirect_url parsed same settings 50 ≡ ok (some 50)
unfolding validate_redirect_url allowed_hosts
checked_redirect = refl

known_account : (get_user_by_identifier same 0 9 0 desk.users).0 ≡ ok (some account_of)
unfolding get_user_by_identifier identify lookup
known_account = refl

send_magic_link-verify_example :
    (verify_magic_link parsed same same 3 settings 20 31 70
      (send_magic_link parsed same same 3 settings none 10 70 9 50 [] desk).1).0
    ≡ ok (account_of, record { email = 9; redirect_url = some 50; metadata = []; created_at = 10 })
send_magic_link-verify_example =
    send_magic_link-verify parsed same same 3 settings none 10 20 70 [] (omega arith) (omega arith)
      9 50 31 (some 50) desk false account_of link_is_sent checked_redirect (omega arith)
      (omega arith) known_account (omega arith)
