-- ===== src/Tests/Passwords.antt =====
-- The default policy on a few passwords.
use auth_manager.Passwords.Lists.{
  common_passwords_top1000, sequential_patterns, all_words, split_words,
}
use auth_manager.Passwords.Validated.{Passes, leaked, validate_password-Meets}
use auth_manager.Passwords.Accepted.{Meets}
use auth_manager.Passwords.Strength.{
  calculate_strength_score, very_strong, strong, IsStrong, calculate_strength_score-le,
}
use auth_manager.Base.Dict.{lookup}
use auth_manager.Base.{true, ℕ, false, [], Bool, some, length, ◌≡◌, ◌∷◌, ◌↔◌, ◌≤◌, ◌≢◌, inr, refl}
use auth_manager.Base.Chars.{Chars, codes, lower, starts_with}
use auth_manager.Passwords.{
  PasswordPolicy, is_ascii_digit, compromised, check_common_password, check_sequential_chars,
  check_repeated_chars, check_username_in_password,
}
use auth_manager.Passwords.Breaches.{
  Provider, BreachCache, validate_password, check_breached, from_cache, ask, breach_errors,
}

abbrev default_policy : PasswordPolicy
default_policy = record {
  min_length = 12;
  max_length = 128;
  require_uppercase = true;
  require_lowercase = true;
  require_numbers = true;
  require_special_chars = true;
  special_chars = codes "!@#$%^&*()_+-=[]{}|;:,.<>?/";
  check_breached = true;
  min_breach_count = 1;
  disallow_common_passwords = true;
  disallow_sequential_chars = true;
  disallow_repeated_chars = true;
  max_repeated_chars = 3;
  disallow_username_in_password = true;
}

abbrev ascii_digit : ℕ → Bool
ascii_digit = is_ascii_digit

-- A provider that knows every password from three leaks.
abbrev leaky : Provider
leaky = record { fail_closed = false; check = λ s. some (true, 3) }

abbrev no_cache : BreachCache
no_cache = []

abbrev good_password : Chars
good_password = codes "Zebra-Tuba_91Qm"

-- It meets the policy and is rejected for its leaks alone.
good_errors :
    (validate_password length default_policy lower ascii_digit
      (some leaky)
      good_password
      (codes "mallory")
      no_cache).0
    ≡ compromised 3 ∷ []
unfolding validate_password check_breached from_cache ask breach_errors lookup lower
    check_common_password check_sequential_chars check_repeated_chars check_username_in_password
    common_passwords_top1000 sequential_patterns starts_with all_words split_words
good_errors = refl

validate_password-Meets_example :
    ((validate_password length default_policy lower ascii_digit
        (some leaky)
        good_password
        (codes "mallory")
        no_cache).0
      ≡ [])
    ↔ (Meets default_policy lower ascii_digit good_password (codes "mallory")
        × Passes default_policy false (leaked 3))
unfolding lookup
validate_password-Meets_example =
    validate_password-Meets length default_policy lower ascii_digit (some leaky) good_password
      (codes "mallory") no_cache (leaked 3) (inr (refl, (refl, refl)))

calculate_strength_score-le_example :
    let (score, level) = calculate_strength_score ascii_digit good_password [] [] in
    (score ≤ 70)
    × (level ≢ very_strong)
    × ((level ≡ strong) ↔ IsStrong ascii_digit good_password [] [])
calculate_strength_score-le_example = calculate_strength_score-le ascii_digit good_password [] []

-- The list of common passwords is longer than its name says.
common_count : length common_passwords_top1000 ≡ 1261
unfolding common_passwords_top1000 all_words split_words
common_count = refl
