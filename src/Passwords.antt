-- ===== src/Passwords.antt =====
-- tessera/password_security/password_validator.py, `class PasswordSecurityManager`: the checks of the
-- policy. `lower` is `str.lower` and `is_decimal` is the class `\d` of `re`. The special characters of
-- the policy are not empty.
pub mod Lists
pub mod Substrings
pub mod Sequences
pub mod Accepted
pub mod Breaches
pub mod Strength
pub mod Validated
use auth_manager.Base.Chars.{Chars, is_empty, starts_with, chars_eq}
use auth_manager.Base.{
  ℕ, List, Bool, false, leb, not, [], ◌∷◌, if◌then◌else◌, ◌&&◌, ◌++◌, ◌||◌, suc, ◌==◌, ltb,
  contains, length, true, nat_eq, zero,
}
use auth_manager.Passwords.Lists.{common_passwords_top1000, sequential_patterns}

pub record PasswordPolicy : Type 0 where
  pub min_length : ℕ
  pub max_length : ℕ
  pub require_uppercase : Bool
  pub require_lowercase : Bool
  pub require_numbers : Bool
  pub require_special_chars : Bool
  pub special_chars : Chars
  pub check_breached : Bool
  pub min_breach_count : ℕ
  pub disallow_common_passwords : Bool
  pub disallow_sequential_chars : Bool
  pub disallow_repeated_chars : Bool
  pub max_repeated_chars : ℕ
  pub disallow_username_in_password : Bool

-- The messages, with the numbers that they name.
pub data Complaint : Type 0 where
  too_short too_long : ℕ → Complaint
  no_uppercase no_lowercase no_number no_special_char : Complaint
  too_common sequential contains_username : Complaint
  too_repetitive : ℕ → Complaint
  compromised : ℕ → Complaint
  breach_database_unreachable : Complaint

-- `re.search` of a class of characters.
unfoldable pub any_char : (ℕ → Bool) → Chars → Bool
any_char p [] = false
any_char p (c ∷ s) = p c || any_char p s

abbrev pub is_upper : ℕ → Bool
is_upper c = leb b'A' c && leb c b'Z'

abbrev pub is_lower : ℕ → Bool
is_lower c = leb b'a' c && leb c b'z'

abbrev pub is_ascii_digit : ℕ → Bool
is_ascii_digit c = leb b'0' c && leb c b'9'

-- `[^A-Za-z0-9]`
abbrev pub is_symbol : ℕ → Bool
is_symbol c = not (is_upper c || is_lower c || is_ascii_digit c)

-- `needle in s`
unfoldable pub substring : Chars → Chars → Bool
substring needle [] = is_empty needle
substring needle (c ∷ s) = starts_with needle (c ∷ s) || substring needle s

unfoldable pub any_substring : List Chars → Chars → Bool
unfolding substring
any_substring [] s = false
any_substring (p ∷ ps) s = substring p s || any_substring ps s

abbrev pub replicate : ℕ → ℕ → Chars
replicate zero c = []
replicate (suc n) c = c ∷ replicate n c

-- `(.)\1{n,}`, where the dot is no line feed.
unfoldable pub has_repeat : ℕ → Chars → Bool
has_repeat n [] = false
has_repeat n (c ∷ s) = (not (c == 10) && starts_with (replicate n c) s) || has_repeat n s

abbrev pub complain_if : Bool → Complaint → List Complaint
complain_if true e = e ∷ []
complain_if false e = []

module _ (policy : PasswordPolicy) where
  unfoldable pub check_length : Chars → List Complaint
  check_length s =
      if ltb (length s) policy.min_length
      then too_short policy.min_length ∷ []
      else complain_if (ltb policy.max_length (length s)) (too_long policy.max_length)

  unfoldable pub check_uppercase : Chars → List Complaint
  unfolding any_char
  check_uppercase s =
      complain_if (policy.require_uppercase && not (any_char is_upper s)) no_uppercase

  unfoldable pub check_lowercase : Chars → List Complaint
  unfolding any_char
  check_lowercase s =
      complain_if (policy.require_lowercase && not (any_char is_lower s)) no_lowercase

  unfoldable pub check_special_chars : Chars → List Complaint
  unfolding any_char
  check_special_chars s =
      complain_if
        (policy.require_special_chars && not (any_char (λ c. contains c policy.special_chars) s))
        no_special_char

  unfoldable pub check_repeated_chars : Chars → List Complaint
  unfolding has_repeat
  check_repeated_chars s =
      complain_if (policy.disallow_repeated_chars && has_repeat policy.max_repeated_chars s)
        (too_repetitive policy.max_repeated_chars)

  module _ (lower : Chars → Chars) (is_decimal : ℕ → Bool) where
    unfoldable pub check_numbers : Chars → List Complaint
    unfolding any_char
    check_numbers s = complain_if (policy.require_numbers && not (any_char is_decimal s)) no_number

    unfoldable pub check_common_password : Chars → List Complaint
    check_common_password s =
        complain_if
          (policy.disallow_common_passwords && contains (lower s) common_passwords_top1000)
          too_common

    unfoldable pub check_sequential_chars : Chars → List Complaint
    unfolding any_substring
    check_sequential_chars s =
        complain_if
          (policy.disallow_sequential_chars && any_substring sequential_patterns (lower s))
          sequential

    -- Without a username the list is empty.
    unfoldable pub check_username_in_password : Chars → Chars → List Complaint
    unfolding substring
    check_username_in_password s username =
        complain_if
          (policy.disallow_username_in_password
            && not (is_empty username)
            && leb 3 (length username)
            && substring (lower username) (lower s))
          contains_username

    -- The loop over the checks, in their order.
    unfoldable pub policy_errors : Chars → Chars → List Complaint
    unfolding check_length check_uppercase check_lowercase check_numbers check_special_chars
    policy_errors s username =
        check_length s
        ++ (check_uppercase s
            ++ (check_lowercase s
                ++ (check_numbers s
                    ++ (check_special_chars s
                        ++ (check_common_password s
                            ++ (check_sequential_chars s
                                ++ (check_repeated_chars s
                                    ++ check_username_in_password s username)))))))
