-- ===== src/Passwords/Accepted.antt =====
-- tessera/password_security/password_validator.py: the passwords that the policy accepts.
use auth_manager.Base.Chars.{Chars, chars_eq}
use auth_manager.Base.{
  List, Bool, ◌++◌, ℕ, ◌≡◌, ◌≤◌, [], length, ◌↔◌, arith, ◌&&◌, ◌∷◌, not, refl, contains, nat_eq,
  Bool-cases, leb, inr, inl,
}
use mathlib.Core.Bool.{true, false}
use auth_manager.Passwords.Substrings.{
  Contains, HasChar, HasRepeat, any_char-HasChar, has_repeat-HasRepeat, substring-Contains,
}
use auth_manager.Passwords.Sequences.{HasSequence, any_substring-HasSequence}
use auth_manager.Passwords.{
  PasswordPolicy, List, Bool, Chars, Complaint, complain_if, check_length, is_upper, is_lower,
  check_common_password, check_username_in_password, policy_errors, too_common, check_uppercase,
  check_lowercase, check_numbers, check_special_chars, check_sequential_chars, check_repeated_chars,
  substring,
}
use auth_manager.Passwords.Lists.{common_passwords_top1000}

append_nil_iff : {A : Type 0} (xs ys : List A) → (xs ++ ys ≡ []) ↔ ((xs ≡ []) × (ys ≡ []))
append_nil_iff [] ys = (λ e. (refl, e), λ h. h.1)
append_nil_iff (x ∷ xs) ys = (λ e. absurd (ground (arith, e)), λ h. absurd (ground (arith, h.0)))

complain_if_iff : (b : Bool) (e : Complaint) → (complain_if b e ≡ []) ↔ (b ≡ false)
complain_if_iff true e = (λ h. absurd (ground (arith, h)), λ h. absurd (ground (arith, h)))
complain_if_iff false e = (λ h. refl, λ h. refl)

-- A check that asks for something, and one that forbids something.
asks_iff :
    (on found : Bool) {P : Type 0} (e : Complaint)
    → (found ≡ true) ↔ P
    → (complain_if (on && not found) e ≡ []) ↔ (on ≡ true → P)
asks_iff false found e iff = (λ h on. absurd (ground (arith, on)), λ h. refl)
asks_iff true true e iff = (λ h on. iff.0 refl, λ h. refl)
asks_iff true false e iff =
    (λ h. absurd (ground (arith, h)), λ h. absurd (ground (arith, iff.1 (h refl))))

forbids_iff :
    (on found : Bool) {P : Type 0} (e : Complaint)
    → (found ≡ true) ↔ P
    → (complain_if (on && found) e ≡ []) ↔ (on ≡ true → ¬ P)
forbids_iff false found e iff = (λ h on. absurd (ground (arith, on)), λ h. refl)
forbids_iff true false e iff = (λ h on p. absurd (ground (arith, iff.1 p)), λ h. refl)
forbids_iff true true e iff = (λ h. absurd (ground (arith, h)), λ h. absurd (h refl (iff.0 refl)))

pub both_iff :
    {A : Type 0} (xs ys : List A) {P Q : Type 0}
    → (xs ≡ []) ↔ P
    → (ys ≡ []) ↔ Q
    → (xs ++ ys ≡ []) ↔ (P × Q)
both_iff xs ys p q = (
  λ e. let (x, y) = (append_nil_iff xs ys).0 e in (p.0 x, q.0 y),
  λ h. (append_nil_iff xs ys).1 (p.1 h.0, q.1 h.1),
)

module _ (policy : PasswordPolicy) (lower : Chars → Chars) (is_decimal : ℕ → Bool) where
  -- What the policy asks of a password.
  abbrev pub Meets : Chars → Chars → Type 0
  Meets s username =
      ((policy.min_length ≤ length s) × (length s ≤ policy.max_length))
      × ((policy.require_uppercase ≡ true → HasChar is_upper s)
          × ((policy.require_lowercase ≡ true → HasChar is_lower s)
              × ((policy.require_numbers ≡ true → HasChar is_decimal s)
                  × ((policy.require_special_chars ≡ true
                        → HasChar (λ c. contains c policy.special_chars) s)
                      × ((policy.disallow_common_passwords ≡ true
                            → contains (lower s) common_passwords_top1000 ≡ false)
                          × ((policy.disallow_sequential_chars ≡ true → ¬ HasSequence (lower s))
                              × ((policy.disallow_repeated_chars ≡ true
                                    → ¬ HasRepeat policy.max_repeated_chars s)
                                  × (policy.disallow_username_in_password ≡ true
                                      → 3 ≤ length username
                                      → ¬ Contains (lower username) (lower s)))))))))

  length_iff :
      (s : Chars)
      → (check_length policy s ≡ [])
        ↔ ((policy.min_length ≤ length s) × (length s ≤ policy.max_length))
  unfolding check_length
  length_iff s = ground arith

  common_iff :
      (s : Chars)
      → (check_common_password policy lower is_decimal s ≡ []) ↔ (
          policy.disallow_common_passwords ≡ true
          → contains (lower s) common_passwords_top1000 ≡ false)
  unfolding check_common_password
  common_iff s = go policy.disallow_common_passwords (contains (lower s) common_passwords_top1000)
    where
      go :
          (on found : Bool)
          → (complain_if (on && found) too_common ≡ []) ↔ (on ≡ true → found ≡ false)
      go on found = ground arith

  username_iff :
      (s username : Chars)
      → (check_username_in_password policy lower is_decimal s username ≡ []) ↔ (
          policy.disallow_username_in_password ≡ true
          → 3 ≤ length username
          → ¬ Contains (lower username) (lower s))
  unfolding check_username_in_password
  username_iff s [] = (λ e on three inside. absurd (omega arith), λ h. ground arith)
  username_iff s (c ∷ u) = (
    λ e on three inside.
        absurd
          (ground (arith, e, on, three, (substring-Contains (lower (c ∷ u)) (lower s)).1 inside)),
    λ h. elim (Bool-cases (policy.disallow_username_in_password && leb 3 (length (c ∷ u)))) [
      | inr off ↦ ground (arith, off)
      | inl asked ↦ elim (Bool-cases (substring (lower (c ∷ u)) (lower s))) [
        | inr away ↦ ground (arith, away)
        | inl there ↦ absurd (
            h (ground (arith, asked)) (ground (arith, asked))
              ((substring-Contains (lower (c ∷ u)) (lower s)).0 there))
      ]
    ],
  )

  -- The policy raises no error exactly when the password meets it: the length is in its bounds; the
  -- kinds of characters that it requires occur; and, where it disallows them, the password is not
  -- in the list, has no three neighbours of the alphabet or the digits in a row, has no character
  -- repeated more often than allowed, and does not contain the username of three characters or more.
  pub policy_errors-Meets :
      (s username : Chars)
      → (policy_errors policy lower is_decimal s username ≡ []) ↔ Meets s username
  unfolding policy_errors check_uppercase check_lowercase check_numbers check_special_chars
      check_sequential_chars check_repeated_chars
  policy_errors-Meets s username = both_iff _ _ (length_iff s) (
      both_iff _ _ (asks_iff policy.require_uppercase _ _ (any_char-HasChar _ s)) (
        both_iff _ _ (asks_iff policy.require_lowercase _ _ (any_char-HasChar _ s)) (
          both_iff _ _ (asks_iff policy.require_numbers _ _ (any_char-HasChar _ s)) (
            both_iff _ _ (asks_iff policy.require_special_chars _ _ (any_char-HasChar _ s)) (
              both_iff _ _ (common_iff s) (
                both_iff _ _
                  (forbids_iff policy.disallow_sequential_chars _ _
                    (any_substring-HasSequence (lower s)))
                  (both_iff _ _
                    (forbids_iff policy.disallow_repeated_chars _ _
                      (has_repeat-HasRepeat policy.max_repeated_chars s))
                    (username_iff s username))))))))
