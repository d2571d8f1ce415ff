-- ===== src/Passwords/Strength.antt =====
-- tessera/password_security/password_validator.py: the strength of a password, in hundredths.
use auth_manager.Passwords.Substrings.{HasChar, any_char-HasChar}
use auth_manager.Base.Chars.{Chars, is_empty}
use auth_manager.Base.{
  ℕ, Bool, if◌then◌else◌, leb, List, ◌+◌, length, ◌≤◌, ◌≢◌, ◌≡◌, ◌↔◌, [], arith, ◌-◌, ◌*◌, ◌∷◌,
  Text, Option,
}
use auth_manager.Passwords.{
  any_char, Complaint, ℕ, Bool, Chars, is_upper, is_lower, is_symbol, PasswordPolicy,
}
use auth_manager.Passwords.Breaches.{BreachCache, Provider, check_breached, validate_password}
use Prim.Native.Nat.{min}
use mathlib.Core.Bool.{true, false}

pub data Level : Type 0 where
  weak fair good strong very_strong : Level

abbrev pub length_score : ℕ → ℕ
length_score n =
    if leb 16 n
    then 30
    else if leb 12 n
    then 25
    else if leb 10 n
    then 20
    else if leb 8 n
    then 15
    else 5

abbrev pub ten_if : Bool → ℕ
ten_if true = 10
ten_if false = 0

-- `normalized_score >= 0.9` and so on.
unfoldable pub level_of : ℕ → Level
level_of score =
    if leb 90 score
    then very_strong
    else if leb 70 score
    then strong
    else if leb 50 score
    then good
    else if leb 30 score
    then fair
    else weak

level_lem : (x : ℕ) → x ≤ 70 → (level_of x ≢ very_strong) × ((level_of x ≡ strong) ↔ (x ≡ 70))
unfolding level_of
level_lem x h = (λ e. absurd (ground (arith, e)), ground arith)

length_score_lem : (n : ℕ) → (length_score n ≤ 30) × ((length_score n ≡ 30) ↔ (16 ≤ n))
length_score_lem n = ground arith

ten_if_lem : (b : Bool) → (ten_if b ≤ 10) × ((ten_if b ≡ 10) ↔ (b ≡ true))
ten_if_lem true = ground arith
ten_if_lem false = ground arith

score_lem :
    (full e w : ℕ)
    → full ≤ 70
    → let score = min 100 (full - e * 10 - w * 2) in
      (score ≤ 70) × ((score ≡ 70) ↔ ((full ≡ 70) × (e ≡ 0) × (w ≡ 0)))
score_lem full e w h = ground arith

nil_iff : {A : Type 0} (xs : List A) → (length xs ≡ 0) ↔ (xs ≡ [])
nil_iff [] = ground arith
nil_iff (x ∷ xs) = (λ e. absurd (omega (arith, e)), λ e. absurd (ground (arith, e)))

module _ (is_decimal : ℕ → Bool) where
  -- The capital letters, the small letters, the numbers and the other characters.
  unfoldable pub type_score : Chars → ℕ
  unfolding any_char
  type_score s =
      ten_if (any_char is_upper s)
      + ten_if (any_char is_lower s)
      + ten_if (any_char is_decimal s)
      + ten_if (any_char is_symbol s)

  -- `_calculate_strength_score`; the difference stops at 0, as `max` has it.
  unfoldable pub calculate_strength_score : Chars → List Complaint → List Complaint → ℕ × Level
  unfolding type_score level_of
  calculate_strength_score s errors warnings =
      let full = length_score (length s) + type_score s in
      let score = min 100 (full - length errors * 10 - length warnings * 2) in
      (score, level_of score)

  type_score_lem :
      (s : Chars)
      → (type_score s ≤ 40)
        × ((type_score s ≡ 40) ↔ (
            HasChar is_upper s × HasChar is_lower s × HasChar is_decimal s × HasChar is_symbol s))
  unfolding type_score
  type_score_lem s =
      let u = ten_if_lem (any_char is_upper s) in
      let l = ten_if_lem (any_char is_lower s) in
      let d = ten_if_lem (any_char is_decimal s) in
      let y = ten_if_lem (any_char is_symbol s) in
      (
        omega (arith, u.0, l.0, d.0, y.0),
        (
          λ e. (
            (any_char-HasChar is_upper s).0 (u.1.0 (omega (arith, e, u.0, l.0, d.0, y.0))),
            (any_char-HasChar is_lower s).0 (l.1.0 (omega (arith, e, u.0, l.0, d.0, y.0))),
            (any_char-HasChar is_decimal s).0 (d.1.0 (omega (arith, e, u.0, l.0, d.0, y.0))),
            (any_char-HasChar is_symbol s).0 (y.1.0 (omega (arith, e, u.0, l.0, d.0, y.0))),
          ),
          λ h. omega (
            arith,
            u.1.1 ((any_char-HasChar is_upper s).1 h.0),
            l.1.1 ((any_char-HasChar is_lower s).1 h.1),
            d.1.1 ((any_char-HasChar is_decimal s).1 h.2),
            y.1.1 ((any_char-HasChar is_symbol s).1 h.3),
          ),
        ),
      )

  -- What makes a password strong.
  abbrev pub IsStrong : Chars → List Complaint → List Complaint → Type 0
  IsStrong s errors warnings =
      (16 ≤ length s)
      × (HasChar is_upper s × HasChar is_lower s × HasChar is_decimal s × HasChar is_symbol s)
      × (errors ≡ [])
      × (warnings ≡ [])

  -- The score is 70 at most, so the level is never `very_strong`; and it is `strong` exactly for a
  -- password of 16 characters or more with all four kinds, without an error or a warning.
  pub calculate_strength_score-le :
      (s : Chars) (errors warnings : List Complaint)
      → let (score, level) = calculate_strength_score s errors warnings in
        (score ≤ 70) × (level ≢ very_strong) × ((level ≡ strong) ↔ IsStrong s errors warnings)
  unfolding calculate_strength_score
  calculate_strength_score-le s errors warnings =
      let (long, longest) = length_score_lem (length s) in
      let (kinds, all_kinds) = type_score_lem s in
      let full = length_score (length s) + type_score s in
      let (small, top) =
        score_lem full (length errors) (length warnings) (omega (arith, long, kinds)) in
      let (never, at_seventy) = level_lem _ small in
      (
        small,
        never,
        (
          λ e.
              let (max_full, no_errors, no_warnings) = top.0 (at_seventy.0 e) in
              (
                longest.0 (omega (arith, max_full, long, kinds)),
                all_kinds.0 (omega (arith, max_full, long, kinds)),
                (nil_iff errors).0 no_errors,
                (nil_iff warnings).0 no_warnings,
              ),
          λ h. at_seventy.1 (
              top.1 (
                omega (arith, longest.1 h.0, all_kinds.1 h.1),
                (nil_iff errors).1 h.2,
                (nil_iff warnings).1 h.3,
              )),
        ),
      )

-- `PasswordStrengthResult` without the suggestions.
pub record PasswordStrength : Type 0 where
  pub is_valid : Bool
  pub strength_score : ℕ
  pub strength_level : Level
  pub errors : List Complaint
  pub warnings : List Complaint
  pub is_breached : Bool
  pub breach_count : ℕ

-- `assess_password_strength`, which asks for the leaks twice; its list of warnings stays empty.
unfoldable pub assess_password_strength :
    (Chars → Text)
    → PasswordPolicy
    → (Chars → Chars)
    → (ℕ → Bool)
    → Option Provider
    → Chars
    → Chars
    → BreachCache
    → PasswordStrength × BreachCache
unfolding calculate_strength_score validate_password check_breached
assess_password_strength password_key policy lower is_decimal provider s username cache =
    let (errors, cache') =
      validate_password password_key policy lower is_decimal provider s username cache in
    let (score, level) = calculate_strength_score is_decimal s errors [] in
    let (b, cache'') = check_breached password_key policy provider s cache' in
    (
      record {
        is_valid = is_empty errors;
        strength_score = score;
        strength_level = level;
        errors = errors;
        warnings = [];
        is_breached = b.is_breached;
        breach_count = b.count;
      },
      cache'',
    )
