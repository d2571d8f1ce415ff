-- ===== src/Passwords/Breaches.antt =====
-- tessera/password_security/hibp_provider.py, `HibpProvider.check_password`, and the calls of it in
-- tessera/password_security/password_validator.py. `sha1` is the upper-case hexadecimal SHA-1,
-- `to_count` is `int` on the count of a line, which the service gives as a natural number; a call
-- that raises gives `none`. `password_key` is the key of the breach cache, from `hash`.
use auth_manager.Base.Dict.{Dict, lookup, insert}
use auth_manager.Base.{
  ℕ, Option, Bool, List, some, none, if◌then◌else◌, drop, Text, ◌∷◌, leb, ltb, map, take, ◌&&◌,
  ◌==◌, ◌-◌, max, ◌++◌, nat_eq, [],
}
use auth_manager.Base.Chars.{Chars, strip, chars_eq}
use auth_manager.Passwords.{
  PasswordPolicy, Complaint, Chars, ℕ, Bool, breach_database_unreachable, policy_errors,
  compromised, complain_if,
}
use mathlib.Core.Bool.{false}

-- The answer to a request for a range; `unreachable` also stands for an error status.
pub data RangeResponse : Type 0 where
  unreachable status_404 : RangeResponse
  body : Chars → RangeResponse

-- `s.split("\n")`
abbrev pub add_first : ℕ → List Chars → List Chars
add_first c [] = (c ∷ []) ∷ []
add_first c (l ∷ ls) = if c == 10 then [] ∷ l ∷ ls else (c ∷ l) ∷ ls

unfoldable pub split_lines : Chars → List Chars
split_lines [] = [] ∷ []
split_lines (c ∷ s) = add_first c (split_lines s)

-- `s.split(":", 1)`, where a colon occurs.
abbrev pub prepend : ℕ → Option (Chars × Chars) → Option (Chars × Chars)
prepend c none = none
prepend c (some (a, b)) = some (c ∷ a, b)

unfoldable pub split_colon : Chars → Option (Chars × Chars)
split_colon [] = none
split_colon (c ∷ s) = let rest = split_colon s in if c == b':' then some ([], s) else prepend c rest

abbrev pub upper_char : ℕ → ℕ
upper_char c = if leb b'a' c && leb c b'z' then c - 32 else c

abbrev pub counted : Option ℕ → Option (Bool × ℕ)
counted none = none
counted (some n) = some (ltb 0 n, n)

module _ (sha1 : Chars → Chars) (to_count : Chars → Option ℕ) where
  -- One line, with the result of the lines after it; `none` where `int` raises.
  unfoldable pub on_line : Chars → Option (Chars × Chars) → Option (Bool × ℕ) → Option (Bool × ℕ)
  on_line suffix none rest = rest
  on_line suffix (some (found, n)) rest =
      if map upper_char (strip found) == suffix then counted (to_count (strip n)) else rest

  unfoldable pub find_suffix : Chars → List Chars → Option (Bool × ℕ)
  unfolding split_colon on_line
  find_suffix suffix [] = some (false, 0)
  find_suffix suffix (l ∷ ls) = on_line suffix (split_colon l) (find_suffix suffix ls)

  unfoldable pub read_range : Chars → RangeResponse → Option (Bool × ℕ)
  unfolding find_suffix split_lines
  read_range suffix unreachable = none
  read_range suffix status_404 = some (false, 0)
  read_range suffix (body text) = find_suffix suffix (split_lines (strip text))

  -- Only the first five characters of the hash are sent.
  unfoldable pub check_password : (Chars → RangeResponse) → Chars → Option (Bool × ℕ)
  unfolding read_range
  check_password range s = read_range (drop 5 (sha1 s)) (range (take 5 (sha1 s)))

-- `_breach_cache`
abbrev pub BreachCache : Type 0
BreachCache = Dict Text (Bool × ℕ)

-- The result of `_check_breached`: the flag, the count and the message.
pub record Breach : Type 0 where
  pub is_breached : Bool
  pub count : ℕ
  pub message : Option Complaint

abbrev pub breach : Bool → ℕ → Option Complaint → Breach
breach b n m = record { is_breached = b; count = n; message = m }

-- What the manager knows of the provider: whether it fails closed, and the check.
pub record Provider : Type 0 where
  pub fail_closed : Bool
  pub check : Chars → Option (Bool × ℕ)

module _ (password_key : Chars → Text) (policy : PasswordPolicy) where
  unfoldable pub ask : Provider → Chars → Option (Bool × ℕ) → BreachCache → Breach × BreachCache
  ask provider s none cache =
      (breach provider.fail_closed 0 (some breach_database_unreachable), cache)
  ask provider s (some (b, n)) cache = (
    breach b n (if b && leb policy.min_breach_count n then some (compromised n) else none),
    insert (password_key s) (b, n) cache,
  )

  unfoldable pub from_cache :
      Provider → Chars → Option (Bool × ℕ) → BreachCache → Breach × BreachCache
  unfolding ask
  from_cache provider s (some (b, n)) cache = (breach b n none, cache)
  from_cache provider s none cache = ask provider s (provider.check s) cache

  -- `_check_breached`; without a provider nothing is checked.
  unfoldable pub check_breached : Option Provider → Chars → BreachCache → Breach × BreachCache
  unfolding from_cache
  check_breached none s cache = (breach false 0 none, cache)
  check_breached (some provider) s cache =
      if policy.check_breached
      then from_cache provider s (lookup (password_key s) cache) cache
      else (breach false 0 none, cache)

  -- The end of `validate_password`; a message without the flag is only a warning.
  unfoldable pub breach_errors : Breach → List Complaint
  breach_errors b =
      if b.is_breached && leb (max 1 policy.min_breach_count) b.count
      then compromised b.count ∷ []
      else elim b.message [ none ↦ [] | some m ↦ complain_if b.is_breached m ]

  -- `validate_password`, with its errors; a password is valid where there are none.
  unfoldable pub validate_password :
      (Chars → Chars)
      → (ℕ → Bool)
      → Option Provider
      → Chars
      → Chars
      → BreachCache
      → List Complaint × BreachCache
  unfolding check_breached breach_errors policy_errors
  validate_password lower is_decimal provider s username cache =
      let (b, cache') = check_breached provider s cache in
      (policy_errors policy lower is_decimal s username ++ breach_errors b, cache')
