-- ===== src/Passwords/Sequences.antt =====
-- tessera/password_security/password_validator.py: what `SEQUENTIAL_PATTERNS` lists.
use auth_manager.Passwords.Substrings.{Contains, substring-Contains}
use auth_manager.Base.Chars.{Chars, chars_beq_iff, chars_eq, chars_beq}
use auth_manager.Base.{
  ℕ, List, ◌≡◌, ◌+◌, ◌≤◌, ◌⊎◌, Bool, contains, ◌∷◌, [], leb, ◌==◌, ◌&&◌, arith, suc, ◌<◌, refl,
  ◌||◌, Bool-cases, zero, inl, nat_eq, ap, nat_beq_iff, inr, ◌-◌, ◌↔◌, subst,
}
use auth_manager.Passwords.Lists.{sequential_patterns}
use auth_manager.Passwords.{ℕ, Chars, List, any_substring, substring}
use mathlib.Core.Bool.{true, false}

-- Small letters only, or digits only.
abbrev pub Inside : ℕ → ℕ → Type 0
Inside low high = ((b'a' ≤ low) × (high ≤ b'z')) ⊎ ((b'0' ≤ low) × (high ≤ b'9'))

-- Three neighbours, upwards or downwards; the digit 0 also stands after 9.
abbrev pub InSequence : ℕ → ℕ → ℕ → Type 0
InSequence a b c =
    ((b ≡ a + 1) × (c ≡ b + 1) × Inside a c)
    ⊎ (((a ≡ b + 1) × (b ≡ c + 1) × Inside c a)
        ⊎ (((a ≡ b'8') × (b ≡ b'9') × (c ≡ b'0')) ⊎ ((a ≡ b'0') × (b ≡ b'9') × (c ≡ b'8'))))

abbrev pub HasSequence : Chars → Type 0
HasSequence s = (a : ℕ) × (b : ℕ) × (c : ℕ) × InSequence a b c × Contains (a ∷ b ∷ c ∷ []) s

abbrev inside : ℕ → ℕ → Bool
inside low high = (leb b'a' low && leb high b'z') || (leb b'0' low && leb high b'9')

abbrev in_sequence : ℕ → ℕ → ℕ → Bool
in_sequence a b c =
    (b == a + 1 && c == b + 1 && inside a c)
    || (a == b + 1 && b == c + 1 && inside c a)
    || (a == b'8' && b == b'9' && c == b'0')
    || (a == b'0' && b == b'9' && c == b'8')

is_sequence : Chars → Bool
is_sequence (a ∷ b ∷ c ∷ []) = in_sequence a b c
is_sequence _ = false

all_sequences : List Chars → Bool
all_sequences [] = true
all_sequences (p ∷ ps) = is_sequence p && all_sequences ps

listed_are_sequences : all_sequences sequential_patterns ≡ true
unfolding all_sequences is_sequence sequential_patterns
listed_are_sequences = refl

all_sequences_lem :
    (p : Chars) (ps : List Chars)
    → all_sequences ps ≡ true
    → contains p ps ≡ true
    → is_sequence p ≡ true
unfolding all_sequences
all_sequences_lem p [] all e = absurd (ground (arith, e))
all_sequences_lem p (q ∷ ps) all e =
    ground (arith, all, e, chars_beq_iff p q, all_sequences_lem p ps)

is_sequence_lem :
    (p : Chars)
    → is_sequence p ≡ true
    → (a : ℕ) × (b : ℕ) × (c : ℕ) × (p ≡ a ∷ b ∷ c ∷ []) × InSequence a b c
unfolding is_sequence
is_sequence_lem [] e = absurd (ground (arith, e))
is_sequence_lem (a ∷ []) e = absurd (ground (arith, e))
is_sequence_lem (a ∷ b ∷ []) e = absurd (ground (arith, e))
is_sequence_lem (a ∷ b ∷ c ∷ []) e = (a, b, c, refl, ground (arith, e))
is_sequence_lem (a ∷ b ∷ c ∷ d ∷ s) e = absurd (ground (arith, e))

all_below : ℕ → (ℕ → Bool) → Bool
all_below zero test = true
all_below (suc n) test = test n && all_below n test

all_below_lem : (n : ℕ) (test : ℕ → Bool) (k : ℕ) → all_below n test ≡ true → k < n → test k ≡ true
unfolding all_below
all_below_lem zero test k all below = absurd (omega arith)
all_below_lem (suc n) test k all below = elim (Bool-cases (k == n)) [
  | inl last ↦ ground (arith, all, last, ap test ((nat_beq_iff k n).0 last))
  | inr less ↦ ground (arith, all, less, all_below_lem n test k)
]

is_listed : ℕ → ℕ → ℕ → Bool
is_listed a b c = contains (a ∷ b ∷ c ∷ []) sequential_patterns

letters_up : all_below 24 (λ k. is_listed (97 + k) (98 + k) (99 + k)) ≡ true
unfolding all_below is_listed sequential_patterns
letters_up = refl

letters_down : all_below 24 (λ k. is_listed (99 + k) (98 + k) (97 + k)) ≡ true
unfolding all_below is_listed sequential_patterns
letters_down = refl

digits_up : all_below 8 (λ k. is_listed (48 + k) (49 + k) (50 + k)) ≡ true
unfolding all_below is_listed sequential_patterns
digits_up = refl

digits_down : all_below 8 (λ k. is_listed (50 + k) (49 + k) (48 + k)) ≡ true
unfolding all_below is_listed sequential_patterns
digits_down = refl

round_nine : (is_listed b'8' b'9' b'0' && is_listed b'0' b'9' b'8') ≡ true
unfolding is_listed sequential_patterns
round_nine = refl

up_listed : (a b c : ℕ) → b ≡ a + 1 → c ≡ b + 1 → Inside a c → is_listed a b c ≡ true
up_listed a b c first second (inl range) =
    let listed = all_below_lem 24 _ (a - 97) letters_up (omega arith) in ground (arith, listed)
up_listed a b c first second (inr range) =
    let listed = all_below_lem 8 _ (a - 48) digits_up (omega arith) in ground (arith, listed)

down_listed : (a b c : ℕ) → a ≡ b + 1 → b ≡ c + 1 → Inside c a → is_listed a b c ≡ true
down_listed a b c first second (inl range) =
    let listed = all_below_lem 24 _ (c - 97) letters_down (omega arith) in ground (arith, listed)
down_listed a b c first second (inr range) =
    let listed = all_below_lem 8 _ (c - 48) digits_down (omega arith) in ground (arith, listed)

InSequence-listed : (a b c : ℕ) → InSequence a b c → is_listed a b c ≡ true
InSequence-listed a b c (inl (first, second, range)) = up_listed a b c first second range
InSequence-listed a b c (inr (inl (first, second, range))) = down_listed a b c first second range
InSequence-listed a b c (inr (inr (inl (x, y, z)))) = ground (arith, round_nine, x, y, z)
InSequence-listed a b c (inr (inr (inr (x, y, z)))) = ground (arith, round_nine, x, y, z)

any_substring_lem :
    (ps : List Chars) (s : Chars)
    → (any_substring ps s ≡ true) ↔ ((p : Chars) × (contains p ps ≡ true) × Contains p s)
unfolding any_substring
any_substring_lem [] s = (λ e. absurd (ground (arith, e)), λ h. absurd (ground (arith, h.1)))
any_substring_lem (p ∷ ps) s = (
  λ e. elim (Bool-cases (substring p s)) [
    | inl here ↦ (p, ground (arith, chars_beq_iff p p), (substring-Contains p s).0 here)
    | inr away ↦
        let (q, listed, found) = (any_substring_lem ps s).0 (ground (arith, e, away)) in
        (q, ground (arith, listed), found)
  ],
  λ h. elim (Bool-cases (chars_beq h.0 p)) [
    | inl same ↦ ground (
      arith,
      (substring-Contains h.0 s).1 h.2,
      (chars_beq_iff h.0 p).0 same,
      ap (λ q. substring q s) ((chars_beq_iff h.0 p).0 same),
    )
    | inr differs ↦
        ground (arith, (any_substring_lem ps s).1 (h.0, ground (arith, h.1, differs), h.2))
  ],
)

-- The table of patterns finds the sequences, and these alone.
pub any_substring-HasSequence :
    (s : Chars) → (any_substring sequential_patterns s ≡ true) ↔ HasSequence s
unfolding is_listed
any_substring-HasSequence s = (
  λ e.
      let (p, listed, found) = (any_substring_lem sequential_patterns s).0 e in
      let (a, b, c, shape, neighbours) =
        is_sequence_lem p (all_sequences_lem p sequential_patterns listed_are_sequences listed) in
      (a, b, c, neighbours, subst (λ q. Contains q s) shape found),
  λ h.
      let (a, b, c, neighbours, found) = h in
      (any_substring_lem sequential_patterns s).1
        (a ∷ b ∷ c ∷ [], InSequence-listed a b c neighbours, found),
)
