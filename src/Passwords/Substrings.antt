-- ===== src/Passwords/Substrings.antt =====
-- tessera/password_security/password_validator.py: what the searches in a password find.
use auth_manager.Base.{
  ℕ, ◌≡◌, Bool, ◌∷◌, ◌++◌, [], ◌↔◌, ap, arith, refl, ◌⊎◌, Bool-cases, ◌≢◌, inl, suc, not, inr, ◌==◌,
  ◌&&◌, nat_eq,
}
use auth_manager.Base.Chars.{Chars, starts_with}
use mathlib.Core.Bool.{true}
use auth_manager.Passwords.{substring, any_char, has_repeat, Chars, ℕ, starts_with, replicate}

-- `p` stands somewhere in `s`.
abbrev pub Contains : Chars → Chars → Type 0
Contains p s = (before after : Chars) × (s ≡ before ++ (p ++ after))

abbrev pub HasChar : (ℕ → Bool) → Chars → Type 0
HasChar test s = (c : ℕ) × (test c ≡ true) × Contains (c ∷ []) s

starts_with_lem : (p s : Chars) → (starts_with p s ≡ true) ↔ ((after : Chars) × (s ≡ p ++ after))
unfolding starts_with
starts_with_lem [] s = (λ e. (s, refl), λ e. refl)
starts_with_lem (c ∷ p) [] = (λ e. absurd (ground arith), λ e. absurd (ground (arith, e.1)))
starts_with_lem (c ∷ p) (d ∷ s) = (
  λ e.
      let (after, rest) = (starts_with_lem p s).0 (ground (arith, e)) in
      (after, ground (arith, e, rest)),
  λ e. ground (arith, e.1, (starts_with_lem p s).1 (e.0, ground (arith, e.1))),
)

-- One character further on.
Contains-cons : (p : Chars) (c : ℕ) (s : Chars) → Contains p s → Contains p (c ∷ s)
Contains-cons p c s (before, after, e) = (c ∷ before, after, ap (◌∷◌ c) e)

Contains-uncons :
    (p : Chars) (c : ℕ) (s : Chars)
    → Contains p (c ∷ s)
    → ((after : Chars) × (c ∷ s ≡ p ++ after)) ⊎ Contains p s
Contains-uncons p c s ([], after, e) = inl (after, e)
Contains-uncons p c s (b ∷ before, after, e) = inr (before, after, ground (arith, e))

Contains-nil : (d : ℕ) (p : Chars) → ¬ Contains (d ∷ p) []
Contains-nil d p ([], after, e) = absurd (ground (arith, e))
Contains-nil d p (b ∷ before, after, e) = absurd (ground (arith, e))

pub substring-Contains : (p s : Chars) → (substring p s ≡ true) ↔ Contains p s
unfolding substring starts_with
substring-Contains [] [] = (λ e. ([], [], refl), λ h. refl)
substring-Contains [] (c ∷ s) = (λ e. ([], c ∷ s, refl), λ h. refl)
substring-Contains (d ∷ p) [] = (λ e. absurd (ground (arith, e)), λ h. absurd (Contains-nil d p h))
substring-Contains (d ∷ p) (c ∷ s) = (
  λ e. elim (Bool-cases (starts_with (d ∷ p) (c ∷ s))) [
    | inl here ↦ let (after, at) = (starts_with_lem (d ∷ p) (c ∷ s)).0 here in ([], after, at)
    | inr away ↦
        Contains-cons (d ∷ p) c s ((substring-Contains (d ∷ p) s).0 (ground (arith, e, away)))
  ],
  λ h. elim (Contains-uncons (d ∷ p) c s h) [
    | inl here ↦ ground (arith, (starts_with_lem (d ∷ p) (c ∷ s)).1 here)
    | inr later ↦ ground (arith, (substring-Contains (d ∷ p) s).1 later)
  ],
)

HasChar-cons :
    (test : ℕ → Bool) (c : ℕ) (s : Chars)
    → HasChar test (c ∷ s) ↔ ((test c ≡ true) ⊎ HasChar test s)
HasChar-cons test c s = (
  λ h. elim (Contains-uncons (h.0 ∷ []) c s h.2) [
    | inl (after, e) ↦ inl (ground (arith, h.1, e))
    | inr later ↦ inr (h.0, h.1, later)
  ],
  λ h. elim h [
    | inl here ↦ (c, here, ([], s, refl))
    | inr (d, good, later) ↦ (d, good, Contains-cons (d ∷ []) c s later)
  ],
)

pub any_char-HasChar : (test : ℕ → Bool) (s : Chars) → (any_char test s ≡ true) ↔ HasChar test s
unfolding any_char
any_char-HasChar test [] = (λ e. absurd (ground (arith, e)), λ h. absurd (Contains-nil h.0 [] h.2))
any_char-HasChar test (c ∷ s) = (
  λ e. (HasChar-cons test c s).1 (elim (Bool-cases (test c)) [
    | inl here ↦ inl here
    | inr away ↦ inr ((any_char-HasChar test s).0 (ground (arith, e, away)))
  ]),
  λ h. elim ((HasChar-cons test c s).0 h) [
    | inl here ↦ ground (arith, here)
    | inr later ↦ ground (arith, (any_char-HasChar test s).1 later)
  ],
)

-- A character other than the line feed stands `n + 1` times in a row.
abbrev pub HasRepeat : ℕ → Chars → Type 0
HasRepeat n s = (c : ℕ) × (c ≢ 10) × Contains (replicate (suc n) c) s

starts :
    (n c : ℕ) (s : Chars) (d : ℕ) (after : Chars)
    → d ≢ 10
    → c ∷ s ≡ replicate (suc n) d ++ after
    → has_repeat n (c ∷ s) ≡ true
unfolding has_repeat
starts n c s d after feed e =
    let same : c ≡ d = ground (arith, e) in
    let rest : s ≡ replicate n d ++ after = ground (arith, e) in
    let found = (starts_with_lem (replicate n d) s).1 (after, rest) in
    ground (arith, same, found, feed)

pub has_repeat-HasRepeat : (n : ℕ) (s : Chars) → (has_repeat n s ≡ true) ↔ HasRepeat n s
unfolding has_repeat
has_repeat-HasRepeat n [] =
    (λ e. absurd (ground (arith, e)), λ h. absurd (Contains-nil h.0 (replicate n h.0) h.2))
has_repeat-HasRepeat n (c ∷ s) = (
  λ e. elim (Bool-cases (not (c == 10) && starts_with (replicate n c) s)) [
    | inl here ↦
        let (after, at) = (starts_with_lem (replicate n c) s).0 (ground (arith, here)) in
        (c, ground (arith, here), ([], after, ap (◌∷◌ c) at))
    | inr away ↦
        let (d, feed, later) = (has_repeat-HasRepeat n s).0 (ground (arith, e, away)) in
        (d, feed, Contains-cons (replicate (suc n) d) c s later)
  ],
  λ h. elim (Contains-uncons (replicate (suc n) h.0) c s h.2) [
    | inl (after, e) ↦ starts n c s h.0 after h.1 e
    | inr later ↦ ground (arith, (has_repeat-HasRepeat n s).1 (h.0, h.1, later))
  ],
)
