-- ===== src/Base/Chars.antt =====
-- Strings that the program takes apart: their code points, and Python's methods on the ASCII ones.
use Prim.Native.Char.{code}
use Prim.Native.String.{String}
use auth_manager.Base.{
  List, Bool, ◌≡◌, Eq, ℕ, map, reverse, true, if◌then◌else◌, ◌==◌, [], ◌∷◌, false, ◌↔◌, leb, ◌||◌,
  nat_beq, arith, ◌&&◌, ◌+◌, nat_eq,
}

abbrev pub Chars : Type 0
Chars = List ℕ

abbrev pub chars_beq : Chars → Chars → Bool
chars_beq [] [] = true
chars_beq [] (y ∷ ys) = false
chars_beq (x ∷ xs) [] = false
chars_beq (x ∷ xs) (y ∷ ys) = nat_beq x y && chars_beq xs ys

pub chars_beq_iff : (a b : Chars) → (chars_beq a b ≡ true) ↔ (a ≡ b)
chars_beq_iff [] [] = ground arith
chars_beq_iff [] (y ∷ ys) = ground arith
chars_beq_iff (x ∷ xs) [] = ground arith
chars_beq_iff (x ∷ xs) (y ∷ ys) = ground (arith, chars_beq_iff xs ys)

instance abbrev pub chars_eq : Eq Chars
chars_eq = record { beq = chars_beq; beq_iff = chars_beq_iff }

abbrev pub is_empty {ℓ} : {A : Type ℓ} → List A → Bool
is_empty [] = true
is_empty (_ ∷ _) = false

-- `str.lower`
abbrev pub lower_char : ℕ → ℕ
lower_char c = if leb b'A' c && leb c b'Z' then c + 32 else c

unfoldable pub lower : Chars → Chars
lower = map lower_char

-- The white space that `str.strip` removes.
abbrev pub is_space : ℕ → Bool
is_space c = c == 32 || (leb 9 c && leb c 13) || (leb 28 c && leb c 31)

pub lstrip : Chars → Chars
lstrip [] = []
lstrip (c ∷ s) = let rest = lstrip s in if is_space c then rest else c ∷ s

unfoldable pub strip : Chars → Chars
unfolding lstrip
strip s = reverse (lstrip (reverse (lstrip s)))

-- `s.startswith(p)`
unfoldable pub starts_with : Chars → Chars → Bool
starts_with [] s = true
starts_with (c ∷ p) [] = false
starts_with (c ∷ p) (d ∷ s) = c == d && starts_with p s

-- The code points of a literal. `String` has its own `[]` and `∷`.
abbrev pub codes : String → Chars
codes String.[] = []
codes (String.◌∷◌ c s) = code c ∷ codes s
