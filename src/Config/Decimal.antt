-- ===== src/Config/Decimal.antt =====
-- Numbers that are printed in decimal are read back: `Display` of u64 against `str::parse::<u64>`.
use Prim.Native.Char.{Char}
use mc_control_plane.Base.{
  ℕ, zero, suc, ◌/◌, ◌%◌, ◌^◌, ◌<◌, String, true, ok, ◌≡◌, refl, sym, subst, ap, ◌∙◌, arith, ◌==◌,
  write_digits, decimal, digit_char, code-digit_char, Bool-cases, inl, inr,
}
use mc_control_plane.Config.{from_str_radix, u64_limit}
use mc_control_plane.Config.Digits.{Spells, IsDigit, AllDigits, value, Spells-from_str_radix}

-- One digit at least.
data IsDecimal (s : String) : Type 0 where
  decimal_text : (c : Char) (t : String) → s ≡ String.◌∷◌ c t → AllDigits 10 s → IsDecimal s

digit_char-IsDigit : (n : ℕ) → IsDigit 10 (digit_char (n % 10))
digit_char-IsDigit n = omega (arith, code-digit_char (n % 10) (omega arith))

-- What a round writes, in front of what was written.
abbrev before : ℕ → String → String
before n out = String.◌∷◌ (digit_char (n % 10)) out

value-before : (q n : ℕ) (out : String) → q ≡ n / 10 → value 10 (before n out) q ≡ value 10 out n
value-before q n out e =
    ap (value 10 out) (omega (arith, e, code-digit_char (n % 10) (omega arith)))

Written : ℕ → String → String → Type 0
Written n out s = IsDecimal s × (value 10 s 0 ≡ value 10 out n)

test_zero : (n : ℕ) → (n == 0) ≡ true → 0 ≡ n
test_zero n h = ground arith

is_last : (n : ℕ) → n ≡ 0 → (n == 0) ≡ true
is_last n h = ground arith

smaller : (fuel n : ℕ) → n < 10 ^ suc (suc fuel) → n / 10 < 10 ^ suc fuel
smaller fuel n h = omega arith

further : (n : ℕ) (out s : String) → Written (n / 10) (before n out) s → Written n out s
unfolding Written
further n out s w = (w.0, w.1 ∙ value-before (n / 10) n out refl)

last-Written : (n : ℕ) (out : String) → 0 ≡ n / 10 → AllDigits 10 out → Written n out (before n out)
unfolding Written
last-Written n out e d =
    (IsDecimal.decimal_text _ out refl (digit_char-IsDigit n, d), value-before 0 n out e)

-- With a round for each digit, what the loop writes spells the number.
write_digits-Written :
    (fuel n : ℕ) (out : String)
    → n < 10 ^ suc fuel
    → AllDigits 10 out
    → Written n out (write_digits (suc fuel) n out)
unfolding write_digits
write_digits-Written zero n out h d =
    rw (is_last (n / 10) (omega arith)) (last-Written n out (omega arith) d)
write_digits-Written (suc fuel) n out h d = elim (Bool-cases (n / 10 == 0)) [
  | inl last ↦ rw last (last-Written n out (test_zero (n / 10) last) d)
  | inr more ↦ rw more (
      further n out _ (
        write_digits-Written fuel (n / 10) (before n out) (smaller fuel n h)
          (digit_char-IsDigit n, d)))
]

-- Every number a u64 holds is printed in decimal with no digit missing, and is read back.
pub from_str_radix-decimal :
    (n : ℕ) → n < u64_limit → from_str_radix 10 u64_limit (decimal n) ≡ ok n
unfolding decimal Written
from_str_radix-decimal n h =
    let w = write_digits-Written 19 n String.[] (omega arith) tt in
    Spells-from_str_radix 10 u64_limit (decimal n) n (omega arith) (spelled (w.0) (w.1))
  where
    spelled : IsDecimal (decimal n) → value 10 (decimal n) 0 ≡ n → Spells 10 u64_limit (decimal n) n
    spelled (IsDecimal.decimal_text c t e d) v =
        Spells.plain c t e (subst (AllDigits 10) e d) (sym v ∙ ap (λ s. value 10 s 0) e) h
