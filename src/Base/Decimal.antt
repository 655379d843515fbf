-- ===== src/Base/Decimal.antt =====
-- Rust's `Display` of an unsigned number, in decimal, and the digits it is made of.
use Prim.Native.Char.{Char, code}
use Prim.Native.Nat.{ℕ, zero, suc, ◌+◌, ◌/◌, ◌%◌, ◌<◌}
use Prim.Native.String.{String}
use mathlib.Core.Path.{◌≡◌, refl}
use native.Mathlib.Omega.{arith}
use mc_control_plane.Base.Tests.{◌==◌, if◌then◌else◌}

pub digit_char : ℕ → Char
digit_char zero = "0"
digit_char (suc zero) = "1"
digit_char (suc (suc zero)) = "2"
digit_char (suc (suc (suc zero))) = "3"
digit_char (suc (suc (suc (suc zero)))) = "4"
digit_char (suc (suc (suc (suc (suc zero))))) = "5"
digit_char (suc (suc (suc (suc (suc (suc zero)))))) = "6"
digit_char (suc (suc (suc (suc (suc (suc (suc zero))))))) = "7"
digit_char (suc (suc (suc (suc (suc (suc (suc (suc zero)))))))) = "8"
digit_char (suc (suc (suc (suc (suc (suc (suc (suc (suc _))))))))) = "9"

pub code-digit_char : (d : ℕ) → d < 10 → code (digit_char d) ≡ b'0' + d
unfolding digit_char
code-digit_char zero h = refl
code-digit_char (suc zero) h = refl
code-digit_char (suc (suc zero)) h = refl
code-digit_char (suc (suc (suc zero))) h = refl
code-digit_char (suc (suc (suc (suc zero)))) h = refl
code-digit_char (suc (suc (suc (suc (suc zero))))) h = refl
code-digit_char (suc (suc (suc (suc (suc (suc zero)))))) h = refl
code-digit_char (suc (suc (suc (suc (suc (suc (suc zero))))))) h = refl
code-digit_char (suc (suc (suc (suc (suc (suc (suc (suc zero)))))))) h = refl
code-digit_char (suc (suc (suc (suc (suc (suc (suc (suc (suc zero))))))))) h = refl
code-digit_char (suc (suc (suc (suc (suc (suc (suc (suc (suc (suc n)))))))))) h =
    absurd (omega arith)

-- The loop that writes the digits from the last, with a round of fuel for each.
unfoldable pub write_digits : ℕ → ℕ → String → String
unfolding digit_char
write_digits zero n out = out
write_digits (suc fuel) n out =
    let rest = write_digits fuel (n / 10) (String.◌∷◌ (digit_char (n % 10)) out) in
    if n / 10 == 0 then String.◌∷◌ (digit_char (n % 10)) out else rest

-- Twenty digits are enough for a `u64`.
unfoldable pub decimal : ℕ → String
unfolding write_digits
decimal n = write_digits 20 n String.[]
