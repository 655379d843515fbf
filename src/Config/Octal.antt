-- ===== src/Config/Octal.antt =====
-- The socket mode as rpc.rs logs it, `{socket_mode:04o}`, against `parse_mode` of config.rs.
use mc_control_plane.Base.{
  ℕ, digit_char, code-digit_char, ◌/◌, ◌%◌, ◌≤◌, String, ◌<>◌, ok, ◌≡◌, refl, arith,
}
use text.Mathlib.TextLemmas.{cons-append, nil-append}
use mc_control_plane.Config.{trim_octal_prefix, parse_mode}
use mc_control_plane.Config.Digits.{Spells}
use mc_control_plane.Config.Parsers.{Spells-parse_mode}

-- `{mode:04o}`, for a mode of four digits at most.
unfoldable pub octal_mode : ℕ → String
octal_mode mode = String.◌∷◌ (digit_char (mode / 512)) (
    String.◌∷◌ (digit_char (mode / 64 % 8))
      (String.◌∷◌ (digit_char (mode / 8 % 8)) (String.◌∷◌ (digit_char (mode % 8)) String.[])))

octal_mode-Spells : (mode : ℕ) → mode ≤ 4095 → Spells 8 4096 (octal_mode mode) mode
unfolding octal_mode
octal_mode-Spells mode h =
    let a = code-digit_char (mode / 512) (omega arith) in
    let b = code-digit_char (mode / 64 % 8) (omega arith) in
    let c = code-digit_char (mode / 8 % 8) (omega arith) in
    let d = code-digit_char (mode % 8) (omega arith) in
    Spells.plain _ _ refl (omega (arith, a, b, c, d)) (rw (a, b, c, d) (omega arith)) (omega arith)

trim-octal_mode : (mode : ℕ) → mode ≤ 4095 → trim_octal_prefix (octal_mode mode) ≡ octal_mode mode
unfolding trim_octal_prefix octal_mode
trim-octal_mode mode h = ground (arith, code-digit_char (mode / 64 % 8))

trim-prefix : (s : String) → trim_octal_prefix ("0o" <> s) ≡ trim_octal_prefix s
unfolding trim_octal_prefix
trim-prefix s = rw (cons-append "0" "o" s, cons-append "o" "" s, nil-append s) refl

-- A mode up to 0o7777 that is printed as the server logs it is read back, with an "0o" prefix and
-- without.
pub parse_mode-octal_mode :
    (mode : ℕ)
    → mode ≤ 4095
    → (parse_mode (octal_mode mode) ≡ ok mode) × (parse_mode ("0o" <> octal_mode mode) ≡ ok mode)
parse_mode-octal_mode mode h =
    let s = octal_mode-Spells mode h in
    (
      Spells-parse_mode (octal_mode mode) mode (rw (trim-octal_mode mode h) s),
      Spells-parse_mode ("0o" <> octal_mode mode) mode
          (rw (trim-prefix (octal_mode mode), trim-octal_mode mode h) s),
    )
