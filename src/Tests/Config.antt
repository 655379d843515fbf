-- ===== src/Tests/Config.antt =====
-- The option parsers of the daemon at concrete texts.
use mc_control_plane.Base.{decimal, ok, ◌≡◌, ◌↔◌, arith, ◌<>◌, ◌<◌}
use mc_control_plane.Config.{parse_mode, parse_positive_u64, from_str_radix, u64_limit}
use mc_control_plane.Config.Digits.{Spells}
use mc_control_plane.Config.Parsers.{IsOctalMode, parse_mode_iff, parse_positive_u64_iff}
use mc_control_plane.Config.Octal.{octal_mode, parse_mode-octal_mode}
use mc_control_plane.Config.Decimal.{from_str_radix-decimal}

parse_mode_iff_example : (parse_mode "0o660" ≡ ok 432) ↔ IsOctalMode 432 "0o660"
parse_mode_iff_example = parse_mode_iff "0o660" 432

interval_is_read :
    (parse_positive_u64 "5000" ≡ ok 5000) ↔ (Spells 10 u64_limit "5000" 5000 × (0 < 5000))
interval_is_read = parse_positive_u64_iff "5000" 5000

logged_mode_is_read :
    (parse_mode (octal_mode 432) ≡ ok 432) × (parse_mode ("0o" <> octal_mode 432) ≡ ok 432)
logged_mode_is_read = parse_mode-octal_mode 432 (omega arith)

u64_max_is_read :
    from_str_radix 10 u64_limit (decimal 18446744073709551615) ≡ ok 18446744073709551615
u64_max_is_read = from_str_radix-decimal 18446744073709551615 (omega arith)
