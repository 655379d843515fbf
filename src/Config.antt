-- ===== src/Config.antt =====
-- crates/control-plane/src/config.rs: the options of the daemon and the parsers of two of them, with
-- what they use of Rust's standard library (`from_str_radix`, `str::parse` and
-- `trim_start_matches`). clap fills the record and prints the errors, which are data here.
pub mod Digits
pub mod Parsers
pub mod Octal
pub mod Decimal
use Prim.Native.Char.{Char, code}
use mc_control_plane.Base.{
  ℕ, ◌+◌, ◌-◌, ◌*◌, String, Bool, ◌&&◌, Option, none, some, Result, ok, err, ◌==◌, leb, ltb,
  if◌then◌else◌, ◌>>=◌, map_err,
}

pub data LogFormat : Type 0 where
  json compact : LogFormat

pub record Config : Type 0 where
  pub socket_path : String
  pub database_path : String
  pub fake_provider_database_path : String
  pub socket_mode : ℕ  -- u32
  pub reconcile_interval_ms : ℕ  -- u64
  pub log_format : LogFormat

-- `std::num::ParseIntError`, for unsigned types.
pub data ParseIntError : Type 0 where
  empty invalid_digit pos_overflow : ParseIntError

-- `char::to_digit`, for a radix of ten at most.
abbrev pub to_digit : ℕ → Char → Option ℕ
to_digit radix c =
    if leb b'0' (code c) && ltb (code c) (b'0' + radix) then some (code c - b'0') else none

-- The loop of `from_str_radix`; `limit` is the first number that the type cannot hold.
unfoldable pub digits : ℕ → ℕ → String → ℕ → Result ParseIntError ℕ
digits radix limit String.[] acc = ok acc
digits radix limit (String.◌∷◌ c s) acc = elim (to_digit radix c) [
  | none ↦ err ParseIntError.invalid_digit
  | some d ↦
      let rest = digits radix limit s (acc * radix + d) in
      if ltb (acc * radix + d) limit then rest else err ParseIntError.pos_overflow
]

-- A sign needs a digit behind it.
unfoldable pub after_sign : ℕ → ℕ → String → Result ParseIntError ℕ
unfolding digits
after_sign radix limit String.[] = err ParseIntError.invalid_digit
after_sign radix limit (String.◌∷◌ c s) = digits radix limit (String.◌∷◌ c s) 0

unfoldable pub from_str_radix : ℕ → ℕ → String → Result ParseIntError ℕ
unfolding digits after_sign
from_str_radix radix limit String.[] = err ParseIntError.empty
from_str_radix radix limit (String.◌∷◌ c s) =
    if code c == b'+' then after_sign radix limit s else digits radix limit (String.◌∷◌ c s) 0

-- `value.trim_start_matches("0o")`: the prefix is taken off as often as it stands there.
unfoldable pub trim_octal_prefix : String → String
trim_octal_prefix String.[] = String.[]
trim_octal_prefix (String.◌∷◌ a String.[]) = String.◌∷◌ a String.[]
trim_octal_prefix (String.◌∷◌ a (String.◌∷◌ b s)) =
    let rest = trim_octal_prefix s in
    if code a == b'0' && code b == b'o' then rest else String.◌∷◌ a (String.◌∷◌ b s)

abbrev pub u32_limit : ℕ
u32_limit = 4294967296

abbrev pub u64_limit : ℕ
u64_limit = 18446744073709551616

pub data OptionError : Type 0 where
  invalid_octal_mode : String → ParseIntError → OptionError
  mode_outside : String → OptionError
  invalid_positive : String → ParseIntError → OptionError
  not_positive : OptionError

unfoldable pub parse_mode : String → Result OptionError ℕ
unfolding from_str_radix trim_octal_prefix
parse_mode value = do
  mode ←
      map_err (OptionError.invalid_octal_mode value)
        (from_str_radix 8 u32_limit (trim_octal_prefix value))
  if leb mode 4095 then ok mode else err (OptionError.mode_outside value)

unfoldable pub parse_positive_u64 : String → Result OptionError ℕ
unfolding from_str_radix
parse_positive_u64 value = do
  parsed ← map_err (OptionError.invalid_positive value) (from_str_radix 10 u64_limit value)
  if parsed == 0 then err OptionError.not_positive else ok parsed
