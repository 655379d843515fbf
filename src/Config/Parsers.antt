-- ===== src/Config/Parsers.antt =====
-- What `parse_mode` and `parse_positive_u64` of config.rs accept, and what they answer.
use Prim.Native.Char.{Char, code}
use mc_control_plane.Base.{
  ℕ, ◌<◌, String, ok, subst, refl, Bool-cases, ◌&&◌, ◌==◌, ◌≡◌, ◌↔◌, arith, inl, inr, Result-cases,
  ◌>>=◌,
}
use mc_control_plane.Config.{
  from_str_radix, trim_octal_prefix, parse_mode, parse_positive_u64, u32_limit, u64_limit,
}
use mc_control_plane.Config.Digits.{
  AllDigits, Spells, from_str_radix-Spells, Spells-from_str_radix, Spells-limit, Spells-lt,
}

parse_mode-Spells :
    (text : String) (mode : ℕ)
    → parse_mode text ≡ ok mode
    → Spells 8 4096 (trim_octal_prefix text) mode
unfolding parse_mode ◌>>=◌
parse_mode-Spells text mode e =
    elim (Result-cases (from_str_radix 8 u32_limit (trim_octal_prefix text))) [
      | inl (m, read) ↦
          Spells-limit 8 u32_limit 4096 (trim_octal_prefix text) mode (ground (arith, read)) (
            from_str_radix-Spells 8 u32_limit (trim_octal_prefix text) mode (omega arith)
              (ground (arith, read)))
      | inr (x, failed) ↦ absurd (ground (arith, failed))
    ]

pub Spells-parse_mode :
    (text : String) (mode : ℕ)
    → Spells 8 4096 (trim_octal_prefix text) mode
    → parse_mode text ≡ ok mode
unfolding parse_mode ◌>>=◌
Spells-parse_mode text mode s =
    rw
      (Spells-from_str_radix 8 u32_limit _ mode (omega arith)
        (Spells-limit 8 4096 u32_limit _ mode (omega (arith, Spells-lt s)) s))
      (ground (arith, Spells-lt s))

-- A text that starts with "0o".
pub data Prefixed (rest : String) (text : String) : Type 0 where
  zero_o :
      (a b : Char)
      → text ≡ String.◌∷◌ a (String.◌∷◌ b rest)
      → code a ≡ b'0'
      → code b ≡ b'o'
      → Prefixed rest text

-- An octal number up to 0o7777 behind any number of "0o" prefixes.
pub data IsOctalMode (mode : ℕ) : String → Type 0 where
  prefixed :
      {text : String} (rest : String)
      → Prefixed rest text
      → IsOctalMode mode rest
      → IsOctalMode mode text
  spelled : {text : String} → Spells 8 4096 text mode → IsOctalMode mode text

trim-Prefixed :
    (rest text : String) → Prefixed rest text → trim_octal_prefix text ≡ trim_octal_prefix rest
unfolding trim_octal_prefix
trim-Prefixed rest text (Prefixed.zero_o a b e za ob) = rw e (ground (arith, za, ob))

trim-plain :
    (c : Char) (t : String)
    → AllDigits 8 (String.◌∷◌ c t)
    → trim_octal_prefix (String.◌∷◌ c t) ≡ String.◌∷◌ c t
unfolding trim_octal_prefix
trim-plain c String.[] d = refl
trim-plain c (String.◌∷◌ b s) d = ground (arith, d)

trim-Spells : (text : String) (mode : ℕ) → Spells 8 4096 text mode → trim_octal_prefix text ≡ text
unfolding trim_octal_prefix
trim-Spells text mode (Spells.plain c t e d v l) = rw e (trim-plain c t d)
trim-Spells text mode (Spells.signed p c t e plus d v l) = rw e (ground (arith, plus))

octal-Spells :
    (mode : ℕ) (text : String) → IsOctalMode mode text → Spells 8 4096 (trim_octal_prefix text) mode
octal-Spells mode text (IsOctalMode.prefixed rest p h) =
    rw (trim-Prefixed rest text p) (octal-Spells mode rest h)
octal-Spells mode text (IsOctalMode.spelled s) = rw (trim-Spells text mode s) s

Spells-octal :
    (mode : ℕ) (text : String) → Spells 8 4096 (trim_octal_prefix text) mode → IsOctalMode mode text
unfolding trim_octal_prefix
Spells-octal mode String.[] s = IsOctalMode.spelled s
Spells-octal mode (String.◌∷◌ a String.[]) s = IsOctalMode.spelled s
Spells-octal mode (String.◌∷◌ a (String.◌∷◌ b t)) s =
    elim (Bool-cases (code a == b'0' && code b == b'o')) [
      | inl both ↦
          IsOctalMode.prefixed t
            (Prefixed.zero_o a b refl (ground (arith, both)) (ground (arith, both)))
            (Spells-octal mode t (subst (λ u. Spells 8 4096 u mode) (ground (arith, both)) s))
      | inr other ↦
          IsOctalMode.spelled (subst (λ u. Spells 8 4096 u mode) (ground (arith, other)) s)
    ]

-- `parse_mode` accepts just the texts that are, behind any number of "0o" prefixes, one octal digit
-- or more, with a plus sign or without, that spell a number up to 0o7777, and answers that number.
pub parse_mode_iff :
    (text : String) (mode : ℕ) → (parse_mode text ≡ ok mode) ↔ IsOctalMode mode text
parse_mode_iff text mode = (
  λ e. Spells-octal mode text (parse_mode-Spells text mode e),
  λ h. Spells-parse_mode text mode (octal-Spells mode text h),
)

parse_positive_u64-Spells :
    (text : String) (n : ℕ) → parse_positive_u64 text ≡ ok n → Spells 10 u64_limit text n × (0 < n)
unfolding parse_positive_u64 ◌>>=◌
parse_positive_u64-Spells text n e = elim (Result-cases (from_str_radix 10 u64_limit text)) [
  | inl (m, read) ↦ (
    from_str_radix-Spells 10 u64_limit text n (omega arith) (ground (arith, read)),
    ground (arith, read),
  )
  | inr (x, failed) ↦ absurd (ground (arith, failed))
]

-- `parse_positive_u64` accepts just the texts that are one decimal digit or more, with a plus sign or
-- without, that spell a number from 1 to u64::MAX, and answers that number.
pub parse_positive_u64_iff :
    (text : String) (n : ℕ)
    → (parse_positive_u64 text ≡ ok n) ↔ (Spells 10 u64_limit text n × (0 < n))
unfolding parse_positive_u64 ◌>>=◌
parse_positive_u64_iff text n = (
  parse_positive_u64-Spells text n,
  λ s. rw (Spells-from_str_radix 10 u64_limit text n (omega arith) s.0) (ground arith),
)
