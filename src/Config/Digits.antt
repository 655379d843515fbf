-- ===== src/Config/Digits.antt =====
-- `from_str_radix` against the number that digits spell.
use Prim.Native.Char.{Char, code}
use mc_control_plane.Base.{
  ℕ, ◌+◌, ◌-◌, ◌*◌, ◌<◌, ◌≤◌, String, true, ok, ◌==◌, ◌≡◌, refl, arith, inl, inr, Bool-cases,
}
use mc_control_plane.Config.{digits, after_sign, from_str_radix}

abbrev pub IsDigit : ℕ → Char → Type 0
IsDigit radix c = (b'0' ≤ code c) × (code c < b'0' + radix)

abbrev pub AllDigits : ℕ → String → Type 0
AllDigits radix String.[] = Unit
AllDigits radix (String.◌∷◌ c s) = IsDigit radix c × AllDigits radix s

-- The number that the digits spell behind `acc`, with no bound.
abbrev pub value : ℕ → String → ℕ → ℕ
value radix String.[] acc = acc
value radix (String.◌∷◌ c s) acc = value radix s (acc * radix + (code c - b'0'))

-- One digit or more, with a plus sign or without, that spell a number below the limit.
pub data Spells (radix limit : ℕ) (s : String) (n : ℕ) : Type 0 where
  plain :
      (c : Char) (t : String)
      → s ≡ String.◌∷◌ c t
      → AllDigits radix (String.◌∷◌ c t)
      → n ≡ value radix (String.◌∷◌ c t) 0
      → n < limit
      → Spells radix limit s n
  signed :
      (p c : Char) (t : String)
      → s ≡ String.◌∷◌ p (String.◌∷◌ c t)
      → code p ≡ b'+'
      → AllDigits radix (String.◌∷◌ c t)
      → n ≡ value radix (String.◌∷◌ c t) 0
      → n < limit
      → Spells radix limit s n

digits_sound :
    (radix limit : ℕ) (s : String) (acc n : ℕ)
    → acc < limit
    → digits radix limit s acc ≡ ok n
    → AllDigits radix s × (n ≡ value radix s acc) × (n < limit)
unfolding digits
digits_sound radix limit String.[] acc n h e = ground arith
digits_sound radix limit (String.◌∷◌ c s) acc n h e =
    ground (arith, digits_sound radix limit s (acc * radix + (code c - b'0')) n)

le-value : (radix : ℕ) (s : String) (acc : ℕ) → 0 < radix → acc ≤ value radix s acc
le-value radix String.[] acc h = omega arith
le-value radix (String.◌∷◌ c s) acc h =
    grind (arith, le-value radix s (acc * radix + (code c - b'0')) h)

digits_complete :
    (radix limit : ℕ) (s : String) (acc : ℕ)
    → 0 < radix
    → AllDigits radix s
    → value radix s acc < limit
    → digits radix limit s acc ≡ ok (value radix s acc)
unfolding digits
digits_complete radix limit String.[] acc h d l = refl
digits_complete radix limit (String.◌∷◌ c s) acc h (dc, ds) l =
    let m = acc * radix + (code c - b'0') in
    ground (arith, digits_complete radix limit s m h ds, le-value radix s m h)

after_sign-Spells :
    (radix limit : ℕ) (p : Char) (s : String) (n : ℕ)
    → 0 < limit
    → code p ≡ b'+'
    → after_sign radix limit s ≡ ok n
    → Spells radix limit (String.◌∷◌ p s) n
unfolding after_sign
after_sign-Spells radix limit p String.[] n l plus e = cc
after_sign-Spells radix limit p (String.◌∷◌ c t) n l plus e =
    let (d, v, b) = digits_sound radix limit (String.◌∷◌ c t) 0 n l e in
    Spells.signed p c t refl plus d v b

pub from_str_radix-Spells :
    (radix limit : ℕ) (s : String) (n : ℕ)
    → 0 < limit
    → from_str_radix radix limit s ≡ ok n
    → Spells radix limit s n
unfolding from_str_radix
from_str_radix-Spells radix limit String.[] n l e = cc
from_str_radix-Spells radix limit (String.◌∷◌ c s) n l e = elim (Bool-cases (code c == b'+')) [
  | inl plus ↦
      after_sign-Spells radix limit c s n l (omega (arith, eq_of_test plus)) (ground (arith, plus))
  | inr other ↦
      let (d, v, b) = digits_sound radix limit (String.◌∷◌ c s) 0 n l (ground (arith, other)) in
      Spells.plain c s refl d v b
]
  where
    eq_of_test : (code c == b'+') ≡ true → code c ≡ b'+'
    eq_of_test h = ground arith

pub Spells-from_str_radix :
    (radix limit : ℕ) (s : String) (n : ℕ)
    → 0 < radix
    → Spells radix limit s n
    → from_str_radix radix limit s ≡ ok n
unfolding from_str_radix after_sign
Spells-from_str_radix radix limit s n h (Spells.plain c t e d v l) =
    rw e (ground (arith, digits_complete radix limit (String.◌∷◌ c t) 0 h d))
Spells-from_str_radix radix limit s n h (Spells.signed p c t e plus d v l) =
    rw e (ground (arith, digits_complete radix limit (String.◌∷◌ c t) 0 h d))

-- A number below a smaller limit.
pub Spells-limit :
    (radix limit limit' : ℕ) (s : String) (n : ℕ)
    → n < limit'
    → Spells radix limit s n
    → Spells radix limit' s n
Spells-limit radix limit limit' s n l (Spells.plain c t e d v _) = Spells.plain c t e d v l
Spells-limit radix limit limit' s n l (Spells.signed p c t e plus d v _) =
    Spells.signed p c t e plus d v l

pub Spells-lt : {radix limit : ℕ} {s : String} {n : ℕ} → Spells radix limit s n → n < limit
Spells-lt (Spells.plain c t e d v l) = l
Spells-lt (Spells.signed p c t e plus d v l) = l
