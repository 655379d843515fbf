-- ===== src/Base/Texts.antt =====
-- Texts: equality tests, concatenation and the byte order, which Rust's `str::cmp` and SQLite's
-- BINARY collation both use.
use Prim.Native.Char.{code}
use Prim.Native.Nat.{ℕ, Ordering, compare as compare_ℕ}
use Prim.Native.String.compare
use Prim.Native.String.{String, compare, then as after}
use Prim.Native.String
use mathlib.Core.Path.{◌≡◌, refl, sym, ap, ◌∙◌}
use mathlib.Core.Bool.{Bool, true, false}
use native.Mathlib.Omega.{arith}
pub use text.Mathlib.Text.{◌==◌ as str_eq}

-- `format!` joins texts.
infixr 60 ◌<>◌
abbrev pub ◌<>◌ : String → String → String
a <> b = String.◌++◌ a b

-- a ≤ b in the byte order.
abbrev pub str_le : String → String → Bool
str_le a b = elim (compare a b) [ Ordering.gt ↦ false | _ ↦ true ]

abbrev reversed : Ordering → Ordering
reversed Ordering.lt = Ordering.gt
reversed Ordering.eq = Ordering.eq
reversed Ordering.gt = Ordering.lt

reversed-after : (o p : Ordering) → reversed (after o p) ≡ after (reversed o) (reversed p)
reversed-after Ordering.lt p = refl
reversed-after Ordering.eq p = refl
reversed-after Ordering.gt p = refl

compare_ℕ-swap : (m n : ℕ) → compare_ℕ n m ≡ reversed (compare_ℕ m n)
compare_ℕ-swap m n = ground arith

compare-swap : (s t : String) → compare t s ≡ reversed (compare s t)
compare-swap String.[] String.[] = compare.nil-nil ∙ sym (ap reversed compare.nil-nil)
compare-swap String.[] (String.◌∷◌ d t) =
    compare.cons-nil d t ∙ sym (ap reversed (compare.nil-cons d t))
compare-swap (String.◌∷◌ c s) String.[] =
    compare.nil-cons c s ∙ sym (ap reversed (compare.cons-nil c s))
compare-swap (String.◌∷◌ c s) (String.◌∷◌ d t) =
    compare.cons-cons d c t s
    ∙ ap (λ o. after o (compare t s)) (compare_ℕ-swap (code c) (code d))
    ∙ ap (after (reversed (compare_ℕ (code c) (code d)))) (compare-swap s t)
    ∙ sym (reversed-after (compare_ℕ (code c) (code d)) (compare s t))
    ∙ sym (ap reversed (compare.cons-cons c d s t))

pub str_le_total : (s t : String) → str_le s t ≡ false → str_le t s ≡ true
str_le_total s t h = ground (arith, compare-swap s t)

-- An equal text is at or below.
pub str_le_of_eq : (s t : String) → str_eq s t ≡ true → str_le s t ≡ true
str_le_of_eq s t h = ground arith
