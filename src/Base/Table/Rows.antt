-- ===== src/Base/Table/Rows.antt =====
-- The row of a unique key, and the other rows, after an update.
use mathlib.Core.Path.{◌≡◌, refl, subst}
use mathlib.Core.Logic.{inl, inr}
use mathlib.Core.Bool.{Bool, true, false, ◌&&◌}
use mathlib.Core.Option.{none, some}
use mathlib.Core.List.{List, [], ◌∷◌}
use native.Mathlib.Omega.{arith}
use text.Mathlib.TextEquality.{eq_iff}
use Prim.Native.String.{String}
use Prim.Native.Nat.{◌<◌}
use mc_control_plane.Base.Tests.{Bool-cases}
use mc_control_plane.Base.Table.{find_row, update_rows, count_rows}
use mc_control_plane.Base.Table.Keys.{has_key, Unique}

module _ {A : Type 0} where
  count_rows-none :
      (p q : A → Bool) (rs : List A)
      → ((r : A) → p r ≡ true → q r ≡ true)
      → find_row q rs ≡ none
      → count_rows p rs ≡ 0
  unfolding find_row count_rows
  count_rows-none p q [] h e = refl
  count_rows-none p q (r ∷ rs) h e = ground (arith, h r, count_rows-none p q rs h)

  -- Rows that the update does not reach are found as before.
  pub find_row-update_other :
      (p q : A → Bool) (f : A → A) (rs : List A)
      → ((r : A) → p r ≡ true → q r ≡ false)
      → ((r : A) → q (f r) ≡ q r)
      → find_row q (update_rows p f rs) ≡ find_row q rs
  unfolding find_row update_rows
  find_row-update_other p q f [] h k = refl
  find_row-update_other p q f (r ∷ rs) h k =
      ground (arith, h r, k r, find_row-update_other p q f rs h k)

  pub find_row-fits : (p : A → Bool) (rs : List A) (r : A) → find_row p rs ≡ some r → p r ≡ true
  unfolding find_row
  find_row-fits p [] r e = cc
  find_row-fits p (s ∷ rs) r e = ground (arith, find_row-fits p rs r)

module _ {A : Type 0} (key : A → String) where
  -- An update of the row of a unique key that affects a row changes that row.
  pub find_row-updated :
      (k : String) (p : A → Bool) (f : A → A) (rs : List A) (r : A)
      → Unique key rs
      → ((s : A) → p s ≡ true → has_key key k s ≡ true)
      → ((s : A) → key (f s) ≡ key s)
      → 0 < count_rows p rs
      → find_row (has_key key k) rs ≡ some r
      → find_row (has_key key k) (update_rows p f rs) ≡ some (f r)
  unfolding find_row update_rows count_rows
  find_row-updated k p f [] r u h same n e = cc
  find_row-updated k p f (s ∷ rs) r u h same n e = elim (Bool-cases (has_key key k s)) [
    | inl mine ↦ elim (Bool-cases (p s)) [
      | inl hit ↦ ground (arith, same s)
      | inr miss ↦ absurd (
          ground (
            arith,
            count_rows-none p (has_key key k) rs h
                (subst (λ x. find_row (has_key key x) rs ≡ none) ((eq_iff (key s) k).0 mine) u.0),
          ))
    ]
    | inr other ↦ ground (arith, h s, same s, find_row-updated k p f rs r u.1 h same)
  ]

  -- A test of the row of a unique key that fails leaves no row to find.
  pub find_row-refused :
      (k : String) (q : A → Bool) (rs : List A) (r : A)
      → Unique key rs
      → find_row (has_key key k) rs ≡ some r
      → q r ≡ false
      → find_row (λ s. has_key key k s && q s) rs ≡ none
  unfolding find_row
  find_row-refused k q [] r u e n = refl
  find_row-refused k q (s ∷ rs) r u e n = elim (Bool-cases (has_key key k s)) [
    | inl mine ↦ ground (
      arith,
      absent k q rs
          (subst (λ x. find_row (has_key key x) rs ≡ none) ((eq_iff (key s) k).0 mine) u.0),
    )
    | inr other ↦ ground (arith, find_row-refused k q rs r u.1)
  ]
    where
      absent :
          (k : String) (q : A → Bool) (rs : List A)
          → find_row (has_key key k) rs ≡ none
          → find_row (λ s. has_key key k s && q s) rs ≡ none
      absent k q [] e = refl
      absent k q (s ∷ rs) e = ground (arith, absent k q rs)
