-- ===== src/Base/Table.antt =====
-- The rows of a table as a list: selection, update, deletion and order.
pub mod Keys
pub mod Held
pub mod Rows
pub mod Least
pub mod All
use Prim.Native.Nat.{ℕ, zero, suc}
use mathlib.Core.Bool.{Bool}
use mathlib.Core.Option.{Option, none, some}
use mathlib.Core.List.{List, [], ◌∷◌}
use mc_control_plane.Base.Tests.{if◌then◌else◌}

module _ {ℓ} {A : Type ℓ} where
  -- The first row that fits.
  unfoldable pub find_row : (A → Bool) → List A → Option A
  find_row p [] = none
  find_row p (r ∷ rs) = if p r then some r else find_row p rs

  unfoldable pub filter_rows : (A → Bool) → List A → List A
  filter_rows p [] = []
  filter_rows p (r ∷ rs) = let rest = filter_rows p rs in if p r then r ∷ rest else rest

  -- How many rows a statement affects.
  unfoldable pub count_rows : (A → Bool) → List A → ℕ
  count_rows p [] = zero
  count_rows p (r ∷ rs) = let rest = count_rows p rs in if p r then suc rest else rest

  unfoldable pub update_rows : (A → Bool) → (A → A) → List A → List A
  update_rows p f [] = []
  update_rows p f (r ∷ rs) = (if p r then f r else r) ∷ update_rows p f rs

  unfoldable pub delete_rows : (A → Bool) → List A → List A
  delete_rows p [] = []
  delete_rows p (r ∷ rs) = let rest = delete_rows p rs in if p r then rest else r ∷ rest

  unfoldable pub insert_row : (A → A → Bool) → A → List A → List A
  insert_row le r [] = r ∷ []
  insert_row le r (s ∷ ss) = if le r s then r ∷ s ∷ ss else s ∷ insert_row le r ss

  -- ORDER BY.
  unfoldable pub sort_rows : (A → A → Bool) → List A → List A
  unfolding insert_row
  sort_rows le [] = []
  sort_rows le (r ∷ rs) = insert_row le r (sort_rows le rs)

  -- LIMIT 1.
  abbrev pub limit_one : List A → Option A
  limit_one [] = none
  limit_one (r ∷ rs) = some r
