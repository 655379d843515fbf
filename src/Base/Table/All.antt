-- ===== src/Base/Table/All.antt =====
-- What holds of every row of a table, and what holds of some row.
use mathlib.Core.Logic.{◌⊎◌, inl, inr}
use mathlib.Core.Bool.{Bool, true, false}
use mathlib.Core.List.{List, [], ◌∷◌, ◌++◌}
use mc_control_plane.Base.Tests.{Bool-cases, if◌then◌else◌}
use mc_control_plane.Base.Table.{update_rows, delete_rows, insert_row, sort_rows}

abbrev pub All : {R : Type 0} → (R → Type 0) → List R → Type 0
All Q [] = Unit
All Q (r ∷ rs) = Q r × All Q rs

module _ {R : Type 0} (Q : R → Type 0) where
  pub All-append : (rs : List R) (r : R) → All Q rs → Q r → All Q (rs ++ r ∷ [])
  All-append [] r a q = (q, tt)
  All-append (s ∷ rs) r a q = (a.0, All-append rs r a.1 q)

  pub All-update :
      (p : R → Bool) (f : R → R) (rs : List R)
      → ((r : R) → Q r → Q (f r))
      → All Q rs
      → All Q (update_rows p f rs)
  unfolding update_rows
  All-update p f [] k a = tt
  All-update p f (r ∷ rs) k a = (updated (p r), All-update p f rs k a.1)
    where
      updated : (b : Bool) → Q (if b then f r else r)
      updated true = k r a.0
      updated false = a.0

  pub All-delete : (p : R → Bool) (rs : List R) → All Q rs → All Q (delete_rows p rs)
  unfolding delete_rows
  All-delete p [] a = tt
  All-delete p (r ∷ rs) a = elim (Bool-cases (p r)) [
    | inl gone ↦ rw gone (All-delete p rs a.1)
    | inr kept ↦ rw kept (a.0, All-delete p rs a.1)
  ]

  All-insert :
      (le : R → R → Bool) (r : R) (rs : List R) → Q r → All Q rs → All Q (insert_row le r rs)
  unfolding insert_row
  All-insert le r [] q a = (q, tt)
  All-insert le r (s ∷ rs) q a = elim (Bool-cases (le r s)) [
    | inl before ↦ rw before (q, a)
    | inr after ↦ rw after (a.0, All-insert le r rs q a.1)
  ]

  pub All-sort : (le : R → R → Bool) (rs : List R) → All Q rs → All Q (sort_rows le rs)
  unfolding sort_rows
  All-sort le [] a = tt
  All-sort le (r ∷ rs) a = All-insert le r (sort_rows le rs) a.0 (All-sort le rs a.1)

  pub All-concat : (rs ss : List R) → All Q rs → All Q ss → All Q (rs ++ ss)
  All-concat [] ss a b = b
  All-concat (r ∷ rs) ss a b = (a.0, All-concat rs ss a.1 b)

abbrev pub Any : {A : Type 0} → (A → Type 0) → List A → Type 0
Any Q [] = ⊥
Any Q (x ∷ xs) = Q x ⊎ Any Q xs

module _ {A : Type 0} (Q : A → Type 0) where
  pub Any-concat : (xs ys : List A) → Any Q xs → Any Q (xs ++ ys)
  Any-concat [] ys v = absurd v
  Any-concat (x ∷ xs) ys (inl q) = inl q
  Any-concat (x ∷ xs) ys (inr v) = inr (Any-concat xs ys v)

  pub Any-update :
      (p : A → Bool) (f : A → A) (xs : List A)
      → ((x : A) → Q x → Q (f x))
      → Any Q xs
      → Any Q (update_rows p f xs)
  unfolding update_rows
  Any-update p f [] k v = absurd v
  Any-update p f (x ∷ xs) k (inl q) = inl (updated (p x))
    where
      updated : (b : Bool) → Q (if b then f x else x)
      updated true = k x q
      updated false = q
  Any-update p f (x ∷ xs) k (inr v) = inr (Any-update p f xs k v)
