-- ===== src/Base/Table/Keys.antt =====
-- Lookups after a change of a table, and unique keys.
use mathlib.Core.Path.{◌≡◌, refl, ap, ◌∙◌}
use mathlib.Core.Bool.{Bool, true, false}
use mathlib.Core.Option.{Option, none, some}
use mathlib.Core.List.{List, [], ◌∷◌, ◌++◌}
use native.Mathlib.Omega.{arith}
use text.Mathlib.TextEquality.{eq_iff}
use Prim.Native.String.{String}
use mc_control_plane.Base.Tests.{if◌then◌else◌, is_some}
use mc_control_plane.Base.Texts.{str_eq}
use mc_control_plane.Base.Table.{find_row, update_rows, delete_rows, count_rows}

module _ {ℓ} {A : Type ℓ} where
  pub find_row-append :
      (p : A → Bool) (rs : List A) (r : A)
      → find_row p (rs ++ r ∷ [])
        ≡ elim (find_row p rs) [ some s ↦ some s | none ↦ if p r then some r else none ]
  unfolding find_row
  find_row-append p [] r = refl
  find_row-append p (s ∷ rs) r = ground (arith, find_row-append p rs r)

  -- What a row fits does not depend on the columns that the update sets.
  pub find_row-update_rows :
      (q p : A → Bool) (f : A → A) (rs : List A)
      → ((r : A) → q (f r) ≡ q r)
      → is_some (find_row q (update_rows p f rs)) ≡ is_some (find_row q rs)
  unfolding find_row update_rows
  find_row-update_rows q p f [] h = refl
  find_row-update_rows q p f (r ∷ rs) h = ground (arith, h r, find_row-update_rows q p f rs h)

  pub find_row-delete_rows :
      (q p : A → Bool) (rs : List A)
      → ((r : A) → q r ≡ true → p r ≡ false)
      → find_row q (delete_rows p rs) ≡ find_row q rs
  unfolding find_row delete_rows
  find_row-delete_rows q p [] h = refl
  find_row-delete_rows q p (r ∷ rs) h = ground (arith, h r, find_row-delete_rows q p rs h)

  pub find_row-delete_none :
      (q p : A → Bool) (rs : List A) → find_row q rs ≡ none → find_row q (delete_rows p rs) ≡ none
  unfolding find_row delete_rows
  find_row-delete_none q p [] h = refl
  find_row-delete_none q p (r ∷ rs) h = ground (arith, find_row-delete_none q p rs)

  pub find_row-delete_self : (p : A → Bool) (rs : List A) → find_row p (delete_rows p rs) ≡ none
  unfolding find_row delete_rows
  find_row-delete_self p [] = refl
  find_row-delete_self p (r ∷ rs) = ground (arith, find_row-delete_self p rs)

  pub update_rows-none :
      (p : A → Bool) (f : A → A) (rs : List A) → find_row p rs ≡ none → update_rows p f rs ≡ rs
  unfolding find_row update_rows
  update_rows-none p f [] h = refl
  update_rows-none p f (r ∷ rs) h = ground (arith, update_rows-none p f rs)

  pub delete_rows-none : (p : A → Bool) (rs : List A) → find_row p rs ≡ none → delete_rows p rs ≡ rs
  unfolding find_row delete_rows
  delete_rows-none p [] h = refl
  delete_rows-none p (r ∷ rs) h = ground (arith, delete_rows-none p rs)

  pub find_row-update_none :
      (q p : A → Bool) (f : A → A) (rs : List A)
      → ((r : A) → q (f r) ≡ false)
      → find_row q rs ≡ none
      → find_row q (update_rows p f rs) ≡ none
  unfolding find_row update_rows
  find_row-update_none q p f [] h e = refl
  find_row-update_none q p f (r ∷ rs) h e = ground (arith, h r, find_row-update_none q p f rs h)

  pub count_rows-find_row :
      (p : A → Bool) (rs : List A)
      → (count_rows p rs ≡ 0 → find_row p rs ≡ none) × (find_row p rs ≡ none → count_rows p rs ≡ 0)
  unfolding find_row count_rows
  count_rows-find_row p [] = (λ _. refl, λ _. refl)
  count_rows-find_row p (r ∷ rs) = ground (arith, count_rows-find_row p rs)

pub eq-none_of_is_some {ℓ} : {A : Type ℓ} (o : Option A) → is_some o ≡ false → o ≡ none
eq-none_of_is_some none h = refl
eq-none_of_is_some (some a) h = cc

-- No row has the key of another.
module _ {ℓ} {A : Type ℓ} (key : A → String) where
  abbrev pub has_key : String → A → Bool
  has_key k r = str_eq (key r) k

  abbrev pub Unique : List A → Type ℓ
  Unique [] = Unit
  Unique (r ∷ rs) = (find_row (has_key (key r)) rs ≡ none) × Unique rs

  pub Unique-append :
      (rs : List A) (r : A)
      → find_row (has_key (key r)) rs ≡ none
      → Unique rs
      → Unique (rs ++ r ∷ [])
  unfolding find_row
  Unique-append [] r h u = (refl, tt)
  Unique-append (s ∷ rs) r h u = ground (
    arith,
    Unique-append rs r,
    find_row-append (has_key (key s)) rs r,
    eq_iff (key s) (key r),
    eq_iff (key r) (key s),
  )

  pub Unique-update :
      (p : A → Bool) (f : A → A) (rs : List A)
      → ((r : A) → key (f r) ≡ key r)
      → Unique rs
      → Unique (update_rows p f rs)
  unfolding update_rows
  Unique-update p f [] h u = tt
  Unique-update p f (r ∷ rs) h u = (
    rw (same_key (p r)) (
        eq-none_of_is_some _ (
          find_row-update_rows (has_key (key r)) p f rs (λ s. ap (λ k. str_eq k (key r)) (h s))
          ∙ ap is_some u.0)),
    Unique-update p f rs h u.1,
  )
    where
      same_key : (b : Bool) → key (if b then f r else r) ≡ key r
      same_key true = h r
      same_key false = refl

  pub Unique-delete : (p : A → Bool) (rs : List A) → Unique rs → Unique (delete_rows p rs)
  unfolding delete_rows
  Unique-delete p [] u = tt
  Unique-delete p (r ∷ rs) u =
      ground (arith, Unique-delete p rs, find_row-delete_none (has_key (key r)) p rs)
