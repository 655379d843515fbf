-- ===== src/Base/Table/Held.antt =====
-- A table in which the row of a key is there and shows what it showed.
use mathlib.Core.Path.{◌≡◌, refl, sym, ap, ◌∙◌, subst}
use mathlib.Core.Bool.{Bool, true, false}
use mathlib.Core.Option.{Option, none, some}
use mathlib.Core.Logic.{inl, inr}
use mathlib.Core.List.{List, [], ◌∷◌, ◌++◌}
use native.Mathlib.Omega.{arith}
use text.Mathlib.TextEquality.{eq_iff}
use Prim.Native.String.{String}
use mc_control_plane.Base.Tests.{is_some, Bool-cases}
use mc_control_plane.Base.Texts.{str_eq}
use mc_control_plane.Base.Table.{find_row, update_rows, delete_rows}
use mc_control_plane.Base.Table.All.{All, All-append, All-delete}
use mc_control_plane.Base.Table.Keys.{
  has_key, Unique, find_row-append, find_row-update_rows, find_row-delete_rows,
}

module _ {A B : Type 0} (key : A → String) (view : A → B) (k : String) (shown : B) where
  abbrev pub Shows : A → Type 0
  Shows r = key r ≡ k → view r ≡ shown

  -- Every row of the key shows that, and there is one.
  pub record Held (rows : List A) : Type 0 where
    pub same : All Shows rows
    pub there : is_some (find_row (has_key key k) rows) ≡ true

  no_row : (rows : List A) → find_row (has_key key k) rows ≡ none → All Shows rows
  unfolding find_row
  no_row [] e = tt
  no_row (r ∷ rows) e = elim (Bool-cases (has_key key k r)) [
    | inl mine ↦ absurd (ground (arith, mine, e))
    | inr other ↦ (
      λ same. absurd (cc (other, (eq_iff (key r) k).1 same)),
      no_row rows (ground (arith, other, e)),
    )
  ]

  first-Shows :
      (rows : List A) (row : A)
      → Unique key rows
      → find_row (has_key key k) rows ≡ some row
      → view row ≡ shown
      → All Shows rows
  unfolding find_row
  first-Shows [] row u e v = tt
  first-Shows (r ∷ rows) row u e v = elim (Bool-cases (has_key key k r)) [
    | inl mine ↦ (
      λ same. ap view (ground (arith, mine, e)) ∙ v,
      no_row rows
          (subst (λ x. find_row (has_key key x) rows ≡ none) ((eq_iff (key r) k).0 mine) u.0),
    )
    | inr other ↦ (
      λ same. absurd (cc (other, (eq_iff (key r) k).1 same)),
      first-Shows rows row u.1 (ground (arith, other, e)) v,
    )
  ]

  pub found-Held :
      (rows : List A) (row : A)
      → Unique key rows
      → find_row (has_key key k) rows ≡ some row
      → view row ≡ shown
      → Held rows
  found-Held rows row u e v = record { same = first-Shows rows row u e v; there = ap is_some e }

  shown_by :
      (rows : List A) (row : A)
      → All Shows rows
      → find_row (has_key key k) rows ≡ some row
      → view row ≡ shown
  unfolding find_row
  shown_by [] row a e = absurd (cc e)
  shown_by (r ∷ rows) row a e = elim (Bool-cases (has_key key k r)) [
    | inl mine ↦ ap view (sym (ground (arith, mine, e))) ∙ a.0 ((eq_iff (key r) k).0 mine)
    | inr other ↦ shown_by rows row a.1 (ground (arith, other, e))
  ]

  -- What the lookup finds.
  pub Held-found :
      (rows : List A)
      → Held rows
      → (row : A) × (find_row (has_key key k) rows ≡ some row) × (view row ≡ shown)
  Held-found rows h = by_lookup (find_row (has_key key k) rows) refl
    where
      by_lookup :
          (o : Option A)
          → find_row (has_key key k) rows ≡ o
          → (row : A) × (find_row (has_key key k) rows ≡ some row) × (view row ≡ shown)
      by_lookup none e = absurd (cc (ap is_some e, h.there))
      by_lookup (some row) e = (row, e, shown_by rows row h.same e)

  pub Held-append :
      (rows : List A) (row : A)
      → find_row (has_key key (key row)) rows ≡ none
      → Held rows
      → Held (rows ++ row ∷ [])
  Held-append rows row new h = record {
    same =
        All-append Shows rows row h.same
          λ mine. absurd (cc (subst (λ x. find_row (has_key key x) rows ≡ none) mine new, h.there));
    there = ground (arith, find_row-append (has_key key k) rows row, h.there);
  }

  -- An update of rows of which none that it reaches, and that shows that, comes to show another thing.
  update-Shows :
      (p : A → Bool) (f : A → A) (rows : List A)
      → ((r : A) → key (f r) ≡ key r)
      → ((r : A) → p r ≡ true → key r ≡ k → view (f r) ≡ view r)
      → All Shows rows
      → All Shows (update_rows p f rows)
  unfolding update_rows
  update-Shows p f [] same_key kept a = tt
  update-Shows p f (r ∷ rows) same_key kept a = elim (Bool-cases (p r)) [
    | inl hit ↦ rw hit (
      λ mine. let mine' = sym (same_key r) ∙ mine in kept r hit mine' ∙ a.0 mine',
      update-Shows p f rows same_key kept a.1,
    )
    | inr miss ↦ rw miss (a.0, update-Shows p f rows same_key kept a.1)
  ]

  pub Held-update :
      (p : A → Bool) (f : A → A) (rows : List A)
      → ((r : A) → key (f r) ≡ key r)
      → ((r : A) → p r ≡ true → key r ≡ k → view (f r) ≡ view r)
      → Held rows
      → Held (update_rows p f rows)
  Held-update p f rows same_key kept h = record {
    same = update-Shows p f rows same_key kept h.same;
    there =
        find_row-update_rows (has_key key k) p f rows (λ r. ap (λ x. str_eq x k) (same_key r))
        ∙ h.there;
  }

  -- A deletion of rows of other keys.
  pub Held-delete :
      (p : A → Bool) (rows : List A)
      → ((r : A) → has_key key k r ≡ true → p r ≡ false)
      → Held rows
      → Held (delete_rows p rows)
  Held-delete p rows other h = record {
    same = All-delete Shows p rows h.same;
    there = ap is_some (find_row-delete_rows (has_key key k) p rows other) ∙ h.there;
  }
