-- ===== src/Base/Table/Least.antt =====
-- The first row in an order, as ORDER BY … LIMIT 1 gives it.
use mathlib.Core.Path.{◌≡◌, refl, sym, ap, ◌∙◌, subst}
use mathlib.Core.Logic.{◌⊎◌, inl, inr}
use mathlib.Core.Bool.{Bool, true, false}
use mathlib.Core.Option.{Option, none, some}
use mathlib.Core.List.{List, [], ◌∷◌}
use native.Mathlib.Omega.{arith}
use mc_control_plane.Base.Tests.{if◌then◌else◌, Bool-cases}
use mc_control_plane.Base.Ints.{ℤ, ◌≤ℤ◌}
use mc_control_plane.Base.Table.{filter_rows, insert_row, sort_rows, limit_one}

module _ {A : Type 0} where
  abbrev pub IsRow : A → List A → Type 0
  IsRow r [] = ⊥
  IsRow r (s ∷ ss) = (r ≡ s) ⊎ IsRow r ss

  -- A row of the selected ones is a row that fits, and the other way round.
  pub IsRow-filter :
      (p : A → Bool) (rs : List A) (r : A)
      → (IsRow r (filter_rows p rs) → IsRow r rs × (p r ≡ true))
        × (IsRow r rs → p r ≡ true → IsRow r (filter_rows p rs))
  unfolding filter_rows
  IsRow-filter p [] r = (λ h. absurd h, λ h. absurd h)
  IsRow-filter p (s ∷ rs) r = elim (Bool-cases (p s)) [
    | inl fits ↦ rw fits (
      λ h. elim h [
        | inl same ↦ (inl same, ap p same ∙ fits)
        | inr later ↦ (inr ((IsRow-filter p rs r).0 later).0, ((IsRow-filter p rs r).0 later).1)
      ],
      λ h q. elim h [ inl same ↦ inl same | inr later ↦ inr ((IsRow-filter p rs r).1 later q) ],
    )
    | inr unfit ↦ rw unfit (
      λ h. (inr ((IsRow-filter p rs r).0 h).0, ((IsRow-filter p rs r).0 h).1),
      λ h q. elim h [
        | inl same ↦ absurd (cc (same, q, unfit))
        | inr later ↦ (IsRow-filter p rs r).1 later q
      ],
    )
  ]

  -- The first of two rows in the order.
  abbrev earlier : (A → A → Bool) → A → Option A → A
  earlier le r none = r
  earlier le r (some h) = if le r h then r else h

  limit_one-insert :
      (le : A → A → Bool) (r : A) (rs : List A)
      → limit_one (insert_row le r rs) ≡ some (earlier le r (limit_one rs))
  unfolding insert_row
  limit_one-insert le r [] = refl
  limit_one-insert le r (s ∷ ss) = ground arith

module _ {A : Type 0} (le : A → A → Bool) (cost : A → ℤ)
    (ordered : (a b : A) → le a b ≡ true → cost a ≤ℤ cost b)
    (reversed : (a b : A) → le a b ≡ false → cost b ≤ℤ cost a) where
  -- The first row is one of the rows, and none costs less.
  pub record IsLeast (rs : List A) (h : A) : Type 0 where
    pub first : limit_one (sort_rows le rs) ≡ some h
    pub row : IsRow h rs
    pub least : (s : A) → IsRow s rs → cost h ≤ℤ cost s

  IsLeast-of : (r : A) (rs : List A) → (h : A) × IsLeast (r ∷ rs) h
  unfolding sort_rows
  IsLeast-of r [] = (
    r,
    record {
      first = refl;
      row = inl refl;
      least = λ s m. elim m [
        | inl same ↦ subst (λ x. cost r ≤ℤ cost x) (sym same) (omega arith)
        | inr none_left ↦ absurd none_left
      ];
    },
  )
  IsLeast-of r (s ∷ ss) =
      let (h, l) = IsLeast-of s ss in
      elim (Bool-cases (le r h)) [
        | inl before ↦ (
          r,
          record {
            first =
                limit_one-insert le r (sort_rows le (s ∷ ss))
                ∙ ap (λ o. some (earlier le r o)) l.first
                ∙ rw before;
            row = inl refl;
            least = λ x m. elim m [
              | inl same ↦ subst (λ y. cost r ≤ℤ cost y) (sym same) (omega arith)
              | inr later ↦ omega (arith, l.least x later, ordered r h before)
            ];
          },
        )
        | inr after ↦ (
          h,
          record {
            first =
                limit_one-insert le r (sort_rows le (s ∷ ss))
                ∙ ap (λ o. some (earlier le r o)) l.first
                ∙ rw after;
            row = inr l.row;
            least = λ x m. elim m [
              | inl same ↦ subst (λ y. cost h ≤ℤ cost y) (sym same) (reversed r h after)
              | inr later ↦ l.least x later
            ];
          },
        )
      ]

  pub IsLeast-row : (rs : List A) (s : A) → IsRow s rs → (h : A) × IsLeast rs h
  IsLeast-row [] s m = absurd m
  IsLeast-row (r ∷ rs) s m = IsLeast-of r rs
