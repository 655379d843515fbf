-- ===== src/Domain/Conditions/Order.antt =====
-- The conditions of a resource keep the order of their types, one to a type.
use mc_control_plane.Base.{
  str_eq, str_le, str_le_total, eq_iff, true, List, [], ◌∷◌, ◌++◌, none, some, ◌≡◌, ◌∙◌, refl,
  arith, Bool, Bool-cases, Option-cases, inl, inr,
}
use mc_control_plane.Protocol.{Condition}
use mc_control_plane.Domain.Conditions.{
  update_condition, set_existing, insert_sorted, sort_conditions, set_condition, find_condition,
}
use mc_control_plane.Domain.Conditions.Lookup.{
  find_condition-insert_sorted, find_condition-sort_conditions, find_condition-append,
  set_existing-none, set_existing-some, update_condition-type,
}

-- No two conditions have one type.
abbrev pub Distinct : List Condition → Type 0
Distinct [] = Unit
Distinct (c ∷ cs) = (find_condition c.condition_type cs ≡ none) × Distinct cs

abbrev IsBelowHead : Condition → List Condition → Type 0
IsBelowHead c [] = Unit
IsBelowHead c (d ∷ ds) = str_le c.condition_type d.condition_type ≡ true

-- The types ascend in the byte order.
abbrev pub Ascending : List Condition → Type 0
Ascending [] = Unit
Ascending (c ∷ cs) = IsBelowHead c cs × Ascending cs

IsBelowHead-of_type :
    (b c : Condition) (cs : List Condition)
    → b.condition_type ≡ c.condition_type
    → IsBelowHead b cs
    → IsBelowHead c cs
IsBelowHead-of_type b c [] e h = tt
IsBelowHead-of_type b c (d ∷ ds) e h = rw (← e) h

insert_sorted-Ascending :
    (c : Condition) (cs : List Condition) → Ascending cs → Ascending (insert_sorted c cs)
unfolding insert_sorted
insert_sorted-Ascending c [] h = (tt, tt)
insert_sorted-Ascending c (d ∷ []) h =
    ground (arith, str_le_total c.condition_type d.condition_type)
insert_sorted-Ascending c (d ∷ e ∷ es) h =
    ground (
      arith,
      str_le_total c.condition_type d.condition_type,
      insert_sorted-Ascending c (e ∷ es) h.1,
    )

sort_conditions-Ascending : (cs : List Condition) → Ascending (sort_conditions cs)
unfolding sort_conditions
sort_conditions-Ascending [] = tt
sort_conditions-Ascending (c ∷ cs) =
    insert_sorted-Ascending c (sort_conditions cs) (sort_conditions-Ascending cs)

insert_sorted-Distinct :
    (c : Condition) (cs : List Condition)
    → find_condition c.condition_type cs ≡ none
    → Distinct cs
    → Distinct (insert_sorted c cs)
unfolding insert_sorted find_condition
insert_sorted-Distinct c [] f h = (refl, tt)
insert_sorted-Distinct c (d ∷ ds) f h = ground (
  arith,
  insert_sorted-Distinct c ds,
  find_condition-insert_sorted d.condition_type c ds,
  eq_iff c.condition_type d.condition_type,
  eq_iff d.condition_type c.condition_type,
)

sort_conditions-Distinct : (cs : List Condition) → Distinct cs → Distinct (sort_conditions cs)
unfolding sort_conditions
sort_conditions-Distinct [] h = tt
sort_conditions-Distinct (c ∷ cs) h =
    insert_sorted-Distinct c (sort_conditions cs)
      (find_condition-sort_conditions c.condition_type cs ∙ h.0) (sort_conditions-Distinct cs h.1)

append-Distinct :
    (cs : List Condition) (next : Condition)
    → find_condition next.condition_type cs ≡ none
    → Distinct cs
    → Distinct (cs ++ next ∷ [])
unfolding find_condition
append-Distinct [] next f h = (refl, tt)
append-Distinct (c ∷ cs) next f h = ground (
  arith,
  append-Distinct cs next,
  find_condition-append c.condition_type cs next,
  eq_iff c.condition_type next.condition_type,
  eq_iff next.condition_type c.condition_type,
)

set_existing-Distinct :
    (cs : List Condition) (next : Condition) (r : Bool × List Condition)
    → set_existing cs next ≡ some r
    → Distinct cs
    → Distinct r.1
unfolding set_existing find_condition
set_existing-Distinct [] next r e h = cc
set_existing-Distinct (c ∷ cs) next r e h =
    elim (Bool-cases (str_eq c.condition_type next.condition_type)) [
      | inl same ↦
          ground (arith, eq_iff c.condition_type next.condition_type, update_condition-type c next)
      | inr other ↦ elim (Option-cases (set_existing cs next)) [
        | inl missing ↦ ground arith
        | inr (rest, found) ↦ ground (
          arith,
          eq_iff c.condition_type next.condition_type,
          eq_iff next.condition_type c.condition_type,
          set_existing-Distinct cs next rest found,
          set_existing-some c.condition_type cs next rest found,
        )
      ]
    ]

set_existing-IsBelowHead :
    (b : Condition) (cs : List Condition) (next : Condition) (r : Bool × List Condition)
    → set_existing cs next ≡ some r
    → IsBelowHead b cs
    → IsBelowHead b r.1
unfolding set_existing
set_existing-IsBelowHead b [] next r e h = cc
set_existing-IsBelowHead b (c ∷ cs) next r e h =
    ground (arith, eq_iff c.condition_type next.condition_type, update_condition-type c next)

set_existing-Ascending :
    (cs : List Condition) (next : Condition) (r : Bool × List Condition)
    → set_existing cs next ≡ some r
    → Ascending cs
    → Ascending r.1
unfolding set_existing
set_existing-Ascending [] next r e h = cc
set_existing-Ascending (c ∷ cs) next r e h =
    elim (Bool-cases (str_eq c.condition_type next.condition_type)) [
      | inl same ↦ ground (
        arith,
        (eq_iff c.condition_type next.condition_type).0 same,
        update_condition-type c next,
        IsBelowHead-of_type c (update_condition c next).1 cs,
      )
      | inr other ↦ elim (Option-cases (set_existing cs next)) [
        | inl missing ↦ ground arith
        | inr (rest, found) ↦ ground (
          arith,
          set_existing-Ascending cs next rest found,
          set_existing-IsBelowHead c cs next rest found,
        )
      ]
    ]

-- `set_condition` keeps the conditions in the order of their types, one to a type.
pub set_condition-Ascending :
    (cs : List Condition) (next : Condition)
    → Ascending cs
    → Distinct cs
    → Ascending (set_condition cs next).1 × Distinct (set_condition cs next).1
unfolding set_condition
set_condition-Ascending cs next h d = elim (Option-cases (set_existing cs next)) [
  | inr (r, found) ↦
      rw (found, set_condition)
        (set_existing-Ascending cs next r found h, set_existing-Distinct cs next r found d)
  | inl missing ↦
      rw (missing, set_condition)
        (
          sort_conditions-Ascending (cs ++ next ∷ []),
          sort_conditions-Distinct (cs ++ next ∷ [])
              (append-Distinct cs next (set_existing-none cs next missing) d),
        )
]
