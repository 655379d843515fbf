-- ===== src/Domain/Conditions/Lookup.antt =====
-- What a client reads back after `set_condition`.
use mc_control_plane.Base.{
  String, str_eq, str_le_of_eq, eq_iff, Bool, ◌&&◌, List, [], ◌∷◌, ◌++◌, Option, none, some, ◌≡◌,
  inl, inr, refl, arith, if◌then◌else◌, Bool-cases, Option-cases,
}
use mc_control_plane.Protocol.{Condition, status_eq}
use mc_control_plane.Domain.Conditions.{
  update_condition, set_existing, insert_sorted, sort_conditions, set_condition, find_condition,
}

-- What the condition of the type becomes: the new one, with the old transition time where the status
-- and the reason stay.
abbrev pub merged : Option Condition → Condition → Condition
merged none next = next
merged (some current) next =
    if status_eq current.status next.status && str_eq current.reason next.reason
    then record next { last_transition_at = current.last_transition_at }
    else next

pub find_condition-insert_sorted :
    (t : String) (c : Condition) (cs : List Condition)
    → find_condition t (insert_sorted c cs)
      ≡ (if str_eq c.condition_type t then some c else find_condition t cs)
unfolding find_condition insert_sorted
find_condition-insert_sorted t c [] = refl
find_condition-insert_sorted t c (d ∷ ds) = ground (
  arith,
  eq_iff c.condition_type t,
  eq_iff d.condition_type t,
  eq_iff c.condition_type d.condition_type,
  str_le_of_eq c.condition_type d.condition_type,
  find_condition-insert_sorted t c ds,
)

-- Sorting keeps what each type finds, since it is stable.
pub find_condition-sort_conditions :
    (t : String) (cs : List Condition) → find_condition t (sort_conditions cs) ≡ find_condition t cs
unfolding find_condition sort_conditions
find_condition-sort_conditions t [] = refl
find_condition-sort_conditions t (c ∷ cs) =
    rw (find_condition-insert_sorted t c (sort_conditions cs), find_condition-sort_conditions t cs)

update_condition-merged :
    (current next : Condition)
    → current.condition_type ≡ next.condition_type
    → (update_condition current next).1 ≡ merged (some current) next
unfolding update_condition
update_condition-merged current next e =
    ground (arith, eq_iff current.reason next.reason, eq_iff current.message next.message)

pub find_condition-append :
    (t : String) (cs : List Condition) (next : Condition)
    → find_condition t (cs ++ next ∷ []) ≡ elim (find_condition t cs) [
      | some c ↦ some c
      | none ↦ if str_eq next.condition_type t then some next else none
    ]
unfolding find_condition
find_condition-append t [] next = refl
find_condition-append t (c ∷ cs) next = ground (arith, find_condition-append t cs next)

pub set_existing-none :
    (cs : List Condition) (next : Condition)
    → set_existing cs next ≡ none
    → find_condition next.condition_type cs ≡ none
unfolding set_existing find_condition
set_existing-none [] next e = refl
set_existing-none (c ∷ cs) next e = ground (arith, set_existing-none cs next)

pub update_condition-type :
    (current next : Condition)
    → current.condition_type ≡ next.condition_type
    → (update_condition current next).1.condition_type ≡ next.condition_type
unfolding update_condition
update_condition-type current next e = ground arith

-- The value found at the replaced condition, and at those before it.
pub set_existing-some :
    (t : String) (cs : List Condition) (next : Condition) (r : Bool × List Condition)
    → set_existing cs next ≡ some r
    → find_condition t r.1 ≡ (
        if str_eq next.condition_type t
        then some (merged (find_condition next.condition_type cs) next)
        else find_condition t cs)
unfolding set_existing find_condition
set_existing-some t [] next r e = cc
set_existing-some t (c ∷ cs) next r e =
    elim (Bool-cases (str_eq c.condition_type next.condition_type)) [
      | inl same ↦ ground (
        arith,
        (eq_iff c.condition_type next.condition_type).0 same,
        update_condition-type c next,
        update_condition-merged c next,
      )
      | inr other ↦ elim (Option-cases (set_existing cs next)) [
        | inl missing ↦ ground arith
        | inr (rest, found) ↦ ground (
          arith,
          eq_iff c.condition_type t,
          eq_iff next.condition_type t,
          eq_iff c.condition_type next.condition_type,
          set_existing-some t cs next rest found,
        )
      ]
    ]

-- After `set_condition` the type of the new condition finds it, with the old transition time where
-- its status and reason have not changed, and every other type finds what it found.
pub find_condition-set_condition :
    (t : String) (cs : List Condition) (next : Condition)
    → find_condition t (set_condition cs next).1 ≡ (
        if str_eq next.condition_type t
        then some (merged (find_condition next.condition_type cs) next)
        else find_condition t cs)
unfolding set_condition
find_condition-set_condition t cs next = elim (Option-cases (set_existing cs next)) [
  | inr (r, found) ↦ rw (found, set_condition) (set_existing-some t cs next r found)
  | inl missing ↦
      rw (missing, set_condition)
        (rw (find_condition-sort_conditions t (cs ++ next ∷ [])) (
          ground (
            arith,
            find_condition-append t cs next,
            set_existing-none cs next missing,
            eq_iff next.condition_type t,
          )))
]
