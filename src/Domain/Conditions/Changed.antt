-- ===== src/Domain/Conditions/Changed.antt =====
-- What the flag of `set_condition` tells, and that a repeated report is quiet.
use mc_control_plane.Base.{
  ℕ, suc, str_eq, eq_iff, eq_refl, true, false, List, [], ◌∷◌, ◌++◌, none, some, ◌≡◌, refl, ap,
  arith, Bool, ◌&&◌, Bool-cases, Option-cases, inl, inr, Option, ◌≢◌,
}
use mc_control_plane.Protocol.{Condition, ConditionStatus, status_eq, Timestamp}
use mc_control_plane.Domain.Conditions.{
  update_condition, set_existing, insert_sorted, sort_conditions, set_condition, find_condition,
}
use mc_control_plane.Domain.Conditions.Lookup.{merged, find_condition-set_condition}

abbrev length : List Condition → ℕ
length [] = 0
length (c ∷ cs) = suc (length cs)

status_eq_iff :
    (a b : ConditionStatus) → (status_eq a b ≡ true → a ≡ b) × (a ≡ b → status_eq a b ≡ true)
status_eq_iff a b = ground arith

update_condition-changed :
    (current next : Condition)
    → ((update_condition current next).0 ≡ false → (update_condition current next).1 ≡ current)
      × ((update_condition current next).0 ≡ true → (update_condition current next).1 ≢ current)
unfolding update_condition
update_condition-changed current next =
    ground (arith, eq_iff current.reason next.reason, eq_iff current.message next.message)

set_existing-changed :
    (cs : List Condition) (next : Condition) (r : Bool × List Condition)
    → set_existing cs next ≡ some r
    → (r.0 ≡ false → r.1 ≡ cs) × (r.0 ≡ true → r.1 ≢ cs)
unfolding set_existing
set_existing-changed [] next r e = cc
set_existing-changed (c ∷ cs) next r e = elim (Option-cases (set_existing cs next)) [
  | inl missing ↦ ground (arith, update_condition-changed c next)
  | inr (rest, found) ↦
      ground (arith, update_condition-changed c next, set_existing-changed cs next rest found)
]

length-insert_sorted :
    (c : Condition) (cs : List Condition) → length (insert_sorted c cs) ≡ suc (length cs)
unfolding insert_sorted
length-insert_sorted c [] = refl
length-insert_sorted c (d ∷ ds) = ground (arith, length-insert_sorted c ds)

length-sort_conditions : (cs : List Condition) → length (sort_conditions cs) ≡ length cs
unfolding sort_conditions
length-sort_conditions [] = refl
length-sort_conditions (c ∷ cs) =
    omega (arith, length-insert_sorted c (sort_conditions cs), length-sort_conditions cs)

length-append_one : (cs : List Condition) (c : Condition) → length (cs ++ c ∷ []) ≡ suc (length cs)
length-append_one [] c = refl
length-append_one (d ∷ ds) c = ap suc (length-append_one ds c)

-- `set_condition` reports a change exactly when the list is another.
pub set_condition-changed :
    (cs : List Condition) (next : Condition)
    → ((set_condition cs next).0 ≡ false → (set_condition cs next).1 ≡ cs)
      × ((set_condition cs next).0 ≡ true → (set_condition cs next).1 ≢ cs)
unfolding set_condition
set_condition-changed cs next = elim (Option-cases (set_existing cs next)) [
  | inr (r, found) ↦ rw (found, set_condition) (set_existing-changed cs next r found)
  | inl missing ↦
      rw (missing, set_condition)
        (
          λ e. cc,
          λ e same. absurd (
              omega (
                arith,
                ap length same,
                length-sort_conditions (cs ++ next ∷ []),
                length-append_one cs next,
              )),
        )
]

update_condition-quiet :
    (current next : Condition)
    → current.status ≡ next.status
    → current.reason ≡ next.reason
    → current.message ≡ next.message
    → current.observed_generation ≡ next.observed_generation
    → update_condition current next ≡ (false, current)
unfolding update_condition
update_condition-quiet current next s r m g =
    ground (arith, eq_iff current.reason next.reason, eq_iff current.message next.message)

set_existing-quiet :
    (cs : List Condition) (next : Condition) (current : Condition)
    → find_condition next.condition_type cs ≡ some current
    → update_condition current next ≡ (false, current)
    → set_existing cs next ≡ some (false, cs)
unfolding set_existing find_condition
set_existing-quiet [] next current f q = cc
set_existing-quiet (c ∷ cs) next current f q = ground (arith, set_existing-quiet cs next current)

merged-same :
    (o : Option Condition) (next : Condition) (later : Timestamp)
    → update_condition (merged o next) (record next { last_transition_at = later })
      ≡ (false, merged o next)
merged-same none next later = update_condition-quiet next _ refl refl refl refl
merged-same (some current) next later =
    elim (Bool-cases (status_eq current.status next.status && str_eq current.reason next.reason)) [
      | inl same ↦ rw same (update_condition-quiet _ _ refl refl refl refl)
      | inr other ↦ rw other (update_condition-quiet next _ refl refl refl refl)
    ]

-- Reporting a condition a second time, at whatever time, changes nothing and says so.
pub set_condition_again :
    (cs : List Condition) (next : Condition) (later : Timestamp)
    → set_condition (set_condition cs next).1 (record next { last_transition_at = later })
      ≡ (false, (set_condition cs next).1)
unfolding set_condition
set_condition_again cs next later = rw (
  set_existing-quiet (set_condition cs next).1 (record next { last_transition_at = later })
      (merged (find_condition next.condition_type cs) next)
      (rw (find_condition-set_condition next.condition_type cs next, eq_refl next.condition_type))
      (merged-same (find_condition next.condition_type cs) next later),
  set_condition,
)
