-- ===== src/Domain/Conditions.antt =====
-- `new_condition` and `set_condition` of domain.rs. A `&mut Vec` is passed in and handed back.
pub mod Lookup
pub mod Order
pub mod Changed
use mc_control_plane.Base.{
  ℕ, String, str_eq, str_le, Bool, true, false, ◌&&◌, ◌==◌, List, [], ◌∷◌, ◌++◌, Option, none, some,
  if◌then◌else◌,
}
use mc_control_plane.Protocol.{Condition, ConditionStatus, Timestamp, status_eq}

unfoldable pub new_condition :
    String → ConditionStatus → String → String → ℕ → Timestamp → Condition
new_condition condition_type status reason message observed_generation now = record {
  condition_type = condition_type;
  status = status;
  reason = reason;
  message = message;
  observed_generation = observed_generation;
  last_transition_at = now;
}

-- The branch taken when a condition of the type exists: unchanged, a new message or generation
-- only, or a transition.
unfoldable pub update_condition : Condition → Condition → Bool × Condition
update_condition current next =
    if status_eq current.status next.status
      && (str_eq current.reason next.reason
          && (str_eq current.message next.message
              && current.observed_generation == next.observed_generation))
    then (false, current)
    else if status_eq current.status next.status && str_eq current.reason next.reason
    then (
      true,
      record current { message = next.message; observed_generation = next.observed_generation },
    )
    else (true, next)

-- `iter_mut().find(…)` and the write through it; `none` when no condition has the type.
unfoldable pub set_existing : List Condition → Condition → Option (Bool × List Condition)
unfolding update_condition
set_existing [] next = none
set_existing (c ∷ cs) next =
    let rest = set_existing cs next in
    if str_eq c.condition_type next.condition_type
    then some ((update_condition c next).0, (update_condition c next).1 ∷ cs)
    else elim rest [ none ↦ none | some (changed, cs') ↦ some (changed, c ∷ cs') ]

-- `sort_by` on the type: a stable sort.
unfoldable pub insert_sorted : Condition → List Condition → List Condition
insert_sorted c [] = c ∷ []
insert_sorted c (d ∷ ds) =
    if str_le c.condition_type d.condition_type then c ∷ d ∷ ds else d ∷ insert_sorted c ds

unfoldable pub sort_conditions : List Condition → List Condition
unfolding insert_sorted
sort_conditions [] = []
sort_conditions (c ∷ cs) = insert_sorted c (sort_conditions cs)

-- Whether the list changed, and the list.
unfoldable pub set_condition : List Condition → Condition → Bool × List Condition
unfolding set_existing sort_conditions
set_condition cs next = elim (set_existing cs next) [
  | some r ↦ r
  | none ↦ (true, sort_conditions (cs ++ next ∷ []))
]

-- The first condition of a type, as a client looks it up in what it is sent; the theorems say by it what
-- `set_condition` leaves.
unfoldable pub find_condition : String → List Condition → Option Condition
find_condition t [] = none
find_condition t (c ∷ cs) = if str_eq c.condition_type t then some c else find_condition t cs
