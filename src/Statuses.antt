-- ===== src/Statuses.antt =====
-- backend/src/modules/optimization/status-machine.ts: the statuses of scenarios and of cutting plans,
-- and the machine that guards their changes. A method that writes to the machine returns the
-- written machine. The texts of the error and the unread `description` are left out.
pub mod Table
pub mod Plans
mod Tests
use nestra.Prelude.{
  ℕ, String, Bool, true, false, ◌&&◌, ◌||◌, List, [], ◌∷◌, ◌++◌, Option, none, some, ltb, ◌==◌,
  length, select, if◌then◌else◌,
}

pub data ScenarioStatus : Type 0 where
  pending running completed failed : ScenarioStatus

pub data PlanStatus : Type 0 where
  draft approved in_production completed cancelled : PlanStatus

-- `from: T | readonly T[]`; both uses of the field turn a single status into an array of one.
pub record StatusTransition (T : Type 0) : Type 0 where
  pub from : List T
  pub to : T

-- `Map<T, Set<T>>`
abbrev pub Transitions : Type 0 → Type 0
Transitions T = List (T × List T)

pub record StatusMachine (T : Type 0) : Type 0 where
  pub transitions : Transitions T
  pub current_status : T

-- `InvalidStatusTransitionError` with its three fields, or the new status.
pub data TransitionResult (T : Type 0) : Type 0 where
  accepted : T → StatusMachine T → TransitionResult T
  invalid_transition : T → T → List T → TransitionResult T

abbrev pub or_empty : {T : Type 0} → Option (List T) → List T
or_empty none = []
or_empty (some xs) = xs

abbrev pub is_yes : {A : Type 0} → Dec A → Bool
is_yes (yes _) = true
is_yes (no _) = false

module _ {T : Type 0} (eq : Discrete T) where
  -- `===` on statuses.
  abbrev pub same : T → T → Bool
  same a b = is_yes (eq a b)

  unfoldable pub includes : List T → T → Bool
  includes [] t = false
  includes (x ∷ xs) t = same x t || includes xs t

  unfoldable pub get : Transitions T → T → Option (List T)
  get [] s = none
  get ((k, v) ∷ m) s = if same k s then some v else get m s

  unfoldable pub set : Transitions T → T → List T → Transitions T
  set [] s v = (s, v) ∷ []
  set ((k, w) ∷ m) s v = if same k s then (k, v) ∷ m else (k, w) ∷ set m s v

  -- `Set.add`
  unfoldable pub add_to : List T → T → List T
  unfolding includes
  add_to xs t = if includes xs t then xs else xs ++ t ∷ []

  -- The inner loop, over the states that a transition starts from.
  unfoldable pub add_from : Transitions T → List T → T → Transitions T
  unfolding set get add_to
  add_from m [] to = m
  add_from m (s ∷ ss) to = add_from (set m s (add_to (or_empty (get m s)) to)) ss to

  unfoldable pub initialize_transitions : Transitions T → List (StatusTransition T) → Transitions T
  unfolding add_from
  initialize_transitions m [] = m
  initialize_transitions m (t ∷ ts) = initialize_transitions (add_from m t.from t.to) ts

  unfoldable pub new_machine : T → List (StatusTransition T) → StatusMachine T
  unfolding initialize_transitions
  new_machine initial ts = record {
    transitions = initialize_transitions [] ts;
    current_status = initial;
  }

  unfoldable pub can_transition_to : StatusMachine T → T → Bool
  unfolding get includes
  can_transition_to m status = elim (get m.transitions m.current_status) [
    | none ↦ false
    | some allowed ↦ includes allowed status
  ]

  unfoldable pub get_valid_transitions : StatusMachine T → List T
  unfolding get
  get_valid_transitions m = or_empty (get m.transitions m.current_status)

  unfoldable pub transition_to : StatusMachine T → T → TransitionResult T
  unfolding can_transition_to get_valid_transitions
  transition_to m status =
      if can_transition_to m status
      then accepted status (record m { current_status = status })
      else invalid_transition m.current_status status (get_valid_transitions m)

  unfoldable pub try_transition_to : StatusMachine T → T → StatusMachine T × Bool
  unfolding can_transition_to
  try_transition_to m status =
      if can_transition_to m status
      then (record m { current_status = status }, true)
      else (m, false)

  unfoldable pub is_terminal : StatusMachine T → Bool
  unfolding get_valid_transitions
  is_terminal m = length (get_valid_transitions m) == 0

  -- The body that the two validation helpers share.
  unfoldable pub is_valid_transition : List (StatusTransition T) → T → T → Bool
  unfolding includes
  is_valid_transition ts from to =
      ltb 0 (length (select (λ t. includes t.from from && same t.to to) ts))

abbrev pub edge : {T : Type 0} → T → T → StatusTransition T
edge a b = record { from = a ∷ []; to = b }

abbrev pub scenario_transitions : List (StatusTransition ScenarioStatus)
scenario_transitions =
    edge ScenarioStatus.pending ScenarioStatus.running
    ∷ edge ScenarioStatus.running ScenarioStatus.completed
    ∷ edge ScenarioStatus.running ScenarioStatus.failed
    ∷ edge ScenarioStatus.failed ScenarioStatus.pending
    ∷ []

abbrev pub plan_transitions : List (StatusTransition PlanStatus)
plan_transitions =
    edge PlanStatus.draft PlanStatus.approved
    ∷ edge PlanStatus.draft PlanStatus.cancelled
    ∷ edge PlanStatus.approved PlanStatus.in_production
    ∷ edge PlanStatus.approved PlanStatus.cancelled
    ∷ edge PlanStatus.in_production PlanStatus.completed
    ∷ edge PlanStatus.in_production PlanStatus.cancelled
    ∷ []

unfoldable pub scenario_eq : Discrete ScenarioStatus
scenario_eq = hlevel

unfoldable pub plan_eq : Discrete PlanStatus
plan_eq = hlevel

-- The default of the argument is the caller's to write.
unfoldable pub create_scenario_machine : ScenarioStatus → StatusMachine ScenarioStatus
unfolding new_machine
create_scenario_machine initial = new_machine scenario_eq initial scenario_transitions

unfoldable pub create_plan_machine : PlanStatus → StatusMachine PlanStatus
unfolding new_machine
create_plan_machine initial = new_machine plan_eq initial plan_transitions

unfoldable pub is_valid_scenario_transition : ScenarioStatus → ScenarioStatus → Bool
unfolding is_valid_transition
is_valid_scenario_transition = is_valid_transition scenario_eq scenario_transitions

unfoldable pub is_valid_plan_transition : PlanStatus → PlanStatus → Bool
unfolding is_valid_transition
is_valid_plan_transition = is_valid_transition plan_eq plan_transitions
