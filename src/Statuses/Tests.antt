-- ===== src/Statuses/Tests.antt =====
-- The theorems on the status machine at concrete inputs.
use nestra.Prelude.{◌+◌, ◌≤◌, ◌≡◌, ◌⊎◌, ◌↔◌, ◌∷◌, [], some, true}
use nestra.Statuses.{
  PlanStatus, ScenarioStatus, scenario_eq, scenario_transitions, new_machine, can_transition_to,
  is_valid_transition, create_plan_machine, plan_eq, is_terminal, transition_to, accepted,
}
use nestra.Statuses.Table.{can_transition_to-is_valid_transition}
use nestra.Statuses.Plans.{
  request_all, PlanPath, steps_left, request_all-iff-PlanPath, create_plan_machine_ends,
}

can_transition_to-is_valid_transition_example :
    can_transition_to scenario_eq
      (new_machine scenario_eq ScenarioStatus.failed scenario_transitions)
      ScenarioStatus.pending
    ≡ is_valid_transition scenario_eq scenario_transitions ScenarioStatus.failed
        ScenarioStatus.pending
can_transition_to-is_valid_transition_example =
    can_transition_to-is_valid_transition scenario_eq scenario_transitions ScenarioStatus.failed
      ScenarioStatus.pending

request_all-iff-PlanPath_example :
    (request_all
        (create_plan_machine PlanStatus.draft)
        (PlanStatus.approved ∷ PlanStatus.cancelled ∷ [])
      ≡ some (create_plan_machine PlanStatus.cancelled))
    ↔ (PlanPath PlanStatus.draft
          (PlanStatus.approved ∷ PlanStatus.cancelled ∷ [])
          PlanStatus.cancelled
        × (2 + steps_left PlanStatus.cancelled ≤ steps_left PlanStatus.draft))
request_all-iff-PlanPath_example =
    request_all-iff-PlanPath PlanStatus.draft PlanStatus.cancelled
      (PlanStatus.approved ∷ PlanStatus.cancelled ∷ [])

create_plan_machine_ends_example :
    (is_terminal plan_eq (create_plan_machine PlanStatus.approved) ≡ true)
    ⊎ ((transition_to plan_eq (create_plan_machine PlanStatus.approved) PlanStatus.cancelled
          ≡ accepted PlanStatus.cancelled (create_plan_machine PlanStatus.cancelled))
        × (is_terminal plan_eq (create_plan_machine PlanStatus.cancelled) ≡ true))
create_plan_machine_ends_example = create_plan_machine_ends PlanStatus.approved
