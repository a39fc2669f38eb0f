-- ===== src/Statuses/Plans.antt =====
-- The life of a cutting plan under createPlanMachine (optimization/status-machine.ts).
use nestra.Prelude.{
  ℕ, ◌+◌, ◌≤◌, ◌<◌, ◌≡◌, refl, sym, ◌∙◌, subst, inl, inr, true, false, List, [], ◌∷◌, Option, none,
  some, some-injective, length, Bool-cases, arith, ◌⊎◌, ◌↔◌,
}
use nestra.Statuses.{
  PlanStatus, StatusMachine, accepted, invalid_transition, plan_eq, plan_transitions, new_machine,
  can_transition_to, transition_to, get_valid_transitions, is_terminal, is_valid_plan_transition,
  create_plan_machine,
}
use nestra.Statuses.PlanStatus.{draft, approved, in_production, completed, cancelled}
use nestra.Statuses.Table.{can_transition_to-is_valid_transition}

-- The changes that the comment above the table names.
pub data PlanStep : PlanStatus → PlanStatus → Type 0 where
  approve : PlanStep draft approved
  reject : PlanStep draft cancelled
  start : PlanStep approved in_production
  retract : PlanStep approved cancelled
  complete : PlanStep in_production completed
  abort : PlanStep in_production cancelled

valid-PlanStep : (a b : PlanStatus) → is_valid_plan_transition a b ≡ true → PlanStep a b
unfolding is_valid_plan_transition plan_eq
valid-PlanStep draft approved h = approve
valid-PlanStep draft cancelled h = reject
valid-PlanStep approved in_production h = start
valid-PlanStep approved cancelled h = retract
valid-PlanStep in_production completed h = complete
valid-PlanStep in_production cancelled h = abort
valid-PlanStep a b h = absurd (cc)

PlanStep-valid : {a b : PlanStatus} → PlanStep a b → is_valid_plan_transition a b ≡ true
unfolding is_valid_plan_transition plan_eq
PlanStep-valid approve = refl
PlanStep-valid reject = refl
PlanStep-valid start = refl
PlanStep-valid retract = refl
PlanStep-valid complete = refl
PlanStep-valid abort = refl

-- How many more changes a plan can see.
abbrev pub steps_left : PlanStatus → ℕ
steps_left draft = 3
steps_left approved = 2
steps_left in_production = 1
steps_left completed = 0
steps_left cancelled = 0

PlanStep-steps_left : {a b : PlanStatus} → PlanStep a b → steps_left b < steps_left a
PlanStep-steps_left approve = omega arith
PlanStep-steps_left reject = omega arith
PlanStep-steps_left start = omega arith
PlanStep-steps_left retract = omega arith
PlanStep-steps_left complete = omega arith
PlanStep-steps_left abort = omega arith

-- The machine takes one request after the other; `none` where it throws.
unfoldable pub request_all :
    StatusMachine PlanStatus → List PlanStatus → Option (StatusMachine PlanStatus)
request_all m [] = some m
request_all m (s ∷ ss) = elim (transition_to plan_eq m s) [
  | accepted _ n ↦ request_all n ss
  | invalid_transition _ _ _ ↦ none
]

-- Statuses that the documented changes lead through.
pub data PlanPath : PlanStatus → List PlanStatus → PlanStatus → Type 0 where
  stay : (a : PlanStatus) → PlanPath a [] a
  go :
      {a b c : PlanStatus} {ss : List PlanStatus}
      → PlanStep a b
      → PlanPath b ss c
      → PlanPath a (b ∷ ss) c

PlanPath-length :
    {a c : PlanStatus} {ss : List PlanStatus}
    → PlanPath a ss c
    → length ss + steps_left c ≤ steps_left a
PlanPath-length (stay a) = omega arith
PlanPath-length (go s p) = omega (arith, PlanStep-steps_left s, PlanPath-length p)

machine-valid :
    (a b : PlanStatus)
    → can_transition_to plan_eq (create_plan_machine a) b ≡ is_valid_plan_transition a b
unfolding is_valid_plan_transition create_plan_machine
machine-valid a b = can_transition_to-is_valid_transition plan_eq plan_transitions a b

can_transition_to-PlanStep :
    (a b : PlanStatus) → can_transition_to plan_eq (create_plan_machine a) b ≡ true → PlanStep a b
can_transition_to-PlanStep a b h = valid-PlanStep a b (sym (machine-valid a b) ∙ h)

PlanStep-can_transition_to :
    {a b : PlanStatus} → PlanStep a b → can_transition_to plan_eq (create_plan_machine a) b ≡ true
PlanStep-can_transition_to {a} {b} s = machine-valid a b ∙ PlanStep-valid s

-- An accepted request moves the machine to one over the same table.
transition_to-accepted :
    (a b : PlanStatus)
    → can_transition_to plan_eq (create_plan_machine a) b ≡ true
    → transition_to plan_eq (create_plan_machine a) b ≡ accepted b (create_plan_machine b)
unfolding transition_to create_plan_machine new_machine
transition_to-accepted a b h = rw (h, transition_to) refl

transition_to-invalid :
    (a b : PlanStatus)
    → can_transition_to plan_eq (create_plan_machine a) b ≡ false
    → transition_to plan_eq (create_plan_machine a) b
      ≡ invalid_transition a b (get_valid_transitions plan_eq (create_plan_machine a))
unfolding transition_to create_plan_machine new_machine
transition_to-invalid a b h = rw (h, transition_to) refl

request_all-PlanPath :
    (a : PlanStatus) (ss : List PlanStatus) (m : StatusMachine PlanStatus)
    → request_all (create_plan_machine a) ss ≡ some m
    → PlanPath a ss m.current_status
unfolding request_all
request_all-PlanPath a [] m h =
    subst (λ z. PlanPath a [] z.current_status) (some-injective _ _ h)
      (unfold create_plan_machine in (unfold new_machine in stay a))
request_all-PlanPath a (s ∷ ss) m h =
    elim (Bool-cases (can_transition_to plan_eq (create_plan_machine a) s)) [
      | inl e ↦
          go (can_transition_to-PlanStep a s e)
            (request_all-PlanPath s ss m (rw (transition_to-accepted a s e, request_all) at h))
      | inr e ↦ absurd (ground (arith, h, transition_to-invalid a s e))
    ]

PlanPath-request_all :
    {a c : PlanStatus} {ss : List PlanStatus}
    → PlanPath a ss c
    → request_all (create_plan_machine a) ss ≡ some (create_plan_machine c)
unfolding request_all
PlanPath-request_all (stay a) = refl
PlanPath-request_all (go {a} {b} s p) =
    rw (transition_to-accepted a b (PlanStep-can_transition_to s), request_all)
      (PlanPath-request_all p)

-- A plan's machine accepts a series of requests and ends in a status exactly if the series is a path
-- of the documented changes to that status, of which there are at most three, fewer from a later
-- status.
pub request_all-iff-PlanPath :
    (a c : PlanStatus) (ss : List PlanStatus)
    → (request_all (create_plan_machine a) ss ≡ some (create_plan_machine c))
      ↔ (PlanPath a ss c × (length ss + steps_left c ≤ steps_left a))
request_all-iff-PlanPath a c ss =
    ((λ h. let p = ended h in (p, PlanPath-length p)), (λ p. PlanPath-request_all p.0))
  where
    ended : request_all (create_plan_machine a) ss ≡ some (create_plan_machine c) → PlanPath a ss c
    ended h =
        subst (λ z. PlanPath a ss z)
          (let same : (create_plan_machine c).current_status ≡ c =
              unfold create_plan_machine in (unfold new_machine in refl) in
            same)
          (request_all-PlanPath a ss (create_plan_machine c) h)

-- From every status a cancelled or completed plan is within reach: the machine is terminal already,
-- or it accepts the request to cancel and is terminal then.
pub create_plan_machine_ends :
    (a : PlanStatus)
    → (is_terminal plan_eq (create_plan_machine a) ≡ true)
      ⊎ ((transition_to plan_eq (create_plan_machine a) cancelled
            ≡ accepted cancelled (create_plan_machine cancelled))
          × (is_terminal plan_eq (create_plan_machine cancelled) ≡ true))
unfolding is_terminal get_valid_transitions create_plan_machine plan_eq
create_plan_machine_ends draft =
    inr (transition_to-accepted draft cancelled (PlanStep-can_transition_to reject), refl)
create_plan_machine_ends approved =
    inr (transition_to-accepted approved cancelled (PlanStep-can_transition_to retract), refl)
create_plan_machine_ends in_production =
    inr (transition_to-accepted in_production cancelled (PlanStep-can_transition_to abort), refl)
create_plan_machine_ends completed = inl refl
create_plan_machine_ends cancelled = inl refl
