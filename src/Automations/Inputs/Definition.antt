-- ===== src/Automations/Inputs/Definition.antt =====
-- `validateSteps` of src/ops-automation/automations.service.ts: the steps of an automation that its
-- owner defines, with their inputs made canonical.
use robia_back.Prelude.{
  ◌≤◌, ◌<◌, ◌≡◌, refl, subst, ltb, false, some, List, [], ◌∷◌, All, length, arith, if◌then◌else◌,
}
use robia_back.Automations.Actions.{is_allowed}
use robia_back.Automations.Rows.{StoredStep}
use robia_back.Automations.Inputs.Canonical.{
  Checked, InputError, accepted, refused, and_then, canonicalize_input,
}
use robia_back.Automations.Inputs.Idempotence.{canonicalize_input_stable}
use robia_back.Automations.Inputs.Stable.{and_then_accepted, unaccepted}
use robia_back.Automations.Inputs.Planning.{IsReady}
use robia_back.Automations.Engine.Run.{max_steps_per_automation}

-- `AutomationValidationError` without and with a cause, `AutomationTooManyStepsError`, or the steps
-- as they are stored.
pub data Definition : Type 0 where
  no_step too_many : Definition
  invalid : InputError → Definition
  defined : List StoredStep → Definition

unfoldable pub define_step : StoredStep → Checked StoredStep
define_step step =
    and_then (canonicalize_input step.action_type step.input)
      λ canonical. accepted (record { action_type = step.action_type; input = some canonical })

unfoldable pub define_steps : List StoredStep → Checked (List StoredStep)
unfolding define_step
define_steps [] = accepted []
define_steps (step ∷ steps) =
    and_then (define_step step)
      λ first. and_then (define_steps steps) (λ others. accepted (first ∷ others))

abbrev definition_of : Checked (List StoredStep) → Definition
definition_of (accepted steps) = defined steps
definition_of (refused e) = invalid e

unfoldable pub validate_steps : List StoredStep → Definition
unfolding define_steps
validate_steps [] = no_step
validate_steps (step ∷ steps) =
    if ltb max_steps_per_automation (length (step ∷ steps))
    then too_many
    else definition_of (define_steps (step ∷ steps))

define_step-IsReady :
    (step first : StoredStep)
    → define_step step ≡ accepted first
    → IsReady first × (first.action_type ≡ step.action_type)
unfolding define_step is_allowed
define_step-IsReady step first h =
    let p = and_then_accepted (canonicalize_input step.action_type step.input) _ first h in
    let s = canonicalize_input_stable step.action_type step.input p.0 p.1 in
    let ready : StoredStep = record { action_type = step.action_type; input = some p.0 } in
    subst (λ (x : StoredStep). IsReady x × (x.action_type ≡ step.action_type))
      (unaccepted ready first p.2)
      (
        record {
          entries = p.0;
          allowed = rw (is_allowed, s.1) refl;
          given = refl;
          canonical = s.2;
        },
        refl,
      )

define_steps-IsReady :
    (steps stored : List StoredStep)
    → define_steps steps ≡ accepted stored
    → All IsReady stored × (length stored ≡ length steps)
unfolding define_steps
define_steps-IsReady [] stored h =
    subst (λ (x : List StoredStep). All IsReady x × (length x ≡ 0)) (unaccepted [] stored h)
      (tt, refl)
define_steps-IsReady (step ∷ steps) stored h =
    let p = and_then_accepted (define_step step) _ stored h in
    let q = and_then_accepted (define_steps steps) _ stored p.2 in
    let first = define_step-IsReady step p.0 p.1 in
    let others = define_steps-IsReady steps q.0 q.1 in
    subst (λ (x : List StoredStep). All IsReady x × (length x ≡ length (step ∷ steps)))
      (unaccepted (p.0 ∷ q.0) stored q.2) ((first.0, others.0), omega (arith, others.1))

definition_of_defined :
    (c : Checked (List StoredStep)) (stored : List StoredStep)
    → definition_of c ≡ defined stored
    → c ≡ accepted stored
definition_of_defined (accepted steps) stored h = ground arith
definition_of_defined (refused e) stored h = ground arith

-- The steps that are stored for an automation are as many as were given, from one to twenty, and
-- each is ready.
validate_steps-IsReady :
    (steps stored : List StoredStep)
    → validate_steps steps ≡ defined stored
    → All IsReady stored
      × (0 < length stored)
      × (length stored ≤ max_steps_per_automation)
      × (length stored ≡ length steps)
unfolding validate_steps
validate_steps-IsReady [] stored h = absurd (ground arith)
validate_steps-IsReady (step ∷ steps) stored h =
    let f : ltb max_steps_per_automation (length (step ∷ steps)) ≡ false = ground arith in
    let e : define_steps (step ∷ steps) ≡ accepted stored =
      definition_of_defined (define_steps (step ∷ steps)) stored (ground arith) in
    let p = define_steps-IsReady (step ∷ steps) stored e in
    (p.0, omega (arith, p.1), ground (arith, p.1), p.1)
