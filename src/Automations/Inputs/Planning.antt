-- ===== src/Automations/Inputs/Planning.antt =====
-- `readStoredSteps` of src/ops-automation/automation.types.ts, and the plan of a run that `startRun`
-- of automations.service.ts freezes.
use robia_back.Prelude.{◌≡◌, refl, subst, true, Option, none, some, List, [], ◌∷◌, map, All}
use robia_back.Automations.Actions.{is_allowed}
use robia_back.Automations.Rows.{StoredStep}
use robia_back.Automations.Inputs.Json.{
  Json, text, array, object, Items, no_items, item, Fields, no_fields, get_field,
}
use robia_back.Automations.Inputs.Canonical.{Checked, accepted, and_then, canonicalize_input}
use robia_back.Automations.Inputs.Templating.{resolve_step_input}
use robia_back.Automations.Inputs.Idempotence.{canonicalize_input_stable}
use robia_back.Automations.Inputs.Stable.{and_then_accepted, unaccepted}

-- An input that is an array has none of the properties that an action declares.
abbrev read_input : Option Json → Option Fields
read_input (some (object entries)) = some entries
read_input (some (array _)) = some no_fields
read_input _ = none

abbrev read_step : Fields → Option Json → List StoredStep → List StoredStep
read_step entries (some (text action_type)) steps =
    record { action_type = action_type; input = read_input (get_field "input" entries) } ∷ steps
read_step entries _ steps = steps

abbrev read_item : Json → List StoredStep → List StoredStep
read_item (object entries) steps = read_step entries (get_field "actionType" entries) steps
read_item _ steps = steps

unfoldable pub read_items : Items → List StoredStep
read_items no_items = []
read_items (item v items) = read_item v (read_items items)

unfoldable pub read_stored_steps : Json → List StoredStep
unfolding read_items
read_stored_steps (array items) = read_items items
read_stored_steps _ = []

-- One step of the plan: canonical, resolved against the payload, and canonical again.
unfoldable pub plan_step : Option Fields → StoredStep → Checked StoredStep
plan_step payload step = and_then (canonicalize_input step.action_type step.input) λ canonical.
    and_then (canonicalize_input step.action_type (resolve_step_input (some canonical) payload))
      (λ resolved. accepted (record { action_type = step.action_type; input = some resolved }))

unfoldable pub plan_steps : Option Fields → List StoredStep → Checked (List StoredStep)
unfolding plan_step
plan_steps payload [] = accepted []
plan_steps payload (step ∷ steps) =
    and_then (plan_step payload step)
      λ planned. and_then (plan_steps payload steps) (λ plan. accepted (planned ∷ plan))

-- A step that the engine can run as it stands: its action is allowed, its input is canonical.
pub record IsReady (step : StoredStep) : Type 0 where
  pub entries : Fields
  pub allowed : is_allowed step.action_type ≡ true
  pub given : step.input ≡ some entries
  pub canonical : canonicalize_input step.action_type step.input ≡ accepted entries

plan_step-IsReady :
    (payload : Option Fields) (step planned : StoredStep)
    → plan_step payload step ≡ accepted planned
    → IsReady planned × (planned.action_type ≡ step.action_type)
unfolding plan_step is_allowed
plan_step-IsReady payload step planned h =
    let p = and_then_accepted (canonicalize_input step.action_type step.input) _ planned h in
    let q =
      and_then_accepted
        (canonicalize_input step.action_type (resolve_step_input (some p.0) payload)) _ planned
        p.2 in
    let s = canonicalize_input_stable step.action_type _ q.0 q.1 in
    let ready : StoredStep = record { action_type = step.action_type; input = some q.0 } in
    subst (λ (x : StoredStep). IsReady x × (x.action_type ≡ step.action_type))
      (unaccepted ready planned q.2)
      (
        record {
          entries = q.0;
          allowed = rw (is_allowed, s.1) refl;
          given = refl;
          canonical = s.2;
        },
        refl,
      )

-- The steps of a plan are those of the automation, in order, and each is ready: its action is on
-- the allowlist and its input, after the placeholders have been replaced, is canonical.
pub plan_steps-IsReady :
    (payload : Option Fields) (steps plan : List StoredStep)
    → plan_steps payload steps ≡ accepted plan
    → All IsReady plan × (map (λ s. s.action_type) plan ≡ map (λ s. s.action_type) steps)
unfolding plan_steps
plan_steps-IsReady payload [] plan h =
    subst (λ (x : List StoredStep). All IsReady x × (map (λ s. s.action_type) x ≡ []))
      (unaccepted [] plan h) (tt, refl)
plan_steps-IsReady payload (step ∷ steps) plan h =
    let p = and_then_accepted (plan_step payload step) _ plan h in
    let q = and_then_accepted (plan_steps payload steps) _ plan p.2 in
    let first = plan_step-IsReady payload step p.0 p.1 in
    let others = plan_steps-IsReady payload steps q.0 q.1 in
    subst
      (λ (x : List StoredStep).
        All IsReady x
        × (map (λ s. s.action_type) x ≡ step.action_type ∷ map (λ s. s.action_type) steps))
      (unaccepted (p.0 ∷ q.0) plan q.2) ((first.0, others.0), cc (first.1, others.1))
