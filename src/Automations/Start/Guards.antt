-- ===== src/Automations/Start/Guards.antt =====
-- What must hold before `startRun` of src/ops-automation/automations.service.ts calls an action.
use robia_back.Prelude.{
  ◌≤◌, ◌≡◌, ◌⊎◌, inl, inr, refl, ap, ◌∙◌, ltb, Bool, true, false, none, List, length, arith,
  Bool-cases, Option-cases,
}
use robia_back.Store.{Table}
use robia_back.Conditions.Tree.{Numbers}
use robia_back.Conditions.Evaluate.{Evaluation, value, type_error, evaluate_conditions}
use robia_back.Automations.Rows.{Run, StepRun, StoredStep}
use robia_back.Automations.Inputs.Canonical.{Checked, InputError, accepted, refused}
use robia_back.Automations.Inputs.Planning.{read_stored_steps, plan_steps}
use robia_back.Automations.Engine.World.{World, Outside, ◌>>=◌}
use robia_back.Automations.Engine.Run.{max_steps_per_automation}
use robia_back.Automations.Start.Index.{RunIndex}
use robia_back.Automations.Start.Create
use robia_back.Automations.Start.Create.{
  Automation, StartRunOptions, Surroundings, max_trigger_depth,
}

pub Evaluation-cases : (e : Evaluation) → (e ≡ type_error) ⊎ ((b : Bool) × (e ≡ value b))
Evaluation-cases type_error = inl refl
Evaluation-cases (value b) = inr (b, refl)

pub Checked-cases :
    {A : Type 0} (c : Checked A)
    → ((e : InputError) × (c ≡ refused e)) ⊎ ((a : A) × (c ≡ accepted a))
Checked-cases (refused e) = inl (e, refl)
Checked-cases (accepted a) = inr (a, refl)

module _ {Num : Type 0} {S : Table StepRun} {R : Table Run} (num : Numbers Num) (index : RunIndex R)
    (out : Outside S R) (around : Surroundings Num S R) where
  persist-calls :
      (row : Run) (w : World S R)
      → (Create.persist_run num index out around row w).0.calls ≡ w.calls
  unfolding Create.persist_run
  persist-calls row w = ground arith

  persist_row-calls :
      (row : Run) (w : World S R)
      → ((Create.persist_run num index out around row >>= Create.row_of num index out around)
          w).0.calls
        ≡ w.calls
  persist_row-calls row w = ground (arith, persist-calls row w)

  conclude-calls :
      (a : Automation Num) (row : Run) (passed : Bool) (w : World S R)
      → ((Create.conclude num index out around a row passed w).0.calls ≡ w.calls)
        ⊎ ((passed ≡ true) × (a.requires_approval ≡ false))
  unfolding Create.conclude
  conclude-calls a row passed w = elim (Bool-cases passed) [
    | inr e ↦ inl (rw e (persist_row-calls _ w))
    | inl e ↦ elim (Bool-cases a.requires_approval) [
      | inl f ↦ inl (rw (e, f) (persist_row-calls _ w))
      | inr f ↦ inr (e, f)
    ]
  ]

  -- What lets a start call an action.
  pub record IsPermitted (a : Automation Num) (opts : StartRunOptions) (w : World S R)
      : Type 0 where
    pub shallow : opts.trigger_depth ≤ max_trigger_depth
    pub fresh :
        Create.run_of_key num index out around a.organization_id opts.dedup_key w.runs ≡ none
    pub enabled : a.enabled ≡ true
    pub idle : index.active a.id w.runs ≡ none
    pub few : length (read_stored_steps a.steps) ≤ max_steps_per_automation
    pub plan : List StoredStep
    pub planned :
        plan_steps
          (Create.event_payload num index out around opts.source_event_id)
          (read_stored_steps a.steps)
        ≡ accepted plan
    pub passed :
        evaluate_conditions num a.conditions (around.build a.organization_id w).1 ≡ value true
    pub unapproved : a.requires_approval ≡ false

  evaluate-calls :
      (a : Automation Num) (opts : StartRunOptions) (plan : List StoredStep) (w : World S R)
      → (around.build a.organization_id w).0.calls ≡ w.calls
      → ((Create.evaluate_start num index out around a opts plan w).0.calls ≡ w.calls)
        ⊎ ((evaluate_conditions num a.conditions (around.build a.organization_id w).1 ≡ value true)
            × (a.requires_approval ≡ false))
  unfolding Create.evaluate_start
  evaluate-calls a opts plan w h =
      let built = around.build a.organization_id w in
      elim (Evaluation-cases (evaluate_conditions num a.conditions built.1)) [
        | inl e ↦ inl (rw (Create.evaluate_start, e) h)
        | inr (b, e) ↦
            elim (conclude-calls a
              (Create.planned_run num index out around plan (around.print_context built.1)
                (Create.new_run num index out around a opts))
              b (Create.touch num index out around a.id built.0)) [
                | inl c ↦ inl (rw (Create.evaluate_start, e) (c ∙ h))
                | inr p ↦ inr (e ∙ ap value p.0, p.1)
              ]
      ]

  plan-calls :
      (a : Automation Num) (opts : StartRunOptions) (w : World S R)
      → (around.build a.organization_id w).0.calls ≡ w.calls
      → ((Create.plan_start num index out around a opts w).0.calls ≡ w.calls)
        ⊎ ((length (read_stored_steps a.steps) ≤ max_steps_per_automation)
            × ((plan : List StoredStep) × (plan_steps
                    (Create.event_payload num index out around opts.source_event_id)
                    (read_stored_steps a.steps)
                  ≡ accepted plan))
            × (evaluate_conditions num a.conditions (around.build a.organization_id w).1
                ≡ value true)
            × (a.requires_approval ≡ false))
  unfolding Create.plan_start
  plan-calls a opts w h =
      let steps = read_stored_steps a.steps in
      elim (Bool-cases (ltb max_steps_per_automation (length steps))) [
        | inl e ↦ inl (rw (Create.plan_start, e) refl)
        | inr e ↦
            elim (Checked-cases
              (plan_steps (Create.event_payload num index out around opts.source_event_id) steps)) [
                | inl (x, f) ↦ inl (rw (Create.plan_start, e, f) (persist_row-calls _ w))
                | inr (plan, f) ↦ elim (evaluate-calls a opts plan w h) [
                  | inl c ↦ inl (rw (Create.plan_start, e, f) c)
                  | inr p ↦ inr (ground arith, (plan, f), p.0, p.1)
                ]
              ]
      ]

  start_new-calls :
      (a : Automation Num) (opts : StartRunOptions) (w : World S R)
      → (around.build a.organization_id w).0.calls ≡ w.calls
      → opts.trigger_depth ≤ max_trigger_depth
      → Create.run_of_key num index out around a.organization_id opts.dedup_key w.runs ≡ none
      → ((Create.start_new num index out around a opts w).0.calls ≡ w.calls) ⊎ IsPermitted a opts w
  unfolding Create.start_new
  start_new-calls a opts w h shallow fresh = elim (Bool-cases a.enabled) [
    | inr e ↦ inl (rw (Create.start_new, e) (persist_row-calls _ w))
    | inl e ↦ elim (Option-cases (index.active a.id w.runs)) [
      | inr (i, f) ↦ inl (rw (Create.start_new, e, f) refl)
      | inl f ↦ elim (plan-calls a opts w h) [
        | inl c ↦ inl (rw (Create.start_new, e, f) c)
        | inr p ↦ inr (record {
          shallow = shallow;
          fresh = fresh;
          enabled = e;
          idle = f;
          few = p.0;
          plan = p.1.0;
          planned = p.1.1;
          passed = p.2;
          unapproved = p.3;
        })
      ]
    ]
  ]

  -- A start calls no action, unless the automation is enabled and requires no approval, no run has
  -- the key and none of the automation is active, the depth and the number of steps are within
  -- their limits, the steps have a plan, and the conditions hold in the context that was built.
  pub start_run-IsPermitted :
      (a : Automation Num) (opts : StartRunOptions) (w : World S R)
      → (around.build a.organization_id w).0.calls ≡ w.calls
      → ((Create.start_run num index out around a opts w).0.calls ≡ w.calls) ⊎ IsPermitted a opts w
  unfolding Create.start_run
  start_run-IsPermitted a opts w h = elim (Bool-cases (ltb max_trigger_depth opts.trigger_depth)) [
    | inl e ↦ inl (rw (Create.start_run, e) refl)
    | inr e ↦
        elim (Option-cases
          (Create.run_of_key num index out around a.organization_id opts.dedup_key w.runs)) [
            | inr (p, f) ↦ inl (rw (Create.start_run, e, f) refl)
            | inl f ↦ elim (start_new-calls a opts w h (ground arith) f) [
              | inl c ↦ inl (rw (Create.start_run, e, f) c)
              | inr p ↦ inr p
            ]
          ]
  ]
