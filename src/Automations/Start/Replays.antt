-- ===== src/Automations/Start/Replays.antt =====
-- The key of a start in src/ops-automation/automations.service.ts: what a start of an automation
-- that requires an approval leaves for a start directly after it with the same key.
use robia_back.Prelude.{
  ℕ, ◌≤◌, ◌≡◌, inl, inr, refl, subst, ltb, String, Bool, true, Option, some, List, length, arith,
  Bool-cases, Option-cases,
}
use robia_back.Store.{Table}
use robia_back.Conditions.Tree.{Numbers}
use robia_back.Conditions.Evaluate.{evaluate_conditions}
use robia_back.Automations.Rows.{Run, StepRun, StoredStep}
use robia_back.Automations.Inputs.Canonical.{message_of}
use robia_back.Automations.Inputs.Planning.{read_stored_steps, plan_steps}
use robia_back.Automations.Engine.World.{
  World, Outside, ◌>>=◌, Result, returned, raised, conflict, broken_condition, too_many_steps,
  loop_detected,
}
use robia_back.Automations.Engine.Run.{max_steps_per_automation}
use robia_back.Automations.Start.Index.{RunIndex}
use robia_back.Automations.Start.Create
use robia_back.Automations.Start.Create.{
  Automation, StartRunOptions, Surroundings, max_trigger_depth,
}
use robia_back.Automations.Start.Guards.{Evaluation-cases, Checked-cases}

module _ {Num : Type 0} {S : Table StepRun} {R : Table Run} (num : Numbers Num) (index : RunIndex R)
    (out : Outside S R) (around : Surroundings Num S R) where
  abbrev find_key : ℕ → String → R.Db → Option (ℕ × Run)
  find_key = Create.run_of_key num index out around

  -- What was returned is the run of the key.
  abbrev IsRunOf : ℕ → String → World S R × Result Run → Type 0
  IsRunOf o k (w, raised e) = Unit
  IsRunOf o k (w, returned r) = (i : ℕ) × (find_key o k w.runs ≡ some (i, r))

  created-IsRunOf :
      (r : Run) (d : R.Db) (i : ℕ) (d' : R.Db)
      → R.create r d ≡ some (i, d')
      → find_key r.organization_id r.dedup_key d' ≡ some (i, r)
  unfolding Create.run_of_key
  created-IsRunOf r d i d' h =
      rw (Create.run_of_key, index.by_key-created r d i d' h, R.find-create r d i d' h) refl

  abbrev Persisted : Run → World S R → Type 0
  Persisted row w =
      IsRunOf row.organization_id row.dedup_key
        ((Create.persist_run num index out around row >>= Create.row_of num index out around) w)

  abbrev persist_row : Run → World S R → World S R × Result Run
  persist_row row =
      Create.persist_run num index out around row >>= Create.row_of num index out around

  persist-IsRunOf : (row : Run) (w : World S R) → Persisted row w
  unfolding Create.persist_run
  persist-IsRunOf row w =
      let o = row.organization_id in
      let k = row.dedup_key in
      elim (Option-cases (R.create row w.runs)) [
        | inr (p, e) ↦
            let done : (record w { runs = p.1 }, returned row) ≡ persist_row row w =
              ground (arith, e) in
            subst (IsRunOf o k) done (p.0, created-IsRunOf row w.runs p.0 p.1 e)
        | inl e ↦ elim (Option-cases (find_key o k w.runs)) [
          | inr (p, f) ↦
              let done : (w, returned p.1) ≡ persist_row row w = ground (arith, e, f) in
              subst (IsRunOf o k) done (p.0, f)
          | inl f ↦
              let done : (w, raised conflict) ≡ persist_row row w = ground (arith, e, f) in
              subst (IsRunOf o k) done tt
        ]
      ]

  conclude-IsRunOf :
      (a : Automation Num) (row : Run) (passed : Bool) (w : World S R)
      → a.requires_approval ≡ true
      → IsRunOf row.organization_id row.dedup_key
          (Create.conclude num index out around a row passed w)
  unfolding Create.conclude Create.skipped_run Create.waiting_run
  conclude-IsRunOf a row passed w h =
      let kept = IsRunOf row.organization_id row.dedup_key in
      elim (Bool-cases passed) [
        | inr e ↦
            let skipped = Create.skipped_run num index out around w.clock row in
            let done : persist_row skipped w ≡ Create.conclude num index out around a row passed w =
              rw (Create.conclude, e) refl in
            subst kept done (persist-IsRunOf skipped w)
        | inl e ↦
            let waiting = Create.waiting_run num index out around row in
            let done : persist_row waiting w ≡ Create.conclude num index out around a row passed w =
              rw (Create.conclude, e, h) refl in
            subst kept done (persist-IsRunOf waiting w)
      ]

  evaluate-IsRunOf :
      (a : Automation Num) (opts : StartRunOptions) (plan : List StoredStep) (w : World S R)
      → a.requires_approval ≡ true
      → IsRunOf a.organization_id opts.dedup_key
          (Create.evaluate_start num index out around a opts plan w)
  unfolding Create.evaluate_start Create.planned_run Create.new_run
  evaluate-IsRunOf a opts plan w h =
      let kept = IsRunOf a.organization_id opts.dedup_key in
      let built = around.build a.organization_id w in
      elim (Evaluation-cases (evaluate_conditions num a.conditions built.1)) [
        | inl e ↦
            let done : (built.0, raised broken_condition)
                ≡ Create.evaluate_start num index out around a opts plan w =
              ground (arith, e) in
            subst kept done tt
        | inr (b, e) ↦
            let row =
              Create.planned_run num index out around plan (around.print_context built.1)
                (Create.new_run num index out around a opts) in
            let w' = Create.touch num index out around a.id built.0 in
            let done : Create.conclude num index out around a row b w'
                ≡ Create.evaluate_start num index out around a opts plan w =
              rw (Create.evaluate_start, e) refl in
            subst kept done (conclude-IsRunOf a row b w' h)
      ]

  plan-IsRunOf :
      (a : Automation Num) (opts : StartRunOptions) (w : World S R)
      → a.requires_approval ≡ true
      → IsRunOf a.organization_id opts.dedup_key (Create.plan_start num index out around a opts w)
  unfolding Create.plan_start Create.failed_run Create.new_run
  plan-IsRunOf a opts w h =
      let kept = IsRunOf a.organization_id opts.dedup_key in
      let steps = read_stored_steps a.steps in
      let payload = Create.event_payload num index out around opts.source_event_id in
      elim (Bool-cases (ltb max_steps_per_automation (length steps))) [
        | inl e ↦
            let done : (w, raised too_many_steps)
                ≡ Create.plan_start num index out around a opts w =
              ground (arith, e) in
            subst kept done tt
        | inr e ↦ elim (Checked-cases (plan_steps payload steps)) [
          | inl (x, f) ↦
              let row =
                Create.failed_run num index out around w.clock (out.redact (message_of x))
                  (Create.new_run num index out around a opts) in
              let done : persist_row row w ≡ Create.plan_start num index out around a opts w =
                rw (Create.plan_start, e, f) refl in
              subst kept done (persist-IsRunOf row w)
          | inr (plan, f) ↦
              let done : Create.evaluate_start num index out around a opts plan w
                  ≡ Create.plan_start num index out around a opts w =
                rw (Create.plan_start, e, f) refl in
              subst kept done (evaluate-IsRunOf a opts plan w h)
        ]
      ]

  start_new-IsRunOf :
      (a : Automation Num) (opts : StartRunOptions) (w : World S R)
      → a.requires_approval ≡ true
      → IsRunOf a.organization_id opts.dedup_key (Create.start_new num index out around a opts w)
  unfolding Create.start_new Create.disabled_run Create.skipped_run Create.new_run
  start_new-IsRunOf a opts w h =
      let kept = IsRunOf a.organization_id opts.dedup_key in
      elim (Bool-cases a.enabled) [
        | inr e ↦
            let row =
              Create.disabled_run num index out around w.clock
                (Create.new_run num index out around a opts) in
            let done : persist_row row w ≡ Create.start_new num index out around a opts w =
              rw (Create.start_new, e) refl in
            subst kept done (persist-IsRunOf row w)
        | inl e ↦ elim (Option-cases (index.active a.id w.runs)) [
          | inr (i, f) ↦
              let done : (w, raised conflict) ≡ Create.start_new num index out around a opts w =
                ground (arith, e, f) in
              subst kept done tt
          | inl f ↦
              let done : Create.plan_start num index out around a opts w
                  ≡ Create.start_new num index out around a opts w =
                rw (Create.start_new, e, f) refl in
              subst kept done (plan-IsRunOf a opts w h)
        ]
      ]

  start-IsRunOf :
      (a : Automation Num) (opts : StartRunOptions) (w : World S R)
      → a.requires_approval ≡ true
      → IsRunOf a.organization_id opts.dedup_key (Create.start_run num index out around a opts w)
  unfolding Create.start_run
  start-IsRunOf a opts w h =
      let kept = IsRunOf a.organization_id opts.dedup_key in
      elim (Bool-cases (ltb max_trigger_depth opts.trigger_depth)) [
        | inl e ↦
            let done : (w, raised loop_detected) ≡ Create.start_run num index out around a opts w =
              ground (arith, e) in
            subst kept done tt
        | inr e ↦ elim (Option-cases (find_key a.organization_id opts.dedup_key w.runs)) [
          | inr (p, f) ↦
              let done : (w, returned p.1) ≡ Create.start_run num index out around a opts w =
                ground (arith, e, f) in
              subst kept done (p.0, f)
          | inl f ↦
              let done : Create.start_new num index out around a opts w
                  ≡ Create.start_run num index out around a opts w =
                rw (Create.start_run, e, f) refl in
              subst kept done (start_new-IsRunOf a opts w h)
        ]
      ]

  -- When a start of an automation that requires an approval has returned a run, a start that comes
  -- directly after it, with the same key in the same organization and a trigger depth within the
  -- limit, of whatever automation, returns that run and changes nothing.
  pub start_run_replayed :
      (a b : Automation Num) (opts again : StartRunOptions) (w w' : World S R) (r : Run)
      → a.requires_approval ≡ true
      → b.organization_id ≡ a.organization_id
      → again.dedup_key ≡ opts.dedup_key
      → again.trigger_depth ≤ max_trigger_depth
      → Create.start_run num index out around a opts w ≡ (w', returned r)
      → Create.start_run num index out around b again w' ≡ (w', returned r)
  unfolding Create.start_run
  start_run_replayed a b opts again w w' r h o k d e =
      let p = subst (IsRunOf a.organization_id opts.dedup_key) e (start-IsRunOf a opts w h) in
      let known : find_key b.organization_id again.dedup_key w'.runs ≡ some (p.0, r) =
        rw (o, k) p.1 in
      ground (arith, known, d)
