-- ===== src/Automations/Start/Races.antt =====
-- What `startRun` of src/ops-automation/automations.service.ts executes when another request has
-- created the run of the same key while the context was built, and when none has.
use robia_back.Prelude.{ℕ, ◌≡◌, refl, ◌∙◌, true, none, some, arith, All, map}
use robia_back.Store.{Table}
use robia_back.Conditions.Tree.{Numbers}
use robia_back.Automations.Rows.{Run, RunStatus, StepRun}
use robia_back.Automations.Inputs.Planning.{read_stored_steps, IsReady, plan_steps-IsReady}
use robia_back.Automations.Engine.World.{World, Outside}
use robia_back.Automations.Engine.Run.{execute_steps}
use robia_back.Automations.Start.Index.{RunIndex}
use robia_back.Automations.Start.Create
use robia_back.Automations.Start.Create.{
  Automation, StartRunOptions, Surroundings, max_trigger_depth,
}
use robia_back.Automations.Start.Guards.{IsPermitted}

module _ {Num : Type 0} {S : Table StepRun} {R : Table Run} (num : Numbers Num) (index : RunIndex R)
    (out : Outside S R) (around : Surroundings Num S R) where
  -- The state when the run is persisted.
  abbrev pub persisting : Automation Num → World S R → World S R
  persisting a w = Create.touch num index out around a.id (around.build a.organization_id w).0

  -- The row that it is persisted with.
  abbrev pub permitted_row :
      (a : Automation Num) (opts : StartRunOptions) (w : World S R)
      → IsPermitted num index out around a opts w
      → Run
  permitted_row a opts w h = Create.running_run num index out around (persisting a w).clock (
      Create.planned_run num index out around h.plan
        (around.print_context (around.build a.organization_id w).1)
        (Create.new_run num index out around a opts))

  start_run-conclude :
      (a : Automation Num) (opts : StartRunOptions) (w : World S R)
      (h : IsPermitted num index out around a opts w)
      → Create.start_run num index out around a opts w
        ≡ Create.conclude num index out around a
            (Create.planned_run num index out around h.plan
              (around.print_context (around.build a.organization_id w).1)
              (Create.new_run num index out around a opts))
            true
            (persisting a w)
  unfolding Create.start_run Create.start_new Create.plan_start Create.evaluate_start
  start_run-conclude a opts w h =
      ground (arith, h.shallow, h.fresh, h.enabled, h.idle, h.few, h.planned, h.passed)

  -- A permitted start that creates its run executes the steps of that run, which is running and
  -- whose planned steps are those of the automation in order, each with an allowed action and a
  -- canonical input; no other run of the automation was active.
  pub start_run-execute_steps :
      (a : Automation Num) (opts : StartRunOptions) (w : World S R)
      (h : IsPermitted num index out around a opts w) (i : ℕ) (d : R.Db)
      → R.create (permitted_row a opts w h) (persisting a w).runs ≡ some (i, d)
      → (Create.start_run num index out around a opts w
          ≡ execute_steps out i (permitted_row a opts w h) (record (persisting a w) { runs = d }))
        × ((permitted_row a opts w h).status ≡ RunStatus.running)
        × All IsReady (permitted_row a opts w h).planned_steps
        × (map (λ s. s.action_type) (permitted_row a opts w h).planned_steps
            ≡ map (λ s. s.action_type) (read_stored_steps a.steps))
        × (index.active a.id (persisting a w).runs ≡ none)
  unfolding Create.conclude Create.persist_run Create.running_run Create.planned_run Create.new_run
  start_run-execute_steps a opts w h i d e =
      let ready = plan_steps-IsReady _ (read_stored_steps a.steps) h.plan h.planned in
      (
        start_run-conclude a opts w h ∙ ground (arith, h.unapproved, e),
        refl,
        ready.0,
        ready.1,
        index.active-create (permitted_row a opts w h) (persisting a w).runs i d e refl,
      )
