-- ===== src/Automations/Engine/Statements.antt =====
-- What each statement of the engine does at a row that exists.
use robia_back.Prelude.{
  ℕ, ◌≡◌, refl, ap, ◌∙◌, ◌==◌, Bool, false, Option, some, arith, String, if◌then◌else◌,
}
use robia_back.Store.{Table, updated, matched}
use robia_back.Automations.Rows.{Run, RunStatus, StepRun}
use robia_back.Automations.Engine.World.{World, M, ◌>>=◌, returned, raised, update_step, finish_run}

one_if : (b : Bool) → ((if b then 1 else 0) == 1) ≡ b
one_if b = ground arith

module _ {S : Table StepRun} {R : Table Run} (i : ℕ) (w : World S R) where
  -- A conditional update reports whether its condition held of the row.
  pub update_step_lem :
      (p : StepRun → Bool) (f : StepRun → StepRun) (r : StepRun)
      → S.find i w.steps ≡ some r
      → update_step i p f w ≡ (record w { steps = (S.update_many i p f w.steps).0 }, returned (p r))
  unfolding update_step
  update_step_lem p f r h = rw (S.count-update_many i p f w.steps, h, one_if (p r)) refl

  -- The statement with what follows it.
  pub update_step->>= :
      {A : Type 0} (p : StepRun → Bool) (f : StepRun → StepRun) (k : Bool → M S R A) (r : StepRun)
      → S.find i w.steps ≡ some r
      → (update_step i p f >>= k) w ≡ k (p r) (record w { steps = (S.update_many i p f w.steps).0 })
  update_step->>= p f k r h =
      ap (λ x. let (w', q) = x in elim q [ returned a ↦ k a w' | raised e ↦ (w', raised e) ])
        (update_step_lem p f r h)

  pub find-update_step :
      (p : StepRun → Bool) (f : StepRun → StepRun) (r : StepRun)
      → S.find i w.steps ≡ some r
      → S.find i (update_step i p f w).0.steps ≡ some (if p r then f r else r)
  unfolding update_step
  find-update_step p f r h = S.find-update_many i p f w.steps ∙ ap (updated p f) h

  -- A condition that does not hold writes nothing.
  pub update_step_unmatched :
      (p : StepRun → Bool) (f : StepRun → StepRun) (r : StepRun)
      → S.find i w.steps ≡ some r
      → p r ≡ false
      → update_step i p f w ≡ (w, returned false)
  update_step_unmatched p f r h e = rw (
    update_step_lem p f r h,
    e,
    S.update_many_unmatched i p f w.steps (ap (matched p) h ∙ ap (λ b. if b then 1 else 0) e),
  )

  pub finish_run_lem :
      (status : RunStatus) (message : Option String) (r : Run)
      → R.find i w.runs ≡ some r
      → (finish_run i status message w).1
        ≡ returned
            (record r { status = status; error_message = message; finished_at = some w.clock })
  unfolding finish_run
  finish_run_lem status message r h = ground arith

  pub calls-finish_run :
      (status : RunStatus) (message : Option String)
      → (finish_run i status message w).0.calls ≡ w.calls
  unfolding finish_run
  calls-finish_run status message = ground arith
