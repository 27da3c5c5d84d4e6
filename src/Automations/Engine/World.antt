-- ===== src/Automations/Engine/World.antt =====
-- The state of the engine and its calls of the database and of an action.
use robia_back.Prelude.{ℕ, suc, ◌==◌, String, Bool, true, Option, none, some, List, ◌∷◌}
use robia_back.Store.{Table}
use robia_back.Automations.Rows.{Run, RunStatus, StepRun, StoredStep}
use robia_back.Automations.Policy.{
  Thrown, invalid_input, unknown_action, other, http, is_permanent_step_error,
}
use robia_back.Automations.Claims.{Outcome, holds_token, commit}

-- The two tables, the clock, the supply of `randomUUID`, the step runs whose action this request
-- has called, and its writes of `Automation.lastRunAt`, each with the latest first.
pub record World (S : Table StepRun) (R : Table Run) : Type 0 where
  pub steps : S.Db
  pub runs : R.Db
  pub clock : ℕ
  pub tokens : ℕ
  pub calls : List ℕ
  pub last_runs : List (ℕ × ℕ)

-- What a call gives back, or throws.
pub data Fault : Type 0 where
  not_found conflict constraint_violated invalid_date : Fault
  loop_detected too_many_steps broken_condition : Fault

pub data Result (A : Type 0) : Type 0 where
  returned : A → Result A
  raised : Fault → Result A

-- What `OpsActionsRegistryService.execute` does: its evidence or what it throws, and the state
-- that it leaves, in which other workers may have written meanwhile.
pub data Executed : Type 0 where
  evidence : String → Executed
  threw : Thrown → Executed

-- The result of `attemptStep`.
pub data Attempt : Type 0 where
  done : String → Attempt
  failed : Bool → String → Attempt

abbrev pub message_of : Thrown → String
message_of (invalid_input m) = m
message_of (unknown_action m) = m
message_of (other m) = m
message_of (http status m) = m

pub record Outside (S : Table StepRun) (R : Table Run) : Type 0 where
  pub execute : ℕ → Run → StoredStep → World S R → World S R × Executed
  -- `redactSensitive` (src/common/logging/redact.ts) on a message and on evidence
  pub redact : String → String
  pub redact_evidence : String → String

abbrev pub M : Table StepRun → Table Run → Type 0 → Type 0
M S R A = World S R → World S R × Result A

infixl 5 ◌>>=◌
abbrev pub ◌>>=◌ :
    {S : Table StepRun} {R : Table Run} {A B : Type 0} → M S R A → (A → M S R B) → M S R B
◌>>=◌ m f w = let (w', r) = m w in elim r [ returned a ↦ f a w' | raised e ↦ (w', raised e) ]

module _ {S : Table StepRun} {R : Table Run} where
  abbrev pub pure : {A : Type 0} → A → M S R A
  pure a w = (w, returned a)

  abbrev pub raise : {A : Type 0} → Fault → M S R A
  raise e w = (w, raised e)

  -- `new Date()` and `randomUUID()`
  abbrev pub new_date : M S R ℕ
  new_date w = (w, returned w.clock)

  abbrev pub random_uuid : M S R ℕ
  random_uuid w = (record w { tokens = suc w.tokens }, returned w.tokens)

  unfoldable pub find_step : ℕ → M S R (Option StepRun)
  find_step i w = (w, returned (S.find i w.steps))

  unfoldable pub find_run : ℕ → M S R (Option Run)
  find_run i w = (w, returned (R.find i w.runs))

  -- `automationStepRun.create`
  unfoldable pub create_step : StepRun → M S R ℕ
  create_step r w = elim (S.create r w.steps) [
    | none ↦ (w, raised constraint_violated)
    | some (i, d) ↦ (record w { steps = d }, returned i)
  ]

  -- `automationStepRun.updateMany`, and whether a row matched
  unfoldable pub update_step : ℕ → (StepRun → Bool) → (StepRun → StepRun) → M S R Bool
  update_step i p f w =
      let (d, count) = S.update_many i p f w.steps in
      (record w { steps = d }, returned (count == 1))

  -- `automationRun.update`, which throws where there is no such row
  unfoldable pub update_run : ℕ → (Run → Run) → M S R Run
  update_run i f w =
      let d = (R.update_many i (λ r. true) f w.runs).0 in
      elim (R.find i w.runs) [
        | none ↦ (w, raised not_found)
        | some r ↦ (record w { runs = d }, returned (f r))
      ]

  unfoldable pub commit_step_attempt : ℕ → ℕ → Outcome → M S R Bool
  unfolding update_step
  commit_step_attempt i token o = update_step i (holds_token token) (commit o)

  unfoldable pub attempt_step : Outside S R → ℕ → Run → StoredStep → M S R Attempt
  attempt_step out step_run_id run step w =
      let (w', r) = out.execute step_run_id run step w in
      (
        record w' { calls = step_run_id ∷ w.calls },
        returned (elim r [
          | evidence e ↦ done (out.redact_evidence e)
          | threw t ↦ failed (is_permanent_step_error t) (out.redact (message_of t))
        ]),
      )

  unfoldable pub refetch_run : ℕ → M S R Run
  refetch_run i w = elim (R.find i w.runs) [
    | none ↦ (w, raised not_found)
    | some r ↦ (w, returned r)
  ]

  -- `finishRun`
  unfoldable pub finish_run : ℕ → RunStatus → Option String → M S R Run
  unfolding update_run
  finish_run i status message w =
      update_run i
        (λ r. record r { status = status; error_message = message; finished_at = some w.clock }) w
