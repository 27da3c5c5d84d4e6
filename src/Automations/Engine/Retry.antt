-- ===== src/Automations/Engine/Retry.antt =====
-- `retryStep` of src/ops-automation/automations.service.ts with its two force-fail paths.
use robia_back.Prelude.{
  ℕ, zero, suc, ◌+◌, ◌-◌, leb, String, Bool, true, false, ◌||◌, ◌&&◌, Option, none, some, List, [],
  ◌∷◌, if◌then◌else◌,
}
use robia_back.Store.{Table}
use robia_back.Automations.Rows.{Run, RunStatus, StepRun, StoredStep, is_step_running}
use robia_back.Automations.Policy.{
  step_retry_backoff_ms, max_step_attempts, step_retry_claim_lease_ms, legacy_unclaimed_running, is,
}
use robia_back.Automations.Actions.{is_retry_safe}
use robia_back.Automations.Claims.{
  success, failure, retry_at, may_retry, claim_retry, may_reclaim, reclaim, fail_legacy,
  is_exhausted, fail_exhausted,
}
use robia_back.Automations.Engine.World.{
  Outside, M, ◌>>=◌, pure, raise, random_uuid, update_step, find_step, find_run,
  commit_step_attempt, attempt_step, finish_run, Attempt, done, failed, invalid_date,
}
use robia_back.Automations.Engine.Run.{run_steps_from}

abbrev pub legacy_message : String
legacy_message =
    "Résultat indéterminé — cette tentative a été créée avant le suivi de claim et n'a jamais enregistré d'issue (déploiement ayant probablement interrompu le worker) : intervention humaine nécessaire."

abbrev pub exhausted_message : String
exhausted_message =
    "Résultat indéterminé après une interruption — budget de tentatives épuisé, intervention humaine nécessaire."

abbrev pub not_replayable_message : Bool → String
not_replayable_message true =
    "Résultat indéterminé après une interruption (bail de reprise dépassé) — cette action n'est pas rejouable automatiquement : intervention humaine nécessaire."
not_replayable_message false =
    "Cette action n'est pas rejouable automatiquement — reprise programmée annulée, intervention humaine nécessaire."

-- `steps[sequence - 1]`
abbrev pub planned_step : List StoredStep → ℕ → Option StoredStep
planned_step steps zero = none
planned_step [] (suc n) = none
planned_step (s ∷ steps) (suc zero) = some s
planned_step (s ∷ steps) (suc (suc n)) = planned_step steps (suc n)

module _ {S : Table StepRun} {R : Table Run} (out : Outside S R) where
  -- Ends the run of a step run that was just failed.
  unfoldable pub fail_run_of : ℕ → String → M S R (Unit {0})
  fail_run_of step_run_id message = do
    found ← find_step step_run_id
    elim found [
      | none ↦ pure tt
      | some r ↦ do run ← finish_run r.run_id RunStatus.failed (some message); pure tt
    ]

  unfoldable pub reconcile_legacy : ℕ → ℕ → ℕ → M S R Bool
  unfolding fail_run_of
  reconcile_legacy step_run_id threshold now = do
    let message = out.redact legacy_message
    hit ← update_step step_run_id (legacy_unclaimed_running threshold) (fail_legacy message now)
    elim hit [ true ↦ do u ← fail_run_of step_run_id message; pure true | false ↦ pure false ]

  unfoldable pub fail_exhausted_step : ℕ → ℕ → ℕ → M S R (Unit {0})
  unfolding fail_run_of
  fail_exhausted_step step_run_id threshold now = do
    let message = out.redact exhausted_message
    hit ← update_step step_run_id (is_exhausted threshold) (fail_exhausted message now)
    elim hit [ true ↦ fail_run_of step_run_id message | false ↦ pure tt ]

  -- `if (owned) await this.finishRun(run.id, 'failed', message)`
  unfoldable pub finish_if : Bool → ℕ → String → M S R (Unit {0})
  finish_if false run_id message = pure tt
  finish_if true run_id message = do r ← finish_run run_id RunStatus.failed (some message); pure tt

  -- What a retried attempt's result means for the run; the action is known to be retry-safe here.
  unfoldable pub settle_retry : ℕ → ℕ → StepRun → Run → Attempt → ℕ → M S R (Unit {0})
  unfolding finish_if
  settle_retry step_run_id token fresh run (done e) now = do
    owned ← commit_step_attempt step_run_id token (success e now)
    elim owned [
      | true ↦ do r ← run_steps_from out fresh.run_id run run.planned_steps fresh.sequence; pure tt
      | false ↦ pure tt
    ]
  settle_retry step_run_id token fresh run (failed permanent m) now =
      if permanent || leb max_step_attempts fresh.attempt_count
      then (do
        owned ← commit_step_attempt step_run_id token (failure m now)
        finish_if owned fresh.run_id m)
      else (elim (step_retry_backoff_ms fresh.attempt_count) [
        | none ↦ raise invalid_date
        | some ms ↦ do
          owned ← commit_step_attempt step_run_id token (retry_at m (now + ms))
          pure tt
      ])

  -- The attempt itself, which only a retry-safe action gets.
  unfoldable pub retry_attempt : ℕ → ℕ → Bool → StepRun → Run → StoredStep → ℕ → M S R (Unit {0})
  unfolding settle_retry
  retry_attempt step_run_id token abandoned fresh run step now =
      if is_retry_safe step.action_type
      then (do
        result ← attempt_step out step_run_id run step
        settle_retry step_run_id token fresh run result now)
      else (do
        let message = out.redact (not_replayable_message abandoned)
        owned ← commit_step_attempt step_run_id token (failure message now)
        finish_if owned fresh.run_id message)

  -- The run of the claimed row and its planned step.
  unfoldable pub retry_planned : ℕ → ℕ → Bool → StepRun → ℕ → Option Run → M S R (Unit {0})
  unfolding retry_attempt
  retry_planned step_run_id token abandoned fresh now none = pure tt
  retry_planned step_run_id token abandoned fresh now (some run) =
      elim (planned_step run.planned_steps fresh.sequence) [
        | none ↦ pure tt
        | some step ↦ retry_attempt step_run_id token abandoned fresh run step now
      ]

  -- The row read again: only if it still carries the claim does the retry go on.
  unfoldable pub retry_fresh : ℕ → ℕ → Bool → ℕ → Option StepRun → M S R (Unit {0})
  unfolding retry_planned
  retry_fresh step_run_id token abandoned now none = pure tt
  retry_fresh step_run_id token abandoned now (some fresh) =
      if is_step_running fresh.status && is token fresh.claim_token
      then (do run ← find_run fresh.run_id; retry_planned step_run_id token abandoned fresh now run)
      else pure tt

  -- `retryStep` once a claim is won.
  unfoldable pub retry_claimed : ℕ → ℕ → Bool → ℕ → M S R (Unit {0})
  unfolding retry_fresh
  retry_claimed step_run_id token abandoned now = do
    found ← find_step step_run_id
    retry_fresh step_run_id token abandoned now found

  -- Neither claim matched: a legacy row, an exhausted one, or nothing to do.
  unfoldable pub after_claims : ℕ → ℕ → M S R (Unit {0})
  after_claims step_run_id now = do
    let threshold = now - step_retry_claim_lease_ms
    legacy ← reconcile_legacy step_run_id threshold now
    elim legacy [ true ↦ pure tt | false ↦ fail_exhausted_step step_run_id threshold now ]

  -- `claim.count` after the second claim, and after the first.
  unfoldable pub after_reclaim : ℕ → ℕ → ℕ → Bool → M S R (Unit {0})
  after_reclaim step_run_id token now true = retry_claimed step_run_id token true now
  after_reclaim step_run_id token now false = after_claims step_run_id now

  unfoldable pub after_claim : ℕ → ℕ → ℕ → Bool → M S R (Unit {0})
  after_claim step_run_id token now true = retry_claimed step_run_id token false now
  after_claim step_run_id token now false = do
    let threshold = now - step_retry_claim_lease_ms
    stale ← update_step step_run_id (may_reclaim threshold) (reclaim now token)
    after_reclaim step_run_id token now stale

  unfoldable pub retry_step : ℕ → ℕ → M S R (Unit {0})
  retry_step step_run_id now = do
    token ← random_uuid
    due ← update_step step_run_id (may_retry now) (claim_retry now token)
    after_claim step_run_id token now due
