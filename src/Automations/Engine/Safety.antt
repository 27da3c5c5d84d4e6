-- ===== src/Automations/Engine/Safety.antt =====
-- What a retry never does: execute an action that is not retry-safe.
use robia_back.Prelude.{
  ℕ, suc, ◌-◌, ◌≡◌, refl, sym, ap, ◌∙◌, ◌&&◌, Bool, true, false, some, arith, String, if◌then◌else◌,
  Bool-cases, inl, inr, Option-cases, subst,
}
use robia_back.Store.{Table, updated, matched}
use robia_back.Automations.Rows.{Run, RunStatus, StepRun, StoredStep, is_step_running}
use robia_back.Automations.Policy.{is, step_retry_claim_lease_ms, legacy_unclaimed_running}
use robia_back.Automations.Actions.{is_retry_safe}
use robia_back.Automations.Claims.{
  Outcome, holds_token, commit, may_retry, claim_retry, may_reclaim, reclaim, is_exhausted,
  fail_legacy, fail_exhausted,
}
use robia_back.Automations.Engine.World.{
  World, Outside, update_step, find_step, find_run, commit_step_attempt,
}
use robia_back.Automations.Engine.Retry.{
  legacy_message, exhausted_message, planned_step, fail_run_of, reconcile_legacy,
  fail_exhausted_step, finish_if, retry_attempt, retry_planned, retry_fresh, retry_claimed,
  retry_step, after_claims, after_claim, after_reclaim,
}
use robia_back.Automations.Engine.Statements.{update_step->>=, calls-finish_run}

module _ {S : Table StepRun} {R : Table Run} (out : Outside S R) (i : ℕ) where
  calls-update_step :
      (p : StepRun → Bool) (f : StepRun → StepRun) (w : World S R)
      → (update_step i p f w).0.calls ≡ w.calls
  unfolding update_step
  calls-update_step p f w = refl

  calls-finish_if :
      (owned : Bool) (run_id : ℕ) (message : String) (w : World S R)
      → (finish_if out owned run_id message w).0.calls ≡ w.calls
  unfolding finish_if
  calls-finish_if false run_id message w = refl
  calls-finish_if true run_id message w =
      ground (arith, calls-finish_run run_id w RunStatus.failed (some message))

  calls-fail_run_of :
      (message : String) (w : World S R) → (fail_run_of out i message w).0.calls ≡ w.calls
  unfolding fail_run_of find_step
  calls-fail_run_of message w = elim (Option-cases (S.find i w.steps)) [
    | inl e ↦ rw (e, fail_run_of) refl
    | inr (r, e) ↦ ground (arith, calls-finish_run r.run_id w RunStatus.failed (some message))
  ]

  -- The step run's row and its planned step, at a state.
  abbrev pub Plans : World S R → StepRun → Run → StoredStep → Type 0
  Plans w r run step =
      (S.find i w.steps ≡ some r)
      × (R.find r.run_id w.runs ≡ some run)
      × (planned_step run.planned_steps r.sequence ≡ some step)

  calls-commit :
      (token : ℕ) (o : Outcome) (w : World S R)
      → (commit_step_attempt i token o w).0.calls ≡ w.calls
  unfolding commit_step_attempt
  calls-commit token o w = calls-update_step (holds_token token) (commit o) w

  calls-retry_attempt :
      (token : ℕ) (abandoned : Bool) (r : StepRun) (run : Run) (step : StoredStep) (now : ℕ)
      (w : World S R)
      → is_retry_safe step.action_type ≡ false
      → (retry_attempt out i token abandoned r run step now w).0.calls ≡ w.calls
  unfolding retry_attempt commit_step_attempt update_step
  calls-retry_attempt token abandoned r run step now w unsafe =
      rw (unsafe, retry_attempt) (calls-finish_if _ _ _ _)

  calls-retry_claimed :
      (token : ℕ) (abandoned : Bool) (now : ℕ) (r : StepRun) (run : Run) (step : StoredStep)
      (w : World S R)
      → Plans w r run step
      → is_retry_safe step.action_type ≡ false
      → (retry_claimed out i token abandoned now w).0.calls ≡ w.calls
  unfolding retry_claimed retry_fresh retry_planned find_step find_run
  calls-retry_claimed token abandoned now r run step w (h, k, p) unsafe =
      rw (h, retry_claimed)
        (elim (Bool-cases (is_step_running r.status && is token r.claim_token)) [
          | inl e ↦
              rw (e, k, retry_planned, p, retry_planned)
                (calls-retry_attempt token abandoned r run step now w unsafe)
          | inr e ↦ rw e refl
        ])

  calls-legacy :
      (threshold now : ℕ) (w : World S R)
      → (reconcile_legacy out i threshold now w).0.calls ≡ w.calls
  unfolding reconcile_legacy update_step
  calls-legacy threshold now w =
      let message = out.redact legacy_message in
      let d =
        (S.update_many i (legacy_unclaimed_running threshold) (fail_legacy message now)
          w.steps).0 in
      ground (arith, calls-fail_run_of message (record w { steps = d }))

  calls-exhausted :
      (threshold now : ℕ) (w : World S R)
      → (fail_exhausted_step out i threshold now w).0.calls ≡ w.calls
  unfolding fail_exhausted_step update_step
  calls-exhausted threshold now w =
      let message = out.redact exhausted_message in
      let d = (S.update_many i (is_exhausted threshold) (fail_exhausted message now) w.steps).0 in
      ground (arith, calls-fail_run_of message (record w { steps = d }))

  -- The state after a conditional update.
  abbrev After : (StepRun → Bool) → (StepRun → StepRun) → World S R → World S R
  After p f w = record w { steps = (S.update_many i p f w.steps).0 }

  Plans-update_step :
      (p : StepRun → Bool) (f : StepRun → StepRun) (r : StepRun) (run : Run) (step : StoredStep)
      (w : World S R)
      → ((f r).run_id ≡ r.run_id)
      → ((f r).sequence ≡ r.sequence)
      → p r ≡ true
      → Plans w r run step
      → Plans (After p f w) (f r) run step
  Plans-update_step p f r run step w same_run same_sequence e (h, k, q) = (
    S.find-update_many i p f w.steps ∙ ap (updated p f) h ∙ ap (λ b. some (if b then f r else r)) e,
    rw same_run k,
    rw same_sequence q,
  )

  -- A claim that does not match leaves the state as it was.
  After-unmatched :
      (p : StepRun → Bool) (f : StepRun → StepRun) (w : World S R) (r : StepRun)
      → S.find i w.steps ≡ some r
      → p r ≡ false
      → After p f w ≡ w
  After-unmatched p f w r h e =
      ap (λ d. record w { steps = d })
        (S.update_many_unmatched i p f w.steps (ap (matched p) h ∙ ap (λ b. if b then 1 else 0) e))

  calls-after_claims : (now : ℕ) (w : World S R) → (after_claims out i now w).0.calls ≡ w.calls
  unfolding after_claims
  calls-after_claims now w =
      let threshold = now - step_retry_claim_lease_ms in
      ground (
        arith,
        calls-legacy threshold now w,
        calls-exhausted threshold now (reconcile_legacy out i threshold now w).0,
      )

  module _ (now : ℕ) (r : StepRun) (run : Run) (step : StoredStep)
      (unsafe : is_retry_safe step.action_type ≡ false) where
    calls-after_reclaim :
        (token : ℕ) (b : Bool) (w : World S R)
        → (b ≡ true → (r' : StepRun) × Plans w r' run step)
        → (after_reclaim out i token now b w).0.calls ≡ w.calls
    unfolding after_reclaim
    calls-after_reclaim token true w plans =
        let (r', p) = plans refl in calls-retry_claimed token true now r' run step w p unsafe
    calls-after_reclaim token false w plans = calls-after_claims now w

    calls-after_claim :
        (token : ℕ) (b : Bool) (w : World S R)
        → ((r' : StepRun) × Plans w r' run step)
        → (after_claim out i token now b w).0.calls ≡ w.calls
    unfolding after_claim reclaim
    calls-after_claim token true w (r', p) =
        calls-retry_claimed token false now r' run step w p unsafe
    calls-after_claim token false w (r', (h, k, q)) =
        let threshold = now - step_retry_claim_lease_ms in
        let p = may_reclaim threshold in
        let f = reclaim now token in
        ap (λ x. x.0.calls) (update_step->>= i w p f (after_reclaim out i token now) r' h)
        ∙ calls-after_reclaim token (p r') (After p f w)
            (λ e. (f r', Plans-update_step p f r' run step w refl refl e (h, k, q)))

    -- `retryStep` never calls the action of a step that is not retry-safe, whichever claim it wins.
    pub calls-retry_step_unsafe :
        (w : World S R)
        → S.find i w.steps ≡ some r
        → R.find r.run_id w.runs ≡ some run
        → planned_step run.planned_steps r.sequence ≡ some step
        → (retry_step out i now w).0.calls ≡ w.calls
    unfolding retry_step claim_retry
    calls-retry_step_unsafe w h k q =
        let w₁ : World S R = record w { tokens = suc w.tokens } in
        let p = may_retry now in
        let f = claim_retry now w.tokens in
        ap (λ x. x.0.calls) (update_step->>= i w₁ p f (after_claim out i w.tokens now) r h)
        ∙ calls-after_claim w.tokens (p r) (After p f w₁) (elim (Bool-cases (p r)) [
          | inl e ↦ (f r, Plans-update_step p f r run step w₁ refl refl e (h, k, q))
          | inr e ↦
              (r, subst (λ v. Plans v r run step) (sym (After-unmatched p f w₁ r h e)) (h, k, q))
        ])
