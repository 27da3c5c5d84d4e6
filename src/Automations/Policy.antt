-- ===== src/Automations/Policy.antt =====
-- src/ops-automation/step-retry-policy.ts: which rows a claim may match, and which errors are
-- worth a retry.
use robia_back.Prelude.{
  ℕ, zero, suc, String, Bool, true, false, ◌&&◌, ◌||◌, Option, none, some, ltb, leb, ◌==◌,
}
use robia_back.Automations.Rows.{StepRun, is_step_running, is_retry_scheduled}

abbrev pub max_step_attempts : ℕ
max_step_attempts = 4

-- `STEP_RETRY_BACKOFF_MS[attempts - 1]`; `none` is `undefined`.
abbrev pub step_retry_backoff_ms : ℕ → Option ℕ
step_retry_backoff_ms (suc zero) = some 60000
step_retry_backoff_ms (suc (suc zero)) = some 300000
step_retry_backoff_ms (suc (suc (suc zero))) = some 1800000
step_retry_backoff_ms _ = none

abbrev pub step_retry_claim_lease_ms : ℕ
step_retry_claim_lease_ms = 300000

-- What an action may throw.
pub data Thrown : Type 0 where
  invalid_input unknown_action other : String → Thrown
  http : ℕ → String → Thrown

unfoldable pub is_permanent_step_error : Thrown → Bool
is_permanent_step_error (invalid_input m) = true
is_permanent_step_error (unknown_action m) = true
is_permanent_step_error (http status m) = leb 400 status && ltb status 500
is_permanent_step_error (other m) = false

-- `{ lte: now }`, `{ lt: threshold }` and equality on a nullable column: no match on null.
abbrev pub at_most : ℕ → Option ℕ → Bool
at_most now none = false
at_most now (some t) = leb t now

abbrev pub before : ℕ → Option ℕ → Bool
before threshold none = false
before threshold (some t) = ltb t threshold

abbrev pub is : ℕ → Option ℕ → Bool
is a none = false
is a (some b) = b == a

abbrev pub is_null : {A : Type 0} → Option A → Bool
is_null none = true
is_null (some _) = false

unfoldable pub due_scheduled_retry : ℕ → StepRun → Bool
due_scheduled_retry now r = is_retry_scheduled r.status && at_most now r.next_attempt_at

unfoldable pub abandoned_running_claim : ℕ → StepRun → Bool
abandoned_running_claim threshold r = is_step_running r.status && before threshold r.claimed_at

unfoldable pub legacy_unclaimed_running : ℕ → StepRun → Bool
legacy_unclaimed_running threshold r =
    is_step_running r.status
    && is_null r.claimed_at
    && is_null r.claim_token
    && before threshold r.started_at

-- The scan of the dispatcher.
unfoldable pub due_step_retry : ℕ → ℕ → StepRun → Bool
unfolding due_scheduled_retry abandoned_running_claim legacy_unclaimed_running
due_step_retry now threshold r =
    due_scheduled_retry now r
    || abandoned_running_claim threshold r
    || legacy_unclaimed_running threshold r

abbrev pub attempts_left : StepRun → Bool
attempts_left r = ltb r.attempt_count max_step_attempts
