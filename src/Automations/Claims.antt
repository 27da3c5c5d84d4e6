-- ===== src/Automations/Claims.antt =====
-- The conditional updates that src/ops-automation/automations.service.ts makes of one step run:
-- the `where` of each beside its `data`.
use robia_back.Prelude.{ℕ, ◌+◌, String, Bool, ◌&&◌, none, some, leb}
use robia_back.Automations.Rows.{StepRun, StoredStep, running, failed, succeeded, retry_scheduled}
use robia_back.Automations.Policy.{
  due_scheduled_retry, abandoned_running_claim, attempts_left, max_step_attempts, is,
}

-- The row that `runStepsFrom` creates for a first attempt.
unfoldable pub first_attempt : ℕ → ℕ → StoredStep → ℕ → ℕ → StepRun
first_attempt run_id sequence step now token = record {
  run_id = run_id;
  sequence = sequence;
  action_type = step.action_type;
  input = step.input;
  status = running;
  evidence = none;
  error = none;
  attempt_count = 1;
  next_attempt_at = none;
  claimed_at = some now;
  claim_token = some token;
  started_at = some now;
  finished_at = none;
}

-- The row that it creates for an action that is not allowed, with no claim.
unfoldable pub not_allowed_attempt : ℕ → ℕ → StoredStep → ℕ → String → StepRun
not_allowed_attempt run_id sequence step now message = record {
  run_id = run_id;
  sequence = sequence;
  action_type = step.action_type;
  input = step.input;
  status = failed;
  evidence = none;
  error = some message;
  attempt_count = 0;
  next_attempt_at = none;
  claimed_at = none;
  claim_token = none;
  started_at = some now;
  finished_at = some now;
}

-- The first claim of `retryStep`: a retry that is due.
unfoldable pub may_retry : ℕ → StepRun → Bool
unfolding due_scheduled_retry
may_retry now r = due_scheduled_retry now r && attempts_left r

unfoldable pub claim_retry : ℕ → ℕ → StepRun → StepRun
claim_retry now token r = record r {
  status = running;
  claimed_at = some now;
  claim_token = some token;
  started_at = some now;
  next_attempt_at = none;
  attempt_count = r.attempt_count + 1;
}

-- The second claim: a running attempt whose lease is stale.
unfoldable pub may_reclaim : ℕ → StepRun → Bool
unfolding abandoned_running_claim
may_reclaim threshold r = abandoned_running_claim threshold r && attempts_left r

unfoldable pub reclaim : ℕ → ℕ → StepRun → StepRun
reclaim now token r = record r {
  claimed_at = some now;
  claim_token = some token;
  attempt_count = r.attempt_count + 1;
}

-- The outcome of an attempt, as `commitStepAttempt` is given it.
pub data Outcome : Type 0 where
  success : String → ℕ → Outcome
  failure : String → ℕ → Outcome
  retry_at : String → ℕ → Outcome

outcome_data : Outcome → StepRun → StepRun
outcome_data (success evidence at) r = record r {
  status = succeeded;
  evidence = some evidence;
  finished_at = some at;
}
outcome_data (failure message at) r = record r {
  status = failed;
  error = some message;
  finished_at = some at;
}
outcome_data (retry_at message at) r = record r {
  status = retry_scheduled;
  error = some message;
  next_attempt_at = some at;
}

unfoldable pub holds_token : ℕ → StepRun → Bool
holds_token token r = is token r.claim_token

unfoldable pub commit : Outcome → StepRun → StepRun
unfolding outcome_data
commit o r = let r' = outcome_data o r in record r' { claimed_at = none; claim_token = none }

-- `reconcileLegacyUnclaimedRunningStep` and `failExhaustedAbandonedStep`.
unfoldable pub fail_legacy : String → ℕ → StepRun → StepRun
fail_legacy message now r = record r {
  status = failed;
  error = some message;
  finished_at = some now;
}

unfoldable pub is_exhausted : ℕ → StepRun → Bool
unfolding abandoned_running_claim
is_exhausted threshold r =
    abandoned_running_claim threshold r && leb max_step_attempts r.attempt_count

unfoldable pub fail_exhausted : String → ℕ → StepRun → StepRun
fail_exhausted message now r = record r {
  status = failed;
  error = some message;
  finished_at = some now;
  claimed_at = none;
  claim_token = none;
}
