-- ===== src/Automations/Interleavings.antt =====
-- Workers that race on one step run: every statement of the services on the row is one step of a
-- relation, in any order, with crashes.
use robia_back.Prelude.{
  ℕ, ◌+◌, ◌≤◌, ◌<◌, ◌≡◌, suc, not, ◌&&◌, ◌||◌, String, Bool, true, false, Option, none, some, List,
  [], ◌∷◌, All, Any, if◌then◌else◌, ◌==◌,
}
use robia_back.Automations.Rows.{
  StepRun, StepStatus, StoredStep, running, failed, succeeded, retry_scheduled,
}
use robia_back.Automations.Policy.{legacy_unclaimed_running, max_step_attempts}
use robia_back.Automations.Claims.{
  first_attempt, may_retry, claim_retry, may_reclaim, reclaim, Outcome, success, failure, retry_at,
  holds_token, commit, fail_legacy, is_exhausted, fail_exhausted,
}

-- A worker between its claim and its commit: its token, the attempt count that it read, whether it
-- is one of `retryStep`, and whether it has called the action.
pub record Worker : Type 0 where
  pub token : ℕ
  pub count : ℕ
  pub retries : Bool
  pub has_called : Bool

-- The row, the workers in flight, the next token that `randomUUID` gives, and the calls of the
-- action so far.
pub record System : Type 0 where
  pub row : StepRun
  pub workers : List Worker
  pub next_token : ℕ
  pub executions : ℕ

abbrev pub remove : ℕ → List Worker → List Worker
remove t [] = []
remove t (w ∷ ws) = if w.token == t then remove t ws else w ∷ remove t ws

-- A worker calls the action at most once; one of `retryStep` does so only where `isRetrySafe`
-- holds.
abbrev pub may_call : Bool → Worker → Bool
may_call safe w = not w.has_called && (not w.retries || safe)

-- The calls that the workers in flight may still make.
abbrev pub pending : Bool → List Worker → ℕ
pending safe [] = 0
pending safe (w ∷ ws) = if may_call safe w then suc (pending safe ws) else pending safe ws

-- What a worker may report: a success if it has called the action, and another retry if the action
-- is retry-safe and the attempt that it read was not the last.
abbrev pub MayReport : Bool → Worker → Outcome → Type 0
MayReport safe w (success e t) = w.has_called ≡ true
MayReport safe w (failure m t) = Unit
MayReport safe w (retry_at m t) = (safe ≡ true) × (w.count < max_step_attempts)

abbrev pub new_worker : System → Worker
new_worker s = record {
  token = s.next_token;
  count = s.row.attempt_count + 1;
  retries = true;
  has_called = false;
}

abbrev pub with_worker : System → StepRun → System
with_worker s r = record s {
  row = r;
  workers = new_worker s ∷ s.workers;
  next_token = s.next_token + 1;
}

-- `execute` of the action, after which the worker is still in flight.
abbrev pub after_call : Worker → System → System
after_call w s = record s {
  workers = record w { has_called = true } ∷ remove w.token s.workers;
  executions = s.executions + 1;
}

abbrev pub committed_row : ℕ → Outcome → StepRun → StepRun
committed_row t o r = if holds_token t r then commit o r else r

-- `safe` is `isRetrySafe` of the step's action.
pub data Step (safe : Bool) (s : System) : System → Type 0 where
  claimed :
      (now : ℕ)
      → may_retry now s.row ≡ true
      → Step safe s (with_worker s (claim_retry now s.next_token s.row))
  reclaimed :
      (now threshold : ℕ)
      → may_reclaim threshold s.row ≡ true
      → Step safe s (with_worker s (reclaim now s.next_token s.row))
  called :
      (w : Worker)
      → Any (λ v. v ≡ w) s.workers
      → may_call safe w ≡ true
      → Step safe s (after_call w s)
  committed :
      (w : Worker) (o : Outcome)
      → Any (λ v. v ≡ w) s.workers
      → MayReport safe w o
      → Step safe s
          (record s { row = committed_row w.token o s.row; workers = remove w.token s.workers })
  crashed : (t : ℕ) → Step safe s (record s { workers = remove t s.workers })
  legacy_failed :
      (message : String) (now threshold : ℕ)
      → legacy_unclaimed_running threshold s.row ≡ true
      → Step safe s (record s { row = fail_legacy message now s.row })
  exhausted_failed :
      (message : String) (now threshold : ℕ)
      → is_exhausted threshold s.row ≡ true
      → Step safe s (record s { row = fail_exhausted message now s.row })

pub data Reach (safe : Bool) (s : System) : System → Type 0 where
  here : Reach safe s s
  next : {t u : System} → Reach safe s t → Step safe t u → Reach safe s u

-- The row just after `runStepsFrom` has created it; its worker has not called the action yet.
abbrev pub started : ℕ → ℕ → StoredStep → ℕ → ℕ → System
started run_id sequence step now token = record {
  row = first_attempt run_id sequence step now token;
  workers = record { token = token; count = 1; retries = false; has_called = false } ∷ [];
  next_token = token + 1;
  executions = 0;
}

abbrev pub OwnsCount : System → Worker → Type 0
OwnsCount s w =
    (w.token < s.next_token) × (holds_token w.token s.row ≡ true → w.count ≡ s.row.attempt_count)

-- The calls that a number of attempts permits.
abbrev pub calls_allowed : Bool → ℕ → ℕ
calls_allowed true n = n
calls_allowed false n = 1

abbrev pub is_terminal : StepStatus → Bool
is_terminal succeeded = true
is_terminal failed = true
is_terminal _ = false

abbrev pub Token : ℕ → StepStatus → Option ℕ → Option ℕ → Type 0
Token bound running (some t) (some c) = t < bound
Token bound running _ _ = ⊥
Token bound retry_scheduled none none = Unit
Token bound succeeded none none = Unit
Token bound failed none none = Unit
Token bound _ _ _ = ⊥

-- What holds of every row between two statements: a running row carries a claim and no other row
-- does, the budget of attempts is respected, and the calls, made and still possible, are counted.
pub record Inv (safe : Bool) (s : System) : Type 0 where
  pub token : Token s.next_token s.row.status s.row.claim_token s.row.claimed_at
  pub budget : s.row.attempt_count ≤ max_step_attempts
  pub counted : s.executions + pending safe s.workers ≤ calls_allowed safe s.row.attempt_count
  pub retry_left : s.row.status ≡ retry_scheduled → s.row.attempt_count < max_step_attempts
  pub retry_safe : s.row.status ≡ retry_scheduled → safe ≡ true
  pub owners : All (OwnsCount s) s.workers
