-- ===== src/Automations/Races.antt =====
-- What the claims guarantee of a step run, whatever the workers do.
use robia_back.Prelude.{
  ℕ, ◌≤◌, ◌≡◌, inl, inr, refl, String, Bool, true, false, Any, arith, Bool-cases, ◌∙◌,
}
use robia_back.Automations.Rows.{StoredStep}
use robia_back.Automations.Policy.{legacy_unclaimed_running, max_step_attempts}
use robia_back.Automations.Claims.{
  first_attempt, may_retry, claim_retry, may_reclaim, reclaim, Outcome, holds_token, commit,
  is_exhausted, fail_exhausted,
}
use robia_back.Automations.Workers.{
  All-remove, All-weaken, All-Any, pending-remove, pending-remove_caller,
}
use robia_back.Automations.Interleavings.{
  Worker, System, remove, MayReport, may_call, after_call, called, with_worker, committed_row, Step,
  claimed, reclaimed, committed, crashed, legacy_failed, exhausted_failed, Reach, here, next,
  started, OwnsCount, is_terminal, Inv,
}

started-Inv :
    (safe : Bool) (run_id sequence : ℕ) (step : StoredStep) (now token : ℕ)
    → Inv safe (started run_id sequence step now token)
unfolding first_attempt holds_token
started-Inv true run_id sequence step now token = ground arith
started-Inv false run_id sequence step now token = ground arith

claimed-Inv :
    (safe : Bool) (s : System) (now : ℕ)
    → may_retry now s.row ≡ true
    → Inv safe s
    → Inv safe (with_worker s (claim_retry now s.next_token s.row))
unfolding may_retry claim_retry holds_token
claimed-Inv safe s now h inv = record {
  token = omega arith;
  budget = ground arith;
  counted = ground arith;
  retry_left = ground arith;
  retry_safe = ground arith;
  owners = (ground arith, All-weaken _ _ (λ w p. ground arith) s.workers inv.owners);
}

reclaimed-Inv :
    (safe : Bool) (s : System) (now threshold : ℕ)
    → may_reclaim threshold s.row ≡ true
    → Inv safe s
    → Inv safe (with_worker s (reclaim now s.next_token s.row))
unfolding may_reclaim reclaim holds_token
reclaimed-Inv safe s now threshold h inv = record {
  token = ground arith;
  budget = ground arith;
  counted = ground arith;
  retry_left = ground arith;
  retry_safe = ground arith;
  owners = (ground arith, All-weaken _ _ (λ w p. ground arith) s.workers inv.owners);
}

module _ (safe : Bool) (s : System) (w : Worker) (o : Outcome) where
  -- The commit of a worker that still holds its claim.
  owned-Inv :
      MayReport safe w o
      → (w.count ≡ s.row.attempt_count)
      → holds_token w.token s.row ≡ true
      → Inv safe s
      → Inv safe (record s { row = commit o s.row })
  unfolding commit holds_token
  owned-Inv may owns holds inv = record {
    token = ground arith;
    budget = ground arith;
    counted = ground arith;
    retry_left = ground arith;
    retry_safe = ground arith;
    owners = All-weaken _ _ (λ v p. ground arith) s.workers inv.owners;
  }

  committed_row-Inv :
      Any (λ v. v ≡ w) s.workers
      → MayReport safe w o
      → Inv safe s
      → Inv safe (record s { row = committed_row w.token o s.row })
  committed_row-Inv member may inv = elim (Bool-cases (holds_token w.token s.row)) [
    | inl e ↦ rw e (owned-Inv may ((All-Any (OwnsCount s) w s.workers inv.owners member).1 e) e inv)
    | inr e ↦ rw e inv
  ]

remove-Inv :
    (safe : Bool) (s : System) (t : ℕ)
    → Inv safe s
    → Inv safe (record s { workers = remove t s.workers })
remove-Inv safe s t inv = record {
  token = inv.token;
  budget = inv.budget;
  counted = omega (arith, inv.counted, pending-remove safe t s.workers);
  retry_left = inv.retry_left;
  retry_safe = inv.retry_safe;
  owners = All-remove (OwnsCount s) t s.workers inv.owners;
}

called-Inv :
    (safe : Bool) (s : System) (w : Worker)
    → Any (λ v. v ≡ w) s.workers
    → may_call safe w ≡ true
    → Inv safe s
    → Inv safe (after_call w s)
called-Inv safe s w m h inv = record {
  token = inv.token;
  budget = inv.budget;
  counted = omega (arith, inv.counted, pending-remove_caller safe w s.workers m h);
  retry_left = inv.retry_left;
  retry_safe = inv.retry_safe;
  owners = (
    All-Any (OwnsCount s) w s.workers inv.owners m,
    All-remove (OwnsCount s) w.token s.workers inv.owners,
  );
}

-- A row that this code has created never has the legacy shape.
legacy-Inv :
    (safe : Bool) (s : System) (threshold : ℕ)
    → legacy_unclaimed_running threshold s.row ≡ true
    → Inv safe s
    → ⊥
unfolding legacy_unclaimed_running
legacy-Inv safe s threshold h inv = ground arith

exhausted-Inv :
    (safe : Bool) (s : System) (message : String) (now threshold : ℕ)
    → is_exhausted threshold s.row ≡ true
    → Inv safe s
    → Inv safe (record s { row = fail_exhausted message now s.row })
unfolding is_exhausted fail_exhausted holds_token
exhausted-Inv safe s message now threshold h inv = record {
  token = ground arith;
  budget = ground arith;
  counted = ground arith;
  retry_left = ground arith;
  retry_safe = ground arith;
  owners = All-weaken _ _ (λ w p. ground arith) s.workers inv.owners;
}

Step-Inv : {safe : Bool} {s t : System} → Step safe s t → Inv safe s → Inv safe t
Step-Inv {safe} {s} (claimed now h) inv = claimed-Inv safe s now h inv
Step-Inv {safe} {s} (reclaimed now threshold h) inv = reclaimed-Inv safe s now threshold h inv
Step-Inv {safe} {s} (called w m h) inv = called-Inv safe s w m h inv
Step-Inv {safe} {s} (committed w o m r) inv =
    remove-Inv safe _ w.token (committed_row-Inv safe s w o m r inv)
Step-Inv {safe} {s} (crashed t) inv = remove-Inv safe s t inv
Step-Inv {safe} {s} (legacy_failed message now threshold h) inv =
    absurd (legacy-Inv safe s threshold h inv)
Step-Inv {safe} {s} (exhausted_failed message now threshold h) inv =
    exhausted-Inv safe s message now threshold h inv

Reach-Inv : {safe : Bool} {s t : System} → Inv safe s → Reach safe s t → Inv safe t
Reach-Inv inv here = inv
Reach-Inv inv (next r step) = Step-Inv step (Reach-Inv inv r)

-- From the creation of a step run on, whatever the order of claims, reclaims, calls, commits and
-- crashes of the workers, the action is called at most four times, and an action that is not
-- retry-safe at most once.
pub executions_bounded :
    (safe : Bool) (run_id sequence : ℕ) (step : StoredStep) (now token : ℕ) (t : System)
    → Reach safe (started run_id sequence step now token) t
    → (t.executions ≤ max_step_attempts) × (safe ≡ false → t.executions ≤ 1)
executions_bounded safe run_id sequence step now token t r =
    let inv = Reach-Inv (started-Inv safe run_id sequence step now token) r in ground (arith, inv)

terminal-Step :
    {safe : Bool} {s t : System}
    → Step safe s t
    → Inv safe s
    → is_terminal s.row.status ≡ true
    → t.row ≡ s.row
unfolding may_retry may_reclaim legacy_unclaimed_running is_exhausted holds_token
terminal-Step {safe} {s} (claimed now h) inv e = absurd (ground arith)
terminal-Step {safe} {s} (reclaimed now threshold h) inv e = absurd (ground arith)
terminal-Step {safe} {s} (called w m h) inv e = refl
terminal-Step {safe} {s} (committed w o m r) inv e = ground arith
terminal-Step {safe} {s} (crashed t) inv e = refl
terminal-Step {safe} {s} (legacy_failed message now threshold h) inv e = absurd (ground arith)
terminal-Step {safe} {s} (exhausted_failed message now threshold h) inv e = absurd (ground arith)

terminal-Reach :
    {safe : Bool} {s t : System}
    → Reach safe s t
    → Inv safe s
    → is_terminal s.row.status ≡ true
    → (t.row ≡ s.row) × Inv safe t
terminal-Reach here inv e = (refl, inv)
terminal-Reach (next r st) inv e =
    let (same, inv') = terminal-Reach r inv e in
    (terminal-Step st inv' (rw same e) ∙ same, Step-Inv st inv')

-- Once a step run that the engine created has succeeded or failed, no later claim, commit or
-- recovery of any worker changes its row.
pub outcome_is_final :
    (safe : Bool) (run_id sequence : ℕ) (step : StoredStep) (now token : ℕ) (s t : System)
    → Reach safe (started run_id sequence step now token) s
    → is_terminal s.row.status ≡ true
    → Reach safe s t
    → t.row ≡ s.row
outcome_is_final safe run_id sequence step now token s t r e r' =
    (terminal-Reach r' (Reach-Inv (started-Inv safe run_id sequence step now token) r) e).0
