-- ===== src/Scheduler/Instances.antt =====
-- Instances of src/ops-automation/automation-scheduler.service.ts that race on one automation, as
-- steps: each statement of `processDueAutomation` is one, the owner may edit the automation at any
-- time, and an instance may stop anywhere.
use robia_back.Prelude.{ℕ, ◌≡◌, Bool, true, false, Option, none, List, [], ◌∷◌, ◌==◌, if◌then◌else◌}
use robia_back.Triggers.Trigger.{Trigger}
use robia_back.Scheduler.Claims.{
  Row, is_selected, is_processable, may_claim, claim, is_still_claimed, release, advance,
  is_orphaned, initialize,
}

-- Where a call of `processDueAutomation` stands, with its occurrence and its instant.
pub data Phase : Type 0 where
  idle : Phase
  claimed : ℕ → ℕ → Phase
  checked : ℕ → ℕ → Phase
  triggered : ℕ → ℕ → Phase

-- The row, the calls, and the occurrences whose run exists (`triggerScheduled` has returned).
pub record System : Type 0 where
  pub row : Row
  pub calls : ℕ → Phase
  pub runs : List ℕ

abbrev pub set_phase : ℕ → Phase → (ℕ → Phase) → ℕ → Phase
set_phase i p calls j = if i == j then p else calls j

-- The flag says whether the owner may edit. A snapshot is what a query has returned, at whatever
-- time.
pub data Step : Bool → System → System → Type 0 where
  claims :
      {edits : Bool} {s : System} (i scheduled_for now stale : ℕ) (snapshot : Row)
      → is_selected now stale snapshot ≡ true
      → is_processable scheduled_for snapshot ≡ true
      → may_claim scheduled_for stale s.row ≡ true
      → Step edits s (record s {
        row = claim now s.row;
        calls = set_phase i (claimed scheduled_for now) s.calls;
      })
  checks :
      {edits : Bool} {s : System} (i scheduled_for now : ℕ)
      → s.calls i ≡ claimed scheduled_for now
      → is_still_claimed scheduled_for now s.row ≡ true
      → Step edits s (record s { calls = set_phase i (checked scheduled_for now) s.calls })
  releases :
      {edits : Bool} {s : System} (i scheduled_for now : ℕ)
      → s.calls i ≡ claimed scheduled_for now
      → is_still_claimed scheduled_for now s.row ≡ false
      → Step edits s (record s { row = release now s.row; calls = set_phase i idle s.calls })
  triggers :
      {edits : Bool} {s : System} (i scheduled_for now : ℕ)
      → s.calls i ≡ checked scheduled_for now
      → Step edits s (record s {
        calls = set_phase i (triggered scheduled_for now) s.calls;
        runs = scheduled_for ∷ s.runs;
      })
  advances :
      {edits : Bool} {s : System} (i scheduled_for now following : ℕ)
      → s.calls i ≡ triggered scheduled_for now
      → Step edits s (record s {
        row = advance scheduled_for now following s.row;
        calls = set_phase i idle s.calls;
      })
  -- it throws, or the instance is gone
  stops :
      {edits : Bool} {s : System} (i : ℕ)
      → Step edits s (record s { calls = set_phase i idle s.calls })
  reconciles :
      {edits : Bool} {s : System} (next : ℕ) (snapshot : Row)
      → is_orphaned snapshot ≡ true
      → Step edits s (record s { row = initialize next s.row })
  -- `update` and `setEnabled` clear the claim
  owner_edits :
      {s : System} (enabled : Bool) (trigger : Option Trigger) (next_run_at : Option ℕ)
      → Step true s (record s {
        row = record {
          enabled = enabled;
          trigger = trigger;
          next_run_at = next_run_at;
          scheduled_claimed_at = none;
        };
      })

pub data Reach (edits : Bool) (s : System) : System → Type 0 where
  here : Reach edits s s
  next : {t u : System} → Reach edits s t → Step edits t u → Reach edits s u

-- No call is under way and no run exists.
abbrev pub fresh : Row → System
fresh r = record { row = r; calls = λ i. idle; runs = [] }
