-- ===== src/Scheduler/Occurrences.antt =====
-- No occurrence is lost: src/ops-automation/automation-scheduler.service.ts goes past one only when
-- its run exists.
use robia_back.Prelude.{
  ℕ, ◌≡◌, ◌⊎◌, inl, inr, ap, ◌∙◌, Bool, true, false, some, Any, ◌==◌, arith, Bool-cases,
}
use robia_back.Scheduler.Claims.{Row, claim, release, may_advance, advance, initialize}
use robia_back.Scheduler.Instances.{
  triggered, System, Step, claims, checks, releases, triggers, advances, stops, reconciles,
  owner_edits, Reach, here, next, fresh,
}

abbrev pub IsRun : ℕ → System → Type 0
IsRun s t = Any (λ r. r ≡ s) t.runs

-- A call that has triggered has its run.
abbrev Backed : System → Type 0
Backed t = (i s now : ℕ) → t.calls i ≡ triggered s now → IsRun s t

Step-runs : {edits : Bool} {t u : System} (s : ℕ) → Step edits t u → IsRun s t → IsRun s u
Step-runs s (claims i f n l q a k h) r = r
Step-runs s (checks i f n h k) r = r
Step-runs s (releases i f n h k) r = r
Step-runs s (triggers i f n h) r = inr r
Step-runs s (advances i f n g h) r = r
Step-runs s (stops i) r = r
Step-runs s (reconciles n q h) r = r
Step-runs s (owner_edits e t n) r = r

Step-Backed : {edits : Bool} {t u : System} → Step edits t u → Backed t → Backed u
Step-Backed (claims i f n l q a k h) b j s m e = b j s m (ground (arith, e))
Step-Backed (checks i f n h k) b j s m e = b j s m (ground (arith, e))
Step-Backed (releases i f n h k) b j s m e = b j s m (ground (arith, e))
Step-Backed {edits} {t} (triggers i f n h) b j s m e = elim (Bool-cases (i == j)) [
  | inl q ↦ inl (ground (arith, q, e))
  | inr q ↦ inr (b j s m (ground (arith, q, e)))
]
Step-Backed (advances i f n g h) b j s m e = b j s m (ground (arith, e))
Step-Backed (stops i) b j s m e = b j s m (ground (arith, e))
Step-Backed (reconciles n q h) b j s m e = b j s m e
Step-Backed (owner_edits x t n) b j s m e = b j s m e

Reach-Backed : {edits : Bool} {t u : System} → Reach edits t u → Backed t → Backed u
Reach-Backed here b = b
Reach-Backed (next r s) b = Step-Backed s (Reach-Backed r b)

-- The occurrence is on the row, or its run exists.
abbrev Kept : ℕ → System → Type 0
Kept s t = (t.row.next_run_at ≡ some s) ⊎ IsRun s t

Step-Kept :
    {t u : System} (s : ℕ) → Step false t u → Backed t → t.row.next_run_at ≡ some s → Kept s u
unfolding claim release advance may_advance initialize
Step-Kept s (claims i f n l q a k h) b e = inl e
Step-Kept s (checks i f n h k) b e = inl e
Step-Kept {t} s (releases i f n h k) b e = inl (ground (arith, e))
Step-Kept s (triggers i f n h) b e = inl e
Step-Kept {t} s (advances i f n g h) b e = elim (Bool-cases (may_advance f n t.row)) [
  | inl q ↦ inr (b i s n (h ∙ ap (λ x. triggered x n) (ground (arith, q, e))))
  | inr q ↦ inl (ground (arith, q, e))
]
Step-Kept s (stops i) b e = inl e
Step-Kept {t} s (reconciles n q h) b e = inl (ground (arith, e))

Reach-Kept :
    {t u : System} (s : ℕ) → Reach false t u → Backed t → t.row.next_run_at ≡ some s → Kept s u
Reach-Kept s here b e = inl e
Reach-Kept s (next r x) b e = elim (Reach-Kept s r b e) [
  | inl k ↦ Step-Kept s x (Reach-Backed r b) k
  | inr k ↦ inr (Step-runs s x k)
]

-- An occurrence that is on the row of an automation stays there until its run exists, whatever the
-- instances do and in whatever order, and wherever they stop, as long as the owner does not edit
-- the automation; edits before that are permitted.
pub occurrence_kept :
    (r : Row) (t u : System) (s : ℕ)
    → Reach true (fresh r) t
    → t.row.next_run_at ≡ some s
    → Reach false t u
    → (u.row.next_run_at ≡ some s) ⊎ IsRun s u
occurrence_kept r t u s before e after =
    Reach-Kept s after (Reach-Backed before (λ i x n h. absurd (ground (arith, h)))) e
