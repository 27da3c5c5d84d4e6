-- ===== src/Automations/Workers.antt =====
-- The workers in flight on one step run of src/ops-automation/automations.service.ts: what removing
-- one keeps.
use robia_back.Prelude.{
  ℕ, suc, ◌≤◌, ◌≡◌, inl, inr, true, Bool, List, [], ◌∷◌, All, Any, arith, ◌==◌, Bool-cases, subst,
}
use robia_back.Automations.Interleavings.{Worker, remove, may_call, pending}

pub All-remove : (P : Worker → Type 0) (t : ℕ) (ws : List Worker) → All P ws → All P (remove t ws)
All-remove P t [] h = tt
All-remove P t (w ∷ ws) (p, h) = elim (Bool-cases (w.token == t)) [
  | inl e ↦ rw e (All-remove P t ws h)
  | inr e ↦ rw e (p, All-remove P t ws h)
]

pub All-weaken :
    (P Q : Worker → Type 0) → ((w : Worker) → P w → Q w) → (ws : List Worker) → All P ws → All Q ws
All-weaken P Q f [] h = tt
All-weaken P Q f (w ∷ ws) (p, h) = (f w p, All-weaken P Q f ws h)

pub All-Any :
    (P : Worker → Type 0) (w : Worker) (ws : List Worker) → All P ws → Any (λ v. v ≡ w) ws → P w
All-Any P w [] h m = absurd m
All-Any P w (v ∷ ws) (p, h) (inl e) = subst P e p
All-Any P w (v ∷ ws) (p, h) (inr m) = All-Any P w ws h m

pub pending-remove :
    (safe : Bool) (t : ℕ) (ws : List Worker) → pending safe (remove t ws) ≤ pending safe ws
pending-remove safe t [] = omega arith
pending-remove safe t (w ∷ ws) = ground (arith, pending-remove safe t ws)

-- A worker that may call accounts for one of the calls that are still possible.
pub pending-remove_caller :
    (safe : Bool) (w : Worker) (ws : List Worker)
    → Any (λ v. v ≡ w) ws
    → may_call safe w ≡ true
    → suc (pending safe (remove w.token ws)) ≤ pending safe ws
pending-remove_caller safe w [] m h = absurd m
pending-remove_caller safe w (v ∷ ws) (inl e) h =
    subst (λ u. suc (pending safe (remove u.token (v ∷ ws))) ≤ pending safe (v ∷ ws)) e
      (let callable : may_call safe v ≡ true = rw e h in
        ground (arith, callable, pending-remove safe v.token ws))
pending-remove_caller safe w (v ∷ ws) (inr m) h =
    ground (arith, pending-remove_caller safe w ws m h)
