-- ===== src/Automations/Engine/Decisions.antt =====
-- An approval or a rejection of src/ops-automation/automations.service.ts takes effect once.
use robia_back.Prelude.{
  ℕ, ◌≡◌, refl, sym, ap, ◌∙◌, subst, ◌==◌, Bool, true, false, Option, none, some, arith, String,
  if◌then◌else◌, inl, inr, Bool-cases, Option-cases,
}
use robia_back.Store.{Table, updated, matched}
use robia_back.Automations.Rows.{Run, RunStatus, StepRun, is_waiting_approval}
use robia_back.Automations.Engine.World.{
  World, Outside, M, ◌>>=◌, Result, returned, raised, conflict, not_found,
}
use robia_back.Automations.Engine.Run.{execute_steps}
use robia_back.Automations.Engine.Approval.{
  may_decide, approve, reject, get_run, update_runs, claim_approval, claim_rejection, reject_run,
}

same_organization :
    (organization_id user : ℕ) (reason : Option String) (now : ℕ) (r : Run)
    → may_decide organization_id r ≡ true
    → ((reject user reason now r).organization_id == organization_id) ≡ true
unfolding may_decide reject
same_organization organization_id user reason now r e = ground arith

reject_decides :
    (organization_id user : ℕ) (reason : Option String) (now : ℕ) (r : Run)
    → may_decide organization_id (reject user reason now r) ≡ false
unfolding may_decide reject
reject_decides organization_id user reason now r = ground arith

returned-injective : {q r : Run} → returned q ≡ returned r → q ≡ r
returned-injective e = cc

module _ {S : Table StepRun} {R : Table Run} (out : Outside S R) (i organization_id : ℕ) where
  update_runs_unmatched :
      (p : Run → Bool) (f : Run → Run) (r : Run) (w : World S R)
      → R.find i w.runs ≡ some r
      → p r ≡ false
      → update_runs i p f w ≡ (w, returned false)
  unfolding update_runs
  update_runs_unmatched p f r w h e =
      rw
        (
          R.count-update_many i p f w.runs,
          h,
          e,
          R.update_many_unmatched i p f w.runs (ap (matched p) h ∙ ap (λ b. if b then 1 else 0) e),
        )
        refl

  -- A claim on a run that waits for no decision changes nothing and executes nothing: the approval
  -- or the rejection throws, even if it had read the run while that was still waiting.
  claim_approval_lost :
      (user : ℕ) (reason : Option String) (r : Run) (w : World S R)
      → R.find i w.runs ≡ some r
      → may_decide organization_id r ≡ false
      → (claim_approval out organization_id user i reason w ≡ (w, raised conflict))
        × (claim_rejection organization_id user i reason w ≡ (w, raised conflict))
  unfolding claim_approval claim_rejection
  claim_approval_lost user reason r w h e =
      let p = may_decide organization_id in
      let after_approval : Bool → M S R Run = λ won. elim won [
        | true ↦ get_run organization_id i >>= λ approved. execute_steps out i approved
        | false ↦ λ v. (v, raised conflict)
      ] in
      let after_rejection : Bool → M S R Run =
        λ won. elim won [ true ↦ get_run organization_id i | false ↦ λ v. (v, raised conflict) ] in
      (
        ap
            (λ x.
              let (v, q) = x in
              elim q [ returned b ↦ after_approval b v | raised y ↦ (v, raised y) ])
            (update_runs_unmatched p (approve user reason w.clock) r w h e),
        ap
            (λ x.
              let (v, q) = x in
              elim q [ returned b ↦ after_rejection b v | raised y ↦ (v, raised y) ])
            (update_runs_unmatched p (reject user reason w.clock) r w h e),
      )

  update_runs_matched :
      (p : Run → Bool) (f : Run → Run) (r : Run) (w : World S R)
      → R.find i w.runs ≡ some r
      → p r ≡ true
      → update_runs i p f w ≡ (record w { runs = (R.update_many i p f w.runs).0 }, returned true)
  unfolding update_runs
  update_runs_matched p f r w h e = rw (R.count-update_many i p f w.runs, h, e) refl

  abbrev pub rejected : ℕ → Option String → World S R → World S R
  rejected user reason w = record w {
    runs = (R.update_many i (may_decide organization_id) (reject user reason w.clock) w.runs).0;
  }

  find-rejected :
      (user : ℕ) (reason : Option String) (r : Run) (w : World S R)
      → R.find i w.runs ≡ some r
      → may_decide organization_id r ≡ true
      → R.find i (rejected user reason w).runs ≡ some (reject user reason w.clock r)
  find-rejected user reason r w h e =
      let p = may_decide organization_id in
      let f = reject user reason w.clock in
      R.find-update_many i p f w.runs ∙ ap (updated p f) h ∙ ap (λ b. some (if b then f r else r)) e

  claim_rejection_won :
      (user : ℕ) (reason : Option String) (r : Run) (w : World S R)
      → R.find i w.runs ≡ some r
      → may_decide organization_id r ≡ true
      → claim_rejection organization_id user i reason w
        ≡ (rejected user reason w, returned (reject user reason w.clock r))
  unfolding claim_rejection get_run
  claim_rejection_won user reason r w h e =
      let after_rejection : Bool → M S R Run =
        λ won. elim won [ true ↦ get_run organization_id i | false ↦ λ v. (v, raised conflict) ] in
      ap
        (λ x.
          let (v, q) = x in elim q [ returned b ↦ after_rejection b v | raised y ↦ (v, raised y) ])
        (update_runs_matched (may_decide organization_id) (reject user reason w.clock) r w h e)
      ∙ rw
          (
            find-rejected user reason r w h e,
            get_run,
            same_organization organization_id user reason w.clock r e,
          )
          refl

  get_run_absent :
      (w : World S R) → R.find i w.runs ≡ none → get_run organization_id i w ≡ (w, raised not_found)
  unfolding get_run
  get_run_absent w h = rw (h, get_run) refl

  get_run_other :
      (q : Run) (w : World S R)
      → R.find i w.runs ≡ some q
      → (q.organization_id == organization_id) ≡ false
      → get_run organization_id i w ≡ (w, raised not_found)
  unfolding get_run
  get_run_other q w h o = rw (h, get_run, o) refl

  get_run_found :
      (q : Run) (w : World S R)
      → R.find i w.runs ≡ some q
      → (q.organization_id == organization_id) ≡ true
      → get_run organization_id i w ≡ (w, returned q)
  unfolding get_run
  get_run_found q w h o = rw (h, get_run, o) refl

  -- What `reject_run` does with the result of its read.
  abbrev after_read : ℕ → Option String → Bool → M S R Run
  after_read user reason true = claim_rejection organization_id user i reason
  after_read user reason false = λ v. (v, raised conflict)

  abbrev continue : ℕ → Option String → World S R × Result Run → World S R × Result Run
  continue user reason x =
      let (v, q) = x in
      elim q [
        | returned run ↦ after_read user reason (is_waiting_approval run.status) v
        | raised y ↦ (v, raised y)
      ]

  reject_run_lem :
      (user : ℕ) (reason : Option String) (w : World S R)
      → continue user reason (get_run organization_id i w)
        ≡ reject_run organization_id user i reason w
  unfolding reject_run
  reject_run_lem user reason w = refl

  -- The state after the claim of a rejection.
  rejected_then :
      (user other : ℕ) (reason why : Option String) (w w' : World S R) (q r : Run)
      → R.find i w.runs ≡ some q
      → may_decide organization_id q ≡ true
      → ◌≡◌ {A = World S R × Result Run}
          (rejected user reason w, returned (reject user reason w.clock q))
          (w', returned r)
      → (r.status ≡ RunStatus.cancelled)
        × (w'.calls ≡ w.calls)
        × (claim_approval out organization_id other i why w' ≡ (w', raised conflict))
  unfolding reject
  rejected_then user other reason why w w' q r h m e =
      let same_world = ap (λ x. x.0) e in
      let same_run = returned-injective (ap (λ x. x.1) e) in
      let lost =
        claim_approval_lost other why (reject user reason w.clock q) (rejected user reason w)
          (find-rejected user reason q w h m)
          (reject_decides organization_id user reason w.clock q) in
      (
        ap (λ x. x.status) (sym same_run),
        ap (λ x. x.calls) (sym same_world),
        subst (λ v. claim_approval out organization_id other i why v ≡ (v, raised conflict))
            same_world (lost.0),
      )

  -- Once a run has been rejected, it is cancelled, rejecting it has executed nothing, and no
  -- approval can claim it any more, even one that had read it while it was still waiting.
  pub reject_run_final :
      (user other : ℕ) (reason why : Option String) (w w' : World S R) (r : Run)
      → reject_run organization_id user i reason w ≡ (w', returned r)
      → (r.status ≡ RunStatus.cancelled)
        × (w'.calls ≡ w.calls)
        × (claim_approval out organization_id other i why w' ≡ (w', raised conflict))
  unfolding reject_run
  reject_run_final user other reason why w w' r e' =
      let e = reject_run_lem user reason w ∙ e' in
      elim (Option-cases (R.find i w.runs)) [
        | inl h ↦ cc (ap (λ x. x.1) (sym (ap (continue user reason) (get_run_absent w h)) ∙ e))
        | inr (q, h) ↦ elim (Bool-cases (q.organization_id == organization_id)) [
          | inr o ↦ cc (ap (λ x. x.1) (sym (ap (continue user reason) (get_run_other q w h o)) ∙ e))
          | inl o ↦ elim (Bool-cases (is_waiting_approval q.status)) [
            | inr a ↦ cc (
                ap (λ x. x.1)
                  (sym (ap (λ b. after_read user reason b w) a)
                    ∙ sym (ap (continue user reason) (get_run_found q w h o))
                    ∙ e))
            | inl a ↦
                let f =
                  sym (ap (λ b. after_read user reason b w) a)
                  ∙ sym (ap (continue user reason) (get_run_found q w h o))
                  ∙ e in
                elim (Bool-cases (may_decide organization_id q)) [
                  | inr m ↦
                      cc (ap (λ x. x.1) (sym ((claim_approval_lost user reason q w h m).1) ∙ f))
                  | inl m ↦
                      rejected_then user other reason why w w' q r h m
                        (sym (claim_rejection_won user reason q w h m) ∙ f)
                ]
          ]
        ]
      ]
