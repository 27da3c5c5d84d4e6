-- ===== src/Notifications/Attempts.antt =====
-- Dispatchers and requests that race on one delivery: each statement is one step.
use robia_back.Prelude.{
  ℕ, suc, ◌+◌, ◌≤◌, ◌≡◌, refl, true, Option, none, some, arith, subst, sym, ap, ◌∙◌,
}
use robia_back.Notifications.Delivery.{
  Delivery, Status, pending, processing, retry_scheduled, sent, dead_letter, max_attempts,
  is_exhausted, exhaust, may_claim, claim, is_claimed, Outcome, was_sent, was_dead, will_retry,
  finalize, may_retry_by_hand, retry_by_hand, is_due,
}

-- The row, the dispatchers that have claimed it and have not called the transport, and the calls.
pub record System : Type 0 where
  pub row : Delivery
  pub claims : ℕ
  pub sends : ℕ

pub data Step (s : System) : System → Type 0 where
  exhausted :
      (now stale : ℕ)
      → is_exhausted now stale s.row ≡ true
      → Step s (record s { row = exhaust s.row })
  claimed :
      (now stale : ℕ)
      → may_claim now stale s.row ≡ true
      → Step s (record s { row = claim now s.row; claims = s.claims + 1 })
  called : (n : ℕ) → s.claims ≡ suc n → Step s (record s { claims = n; sends = s.sends + 1 })
  stopped : (n : ℕ) → s.claims ≡ suc n → Step s (record s { claims = n })
  finalized :
      (now : ℕ) (o : Outcome)
      → is_claimed now s.row.claimed_at ≡ true
      → Step s (record s { row = finalize now o s.row })
  retried :
      (organization_id now : ℕ)
      → may_retry_by_hand organization_id s.row ≡ true
      → Step s (record s { row = retry_by_hand now s.row })

pub data Reach (s : System) : System → Type 0 where
  here : Reach s s
  next : {t u : System} → Reach s t → Step t u → Reach s u

-- A row that has been created and not touched.
abbrev pub queued : Delivery → System
queued d = record {
  row = record d { status = pending; attempt_count = 0; claimed_at = none };
  claims = 0;
  sends = 0;
}

abbrev pub Claimed : Status → Option ℕ → Type 0
Claimed processing (some _) = Unit
Claimed pending none = Unit
Claimed retry_scheduled none = Unit
Claimed sent none = Unit
Claimed dead_letter none = Unit
Claimed _ _ = ⊥

record Inv (s : System) : Type 0 where
  counted : s.sends + s.claims ≤ s.row.attempt_count
  budget : s.row.attempt_count ≤ max_attempts
  lease : Claimed s.row.status s.row.claimed_at

attempt_count-finalize :
    (now : ℕ) (o : Outcome) (d : Delivery) → (finalize now o d).attempt_count ≡ d.attempt_count
unfolding finalize
attempt_count-finalize now (was_sent p) d = refl
attempt_count-finalize now (was_dead m) d = refl
attempt_count-finalize now (will_retry m at) d = refl

finalize-Claimed :
    (now : ℕ) (o : Outcome) (d : Delivery)
    → Claimed (finalize now o d).status (finalize now o d).claimed_at
unfolding finalize
finalize-Claimed now (was_sent p) d = tt
finalize-Claimed now (was_dead m) d = tt
finalize-Claimed now (will_retry m at) d = tt

Step-Inv : {s t : System} → Step s t → Inv s → Inv t
unfolding is_exhausted exhaust may_claim claim finalize may_retry_by_hand retry_by_hand
Step-Inv (exhausted now stale h) inv = record {
  counted = inv.counted;
  budget = inv.budget;
  lease = tt;
}
Step-Inv (claimed now stale h) inv = record {
  counted = ground arith;
  budget = ground arith;
  lease = tt;
}
Step-Inv (called n h) inv = record {
  counted = ground arith;
  budget = inv.budget;
  lease = inv.lease;
}
Step-Inv (stopped n h) inv = record {
  counted = ground arith;
  budget = inv.budget;
  lease = inv.lease;
}
Step-Inv {s} (finalized now o h) inv = record {
  counted =
      subst (λ n. s.sends + s.claims ≤ n) (sym (attempt_count-finalize now o s.row)) inv.counted;
  budget = subst (λ n. n ≤ max_attempts) (sym (attempt_count-finalize now o s.row)) inv.budget;
  lease = finalize-Claimed now o s.row;
}
Step-Inv (retried org now h) inv = record { counted = inv.counted; budget = inv.budget; lease = tt }

Reach-Inv : {s t : System} → Reach s t → Inv s → Inv t
Reach-Inv here inv = inv
Reach-Inv (next r st) inv = Step-Inv st (Reach-Inv r inv)

queued-Inv : (d : Delivery) → Inv (queued d)
queued-Inv d = record { counted = ground arith; budget = ground arith; lease = tt }

-- However often a delivery is claimed, reclaimed after a crash, finalized and retried by hand, the
-- transport is called for it at most five times over its whole life.
pub sends_bounded : (d : Delivery) (t : System) → Reach (queued d) t → t.sends ≤ max_attempts
sends_bounded d t r = let inv = Reach-Inv r (queued-Inv d) in ground (arith, inv)

unclaimed : (now : ℕ) (c : Option ℕ) → is_claimed now c ≡ true → Claimed sent c → ⊥
unclaimed now none h l = cc
unclaimed now (some t) h l = l

sent-Step : {s t : System} → Step s t → Inv s → s.row.status ≡ sent → t.row ≡ s.row
unfolding is_due is_exhausted may_claim may_retry_by_hand
sent-Step (exhausted now stale h) inv e = absurd (ground arith)
sent-Step (claimed now stale h) inv e = absurd (ground arith)
sent-Step (called n h) inv e = refl
sent-Step (stopped n h) inv e = refl
sent-Step {s} (finalized now o h) inv e =
    absurd (unclaimed now s.row.claimed_at h (subst (λ x. Claimed x s.row.claimed_at) e inv.lease))
sent-Step (retried org now h) inv e = absurd (ground arith)

sent-Reach : {s t : System} → Reach s t → Inv s → s.row.status ≡ sent → t.row ≡ s.row
sent-Reach here inv e = refl
sent-Reach (next {t} r st) inv e =
    let eq = sent-Reach r inv e in sent-Step st (Reach-Inv r inv) (ap (λ d. d.status) eq ∙ e) ∙ eq

-- Once a delivery is recorded as sent, nothing changes its row again: no dispatcher claims it, no
-- late outcome of a dispatcher whose claim has expired is written, and no request retries it.
pub sent_is_final :
    (d : Delivery) (s t : System)
    → Reach (queued d) s
    → s.row.status ≡ sent
    → Reach s t
    → t.row ≡ s.row
sent_is_final d s t r e r' = sent-Reach r' (Reach-Inv r (queued-Inv d)) e
