-- ===== src/Notifications/Processing.antt =====
-- What `processDueDelivery` of src/notifications/notification-dispatcher.service.ts leaves behind
-- when no other worker writes meanwhile.
use robia_back.Prelude.{
  ℕ, zero, suc, ◌+◌, ◌≡◌, ◌<◌, ◌⊎◌, inl, inr, refl, ap, ◌∙◌, String, Bool, true, false, none, some,
  arith, if◌then◌else◌, Bool-cases, Option-cases, ltb, ◌==◌,
}
use robia_back.Store.{Table, updated, matched}
use robia_back.Notifications.Delivery.{
  Delivery, sent, dead_letter, retry_scheduled, max_attempts, retry_backoff_ms, is_exhausted,
  exhaust, may_claim, claim, holds_claim, is_claimed, Outcome, was_sent, was_dead, will_retry,
  finalize,
}
use robia_back.Notifications.Dispatcher.{
  World, Outside, Sent, accepted_by, permanent_error, other_error, Ended, returned, update,
  write_outcome, mark_dead_letter, schedule_retry_or_dead_letter, settle, send, deliver,
  process_due_delivery,
}

-- The attempt is counted, the claim is released, and the delivery is sent, dead, or due again
-- later with attempts left.
abbrev pub Settled : ℕ → Delivery → Delivery → Type 0
Settled now d d' =
    (d'.attempt_count ≡ d.attempt_count + 1)
    × (d'.claimed_at ≡ none)
    × ((d'.status ≡ sent)
        ⊎ (d'.status ≡ dead_letter)
        ⊎ ((d'.status ≡ retry_scheduled)
            × (now < d'.next_attempt_at)
            × (d'.attempt_count < max_attempts)))

same : (n : ℕ) → (n == n) ≡ true
same n = ground arith

claimable :
    (now stale : ℕ) (d : Delivery) → may_claim now stale d ≡ true → is_exhausted now stale d ≡ false
unfolding may_claim is_exhausted
claimable now stale d h = ground arith

later :
    (now n : ℕ)
    → ltb (n + 1) max_attempts ≡ true
    → (ms : ℕ) × (retry_backoff_ms (n + 1) ≡ some ms) × (now < now + ms)
later now zero h = (60000, refl, omega arith)
later now (suc zero) h = (300000, refl, omega arith)
later now (suc (suc zero)) h = (1800000, refl, omega arith)
later now (suc (suc (suc zero))) h = (7200000, refl, omega arith)
later now (suc (suc (suc (suc n)))) h = absurd (ground arith)

module _ {T : Table Delivery} (out : Outside T) (id now stale : ℕ) (d : Delivery) where
  abbrev Ends : World T × Ended → Type 0
  Ends r = (r.1 ≡ returned) × (d' : Delivery) × (T.find id r.0.rows ≡ some d') × Settled now d d'

  find-write_outcome :
      (o : Outcome) (w : World T)
      → T.find id w.rows ≡ some (claim now d)
      → T.find id (write_outcome out id now o w).rows ≡ some (finalize now o (claim now d))
  unfolding write_outcome claim
  find-write_outcome o w h =
      let p : Delivery → Bool = λ e. is_claimed now e.claimed_at in
      T.find-update_many id p (finalize now o) w.rows
      ∙ ap (updated p (finalize now o)) h
      ∙ ap (λ b. some (if b then finalize now o (claim now d) else claim now d)) (same now)

  mark_dead_letter-Ends :
      (m : String) (w : World T)
      → T.find id w.rows ≡ some (claim now d)
      → Ends (mark_dead_letter out id now m w, returned)
  unfolding mark_dead_letter claim finalize
  mark_dead_letter-Ends m w h = (
    refl,
    finalize now (was_dead (out.redact m)) (claim now d),
    find-write_outcome (was_dead (out.redact m)) w h,
    (refl, refl, inr (inl refl)),
  )

  schedule-Ends :
      (m : String) (w : World T)
      → T.find id w.rows ≡ some (claim now d)
      → Ends (schedule_retry_or_dead_letter out id (claim now d) now m w)
  unfolding schedule_retry_or_dead_letter claim finalize
  schedule-Ends m w h = elim (Bool-cases (ltb (d.attempt_count + 1) max_attempts)) [
    | inl e ↦
        let (ms, b, l) = later now d.attempt_count e in
        let o = will_retry (out.redact m) (now + ms) in
        rw (e, schedule_retry_or_dead_letter, b, schedule_retry_or_dead_letter)
          (
            refl,
            finalize now o (claim now d),
            find-write_outcome o w h,
            (refl, refl, inr (inr (refl, l, ground arith))),
          )
    | inr e ↦
        let o = was_dead (out.redact m) in
        rw (e, schedule_retry_or_dead_letter)
          (
            refl,
            finalize now o (claim now d),
            find-write_outcome o w h,
            (refl, refl, inr (inl refl)),
          )
  ]

  settle-Ends :
      (r : Sent) (w : World T)
      → T.find id w.rows ≡ some (claim now d)
      → Ends (settle out id (claim now d) now r w)
  unfolding settle claim finalize
  settle-Ends (accepted_by p) w h = (
    refl,
    finalize now (was_sent p) (claim now d),
    find-write_outcome (was_sent p) w h,
    (refl, refl, inl refl),
  )
  settle-Ends (permanent_error m) w h = mark_dead_letter-Ends m w h
  settle-Ends (other_error m) w h = schedule-Ends m w h

  deliver-Ends :
      (w : World T)
      → ((e s t : String) (rows : T.Db) → (out.send_email e s t rows).0 ≡ rows)
      → T.find id w.rows ≡ some (claim now d)
      → Ends (deliver out id (some (claim now d)) now w)
  unfolding deliver send claim holds_claim
  deliver-Ends w quiet h =
      rw (same now, deliver)
        (elim (Option-cases (out.find_email d.recipient_user_id)) [
          | inl e ↦ rw (e, deliver) (mark_dead_letter-Ends _ w h)
          | inr (email, e) ↦ elim (Option-cases (out.render d.template_key d.template_data)) [
            | inl f ↦ rw (e, f, deliver) (mark_dead_letter-Ends _ w h)
            | inr ((subject, text), f) ↦
                rw (e, f, deliver)
                  (settle-Ends _ _ (ap (T.find id) (quiet email subject text w.rows) ∙ h))
          ]
        ])

  -- If no other worker writes meanwhile, a due delivery with attempts left is settled by one call:
  -- the call returns, the attempt is counted, the claim is released, and the delivery is sent,
  -- dead, or due again at a later instant with attempts left.
  pub process_due_delivery-Settled :
      (w : World T)
      → ((e s t : String) (rows : T.Db) → (out.send_email e s t rows).0 ≡ rows)
      → T.find id w.rows ≡ some d
      → may_claim now stale d ≡ true
      → ((process_due_delivery out id now stale w).1 ≡ returned)
        × (d' : Delivery) × (T.find id (process_due_delivery out id now stale w).0.rows ≡ some d')
        × Settled now d d'
  unfolding process_due_delivery update
  process_due_delivery-Settled w quiet h m =
      let w₁ = update out id (is_exhausted now stale) exhaust w in
      let found =
        T.find-update_many id (is_exhausted now stale) exhaust w.rows
        ∙ ap (updated (is_exhausted now stale) exhaust) h
        ∙ ap (λ b. some (if b then exhaust d else d)) (claimable now stale d m) in
      let count =
        T.count-update_many id (may_claim now stale) (claim now) w₁.rows
        ∙ ap (matched (may_claim now stale)) found
        ∙ ap (λ b. if b then 1 else 0) m in
      let claimed =
        T.find-update_many id (may_claim now stale) (claim now) w₁.rows
        ∙ ap (updated (may_claim now stale) (claim now)) found
        ∙ ap (λ b. some (if b then claim now d else d)) m in
      rw (count, process_due_delivery, claimed) (deliver-Ends _ quiet claimed)
