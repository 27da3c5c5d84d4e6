-- ===== src/Notifications/Dispatcher.antt =====
-- `processDueDelivery` of src/notifications/notification-dispatcher.service.ts and `retry` of
-- src/notifications/notifications.service.ts.
use robia_back.Prelude.{
  ℕ, ◌+◌, String, Bool, not, ◌==◌, ◌||◌, Option, none, some, List, ◌∷◌, ltb, leb, if◌then◌else◌,
}
use robia_back.Store.{Table}
use robia_back.Notifications.Delivery.{
  Delivery, max_attempts, retry_backoff_ms, is_exhausted, exhaust, may_claim, claim, holds_claim,
  is_claimed, is_retryable, Outcome, was_sent, was_dead, will_retry, finalize, may_retry_by_hand,
  retry_by_hand,
}

-- What `sendEmail` gives: the provider's id, or what it throws.
pub data Sent : Type 0 where
  accepted_by : String → Sent
  permanent_error : String → Sent
  other_error : String → Sent

-- A call that returns, or one that throws on an invalid date.
pub data Ended : Type 0 where
  returned : Ended
  threw_invalid_date : Ended

pub data Retried : Type 0 where
  retried : Option Delivery → Retried
  not_found : Retried
  not_allowed : Retried

-- The table, and the deliveries for which `sendEmail` has been called, the latest first.
pub record World (T : Table Delivery) : Type 0 where
  pub rows : T.Db
  pub calls : List ℕ

-- The users, the templates, the transport, in whose course other workers may write, and
-- `redactSensitive`.
pub record Outside (T : Table Delivery) : Type 0 where
  pub find_email : ℕ → Option String
  pub render : String → String → Option (String × String)
  pub render_error : String → String → String
  pub send_email : String → String → String → T.Db → T.Db × Sent
  pub redact : String → String

module _ {T : Table Delivery} (out : Outside T) (id : ℕ) where
  unfoldable pub update : (Delivery → Bool) → (Delivery → Delivery) → World T → World T
  update p f w = record w { rows = (T.update_many id p f w.rows).0 }

  -- A finalizing update: `where: { id, claimedAt: now }`
  unfoldable pub write_outcome : ℕ → Outcome → World T → World T
  unfolding update
  write_outcome now o = update (λ d. is_claimed now d.claimed_at) (finalize now o)

  unfoldable pub mark_dead_letter : ℕ → String → World T → World T
  unfolding write_outcome
  mark_dead_letter now message = write_outcome now (was_dead (out.redact message))

  unfoldable pub schedule_retry_or_dead_letter : Delivery → ℕ → String → World T → World T × Ended
  unfolding write_outcome
  schedule_retry_or_dead_letter d now message w =
      if ltb d.attempt_count max_attempts
      then elim (retry_backoff_ms d.attempt_count) [
        | none ↦ (w, threw_invalid_date)
        | some ms ↦ (write_outcome now (will_retry (out.redact message) (now + ms)) w, returned)
      ]
      else (write_outcome now (was_dead (out.redact message)) w, returned)

  -- After `sendEmail` has returned or thrown.
  unfoldable pub settle : Delivery → ℕ → Sent → World T → World T × Ended
  unfolding mark_dead_letter schedule_retry_or_dead_letter
  settle d now (accepted_by provider_id) w = (write_outcome now (was_sent provider_id) w, returned)
  settle d now (permanent_error m) w = (mark_dead_letter now m w, returned)
  settle d now (other_error m) w = schedule_retry_or_dead_letter d now m w

  unfoldable pub send : Delivery → ℕ → String → String → String → World T → World T × Ended
  unfolding settle
  send d now email subject text w =
      let (rows, sent) = out.send_email email subject text w.rows in
      settle d now sent (record { rows = rows; calls = id ∷ w.calls })

  -- Phase 2, with the row that has been read again.
  unfoldable pub deliver : Option Delivery → ℕ → World T → World T × Ended
  unfolding send
  deliver none now w = (w, returned)
  deliver (some d) now w =
      if holds_claim now d
      then elim (out.find_email d.recipient_user_id) [
        | none ↦ (mark_dead_letter now "Recipient user no longer exists." w, returned)
        | some email ↦ elim (out.render d.template_key d.template_data) [
          | none ↦
              (mark_dead_letter now (out.render_error d.template_key d.template_data) w, returned)
          | some (subject, text) ↦ send d now email subject text w
        ]
      ]
      else (w, returned)

  unfoldable pub process_due_delivery : ℕ → ℕ → World T → World T × Ended
  unfolding deliver
  process_due_delivery now stale w =
      let w₁ = update (is_exhausted now stale) exhaust w in
      let (rows, count) = T.update_many id (may_claim now stale) (claim now) w₁.rows in
      let w₂ : World T = record w₁ { rows = rows } in
      if count == 0 then (w₂, returned) else deliver (T.find id rows) now w₂

  -- `retry`: the read with its checks, then the conditional update.
  unfoldable pub retry : ℕ → ℕ → World T → World T × Retried
  retry organization_id now w = elim (T.find id w.rows) [
    | none ↦ (w, not_found)
    | some d ↦
        if not (d.organization_id == organization_id)
        then (w, not_found)
        else if leb max_attempts d.attempt_count || not (is_retryable d.status)
        then (w, not_allowed)
        else (let (rows, count) =
              T.update_many id (may_retry_by_hand organization_id) (retry_by_hand now) w.rows in
            if count == 0
            then (record w { rows = rows }, not_allowed)
            else (record w { rows = rows }, retried (T.find id rows)))
  ]
