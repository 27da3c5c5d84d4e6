-- ===== src/Notifications/Delivery.antt =====
-- The row of `notification_deliveries` (prisma/schema.prisma), and the conditional updates that
-- src/notifications makes on it.
use robia_back.Prelude.{
  ℕ, zero, suc, ◌+◌, String, Bool, true, false, ◌&&◌, ◌||◌, Option, none, some, ltb, leb, ◌==◌,
}

pub data Status : Type 0 where
  pending processing retry_scheduled sent dead_letter : Status

-- Instants are milliseconds; `template_data` is the text of its JSON.
pub record Delivery : Type 0 where
  pub organization_id : ℕ
  pub recipient_user_id : ℕ
  pub template_key : String
  pub template_data : String
  pub status : Status
  pub attempt_count : ℕ
  pub next_attempt_at : ℕ
  pub claimed_at : Option ℕ
  pub provider_message_id : Option String
  pub last_error : Option String
  pub sent_at : Option ℕ

abbrev pub max_attempts : ℕ
max_attempts = 5

abbrev pub claim_lease_ms : ℕ
claim_lease_ms = 300000

-- `RETRY_BACKOFF_MS[attemptCount - 1]`; `none` is `undefined`.
abbrev pub retry_backoff_ms : ℕ → Option ℕ
retry_backoff_ms (suc zero) = some 60000
retry_backoff_ms (suc (suc zero)) = some 300000
retry_backoff_ms (suc (suc (suc zero))) = some 1800000
retry_backoff_ms (suc (suc (suc (suc zero)))) = some 7200000
retry_backoff_ms (suc (suc (suc (suc (suc zero))))) = some 43200000
retry_backoff_ms _ = none

abbrev pub is_waiting : Status → Bool
is_waiting pending = true
is_waiting retry_scheduled = true
is_waiting _ = false

abbrev pub is_processing : Status → Bool
is_processing processing = true
is_processing _ = false

-- `RETRYABLE_STATUSES`
abbrev pub is_retryable : Status → Bool
is_retryable dead_letter = true
is_retryable _ = false

abbrev pub is_free : ℕ → Option ℕ → Bool
is_free stale none = true
is_free stale (some t) = ltb t stale

-- `claimedAt: now`
abbrev pub is_claimed : ℕ → Option ℕ → Bool
is_claimed now none = false
is_claimed now (some t) = t == now

-- `dueSetWhere`
unfoldable pub is_due : ℕ → ℕ → Delivery → Bool
is_due now stale d =
    (is_waiting d.status && leb d.next_attempt_at now || is_processing d.status)
    && is_free stale d.claimed_at

unfoldable pub is_exhausted : ℕ → ℕ → Delivery → Bool
unfolding is_due
is_exhausted now stale d = is_due now stale d && leb max_attempts d.attempt_count

abbrev pub limit_message : String
limit_message = "Notification attempt limit reached."

unfoldable pub exhaust : Delivery → Delivery
exhaust d = record d { status = dead_letter; claimed_at = none; last_error = some limit_message }

-- Phase 1 of `processDueDelivery`.
unfoldable pub may_claim : ℕ → ℕ → Delivery → Bool
unfolding is_due
may_claim now stale d = is_due now stale d && ltb d.attempt_count max_attempts

unfoldable pub claim : ℕ → Delivery → Delivery
claim now d = record d {
  status = processing;
  claimed_at = some now;
  attempt_count = d.attempt_count + 1;
}

-- The test after the second read.
unfoldable pub holds_claim : ℕ → Delivery → Bool
holds_claim now d = is_processing d.status && is_claimed now d.claimed_at

-- What a finalizing update writes; the message of an error has been redacted.
pub data Outcome : Type 0 where
  was_sent : String → Outcome
  was_dead : String → Outcome
  will_retry : String → ℕ → Outcome

-- Every finalizing update has `claimedAt: now` in its condition.
unfoldable pub finalize : ℕ → Outcome → Delivery → Delivery
finalize now (was_sent provider_id) d = record d {
  status = sent;
  provider_message_id = some provider_id;
  sent_at = some now;
  claimed_at = none;
  last_error = none;
}
finalize now (was_dead message) d = record d {
  status = dead_letter;
  claimed_at = none;
  last_error = some message;
}
finalize now (will_retry message at) d = record d {
  status = retry_scheduled;
  claimed_at = none;
  next_attempt_at = at;
  last_error = some message;
}

-- The update of `retry` in src/notifications/notifications.service.ts.
unfoldable pub may_retry_by_hand : ℕ → Delivery → Bool
may_retry_by_hand organization_id d =
    d.organization_id == organization_id
    && is_retryable d.status
    && ltb d.attempt_count max_attempts

unfoldable pub retry_by_hand : ℕ → Delivery → Delivery
retry_by_hand now d = record d { status = pending; next_attempt_at = now; claimed_at = none }
