-- ===== src/Notifications/Tests.antt =====
-- Runs of src/notifications on one delivery.
use robia_back.Prelude.{ℕ, ◌≡◌, ◌≤◌, refl, Option, none, some, []}
use robia_back.Store.Memory.{memory, set_row}
use robia_back.Notifications.Delivery.{
  Delivery, pending, max_attempts, may_claim, claim, finalize, was_sent,
}
use robia_back.Notifications.Dispatcher.{
  World, Outside, accepted_by, returned, process_due_delivery,
}
use robia_back.Notifications.Attempts.{
  System, Reach, here, next, claimed, called, finalized, queued, sends_bounded, sent_is_final,
}
use robia_back.Notifications.Processing.{Settled, process_due_delivery-Settled}

abbrev welcome : Delivery
welcome = record {
  organization_id = 1;
  recipient_user_id = 2;
  template_key = "audit_completed";
  template_data = "{}";
  status = pending;
  attempt_count = 0;
  next_attempt_at = 100;
  claimed_at = none;
  provider_message_id = none;
  last_error = none;
  sent_at = none;
}

abbrev delivered : System
delivered = record { row = finalize 200 (was_sent "m1") (claim 200 welcome); claims = 0; sends = 1 }

delivered-reached : Reach (queued welcome) delivered
unfolding may_claim claim
delivered-reached =
    next (next (next here (claimed 200 0 refl)) (called 0 refl))
      (finalized 200 (was_sent "m1") refl)

sends_bounded_example : delivered.sends ≤ max_attempts
sends_bounded_example = sends_bounded welcome delivered delivered-reached

sent_is_final_example : delivered.row ≡ delivered.row
unfolding finalize
sent_is_final_example = sent_is_final welcome delivered delivered delivered-reached refl here

abbrev no_rows : ℕ → Option Delivery
no_rows i = none

abbrev world : World (memory Delivery)
world = record { rows = (8, set_row 7 welcome no_rows); calls = [] }

abbrev outside : Outside (memory Delivery)
outside = record {
  find_email = λ u. some "a@b.c";
  render = λ k d. some ("subject", "text");
  render_error = λ k d. "Invalid template.";
  send_email = λ e s t rows. (rows, accepted_by "m1");
  redact = λ m. m;
}

process_due_delivery-Settled_example :
    ((process_due_delivery outside 7 200 0 world).1 ≡ returned)
    × (d' : Delivery) × ((memory Delivery).find 7
          (process_due_delivery outside 7 200 0 world).0.rows
        ≡ some d')
    × Settled 200 welcome d'
unfolding may_claim
process_due_delivery-Settled_example =
    process_due_delivery-Settled outside 7 200 0 welcome world (λ e s t rows. refl) refl refl
