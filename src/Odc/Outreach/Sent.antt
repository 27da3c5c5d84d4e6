-- ===== src/Odc/Outreach/Sent.antt =====
-- What a successful `send` of src/odc/odc-outreach.service.ts has done.
use robia_back.Prelude.{
  ℕ, ◌≡◌, refl, sym, ap, ◌∙◌, subst, inl, inr, Option, none, some, [], ◌∷◌, ◌++◌, arith,
  Option-cases,
}
use robia_back.Odc.Outreach.Rows.{
  Failure, Outreach, Mail, World, queue_of, find_outreach, update_outreach,
}
use robia_back.Odc.Outreach.Queueing.{done, Public}
use robia_back.Odc.Outreach.Sending.{compose, prepare, mark_sent, record_sent, send}
use robia_back.Odc.Outreach.Plan.{pending, mailed, mark_sent-Mails}
use robia_back.Odc.Outreach.Validity.{IsValid, queue_of-update_outreach}
use robia_back.Odc.Outreach.Delivery.{
  mark_sent-IsInPlace, Reply-cases, IsPrepared, prepare-IsPrepared, found_place, prepared_first,
  prepared_head,
}
use robia_back.Odc.Outreach.Joining.{queue_ids}

-- The transport has accepted the mail of the row, which was the first of its queue that waits, and
-- the row is the last of those mailed.
pub record IsDelivered (transport : Mail → Option Failure) (o : ℕ) (w v : World) (r : Outreach)
    (mail : Mail) : Type 0 where
  pub composed : compose w r ≡ done mail
  pub accepted : transport mail ≡ none
  pub posted : v.outbox ≡ w.outbox ++ mail ∷ []
  pub was_first :
      pending (queue_of o r.program_id w.outreaches)
      ≡ r.application_id ∷ pending (queue_of o r.program_id v.outreaches)
  pub is_last :
      mailed (queue_of o r.program_id v.outreaches)
      ≡ mailed (queue_of o r.program_id w.outreaches) ++ r.application_id ∷ []

record_sent-IsDelivered :
    (transport : Mail → Option Failure) (now o user i : ℕ) (w : World) (r : Outreach) (mail : Mail)
    → IsValid w.next_id w.outreaches
    → IsPrepared o i w r mail
    → transport mail ≡ none
    → IsDelivered transport o w (record_sent user now r mail w) r mail
unfolding record_sent
record_sent-IsDelivered transport now o user i w r mail v p n =
    let rows = queue_of o r.program_id w.outreaches in
    let changed = update_outreach i (mark_sent user now) rows in
    let moved =
      mark_sent-Mails i user now rows (queue_ids o r.program_id w v)
        ((v.queues o r.program_id).settled) (prepared_first o i w r mail v p) in
    let head = prepared_head o i w r mail v p in
    let first : moved.0.0 ≡ r.application_id = ground (arith, head.1.1, moved.0.1) in
    let after =
      ap (λ j. queue_of o r.program_id (update_outreach j (mark_sent user now) w.outreaches))
        (found_place o i w r p.found).0
      ∙ queue_of-update_outreach o r.program_id i (mark_sent user now) w.outreaches
          (mark_sent-IsInPlace user now) in
    record {
      composed = p.composed;
      accepted = n;
      posted = refl;
      was_first =
          subst (λ x. pending rows ≡ r.application_id ∷ pending x) (sym after)
            (subst (λ a. pending rows ≡ a ∷ pending changed) first moved.0.1);
      is_last =
          subst (λ x. mailed x ≡ mailed rows ++ r.application_id ∷ []) (sym after)
            (subst (λ a. mailed changed ≡ mailed rows ++ a ∷ []) first moved.0.2);
    }

-- A `send` that succeeds is for a row of the organization that was the first waiting in its queue:
-- the transport has accepted its mail, which is composed from the row, and nothing else; the
-- application is no longer waiting, the others are as before, and it is the last of those mailed.
pub send-IsDelivered :
    (transport : Mail → Option Failure) (now o user i : ℕ) (w v : World) (answer : Public)
    → IsValid w.next_id w.outreaches
    → send transport now o user i w ≡ (v, done answer)
    → (r : Outreach) × (mail : Mail) × (find_outreach o i w ≡ some r)
      × IsDelivered transport o w v r mail
unfolding send
send-IsDelivered transport now o user i w v answer valid h = elim (Reply-cases (prepare o i w)) [
  | inr (e, c) ↦ absurd (ground (arith, h, c))
  | inl ((r, mail), c) ↦
      let prepared = prepare-IsPrepared o i w r mail c in
      elim (Option-cases (transport mail)) [
        | inr (failure, f) ↦ absurd (ground (arith, h, c, f))
        | inl n ↦
            let same : record_sent user now r mail w ≡ v = ground (arith, h, c, n) in
            (
              r,
              mail,
              prepared.found,
              subst (λ x. IsDelivered transport o w x r mail) same
                  (record_sent-IsDelivered transport now o user i w r mail valid prepared n),
            )
      ]
]
