-- ===== src/Odc/Outreach/Refinement.antt =====
-- Every request of src/odc/odc-outreach.service.ts is a step of the campaigns.
use robia_back.Prelude.{
  ℕ, ◌≡◌, refl, ap, subst, inl, inr, false, Option, arith, Bool-cases, Option-cases,
}
use robia_back.Odc.Outreach.Rows.{
  Failure, Outreach, Mail, World, is_sent, queue_of, find_outreach, update_outreach,
}
use robia_back.Odc.Outreach.Sending.{
  prepare, mark_failed, mark_sent, mark_skipped, record_failure, record_sent, send, record_skip,
  skip,
}
use robia_back.Odc.Outreach.Plan.{mark_sent-Mails, mark_failed-plan, mark_skipped-Skips}
use robia_back.Odc.Outreach.Validity.{IsValid}
use robia_back.Odc.Outreach.Delivery.{
  mark_failed-IsInPlace, mark_sent-IsInPlace, mark_skipped-IsInPlace, IsPrepared,
  prepare-IsPrepared, found_place, found_in_queue, prepared_cases, Reply-cases,
}
use robia_back.Odc.Outreach.Campaign.{
  Request, queue_request, send_request, skip_request, handle, Step-Keeps, Step-Mails, Step-Skips,
}
use robia_back.Odc.Outreach.Joining.{
  Implements, Implements-update_outreach, elsewhere, queue_ids, Implements-refl, Implements-queue,
}

module _ (o i : ℕ) (w : World) (r : Outreach) (mail : Mail) (v : IsValid w.next_id w.outreaches)
    (p : IsPrepared o i w r mail) where
  Implements-record_failure : (failure : Failure) → Implements w (record_failure failure r w)
  unfolding record_failure
  Implements-record_failure failure =
      Implements-update_outreach i (mark_failed failure) w (record_failure failure r w)
        (mark_failed-IsInPlace failure) v
        (ap (λ j. update_outreach j (mark_failed failure) w.outreaches)
          (found_place o i w r p.found).0)
        refl
        λ a b. elim (prepared_cases o i w r mail v p a b) [
          | inr absent ↦
              elsewhere i (mark_failed failure) (queue_of a b w.outreaches) ((v.queues a b).settled)
                absent
          | inl (_, _, first) ↦
              let rows = queue_of a b w.outreaches in
              let keeps =
                mark_failed-plan i failure rows (queue_ids a b w v) ((v.queues a b).settled)
                  first in
              (keeps.2, Step-Keeps rows (update_outreach i (mark_failed failure) rows) keeps)
        ]

  Implements-record_sent : (user now : ℕ) → Implements w (record_sent user now r mail w)
  unfolding record_sent
  Implements-record_sent user now =
      Implements-update_outreach i (mark_sent user now) w (record_sent user now r mail w)
        (mark_sent-IsInPlace user now) v
        (ap (λ j. update_outreach j (mark_sent user now) w.outreaches)
          (found_place o i w r p.found).0)
        refl
        λ a b. elim (prepared_cases o i w r mail v p a b) [
          | inr absent ↦
              elsewhere i (mark_sent user now) (queue_of a b w.outreaches) ((v.queues a b).settled)
                absent
          | inl (_, _, first) ↦
              let rows = queue_of a b w.outreaches in
              let moved =
                mark_sent-Mails i user now rows (queue_ids a b w v) ((v.queues a b).settled)
                  first in
              (moved.1, Step-Mails rows (update_outreach i (mark_sent user now) rows) moved)
        ]

Implements-send :
    (transport : Mail → Option Failure) (now o user i : ℕ) (w : World)
    → IsValid w.next_id w.outreaches
    → Implements w (send transport now o user i w).0
unfolding send
Implements-send transport now o user i w v = elim (Reply-cases (prepare o i w)) [
  | inr (e, c) ↦
      let same : w ≡ (send transport now o user i w).0 = ground (arith, c) in
      subst (Implements w) same (Implements-refl w v)
  | inl ((r, mail), c) ↦
      let prepared = prepare-IsPrepared o i w r mail c in
      elim (Option-cases (transport mail)) [
        | inl n ↦
            let same : record_sent user now r mail w ≡ (send transport now o user i w).0 =
              ground (arith, c, n) in
            subst (Implements w) same (Implements-record_sent o i w r mail v prepared user now)
        | inr (failure, f) ↦
            let same : record_failure failure r w ≡ (send transport now o user i w).0 =
              ground (arith, c, f) in
            subst (Implements w) same (Implements-record_failure o i w r mail v prepared failure)
      ]
]

Implements-skip :
    (o user i : ℕ) (w : World) → IsValid w.next_id w.outreaches → Implements w (skip o user i w).0
unfolding skip record_skip
Implements-skip o user i w v = elim (Option-cases (find_outreach o i w)) [
  | inl n ↦
      let same : w ≡ (skip o user i w).0 = ground (arith, n) in
      subst (Implements w) same (Implements-refl w v)
  | inr (r, found) ↦ elim (Bool-cases (is_sent r.status)) [
    | inl e ↦
        let same : w ≡ (skip o user i w).0 = ground (arith, found, e) in
        subst (Implements w) same (Implements-refl w v)
    | inr unsent ↦
        let same : record_skip user r w ≡ (skip o user i w).0 = ground (arith, found, unsent) in
        subst (Implements w) same (
          Implements-update_outreach i (mark_skipped user) w (record_skip user r w)
            (mark_skipped-IsInPlace user) v
            (ap (λ j. update_outreach j (mark_skipped user) w.outreaches)
              (found_place o i w r found).0)
            refl
            λ a b.
              let rows = queue_of a b w.outreaches in
              let skipped_row =
                mark_skipped-Skips i user rows (queue_ids a b w v) ((v.queues a b).settled)
                  (found_in_queue o i w r found (λ q. is_sent q.status ≡ false) a b v unsent) in
              (
                skipped_row.2,
                Step-Skips rows (update_outreach i (mark_skipped user) rows) skipped_row,
              ))
  ]
]

-- Every request keeps the invariant of the rows, and is a step of the campaign of every program:
-- nothing, or applications join at the end, or the first one is mailed, or one is dropped.
pub handle-Implements :
    (request : Request) (w : World)
    → IsValid w.next_id w.outreaches
    → Implements w (handle request w)
unfolding handle
handle-Implements (queue_request o p ids) w v = Implements-queue o p ids w v
handle-Implements (send_request transport now o user i) w v =
    Implements-send transport now o user i w v
handle-Implements (skip_request o user i) w v = Implements-skip o user i w v
