-- ===== src/Odc/Outreach/Effects.antt =====
-- What the requests of src/odc/odc-outreach.service.ts have done where they answer with success.
use robia_back.Prelude.{
  ℕ, ◌≡◌, ap, ◌∙◌, subst, inl, inr, ◌⊎◌, false, ◌&&◌, Option, some, List, [], ◌∷◌, ◌==◌, find,
  arith, Bool-cases, Option-cases,
}
use robia_back.Odc.Outreach.Rows.{
  Failure, Outreach, Mail, World, is_sent, queue_of, find_outreach, require_program,
  update_outreach,
}
use robia_back.Odc.Outreach.Queueing.{
  Error, done, refused, Public, unique, enqueue, check_queue, queue,
}
use robia_back.Odc.Outreach.Sending.{
  prepare, mark_failed, mark_sent, mark_skipped, answer, record_failure, record_sent, record_skip,
  send, skip,
}
use robia_back.Odc.Outreach.Plan.{mark_failed-plan}
use robia_back.Odc.Outreach.Validity.{IsValid, queue_of-update_outreach}
use robia_back.Odc.Outreach.Positions.{update_outreach-Absent}
use robia_back.Odc.Outreach.Delivery.{
  mark_failed-IsInPlace, Reply-cases, IsPrepared, prepare-IsPrepared, found_place, prepared_cases,
}
use robia_back.Odc.Outreach.Campaign.{
  campaign_of, campaign, campaign_path, Request, queue_request, send_request, skip_request, handle,
}
use robia_back.Odc.Outreach.Joining.{Implements, queue_ids}
use robia_back.Odc.Outreach.Refinement.{handle-Implements}
use robia_back.Odc.Outreach.Sent.{IsDelivered, send-IsDelivered}
use robia_back.Odc.Outreach.Joined.{
  IsJoined, checked_program, queue-IsJoined, programs-enqueue, list_found,
}

-- The row of an id after an update.
found_updated :
    (o i user : ℕ) (rows : List Outreach) (r : Outreach)
    → find (λ r. r.id == i && r.organization_id == o) rows ≡ some r
    → find
        (λ r. r.id == i && r.organization_id == o)
        (update_outreach r.id (mark_skipped user) rows)
      ≡ some (mark_skipped user r)
unfolding update_outreach
found_updated o i user [] r h = ground (arith, h)
found_updated o i user (q ∷ rows) r h = ground (arith, h, found_updated o i user rows r)

-- What a request has done, by its answer.
abbrev pub HasEffect : Request → World → Type 0
HasEffect (queue_request o p ids) w =
    (rows : List Public) × ((queue o p ids w).1 ≡ done rows)
    × IsJoined o p ids w (queue o p ids w).0
HasEffect (send_request transport now o user i) w =
    (r : Outreach) × (mail : Mail) × (find_outreach o i w ≡ some r)
    × IsDelivered transport o w (send transport now o user i w).0 r mail
HasEffect (skip_request o user i) w =
    (r : Outreach) × (find_outreach o i w ≡ some r)
    × (is_sent r.status ≡ false)
    × (find_outreach o i (skip o user i w).0 ≡ some (mark_skipped user r))

-- A request that is refused.
abbrev pub IsRefused : Request → World → Type 0
IsRefused (queue_request o p ids) w =
    (e : Error) × ((queue o p ids w).1 ≡ refused e) × ((queue o p ids w).0 ≡ w)
IsRefused (send_request transport now o user i) w =
    (e : Error) × ((send transport now o user i w).1 ≡ refused e)
    × ((send transport now o user i w).0.outbox ≡ w.outbox)
    × ((a b : ℕ) → campaign_of a b (send transport now o user i w).0 ≡ campaign_of a b w)
IsRefused (skip_request o user i) w =
    (e : Error) × ((skip o user i w).1 ≡ refused e) × ((skip o user i w).0 ≡ w)

queue_effects :
    (o p : ℕ) (ids : List ℕ) (w : World)
    → HasEffect (queue_request o p ids) w ⊎ IsRefused (queue_request o p ids) w
unfolding queue require_program
queue_effects o p ids w = elim (Reply-cases (check_queue o p ids w)) [
  | inr (e, c) ↦ inr (e, ground (arith, c), ground (arith, c))
  | inl (program, c) ↦ elim (Option-cases (enqueue program (unique ids) w)) [
    | inl n ↦ inr (Error.conflict, ground (arith, c, n), ground (arith, c, n))
    | inr (u, e) ↦
        let here =
          subst (λ ps. find (λ q. q.id == p && q.organization_id == o) ps ≡ some program)
            (programs-enqueue program (unique ids) w u e) (checked_program o p ids w program c) in
        let (rows, l) = list_found o p u program here in
        let whole : queue o p ids w ≡ (u, done rows) = ground (arith, c, e, l) in
        let same : u ≡ (queue o p ids w).0 = ground (arith, whole) in
        inl (
          rows,
          ap (λ x. x.1) whole,
          subst (IsJoined o p ids w) same (queue-IsJoined o p ids w u rows whole),
        )
  ]
]

skip_effects :
    (o user i : ℕ) (w : World)
    → HasEffect (skip_request o user i) w ⊎ IsRefused (skip_request o user i) w
unfolding skip record_skip find_outreach
skip_effects o user i w = elim (Option-cases (find_outreach o i w)) [
  | inl n ↦ inr (Error.not_found, ground (arith, n), ground (arith, n))
  | inr (r, f) ↦ elim (Bool-cases (is_sent r.status)) [
    | inl s ↦ inr (Error.conflict, ground (arith, f, s), ground (arith, f, s))
    | inr s ↦
        let updated = found_updated o i user w.outreaches r f in
        inl (r, f, s, ground (arith, f, s, updated))
  ]
]

-- A mail that is not delivered changes no campaign.
campaign_of-record_failure :
    (o i : ℕ) (w : World) (r : Outreach) (mail : Mail) (failure : Failure)
    → IsValid w.next_id w.outreaches
    → IsPrepared o i w r mail
    → (a b : ℕ) → campaign_of a b (record_failure failure r w) ≡ campaign_of a b w
unfolding record_failure
campaign_of-record_failure o i w r mail failure v p a b =
    let rows = queue_of a b w.outreaches in
    let moved =
      ap (λ j. queue_of a b (update_outreach j (mark_failed failure) w.outreaches))
        (found_place o i w r p.found).0
      ∙ queue_of-update_outreach a b i (mark_failed failure) w.outreaches
          (mark_failed-IsInPlace failure) in
    ap campaign moved ∙ elim (prepared_cases o i w r mail v p a b) [
      | inr absent ↦ ap campaign (update_outreach-Absent i (mark_failed failure) rows absent)
      | inl (_, _, first) ↦
          let keeps =
            mark_failed-plan i failure rows (queue_ids a b w v) ((v.queues a b).settled) first in
          campaign_path (campaign (update_outreach i (mark_failed failure) rows)) (campaign rows)
            keeps.0 keeps.1
    ]

send_effects :
    (transport : Mail → Option Failure) (now o user i : ℕ) (w : World)
    → IsValid w.next_id w.outreaches
    → HasEffect (send_request transport now o user i) w
      ⊎ IsRefused (send_request transport now o user i) w
unfolding send record_failure
send_effects transport now o user i w v = elim (Reply-cases (prepare o i w)) [
  | inr (e, c) ↦
      let same : (send transport now o user i w).0 ≡ w = ground (arith, c) in
      inr (e, ground (arith, c), ap (λ x. x.outbox) same, λ a b. ap (campaign_of a b) same)
  | inl ((r, mail), c) ↦
      let p = prepare-IsPrepared o i w r mail c in
      elim (Option-cases (transport mail)) [
        | inr (failure, f) ↦
            let same : (send transport now o user i w).0 ≡ record_failure failure r w =
              ground (arith, c, f) in
            inr (
              Error.undelivered failure,
              ground (arith, c, f),
              ap (λ x. x.outbox) same,
              λ a b.
                  ap (campaign_of a b) same
                  ∙ campaign_of-record_failure o i w r mail failure v p a b,
            )
        | inl n ↦
            let u = record_sent user now r mail w in
            let whole : send transport now o user i w
                ≡ (u, done (answer (mark_sent user now) r u)) =
              ground (arith, c, n) in
            let same : u ≡ (send transport now o user i w).0 = ground (arith, whole) in
            let (q, m, found, delivered) =
              send-IsDelivered transport now o user i w u (answer (mark_sent user now) r u) v
                whole in
            inl (q, m, found, subst (λ x. IsDelivered transport o w x q m) same delivered)
      ]
]

-- Every request keeps the invariant of the rows, and is a step of the campaign of every program:
-- nothing, or applications join at the end, or the first one is mailed, or one is dropped.
-- Moreover it is refused, and then no campaign changes and no mail is accepted; or it has its
-- effect: the applications asked for have joined their queue, the first one that waited has been
-- mailed, or the row, which was not sent, is skipped.
pub handle_effects :
    (request : Request) (w : World)
    → IsValid w.next_id w.outreaches
    → Implements w (handle request w) × (HasEffect request w ⊎ IsRefused request w)
handle_effects (queue_request o p ids) w v =
    (handle-Implements (queue_request o p ids) w v, queue_effects o p ids w)
handle_effects (send_request transport now o user i) w v = (
  handle-Implements (send_request transport now o user i) w v,
  send_effects transport now o user i w v,
)
handle_effects (skip_request o user i) w v =
    (handle-Implements (skip_request o user i) w v, skip_effects o user i w)
