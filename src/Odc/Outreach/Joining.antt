-- ===== src/Odc/Outreach/Joining.antt =====
-- `queue` of src/odc/odc-outreach.service.ts as a step of the campaigns.
use robia_back.Prelude.{
  ℕ, ◌+◌, ◌≡◌, sym, ap, ◌∙◌, subst, inl, inr, some, List, ◌++◌, length, arith, Option-cases,
}
use robia_back.Odc.Outreach.Rows.{Program, Outreach, World, in_queue, queue_of, update_outreach}
use robia_back.Odc.Outreach.Queueing.{unique, create_rows, enqueue, check_queue, queue}
use robia_back.Odc.Outreach.Positions.{Ascending, Ascending-filter, Absent, update_outreach-Absent}
use robia_back.Odc.Outreach.Plan.{pending, mailed, Settled}
use robia_back.Odc.Outreach.Validity.{
  IsValid, IsInPlace, queue_of-update_outreach, IsValid-update_outreach,
}
use robia_back.Odc.Outreach.Appending.{
  create_rows-Grows, create_rows-IsValid, pending-new_rows_after,
}
use robia_back.Odc.Outreach.Delivery.{Reply-cases}
use robia_back.Odc.Outreach.Campaign.{campaign_of, campaign, Step, stays, Step-joins}

-- A state of the tables implements the campaigns: the invariant holds after the step, which is one
-- of the campaign of every program.
abbrev pub Implements : World → World → Type 0
Implements w v =
    IsValid v.next_id v.outreaches × ((o p : ℕ) → Step (campaign_of o p w) (campaign_of o p v))

-- An update of a row in place is a step, if it is one of every queue.
pub Implements-update_outreach :
    (i : ℕ) (f : Outreach → Outreach) (w v : World)
    → IsInPlace f
    → IsValid w.next_id w.outreaches
    → v.outreaches ≡ update_outreach i f w.outreaches
    → v.next_id ≡ w.next_id
    → ((o p : ℕ)
        → Settled (update_outreach i f (queue_of o p w.outreaches))
          × Step
              (campaign (queue_of o p w.outreaches))
              (campaign (update_outreach i f (queue_of o p w.outreaches))))
    → Implements w v
Implements-update_outreach i f w v place valid e n steps = (
  subst (λ (x : ℕ × List Outreach). IsValid x.0 x.1)
      (let same : (w.next_id, update_outreach i f w.outreaches) ≡ (v.next_id, v.outreaches) =
          ground (arith, e, n) in
        same)
      (IsValid-update_outreach w.next_id i f w.outreaches place valid (λ o p. (steps o p).0)),
  λ o p.
      subst (λ x. Step (campaign_of o p w) (campaign x))
        (sym (ap (queue_of o p) e ∙ queue_of-update_outreach o p i f w.outreaches place))
        ((steps o p).1),
)

-- A queue without the row is as before.
pub elsewhere :
    (i : ℕ) (f : Outreach → Outreach) (rows : List Outreach)
    → Settled rows
    → Absent i rows
    → Settled (update_outreach i f rows)
      × Step (campaign rows) (campaign (update_outreach i f rows))
elsewhere i f rows s a =
    subst (λ x. Settled x × Step (campaign rows) (campaign x))
      (sym (update_outreach-Absent i f rows a)) (s, stays (campaign rows))

pub queue_ids :
    (o p : ℕ) (w : World)
    → IsValid w.next_id w.outreaches
    → Ascending (λ q. q.id) (queue_of o p w.outreaches)
unfolding queue_of
queue_ids o p w v = Ascending-filter (λ q. q.id) (in_queue o p) w.outreaches v.ids

pub Implements-refl : (w : World) → IsValid w.next_id w.outreaches → Implements w w
Implements-refl w v = (v, λ o p. stays (campaign_of o p w))

Implements-enqueue :
    (program : Program) (ids : List ℕ) (w v : World)
    → IsValid w.next_id w.outreaches
    → enqueue program ids w ≡ some v
    → Implements w v
unfolding enqueue
Implements-enqueue program ids w v valid h =
    let o = program.organization_id in
    let p = program.id in
    let tried = create_rows o p (length (queue_of o p w.outreaches)) w.next_id ids w.outreaches in
    elim (Option-cases tried) [
      | inl n ↦ ground (arith, h, n)
      | inr (created, c) ↦
          let rows : created ≡ v.outreaches = ground (arith, h, c) in
          let next : w.next_id + length ids ≡ v.next_id = ground (arith, h, c) in
          (
            subst (λ n. IsValid n v.outreaches) next
                (subst (IsValid (w.next_id + length ids)) rows
                  (create_rows-IsValid o p w.next_id ids w.outreaches created c valid)),
            λ o' p'.
                subst (λ x. Step (campaign_of o' p' w) (campaign (queue_of o' p' x))) rows
                  (elim (create_rows-Grows o p w.next_id ids w.outreaches created c o' p') [
                    | inl (same, _) ↦
                        subst (λ x. Step (campaign_of o' p' w) (campaign x)) (sym same)
                          (stays (campaign_of o' p' w))
                    | inr (grown, _) ↦
                        let before = queue_of o' p' w.outreaches in
                        Step-joins before (queue_of o' p' created) ids (
                          subst
                            (λ x. (pending x ≡ pending before ++ ids) × (mailed x ≡ mailed before))
                            (sym grown)
                            (pending-new_rows_after o p (length before) w.next_id ids before))
                  ]),
          )
    ]

pub Implements-queue :
    (o p : ℕ) (ids : List ℕ) (w : World)
    → IsValid w.next_id w.outreaches
    → Implements w (queue o p ids w).0
unfolding queue
Implements-queue o p ids w v = elim (Reply-cases (check_queue o p ids w)) [
  | inr (e, c) ↦
      let same : w ≡ (queue o p ids w).0 = ground (arith, c) in
      subst (Implements w) same (Implements-refl w v)
  | inl (program, c) ↦ elim (Option-cases (enqueue program (unique ids) w)) [
    | inl n ↦
        let same : w ≡ (queue o p ids w).0 = ground (arith, c, n) in
        subst (Implements w) same (Implements-refl w v)
    | inr (u, e) ↦
        let same : u ≡ (queue o p ids w).0 = ground (arith, c, e) in
        subst (Implements w) same (Implements-enqueue program (unique ids) w u v e)
  ]
]
