-- ===== src/Odc/Outreach/Joined.antt =====
-- A `queue` of src/odc/odc-outreach.service.ts that succeeds: the applications that have joined.
use robia_back.Prelude.{
  ℕ, ◌≡◌, sym, ap, ◌∙◌, subst, inl, inr, ◌&&◌, some, List, [], ◌∷◌, ◌++◌, ◌==◌, find, length, arith,
  Bool-cases, Option-cases,
}
use robia_back.Odc.Outreach.Rows.{
  Program, World, queue_of, require_program, find_queue, next_sendable_id,
}
use robia_back.Odc.Outreach.Queueing.{
  done, Public, all_public, unique, create_rows, enqueue, list, find_applications,
  check_applications, check_queue, queue,
}
use robia_back.Odc.Outreach.Plan.{pending, mailed}
use robia_back.Odc.Outreach.Appending.{create_rows-Grows, pending-new_rows_after}
use robia_back.Odc.Outreach.Delivery.{Reply-cases}

-- The program that `check_queue` returns is the one that is asked for.
found_program :
    (o p : ℕ) (programs : List Program) (program : Program)
    → find (λ q. q.id == p && q.organization_id == o) programs ≡ some program
    → (program.organization_id ≡ o) × (program.id ≡ p)
found_program o p [] program h = ground (arith, h)
found_program o p (q ∷ programs) program h = ground (arith, h, found_program o p programs program)

pub checked_program :
    (o p : ℕ) (ids : List ℕ) (w : World) (program : Program)
    → check_queue o p ids w ≡ done program
    → require_program o p w ≡ some program
unfolding check_queue
checked_program o p ids w program h = elim (Option-cases (require_program o p w)) [
  | inl n ↦ absurd (ground (arith, h, n))
  | inr (q, f) ↦
      let some_ids = unique ids in
      let found = find_applications o p some_ids w.applications in
      elim (Bool-cases (length some_ids == length ids)) [
        | inr a ↦ absurd (ground (arith, h, f, a))
        | inl a ↦ elim (Bool-cases (length found == length some_ids)) [
          | inr b ↦ absurd (ground (arith, h, f, a, b))
          | inl b ↦ elim (Option-cases (check_applications found some_ids)) [
            | inr (e, c) ↦ absurd (ground (arith, h, f, a, b, c))
            | inl c ↦
                let same : q ≡ program = ground (arith, h, f, a, b, c) in f ∙ ap (λ x. some x) same
          ]
        ]
      ]
]

-- The queue of a program after applications have joined it.
pub record IsJoined (o p : ℕ) (ids : List ℕ) (w v : World) : Type 0 where
  pub joined :
      pending (queue_of o p v.outreaches) ≡ pending (queue_of o p w.outreaches) ++ unique ids
  pub kept : mailed (queue_of o p v.outreaches) ≡ mailed (queue_of o p w.outreaches)

enqueue-IsJoined :
    (program : Program) (ids : List ℕ) (w v : World)
    → enqueue program (unique ids) w ≡ some v
    → IsJoined program.organization_id program.id ids w v
unfolding enqueue
enqueue-IsJoined program ids w v h =
    let o = program.organization_id in
    let p = program.id in
    let before = queue_of o p w.outreaches in
    let tried = create_rows o p (length before) w.next_id (unique ids) w.outreaches in
    elim (Option-cases tried) [
      | inl n ↦ absurd (ground (arith, h, n))
      | inr (created, c) ↦
          let rows : created ≡ v.outreaches = ground (arith, h, c) in
          elim (create_rows-Grows o p w.next_id (unique ids) w.outreaches created c o p) [
            | inl (_, other) ↦ absurd (ground (arith, other))
            | inr (grown, _) ↦
                let after =
                  pending-new_rows_after o p (length before) w.next_id (unique ids) before in
                let all = ap (queue_of o p) (sym rows) ∙ grown in
                record { joined = ap pending all ∙ after.0; kept = ap mailed all ∙ after.1 }
          ]
    ]

pub queue-IsJoined :
    (o p : ℕ) (ids : List ℕ) (w v : World) (rows : List Public)
    → queue o p ids w ≡ (v, done rows)
    → IsJoined o p ids w v
unfolding queue require_program
queue-IsJoined o p ids w v rows h = elim (Reply-cases (check_queue o p ids w)) [
  | inr (e, c) ↦ absurd (ground (arith, h, c))
  | inl (program, c) ↦ elim (Option-cases (enqueue program (unique ids) w)) [
    | inl n ↦ absurd (ground (arith, h, c, n))
    | inr (u, e) ↦
        let same : u ≡ v = ground (arith, h, c, e) in
        let place = found_program o p w.programs program (checked_program o p ids w program c) in
        subst (λ a. IsJoined a p ids w v) place.0
          (subst (λ b. IsJoined program.organization_id b ids w v) place.1
            (subst (IsJoined program.organization_id program.id ids w) same
              (enqueue-IsJoined program ids w u e)))
  ]
]

pub programs-enqueue :
    (program : Program) (ids : List ℕ) (w v : World)
    → enqueue program ids w ≡ some v
    → w.programs ≡ v.programs
unfolding enqueue
programs-enqueue program ids w v h =
    let o = program.organization_id in
    let count = length (queue_of o program.id w.outreaches) in
    elim (Option-cases (create_rows o program.id count w.next_id ids w.outreaches)) [
      | inl n ↦ absurd (ground (arith, h, n))
      | inr (created, c) ↦ ground (arith, h, c)
    ]

pub list_found :
    (o p : ℕ) (w : World) (program : Program)
    → require_program o p w ≡ some program
    → (rows : List Public) × (list o p w ≡ done rows)
unfolding list
list_found o p w program f =
    let rows = find_queue o p w in
    (all_public w.applications (next_sendable_id rows) rows, ground (arith, f))
