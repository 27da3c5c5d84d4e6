-- ===== src/Odc/Outreach/Delivery.antt =====
-- What `send` and `skip` of src/odc/odc-outreach.service.ts do to the queue of their row and to
-- the others.
use robia_back.Prelude.{
  ℕ, ◌≡◌, refl, ap, ◌∙◌, subst, inl, inr, ◌⊎◌, Bool, true, false, ◌&&◌, some, List, [], ◌∷◌, ◌==◌,
  find, All, arith, Bool-cases, Option-cases, All-filter,
}
use robia_back.Odc.Outreach.Rows.{
  Failure, Outreach, Mail, World, is_sendable, in_queue, queue_of, first_id, next_sendable_id,
  find_queue, find_outreach,
}
use robia_back.Odc.Outreach.Queueing.{Error, Reply, done, refused, is_id}
use robia_back.Odc.Outreach.Sending.{compose, prepare, mark_failed, mark_sent, mark_skipped}
use robia_back.Odc.Outreach.Positions.{first_sendable_id, next_sendable_id-order_rows, Absent}
use robia_back.Odc.Outreach.Plan.{pending}
use robia_back.Odc.Outreach.Validity.{IsValid, IsInPlace, found_only, Absent-filter}

pub mark_failed-IsInPlace : (failure : Failure) → IsInPlace (mark_failed failure)
unfolding in_queue
mark_failed-IsInPlace failure = record {
  same_id = λ _. refl;
  same_application = λ _. refl;
  same_order = λ _. refl;
  same_queue = λ _ _ _. refl;
}

pub mark_sent-IsInPlace : (user now : ℕ) → IsInPlace (mark_sent user now)
unfolding in_queue
mark_sent-IsInPlace user now = record {
  same_id = λ _. refl;
  same_application = λ _. refl;
  same_order = λ _. refl;
  same_queue = λ _ _ _. refl;
}

pub mark_skipped-IsInPlace : (user : ℕ) → IsInPlace (mark_skipped user)
unfolding in_queue
mark_skipped-IsInPlace user = record {
  same_id = λ _. refl;
  same_application = λ _. refl;
  same_order = λ _. refl;
  same_queue = λ _ _ _. refl;
}

-- A row that `prepare` lets through, with its mail.
pub record IsPrepared (o i : ℕ) (w : World) (r : Outreach) (mail : Mail) : Type 0 where
  pub found : find_outreach o i w ≡ some r
  pub next : is_id r.id (next_sendable_id (find_queue o r.program_id w)) ≡ true
  pub composed : compose w r ≡ done mail

pub Reply-cases :
    {A : Type 0} (x : Reply A) → ((a : A) × (x ≡ done a)) ⊎ ((e : Error) × (x ≡ refused e))
Reply-cases (done a) = inl (a, refl)
Reply-cases (refused e) = inr (e, refl)

pub prepare-IsPrepared :
    (o i : ℕ) (w : World) (r : Outreach) (mail : Mail)
    → prepare o i w ≡ done (r, mail)
    → IsPrepared o i w r mail
unfolding prepare
prepare-IsPrepared o i w r mail h = elim (Option-cases (find_outreach o i w)) [
  | inl n ↦ ground (arith, h, n)
  | inr (q, f) ↦ elim (Bool-cases (is_id q.id (next_sendable_id (find_queue o q.program_id w)))) [
    | inr k ↦ ground (arith, h, f, k)
    | inl k ↦ elim (Reply-cases (compose w q)) [
      | inr (e, c) ↦ ground (arith, h, f, k, c)
      | inl (m, c) ↦
          let same : q ≡ r = ground (arith, h, f, k, c) in
          let same_mail : m ≡ mail = ground (arith, h, f, k, c) in
          subst (λ x. IsPrepared o i w x mail) same
            (record { found = f; next = k; composed = c ∙ ap (λ x. done x) same_mail })
    ]
  ]
]

found_test :
    (p : Outreach → Bool) (rows : List Outreach) (r : Outreach) → find p rows ≡ some r → p r ≡ true
found_test p [] r h = ground (arith, h)
found_test p (q ∷ rows) r h = elim (Bool-cases (p q)) [
  | inl e ↦ subst (λ x. p x ≡ true) (let same : q ≡ r = ground (arith, h, e) in same) e
  | inr e ↦ found_test p rows r (let rest : find p rows ≡ some r = ground (arith, h, e) in rest)
]

module _ (o i : ℕ) (w : World) (r : Outreach) (found : find_outreach o i w ≡ some r) where
  pub found_place : (r.id ≡ i) × (in_queue o r.program_id r ≡ true)
  unfolding find_outreach in_queue
  found_place =
      let test = found_test (λ r. r.id == i && r.organization_id == o) w.outreaches r found in
      (ground (arith, test), ground (arith, test))

  found_queue : (a b : ℕ) → in_queue a b r ≡ true → (a ≡ o) × (b ≡ r.program_id)
  unfolding in_queue
  found_queue a b e =
      let place = found_place.1 in (ground (arith, e, place), ground (arith, e, place))

  -- What holds of the row holds of every row of a queue with its id.
  pub found_in_queue :
      (P : Outreach → Type 0) (a b : ℕ)
      → IsValid w.next_id w.outreaches
      → P r
      → All (λ q. (q.id == i) ≡ true → P q) (queue_of a b w.outreaches)
  unfolding find_outreach queue_of
  found_in_queue P a b v k =
      All-filter (λ q. (q.id == i) ≡ true → P q) (in_queue a b) w.outreaches
        (found_only P o i w.outreaches r found v.ids k)

  pub found_elsewhere :
      (a b : ℕ)
      → IsValid w.next_id w.outreaches
      → in_queue a b r ≡ false
      → Absent i (queue_of a b w.outreaches)
  unfolding find_outreach queue_of
  found_elsewhere a b v k =
      Absent-filter i (in_queue a b) w.outreaches
        (found_only (λ q. in_queue a b q ≡ false) o i w.outreaches r found v.ids k)

-- The first row that can be sent, when it is known which row has its id.
first_sendable :
    (i : ℕ) (r : Outreach) (rows : List Outreach)
    → All (λ q. (q.id == i) ≡ true → q ≡ r) rows
    → first_sendable_id rows ≡ some i
    → (is_sendable r.status ≡ true) × ((rest : List ℕ) × (pending rows ≡ r.application_id ∷ rest))
unfolding first_id pending
first_sendable i r [] a e = ground (arith, e)
first_sendable i r (q ∷ rows) a e = elim (Bool-cases (is_sendable q.status)) [
  | inl k ↦
      let here : (q.id == i) ≡ true = ground (arith, k, e) in
      let same = a.0 here in
      (
        subst (λ x. is_sendable x.status ≡ true) same k,
        (pending rows, rw k (ap (λ (x : Outreach). x.application_id ∷ pending rows) same)),
      )
  | inr k ↦
      let rest =
        first_sendable i r rows a.1
          (let next : first_sendable_id rows ≡ some i = ground (arith, k, e) in next) in
      rw k rest
]

module _ (o i : ℕ) (w : World) (r : Outreach) (mail : Mail) (v : IsValid w.next_id w.outreaches)
    (p : IsPrepared o i w r mail) where
  pub prepared_first : first_sendable_id (queue_of o r.program_id w.outreaches) ≡ some i
  unfolding find_queue
  prepared_first =
      let rows = queue_of o r.program_id w.outreaches in
      let ordered = next_sendable_id-order_rows rows ((v.queues o r.program_id).ordered) in
      let place = found_place o i w r p.found in ground (arith, ordered, p.next, place.0)

  pub prepared_head :
      (is_sendable r.status ≡ true)
      × ((rest : List ℕ) × (pending (queue_of o r.program_id w.outreaches)
            ≡ r.application_id ∷ rest))
  prepared_head =
      first_sendable i r (queue_of o r.program_id w.outreaches)
        (found_in_queue o i w r p.found (λ q. q ≡ r) o r.program_id v refl) prepared_first

  -- For every queue: it is the one of the row, which is next in it, or it is without the row.
  pub prepared_cases :
      (a b : ℕ)
      → ((a ≡ o) × (b ≡ r.program_id) × (first_sendable_id (queue_of a b w.outreaches) ≡ some i))
        ⊎ Absent i (queue_of a b w.outreaches)
  prepared_cases a b = elim (Bool-cases (in_queue a b r)) [
    | inr e ↦ inr (found_elsewhere o i w r p.found a b v e)
    | inl e ↦
        let here = found_queue o i w r p.found a b e in
        inl (
          here.0,
          here.1,
          ap first_sendable_id (
                ap (λ x. queue_of x b w.outreaches) here.0
                ∙ ap (λ x. queue_of o x w.outreaches) here.1)
              ∙ prepared_first,
        )
  ]
