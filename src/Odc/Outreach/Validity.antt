-- ===== src/Odc/Outreach/Validity.antt =====
-- The invariant of the rows of src/odc/odc-outreach.service.ts, and that updates and the creation
-- of rows keep it.
use robia_back.Prelude.{
  ℕ, suc, ◌≤◌, ◌<◌, ◌≡◌, refl, ap, subst, inl, inr, Bool, true, false, ◌&&◌, some, List, [], ◌∷◌,
  ◌==◌, find, filter, length, All, arith, All-map, Bool-cases,
}
use robia_back.Odc.Outreach.Rows.{Outreach, in_queue, queue_of, update_outreach}
use robia_back.Odc.Outreach.Positions.{
  Ascending, Absent, filter-update_outreach, All-update_outreach, Ascending-update_outreach,
}
use robia_back.Odc.Outreach.Plan.{Settled}
use robia_back.Odc.Outreach.Creation.{IsOther, Distinct}

-- The places of a queue ascend and are at most its length, and nothing after a row that can be
-- sent has been sent.
pub record IsQueue (rows : List Outreach) : Type 0 where
  pub ordered : Ascending (λ q. q.sort_order) rows
  pub bounded : All (λ q. q.sort_order ≤ length rows) rows
  pub settled : Settled rows

-- The rows are in the order of their ids, which the supply has given out, each for an application
-- of its own, and each queue is one.
pub record IsValid (next_id : ℕ) (rows : List Outreach) : Type 0 where
  pub ids : Ascending (λ q. q.id) rows
  pub supplied : All (λ q. q.id < next_id) rows
  pub distinct : Distinct rows
  pub queues : (o p : ℕ) → IsQueue (queue_of o p rows)

-- An update that leaves a row where it is.
pub record IsInPlace (f : Outreach → Outreach) : Type 0 where
  pub same_id : (r : Outreach) → (f r).id ≡ r.id
  pub same_application : (r : Outreach) → (f r).application_id ≡ r.application_id
  pub same_order : (r : Outreach) → (f r).sort_order ≡ r.sort_order
  pub same_queue : (o p : ℕ) (r : Outreach) → in_queue o p (f r) ≡ in_queue o p r

length-update_outreach :
    (i : ℕ) (f : Outreach → Outreach) (rows : List Outreach)
    → length (update_outreach i f rows) ≡ length rows
unfolding update_outreach
length-update_outreach i f [] = refl
length-update_outreach i f (r ∷ rows) = ap suc (length-update_outreach i f rows)

Distinct-update_outreach :
    (i : ℕ) (f : Outreach → Outreach) (rows : List Outreach)
    → IsInPlace f
    → Distinct rows
    → Distinct (update_outreach i f rows)
unfolding update_outreach
Distinct-update_outreach i f [] p d = tt
Distinct-update_outreach i f (r ∷ rows) p d =
    let later =
      All-update_outreach {P = IsOther r} i f rows (λ q h. rw (p.same_application q) h) d.0 in
    elim (Bool-cases (r.id == i)) [
      | inl e ↦ rw (e, p.same_application r) (later, Distinct-update_outreach i f rows p d.1)
      | inr e ↦ rw e (later, Distinct-update_outreach i f rows p d.1)
    ]

pub queue_of-update_outreach :
    (o p i : ℕ) (f : Outreach → Outreach) (rows : List Outreach)
    → IsInPlace f
    → queue_of o p (update_outreach i f rows) ≡ update_outreach i f (queue_of o p rows)
unfolding queue_of
queue_of-update_outreach o p i f rows h =
    filter-update_outreach i f (in_queue o p) rows (h.same_queue o p)

pub IsQueue-update_outreach :
    (i : ℕ) (f : Outreach → Outreach) (rows : List Outreach)
    → IsInPlace f
    → IsQueue rows
    → Settled (update_outreach i f rows)
    → IsQueue (update_outreach i f rows)
IsQueue-update_outreach i f rows p q s = record {
  ordered = Ascending-update_outreach (λ r. r.sort_order) i f rows p.same_order q.ordered;
  bounded = rw (length-update_outreach i f rows) (
      All-update_outreach {P = λ r. r.sort_order ≤ length rows} i f rows
        (λ r h.
          let below : (f r).sort_order ≤ length rows = omega (arith, p.same_order r, h) in below)
        q.bounded);
  settled = s;
}

pub IsValid-update_outreach :
    (next_id i : ℕ) (f : Outreach → Outreach) (rows : List Outreach)
    → IsInPlace f
    → IsValid next_id rows
    → ((o p : ℕ) → Settled (update_outreach i f (queue_of o p rows)))
    → IsValid next_id (update_outreach i f rows)
IsValid-update_outreach next_id i f rows p v s = record {
  ids = Ascending-update_outreach (λ r. r.id) i f rows p.same_id v.ids;
  supplied =
      All-update_outreach {P = λ r. r.id < next_id} i f rows
        (λ r h. let below : (f r).id < next_id = omega (arith, p.same_id r, h) in below) v.supplied;
  distinct = Distinct-update_outreach i f rows p v.distinct;
  queues = λ a b.
      rw (queue_of-update_outreach a b i f rows p)
        (IsQueue-update_outreach i f (queue_of a b rows) p (v.queues a b) (s a b));
}

-- What holds of the row that is found holds of every row with its id.
found_id :
    (o i n : ℕ) (rows : List Outreach) (r : Outreach)
    → find (λ r. r.id == i && r.organization_id == o) rows ≡ some r
    → All (λ q. n < q.id) rows
    → (r.id ≡ i) × (n < i)
found_id o i n [] r e h = ground (arith, e)
found_id o i n (q ∷ rows) r e h = ground (arith, e, h.0, found_id o i n rows r)

pub found_only :
    (P : Outreach → Type 0) (o i : ℕ) (rows : List Outreach) (r : Outreach)
    → find (λ r. r.id == i && r.organization_id == o) rows ≡ some r
    → Ascending (λ q. q.id) rows
    → P r
    → All (λ q. (q.id == i) ≡ true → P q) rows
found_only P o i [] r e a k = tt
found_only P o i (q ∷ rows) r e a k = elim (Bool-cases (q.id == i && q.organization_id == o)) [
  | inl t ↦ (
    (λ _. subst P (let same : r ≡ q = ground (arith, e, t) in same) k),
    All-map (λ x later. λ same. absurd (ground (arith, t, later, same))) rows a.0,
  )
  | inr f ↦
      let rest : find (λ r. r.id == i && r.organization_id == o) rows ≡ some r =
        ground (arith, e, f) in
      (
        (λ same. absurd (ground (arith, same, found_id o i q.id rows r rest a.0))),
        found_only P o i rows r rest a.1 k,
      )
]

pub Absent-filter :
    (i : ℕ) (p : Outreach → Bool) (rows : List Outreach)
    → All (λ q. (q.id == i) ≡ true → p q ≡ false) rows
    → Absent i (filter p rows)
Absent-filter i p [] h = tt
Absent-filter i p (q ∷ rows) h = elim (Bool-cases (p q)) [
  | inl e ↦ rw e (
    let differs : (q.id == i) ≡ false = ground (arith, e, h.0) in differs,
    Absent-filter i p rows h.1,
  )
  | inr e ↦ rw e (Absent-filter i p rows h.1)
]
