-- ===== src/Odc/Outreach/Positions.antt =====
-- The order of the rows of a queue of src/odc/odc-outreach.service.ts: rows that ascend by a
-- number, and what an update by id leaves.
use robia_back.Prelude.{
  ℕ, ◌≤◌, ◌<◌, ◌≡◌, refl, inl, inr, Bool, false, Option, some, List, [], ◌∷◌, ◌++◌, ◌==◌, filter,
  All, arith, All-map, Bool-cases, All-concat, All-filter,
}
use robia_back.Odc.Outreach.Rows.{
  Outreach, is_sendable, insert_row, order_rows, first_id, next_sendable_id, update_outreach,
}

abbrev pub Ascending : (Outreach → ℕ) → List Outreach → Type 0
Ascending k [] = Unit
Ascending k (r ∷ rows) = All (λ q. k r < k q) rows × Ascending k rows

pub Ascending-filter :
    (k : Outreach → ℕ) (p : Outreach → Bool) (rows : List Outreach)
    → Ascending k rows
    → Ascending k (filter p rows)
Ascending-filter k p [] h = tt
Ascending-filter k p (r ∷ rows) h = elim (Bool-cases (p r)) [
  | inl e ↦ rw e (All-filter (λ q. k r < k q) p rows h.0, Ascending-filter k p rows h.1)
  | inr e ↦ rw e (Ascending-filter k p rows h.1)
]

-- Rows with larger numbers may follow.
pub Ascending-append :
    (k : Outreach → ℕ) (n : ℕ) (rows more : List Outreach)
    → Ascending k rows
    → All (λ q. k q < n) rows
    → Ascending k more
    → All (λ q. n ≤ k q) more
    → Ascending k (rows ++ more)
Ascending-append k n [] more a b c d = c
Ascending-append k n (r ∷ rows) more a b c d = (
  All-concat (λ q. k r < k q) rows more a.0
      (All-map (λ q h. let below : k r < k q = omega (arith, b.0, h) in below) more d),
  Ascending-append k n rows more a.1 b.1 c d,
)

insert_row-first :
    (r : Outreach) (rows : List Outreach)
    → All (λ q. r.sort_order < q.sort_order) rows
    → insert_row r rows ≡ r ∷ rows
unfolding insert_row
insert_row-first r [] h = refl
insert_row-first r (q ∷ rows) h = ground (arith, h.0)

pub order_rows-Ascending :
    (rows : List Outreach) → Ascending (λ q. q.sort_order) rows → order_rows rows ≡ rows
unfolding order_rows
order_rows-Ascending [] h = refl
order_rows-Ascending (r ∷ rows) h = rw (order_rows-Ascending rows h.1) (insert_row-first r rows h.0)

-- In a queue that ascends, the next row to send is the first that can be sent.
abbrev pub first_sendable_id : List Outreach → Option ℕ
first_sendable_id rows = first_id (filter (λ r. is_sendable r.status) rows)

pub next_sendable_id-order_rows :
    (rows : List Outreach)
    → Ascending (λ q. q.sort_order) rows
    → next_sendable_id (order_rows rows) ≡ first_sendable_id rows
unfolding next_sendable_id
next_sendable_id-order_rows rows h =
    rw
      (
        order_rows-Ascending rows h,
        order_rows-Ascending (filter (λ r. is_sendable r.status) rows)
            (Ascending-filter (λ q. q.sort_order) (λ r. is_sendable r.status) rows h),
      )
      refl

-- The first row that can be sent is one of the rows.
pub first_sendable_id_later :
    (n i : ℕ) (rows : List Outreach)
    → All (λ q. n < q.id) rows
    → first_sendable_id rows ≡ some i
    → n < i
unfolding first_id
first_sendable_id_later n i [] h e = ground arith
first_sendable_id_later n i (r ∷ rows) h e =
    ground (arith, h.0, first_sendable_id_later n i rows h.1)

abbrev pub Absent : ℕ → List Outreach → Type 0
Absent i rows = All (λ q. (q.id == i) ≡ false) rows

pub update_outreach-Absent :
    (i : ℕ) (f : Outreach → Outreach) (rows : List Outreach)
    → Absent i rows
    → update_outreach i f rows ≡ rows
unfolding update_outreach
update_outreach-Absent i f [] h = refl
update_outreach-Absent i f (r ∷ rows) h = rw (h.0, update_outreach-Absent i f rows h.1) refl

pub Absent-later : (i : ℕ) (rows : List Outreach) → All (λ q. i < q.id) rows → Absent i rows
Absent-later i = All-map (λ q h. let differs : (q.id == i) ≡ false = ground (arith, h) in differs)

-- An update that keeps a test commutes with the filter.
pub filter-update_outreach :
    (i : ℕ) (f : Outreach → Outreach) (p : Outreach → Bool) (rows : List Outreach)
    → ((r : Outreach) → p (f r) ≡ p r)
    → filter p (update_outreach i f rows) ≡ update_outreach i f (filter p rows)
unfolding update_outreach
filter-update_outreach i f p [] h = refl
filter-update_outreach i f p (r ∷ rows) h = elim (Bool-cases (r.id == i)) [
  | inl e ↦ elim (Bool-cases (p r)) [
    | inl k ↦ rw (e, h r, k, e, filter-update_outreach i f p rows h) refl
    | inr k ↦ rw (e, h r, k) (filter-update_outreach i f p rows h)
  ]
  | inr e ↦ elim (Bool-cases (p r)) [
    | inl k ↦ rw (e, k, e, filter-update_outreach i f p rows h) refl
    | inr k ↦ rw (e, k) (filter-update_outreach i f p rows h)
  ]
]

-- What an update keeps of each row.
pub All-update_outreach :
    {P : Outreach → Type 0} (i : ℕ) (f : Outreach → Outreach) (rows : List Outreach)
    → ((r : Outreach) → P r → P (f r))
    → All P rows
    → All P (update_outreach i f rows)
unfolding update_outreach
All-update_outreach i f [] h a = tt
All-update_outreach i f (r ∷ rows) h a = elim (Bool-cases (r.id == i)) [
  | inl e ↦ rw e (h r a.0, All-update_outreach i f rows h a.1)
  | inr e ↦ rw e (a.0, All-update_outreach i f rows h a.1)
]

pub Ascending-update_outreach :
    (k : Outreach → ℕ) (i : ℕ) (f : Outreach → Outreach) (rows : List Outreach)
    → ((r : Outreach) → k (f r) ≡ k r)
    → Ascending k rows
    → Ascending k (update_outreach i f rows)
unfolding update_outreach
Ascending-update_outreach k i f [] h a = tt
Ascending-update_outreach k i f (r ∷ rows) h a =
    let later =
      All-update_outreach {P = λ q. k r < k q} i f rows
        (λ q l. let same : k r < k (f q) = omega (arith, h q, l) in same) a.0 in
    elim (Bool-cases (r.id == i)) [
      | inl e ↦ rw (e, h r) (later, Ascending-update_outreach k i f rows h a.1)
      | inr e ↦ rw e (later, Ascending-update_outreach k i f rows h a.1)
    ]
