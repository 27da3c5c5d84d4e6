-- ===== src/Odc/Outreach/Appending.antt =====
-- The rows of src/odc/odc-outreach.service.ts after `queue` has created some: the new ones wait
-- behind the others of their queue, and the invariant holds.
use mathlib.Core.List.{append-nil}
use robia_back.Prelude.{
  ℕ, suc, ◌+◌, ◌≤◌, ◌<◌, ◌≡◌, refl, sym, ap, ◌∙◌, subst, inl, inr, ◌⊎◌, true, false, ◌&&◌, some,
  List, [], ◌∷◌, ◌++◌, ◌==◌, length, All, arith, All-map, Bool-cases, length-append, All-concat,
  filter-append,
}
use robia_back.Odc.Outreach.Rows.{Outreach, in_queue, queue_of}
use robia_back.Odc.Outreach.Queueing.{create_rows}
use robia_back.Odc.Outreach.Positions.{Ascending, Ascending-append}
use robia_back.Odc.Outreach.Plan.{pending, mailed, Settled}
use robia_back.Odc.Outreach.Creation.{
  new_rows, create_rows-new_rows, create_rows-Distinct, queue_of-new_rows, length-new_rows,
  pending-new_rows, mailed-new_rows, new_rows-Settled, new_rows_from, new_rows-Ascending,
}
use robia_back.Odc.Outreach.Validity.{IsQueue, IsValid}

pending-append : (rows more : List Outreach) → pending (rows ++ more) ≡ pending rows ++ pending more
unfolding pending
pending-append [] more = refl
pending-append (r ∷ rows) more = ground (arith, pending-append rows more)

mailed-append : (rows more : List Outreach) → mailed (rows ++ more) ≡ mailed rows ++ mailed more
unfolding mailed
mailed-append [] more = refl
mailed-append (r ∷ rows) more = ground (arith, mailed-append rows more)

Settled-append :
    (rows more : List Outreach)
    → Settled rows
    → Settled more
    → mailed more ≡ []
    → Settled (rows ++ more)
Settled-append [] more s t e = t
Settled-append (r ∷ rows) more s t e =
    ((λ h. mailed-append rows more ∙ rw (s.0 h) e), Settled-append rows more s.1 t e)

IsQueue-new_rows :
    (o p id : ℕ) (ids : List ℕ) (rows : List Outreach)
    → IsQueue rows
    → IsQueue (rows ++ new_rows o p (length rows) id ids)
IsQueue-new_rows o p id ids rows q =
    let more = new_rows o p (length rows) id ids in
    let from = new_rows_from o p (length rows) id ids in
    let total = length-append rows more in
    let added = length-new_rows o p (length rows) id ids in
    record {
      ordered =
          Ascending-append (λ r. r.sort_order) (suc (length rows)) rows more q.ordered
            (All-map
              (λ r h. let below : r.sort_order < suc (length rows) = omega (arith, h) in below) rows
              q.bounded)
            ((new_rows-Ascending o p (length rows) id ids).0)
            (All-map
              (λ r h. let above : suc (length rows) ≤ r.sort_order = omega (arith, h.0) in above)
              more from);
      bounded =
          All-concat (λ r. r.sort_order ≤ length (rows ++ more)) rows more
            (All-map
              (λ r h.
                let below : r.sort_order ≤ length (rows ++ more) = omega (arith, h, total) in below)
              rows q.bounded)
            (All-map
              (λ r h.
                let below : r.sort_order ≤ length (rows ++ more) =
                  omega (arith, h.1, total, added) in
                below)
              more from);
      settled =
          Settled-append rows more q.settled (new_rows-Settled o p (length rows) id ids)
            (mailed-new_rows o p (length rows) id ids);
    }

queue_of-append :
    (o p : ℕ) (rows more : List Outreach)
    → queue_of o p (rows ++ more) ≡ queue_of o p rows ++ queue_of o p more
unfolding queue_of
queue_of-append o p rows more = filter-append (in_queue o p) rows more

-- Each queue after a creation: the one that it is for is longer, the others are what they were.
abbrev pub Grows : ℕ → ℕ → ℕ → List ℕ → List Outreach → List Outreach → Type 0
Grows o p id ids before after =
    (o' p' : ℕ)
    → ((queue_of o' p' after ≡ queue_of o' p' before) × ((o == o' && p == p') ≡ false))
      ⊎ ((queue_of o' p' after
            ≡ queue_of o' p' before ++ new_rows o p (length (queue_of o' p' before)) id ids)
          × ((o == o' && p == p') ≡ true))

pub create_rows-Grows :
    (o p id : ℕ) (ids : List ℕ) (rows created : List Outreach)
    → create_rows o p (length (queue_of o p rows)) id ids rows ≡ some created
    → Grows o p id ids rows created
create_rows-Grows o p id ids rows created h o' p' =
    let count = length (queue_of o p rows) in
    let built = create_rows-new_rows o p count id ids rows created h in
    let split =
      ap (queue_of o' p') built
      ∙ queue_of-append o' p' rows (new_rows o p count id ids)
      ∙ ap (λ t. queue_of o' p' rows ++ t) (queue_of-new_rows o p o' p' count id ids) in
    elim (Bool-cases (o == o' && p == p')) [
      | inl e ↦
          let same_o : o ≡ o' = ground (arith, e) in
          let same_p : p ≡ p' = ground (arith, e) in
          inr (
            split
                ∙ rw e (
                    ap (λ n. queue_of o' p' rows ++ new_rows o p n id ids)
                      (ap (λ x. length (queue_of x p rows)) same_o
                        ∙ ap (λ x. length (queue_of o' x rows)) same_p)),
            e,
          )
      | inr e ↦ inl (split ∙ rw e (append-nil (queue_of o' p' rows)), e)
    ]

pub create_rows-IsValid :
    (o p id : ℕ) (ids : List ℕ) (rows created : List Outreach)
    → create_rows o p (length (queue_of o p rows)) id ids rows ≡ some created
    → IsValid id rows
    → IsValid (id + length ids) created
create_rows-IsValid o p id ids rows created h v =
    let count = length (queue_of o p rows) in
    let more = new_rows o p count id ids in
    let from = new_rows_from o p count id ids in
    let built = create_rows-new_rows o p count id ids rows created h in
    record {
      ids = subst (Ascending (λ r. r.id)) (sym built) (
          Ascending-append (λ r. r.id) id rows more v.ids v.supplied
            ((new_rows-Ascending o p count id ids).1)
            (All-map (λ r h. let above : id ≤ r.id = h.2 in above) more from));
      supplied = subst (All (λ r. r.id < id + length ids)) (sym built) (
          All-concat (λ r. r.id < id + length ids) rows more
            (All-map (λ r h. let below : r.id < id + length ids = omega (arith, h) in below) rows
              v.supplied)
            (All-map (λ r h. let below : r.id < id + length ids = h.3 in below) more from));
      distinct = create_rows-Distinct o p count id ids rows created h v.distinct;
      queues = λ o' p'. elim (create_rows-Grows o p id ids rows created h o' p') [
        | inl (same, _) ↦ subst IsQueue (sym same) (v.queues o' p')
        | inr (grown, _) ↦
            subst IsQueue (sym grown)
              (IsQueue-new_rows o p id ids (queue_of o' p' rows) (v.queues o' p'))
      ];
    }

-- What a grown queue stands for.
pub pending-new_rows_after :
    (o p count id : ℕ) (ids : List ℕ) (rows : List Outreach)
    → (pending (rows ++ new_rows o p count id ids) ≡ pending rows ++ ids)
      × (mailed (rows ++ new_rows o p count id ids) ≡ mailed rows)
pending-new_rows_after o p count id ids rows =
    let more = new_rows o p count id ids in
    (
      pending-append rows more ∙ ap (λ t. pending rows ++ t) (pending-new_rows o p count id ids),
      mailed-append rows more
          ∙ ap (λ t. mailed rows ++ t) (mailed-new_rows o p count id ids)
          ∙ append-nil (mailed rows),
    )
