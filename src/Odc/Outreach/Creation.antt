-- ===== src/Odc/Outreach/Creation.antt =====
-- The rows that `queue` of src/odc/odc-outreach.service.ts creates, after those that are there.
use mathlib.Core.List.{append_assoc, append-nil}
use robia_back.Prelude.{
  ℕ, suc, ◌+◌, ◌≤◌, ◌<◌, ◌≡◌, refl, ap, ◌∙◌, subst, false, ◌&&◌, some, List, [], ◌∷◌, ◌++◌, ◌==◌,
  any, length, All, arith, All-map, if◌then◌else◌, All-concat,
}
use robia_back.Odc.Outreach.Rows.{Outreach, in_queue, queue_of}
use robia_back.Odc.Outreach.Queueing.{new_row, create_rows}
use robia_back.Odc.Outreach.Positions.{Ascending}
use robia_back.Odc.Outreach.Plan.{pending, mailed, Settled}

abbrev pub new_rows : ℕ → ℕ → ℕ → ℕ → List ℕ → List Outreach
new_rows o p count id [] = []
new_rows o p count id (a ∷ ids) =
    new_row o p (suc count) id a ∷ new_rows o p (suc count) (suc id) ids

pub create_rows-new_rows :
    (o p count id : ℕ) (ids : List ℕ) (rows created : List Outreach)
    → create_rows o p count id ids rows ≡ some created
    → created ≡ rows ++ new_rows o p count id ids
unfolding create_rows
create_rows-new_rows o p count id [] rows created h = ground (arith, h, append-nil rows)
create_rows-new_rows o p count id (a ∷ ids) rows created h =
    let fresh = new_row o p (suc count) id a in
    create_rows-new_rows o p (suc count) (suc id) ids (rows ++ fresh ∷ []) created
      (ground (arith, h))
    ∙ append_assoc rows (fresh ∷ []) (new_rows o p (suc count) (suc id) ids)

-- Every row is for another application.
abbrev pub IsOther : Outreach → Outreach → Type 0
IsOther r q = (q.application_id == r.application_id) ≡ false

abbrev pub Distinct : List Outreach → Type 0
Distinct [] = Unit
Distinct (r ∷ rows) = All (IsOther r) rows × Distinct rows

Distinct-append :
    (rows : List Outreach) (r : Outreach)
    → any (λ (q : Outreach). q.application_id == r.application_id) rows ≡ false
    → Distinct rows
    → Distinct (rows ++ r ∷ [])
Distinct-append [] r h d = (tt, tt)
Distinct-append (q ∷ rows) r h d = (
  All-concat (IsOther q) rows (r ∷ []) d.0
      (let other : IsOther q r = ground (arith, h) in (other, tt)),
  Distinct-append rows r (ground (arith, h)) d.1,
)

pub create_rows-Distinct :
    (o p count id : ℕ) (ids : List ℕ) (rows created : List Outreach)
    → create_rows o p count id ids rows ≡ some created
    → Distinct rows
    → Distinct created
unfolding create_rows
create_rows-Distinct o p count id [] rows created h d =
    subst Distinct (let same : rows ≡ created = ground (arith, h) in same) d
create_rows-Distinct o p count id (a ∷ ids) rows created h d =
    let fresh = new_row o p (suc count) id a in
    create_rows-Distinct o p (suc count) (suc id) ids (rows ++ fresh ∷ []) created
      (ground (arith, h)) (Distinct-append rows fresh (ground (arith, h)) d)

pub queue_of-new_rows :
    (o p o' p' count id : ℕ) (ids : List ℕ)
    → queue_of o' p' (new_rows o p count id ids)
      ≡ (if o == o' && p == p' then new_rows o p count id ids else [])
unfolding queue_of in_queue
queue_of-new_rows o p o' p' count id [] = ground arith
queue_of-new_rows o p o' p' count id (a ∷ ids) =
    ground (arith, queue_of-new_rows o p o' p' (suc count) (suc id) ids)

pub length-new_rows :
    (o p count id : ℕ) (ids : List ℕ) → length (new_rows o p count id ids) ≡ length ids
length-new_rows o p count id [] = refl
length-new_rows o p count id (a ∷ ids) = ap suc (length-new_rows o p (suc count) (suc id) ids)

pub pending-new_rows : (o p count id : ℕ) (ids : List ℕ) → pending (new_rows o p count id ids) ≡ ids
unfolding pending
pending-new_rows o p count id [] = refl
pending-new_rows o p count id (a ∷ ids) =
    ap (λ t. a ∷ t) (pending-new_rows o p (suc count) (suc id) ids)

pub mailed-new_rows : (o p count id : ℕ) (ids : List ℕ) → mailed (new_rows o p count id ids) ≡ []
unfolding mailed
mailed-new_rows o p count id [] = refl
mailed-new_rows o p count id (a ∷ ids) = mailed-new_rows o p (suc count) (suc id) ids

pub new_rows-Settled : (o p count id : ℕ) (ids : List ℕ) → Settled (new_rows o p count id ids)
new_rows-Settled o p count id [] = tt
new_rows-Settled o p count id (a ∷ ids) = (
  (λ _. mailed-new_rows o p (suc count) (suc id) ids),
  new_rows-Settled o p (suc count) (suc id) ids,
)

-- The ids and the places of the new rows ascend from those that they start with.
pub new_rows_from :
    (o p count id : ℕ) (ids : List ℕ)
    → All
        (λ q.
          (count < q.sort_order)
          × (q.sort_order ≤ count + length ids)
          × (id ≤ q.id)
          × (q.id < id + length ids))
        (new_rows o p count id ids)
new_rows_from o p count id [] = tt
new_rows_from o p count id (a ∷ ids) = (
  (omega arith, omega arith, omega arith, omega arith),
  All-map (λ q h. (omega (arith, h.0), omega (arith, h.1), omega (arith, h.2), omega (arith, h.3)))
      (new_rows o p (suc count) (suc id) ids) (new_rows_from o p (suc count) (suc id) ids),
)

pub new_rows-Ascending :
    (o p count id : ℕ) (ids : List ℕ)
    → Ascending (λ q. q.sort_order) (new_rows o p count id ids)
      × Ascending (λ q. q.id) (new_rows o p count id ids)
new_rows-Ascending o p count id [] = (tt, tt)
new_rows-Ascending o p count id (a ∷ ids) =
    let rest = new_rows-Ascending o p (suc count) (suc id) ids in
    let from = new_rows_from o p (suc count) (suc id) ids in
    let rows = new_rows o p (suc count) (suc id) ids in
    (
      (All-map (λ q h. let above : suc count < q.sort_order = h.0 in above) rows from, rest.0),
      (All-map (λ q h. let above : id < q.id = omega (arith, h.2) in above) rows from, rest.1),
    )
