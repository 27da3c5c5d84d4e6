-- ===== src/Odc/Outreach/Plan.antt =====
-- What a queue of src/odc/odc-outreach.service.ts stands for: the applications whose mail is still
-- to be sent, and those whose mail has been sent, in the order of the queue.
use robia_back.Prelude.{
  ℕ, ◌≡◌, refl, sym, ◌∙◌, ap, subst, inl, inr, ◌⊎◌, true, false, some, List, [], ◌∷◌, ◌++◌, ◌==◌,
  All, arith, Bool-cases, if◌then◌else◌,
}
use robia_back.Odc.Outreach.Rows.{
  Status, queued, sent, failed, skipped, Failure, Outreach, is_sendable, is_sent, first_id,
  update_outreach,
}
use robia_back.Odc.Outreach.Sending.{mark_failed, mark_sent, mark_skipped}
use robia_back.Odc.Outreach.Positions.{
  Ascending, Absent, first_sendable_id, first_sendable_id_later, update_outreach-Absent,
  Absent-later,
}

unfoldable pub pending : List Outreach → List ℕ
pending [] = []
pending (r ∷ rows) =
    let rest = pending rows in if is_sendable r.status then r.application_id ∷ rest else rest

unfoldable pub mailed : List Outreach → List ℕ
mailed [] = []
mailed (r ∷ rows) =
    let rest = mailed rows in if is_sent r.status then r.application_id ∷ rest else rest

-- Nothing after a row that can be sent has been sent.
abbrev pub Settled : List Outreach → Type 0
Settled [] = Unit
Settled (r ∷ rows) = (is_sendable r.status ≡ true → mailed rows ≡ []) × Settled rows

pub sendable_unsent : (s : Status) → is_sendable s ≡ true → is_sent s ≡ false
sendable_unsent queued h = refl
sendable_unsent failed h = refl
sendable_unsent sent h = ground (arith, h)
sendable_unsent skipped h = refl

-- A delivered mail moves the first application that waits to the end of those mailed.
abbrev pub Mails : List Outreach → List Outreach → Type 0
Mails before after =
    ((a : ℕ) × (pending before ≡ a ∷ pending after) × (mailed after ≡ mailed before ++ a ∷ []))
    × Settled after

pub mark_sent-Mails :
    (i user now : ℕ) (rows : List Outreach)
    → Ascending (λ q. q.id) rows
    → Settled rows
    → first_sendable_id rows ≡ some i
    → Mails rows (update_outreach i (mark_sent user now) rows)
unfolding pending mailed first_id update_outreach
mark_sent-Mails i user now [] a s e = ground (arith, e)
mark_sent-Mails i user now (r ∷ rows) a s e = elim (Bool-cases (is_sendable r.status)) [
  | inl k ↦
      let first : r.id ≡ i = ground (arith, k, e) in
      let kept =
        update_outreach-Absent r.id (mark_sent user now) rows (Absent-later r.id rows a.0) in
      subst (λ j. Mails (r ∷ rows) (update_outreach j (mark_sent user now) (r ∷ rows))) first
        (let found : (r.id == r.id) ≡ true = ground arith in
          rw (k, found, kept, sendable_unsent r.status k, s.0 k)
            ((r.application_id, refl, refl), ((λ h. ground (arith, h)), s.1)))
  | inr k ↦
      let next : first_sendable_id rows ≡ some i = ground (arith, k, e) in
      let later = first_sendable_id_later r.id i rows a.0 next in
      let other : (r.id == i) ≡ false = ground (arith, later) in
      let rest = mark_sent-Mails i user now rows a.1 s.1 next in
      rw (k, other, k)
        ((rest.0.0, rest.0.1, ground (arith, rest.0.2)), ((λ h. ground (arith, h)), rest.1))
]

-- A failed delivery changes neither.
abbrev pub Keeps : List Outreach → List Outreach → Type 0
Keeps before after =
    (pending after ≡ pending before) × (mailed after ≡ mailed before) × Settled after

pub mark_failed-plan :
    (i : ℕ) (failure : Failure) (rows : List Outreach)
    → Ascending (λ q. q.id) rows
    → Settled rows
    → first_sendable_id rows ≡ some i
    → Keeps rows (update_outreach i (mark_failed failure) rows)
unfolding pending mailed first_id update_outreach
mark_failed-plan i failure [] a s e = ground (arith, e)
mark_failed-plan i failure (r ∷ rows) a s e = elim (Bool-cases (is_sendable r.status)) [
  | inl k ↦
      let first : r.id ≡ i = ground (arith, k, e) in
      let kept =
        update_outreach-Absent r.id (mark_failed failure) rows (Absent-later r.id rows a.0) in
      subst (λ j. Keeps (r ∷ rows) (update_outreach j (mark_failed failure) (r ∷ rows))) first
        (let found : (r.id == r.id) ≡ true = ground arith in
          rw (found, kept, k, sendable_unsent r.status k) (refl, refl, ((λ _. s.0 k), s.1)))
  | inr k ↦
      let next : first_sendable_id rows ≡ some i = ground (arith, k, e) in
      let later = first_sendable_id_later r.id i rows a.0 next in
      let other : (r.id == i) ≡ false = ground (arith, later) in
      let rest = mark_failed-plan i failure rows a.1 s.1 next in
      rw (other, k) (rest.0, ground (arith, rest.1), ((λ h. ground (arith, h)), rest.2))
]

-- A skip removes an application from those that wait, or changes nothing.
abbrev pub Drops : List ℕ → List ℕ → Type 0
Drops before after =
    (after ≡ before)
    ⊎ ((a : ℕ) × (xs : List ℕ) × (ys : List ℕ) × (before ≡ xs ++ a ∷ ys) × (after ≡ xs ++ ys))

Drops-cons : (b : ℕ) (before after : List ℕ) → Drops before after → Drops (b ∷ before) (b ∷ after)
Drops-cons b before after (inl e) = inl (ap (λ t. b ∷ t) e)
Drops-cons b before after (inr (a, xs, ys, e, f)) =
    inr (a, b ∷ xs, ys, ap (λ t. b ∷ t) e, ap (λ t. b ∷ t) f)

abbrev pub Skips : List Outreach → List Outreach → Type 0
Skips before after =
    Drops (pending before) (pending after) × (mailed after ≡ mailed before) × Settled after

pub mark_skipped-Skips :
    (i user : ℕ) (rows : List Outreach)
    → Ascending (λ q. q.id) rows
    → Settled rows
    → All (λ q. (q.id == i) ≡ true → is_sent q.status ≡ false) rows
    → Skips rows (update_outreach i (mark_skipped user) rows)
unfolding pending mailed update_outreach
mark_skipped-Skips i user [] a s u = (inl refl, refl, tt)
mark_skipped-Skips i user (r ∷ rows) a s u = elim (Bool-cases (r.id == i)) [
  | inl e ↦
      let same : i ≡ r.id = ground (arith, e) in
      let kept =
        update_outreach-Absent i (mark_skipped user) rows
          (subst (λ j. Absent j rows) (sym same) (Absent-later r.id rows a.0)) in
      rw (e, kept, u.0 e)
        (
          elim (Bool-cases (is_sendable r.status)) [
            | inl k ↦ rw k (inr (r.application_id, [], pending rows, refl, refl))
            | inr k ↦ rw k (inl refl)
          ],
          refl,
          ((λ h. ground (arith, h)), s.1),
        )
  | inr e ↦
      let rest = mark_skipped-Skips i user rows a.1 s.1 u.1 in
      let after = update_outreach i (mark_skipped user) rows in
      rw e (
        elim (Bool-cases (is_sendable r.status)) [
          | inl k ↦ rw k (Drops-cons r.application_id (pending rows) (pending after) rest.0)
          | inr k ↦ rw k rest.0
        ],
        ground (arith, rest.1),
        ((λ h. rest.1 ∙ s.0 h), rest.2),
      )
]
