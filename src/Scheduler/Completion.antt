-- ===== src/Scheduler/Completion.antt =====
-- The pool of src/ops-automation/automation-scheduler.service.ts handles each item once, never more
-- than its bound at a time, and ends.
use robia_back.Prelude.{
  ℕ, zero, suc, ◌+◌, ◌≤◌, ◌<◌, ◌≡◌, refl, ap, inl, inr, ltb, ◌==◌, some, List, [], ◌∷◌, length,
  if◌then◌else◌, arith, Option-cases,
}
use robia_back.Scheduler.Pool.{Pool, take_next, launch, min, start, pick, complete, run}

-- How often an item occurs.
abbrev pub count : ℕ → List ℕ → ℕ
count i [] = 0
count i (j ∷ js) = (if j == i then 1 else 0) + count i js

pub record IsPool (items bound : ℕ) (p : Pool) : Type 0 where
  pub once : (i : ℕ) → count i p.in_flight + count i p.finished ≡ (if ltb i p.cursor then 1 else 0)
  pub bounded : length p.in_flight ≤ bound
  pub in_range : p.cursor ≤ items
  pub total : length p.in_flight + length p.finished ≡ p.cursor
  pub busy : p.cursor < items → length p.in_flight ≡ bound

-- While the loops are launched.
record IsLaunch (items : ℕ) (p : Pool) : Type 0 where
  once : (i : ℕ) → count i p.in_flight ≡ (if ltb i p.cursor then 1 else 0)
  none_finished : p.finished ≡ []
  taken : length p.in_flight ≡ p.cursor
  in_range : p.cursor ≤ items

take_next-IsLaunch :
    (items : ℕ) (p : Pool)
    → p.cursor < items
    → IsLaunch items p
    → IsLaunch items (take_next items p) × ((take_next items p).cursor ≡ p.cursor + 1)
unfolding take_next
take_next-IsLaunch items p l h = (
  record {
    once = λ i. ground (arith, h.once i);
    none_finished = ground (arith, h.none_finished);
    taken = ground (arith, h.taken);
    in_range = ground arith;
  },
  ground arith,
)

launch-IsLaunch :
    (items workers : ℕ) (p : Pool)
    → p.cursor + workers ≤ items
    → IsLaunch items p
    → IsLaunch items (launch items workers p)
      × ((launch items workers p).cursor ≡ p.cursor + workers)
unfolding launch
launch-IsLaunch items zero p l h = (h, omega arith)
launch-IsLaunch items (suc workers) p l h =
    let t = take_next-IsLaunch items p (omega arith) h in
    let u = launch-IsLaunch items workers (take_next items p) (omega (arith, l, t.1)) t.0 in
    (u.0, omega (arith, u.1, t.1))

start-IsPool : (items bound : ℕ) → IsPool items bound (start items bound)
unfolding start
start-IsPool items bound =
    let idle : Pool = record { cursor = 0; in_flight = []; finished = [] } in
    let e = launch-IsLaunch items (min bound items) idle (ground arith) (record {
      once = λ i. ground arith;
      none_finished = refl;
      taken = refl;
      in_range = omega arith;
    }) in
    record {
      once = λ i. ground (arith, e.0.once i, e.0.none_finished, ap (count i) e.0.none_finished);
      bounded = ground (arith, e.0.taken, e.1);
      in_range = e.0.in_range;
      total = ground (arith, e.0.taken, ap length e.0.none_finished);
      busy = λ h. ground (arith, e.0.taken, e.1, h);
    }

pick-length :
    (k : ℕ) (is : List ℕ) (i : ℕ) (others : List ℕ)
    → pick k is ≡ some (i, others)
    → length is ≡ suc (length others)
unfolding pick
pick-length k [] i others h = ground arith
pick-length zero (j ∷ js) i others h = ground arith
pick-length (suc k) (j ∷ js) i others h = elim (Option-cases (pick k js)) [
  | inl e ↦ absurd (ground (arith, e))
  | inr (p, e) ↦ ground (arith, e, pick-length k js p.0 p.1 e)
]

pick-count :
    (k : ℕ) (is : List ℕ) (i : ℕ) (others : List ℕ) (j : ℕ)
    → pick k is ≡ some (i, others)
    → count j is ≡ (if i == j then 1 else 0) + count j others
unfolding pick
pick-count k [] i others n h = ground arith
pick-count zero (j ∷ js) i others n h = ground arith
pick-count (suc k) (j ∷ js) i others n h = elim (Option-cases (pick k js)) [
  | inl e ↦ absurd (ground (arith, e))
  | inr (p, e) ↦ ground (arith, e, pick-count k js p.0 p.1 n e)
]

pick-some :
    (k : ℕ) (is : List ℕ)
    → k < length is
    → (i : ℕ) × (others : List ℕ) × (pick k is ≡ some (i, others))
unfolding pick
pick-some k [] h = absurd (omega arith)
pick-some zero (j ∷ js) h = (j, js, refl)
pick-some (suc k) (j ∷ js) h =
    let p = pick-some k js (omega arith) in (p.0, j ∷ p.1, rw (pick, p.2) refl)

-- The pool without an item that is done, before its loop looks for the next one.
abbrev without : Pool → ℕ → List ℕ → Pool
without p i others = record p { in_flight = others; finished = i ∷ p.finished }

take_next-IsPool :
    (items bound : ℕ) (p : Pool) (k i : ℕ) (others : List ℕ)
    → IsPool items bound p
    → pick k p.in_flight ≡ some (i, others)
    → IsPool items bound (take_next items (without p i others))
unfolding take_next
take_next-IsPool items bound p k i others h e =
    let l = pick-length k p.in_flight i others e in
    record {
      once = λ j. ground (arith, h.once j, pick-count k p.in_flight i others j e);
      bounded = ground (arith, h.bounded, h.busy, l);
      in_range = ground (arith, h.in_range);
      total = ground (arith, h.total, l);
      busy = λ b. ground (arith, h.busy, l, b);
    }

complete-IsPool :
    (items bound k : ℕ) (p : Pool) → IsPool items bound p → IsPool items bound (complete items k p)
unfolding complete
complete-IsPool items bound k p h = elim (Option-cases (pick k p.in_flight)) [
  | inl e ↦ rw (complete, e) h
  | inr (q, e) ↦ rw (complete, e) (take_next-IsPool items bound p k q.0 q.1 h e)
]

run-IsPool :
    (items bound : ℕ) (ks : List ℕ) (p : Pool)
    → IsPool items bound p
    → IsPool items bound (run items ks p)
unfolding run
run-IsPool items bound [] p h = h
run-IsPool items bound (k ∷ ks) p h =
    run-IsPool items bound ks (complete items k p) (complete-IsPool items bound k p h)

complete_progress :
    (items k : ℕ) (p : Pool)
    → k < length p.in_flight
    → length (complete items k p).finished ≡ suc (length p.finished)
unfolding complete take_next
complete_progress items k p h = let q = pick-some k p.in_flight h in ground (arith, q.2)

-- A pool with at least one loop ends, whatever the order in which the items are done: never more of
-- them than the bound are in flight; every completion of an item in flight adds one to the items
-- done, of which there are never more than items; as long as one is not done, one is in flight; and
-- when none is in flight, every item is done exactly once.
pub run_ends :
    (items bound : ℕ) (ks : List ℕ)
    → 0 < bound
    → let p = run items ks (start items bound) in
      (length p.in_flight ≤ bound)
      × ((k : ℕ)
          → k < length p.in_flight
          → length (complete items k p).finished ≡ suc (length p.finished))
      × (length p.finished ≤ items)
      × (length p.finished < items → 0 < length p.in_flight)
      × (p.in_flight ≡ [] → (i : ℕ) → i < items → count i p.finished ≡ 1)
run_ends items bound ks pos =
    let p : Pool = run items ks (start items bound) in
    let h = run-IsPool items bound ks _ (start-IsPool items bound) in
    (
      h.bounded,
      (λ k l. complete_progress items k p l),
      omega (arith, h.total, h.in_range),
      (λ l. ground (arith, h.total, h.in_range, h.busy)),
      (λ e i l. ground (arith, e, ap length e, ap (count i) e, h.once i, h.busy, h.in_range)),
    )
