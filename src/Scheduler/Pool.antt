-- ===== src/Scheduler/Pool.antt =====
-- `runWithBoundedConcurrency` of src/ops-automation/automation-scheduler.service.ts: a pool of loops
-- that take the next item off a shared cursor. Between two waits a loop is not interrupted, so a
-- run of the pool is the list of its completions, each named by its place among the items in
-- flight. A worker does not throw: `runDueAutomations` catches what an item throws.
use robia_back.Prelude.{
  ℕ, zero, suc, ◌+◌, ltb, leb, Option, none, some, List, [], ◌∷◌, if◌then◌else◌,
}

abbrev pub scheduler_max_concurrency : ℕ
scheduler_max_concurrency = 5

abbrev pub scheduler_max_batch_size : ℕ
scheduler_max_batch_size = 50

-- The items are numbered from 0; the latest finished stands first.
pub record Pool : Type 0 where
  pub cursor : ℕ
  pub in_flight : List ℕ
  pub finished : List ℕ

-- A loop looks for its next item: `while (cursor < items.length)`.
unfoldable pub take_next : ℕ → Pool → Pool
take_next items p =
    if ltb p.cursor items
    then record p { cursor = p.cursor + 1; in_flight = p.cursor ∷ p.in_flight }
    else p

-- `Array.from({ length: workerCount }, ...)` starts one loop after the other.
unfoldable pub launch : ℕ → ℕ → Pool → Pool
unfolding take_next
launch items zero p = p
launch items (suc workers) p = launch items workers (take_next items p)

-- `Math.min`
abbrev pub min : ℕ → ℕ → ℕ
min a b = if leb a b then a else b

unfoldable pub start : ℕ → ℕ → Pool
unfolding launch
start items concurrency =
    launch items (min concurrency items) (record { cursor = 0; in_flight = []; finished = [] })

-- The item at a place, and the others.
unfoldable pub pick : ℕ → List ℕ → Option (ℕ × List ℕ)
pick k [] = none
pick zero (i ∷ is) = some (i, is)
pick (suc k) (i ∷ is) = elim (pick k is) [ none ↦ none | some (j, js) ↦ some (j, i ∷ js) ]

-- The worker of an item in flight is done, and its loop looks for the next item.
unfoldable pub complete : ℕ → ℕ → Pool → Pool
unfolding take_next pick
complete items k p = elim (pick k p.in_flight) [
  | none ↦ p
  | some (i, others) ↦ take_next items (record p { in_flight = others; finished = i ∷ p.finished })
]

unfoldable pub run : ℕ → List ℕ → Pool → Pool
unfolding complete
run items [] p = p
run items (k ∷ ks) p = run items ks (complete items k p)
