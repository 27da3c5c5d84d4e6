-- ===== src/Automations/Start/Memory.antt =====
-- A table of runs in memory with its two unique indexes, which shows that the laws of an index can
-- hold.
use robia_back.Prelude.{
  ℕ, zero, suc, ◌≡◌, ◌≢◌, Bool, true, false, ◌&&◌, ◌||◌, String, Option, none, some, ◌==◌, str_eq,
  eq_iff, if◌then◌else◌, arith, Bool-cases, Option-cases, subst, inl, inr,
}
use robia_back.Store.{Table}
use robia_back.Store.Memory
use robia_back.Store.Memory.{memory, set_row}
use robia_back.Automations.Rows.{Run}
use robia_back.Automations.Start.Index.{RunIndex, is_active}

abbrev pub Runs : Type 0
Runs = ℕ × (ℕ → Option Run)

abbrev pub passes : (Run → Bool) → Option Run → Bool
passes p none = false
passes p (some r) = p r

-- The last row below a number that passes a test.
unfoldable pub scan : (Run → Bool) → (ℕ → Option Run) → ℕ → Option ℕ
scan p rows zero = none
scan p rows (suc n) = let rest = scan p rows n in if passes p (rows n) then some n else rest

abbrev pub has_key : ℕ → String → Run → Bool
has_key o k r = r.organization_id == o && str_eq r.dedup_key k

abbrev pub is_active_of : ℕ → Run → Bool
is_active_of a r = r.automation_id == a && is_active r.status

unfoldable pub key_index : ℕ → String → Runs → Option ℕ
unfolding scan
key_index o k d = scan (has_key o k) d.1 d.0

unfoldable pub active_index : ℕ → Runs → Option ℕ
unfolding scan
active_index a d = scan (is_active_of a) d.1 d.0

abbrev pub is_some : Option ℕ → Bool
is_some none = false
is_some (some _) = true

abbrev pub is_blocked : Run → Runs → Bool
is_blocked r d =
    is_some (key_index r.organization_id r.dedup_key d)
    || is_active r.status && is_some (active_index r.automation_id d)

abbrev pub create_unique : Run → Runs → Option (ℕ × Runs)
create_unique r d = if is_blocked r d then none else (memory Run).create r d

module _ (r : Run) (d : Runs) (i : ℕ) (d' : Runs) (h : create_unique r d ≡ some (i, d')) where
  created : (memory Run).create r d ≡ some (i, d')
  created = elim (Bool-cases (is_blocked r d)) [
    | inl e ↦ absurd (ground (arith, e))
    | inr e ↦ ground (arith, e)
  ]

  unblocked : is_blocked r d ≡ false
  unblocked = elim (Bool-cases (is_blocked r d)) [ inl e ↦ absurd (ground (arith, e)) | inr e ↦ e ]

  pub unique_fresh : d.1 i ≡ none
  unique_fresh = Memory.created_fresh r d i d' created

  pub unique_find : d'.1 i ≡ some r
  unique_find = Memory.find_created r d i d' created

  pub unique_find_ne : (j : ℕ) → i ≢ j → d'.1 j ≡ d.1 j
  unique_find_ne j n = Memory.find_created_ne r d i j d' created n

  pub unique_key : key_index r.organization_id r.dedup_key d ≡ none
  unique_key = ground (arith, unblocked)

  pub unique_active : is_active r.status ≡ true → active_index r.automation_id d ≡ none
  unique_active a = ground (arith, unblocked)

  pub unique_created : key_index r.organization_id r.dedup_key d' ≡ some i
  unfolding key_index scan
  unique_created = ground (arith, created, eq_iff r.dedup_key r.dedup_key)

abbrev pub unique_memory : Table Run
unique_memory = record (memory Run) {
  create = create_unique;
  create_fresh = unique_fresh;
  find-create = unique_find;
  find-create_ne = λ r d i j d' h n. unique_find_ne r d i d' h j n;
}

scan_sound :
    (p : Run → Bool) (rows : ℕ → Option Run) (n i : ℕ)
    → scan p rows n ≡ some i
    → (r : Run) × (rows i ≡ some r) × (p r ≡ true)
unfolding scan
scan_sound p rows zero i h = ground arith
scan_sound p rows (suc n) i h = elim (Option-cases (rows n)) [
  | inl e ↦ scan_sound p rows n i (ground (arith, e))
  | inr (r, e) ↦ elim (Bool-cases (p r)) [
    | inl f ↦ let same : n ≡ i = ground (arith, e, f) in (r, subst (λ j. rows j ≡ some r) same e, f)
    | inr f ↦ scan_sound p rows n i (ground (arith, e, f))
  ]
]

pub key_found :
    (o : ℕ) (k : String) (d : Runs) (i : ℕ)
    → key_index o k d ≡ some i
    → (r : Run) × (d.1 i ≡ some r) × (r.organization_id ≡ o) × (r.dedup_key ≡ k)
unfolding key_index
key_found o k d i h =
    let p = scan_sound (has_key o k) d.1 d.0 i h in
    (p.0, p.1, ground (arith, p.2), ground (arith, p.2, eq_iff p.0.dedup_key k))

pub active_found :
    (a : ℕ) (d : Runs) (i : ℕ)
    → active_index a d ≡ some i
    → (r : Run) × (d.1 i ≡ some r) × (r.automation_id ≡ a) × (is_active r.status ≡ true)
unfolding active_index
active_found a d i h =
    let p = scan_sound (is_active_of a) d.1 d.0 i h in
    (p.0, p.1, ground (arith, p.2), ground (arith, p.2))

abbrev pub memory_index : RunIndex unique_memory
memory_index = record {
  by_key = key_index;
  active = active_index;
  by_key-find = key_found;
  active-find = active_found;
  active-create = unique_active;
  by_key-create = unique_key;
  by_key-created = unique_created;
}
