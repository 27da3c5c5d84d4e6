-- ===== src/Store/Memory.antt =====
-- A table in memory, which shows that the laws of a table can hold.
use robia_back.Prelude.{ℕ, suc, ◌≡◌, ◌≢◌, Bool, Option, none, some, ◌==◌, if◌then◌else◌, arith}
use robia_back.Store.{Table, updated, matched}

abbrev pub set_row : {Row : Type 0} → ℕ → Row → (ℕ → Option Row) → ℕ → Option Row
set_row i r rows j = if i == j then some r else rows j

abbrev Rows : Type 0 → Type 0
Rows Row = ℕ × (ℕ → Option Row)

abbrev update_row : {Row : Type 0} → ℕ → (Row → Bool) → (Row → Row) → Rows Row → Rows Row × ℕ
update_row i p f d = elim (d.1 i) [
  | none ↦ (d, 0)
  | some r ↦ if p r then ((d.0, set_row i (f r) d.1), 1) else (d, 0)
]

abbrev create_row : {Row : Type 0} → Row → Rows Row → Option (ℕ × Rows Row)
create_row r d = elim (d.1 d.0) [ none ↦ some (d.0, (suc d.0, set_row d.0 r d.1)) | some _ ↦ none ]

module _ {Row : Type 0} where
  pub find_updated :
      (i : ℕ) (p : Row → Bool) (f : Row → Row) (d : Rows Row)
      → (update_row i p f d).0.1 i ≡ updated p f (d.1 i)
  find_updated i p f d = ground arith

  pub find_other :
      (i j : ℕ) (p : Row → Bool) (f : Row → Row) (d : Rows Row)
      → i ≢ j
      → (update_row i p f d).0.1 j ≡ d.1 j
  find_other i j p f d h = ground arith

  pub count_updated :
      (i : ℕ) (p : Row → Bool) (f : Row → Row) (d : Rows Row)
      → (update_row i p f d).1 ≡ matched p (d.1 i)
  count_updated i p f d = ground arith

  pub unmatched :
      (i : ℕ) (p : Row → Bool) (f : Row → Row) (d : Rows Row)
      → matched p (d.1 i) ≡ 0
      → (update_row i p f d).0 ≡ d
  unmatched i p f d h = ground arith

  pub created_fresh :
      (r : Row) (d : Rows Row) (i : ℕ) (d' : Rows Row)
      → create_row r d ≡ some (i, d')
      → d.1 i ≡ none
  created_fresh r d i d' h = ground arith

  pub find_created :
      (r : Row) (d : Rows Row) (i : ℕ) (d' : Rows Row)
      → create_row r d ≡ some (i, d')
      → d'.1 i ≡ some r
  find_created r d i d' h = ground arith

  pub find_created_ne :
      (r : Row) (d : Rows Row) (i j : ℕ) (d' : Rows Row)
      → create_row r d ≡ some (i, d')
      → i ≢ j
      → d'.1 j ≡ d.1 j
  find_created_ne r d i j d' h n = ground arith

abbrev pub memory : (Row : Type 0) → Table Row
memory Row = record {
  Db = Rows Row;
  find = λ i d. d.1 i;
  update_many = update_row;
  create = create_row;
  find-update_many = find_updated;
  find-update_many_ne = find_other;
  count-update_many = count_updated;
  update_many_unmatched = unmatched;
  create_fresh = created_fresh;
  find-create = find_created;
  find-create_ne = find_created_ne;
}
