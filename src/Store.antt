-- ===== src/Store.antt =====
-- The database as the services use it through Prisma (src/prisma/prisma.service.ts): a table of
-- rows under ids, each statement atomic. Prisma and PostgreSQL are not part of the repository, so
-- a table is a parameter, with the documented behaviour of its statements as laws.
pub mod Memory
use robia_back.Prelude.{ℕ, ◌≡◌, ◌≢◌, Bool, true, false, Option, none, some, if◌then◌else◌}

-- The row after `updateMany({ where, data })` on its id, and the count that the call returns.
abbrev pub updated : {Row : Type 0} → (Row → Bool) → (Row → Row) → Option Row → Option Row
updated where_ data_ none = none
updated where_ data_ (some r) = some (if where_ r then data_ r else r)

abbrev pub matched : {Row : Type 0} → (Row → Bool) → Option Row → ℕ
matched where_ none = 0
matched where_ (some r) = if where_ r then 1 else 0

pub record Table (Row : Type 0) : Type 1 where
  pub Db : Type 0
  -- `findFirst`/`findUnique({ where: { id } })`
  pub find : ℕ → Db → Option Row
  -- `updateMany({ where: { id, ...where }, data })` and its count
  pub update_many : ℕ → (Row → Bool) → (Row → Row) → Db → Db × ℕ
  -- `create({ data })`, the new id with it; `none` is a violated constraint, which throws
  pub create : Row → Db → Option (ℕ × Db)
  pub find-update_many :
      (i : ℕ) (p : Row → Bool) (f : Row → Row) (d : Db)
      → find i (update_many i p f d).0 ≡ updated p f (find i d)
  pub find-update_many_ne :
      (i j : ℕ) (p : Row → Bool) (f : Row → Row) (d : Db)
      → i ≢ j
      → find j (update_many i p f d).0 ≡ find j d
  pub count-update_many :
      (i : ℕ) (p : Row → Bool) (f : Row → Row) (d : Db)
      → (update_many i p f d).1 ≡ matched p (find i d)
  pub update_many_unmatched :
      (i : ℕ) (p : Row → Bool) (f : Row → Row) (d : Db)
      → matched p (find i d) ≡ 0
      → (update_many i p f d).0 ≡ d
  pub create_fresh :
      (r : Row) (d : Db) (i : ℕ) (d' : Db) → create r d ≡ some (i, d') → find i d ≡ none
  pub find-create :
      (r : Row) (d : Db) (i : ℕ) (d' : Db) → create r d ≡ some (i, d') → find i d' ≡ some r
  pub find-create_ne :
      (r : Row) (d : Db) (i j : ℕ) (d' : Db)
      → create r d ≡ some (i, d')
      → i ≢ j
      → find j d' ≡ find j d
