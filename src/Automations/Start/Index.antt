-- ===== src/Automations/Start/Index.antt =====
-- How `automation_runs` is searched by other columns than its id, and its two unique indexes
-- (prisma/schema.prisma and the migration rc20_snapshot_and_concurrency_guards): a key once in an
-- organization, and one active run of an automation.
use robia_back.Prelude.{ℕ, ◌≡◌, Bool, true, false, String, Option, none, some}
use robia_back.Store.{Table}
use robia_back.Automations.Rows.{Run, RunStatus, queued, running, waiting_approval}

-- `ACTIVE_RUN_STATUSES`
abbrev pub is_active : RunStatus → Bool
is_active queued = true
is_active running = true
is_active waiting_approval = true
is_active _ = false

pub record RunIndex (R : Table Run) : Type 0 where
  -- `findUnique({ where: { organizationId_dedupKey } })`
  pub by_key : ℕ → String → R.Db → Option ℕ
  -- `findFirst({ where: { automationId, status: { in: ACTIVE_RUN_STATUSES } } })`
  pub active : ℕ → R.Db → Option ℕ
  pub by_key-find :
      (o : ℕ) (k : String) (d : R.Db) (i : ℕ)
      → by_key o k d ≡ some i
      → (r : Run) × (R.find i d ≡ some r) × (r.organization_id ≡ o) × (r.dedup_key ≡ k)
  pub active-find :
      (a : ℕ) (d : R.Db) (i : ℕ)
      → active a d ≡ some i
      → (r : Run) × (R.find i d ≡ some r) × (r.automation_id ≡ a) × (is_active r.status ≡ true)
  pub active-create :
      (r : Run) (d : R.Db) (i : ℕ) (d' : R.Db)
      → R.create r d ≡ some (i, d')
      → is_active r.status ≡ true
      → active r.automation_id d ≡ none
  pub by_key-create :
      (r : Run) (d : R.Db) (i : ℕ) (d' : R.Db)
      → R.create r d ≡ some (i, d')
      → by_key r.organization_id r.dedup_key d ≡ none
  pub by_key-created :
      (r : Run) (d : R.Db) (i : ℕ) (d' : R.Db)
      → R.create r d ≡ some (i, d')
      → by_key r.organization_id r.dedup_key d' ≡ some i
