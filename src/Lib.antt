-- ===== src/Lib.antt =====
-- The back end of Robia, a service that automates the work of an organization: it runs
-- automations, screens applications to programs, delivers notifications, and guards what is
-- executed or published with approvals. This library models the parts that decide and that keep
-- state, and proves what makes them correct.
--
-- The parts, the code that each models, and how they meet:
--
--   Prelude        names shared by all: Booleans and tests on numbers, lists, texts (white space,
--                  `trim`, the names that `Object.prototype` gives to every object).
--   Store          a table as the services use it through Prisma: find, conditional update with
--                  its count, create, with their documented behaviour as laws. Prisma and
--                  PostgreSQL are not in the repository, so the engine and the dispatcher take a
--                  table as a parameter; Store/Memory is one that satisfies the laws.
--   Conditions     src/ops-automation/condition-engine.ts. Tree: the data and the registry of
--                  fields. Validate: `validateConditionTree`, which returns, throws
--                  `InvalidConditionError` or ends in a `TypeError`. Evaluate:
--                  `evaluateConditions`. Meaning: what a condition says, apart from the code.
--   Automations    src/ops-automation/automations.service.ts with step-retry-policy.ts and
--                  actions/ops-actions-registry.service.ts. Policy and Claims: the conditions and
--                  data of each `updateMany` on a step run. Engine: `executeSteps`,
--                  `runStepsFrom`, `retryStep` and its two recovery paths, `approveRun` and
--                  `rejectRun` as programs over two tables, a clock and a supply of tokens.
--                  Interleavings: the same updates, and the calls of the action, as the steps of
--                  workers that race on one row and may crash. Inputs: automation-templating.ts,
--                  automation.types.ts and `canonicalizeInput`, from the stored JSON to the plan of
--                  a run. Start: `startRun` and `persistRun` over the same tables, which brings
--                  Conditions, Inputs and Engine together, and the events and calls that start a
--                  run.
--   Scheduler      src/ops-automation/automation-scheduler.service.ts. Claims: the queries and
--                  conditional updates on one automation. Instances: the same as the steps of
--                  instances that race and may stop. Pool: the loops of a tick.
--   Triggers       the triggers of automations in src/ops-automation/automations.service.ts: their
--                  validation, their timezone and the instant of the next run.
--   Odc            src/odc/odc-completeness.ts and src/odc/odc-applications.service.ts.
--                  Lifecycle: screening, submission, decision and withdrawal, with their guards,
--                  writes, history and events. Dossier: answers and documents. Scoring: the
--                  summary and the scores. History and Path: the state machine. Outreach:
--                  src/odc/odc-outreach.service.ts, the mails to the applicants of a program.
--   Storage        src/odc/storage and src/odc/odc-documents.service.ts. Keys and Filenames: the
--                  keys of stored files and the names in headers, on lists of code units. Files: a
--                  file system as a parameter. Upload: `upload` and `getFile` over a dossier of Odc
--                  and the files.
--   Notifications  src/notifications/notification-dispatcher.service.ts and `retry` of
--                  notifications.service.ts. Delivery: the conditional updates. Dispatcher:
--                  `processDueDelivery` over a table. Attempts: the updates as interleaved steps.
--                  Templates: notification-templates.ts, on lists of code units. Creation:
--                  `createEmailDelivery` of notifications.service.ts.
--   Opportunities  src/opportunities/opportunities.service.ts and `collectFindings` of
--                  src/intelligence/intelligence-registry.service.ts. Rows: the opportunities and
--                  the data by which they are told apart. Generation: the calls.
--   ActionItems    src/action-items/action-execution.service.ts: approval, rejection and the
--                  recording of executions.
--   Publication    src/content-studio/publication-policy.ts.
--
-- An automation runs the actions of Automations.Actions; three of them call operations of Odc, and
-- one enqueues a notification. Those calls are the parameter `execute` of the engine, which may
-- change the state as it likes. While the context of a start is built, other requests may do so
-- too.
--
-- Conventions. An instant is a number of milliseconds, an id or a claim token is a number. A JSON
-- value that the code only stores is kept as its text; one that it reads is a tree, whose objects
-- keep their fields in the order of writing. `undefined` and `null` are kept apart
-- where the code does. Points, weights and revisions are natural numbers: the columns are
-- integers and the data transfer objects refuse negative ones. The numbers of conditions are a
-- parameter, the numbers of JavaScript without NaN. The loop over the steps of a run is structural
-- recursion on the plan, and trees are walked by recursion on the tree. Only the digits of a
-- number are written with fuel, the successor of the number, which exceeds how many there are.
-- Odc.Outreach, Notifications.Creation and Opportunities keep their tables as lists in the order
-- of creation, with a supply of ids. Their requests run one after the other, as do those of
-- ActionItems and of Odc: these services read a row, check it and write it without a condition.
-- A failure of the database inside a statement is modelled where the services depend on it: a
-- missing row and a violated constraint. The redaction of messages, the transport, hashes and the
-- actions themselves are parameters; the dispatcher also takes the templates as one.
--
-- Not modelled: the integrations with remote services, authentication, billing, audits, documents
-- and the python service, which are storage, glue or calls of code outside the repository, or wait
-- for later work.
pub mod ActionItems
pub mod Automations
pub mod Conditions
pub mod Notifications
pub mod Odc
pub mod Opportunities
pub mod Prelude
pub mod Publication
pub mod Scheduler
pub mod Storage
pub mod Store
pub mod Triggers
