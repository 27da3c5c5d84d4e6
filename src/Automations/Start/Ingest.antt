-- ===== src/Automations/Start/Ingest.antt =====
-- `emitEvent`, `getOrCreateEvent`, `triggerManual` and `triggerScheduled` of
-- src/ops-automation/automations.service.ts: the events, and what starts a run.
use Prim.Native.String
use robia_back.Prelude.{
  ℕ, ◌≡◌, subst, String, Option, none, some, List, [], ◌∷◌, arith, Option-cases, inl, inr,
}
use robia_back.Store.{Table}
use robia_back.Conditions.Tree.{Numbers}
use robia_back.Automations.Rows.{Run, StepRun, TriggerKind}
use robia_back.Automations.Inputs.Json.{Fields}
use robia_back.Automations.Engine.World.{
  Outside, M, ◌>>=◌, pure, returned, raised, Result, constraint_violated,
}
use robia_back.Automations.Start.Index.{RunIndex}
use robia_back.Automations.Start.Create
use robia_back.Automations.Start.Create.{Automation, StartRunOptions, Surroundings}

-- The row of `automation_events`.
pub record Event : Type 0 where
  pub organization_id : ℕ
  pub event_type : String
  pub event_key : String
  pub payload : Option Fields

-- The search by the unique columns, as `findUnique` makes it, and their uniqueness.
pub record EventIndex (E : Table Event) : Type 0 where
  pub by_key : ℕ → String → String → E.Db → Option ℕ
  pub by_key-find :
      (o : ℕ) (t k : String) (d : E.Db) (i : ℕ)
      → by_key o t k d ≡ some i
      → (e : Event) × (E.find i d ≡ some e)
        × (e.organization_id ≡ o)
        × (e.event_type ≡ t)
        × (e.event_key ≡ k)
  pub by_key-created :
      (e : Event) (d : E.Db) (i : ℕ) (d' : E.Db)
      → E.create e d ≡ some (i, d')
      → by_key e.organization_id e.event_type e.event_key d' ≡ some i

module _ (E : Table Event) (events : EventIndex E) (redact_payload : Fields → Fields) where
  unfoldable pub event_of_key : ℕ → String → String → E.Db → Option (ℕ × Event)
  event_of_key o t k d = elim (events.by_key o t k d) [
    | none ↦ none
    | some i ↦ elim (E.find i d) [ none ↦ none | some e ↦ some (i, e) ]
  ]

  abbrev pub redacted : Option Fields → Option Fields
  redacted none = none
  redacted (some payload) = some (redact_payload payload)

  unfoldable pub new_event : ℕ → String → String → Option Fields → Event
  new_event o t k payload = record {
    organization_id = o;
    event_type = t;
    event_key = k;
    payload = redacted payload;
  }

  -- `meanwhile` is what other requests do between the search and the creation.
  unfoldable pub get_or_create_event :
      (E.Db → E.Db) → ℕ → String → String → Option Fields → E.Db → E.Db × Result (ℕ × Event)
  unfolding event_of_key new_event
  get_or_create_event meanwhile o t k payload d = elim (event_of_key o t k d) [
    | some existing ↦ (d, returned existing)
    | none ↦
        let d1 = meanwhile d in
        elim (E.create (new_event o t k payload) d1) [
          | some (i, d2) ↦ (d2, returned (i, new_event o t k payload))
          | none ↦ elim (event_of_key o t k d1) [
            | some raced ↦ (d1, returned raced)
            | none ↦ (d1, raised constraint_violated)
          ]
        ]
  ]

  created_event :
      (o : ℕ) (t k : String) (payload : Option Fields) (d : E.Db) (i : ℕ) (d' : E.Db)
      → E.create (new_event o t k payload) d ≡ some (i, d')
      → event_of_key o t k d' ≡ some (i, new_event o t k payload)
  unfolding event_of_key new_event
  created_event o t k payload d i d' h = ground (
    arith,
    events.by_key-created (new_event o t k payload) d i d' h,
    E.find-create (new_event o t k payload) d i d' h,
  )

  -- What is returned is the event of the key.
  abbrev IsEventOf : ℕ → String → String → E.Db × Result (ℕ × Event) → Type 0
  IsEventOf o t k (d, raised e) = Unit
  IsEventOf o t k (d, returned r) = event_of_key o t k d ≡ some r

  get_or_create_event-IsEventOf :
      (meanwhile : E.Db → E.Db) (o : ℕ) (t k : String) (payload : Option Fields) (d : E.Db)
      → IsEventOf o t k (get_or_create_event meanwhile o t k payload d)
  unfolding get_or_create_event
  get_or_create_event-IsEventOf meanwhile o t k payload d =
      let d1 = meanwhile d in
      let result = get_or_create_event meanwhile o t k payload d in
      let kept = IsEventOf o t k in
      elim (Option-cases (event_of_key o t k d)) [
        | inr (x, e) ↦ let done : (d, returned x) ≡ result = ground (arith, e) in subst kept done e
        | inl e ↦ elim (Option-cases (E.create (new_event o t k payload) d1)) [
          | inr (p, f) ↦
              let done : (p.1, returned (p.0, new_event o t k payload)) ≡ result =
                ground (arith, e, f) in
              subst kept done (created_event o t k payload d1 p.0 p.1 f)
          | inl f ↦ elim (Option-cases (event_of_key o t k d1)) [
            | inr (x, g) ↦
                let done : (d1, returned x) ≡ result = ground (arith, e, f, g) in subst kept done g
            | inl g ↦
                let done : (d1, raised constraint_violated) ≡ result = ground (arith, e, f, g) in
                subst kept done tt
          ]
        ]
      ]

  -- A second emission, with whatever payload, returns the event of the first and changes nothing.
  get_or_create_event-again :
      (meanwhile later : E.Db → E.Db) (o : ℕ) (t k : String) (payload again : Option Fields)
      (d d' : E.Db) (r : ℕ × Event)
      → get_or_create_event meanwhile o t k payload d ≡ (d', returned r)
      → get_or_create_event later o t k again d' ≡ (d', returned r)
  unfolding get_or_create_event
  get_or_create_event-again meanwhile later o t k payload again d d' r h =
      let found =
        subst (IsEventOf o t k) h (get_or_create_event-IsEventOf meanwhile o t k payload d) in
      ground (arith, found)

module _ {Num : Type 0} {S : Table StepRun} {R : Table Run} (num : Numbers Num) (index : RunIndex R)
    (out : Outside S R) (around : Surroundings Num S R) (print_id : ℕ → String)
    (print_instant : ℕ → String) where
  unfoldable pub event_options : ℕ → Automation Num → StartRunOptions
  event_options event automation = record {
    trigger_type = TriggerKind.event;
    dedup_key =
        String.◌++◌ "automation:"
          (String.◌++◌ (print_id automation.id) (String.◌++◌ ":event:" (print_id event)));
    triggered_by = none;
    source_event_id = some event;
    trigger_depth = 0;
  }

  -- The loop of `emitEvent` over the automations that listen; what one start throws ends it.
  unfoldable pub start_all : ℕ → List (Automation Num) → M S R (List Run)
  unfolding event_options
  start_all event [] = pure []
  start_all event (automation ∷ automations) = do
    run ← Create.start_run num index out around automation (event_options event automation)
    runs ← start_all event automations
    pure (run ∷ runs)

  -- The key of a manual start is a fresh UUID, that of a scheduled one its occurrence.
  unfoldable pub trigger_manual : ℕ → String → Automation Num → M S R Run
  trigger_manual user uuid automation = Create.start_run num index out around automation (record {
    trigger_type = TriggerKind.manual;
    dedup_key = String.◌++◌ "manual:" uuid;
    triggered_by = some user;
    source_event_id = none;
    trigger_depth = 0;
  })

  unfoldable pub trigger_scheduled : Automation Num → ℕ → M S R Run
  trigger_scheduled automation scheduled_for =
      Create.start_run num index out around automation (record {
        trigger_type = TriggerKind.scheduled;
        dedup_key = String.◌++◌ "automation:" (
            String.◌++◌ (print_id automation.id)
              (String.◌++◌ ":scheduled:" (print_instant scheduled_for)));
        triggered_by = none;
        source_event_id = none;
        trigger_depth = 0;
      })
