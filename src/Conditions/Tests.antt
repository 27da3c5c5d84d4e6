-- ===== src/Conditions/Tests.antt =====
-- Runs of src/ops-automation/condition-engine.ts on one tree and one context.
use robia_back.Prelude.{ℕ, ◌≡◌, ◌↔◌, ◌⊎◌, refl, true, false, Option, none, some, ltb, ◌==◌, arith}
use robia_back.Conditions.Tree.{
  Numbers, gte, exists, number, LeafValue, scalar, Node, leaf, group, undefined, nodes,
  undefined_child, nil, cons, Context, connected, disconnected, field_registry,
}
use robia_back.Conditions.Validate
use robia_back.Conditions.Validate.{validate, accepted}
use robia_back.Conditions.Evaluate
use robia_back.Conditions.Evaluate.{evaluate_conditions, value}
use robia_back.Conditions.Meaning.{Holds, IsValid}
use robia_back.Conditions.Validity.{validate_iff}
use robia_back.Conditions.Soundness.{evaluate_conditions-Decides}

abbrev pub natural : Option (LeafValue ℕ) → Option ℕ
natural (some (scalar (number n))) = some n
natural _ = none

pub ℕ_iff : (a b : ℕ) → ((a == b) ≡ true) ↔ (a ≡ b)
ℕ_iff a b = ground arith

abbrev pub naturals : Numbers ℕ
naturals = record {
  same = λ a b. a == b;
  less = ltb;
  to_number = natural;
  same_iff = ℕ_iff;
  to_number_number = λ a. refl;
}

abbrev pub context : Context ℕ
context = record {
  audit_age_days = some 12;
  audit_status = none;
  audit_global_score = some 71;
  search_console_status = connected;
  meta_status = disconnected;
  opportunity_count = 3;
  high_priority_count = 1;
  website_count = 1;
}

abbrev at_least_seven : Node ℕ
at_least_seven =
    leaf (record { field = "audit.ageDays"; operator = gte; value = some (scalar (number 7)) })

abbrev has_status : Node ℕ
has_status = leaf (record { field = "audit.status"; operator = exists; value = none })

abbrev old_audit : Node ℕ
old_audit = group undefined (nodes (cons has_status (cons at_least_seven nil))) undefined_child

old_audit-accepted : validate old_audit 0 ≡ accepted
unfolding validate field_registry Validate.has_type
old_audit-accepted = refl

old_audit-value : evaluate_conditions naturals (some old_audit) context ≡ value true
unfolding evaluate_conditions Evaluate.evaluate field_registry Evaluate.compare_leaf
    Evaluate.relates
old_audit-value = refl

validate_iff_example : (validate old_audit 0 ≡ accepted) ↔ IsValid 0 old_audit
validate_iff_example = validate_iff old_audit 0

evaluate_conditions-Decides_example :
    ((evaluate_conditions naturals (some old_audit) context ≡ value true)
      × Holds naturals context old_audit)
    ⊎ ((evaluate_conditions naturals (some old_audit) context ≡ value false)
        × (¬ Holds naturals context old_audit))
evaluate_conditions-Decides_example =
    evaluate_conditions-Decides naturals old_audit context old_audit-accepted

-- A name that every object inherits is no unknown field: its check and its evaluation both throw.
abbrev inherited : Node ℕ
inherited = leaf (record { field = "constructor"; operator = gte; value = none })

inherited-validate : validate inherited 0 ≡ Validate.type_error
unfolding validate field_registry
inherited-validate = refl

inherited-evaluate : evaluate_conditions naturals (some inherited) context ≡ Evaluate.type_error
unfolding evaluate_conditions Evaluate.evaluate field_registry
inherited-evaluate = refl
