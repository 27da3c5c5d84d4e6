-- ===== src/Conditions/Tree.antt =====
-- The data of src/ops-automation/condition-engine.ts: values, operators, trees, the context that
-- a condition reads, and the registry of fields.
use robia_back.Prelude.{
  inherited_names, String, ◌≡◌, ◌↔◌, Bool, true, Option, none, some, List, any, str_eq,
  if◌then◌else◌,
}

-- `ConditionValueType`
pub data ValueType : Type 0 where
  number_type string_type boolean_type : ValueType

-- `ComparisonOperator`
pub data Operator : Type 0 where
  eq ne gt gte lt lte in_list not_in exists not_exists : Operator

pub data Scalar (Num : Type 0) : Type 0 where
  number : Num → Scalar Num
  string : String → Scalar Num
  boolean : Bool → Scalar Num

-- `ConditionLeafValue`
pub data LeafValue (Num : Type 0) : Type 0 where
  scalar : Scalar Num → LeafValue Num
  array : List (Scalar Num) → LeafValue Num

-- The language's numbers, less NaN, which JSON cannot carry: `===`, `<`, and the number that a
-- relational operator reads in its right operand (`none` is NaN).
pub record Numbers (Num : Type 0) : Type 0 where
  pub same : Num → Num → Bool
  pub less : Num → Num → Bool
  pub to_number : Option (LeafValue Num) → Option Num
  pub same_iff : (a b : Num) → (same a b ≡ true) ↔ (a ≡ b)
  pub to_number_number : (a : Num) → to_number (some (scalar (number a))) ≡ some a

-- `ConditionLeaf`; `none` is `undefined`.
pub record Leaf (Num : Type 0) : Type 0 where
  pub field : String
  pub operator : Operator
  pub value : Option (LeafValue Num)

-- `ConditionNode`; a group has its three keys `all`, `any` and `not`, each of which may be
-- `undefined` or the `null` of JSON.
mutual
  pub data Node (Num : Type 0) : Type 0 where
    leaf : Leaf Num → Node Num
    group : Children Num → Children Num → Child Num → Node Num

  pub data Children (Num : Type 0) : Type 0 where
    undefined : Children Num
    null : Children Num
    nodes : Nodes Num → Children Num

  pub data Child (Num : Type 0) : Type 0 where
    undefined_child : Child Num
    null_child : Child Num
    child : Node Num → Child Num

  pub data Nodes (Num : Type 0) : Type 0 where
    nil : Nodes Num
    cons : Node Num → Nodes Num → Nodes Num

-- `AutomationConditionContext`
pub data ConnectionStatus : Type 0 where
  connected disconnected : ConnectionStatus

pub record Context (Num : Type 0) : Type 0 where
  pub audit_age_days : Option Num
  pub audit_status : Option String
  pub audit_global_score : Option Num
  pub search_console_status : ConnectionStatus
  pub meta_status : ConnectionStatus
  pub opportunity_count : Num
  pub high_priority_count : Num
  pub website_count : Num

-- The keys of `FIELD_REGISTRY`.
pub data Field : Type 0 where
  audit_age_days audit_status audit_global_score search_console_status meta_status : Field
  opportunity_count high_priority_count website_count : Field

-- What `FIELD_REGISTRY[name]` gives: an entry, a member that every object inherits from
-- `Object.prototype`, or `undefined`.
pub data Entry : Type 0 where
  registered : Field → Entry
  inherited : Entry
  missing : Entry

unfoldable pub field_registry : String → Entry
field_registry name =
    if str_eq name "audit.ageDays"
    then registered Field.audit_age_days
    else if str_eq name "audit.status"
    then registered Field.audit_status
    else if str_eq name "audit.globalScore"
    then registered Field.audit_global_score
    else if str_eq name "integration.googleSearchConsole.status"
    then registered Field.search_console_status
    else if str_eq name "integration.meta.status"
    then registered Field.meta_status
    else if str_eq name "opportunity.count"
    then registered Field.opportunity_count
    else if str_eq name "opportunity.highPriorityCount"
    then registered Field.high_priority_count
    else if str_eq name "website.count"
    then registered Field.website_count
    else if any (str_eq name) inherited_names
    then inherited
    else missing

-- `FieldDescriptor.type`
abbrev pub field_type : Field → ValueType
field_type Field.audit_age_days = number_type
field_type Field.audit_status = string_type
field_type Field.audit_global_score = number_type
field_type Field.search_console_status = string_type
field_type Field.meta_status = string_type
field_type Field.opportunity_count = number_type
field_type Field.high_priority_count = number_type
field_type Field.website_count = number_type

abbrev pub status_text : ConnectionStatus → String
status_text connected = "connected"
status_text disconnected = "disconnected"

abbrev pub nullable : {A B : Type 0} → (A → B) → Option A → Option B
nullable f none = none
nullable f (some a) = some (f a)

-- `FieldDescriptor.resolve`; `none` is `null`.
abbrev pub resolve : {Num : Type 0} → Field → Context Num → Option (Scalar Num)
resolve Field.audit_age_days c = nullable number c.audit_age_days
resolve Field.audit_status c = nullable string c.audit_status
resolve Field.audit_global_score c = nullable number c.audit_global_score
resolve Field.search_console_status c = some (string (status_text c.search_console_status))
resolve Field.meta_status c = some (string (status_text c.meta_status))
resolve Field.opportunity_count c = some (number c.opportunity_count)
resolve Field.high_priority_count c = some (number c.high_priority_count)
resolve Field.website_count c = some (number c.website_count)
