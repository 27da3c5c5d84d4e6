-- ===== src/Conditions/Validate.antt =====
-- `validateConditionTree` of src/ops-automation/condition-engine.ts.
use robia_back.Prelude.{
  ℕ, suc, Bool, true, false, not, Option, none, some, ◌∷◌, ltb, ◌==◌, any, if◌then◌else◌, ◌+◌,
}
use robia_back.Conditions.Tree.{
  ValueType, number_type, string_type, boolean_type, Operator, eq, ne, gt, gte, lt, lte, in_list,
  not_in, exists, not_exists, Scalar, number, string, boolean, LeafValue, scalar, array, Node, leaf,
  group, Children, undefined, null, nodes, Child, undefined_child, null_child, child, Nodes, nil,
  cons, Entry, registered, inherited, missing, field_type, field_registry,
}

-- Why `InvalidConditionError` is thrown.
pub data Reason : Type 0 where
  too_deep unknown_field operator_not_allowed array_required element_type : Reason
  value_required not_one_key empty_group : Reason

-- A return, a thrown `InvalidConditionError`, or the `TypeError` of reading a property of
-- `undefined`.
pub data Verdict : Type 0 where
  accepted : Verdict
  rejected : Reason → Verdict
  type_error : Verdict

abbrev pub max_condition_depth : ℕ
max_condition_depth = 6

-- `OPERATORS_BY_TYPE[type].includes(operator)`
unfoldable pub operator_allowed : ValueType → Operator → Bool
operator_allowed number_type _ = true
operator_allowed string_type gt = false
operator_allowed string_type gte = false
operator_allowed string_type lt = false
operator_allowed string_type lte = false
operator_allowed string_type _ = true
operator_allowed boolean_type eq = true
operator_allowed boolean_type ne = true
operator_allowed boolean_type exists = true
operator_allowed boolean_type not_exists = true
operator_allowed boolean_type _ = false

-- `typeof value === type`
unfoldable pub has_type : {Num : Type 0} → ValueType → Scalar Num → Bool
has_type number_type (number n) = true
has_type string_type (string s) = true
has_type boolean_type (boolean b) = true
has_type _ _ = false

unfoldable pub array_verdict : {Num : Type 0} → ValueType → Option (LeafValue Num) → Verdict
array_verdict t (some (array (v ∷ vs))) =
    if any (λ w. not (has_type t w)) (v ∷ vs) then rejected element_type else accepted
array_verdict t _ = rejected array_required

unfoldable pub scalar_verdict : {Num : Type 0} → ValueType → Option (LeafValue Num) → Verdict
scalar_verdict t (some (scalar v)) = if has_type t v then accepted else rejected value_required
scalar_verdict t _ = rejected value_required

unfoldable pub value_verdict :
    {Num : Type 0} → ValueType → Operator → Option (LeafValue Num) → Verdict
unfolding array_verdict scalar_verdict
value_verdict t in_list v = array_verdict t v
value_verdict t not_in v = array_verdict t v
value_verdict t exists v = accepted
value_verdict t not_exists v = accepted
value_verdict t _ v = scalar_verdict t v

unfoldable pub entry_verdict : {Num : Type 0} → Entry → Operator → Option (LeafValue Num) → Verdict
unfolding value_verdict operator_allowed
entry_verdict missing op v = rejected unknown_field
entry_verdict inherited op v = type_error
entry_verdict (registered f) op v =
    if operator_allowed (field_type f) op
    then value_verdict (field_type f) op v
    else rejected operator_not_allowed

-- Statement after statement: what throws first ends the call.
abbrev pub then_verdict : Verdict → Verdict → Verdict
then_verdict accepted w = w
then_verdict v _ = v

-- The first list of children that is truthy, as `groupChildren` reads the three keys.
abbrev pub first_truthy : {A : Type 0} → Option A → A → A
first_truthy none d = d
first_truthy (some a) d = a

-- `presentKeys.length`
abbrev pub children_present : {Num : Type 0} → Children Num → ℕ
children_present undefined = 0
children_present _ = 1

abbrev pub child_present : {Num : Type 0} → Child Num → ℕ
child_present undefined_child = 0
child_present _ = 1

unfoldable mutual
  unfolding entry_verdict

  pub validate : {Num : Type 0} → Node Num → ℕ → Verdict
  validate (leaf l) depth =
      if ltb max_condition_depth depth
      then rejected too_deep
      else entry_verdict (field_registry l.field) l.operator l.value
  validate (group a o n) depth =
      if ltb max_condition_depth depth
      then rejected too_deep
      else if children_present a + children_present o + child_present n == 1
      then first_truthy (validate_children a depth) (
          first_truthy (validate_children o depth)
            (first_truthy (validate_child n depth) (rejected empty_group)))
      else rejected not_one_key

  pub validate_children : {Num : Type 0} → Children Num → ℕ → Option Verdict
  validate_children undefined depth = none
  validate_children null depth = none
  validate_children (nodes nil) depth = some (rejected empty_group)
  validate_children (nodes (cons x xs)) depth =
      some (then_verdict (validate x (suc depth)) (validate_nodes xs depth))

  pub validate_child : {Num : Type 0} → Child Num → ℕ → Option Verdict
  validate_child undefined_child depth = none
  validate_child null_child depth = none
  validate_child (child x) depth = some (validate x (suc depth))

  -- The loop over the children.
  pub validate_nodes : {Num : Type 0} → Nodes Num → ℕ → Verdict
  validate_nodes nil depth = accepted
  validate_nodes (cons x xs) depth = then_verdict (validate x (suc depth)) (validate_nodes xs depth)
