-- ===== src/Conditions/Evaluate.antt =====
-- `evaluateConditions` of src/ops-automation/condition-engine.ts.
use robia_back.Prelude.{Bool, true, false, not, ◌&&◌, Option, none, some, any, str_eq}
use robia_back.Conditions.Tree.{
  Numbers, Operator, eq, ne, gt, gte, lt, lte, in_list, not_in, exists, not_exists, Scalar, number,
  string, boolean, LeafValue, scalar, array, Node, leaf, group, Children, undefined, null, nodes,
  Child, undefined_child, null_child, child, Nodes, nil, cons, Context, Entry, registered,
  inherited, missing, resolve, field_registry,
}

-- A Boolean, or the `TypeError` of calling a property that is not a function.
pub data Evaluation : Type 0 where
  value : Bool → Evaluation
  type_error : Evaluation

abbrev pub bool_same : Bool → Bool → Bool
bool_same true b = b
bool_same false b = not b

abbrev pub and_then : Evaluation → Evaluation → Evaluation
and_then (value true) e = e
and_then e _ = e

abbrev pub or_else : Evaluation → Evaluation → Evaluation
or_else (value false) e = e
or_else e _ = e

abbrev pub negate : Evaluation → Evaluation
negate (value b) = value (not b)
negate type_error = type_error

abbrev pub if_present : Option Evaluation → Evaluation → Evaluation
if_present none d = d
if_present (some e) d = e

module _ {Num : Type 0} (num : Numbers Num) where
  -- `===` on two values that are not null
  unfoldable pub scalar_same : Scalar Num → Scalar Num → Bool
  scalar_same (number a) (number b) = num.same a b
  scalar_same (string s) (string t) = str_eq s t
  scalar_same (boolean b) (boolean c) = bool_same b c
  scalar_same _ _ = false

  unfoldable pub same_as : Scalar Num → Option (LeafValue Num) → Bool
  same_as a (some (scalar b)) = scalar_same a b
  same_as a _ = false

  unfoldable pub is_array : Option (LeafValue Num) → Bool
  is_array (some (array vs)) = true
  is_array _ = false

  unfoldable pub includes : Scalar Num → Option (LeafValue Num) → Bool
  includes a (some (array vs)) = any (scalar_same a) vs
  includes a _ = false

  -- A relational operator on a number; every comparison with NaN is false.
  unfoldable pub relates : (Num → Num → Bool) → Scalar Num → Option (LeafValue Num) → Bool
  relates r (number a) expected = elim (num.to_number expected) [ none ↦ false | some b ↦ r a b ]
  relates r _ expected = false

  -- The `switch` of `compareLeaf`, on a value that is not null.
  unfoldable pub compare_present : Operator → Scalar Num → Option (LeafValue Num) → Bool
  unfolding scalar_same same_as is_array includes relates
  compare_present eq a v = same_as a v
  compare_present ne a v = not (same_as a v)
  compare_present gt a v = relates (λ x y. num.less y x) a v
  compare_present gte a v = relates (λ x y. not (num.less x y)) a v
  compare_present lt a v = relates (λ x y. num.less x y) a v
  compare_present lte a v = relates (λ x y. not (num.less y x)) a v
  compare_present in_list a v = is_array v && includes a v
  compare_present not_in a v = is_array v && not (includes a v)
  compare_present exists a v = true
  compare_present not_exists a v = false

  unfoldable pub compare_leaf : Operator → Option (Scalar Num) → Option (LeafValue Num) → Bool
  unfolding compare_present
  compare_leaf op (some a) v = compare_present op a v
  compare_leaf not_exists none v = true
  compare_leaf _ none v = false

  unfoldable pub evaluate_entry :
      Entry → Context Num → Operator → Option (LeafValue Num) → Evaluation
  evaluate_entry missing c op v = value false
  evaluate_entry inherited c op v = type_error
  evaluate_entry (registered f) c op v = value (compare_leaf op (resolve f c) v)

  -- `evaluateNode`: the first of the three keys that is truthy decides.
  unfoldable mutual
    unfolding evaluate_entry

    pub evaluate : Node Num → Context Num → Evaluation
    evaluate (leaf l) c = evaluate_entry (field_registry l.field) c l.operator l.value
    evaluate (group a o n) c =
        if_present (evaluate_all a c)
          (if_present (evaluate_any o c) (if_present (evaluate_not n c) (value false)))

    pub evaluate_all : Children Num → Context Num → Option Evaluation
    evaluate_all undefined c = none
    evaluate_all null c = none
    evaluate_all (nodes xs) c = some (every_node xs c)

    pub evaluate_any : Children Num → Context Num → Option Evaluation
    evaluate_any undefined c = none
    evaluate_any null c = none
    evaluate_any (nodes xs) c = some (some_node xs c)

    pub evaluate_not : Child Num → Context Num → Option Evaluation
    evaluate_not undefined_child c = none
    evaluate_not null_child c = none
    evaluate_not (child x) c = some (negate (evaluate x c))

    -- `every` and `some` of the language
    pub every_node : Nodes Num → Context Num → Evaluation
    every_node nil c = value true
    every_node (cons x xs) c = and_then (evaluate x c) (every_node xs c)

    pub some_node : Nodes Num → Context Num → Evaluation
    some_node nil c = value false
    some_node (cons x xs) c = or_else (evaluate x c) (some_node xs c)

  -- No tree means that the automation always runs.
  unfoldable pub evaluate_conditions : Option (Node Num) → Context Num → Evaluation
  evaluate_conditions none c = value true
  evaluate_conditions (some n) c = evaluate n c
