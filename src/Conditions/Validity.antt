-- ===== src/Conditions/Validity.antt =====
-- `validateConditionTree` accepts exactly the well-formed trees.
use robia_back.Prelude.{
  ℕ, suc, ◌≡◌, ◌↔◌, inl, inr, refl, true, false, not, Option, none, some, List, [], ◌∷◌, All, any,
  arith, Bool-cases,
}
use robia_back.Conditions.Tree.{
  ValueType, number_type, string_type, boolean_type, Operator, eq, in_list, not_in, exists,
  not_exists, Scalar, number, string, boolean, LeafValue, scalar, array, Node, leaf, group,
  undefined, nodes, undefined_child, child, Nodes, nil, cons, Field, Entry, registered, inherited,
  missing, field_type, field_registry,
}
use robia_back.Conditions.Validate.{
  Verdict, accepted, operator_allowed, has_type, array_verdict, scalar_verdict, value_verdict,
  entry_verdict, then_verdict, validate, validate_nodes,
}
use robia_back.Conditions.Meaning.{
  Supports, scalar_type, IsListOf, IsScalarOf, Fits, IsValid, a_leaf, an_all, an_any, a_not,
  AreValid, no_more, one_more,
}

has_type_iff :
    {Num : Type 0} (t : ValueType) (v : Scalar Num) → (has_type t v ≡ true) ↔ (scalar_type v ≡ t)
unfolding has_type
has_type_iff number_type (number n) = ground arith
has_type_iff string_type (string s) = ground arith
has_type_iff boolean_type (boolean b) = ground arith
has_type_iff _ _ = ground arith

All-typed_iff :
    {Num : Type 0} (t : ValueType) (vs : List (Scalar Num))
    → (any (λ w. not (has_type t w)) vs ≡ false) ↔ All (λ w. scalar_type w ≡ t) vs
All-typed_iff t [] = (λ _. tt, λ _. refl)
All-typed_iff t (v ∷ vs) = ground (arith, has_type_iff t v, All-typed_iff t vs)

operator_allowed_iff :
    (t : ValueType) (op : Operator) → (operator_allowed t op ≡ true) ↔ Supports t op
unfolding operator_allowed
operator_allowed_iff number_type eq = ground arith
operator_allowed_iff _ _ = ground arith

array_verdict_iff :
    {Num : Type 0} (t : ValueType) (v : Option (LeafValue Num))
    → (array_verdict t v ≡ accepted) ↔ IsListOf t v
unfolding array_verdict
array_verdict_iff t none = ground arith
array_verdict_iff t (some (scalar v)) = ground arith
array_verdict_iff t (some (array [])) = ground arith
array_verdict_iff t (some (array (v ∷ vs))) = ground (arith, All-typed_iff t (v ∷ vs))

scalar_verdict_iff :
    {Num : Type 0} (t : ValueType) (v : Option (LeafValue Num))
    → (scalar_verdict t v ≡ accepted) ↔ IsScalarOf t v
unfolding scalar_verdict
scalar_verdict_iff t none = ground arith
scalar_verdict_iff t (some (scalar v)) = ground (arith, has_type_iff t v)
scalar_verdict_iff t (some (array vs)) = ground arith

value_verdict_iff :
    {Num : Type 0} (t : ValueType) (op : Operator) (v : Option (LeafValue Num))
    → (value_verdict t op v ≡ accepted) ↔ Fits t op v
unfolding value_verdict
value_verdict_iff t in_list v = array_verdict_iff t v
value_verdict_iff t not_in v = array_verdict_iff t v
value_verdict_iff t exists v = (λ _. tt, λ _. refl)
value_verdict_iff t not_exists v = (λ _. tt, λ _. refl)
value_verdict_iff t _ v = scalar_verdict_iff t v

registered_verdict_iff :
    {Num : Type 0} (f : Field) (op : Operator) (v : Option (LeafValue Num))
    → (entry_verdict (registered f) op v ≡ accepted)
      ↔ (Supports (field_type f) op × Fits (field_type f) op v)
unfolding entry_verdict
registered_verdict_iff f op v =
    let allowed = operator_allowed_iff (field_type f) op in
    let fits = value_verdict_iff (field_type f) op v in
    elim (Bool-cases (operator_allowed (field_type f) op)) [
      | inl h ↦ rw h ((λ e. (allowed.0 h, fits.0 e)), (λ p. fits.1 p.1))
      | inr h ↦ rw h ((λ e. cc), (λ p. cc (allowed.1 p.0)))
    ]

entry_sound :
    {Num : Type 0} (e : Entry) (op : Operator) (v : Option (LeafValue Num))
    → entry_verdict e op v ≡ accepted
    → (f : Field) × (e ≡ registered f) × Supports (field_type f) op × Fits (field_type f) op v
unfolding entry_verdict
entry_sound missing op v h = cc
entry_sound inherited op v h = cc
entry_sound (registered f) op v h =
    let (s, k) = (registered_verdict_iff f op v).0 h in (f, refl, s, k)

entry_complete :
    {Num : Type 0} (e : Entry) (op : Operator) (v : Option (LeafValue Num)) (f : Field)
    → e ≡ registered f
    → Supports (field_type f) op
    → Fits (field_type f) op v
    → entry_verdict e op v ≡ accepted
entry_complete e op v f q s k = rw q ((registered_verdict_iff f op v).1 (s, k))

then_accepted : (v w : Verdict) → then_verdict v w ≡ accepted → (v ≡ accepted) × (w ≡ accepted)
then_accepted v w h = ground arith

mutual
  unfolding validate

  validate_sound : {Num : Type 0} (n : Node Num) (d : ℕ) → validate n d ≡ accepted → IsValid d n
  validate_sound (leaf l) d h =
      a_leaf (ground arith) (entry_sound (field_registry l.field) l.operator l.value (ground arith))
  validate_sound (group (nodes (cons x xs)) undefined undefined_child) d h =
      let (p, q) = then_accepted (validate x (suc d)) (validate_nodes xs d) (ground arith) in
      an_all (ground arith) (one_more (validate_sound x (suc d) p) (validate_nodes_sound xs d q))
  validate_sound (group undefined (nodes (cons x xs)) undefined_child) d h =
      let (p, q) = then_accepted (validate x (suc d)) (validate_nodes xs d) (ground arith) in
      an_any (ground arith) (one_more (validate_sound x (suc d) p) (validate_nodes_sound xs d q))
  validate_sound (group undefined undefined (child x)) d h =
      a_not (ground arith) (validate_sound x (suc d) (ground arith))
  validate_sound (group _ _ _) d h = absurd (ground arith)

  validate_nodes_sound :
      {Num : Type 0} (xs : Nodes Num) (d : ℕ) → validate_nodes xs d ≡ accepted → AreValid (suc d) xs
  validate_nodes_sound nil d h = no_more
  validate_nodes_sound (cons x xs) d h =
      let (p, q) = then_accepted (validate x (suc d)) (validate_nodes xs d) h in
      one_more (validate_sound x (suc d) p) (validate_nodes_sound xs d q)

mutual
  unfolding validate

  validate_complete : {Num : Type 0} {d : ℕ} {n : Node Num} → IsValid d n → validate n d ≡ accepted
  validate_complete (a_leaf {l} h (f, q, s, k)) =
      ground (arith, entry_complete (field_registry l.field) l.operator l.value f q s k)
  validate_complete (an_all h v) = ground (arith, validate_nodes_complete v)
  validate_complete (an_any h v) = ground (arith, validate_nodes_complete v)
  validate_complete (a_not h v) = ground (arith, validate_complete v)

  validate_nodes_complete :
      {Num : Type 0} {d : ℕ} {xs : Nodes Num} → AreValid (suc d) xs → validate_nodes xs d ≡ accepted
  validate_nodes_complete no_more = refl
  validate_nodes_complete (one_more v vs) = rw (validate_complete v) (validate_nodes_complete vs)

-- `validateConditionTree` returns without throwing exactly for the well-formed trees: at most six
-- nested groups, one key to a group and no empty group, registered fields, operators that the
-- field's type supports, and values of that type.
pub validate_iff : {Num : Type 0} (n : Node Num) (d : ℕ) → (validate n d ≡ accepted) ↔ IsValid d n
validate_iff n d = (validate_sound n d, validate_complete)
