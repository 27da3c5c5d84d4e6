-- ===== src/Conditions/Meaning.antt =====
-- When a condition tree is well formed and when it holds, as relations that are independent of
-- the loops of src/ops-automation/condition-engine.ts.
use robia_back.Prelude.{
  ℕ, suc, ◌≡◌, ◌≢◌, ◌≤◌, ◌⊎◌, true, false, Option, none, some, List, ◌∷◌, All, Any,
}
use robia_back.Conditions.Tree.{
  Numbers, ValueType, number_type, string_type, boolean_type, Operator, eq, ne, gt, gte, lt, lte,
  in_list, not_in, exists, not_exists, Scalar, number, string, boolean, LeafValue, scalar, array,
  Leaf, Node, leaf, group, undefined, nodes, undefined_child, child, Nodes, nil, cons, Context,
  Field, registered, field_type, field_registry, resolve,
}

-- The operators of a type: order is for numbers, lists are for numbers and texts.
abbrev pub Supports : ValueType → Operator → Type 0
Supports t eq = Unit
Supports t ne = Unit
Supports t exists = Unit
Supports t not_exists = Unit
Supports t in_list = t ≢ boolean_type
Supports t not_in = t ≢ boolean_type
Supports t _ = t ≡ number_type

abbrev pub scalar_type : {Num : Type 0} → Scalar Num → ValueType
scalar_type (number n) = number_type
scalar_type (string s) = string_type
scalar_type (boolean b) = boolean_type

abbrev pub IsListOf : {Num : Type 0} → ValueType → Option (LeafValue Num) → Type 0
IsListOf t (some (array (v ∷ vs))) = All (λ w. scalar_type w ≡ t) (v ∷ vs)
IsListOf t _ = ⊥

abbrev pub IsScalarOf : {Num : Type 0} → ValueType → Option (LeafValue Num) → Type 0
IsScalarOf t (some (scalar v)) = scalar_type v ≡ t
IsScalarOf t _ = ⊥

abbrev pub Fits : {Num : Type 0} → ValueType → Operator → Option (LeafValue Num) → Type 0
Fits t exists v = Unit
Fits t not_exists v = Unit
Fits t in_list v = IsListOf t v
Fits t not_in v = IsListOf t v
Fits t _ v = IsScalarOf t v

abbrev pub IsValidLeaf : {Num : Type 0} → Leaf Num → Type 0
IsValidLeaf l =
    (f : Field) × (field_registry l.field ≡ registered f)
    × Supports (field_type f) l.operator
    × Fits (field_type f) l.operator l.value

-- A tree whose root stands `depth` groups below the top.
mutual
  pub data IsValid {Num : Type 0} : ℕ → Node Num → Type 0 where
    a_leaf : {d : ℕ} {l : Leaf Num} → d ≤ 6 → IsValidLeaf l → IsValid d (leaf l)
    an_all :
        {d : ℕ} {x : Node Num} {xs : Nodes Num}
        → d ≤ 6
        → AreValid (suc d) (cons x xs)
        → IsValid d (group (nodes (cons x xs)) undefined undefined_child)
    an_any :
        {d : ℕ} {x : Node Num} {xs : Nodes Num}
        → d ≤ 6
        → AreValid (suc d) (cons x xs)
        → IsValid d (group undefined (nodes (cons x xs)) undefined_child)
    a_not :
        {d : ℕ} {x : Node Num}
        → d ≤ 6
        → IsValid (suc d) x
        → IsValid d (group undefined undefined (child x))

  pub data AreValid {Num : Type 0} : ℕ → Nodes Num → Type 0 where
    no_more : {d : ℕ} → AreValid d nil
    one_more :
        {d : ℕ} {x : Node Num} {xs : Nodes Num}
        → IsValid d x
        → AreValid d xs
        → AreValid d (cons x xs)

-- What a comparison says of a field that may be absent: an absent field satisfies `notExists`
-- alone.
module _ {Num : Type 0} (num : Numbers Num) where
  abbrev pub Related : (Num → Num → Type 0) → Option (Scalar Num) → Option (LeafValue Num) → Type 0
  Related R actual v =
      (x y : Num) × (actual ≡ some (number x)) × (v ≡ some (scalar (number y))) × R x y

  abbrev pub Listed :
      (Scalar Num → List (Scalar Num) → Type 0)
      → Option (Scalar Num)
      → Option (LeafValue Num)
      → Type 0
  Listed R actual v =
      (a : Scalar Num) × (vs : List (Scalar Num)) × (actual ≡ some a)
      × (v ≡ some (array vs))
      × R a vs

  abbrev pub Compares : Operator → Option (Scalar Num) → Option (LeafValue Num) → Type 0
  Compares exists actual v = actual ≢ none
  Compares not_exists actual v = actual ≡ none
  Compares eq actual v = (a : Scalar Num) × (actual ≡ some a) × (v ≡ some (scalar a))
  Compares ne actual v = (a : Scalar Num) × (actual ≡ some a) × (v ≢ some (scalar a))
  Compares gt actual v = Related (λ x y. num.less y x ≡ true) actual v
  Compares gte actual v = Related (λ x y. num.less x y ≡ false) actual v
  Compares lt actual v = Related (λ x y. num.less x y ≡ true) actual v
  Compares lte actual v = Related (λ x y. num.less y x ≡ false) actual v
  Compares in_list actual v = Listed (λ a vs. Any (λ b. a ≡ b) vs) actual v
  Compares not_in actual v = Listed (λ a vs. ¬ Any (λ b. a ≡ b) vs) actual v

  abbrev pub LeafHolds : Context Num → Leaf Num → Type 0
  LeafHolds c l =
      (f : Field) × (field_registry l.field ≡ registered f)
      × Compares l.operator (resolve f c) l.value

  abbrev mutual
    pub Holds : Context Num → Node Num → Type 0
    Holds c (leaf l) = LeafHolds c l
    Holds c (group (nodes xs) _ _) = HoldsAll c xs
    Holds c (group _ (nodes xs) _) = HoldsAny c xs
    Holds c (group _ _ (child x)) = ¬ Holds c x
    Holds c (group _ _ _) = ⊥

    pub HoldsAll : Context Num → Nodes Num → Type 0
    HoldsAll c nil = Unit
    HoldsAll c (cons x xs) = Holds c x × HoldsAll c xs

    pub HoldsAny : Context Num → Nodes Num → Type 0
    HoldsAny c nil = ⊥
    HoldsAny c (cons x xs) = Holds c x ⊎ HoldsAny c xs
