-- ===== src/Conditions/Comparisons.antt =====
-- The comparison of a leaf of src/ops-automation/condition-engine.ts against its meaning.
use robia_back.Prelude.{
  ◌≡◌, ◌↔◌, refl, sym, ap, ◌∙◌, Bool, true, false, not, Option, none, some, List, [], ◌∷◌, Any, any,
  arith, eq_iff,
}
use mathlib.Core.Path.{subst₂, subst}
use robia_back.Conditions.Tree.{
  Numbers, ValueType, number_type, Operator, eq, ne, gt, gte, lt, lte, in_list, not_in, exists,
  not_exists, Scalar, number, string, boolean, LeafValue, scalar, array, Context, Field, field_type,
  resolve,
}
use robia_back.Conditions.Evaluate.{
  bool_same, scalar_same, same_as, relates, compare_present, compare_leaf,
}
use robia_back.Conditions.Meaning.{
  Supports, scalar_type, IsListOf, IsScalarOf, Fits, Related, Listed, Compares,
}

bool_same_iff : (b c : Bool) → (bool_same b c ≡ true) ↔ (b ≡ c)
bool_same_iff b c = ground arith

-- The type of the value that a registered field resolves to.
resolve_typed :
    {Num : Type 0} (f : Field) (c : Context Num) (a : Scalar Num)
    → resolve f c ≡ some a
    → scalar_type a ≡ field_type f
resolve_typed Field.audit_age_days c a h = ground arith
resolve_typed _ c a h = ground arith

module _ {Num : Type 0} (num : Numbers Num) where
  scalar_same_iff : (a b : Scalar Num) → (scalar_same num a b ≡ true) ↔ (a ≡ b)
  unfolding scalar_same
  scalar_same_iff (number a) (number b) = ground (arith, num.same_iff a b)
  scalar_same_iff (string s) (string t) = ground (arith, eq_iff s t)
  scalar_same_iff (boolean b) (boolean c) = ground (arith, bool_same_iff b c)
  scalar_same_iff _ _ = ground arith

  includes_iff :
      (a : Scalar Num) (vs : List (Scalar Num))
      → (any (scalar_same num a) vs ≡ true) ↔ Any (λ b. a ≡ b) vs
  includes_iff a [] = (λ h. cc, λ h. absurd h)
  includes_iff a (v ∷ vs) = ground (arith, scalar_same_iff a v, includes_iff a vs)

  relates_iff :
      (r : Num → Num → Bool) (R : Num → Num → Type 0)
      → ((x y : Num) → (r x y ≡ true) ↔ R x y)
      → (a : Scalar Num) (v : Option (LeafValue Num)) → scalar_type a ≡ number_type
      → IsScalarOf number_type v
      → (relates num r a v ≡ true) ↔ Related num R (some a) v
  unfolding relates
  relates_iff r R e (number x) (some (scalar (number y))) h k =
      rw (num.to_number_number y, relates)
        (λ p. (x, y, refl, refl, (e x y).0 p), λ (x', y', p, q, s). (e x y).1 (transfer p q s))
    where
      number_of : Scalar Num → Num
      number_of (number n) = n
      number_of _ = x

      read : Option (Scalar Num) → Num
      read (some s) = number_of s
      read none = x

      read_value : Option (LeafValue Num) → Num
      read_value (some (scalar s)) = number_of s
      read_value _ = x

      transfer :
          {x' y' : Num}
          → some (number x) ≡ some (number x')
          → some (scalar (number y)) ≡ some (scalar (number y'))
          → R x' y'
          → R x y
      transfer p q s = subst₂ R (sym (ap read p)) (sym (ap read_value q)) s
  relates_iff r R e (number x) v h k = absurd (ground arith)
  relates_iff r R e a v h k = absurd (ground arith)

  not_iff : {P : Type 0} (b : Bool) → ((b ≡ true) ↔ P) → (not b ≡ true) ↔ (¬ P)
  not_iff true e = (λ h. cc, λ h. absurd (h (e.0 refl)))
  not_iff false e = (λ _ p. cc (e.1 p), λ _. refl)

  false_iff : (b : Bool) → (not b ≡ true) ↔ (b ≡ false)
  false_iff b = ground arith

  same_as_iff :
      (a : Scalar Num) (v : Option (LeafValue Num))
      → (same_as num a v ≡ true) ↔ (v ≡ some (scalar a))
  unfolding same_as
  same_as_iff a none = ground arith
  same_as_iff a (some (scalar b)) = ground (arith, scalar_same_iff a b)
  same_as_iff a (some (array vs)) = ground arith

  Listed-iff :
      (p : Scalar Num → List (Scalar Num) → Bool) (R : Scalar Num → List (Scalar Num) → Type 0)
      → ((a : Scalar Num) (vs : List (Scalar Num)) → (p a vs ≡ true) ↔ R a vs)
      → (a : Scalar Num) (vs : List (Scalar Num))
      → (p a vs ≡ true) ↔ Listed num R (some a) (some (array vs))
  Listed-iff p R e a vs = (
    λ h. (a, vs, refl, refl, (e a vs).0 h),
    λ (b, ws, q, s, k). (e a vs).1 (subst₂ R (sym (ap read q)) (sym (ap read_array s)) k),
  )
    where
      read : Option (Scalar Num) → Scalar Num
      read (some b) = b
      read none = a

      read_array : Option (LeafValue Num) → List (Scalar Num)
      read_array (some (array ws)) = ws
      read_array _ = vs

  some-injective : {a b : Scalar Num} → some a ≡ some b → a ≡ b
  some-injective h = cc

  in_list_iff :
      (t : ValueType) (a : Scalar Num) (v : Option (LeafValue Num))
      → IsListOf t v
      → (compare_present num in_list a v ≡ true) ↔ Compares num in_list (some a) v
  unfolding compare_present
  in_list_iff t a (some (array (w ∷ ws))) f =
      Listed-iff (λ b vs. any (scalar_same num b) vs) _ includes_iff a (w ∷ ws)
  in_list_iff t a (some (array [])) f = absurd f
  in_list_iff t a (some (scalar b)) f = absurd f
  in_list_iff t a none f = absurd f

  not_in_iff :
      (t : ValueType) (a : Scalar Num) (v : Option (LeafValue Num))
      → IsListOf t v
      → (compare_present num not_in a v ≡ true) ↔ Compares num not_in (some a) v
  unfolding compare_present
  not_in_iff t a (some (array (w ∷ ws))) f =
      Listed-iff (λ b vs. not (any (scalar_same num b) vs)) _
        (λ b vs. not_iff _ (includes_iff b vs)) a (w ∷ ws)
  not_in_iff t a (some (array [])) f = absurd f
  not_in_iff t a (some (scalar b)) f = absurd f
  not_in_iff t a none f = absurd f

  present_iff :
      (t : ValueType) (op : Operator) (a : Scalar Num) (v : Option (LeafValue Num))
      → Supports t op
      → Fits t op v
      → scalar_type a ≡ t
      → (compare_present num op a v ≡ true) ↔ Compares num op (some a) v
  unfolding compare_present
  present_iff t exists a v s f h = (λ _ e. cc, λ _. refl)
  present_iff t not_exists a v s f h = ((λ e. cc), (λ e. cc))
  present_iff t eq a v s f h = (
    (λ e. (a, refl, (same_as_iff a v).0 e)),
    (λ (b, e, q). (same_as_iff a v).1 (rw (some-injective e) q)),
  )
  present_iff t ne a v s f h = (
    (λ e. (a, refl, (not_iff _ (same_as_iff a v)).0 e)),
    (λ (b, e, q). (not_iff _ (same_as_iff a v)).1 (rw (some-injective e) q)),
  )
  present_iff t gt a v s f h =
      relates_iff _ _ (λ x y. (λ e. e, λ e. e)) a v (h ∙ s) (subst (λ u. IsScalarOf u v) s f)
  present_iff t gte a v s f h =
      relates_iff _ _ (λ x y. false_iff _) a v (h ∙ s) (subst (λ u. IsScalarOf u v) s f)
  present_iff t lt a v s f h =
      relates_iff _ _ (λ x y. (λ e. e, λ e. e)) a v (h ∙ s) (subst (λ u. IsScalarOf u v) s f)
  present_iff t lte a v s f h =
      relates_iff _ _ (λ x y. false_iff _) a v (h ∙ s) (subst (λ u. IsScalarOf u v) s f)
  present_iff t in_list a v s f h = in_list_iff t a v f
  present_iff t not_in a v s f h = not_in_iff t a v f

  absent_iff :
      (op : Operator) (v : Option (LeafValue Num))
      → (compare_leaf num op none v ≡ true) ↔ Compares num op none v
  unfolding compare_leaf
  absent_iff not_exists v = (λ _. refl, λ _. refl)
  absent_iff exists v = (λ e. cc, λ e. absurd (e refl))
  absent_iff eq v = (λ e. cc, λ e. cc (e.1))
  absent_iff ne v = (λ e. cc, λ e. cc (e.1))
  absent_iff in_list v = (λ e. cc, λ e. cc (e.2))
  absent_iff not_in v = (λ e. cc, λ e. cc (e.2))
  absent_iff gt v = (λ e. cc, λ e. cc (e.2))
  absent_iff gte v = (λ e. cc, λ e. cc (e.2))
  absent_iff lt v = (λ e. cc, λ e. cc (e.2))
  absent_iff lte v = (λ e. cc, λ e. cc (e.2))

  pub compare_leaf_iff :
      (f : Field) (c : Context Num) (op : Operator) (v : Option (LeafValue Num))
      (actual : Option (Scalar Num))
      → resolve f c ≡ actual
      → Supports (field_type f) op
      → Fits (field_type f) op v
      → (compare_leaf num op actual v ≡ true) ↔ Compares num op actual v
  unfolding compare_leaf
  compare_leaf_iff f c op v none e s k = absent_iff op v
  compare_leaf_iff f c op v (some a) e s k =
      present_iff (field_type f) op a v s k (resolve_typed f c a e)
