-- ===== src/Conditions/Soundness.antt =====
-- The evaluator against the meaning of a tree: on a validated tree it never throws, and its
-- Boolean is the truth of the condition.
use robia_back.Prelude.{ℕ, ◌≡◌, ◌⊎◌, ◌↔◌, inl, inr, refl, sym, Bool, true, false, some, arith}
use mathlib.Core.Path.{subst}
use robia_back.Conditions.Tree.{
  Numbers, Leaf, Node, Nodes, Context, Field, registered, field_registry, resolve,
}
use robia_back.Conditions.Validate.{accepted, validate}
use robia_back.Conditions.Evaluate.{
  Evaluation, value, and_then, or_else, negate, evaluate_entry, evaluate, every_node, some_node,
  evaluate_conditions,
}
use robia_back.Conditions.Meaning.{
  IsValidLeaf, IsValid, a_leaf, an_all, an_any, a_not, AreValid, no_more, one_more, LeafHolds,
  Compares, Holds, HoldsAll, HoldsAny,
}
use robia_back.Conditions.Validity.{validate_iff}
use robia_back.Conditions.Comparisons.{compare_leaf_iff}

module _ {Num : Type 0} (num : Numbers Num) where
  -- The evaluation gives a Boolean, the truth of the statement.
  abbrev pub Decides : Evaluation → Type 0 → Type 0
  Decides e P = ((e ≡ value true) × P) ⊎ ((e ≡ value false) × (¬ P))

  decides_of_iff : {P : Type 0} (b : Bool) → ((b ≡ true) ↔ P) → Decides (value b) P
  decides_of_iff true e = inl (refl, e.0 refl)
  decides_of_iff false e = inr (refl, λ p. cc (e.1 p))

  registered-injective : {f g : Field} → registered f ≡ registered g → f ≡ g
  registered-injective h = cc

  leaf_decides :
      (l : Leaf Num) (c : Context Num)
      → IsValidLeaf l
      → Decides
          (evaluate_entry num (field_registry l.field) c l.operator l.value)
          (LeafHolds num c l)
  unfolding evaluate_entry
  leaf_decides l c (f, q, s, k) =
      let e = compare_leaf_iff num f c l.operator l.value (resolve f c) refl s k in
      rw (q, evaluate_entry)
        (decides_of_iff _ (
          (λ p. (f, refl, e.0 p)),
          (λ (g, q', p). e.1 (
              subst (λ x. Compares num l.operator (resolve x c) l.value)
                (sym (registered-injective q')) p)),
        ))

  and_decides :
      {P Q : Type 0} (d e : Evaluation) → Decides d P → Decides e Q → Decides (and_then d e) (P × Q)
  and_decides d e (inl (h, p)) (inl (k, q)) = inl (ground arith, (p, q))
  and_decides d e (inl (h, p)) (inr (k, q)) = inr (ground arith, λ r. q (r.1))
  and_decides d e (inr (h, p)) k = inr (ground arith, λ r. p (r.0))

  or_decides :
      {P Q : Type 0} (d e : Evaluation) → Decides d P → Decides e Q → Decides (or_else d e) (P ⊎ Q)
  or_decides d e (inl (h, p)) k = inl (ground arith, inl p)
  or_decides d e (inr (h, p)) (inl (k, q)) = inl (ground arith, inr q)
  or_decides d e (inr (h, p)) (inr (k, q)) =
      inr (ground arith, λ r. elim r [ inl a ↦ p a | inr b ↦ q b ])

  not_decides : {P : Type 0} (d : Evaluation) → Decides d P → Decides (negate d) (¬ P)
  not_decides d (inl (h, p)) = inr (ground arith, λ r. r p)
  not_decides d (inr (h, p)) = inl (ground arith, p)

  mutual
    unfolding evaluate

    evaluate_decides :
        {d : ℕ} {n : Node Num} (c : Context Num)
        → IsValid d n
        → Decides (evaluate num n c) (Holds num c n)
    evaluate_decides c (a_leaf {l} h v) = leaf_decides l c v
    evaluate_decides c (an_all h v) = every_decides c v
    evaluate_decides c (an_any h v) = some_decides c v
    evaluate_decides c (a_not {x} h v) = not_decides (evaluate num x c) (evaluate_decides c v)

    every_decides :
        {d : ℕ} {xs : Nodes Num} (c : Context Num)
        → AreValid d xs
        → Decides (every_node num xs c) (HoldsAll num c xs)
    every_decides c no_more = inl (refl, tt)
    every_decides c (one_more {x} {xs} v vs) =
        and_decides (evaluate num x c) (every_node num xs c) (evaluate_decides c v)
          (every_decides c vs)

    some_decides :
        {d : ℕ} {xs : Nodes Num} (c : Context Num)
        → AreValid d xs
        → Decides (some_node num xs c) (HoldsAny num c xs)
    some_decides c no_more = inr (refl, λ h. h)
    some_decides c (one_more {x} {xs} v vs) =
        or_decides (evaluate num x c) (some_node num xs c) (evaluate_decides c v)
          (some_decides c vs)

-- The evaluation of a validated tree never throws: it returns `true` if the condition holds of the
-- context, and `false` if it does not.
pub evaluate_conditions-Decides :
    {Num : Type 0} (num : Numbers Num) (n : Node Num) (c : Context Num)
    → validate n 0 ≡ accepted
    → ((evaluate_conditions num (some n) c ≡ value true) × Holds num c n)
      ⊎ ((evaluate_conditions num (some n) c ≡ value false) × (¬ Holds num c n))
unfolding evaluate_conditions
evaluate_conditions-Decides num n c h = evaluate_decides num c ((validate_iff n 0).0 h)
