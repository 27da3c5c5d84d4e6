-- ===== src/Automations/Inputs/Idempotence.antt =====
-- `canonicalizeInput` of src/ops-automation/actions/ops-actions-registry.service.ts keeps what is
-- canonical, and nothing but what an action declares.
use robia_back.Prelude.{
  ◌≡◌, subst, inl, inr, Bool, false, String, none, some, List, [], ◌∷◌, any, find, All, str_eq,
  arith, Bool-cases, Option-cases,
}
use robia_back.Automations.Actions.{Descriptor, registered, get_action}
use robia_back.Automations.Inputs.Json.{Fields, get_field, Input}
use robia_back.Automations.Inputs.Canonical.{accepted, canonicalize_input}
use robia_back.Automations.Inputs.Stable.{declared, Keeps, Keeps-no_keys, Keeps-one_key}
use robia_back.Automations.Inputs.Emails.{Keeps-email}

find-All :
    {A : Type 0} (P : A → Type 0) (p : A → Bool) (xs : List A) (x : A)
    → All P xs
    → find p xs ≡ some x
    → P x
find-All P p [] x h e = ground arith
find-All P p (y ∷ xs) x h e = elim (Bool-cases (p y)) [
  | inl q ↦ subst P (ground arith) h.0
  | inr q ↦ find-All P p xs x h.1 (ground arith)
]

registered-Keeps : All Keeps registered
registered-Keeps = (
  Keeps-one_key _ _ _,
  (
    Keeps-one_key _ _ _,
    (
      Keeps-no_keys _ _,
      (
        Keeps-one_key _ _ _,
        (Keeps-email, (Keeps-one_key _ _ _, (Keeps-one_key _ _ _, (Keeps-one_key _ _ _, tt)))),
      ),
    ),
  ),
)

-- An input that is accepted as that of an action is accepted again as it is, so that the checks at
-- the definition, at the plan and at the execution agree, and it has only the keys that the action
-- declares.
pub canonicalize_input_stable :
    (action_type : String) (input : Input) (canonical : Fields)
    → canonicalize_input action_type input ≡ accepted canonical
    → (action : Descriptor) × (get_action action_type ≡ some action)
      × (canonicalize_input action_type (some canonical) ≡ accepted canonical)
      × ((key : String)
          → any (λ k. str_eq k key) (declared action) ≡ false
          → get_field key canonical ≡ none)
unfolding canonicalize_input get_action
canonicalize_input_stable action_type input canonical h =
    elim (Option-cases (get_action action_type)) [
      | inl e ↦ absurd (ground (arith, e))
      | inr (action, e) ↦
          let s =
            find-All Keeps (λ d. str_eq d.type_name action_type) registered action registered-Keeps
              e input canonical (ground (arith, e)) in
          (action, e, ground (arith, e, s.again), s.declared_only)
    ]
