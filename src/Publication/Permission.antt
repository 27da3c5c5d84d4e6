-- ===== src/Publication/Permission.antt =====
-- What src/content-studio/publication-policy.ts permits.
use robia_back.Prelude.{
  ◌≡◌, ◌↔◌, inl, inr, String, true, false, none, some, arith, eq_iff, is_blank, Option-cases,
}
use robia_back.Publication.Policy.{
  Binding, Approval, Input, allowed, valid_binding, evaluate_publication,
}

-- An approval that stands for a binding: it is not revoked, names its author, and is for a valid
-- binding with the same operation key.
abbrev pub Approves : (Binding → String) → Approval → Binding → Type 0
Approves operation_key a b =
    (a.revoked ≡ false)
    × ((u : String) × (a.approved_by ≡ some u) × (is_blank u ≡ false))
    × (valid_binding a.binding ≡ true)
    × (operation_key b ≡ operation_key a.binding)

abbrev pub MayPublish : (Binding → String) → Input → Type 0
MayPublish operation_key i =
    (valid_binding i.current ≡ true)
    × (i.publishing_enabled ≡ true)
    × (i.connection_ready ≡ true)
    × ((a : Approval) × (i.approval ≡ some a) × Approves operation_key a i.current)
    × (i.previous_attempt ≡ none)

-- Publication is allowed exactly for a valid binding, with publishing enabled and the connection
-- ready, under an approval that is not revoked, names its author and is for a valid binding with
-- the same operation key, and without any earlier attempt, whatever became of that; and the key
-- that is allowed is that of the binding.
pub evaluate_publication_iff :
    (operation_key : Binding → String) (i : Input) (key : String)
    → (evaluate_publication operation_key i ≡ allowed key)
      ↔ (MayPublish operation_key i × (key ≡ operation_key i.current))
unfolding evaluate_publication
evaluate_publication_iff operation_key i key = elim (Option-cases i.approval) [
  | inl e ↦ ground arith
  | inr (a, e) ↦ ground (arith, eq_iff (operation_key i.current) (operation_key a.binding))
]
