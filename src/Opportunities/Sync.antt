-- ===== src/Opportunities/Sync.antt =====
-- The provider findings that src/opportunities/opportunities.service.ts has recorded, and repeated
-- generations.
use mathlib.Core.List.{append-nil}
use robia_back.Prelude.{
  ℕ, suc, ◌≡◌, refl, sym, ap, ◌∙◌, subst, inl, inr, ◌⊎◌, String, Bool, true, false, List, [], ◌∷◌,
  ◌++◌, ◌==◌, any, filter, All, str_eq, eq_iff, arith, Bool-cases, Option-cases, any-append,
  All-map, All-unfilter,
}
use robia_back.Automations.Inputs.Json.{get_field}
use robia_back.Opportunities.Rows.{
  Opportunity, Finding, build_provider_source_data, is_provider_source_data, provider_of, key_of,
  rule_key, provider_rule_key, finding_key, is_empty, add_key, existing_provider_rule_keys,
}
use robia_back.Opportunities.Generation.{
  World, provider_opportunity, provider_rows, create_all, is_missing, add_missing,
  sync_missing_provider_opportunities,
}

nonempty_key : (p r : String) → is_empty (rule_key p r) ≡ false
unfolding is_empty rule_key
nonempty_key String.[] r = refl
nonempty_key (String.◌∷◌ c p) r = refl

-- The key of a finding is among those of the opportunity that it becomes.
add_key-provider_opportunity :
    (organization audit id : ℕ) (f : Finding) (keys : List String)
    → add_key (provider_opportunity organization audit id f) keys ≡ finding_key f ∷ keys
unfolding add_key build_provider_source_data is_provider_source_data provider_rule_key provider_of
    key_of get_field
add_key-provider_opportunity organization audit id f keys =
    rw (nonempty_key f.provider f.rule_code) refl

add_key-append :
    (o : Opportunity) (keys more : List String) → add_key o (keys ++ more) ≡ add_key o keys ++ more
unfolding add_key
add_key-append o keys more = elim (Bool-cases (is_provider_source_data o.source_data)) [
  | inr e ↦ ground (arith, e)
  | inl e ↦ elim (Option-cases (provider_rule_key o.source_data)) [
    | inl n ↦ ground (arith, e, n)
    | inr (key, k) ↦ elim (Bool-cases (is_empty key)) [
      | inl b ↦ ground (arith, e, k, b)
      | inr b ↦ ground (arith, e, k, b)
    ]
  ]
]

existing_provider_rule_keys-append :
    (audit : ℕ) (rows more : List Opportunity)
    → existing_provider_rule_keys audit (rows ++ more)
      ≡ existing_provider_rule_keys audit rows ++ existing_provider_rule_keys audit more
unfolding existing_provider_rule_keys
existing_provider_rule_keys-append audit [] more = refl
existing_provider_rule_keys-append audit (o ∷ rows) more = elim (Bool-cases (o.audit_id == audit)) [
  | inl e ↦ rw e (
      ap (add_key o) (existing_provider_rule_keys-append audit rows more)
      ∙ add_key-append o (existing_provider_rule_keys audit rows)
          (existing_provider_rule_keys audit more))
  | inr e ↦ rw e (existing_provider_rule_keys-append audit rows more)
]

-- A finding is recorded for an audit.
abbrev pub IsRecorded : ℕ → List Opportunity → Finding → Type 0
IsRecorded audit rows f =
    any (str_eq (finding_key f)) (existing_provider_rule_keys audit rows) ≡ true

pub provider_rows-IsRecorded :
    (organization audit id : ℕ) (findings : List Finding)
    → All (IsRecorded audit (provider_rows organization audit id findings)) findings
unfolding existing_provider_rule_keys provider_rows
provider_rows-IsRecorded organization audit id [] = tt
provider_rows-IsRecorded organization audit id (f ∷ findings) =
    let rest = provider_rows organization audit (suc id) findings in
    let keys = existing_provider_rule_keys audit rest in
    let here : (audit == audit) ≡ true = ground arith in
    let first = add_key-provider_opportunity organization audit id f keys in
    let own : str_eq (finding_key f) (finding_key f) ≡ true =
      (eq_iff (finding_key f) (finding_key f)).1 refl in
    let grown : existing_provider_rule_keys audit
          (provider_rows organization audit id (f ∷ findings))
        ≡ finding_key f ∷ keys =
      rw here first in
    (
      subst (λ ks. any (str_eq (finding_key f)) ks ≡ true) (sym grown) (rw own refl),
      All-map
          (λ (g : Finding) h.
            subst (λ ks. any (str_eq (finding_key g)) ks ≡ true) (sym grown) (ground (arith, h)))
          findings (provider_rows-IsRecorded organization audit (suc id) findings),
    )

-- A record stays when rows are added before or after.
pub IsRecorded-append :
    (audit : ℕ) (rows more : List Opportunity) (f : Finding)
    → (IsRecorded audit rows f) ⊎ (IsRecorded audit more f)
    → IsRecorded audit (rows ++ more) f
IsRecorded-append audit rows more f h =
    let both =
      ap (any (str_eq (finding_key f))) (existing_provider_rule_keys-append audit rows more)
      ∙ any-append (str_eq (finding_key f)) (existing_provider_rule_keys audit rows)
          (existing_provider_rule_keys audit more) in
    elim h [ inl k ↦ both ∙ rw k refl | inr k ↦ ground (arith, both, k) ]

filter-none :
    (p : Finding → Bool) (findings : List Finding)
    → All (λ f. p f ≡ false) findings
    → filter p findings ≡ []
filter-none p [] h = refl
filter-none p (f ∷ findings) h = rw (h.0, filter-none p findings h.1) refl

pub opportunities-add_missing :
    (organization audit : ℕ) (missing : List Finding) (w : World)
    → (add_missing organization audit missing w).opportunities
      ≡ w.opportunities ++ provider_rows organization audit w.next_id missing
unfolding add_missing provider_rows create_all
opportunities-add_missing organization audit [] w = sym (append-nil w.opportunities)
opportunities-add_missing organization audit (f ∷ missing) w = refl

module _ (organization audit : ℕ) (findings : List Finding) (w : World) where
  pub sync_opportunities :
      (sync_missing_provider_opportunities organization audit findings w).opportunities
      ≡ w.opportunities
        ++ provider_rows organization audit w.next_id
            (filter (is_missing (existing_provider_rule_keys audit w.opportunities)) findings)
  unfolding sync_missing_provider_opportunities
  sync_opportunities =
      opportunities-add_missing organization audit
        (filter (is_missing (existing_provider_rule_keys audit w.opportunities)) findings) w

  pub sync-IsRecorded :
      All
        (IsRecorded audit
          (sync_missing_provider_opportunities organization audit findings w).opportunities)
        findings
  sync-IsRecorded =
      let keys = existing_provider_rule_keys audit w.opportunities in
      let missing = filter (is_missing keys) findings in
      let more = provider_rows organization audit w.next_id missing in
      subst (λ rows. All (IsRecorded audit rows) findings) (sym sync_opportunities)
        (All-unfilter (IsRecorded audit (w.opportunities ++ more)) (is_missing keys) findings
          (λ f e. IsRecorded-append audit w.opportunities more f (inl (ground (arith, e))))
          (All-map (λ f h. IsRecorded-append audit w.opportunities more f (inr h)) missing
            (provider_rows-IsRecorded organization audit w.next_id missing)))

-- Where all findings are recorded, nothing is added.
pub sync_recorded :
    (organization audit : ℕ) (findings : List Finding) (w : World)
    → All (IsRecorded audit w.opportunities) findings
    → sync_missing_provider_opportunities organization audit findings w ≡ w
unfolding sync_missing_provider_opportunities add_missing
sync_recorded organization audit findings w h =
    let nothing =
      filter-none (is_missing (existing_provider_rule_keys audit w.opportunities)) findings (
        All-map
          (λ f k.
            let present : is_missing (existing_provider_rule_keys audit w.opportunities) f ≡ false =
              ground (arith, k) in
            present)
          findings h) in
    ground (arith, nothing)
