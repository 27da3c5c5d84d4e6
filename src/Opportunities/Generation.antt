-- ===== src/Opportunities/Generation.antt =====
-- `generateFromAudit`, `generateFromSiteAudit`, `findAllForAudit`, `findOne` and `updateStatus` of
-- src/opportunities/opportunities.service.ts, and `collectFindings` of
-- src/intelligence/intelligence-registry.service.ts. The generators of the python service and the
-- adapters of the providers are parameters.
use robia_back.Prelude.{
  ℕ, zero, suc, ◌+◌, String, Bool, not, ◌&&◌, Option, none, some, List, [], ◌∷◌, ◌++◌, ◌==◌, any,
  filter, find, length, str_eq, if◌then◌else◌,
}
use robia_back.Opportunities.Rows.{
  Status, opened, Opportunity, Finding, Generated, build_provider_source_data, build_source_data,
  is_provider_source_data, finding_key, existing_provider_rule_keys, order_rows,
}

pub record Audit : Type 0 where
  pub id : ℕ
  pub organization_id : ℕ
  pub is_completed : Bool

pub record World : Type 0 where
  pub audits : List Audit
  pub opportunities : List Opportunity
  pub next_id : ℕ

-- The generators, which may throw, and how the adapters settle, in the order of the registry.
pub record Outside : Type 0 where
  pub generate : Audit → Option (List Generated)
  pub generate_for_site : Audit → Option (List Generated)
  pub settle : ℕ → Audit → List (Option (List Finding))

pub data Reply {ℓ} (A : Type ℓ) : Type ℓ where
  returned : A → Reply A
  not_found : Reply A
  generator_failed : Reply A

-- `Promise.allSettled`, and what the adapters that have not failed give.
unfoldable pub collect_findings : List (Option (List Finding)) → List Finding
collect_findings [] = []
collect_findings (none ∷ results) = collect_findings results
collect_findings (some findings ∷ results) = findings ++ collect_findings results

abbrev pub provider_opportunity : ℕ → ℕ → ℕ → Finding → Opportunity
provider_opportunity organization audit id f = record {
  id = id;
  organization_id = organization;
  audit_id = audit;
  title = f.title;
  description = f.description;
  category = f.category;
  impact_score = f.impact_score;
  effort_score = f.effort_score;
  confidence_score = f.confidence_score;
  source_data = build_provider_source_data f;
  status = opened;
}

abbrev pub seo_opportunity : ℕ → ℕ → ℕ → Generated → Opportunity
seo_opportunity organization audit id g = record {
  id = id;
  organization_id = organization;
  audit_id = audit;
  title = g.title;
  description = g.description;
  category = g.category;
  impact_score = g.impact_score;
  effort_score = g.effort_score;
  confidence_score = g.confidence_score;
  source_data = build_source_data g;
  status = opened;
}

unfoldable pub provider_rows : ℕ → ℕ → ℕ → List Finding → List Opportunity
provider_rows organization audit id [] = []
provider_rows organization audit id (f ∷ findings) =
    provider_opportunity organization audit id f
    ∷ provider_rows organization audit (suc id) findings

unfoldable pub seo_rows : ℕ → ℕ → ℕ → List Generated → List Opportunity
seo_rows organization audit id [] = []
seo_rows organization audit id (g ∷ generated) =
    seo_opportunity organization audit id g ∷ seo_rows organization audit (suc id) generated

-- A transaction of `create`s.
unfoldable pub create_all : List Opportunity → World → World
create_all rows w = record w {
  opportunities = w.opportunities ++ rows;
  next_id = w.next_id + length rows;
}

abbrev pub is_missing : List String → Finding → Bool
is_missing keys f = not (any (str_eq (finding_key f)) keys)

-- `missing.length === 0` ends the call.
unfoldable pub add_missing : ℕ → ℕ → List Finding → World → World
unfolding create_all provider_rows
add_missing organization audit [] w = w
add_missing organization audit (f ∷ missing) w =
    create_all (provider_rows organization audit w.next_id (f ∷ missing)) w

unfoldable pub sync_missing_provider_opportunities : ℕ → ℕ → List Finding → World → World
unfolding existing_provider_rule_keys add_missing
sync_missing_provider_opportunities organization audit findings w =
    add_missing organization audit
      (filter (is_missing (existing_provider_rule_keys audit w.opportunities)) findings) w

-- `opportunities.slice(0, n)`
unfoldable pub first_rows : ℕ → List Opportunity → List Opportunity
first_rows zero rows = []
first_rows (suc n) [] = []
first_rows (suc n) (o ∷ rows) = o ∷ first_rows n rows

abbrev pub is_provider : Opportunity → Bool
is_provider o = is_provider_source_data o.source_data

abbrev pub is_of : ℕ → ℕ → Opportunity → Bool
is_of organization audit o = o.organization_id == organization && o.audit_id == audit

unfoldable pub find_all_for_audit : ℕ → ℕ → World → List Opportunity
unfolding order_rows first_rows is_provider_source_data
find_all_for_audit organization audit w =
    let opportunities = order_rows (filter (is_of organization audit) w.opportunities) in
    first_rows 5 (filter (λ o. not (is_provider o)) opportunities)
    ++ filter is_provider opportunities

-- The opportunities of an audit that has none yet.
unfoldable pub generate_new :
    ℕ → ℕ → List Generated → List Finding → World → World × List Opportunity
unfolding seo_rows provider_rows create_all
generate_new organization audit generated findings w =
    let created =
      seo_rows organization audit w.next_id generated
      ++ provider_rows organization audit (w.next_id + length generated) findings in
    (create_all created w, created)

unfoldable pub generate_with :
    (Audit → Option (List Generated)) → Outside → ℕ → ℕ → World → World × Reply (List Opportunity)
unfolding sync_missing_provider_opportunities collect_findings find_all_for_audit generate_new
generate_with generate out organization audit_id w =
    elim (find
      (λ (a : Audit). a.id == audit_id && a.organization_id == organization && a.is_completed)
      w.audits) [
        | none ↦ (w, not_found)
        | some audit ↦
            let findings = collect_findings (out.settle organization audit) in
            if any (λ (o : Opportunity). o.audit_id == audit_id) w.opportunities
            then (let v = sync_missing_provider_opportunities organization audit_id findings w in
                (v, returned (find_all_for_audit organization audit_id v)))
            else (elim (generate audit) [
              | none ↦ (w, generator_failed)
              | some generated ↦
                  let (v, created) = generate_new organization audit_id generated findings w in
                  (v, returned created)
            ])
      ]

unfoldable pub generate_from_audit : Outside → ℕ → ℕ → World → World × Reply (List Opportunity)
unfolding generate_with
generate_from_audit out = generate_with out.generate out

unfoldable pub generate_from_site_audit : Outside → ℕ → ℕ → World → World × Reply (List Opportunity)
unfolding generate_with
generate_from_site_audit out = generate_with out.generate_for_site out

unfoldable pub find_one : ℕ → ℕ → World → Option Opportunity
find_one organization id w =
    find (λ (o : Opportunity). o.id == id && o.organization_id == organization) w.opportunities

unfoldable pub set_status : ℕ → Status → List Opportunity → List Opportunity
set_status id status [] = []
set_status id status (o ∷ rows) =
    let rest = set_status id status rows in
    (if o.id == id then record o { status = status } else o) ∷ rest

unfoldable pub update_status : ℕ → ℕ → Status → World → World × Reply Opportunity
unfolding find_one set_status
update_status organization id status w = elim (find_one organization id w) [
  | none ↦ (w, not_found)
  | some o ↦ (
    record w { opportunities = set_status id status w.opportunities },
    returned (record o { status = status }),
  )
]
