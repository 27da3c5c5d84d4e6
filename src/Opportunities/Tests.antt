-- ===== src/Opportunities/Tests.antt =====
-- Runs of src/opportunities/opportunities.service.ts on one audit.
use robia_back.Prelude.{
  ◌⊎◌, inl, false, any, ◌==◌, ◌≡◌, refl, true, false, not, String, none, some, List, [], ◌∷◌, ◌++◌,
  filter, length,
}
use robia_back.Automations.Inputs.Json.{no_items, text, get_field}
use robia_back.Opportunities.Rows.{
  Opportunity, Finding, Generated, order_rows, build_source_data, build_provider_source_data, done,
}
use robia_back.Opportunities.Generation.{
  Audit, World, Outside, returned, not_found, generator_failed, provider_opportunity,
  seo_opportunity, is_provider, is_of, find_all_for_audit, generate_from_audit,
  generate_from_site_audit, sync_missing_provider_opportunities, update_status,
}
use robia_back.Opportunities.Again.{IsGenerated, generate_again}
use robia_back.Opportunities.Listing.{IsIn, IsTop, find_all_for_audit_lists}

abbrev finding : String → String → Finding
finding provider rule_code = record {
  provider = provider;
  rule_code = rule_code;
  title = "Complete the page";
  description = "The page has no description.";
  category = "social";
  evidence = no_items;
  recommendation = text "Write one.";
  impact_score = 4;
  effort_score = 2;
  confidence_score = "1";
  confidence = some "observed";
  score_influence = false;
}

abbrev slow_page : Generated
slow_page = record {
  title = "Slow page";
  description = "The page is slow.";
  category = "technical";
  impact_score = 7;
  effort_score = 5;
  confidence_score = "0.9";
  source_data = "LCP 5 s";
  rule_code = some "slow_page";
  severity = some "high";
  audit_status = none;
  priority_score = some "40";
  affected_urls = none;
  evidence = none;
  why_it_matters = none;
  recommended_steps = none;
}

-- One adapter fails.
abbrev outside : Outside
outside = record {
  generate = λ a. some (slow_page ∷ []);
  generate_for_site = λ a. none;
  settle = λ o a. some (finding "meta" "no_about" ∷ []) ∷ none ∷ some [] ∷ [];
}

abbrev audited : World
audited = record {
  audits = record { id = 3; organization_id = 1; is_completed = true } ∷ [];
  opportunities = [];
  next_id = 20;
}

abbrev rows : List Opportunity
rows =
    seo_opportunity 1 3 20 slow_page ∷ provider_opportunity 1 3 21 (finding "meta" "no_about") ∷ []

abbrev generated : World
generated = record audited { opportunities = rows; next_id = 22 }

first_time : generate_from_audit outside 1 3 audited ≡ (generated, returned rows)
unfolding generate_from_audit
first_time = refl

generate_again_example :
    ((a : Audit) × IsGenerated outside 1 3 a audited generated)
    × ((any (λ (o : Opportunity). o.audit_id == 3) generated.opportunities ≡ false)
        ⊎ ((generate_from_audit outside 1 3 generated
              ≡ (generated, returned (find_all_for_audit 1 3 generated)))
            × (generate_from_site_audit outside 1 3 generated
                ≡ (generated, returned (find_all_for_audit 1 3 generated)))))
generate_again_example = generate_again outside 1 3 audited generated rows (inl first_time)

find_all_for_audit_lists_example :
    ((o : Opportunity)
      → IsIn o rows
      → is_of 1 3 o ≡ true
      → is_provider o ≡ true
      → IsIn o (find_all_for_audit 1 3 generated))
    × ((top : List Opportunity) × (find_all_for_audit 1 3 generated
          ≡ top ++ filter is_provider (order_rows (filter (is_of 1 3) rows)))
        × IsTop 5 (filter (λ o. not (is_provider o)) (order_rows (filter (is_of 1 3) rows))) top)
find_all_for_audit_lists_example = find_all_for_audit_lists 1 3 generated

other_organization : (generate_from_audit outside 2 3 audited).1 ≡ not_found
unfolding generate_from_audit
other_organization = refl

no_generator : generate_from_site_audit outside 1 3 audited ≡ (audited, generator_failed)
unfolding generate_from_site_audit
no_generator = refl

-- A finding that one call gives twice is written twice.
twice_in_one :
    length
      (sync_missing_provider_opportunities 1 3
        (finding "gbp" "no_hours" ∷ finding "gbp" "no_hours" ∷ [])
        generated).opportunities
    ≡ 4
unfolding sync_missing_provider_opportunities build_source_data get_field build_provider_source_data
twice_in_one = refl

not_found_status : (update_status 1 99 done generated).1 ≡ not_found
unfolding update_status
not_found_status = refl
