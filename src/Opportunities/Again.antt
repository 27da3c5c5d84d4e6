-- ===== src/Opportunities/Again.antt =====
-- Generations of src/opportunities/opportunities.service.ts, and the ones after them.
use robia_back.Prelude.{
  ℕ, ◌+◌, ◌≡◌, ◌⊎◌, refl, sym, subst, inl, inr, true, false, ◌&&◌, Option, some, List, [], ◌∷◌,
  ◌++◌, ◌==◌, any, filter, find, length, All, arith, Bool-cases, Option-cases, All-map,
}
use robia_back.Opportunities.Rows.{Opportunity, Finding, Generated, existing_provider_rule_keys}
use robia_back.Opportunities.Generation.{
  Audit, World, Outside, returned, collect_findings, provider_rows, seo_rows, create_all,
  is_missing, add_missing, sync_missing_provider_opportunities, find_all_for_audit, generate_new,
  generate_with, generate_from_audit, generate_from_site_audit,
}
use robia_back.Opportunities.Sync.{
  IsRecorded, IsRecorded-append, provider_rows-IsRecorded, sync_opportunities, sync-IsRecorded,
  sync_recorded,
}

abbrev pub find_audit : ℕ → ℕ → World → Option Audit
find_audit organization i w =
    find (λ (a : Audit). a.id == i && a.organization_id == organization && a.is_completed) w.audits

-- A generation adds rows to those that are there, records every finding of the adapters that have
-- not failed, and leaves the audits as they are.
pub record IsGenerated (out : Outside) (organization i : ℕ) (a : Audit) (w v : World) : Type 0 where
  pub found : find_audit organization i w ≡ some a
  pub created : List Opportunity
  pub added : v.opportunities ≡ w.opportunities ++ created
  pub same_audits : v.audits ≡ w.audits
  pub recorded : All (IsRecorded i v.opportunities) (collect_findings (out.settle organization a))

audits-add_missing :
    (organization i : ℕ) (missing : List Finding) (w : World)
    → (add_missing organization i missing w).audits ≡ w.audits
unfolding add_missing create_all
audits-add_missing organization i [] w = refl
audits-add_missing organization i (f ∷ missing) w = refl

sync-IsGenerated :
    (out : Outside) (organization i : ℕ) (a : Audit) (w : World)
    → find_audit organization i w ≡ some a
    → IsGenerated out organization i a w (
        sync_missing_provider_opportunities organization i
          (collect_findings (out.settle organization a))
          w)
unfolding sync_missing_provider_opportunities
sync-IsGenerated out organization i a w f =
    let findings = collect_findings (out.settle organization a) in
    let missing = filter (is_missing (existing_provider_rule_keys i w.opportunities)) findings in
    record {
      found = f;
      created = provider_rows organization i w.next_id missing;
      added = sync_opportunities organization i findings w;
      same_audits = audits-add_missing organization i missing w;
      recorded = sync-IsRecorded organization i findings w;
    }

generate_new-IsGenerated :
    (out : Outside) (organization i : ℕ) (a : Audit) (generated : List Generated) (w : World)
    → find_audit organization i w ≡ some a
    → IsGenerated out organization i a w
        (generate_new organization i generated (collect_findings (out.settle organization a)) w).0
unfolding generate_new create_all
generate_new-IsGenerated out organization i a generated w f =
    let findings = collect_findings (out.settle organization a) in
    let seo = seo_rows organization i w.next_id generated in
    let more = provider_rows organization i (w.next_id + length generated) findings in
    record {
      found = f;
      created = seo ++ more;
      added = refl;
      same_audits = refl;
      recorded =
          All-map
            (λ g h.
              IsRecorded-append i w.opportunities (seo ++ more) g
                (inr (IsRecorded-append i seo more g (inr h))))
            findings
            (provider_rows-IsRecorded organization i (w.next_id + length generated) findings);
    }

generate_with-IsGenerated :
    (generate : Audit → Option (List Generated)) (out : Outside) (organization i : ℕ) (w v : World)
    (rows : List Opportunity)
    → generate_with generate out organization i w ≡ (v, returned rows)
    → (a : Audit) × IsGenerated out organization i a w v
unfolding generate_with
generate_with-IsGenerated generate out organization i w v rows h =
    elim (Option-cases (find_audit organization i w)) [
      | inl n ↦ absurd (ground (arith, h, n))
      | inr (a, f) ↦
          let findings = collect_findings (out.settle organization a) in
          elim (Bool-cases (any (λ (o : Opportunity). o.audit_id == i) w.opportunities)) [
            | inl e ↦
                let same : sync_missing_provider_opportunities organization i findings w ≡ v =
                  ground (arith, h, f, e) in
                (
                  a,
                  subst (IsGenerated out organization i a w) same
                      (sync-IsGenerated out organization i a w f),
                )
            | inr e ↦ elim (Option-cases (generate a)) [
              | inl n ↦ absurd (ground (arith, h, f, e, n))
              | inr (generated, g) ↦
                  let same : (generate_new organization i generated findings w).0 ≡ v =
                    ground (arith, h, f, e, g) in
                  (
                    a,
                    subst (IsGenerated out organization i a w) same
                        (generate_new-IsGenerated out organization i a generated w f),
                  )
            ]
          ]
    ]

generate_with_again :
    (generate : Audit → Option (List Generated)) (out : Outside) (organization i : ℕ) (a : Audit)
    (w v : World)
    → IsGenerated out organization i a w v
    → any (λ (o : Opportunity). o.audit_id == i) v.opportunities ≡ true
    → generate_with generate out organization i v
      ≡ (v, returned (find_all_for_audit organization i v))
unfolding generate_with
generate_with_again generate out organization i a w v g e =
    let findings = collect_findings (out.settle organization a) in
    let same = sync_recorded organization i findings v g.recorded in
    let here : find_audit organization i v ≡ some a =
      subst
        (λ audits.
          find (λ (a : Audit). a.id == i && a.organization_id == organization && a.is_completed)
            audits
          ≡ some a)
        (sym g.same_audits) g.found in
    ground (arith, here, e, same)

either-IsGenerated :
    (out : Outside) (organization i : ℕ) (w v : World) (rows : List Opportunity)
    → (generate_from_audit out organization i w ≡ (v, returned rows))
      ⊎ (generate_from_site_audit out organization i w ≡ (v, returned rows))
    → (a : Audit) × IsGenerated out organization i a w v
unfolding generate_from_audit generate_from_site_audit
either-IsGenerated out organization i w v rows (inl h) =
    generate_with-IsGenerated out.generate out organization i w v rows h
either-IsGenerated out organization i w v rows (inr h) =
    generate_with-IsGenerated out.generate_for_site out organization i w v rows h

-- A generation by either of the two calls that returns keeps every opportunity, only adds some, and
-- records every finding of the adapters that have not failed. Afterwards the audit has no
-- opportunity, or a later generation by either call, where the adapters give the same findings,
-- changes nothing and returns the list of its opportunities.
pub generate_again :
    (out : Outside) (organization i : ℕ) (w v : World) (rows : List Opportunity)
    → (generate_from_audit out organization i w ≡ (v, returned rows))
      ⊎ (generate_from_site_audit out organization i w ≡ (v, returned rows))
    → ((a : Audit) × IsGenerated out organization i a w v)
      × ((any (λ (o : Opportunity). o.audit_id == i) v.opportunities ≡ false)
          ⊎ ((generate_from_audit out organization i v
                ≡ (v, returned (find_all_for_audit organization i v)))
              × (generate_from_site_audit out organization i v
                  ≡ (v, returned (find_all_for_audit organization i v)))))
unfolding generate_from_audit generate_from_site_audit
generate_again out organization i w v rows h =
    let (a, g) = either-IsGenerated out organization i w v rows h in
    (
      (a, g),
      elim (Bool-cases (any (λ (o : Opportunity). o.audit_id == i) v.opportunities)) [
        | inr e ↦ inl e
        | inl e ↦ inr (
          generate_with_again out.generate out organization i a w v g e,
          generate_with_again out.generate_for_site out organization i a w v g e,
        )
      ],
    )
