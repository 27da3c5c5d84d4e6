-- ===== src/Opportunities/Listing.antt =====
-- The list of opportunities that `findAllForAudit` of src/opportunities/opportunities.service.ts
-- returns.
use robia_back.Prelude.{
  ℕ, zero, suc, ◌≤◌, ◌<◌, ◌≡◌, refl, ap, ◌∙◌, subst, inl, inr, ◌⊎◌, Bool, true, not, List, [], ◌∷◌,
  ◌++◌, leb, filter, length, All, Any, arith, Bool-cases, All-map, All-filter,
}
use robia_back.Opportunities.Rows.{Opportunity, insert_row, order_rows}
use robia_back.Opportunities.Generation.{World, first_rows, is_provider, is_of, find_all_for_audit}

abbrev pub IsIn : Opportunity → List Opportunity → Type 0
IsIn o rows = Any (λ q. q ≡ o) rows

IsIn-insert_row :
    (o q : Opportunity) (rows : List Opportunity)
    → (q ≡ o) ⊎ IsIn o rows
    → IsIn o (insert_row q rows)
unfolding insert_row
IsIn-insert_row o q [] h = h
IsIn-insert_row o q (x ∷ rows) h = elim (Bool-cases (leb x.impact_score q.impact_score)) [
  | inl e ↦ rw e h
  | inr e ↦ rw e (elim h [
    | inl k ↦ inr (IsIn-insert_row o q rows (inl k))
    | inr k ↦ elim k [ inl m ↦ inl m | inr m ↦ inr (IsIn-insert_row o q rows (inr m)) ]
  ])
]

IsIn-order_rows :
    (o : Opportunity) (rows : List Opportunity) → IsIn o rows → IsIn o (order_rows rows)
unfolding order_rows
IsIn-order_rows o [] h = h
IsIn-order_rows o (q ∷ rows) (inl k) = IsIn-insert_row o q (order_rows rows) (inl k)
IsIn-order_rows o (q ∷ rows) (inr k) =
    IsIn-insert_row o q (order_rows rows) (inr (IsIn-order_rows o rows k))

IsIn-filter :
    (p : Opportunity → Bool) (o : Opportunity) (rows : List Opportunity)
    → p o ≡ true
    → IsIn o rows
    → IsIn o (filter p rows)
IsIn-filter p o [] t h = absurd h
IsIn-filter p o (q ∷ rows) t (inl k) = let passes : p q ≡ true = ap p k ∙ t in rw passes (inl k)
IsIn-filter p o (q ∷ rows) t (inr k) = elim (Bool-cases (p q)) [
  | inl e ↦ rw e (inr (IsIn-filter p o rows t k))
  | inr e ↦ rw e (IsIn-filter p o rows t k)
]

IsIn-append : (o : Opportunity) (rows more : List Opportunity) → IsIn o more → IsIn o (rows ++ more)
IsIn-append o [] more h = h
IsIn-append o (q ∷ rows) more h = inr (IsIn-append o rows more h)

-- Rows whose impact does not grow.
Descending : List Opportunity → Type 0
Descending [] = Unit
Descending (o ∷ rows) = All (λ q. q.impact_score ≤ o.impact_score) rows × Descending rows

All-insert_row :
    (n : ℕ) (o : Opportunity) (rows : List Opportunity)
    → o.impact_score ≤ n
    → All (λ q. q.impact_score ≤ n) rows
    → All (λ q. q.impact_score ≤ n) (insert_row o rows)
unfolding insert_row
All-insert_row n o [] h a = (h, tt)
All-insert_row n o (q ∷ rows) h a = elim (Bool-cases (leb q.impact_score o.impact_score)) [
  | inl e ↦ rw e (h, a)
  | inr e ↦ rw e (a.0, All-insert_row n o rows h a.1)
]

insert_row-Descending :
    (o : Opportunity) (rows : List Opportunity) → Descending rows → Descending (insert_row o rows)
unfolding insert_row Descending
insert_row-Descending o [] d = (tt, tt)
insert_row-Descending o (q ∷ rows) d = elim (Bool-cases (leb q.impact_score o.impact_score)) [
  | inl e ↦
      let below : q.impact_score ≤ o.impact_score = ground (arith, e) in
      rw e (
        (
          below,
          All-map
              (λ x h.
                let lower : x.impact_score ≤ o.impact_score = omega (arith, h, below) in lower)
              rows d.0,
        ),
        d,
      )
  | inr e ↦
      let above : o.impact_score ≤ q.impact_score = ground (arith, e) in
      rw e (All-insert_row q.impact_score o rows above d.0, insert_row-Descending o rows d.1)
]

order_rows-Descending : (rows : List Opportunity) → Descending (order_rows rows)
unfolding order_rows Descending
order_rows-Descending [] = tt
order_rows-Descending (o ∷ rows) =
    insert_row-Descending o (order_rows rows) (order_rows-Descending rows)

Descending-filter :
    (p : Opportunity → Bool) (rows : List Opportunity)
    → Descending rows
    → Descending (filter p rows)
unfolding Descending
Descending-filter p [] d = tt
Descending-filter p (o ∷ rows) d = elim (Bool-cases (p o)) [
  | inl e ↦
      rw e
        (All-filter (λ q. q.impact_score ≤ o.impact_score) p rows d.0, Descending-filter p rows d.1)
  | inr e ↦ rw e (Descending-filter p rows d.1)
]

-- The first `n` rows, and the others: none, if there are fewer, and none with a greater impact.
pub record IsTop (n : ℕ) (rows top : List Opportunity) : Type 0 where
  pub others : List Opportunity
  pub split : rows ≡ top ++ others
  pub bounded : length top ≤ n
  pub full : length top < n → others ≡ []
  pub best : All (λ t. All (λ q. q.impact_score ≤ t.impact_score) others) top

All-suffix :
    (n : ℕ) (top others : List Opportunity)
    → All (λ q. q.impact_score ≤ n) (top ++ others)
    → All (λ q. q.impact_score ≤ n) others
All-suffix n [] others h = h
All-suffix n (t ∷ top) others h = All-suffix n top others h.1

first_rows-IsTop :
    (n : ℕ) (rows : List Opportunity) → Descending rows → IsTop n rows (first_rows n rows)
unfolding first_rows Descending
first_rows-IsTop zero rows d = record {
  others = rows;
  split = refl;
  bounded = omega arith;
  full = λ h. absurd (omega (arith, h));
  best = tt;
}
first_rows-IsTop (suc n) [] d = record {
  others = [];
  split = refl;
  bounded = omega arith;
  full = λ _. refl;
  best = tt;
}
first_rows-IsTop (suc n) (o ∷ rows) d =
    let rest = first_rows-IsTop n rows d.1 in
    record {
      others = rest.others;
      split = ap (λ t. o ∷ t) rest.split;
      bounded = omega (arith, rest.bounded);
      full = λ h. rest.full (omega (arith, h));
      best = (
        All-suffix o.impact_score (first_rows n rows) rest.others
            (subst (All (λ q. q.impact_score ≤ o.impact_score)) rest.split d.0),
        rest.best,
      );
    }

-- The list of an audit has every opportunity of it that comes from a provider, after at most five
-- others: all the others of the audit, or five with none of a greater impact left out.
pub find_all_for_audit_lists :
    (organization audit : ℕ) (w : World)
    → ((o : Opportunity)
        → IsIn o w.opportunities
        → is_of organization audit o ≡ true
        → is_provider o ≡ true
        → IsIn o (find_all_for_audit organization audit w))
      × ((top : List Opportunity) × (find_all_for_audit organization audit w
            ≡ top
              ++ filter is_provider
                  (order_rows (filter (is_of organization audit) w.opportunities)))
          × IsTop 5
              (filter
                (λ o. not (is_provider o))
                (order_rows (filter (is_of organization audit) w.opportunities)))
              top)
unfolding find_all_for_audit
find_all_for_audit_lists organization audit w =
    let rows = order_rows (filter (is_of organization audit) w.opportunities) in
    let seo = filter (λ o. not (is_provider o)) rows in
    (
      (λ o h own provider. IsIn-append o (first_rows 5 seo) (filter is_provider rows) (
          IsIn-filter is_provider o rows provider (
            IsIn-order_rows o (filter (is_of organization audit) w.opportunities)
              (IsIn-filter (is_of organization audit) o w.opportunities own h)))),
      (
        first_rows 5 seo,
        refl,
        first_rows-IsTop 5 seo (
            Descending-filter (λ o. not (is_provider o)) rows
              (order_rows-Descending (filter (is_of organization audit) w.opportunities))),
      ),
    )
