-- ===== src/Odc/Outreach/Recipients.antt =====
-- Rows that are sent, in src/odc/odc-outreach.service.ts, and the address of a mail.
use robia_back.Prelude.{
  ℕ, ◌≡◌, refl, sym, subst, inl, inr, Bool, true, false, ◌&&◌, some, List, [], ◌∷◌, ◌==◌, any, find,
  All, arith, Bool-cases,
}
use robia_back.Storage.Texts.{Text}
use robia_back.Notifications.Templates
use robia_back.Notifications.Templates.{Result, Rendered}
use robia_back.Odc.Outreach.Rows.{
  Outreach, Mail, World, address, is_sent, applicant_of, update_outreach,
}
use robia_back.Odc.Outreach.Queueing.{Reply, done, refused, invalid_template_data, is_empty}
use robia_back.Odc.Outreach.Sending.{compose, mark_sent}
use robia_back.Odc.Outreach.Creation.{IsOther, Distinct}

abbrev pub is_sent_to : ℕ → Outreach → Bool
is_sent_to a q = q.application_id == a && is_sent q.status

-- The row of the application is sent.
abbrev pub IsSentTo : List Outreach → ℕ → Type 0
IsSentTo rows a = any (λ (q : Outreach). q.application_id == a && is_sent q.status) rows ≡ true

abbrev pub IsUnsent : ℕ → Outreach → Type 0
IsUnsent i q = (q.id == i) ≡ true → is_sent q.status ≡ false

-- An update of a row that is not sent keeps those that are.
pub IsSentTo-update_outreach :
    (i a : ℕ) (f : Outreach → Outreach) (rows : List Outreach)
    → All (IsUnsent i) rows
    → IsSentTo rows a
    → IsSentTo (update_outreach i f rows) a
unfolding update_outreach
IsSentTo-update_outreach i a f [] u h = ground (arith, h)
IsSentTo-update_outreach i a f (r ∷ rows) u h =
    ground (arith, h, u.0, IsSentTo-update_outreach i a f rows u.1)

found_All :
    (P : Outreach → Type 0) (p : Outreach → Bool) (rows : List Outreach) (r : Outreach)
    → find p rows ≡ some r
    → All P rows
    → P r
found_All P p [] r h k = absurd (ground (arith, h))
found_All P p (q ∷ rows) r h k = elim (Bool-cases (p q)) [
  | inl e ↦ subst P (let same : q ≡ r = ground (arith, h, e) in same) k.0
  | inr e ↦
      found_All P p rows r (let rest : find p rows ≡ some r = ground (arith, h, e) in rest) k.1
]

others_unsent :
    (r : Outreach) (rows : List Outreach)
    → All (IsOther r) rows
    → any (is_sent_to r.application_id) rows ≡ false
others_unsent r [] h = refl
others_unsent r (q ∷ rows) h = ground (arith, h.0, others_unsent r rows h.1)

-- No other row is of the application of a row that is found.
pub found_unsent :
    (p : Outreach → Bool) (rows : List Outreach) (r : Outreach)
    → find p rows ≡ some r
    → Distinct rows
    → is_sent r.status ≡ false
    → any (is_sent_to r.application_id) rows ≡ false
found_unsent p [] r h d u = refl
found_unsent p (q ∷ rows) r h d u = elim (Bool-cases (p q)) [
  | inl e ↦
      let same : q ≡ r = ground (arith, h, e) in
      let others = others_unsent r rows (subst (λ x. All (IsOther x) rows) same d.0) in
      let unsent : is_sent q.status ≡ false = subst (λ x. is_sent x.status ≡ false) (sym same) u in
      ground (arith, others, unsent)
  | inr e ↦
      let rest : find p rows ≡ some r = ground (arith, h, e) in
      let other : IsOther q r = found_All (IsOther q) p rows r rest d.0 in
      ground (arith, other, found_unsent p rows r rest d.1 u)
]

pub IsSentTo-mark_sent :
    (o i user now : ℕ) (rows : List Outreach) (r : Outreach)
    → find (λ r. r.id == i && r.organization_id == o) rows ≡ some r
    → IsSentTo (update_outreach i (mark_sent user now) rows) r.application_id
unfolding update_outreach
IsSentTo-mark_sent o i user now [] r h = absurd (ground (arith, h))
IsSentTo-mark_sent o i user now (q ∷ rows) r h =
    elim (Bool-cases (q.id == i && q.organization_id == o)) [
      | inl e ↦
          let same : q.application_id ≡ r.application_id = ground (arith, h, e) in
          ground (arith, e, same)
      | inr e ↦
          let rest : find (λ r. r.id == i && r.organization_id == o) rows ≡ some r =
            ground (arith, h, e) in
          ground (arith, e, IsSentTo-mark_sent o i user now rows r rest)
    ]

mail_to :
    (email : Text) (mail : Mail) (x : Result Rendered)
    → ◌≡◌ {A = Reply Mail}
        (elim x [
          | Templates.ok m ↦ done (record { to = email; subject = m.subject; body = m.body })
          | _ ↦ refused invalid_template_data
        ])
        (done mail)
    → mail.to ≡ email
mail_to email mail (Templates.ok m) h = ground (arith, h)
mail_to email mail Templates.unknown_template h = ground (arith, h)
mail_to email mail Templates.invalid_data h = ground (arith, h)
mail_to email mail Templates.type_error h = ground (arith, h)

pub composed_to :
    (w : World) (r : Outreach) (mail : Mail)
    → compose w r ≡ done mail
    → mail.to ≡ address (applicant_of r.application_id w.applications)
unfolding compose
composed_to w r mail h =
    let email = address (applicant_of r.application_id w.applications) in
    elim (Bool-cases (is_empty email)) [
      | inl e ↦ absurd (ground (arith, h, e))
      | inr e ↦ mail_to email mail _ (rw (compose, e) at h)
    ]
