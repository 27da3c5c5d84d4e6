-- ===== src/Odc/Outreach/Once.antt =====
-- Sequences of requests of src/odc/odc-outreach.service.ts: whom the accepted mails went to.
use robia_back.Prelude.{
  ℕ, ◌≡◌, refl, sym, ap, ◌∙◌, subst, inl, inr, false, ◌&&◌, Option, some, List, [], ◌∷◌, ◌++◌, ◌==◌,
  any, map, length, All, arith, Bool-cases, Option-cases, All-map, All-concat, any-append,
}
use robia_back.Odc.Outreach.Rows.{
  Failure, Application, Outreach, Mail, World, address, is_sent, queue_of, find_outreach,
  applicant_of, update_outreach,
}
use robia_back.Odc.Outreach.Queueing.{done, unique, create_rows, enqueue, check_queue, queue}
use robia_back.Odc.Outreach.Sending.{
  compose, prepare, mark_failed, mark_sent, mark_skipped, record_failure, record_sent, send,
  record_skip, skip,
}
use robia_back.Odc.Outreach.Plan.{sendable_unsent}
use robia_back.Odc.Outreach.Creation.{new_rows, create_rows-new_rows}
use robia_back.Odc.Outreach.Validity.{IsValid, found_only}
use robia_back.Odc.Outreach.Delivery.{Reply-cases, prepare-IsPrepared, found_place, prepared_head}
use robia_back.Odc.Outreach.Campaign.{Request, queue_request, send_request, skip_request, handle}
use robia_back.Odc.Outreach.Refinement.{handle-Implements}
use robia_back.Odc.Outreach.Recipients.{
  is_sent_to, IsSentTo, IsUnsent, IsSentTo-update_outreach, found_unsent, IsSentTo-mark_sent,
  composed_to,
}

abbrev pub Unrepeated : List ℕ → Type 0
Unrepeated [] = Unit
Unrepeated (a ∷ ids) = (any (λ b. b == a) ids ≡ false) × Unrepeated ids

Unrepeated-append :
    (ids : List ℕ) (a : ℕ)
    → any (λ b. b == a) ids ≡ false
    → Unrepeated ids
    → Unrepeated (ids ++ a ∷ [])
Unrepeated-append [] a h u = (refl, tt)
Unrepeated-append (b ∷ ids) a h u =
    let later : any (λ c. c == b) (ids ++ a ∷ []) ≡ false =
      any-append (λ c. c == b) ids (a ∷ []) ∙ ground (arith, h, u.0) in
    (later, Unrepeated-append ids a (ground (arith, h)) u.1)

-- The accepted mails went to the applicants of these applications, one mail to each in this order,
-- and the row of each of them is sent.
pub record AreMailed (applications : List Application) (w : World) (ids : List ℕ) : Type 0 where
  pub kept : w.applications ≡ applications
  pub once : Unrepeated ids
  pub addressed :
      map (λ (m : Mail). m.to) w.outbox ≡ map (λ a. address (applicant_of a applications)) ids
  pub rows : All (IsSentTo w.outreaches) ids

absent_unsent :
    (rows : List Outreach) (a : ℕ) (ids : List ℕ)
    → any (is_sent_to a) rows ≡ false
    → All (IsSentTo rows) ids
    → any (λ b. b == a) ids ≡ false
absent_unsent rows a [] h k = refl
absent_unsent rows a (b ∷ ids) h k = elim (Bool-cases (b == a)) [
  | inr e ↦ rw e (absent_unsent rows a ids h k.1)
  | inl e ↦
      let same : b ≡ a = ground (arith, e) in
      let sent : IsSentTo rows a = subst (IsSentTo rows) same k.0 in
      absurd (ground (arith, h, sent))
]

map-snoc {ℓ κ} :
    {A : Type ℓ} {B : Type κ} (f : A → B) (xs : List A) (x : A)
    → map f (xs ++ x ∷ []) ≡ map f xs ++ f x ∷ []
map-snoc f [] x = refl
map-snoc f (y ∷ xs) x = ap (λ ys. f y ∷ ys) (map-snoc f xs x)

-- An update of a row that is not sent, with no mail.
AreMailed-update_outreach :
    (applications : List Application) (w v : World) (ids : List ℕ) (i : ℕ) (f : Outreach → Outreach)
    → All (IsUnsent i) w.outreaches
    → v.applications ≡ w.applications
    → v.outbox ≡ w.outbox
    → v.outreaches ≡ update_outreach i f w.outreaches
    → AreMailed applications w ids
    → AreMailed applications v ids
AreMailed-update_outreach applications w v ids i f u a b c m = record {
  kept = a ∙ m.kept;
  once = m.once;
  addressed = ap (map (λ (m : Mail). m.to)) b ∙ m.addressed;
  rows =
      subst (λ rows. All (IsSentTo rows) ids) (sym c)
        (All-map (λ j h. IsSentTo-update_outreach i j f w.outreaches u h) ids m.rows);
}

IsUnsent-rows :
    (o i : ℕ) (w : World) (r : Outreach)
    → IsValid w.next_id w.outreaches
    → find_outreach o i w ≡ some r
    → is_sent r.status ≡ false
    → All (IsUnsent r.id) w.outreaches
unfolding find_outreach
IsUnsent-rows o i w r v f u =
    subst (λ j. All (IsUnsent j) w.outreaches) (sym ((found_place o i w r f).0))
      (found_only (λ q. is_sent q.status ≡ false) o i w.outreaches r f v.ids u)

record_sent-AreMailed :
    (applications : List Application) (o i user now : ℕ) (w : World) (r : Outreach) (mail : Mail)
    (ids : List ℕ)
    → IsValid w.next_id w.outreaches
    → find_outreach o i w ≡ some r
    → is_sent r.status ≡ false
    → compose w r ≡ done mail
    → AreMailed applications w ids
    → AreMailed applications (record_sent user now r mail w) (ids ++ r.application_id ∷ [])
unfolding record_sent find_outreach
record_sent-AreMailed applications o i user now w r mail ids v f u c m =
    let a = r.application_id in
    let unsent =
      found_unsent (λ q. q.id == i && q.organization_id == o) w.outreaches r f v.distinct u in
    let to : mail.to ≡ address (applicant_of a applications) =
      composed_to w r mail c ∙ ap (λ x. address (applicant_of a x)) m.kept in
    let rows = update_outreach r.id (mark_sent user now) w.outreaches in
    let others =
      All-map
        (λ j h.
          IsSentTo-update_outreach r.id j (mark_sent user now) w.outreaches
            (IsUnsent-rows o i w r v f u) h)
        ids m.rows in
    let this : IsSentTo rows a =
      subst (λ j. IsSentTo (update_outreach j (mark_sent user now) w.outreaches) a)
        (sym ((found_place o i w r f).0)) (IsSentTo-mark_sent o i user now w.outreaches r f) in
    record {
      kept = m.kept;
      once = Unrepeated-append ids a (absent_unsent w.outreaches a ids unsent m.rows) m.once;
      addressed =
          map-snoc (λ (m : Mail). m.to) w.outbox mail
          ∙ ap (λ xs. xs ++ mail.to ∷ []) m.addressed
          ∙ ap (λ x. map (λ a. address (applicant_of a applications)) ids ++ x ∷ []) to
          ∙ sym (map-snoc (λ a. address (applicant_of a applications)) ids a);
      rows = All-concat (IsSentTo rows) ids (a ∷ []) others (this, tt);
    }

abbrev Mailed : List Application → World → Type 0
Mailed applications w = (ids : List ℕ) × AreMailed applications w ids

queue-Mailed :
    (applications : List Application) (o p : ℕ) (asked : List ℕ) (w : World)
    → Mailed applications w
    → Mailed applications (queue o p asked w).0
unfolding queue enqueue
queue-Mailed applications o p asked w (ids, m) = elim (Reply-cases (check_queue o p asked w)) [
  | inr (e, k) ↦
      let same : w ≡ (queue o p asked w).0 = ground (arith, k) in
      subst (Mailed applications) same (ids, m)
  | inl (program, k) ↦
      let b = program.organization_id in
      let count = length (queue_of b program.id w.outreaches) in
      elim (Option-cases (create_rows b program.id count w.next_id (unique asked) w.outreaches)) [
        | inl n ↦
            let same : w ≡ (queue o p asked w).0 = ground (arith, k, n) in
            subst (Mailed applications) same (ids, m)
        | inr (rows, s) ↦
            let built =
              create_rows-new_rows b program.id count w.next_id (unique asked) w.outreaches rows
                s in
            let v = (queue o p asked w).0 in
            let table : v.outreaches ≡ rows = ground (arith, k, s) in
            let apps : v.applications ≡ w.applications = ground (arith, k, s) in
            let box : v.outbox ≡ w.outbox = ground (arith, k, s) in
            (
              ids,
              record {
                kept = apps ∙ m.kept;
                once = m.once;
                addressed = ap (map (λ (m : Mail). m.to)) box ∙ m.addressed;
                rows =
                    subst (λ x. All (IsSentTo x) ids) (sym (table ∙ built))
                      (All-map
                        (λ j h.
                          any-append (is_sent_to j) w.outreaches
                            (new_rows b program.id count w.next_id (unique asked))
                          ∙ ground (arith, h))
                        ids m.rows);
              },
            )
      ]
]

send-Mailed :
    (applications : List Application) (transport : Mail → Option Failure) (now o user i : ℕ)
    (w : World)
    → IsValid w.next_id w.outreaches
    → Mailed applications w
    → Mailed applications (send transport now o user i w).0
unfolding send record_failure
send-Mailed applications transport now o user i w v (ids, m) = elim (Reply-cases (prepare o i w)) [
  | inr (e, k) ↦
      let same : w ≡ (send transport now o user i w).0 = ground (arith, k) in
      subst (Mailed applications) same (ids, m)
  | inl ((r, mail), k) ↦
      let p = prepare-IsPrepared o i w r mail k in
      let unsent = sendable_unsent r.status (prepared_head o i w r mail v p).0 in
      elim (Option-cases (transport mail)) [
        | inr (failure, f) ↦
            let same : record_failure failure r w ≡ (send transport now o user i w).0 =
              ground (arith, k, f) in
            subst (Mailed applications) same (
              ids,
              AreMailed-update_outreach applications w (record_failure failure r w) ids r.id
                  (mark_failed failure) (IsUnsent-rows o i w r v p.found unsent) refl refl refl m,
            )
        | inl n ↦
            let same : record_sent user now r mail w ≡ (send transport now o user i w).0 =
              ground (arith, k, n) in
            subst (Mailed applications) same (
              ids ++ r.application_id ∷ [],
              record_sent-AreMailed applications o i user now w r mail ids v p.found unsent
                  p.composed m,
            )
      ]
]

skip-Mailed :
    (applications : List Application) (o user i : ℕ) (w : World)
    → IsValid w.next_id w.outreaches
    → Mailed applications w
    → Mailed applications (skip o user i w).0
unfolding skip record_skip
skip-Mailed applications o user i w v (ids, m) = elim (Option-cases (find_outreach o i w)) [
  | inl n ↦
      let same : w ≡ (skip o user i w).0 = ground (arith, n) in
      subst (Mailed applications) same (ids, m)
  | inr (r, found) ↦ elim (Bool-cases (is_sent r.status)) [
    | inl e ↦
        let same : w ≡ (skip o user i w).0 = ground (arith, found, e) in
        subst (Mailed applications) same (ids, m)
    | inr unsent ↦
        let same : record_skip user r w ≡ (skip o user i w).0 = ground (arith, found, unsent) in
        subst (Mailed applications) same (
          ids,
          AreMailed-update_outreach applications w (record_skip user r w) ids r.id
              (mark_skipped user) (IsUnsent-rows o i w r v found unsent) refl refl refl m,
        )
  ]
]

handle-Mailed :
    (applications : List Application) (request : Request) (w : World)
    → IsValid w.next_id w.outreaches
    → Mailed applications w
    → Mailed applications (handle request w)
unfolding handle
handle-Mailed applications (queue_request o p ids) w v m = queue-Mailed applications o p ids w m
handle-Mailed applications (send_request transport now o user i) w v m =
    send-Mailed applications transport now o user i w v m
handle-Mailed applications (skip_request o user i) w v m = skip-Mailed applications o user i w v m

-- Requests one after the other.
unfoldable pub handle_all : List Request → World → World
unfolding handle
handle_all [] w = w
handle_all (request ∷ requests) w = handle_all requests (handle request w)

handle_all-Mailed :
    (applications : List Application) (requests : List Request) (w : World)
    → IsValid w.next_id w.outreaches
    → Mailed applications w
    → Mailed applications (handle_all requests w)
unfolding handle_all
handle_all-Mailed applications [] w v m = m
handle_all-Mailed applications (request ∷ requests) w v m =
    handle_all-Mailed applications requests (handle request w) (handle-Implements request w v).0
      (handle-Mailed applications request w v m)

pub empty-IsValid : (next_id : ℕ) → IsValid next_id []
unfolding queue_of
empty-IsValid next_id = record {
  ids = tt;
  supplied = tt;
  distinct = tt;
  queues = λ _ _. record { ordered = tt; bounded = tt; settled = tt };
}

-- After any requests, one after the other, on tables without outreaches and mails, there are
-- applications, none of them twice, such that the mails that the transport has accepted went to the
-- addresses of their applicants, one mail for each application in this order, and the row of each
-- is sent.
pub handle_all-AreMailed :
    (requests : List Request) (w : World)
    → w.outreaches ≡ []
    → w.outbox ≡ []
    → (ids : List ℕ) × AreMailed w.applications (handle_all requests w) ids
handle_all-AreMailed requests w no_rows no_mails =
    handle_all-Mailed w.applications requests w
      (subst (IsValid w.next_id) (sym no_rows) (empty-IsValid w.next_id))
      (
        [],
        record {
          kept = refl;
          once = tt;
          addressed = ap (map (λ (m : Mail). m.to)) no_mails;
          rows = tt;
        },
      )
