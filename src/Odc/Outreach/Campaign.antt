-- ===== src/Odc/Outreach/Campaign.antt =====
-- The requests of src/odc/odc-outreach.service.ts against an abstract campaign: a list of the
-- applications whose mail is to be sent, first to last, and the list of those whose mail is sent.
use robia_back.Prelude.{ℕ, ◌≡◌, refl, sym, subst, inl, inr, Option, List, [], ◌∷◌, ◌++◌}
use robia_back.Odc.Outreach.Rows.{Failure, Outreach, Mail, World, queue_of}
use robia_back.Odc.Outreach.Queueing.{queue}
use robia_back.Odc.Outreach.Sending.{send, skip}
use robia_back.Odc.Outreach.Plan.{pending, mailed, Mails, Keeps, Skips}

pub record Campaign : Type 0 where
  pub pending : List ℕ
  pub mailed : List ℕ

-- The campaign of a program: its queue, without its representation.
abbrev pub campaign_of : ℕ → ℕ → World → Campaign
campaign_of o p w = record {
  pending = pending (queue_of o p w.outreaches);
  mailed = mailed (queue_of o p w.outreaches);
}

-- The steps of a campaign: applications join at the end, the first one is mailed, one is dropped
-- from any place.
pub data Step : Campaign → Campaign → Type 0 where
  stays : (s : Campaign) → Step s s
  joins :
      (waiting sent ids : List ℕ)
      → Step
          (record { pending = waiting; mailed = sent })
          (record { pending = waiting ++ ids; mailed = sent })
  mails :
      (a : ℕ) (waiting sent : List ℕ)
      → Step
          (record { pending = a ∷ waiting; mailed = sent })
          (record { pending = waiting; mailed = sent ++ a ∷ [] })
  drops :
      (a : ℕ) (before after sent : List ℕ)
      → Step
          (record { pending = before ++ a ∷ after; mailed = sent })
          (record { pending = before ++ after; mailed = sent })

pub data Request : Type 0 where
  queue_request : ℕ → ℕ → List ℕ → Request
  send_request : (Mail → Option Failure) → ℕ → ℕ → ℕ → ℕ → Request
  skip_request : ℕ → ℕ → ℕ → Request

unfoldable pub handle : Request → World → World
unfolding queue send skip
handle (queue_request o p ids) w = (queue o p ids w).0
handle (send_request transport now o user id) w = (send transport now o user id w).0
handle (skip_request o user id) w = (skip o user id w).0

-- The campaign of rows, and its step by equations.
abbrev pub campaign : List Outreach → Campaign
campaign rows = record { pending = pending rows; mailed = mailed rows }

pub campaign_path : (s t : Campaign) → s.pending ≡ t.pending → s.mailed ≡ t.mailed → s ≡ t
campaign_path s t e f i = record { pending = e i; mailed = f i }

pub Step-Keeps :
    (rows after : List Outreach) → Keeps rows after → Step (campaign rows) (campaign after)
Step-Keeps rows after k =
    subst (Step (campaign rows))
      (campaign_path (campaign rows) (campaign after) (sym k.0) (sym k.1)) (stays (campaign rows))

Step-between : {s s' t t' : Campaign} → s ≡ s' → t ≡ t' → Step s' t' → Step s t
Step-between {s = s} {s' = s'} {t = t} {t' = t'} e f k =
    subst (λ x. Step x t) (sym e) (subst (λ x. Step s' x) (sym f) k)

pub Step-Mails :
    (rows after : List Outreach) → Mails rows after → Step (campaign rows) (campaign after)
Step-Mails rows after ((a, e, f), _) =
    Step-between
      (campaign_path (campaign rows) (record { pending = a ∷ pending after; mailed = mailed rows })
        e refl)
      (campaign_path (campaign after)
        (record { pending = pending after; mailed = mailed rows ++ a ∷ [] }) refl f)
      (mails a (pending after) (mailed rows))

pub Step-Skips :
    (rows after : List Outreach) → Skips rows after → Step (campaign rows) (campaign after)
Step-Skips rows after (inl e, f, s) = Step-Keeps rows after (e, f, s)
Step-Skips rows after (inr (a, xs, ys, e, g), f, _) =
    Step-between
      (campaign_path (campaign rows) (record { pending = xs ++ a ∷ ys; mailed = mailed rows }) e
        refl)
      (campaign_path (campaign after) (record { pending = xs ++ ys; mailed = mailed rows }) g f)
      (drops a xs ys (mailed rows))

pub Step-joins :
    (rows after : List Outreach) (ids : List ℕ)
    → (pending after ≡ pending rows ++ ids) × (mailed after ≡ mailed rows)
    → Step (campaign rows) (campaign after)
Step-joins rows after ids (e, f) =
    Step-between refl
      (campaign_path (campaign after)
        (record { pending = pending rows ++ ids; mailed = mailed rows }) e f)
      (joins (pending rows) (mailed rows) ids)
