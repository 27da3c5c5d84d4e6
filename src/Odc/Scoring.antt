-- ===== src/Odc/Scoring.antt =====
-- The summary and the scores of an application in src/odc/odc-applications.service.ts.
use robia_back.Prelude.{
  ℕ, ◌+◌, String, Bool, true, false, not, Option, none, some, List, [], ◌∷◌, ◌==◌, map, any, every,
  length, str_eq, if◌then◌else◌,
}
use robia_back.Odc.Completeness.{
  is_received, Answer, answer_at, undefined, null, text, LinePoints, compute_weighted_total,
}
use robia_back.Odc.Application.{
  is_terminal, proposed, prepared, ScoreLine, State, conflict, bad_request, Outcome, ok, err,
}

-- `assertNotTerminal`, then the write.
unfoldable pub propose_summary : String → State → Outcome
propose_summary summary s =
    if is_terminal s.application.status
    then err conflict
    else ok (record s {
      application = record s.application { summary_draft = some (proposed summary) };
    })

abbrev pub is_answered : Answer → Bool
is_answered undefined = false
is_answered null = false
is_answered (text s) = not (str_eq s "")
is_answered _ = true

unfoldable pub count_if {ℓ} : {A : Type ℓ} → (A → Bool) → List A → ℕ
count_if p [] = 0
count_if p (x ∷ xs) = let rest = count_if p xs in if p x then rest + 1 else rest

unfoldable pub prepare_application_summary : State → Outcome
prepare_application_summary s =
    if is_terminal s.application.status
    then ok s
    else ok (record s {
      application = record s.application {
        summary_draft = some (
            prepared
              (count_if (λ f. is_answered (answer_at f.key s.application.answers)) s.program.fields)
              (length s.program.fields) (count_if (λ d. is_received d.status) s.documents)
              (length s.program.doc_types));
      };
    })

-- One line of the transaction of upserts.
unfoldable pub upsert_line : ℕ → (ScoreLine → ScoreLine) → List ScoreLine → List ScoreLine
upsert_line criterion_id f [] =
    f (record {
      criterion_id = criterion_id;
      proposed_points = none;
      proposed_by = none;
      rationale = none;
      final_points = none;
    })
    ∷ []
upsert_line criterion_id f (l ∷ lines) =
    if l.criterion_id == criterion_id then f l ∷ lines else l ∷ upsert_line criterion_id f lines

unfoldable pub upsert_all : List (ℕ × (ScoreLine → ScoreLine)) → List ScoreLine → List ScoreLine
upsert_all [] lines = lines
upsert_all ((c, f) ∷ more) lines = upsert_all more (upsert_line c f lines)

abbrev pub proposed_line : ScoreLine → LinePoints
proposed_line l = record { criterion_id = l.criterion_id; points = l.proposed_points }

abbrev pub final_line : ScoreLine → LinePoints
final_line l = record { criterion_id = l.criterion_id; points = l.final_points }

unfoldable pub recompute_totals : State → State
recompute_totals s = record s {
  application = record s.application {
    proposed_total = compute_weighted_total s.program.criteria (map proposed_line s.score_lines);
    final_total = compute_weighted_total s.program.criteria (map final_line s.score_lines);
  };
}

-- `proposeScores` and `updateFinalScores`, which differ in what each line writes.
unfoldable pub write_scores : List (ℕ × (ScoreLine → ScoreLine)) → State → Outcome
write_scores scores s =
    if is_terminal s.application.status
    then err conflict
    else if every (λ l. any (λ c. c.id == l.0) s.program.criteria) scores
    then ok (recompute_totals (record s { score_lines = upsert_all scores s.score_lines }))
    else err bad_request

abbrev pub proposal : ℕ → String → Option String → ScoreLine → ScoreLine
proposal points by why l = record l {
  proposed_points = some points;
  proposed_by = some by;
  rationale = why;
}

abbrev pub final_score : ℕ → ScoreLine → ScoreLine
final_score points l = record l { final_points = some points }
