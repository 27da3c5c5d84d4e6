-- ===== src/Odc/Screening.antt =====
-- What completeness and a total mean, apart from the loops of src/odc/odc-completeness.ts.
use robia_back.Prelude.{
  ℕ, ◌+◌, ◌*◌, ◌≡◌, ◌≢◌, ◌↔◌, refl, String, Bool, if◌then◌else◌, true, false, Option, none, some,
  List, [], ◌∷◌, ◌++◌, All, Any, any, find, str_eq, inherited_names, Bool-cases, arith, is_blank,
  inl, inr, Option-cases,
}
use robia_back.Odc.Completeness.{
  FieldSpec, DocumentType, Document, received, Answer, undefined, null, other, text, Answers,
  answer_at, is_empty_answer, has_received, missing_fields, missing_documents, check_completeness,
  is_nil, Criterion, LinePoints, points_of, blocks_total, sum_points, compute_weighted_total,
}

-- A value that counts as an answer: a text that is not blank, or a value that is no text.
abbrev pub IsAnswer : Answer → Type 0
IsAnswer undefined = ⊥
IsAnswer null = ⊥
IsAnswer (text s) = is_blank s ≡ false
IsAnswer other = Unit

-- What is stored under a key, or nothing; in that case a name that every object inherits is taken
-- for an answer.
unfoldable pub IsAnswered : String → Option (String × Answer) → Type 0
IsAnswered key (some (k, v)) = IsAnswer v
IsAnswered key none = any (str_eq key) inherited_names ≡ true

abbrev pub Satisfied : Answers → FieldSpec → Type 0
Satisfied answers f = f.required ≡ true → IsAnswered f.key (find (λ p. str_eq p.0 f.key) answers)

abbrev pub Supplied : List Document → DocumentType → Type 0
Supplied documents t =
    t.required ≡ true → Any (λ d. (d.document_type_id ≡ t.id) × (d.status ≡ received)) documents

empty_iff : (a : Answer) → (is_empty_answer a ≡ false) ↔ IsAnswer a
unfolding is_empty_answer
empty_iff undefined = ground arith
empty_iff null = ground arith
empty_iff (text s) = ground arith
empty_iff other = ground arith

inherited_iff : (b : Bool) → (is_empty_answer (if b then other else undefined) ≡ false) ↔ (b ≡ true)
unfolding is_empty_answer
inherited_iff true = ground arith
inherited_iff false = ground arith

IsAnswered-iff :
    (key : String) (answers : Answers)
    → (is_empty_answer (answer_at key answers) ≡ false)
      ↔ IsAnswered key (find (λ p. str_eq p.0 key) answers)
unfolding is_empty_answer answer_at IsAnswered
IsAnswered-iff key [] = inherited_iff (any (str_eq key) inherited_names)
IsAnswered-iff key ((k, v) ∷ answers) = elim (Bool-cases (str_eq k key)) [
  | inl e ↦ rw (answer_at, e) (empty_iff v)
  | inr e ↦ rw (answer_at, e) (IsAnswered-iff key answers)
]

received_iff :
    (id : ℕ) (documents : List Document)
    → (has_received id documents ≡ true)
      ↔ Any (λ d. (d.document_type_id ≡ id) × (d.status ≡ received)) documents
unfolding has_received
received_iff id [] = ((λ h. cc), (λ h. absurd h))
received_iff id (d ∷ documents) = ground (arith, received_iff id documents)

missing_fields_iff :
    (fields : List FieldSpec) (answers : Answers)
    → (missing_fields fields answers ≡ []) ↔ All (Satisfied answers) fields
unfolding missing_fields
missing_fields_iff [] answers = (λ _. tt, λ _. refl)
missing_fields_iff (f ∷ fields) answers =
    ground (arith, IsAnswered-iff f.key answers, missing_fields_iff fields answers)

missing_documents_iff :
    (types : List DocumentType) (documents : List Document)
    → (missing_documents types documents ≡ []) ↔ All (Supplied documents) types
unfolding missing_documents
missing_documents_iff [] documents = (λ _. tt, λ _. refl)
missing_documents_iff (t ∷ types) documents =
    ground (arith, received_iff t.id documents, missing_documents_iff types documents)

append-eq-nil : (xs ys : List String) → (is_nil (xs ++ ys) ≡ true) ↔ ((xs ≡ []) × (ys ≡ []))
append-eq-nil [] [] = ground arith
append-eq-nil [] (y ∷ ys) = ground arith
append-eq-nil (x ∷ xs) ys = ground arith

-- An application is complete exactly if every required document type has a document of that type
-- whose status is `received` and, for every required field, the answer that is stored under its key
-- is not blank or, where none is stored, the key is a name that every object inherits.
pub check_completeness_iff :
    (fields : List FieldSpec) (types : List DocumentType) (answers : Answers)
    (documents : List Document)
    → ((check_completeness fields types answers documents).complete ≡ true)
      ↔ (All (Satisfied answers) fields × All (Supplied documents) types)
unfolding check_completeness
check_completeness_iff fields types answers documents =
    let fs = missing_fields_iff fields answers in
    let ds = missing_documents_iff types documents in
    let both = append-eq-nil (missing_fields fields answers) (missing_documents types documents) in
    ((λ h. let (p, q) = both.0 h in (fs.0 p, ds.0 q)), (λ (p, q). both.1 (fs.1 p, ds.1 q)))

abbrev pub points_or_zero : Option ℕ → ℕ
points_or_zero none = 0
points_or_zero (some p) = p

-- The sum over the criteria of weight times points.
abbrev pub weighted_sum : List Criterion → List LinePoints → ℕ
weighted_sum [] lines = 0
weighted_sum (c ∷ criteria) lines =
    c.weight * points_or_zero (points_of c.id lines) + weighted_sum criteria lines

abbrev pub Scored : List LinePoints → Criterion → Type 0
Scored lines c = c.required ≡ true → points_of c.id lines ≢ none

sum_points-eq :
    (criteria : List Criterion) (lines : List LinePoints) (total : ℕ)
    → sum_points criteria lines total ≡ total + weighted_sum criteria lines
unfolding sum_points
sum_points-eq [] lines total = ground arith
sum_points-eq (c ∷ criteria) lines total = elim (Option-cases (points_of c.id lines)) [
  | inl e ↦ rw (e, sum_points) (omega (arith, sum_points-eq criteria lines (total + 0)))
  | inr (p, e) ↦
      rw (e, sum_points) (omega (arith, sum_points-eq criteria lines (total + p * c.weight)))
]

blocks_total_iff :
    (criteria : List Criterion) (lines : List LinePoints)
    → (blocks_total criteria lines ≡ false) ↔ All (Scored lines) criteria
unfolding blocks_total
blocks_total_iff [] lines = (λ _. tt, λ _. refl)
blocks_total_iff (c ∷ criteria) lines = ground (arith, blocks_total_iff criteria lines)

-- A total is the sum of weight times points over all criteria, with 0 for an optional criterion
-- that has no points, if every required criterion has points; otherwise there is no total.
pub compute_weighted_total_lem :
    (criteria : List Criterion) (lines : List LinePoints)
    → (All (Scored lines) criteria
        → compute_weighted_total criteria lines ≡ some (weighted_sum criteria lines))
      × ((¬ All (Scored lines) criteria) → compute_weighted_total criteria lines ≡ none)
unfolding compute_weighted_total
compute_weighted_total_lem criteria lines =
    ground (arith, blocks_total_iff criteria lines, sum_points-eq criteria lines 0)
