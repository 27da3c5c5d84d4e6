-- ===== src/Odc/Completeness.antt =====
-- src/odc/odc-completeness.ts: what is missing from an application, and its weighted total.
use Prim.Native.String
use robia_back.Prelude.{
  ℕ, ◌+◌, ◌*◌, String, Bool, true, false, ◌&&◌, not, Option, none, some, List, [], ◌∷◌, ◌++◌, ◌==◌,
  any, find, str_eq, is_blank, inherited_names, if◌then◌else◌,
}

pub record FieldSpec : Type 0 where
  pub key : String
  pub required : Bool

pub record DocumentType : Type 0 where
  pub id : ℕ
  pub key : String
  pub required : Bool

pub data DocumentStatus : Type 0 where
  pending_upload received rejected : DocumentStatus

pub record Document : Type 0 where
  pub document_type_id : ℕ
  pub status : DocumentStatus

-- A value of `answers`: `undefined`, `null`, a text, or anything else.
pub data Answer : Type 0 where
  undefined null other : Answer
  text : String → Answer

abbrev pub Answers : Type 0
Answers = List (String × Answer)

-- `answers[key]`: an own property, else what every object inherits, else `undefined`.
unfoldable pub answer_at : String → Answers → Answer
answer_at key [] = if any (str_eq key) inherited_names then other else undefined
answer_at key ((k, v) ∷ answers) = if str_eq k key then v else answer_at key answers

abbrev pub is_received : DocumentStatus → Bool
is_received received = true
is_received _ = false

-- `isEmpty`
unfoldable pub is_empty_answer : Answer → Bool
is_empty_answer undefined = true
is_empty_answer null = true
is_empty_answer (text s) = is_blank s
is_empty_answer other = false

unfoldable pub has_received : ℕ → List Document → Bool
has_received id documents = any (λ d. d.document_type_id == id && is_received d.status) documents

-- The two loops that push to `missing`.
unfoldable pub missing_fields : List FieldSpec → Answers → List String
missing_fields [] answers = []
missing_fields (f ∷ fields) answers =
    let rest = missing_fields fields answers in
    if f.required && is_empty_answer (answer_at f.key answers)
    then String.◌++◌ "field:" f.key ∷ rest
    else rest

unfoldable pub missing_documents : List DocumentType → List Document → List String
missing_documents [] documents = []
missing_documents (t ∷ types) documents =
    let rest = missing_documents types documents in
    if t.required && not (has_received t.id documents)
    then String.◌++◌ "document:" t.key ∷ rest
    else rest

pub record Completeness : Type 0 where
  pub complete : Bool
  pub missing : List String

abbrev pub is_nil : List String → Bool
is_nil [] = true
is_nil (x ∷ xs) = false

unfoldable pub check_completeness :
    List FieldSpec → List DocumentType → Answers → List Document → Completeness
unfolding missing_fields missing_documents
check_completeness fields types answers documents =
    let missing = missing_fields fields answers ++ missing_documents types documents in
    record { complete = is_nil missing; missing = missing }

pub record Criterion : Type 0 where
  pub id : ℕ
  pub weight : ℕ
  pub required : Bool

pub record LinePoints : Type 0 where
  pub criterion_id : ℕ
  pub points : Option ℕ

-- `lines.find(…)?.points`, with `undefined` and `null` as one.
unfoldable pub points_of : ℕ → List LinePoints → Option ℕ
points_of id lines = elim (find (λ l. l.criterion_id == id) lines) [
  | none ↦ none
  | some l ↦ l.points
]

-- The first loop: some required criterion has no points.
unfoldable pub blocks_total : List Criterion → List LinePoints → Bool
blocks_total [] lines = false
blocks_total (c ∷ criteria) lines =
    let rest = blocks_total criteria lines in
    if c.required then elim (points_of c.id lines) [ none ↦ true | some p ↦ rest ] else rest

-- The second loop.
unfoldable pub sum_points : List Criterion → List LinePoints → ℕ → ℕ
sum_points [] lines total = total
sum_points (c ∷ criteria) lines total =
    sum_points criteria lines
      (total + elim (points_of c.id lines) [ none ↦ 0 | some p ↦ p * c.weight ])

unfoldable pub compute_weighted_total : List Criterion → List LinePoints → Option ℕ
unfolding blocks_total sum_points
compute_weighted_total criteria lines =
    if blocks_total criteria lines then none else some (sum_points criteria lines 0)
