-- ===== src/Odc/Dossier.antt =====
-- The answers and documents of an application in src/odc/odc-applications.service.ts.
use robia_back.Prelude.{
  ℕ, String, Bool, ◌||◌, Option, none, some, List, [], ◌∷◌, ◌==◌, any, find, str_eq, if◌then◌else◌,
}
use robia_back.Storage.Texts.{Text}
use robia_back.Odc.Completeness.{pending_upload, received, Answer, Answers}
use robia_back.Odc.Application.{
  is_draft, is_incomplete, is_in_review, StoredDocument, document_received, State, Error, not_found,
  conflict, Outcome, ok, err,
}
use robia_back.Odc.Lifecycle.{emit}

-- `{ ...answers, ...dto.answers }`
unfoldable pub put_answer : String → Answer → Answers → Answers
put_answer key v [] = (key, v) ∷ []
put_answer key v ((k, u) ∷ answers) =
    if str_eq k key then (k, v) ∷ answers else (k, u) ∷ put_answer key v answers

unfoldable pub merge_answers : Answers → Answers → Answers
merge_answers answers [] = answers
merge_answers answers ((k, v) ∷ more) = merge_answers (put_answer k v answers) more

unfoldable pub update_answers : Answers → State → Outcome
update_answers answers s =
    if is_draft s.application.status || is_incomplete s.application.status
    then ok (record s {
      application = record s.application { answers = merge_answers s.application.answers answers };
    })
    else err conflict

-- `resolveAddableDocumentType`
unfoldable pub addable : ℕ → State → Option Error
addable type_id s =
    if is_draft s.application.status
      || is_incomplete s.application.status
      || is_in_review s.application.status
    then (if any (λ t. t.id == type_id) s.program.doc_types then none else some not_found)
    else some conflict

unfoldable pub occupies : ℕ → StoredDocument → Bool
occupies type_id d = d.document_type_id == type_id

unfoldable pub add_document : ℕ → ℕ → String → String → ℕ → State → Outcome
unfolding addable occupies
add_document id type_id name mime size s = elim (addable type_id s) [
  | some e ↦ err e
  | none ↦
      if any (occupies type_id) s.documents
      then err conflict
      else ok (record s {
        documents =
            record {
              id = id;
              document_type_id = type_id;
              original_name = name;
              mime_type = mime;
              size_bytes = size;
              storage_key = none;
              status = pending_upload;
            }
            ∷ s.documents;
      })
]

-- The transaction deletes the occupant of the slot, if any, and creates the new row.
unfoldable pub delete_document : ℕ → List StoredDocument → List StoredDocument
delete_document id [] = []
delete_document id (d ∷ documents) =
    let rest = delete_document id documents in if d.id == id then rest else d ∷ rest

unfoldable pub replace_slot : ℕ → List StoredDocument → List StoredDocument
unfolding occupies
replace_slot type_id documents = elim (find (occupies type_id) documents) [
  | none ↦ documents
  | some d ↦ delete_document d.id documents
]

unfoldable pub add_uploaded_document : ℕ → ℕ → String → String → ℕ → Text → State → Outcome
add_uploaded_document id type_id name mime size key s = elim (addable type_id s) [
  | some e ↦ err e
  | none ↦ ok (
      emit (document_received id type_id) (record s {
        documents =
            record {
              id = id;
              document_type_id = type_id;
              original_name = name;
              mime_type = mime;
              size_bytes = size;
              storage_key = some key;
              status = received;
            }
            ∷ replace_slot type_id s.documents;
      }))
]
