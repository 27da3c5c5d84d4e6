-- ===== src/Storage/Slots.antt =====
-- The rows of a dossier of src/odc/odc-applications.service.ts before and after an upload.
use robia_back.Prelude.{
  ℕ, ◌≡◌, ◌≢◌, inl, inr, refl, String, some, List, [], ◌∷◌, find, ◌==◌, arith, Option-cases,
}
use robia_back.Storage.Texts.{Text}
use robia_back.Odc.Completeness.{received}
use robia_back.Odc.Application.{StoredDocument, State, ok}
use robia_back.Odc.Dossier.{occupies, replace_slot, delete_document, add_uploaded_document}

-- The row that an upload creates.
abbrev pub new_document : ℕ → ℕ → String → String → ℕ → Text → StoredDocument
new_document id type_id name mime size key = record {
  id = id;
  document_type_id = type_id;
  original_name = name;
  mime_type = mime;
  size_bytes = size;
  storage_key = some key;
  status = received;
}

pub documents-add_uploaded_document :
    (i y : ℕ) (n m : String) (z : ℕ) (k : Text) (s t : State)
    → add_uploaded_document i y n m z k s ≡ ok t
    → t.documents ≡ new_document i y n m z k ∷ replace_slot y s.documents
unfolding add_uploaded_document
documents-add_uploaded_document i y n m z k s t h = ground arith

-- The row of an id, in a list without another row.
find-delete_document :
    (i j : ℕ) (documents : List StoredDocument)
    → i ≢ j
    → find (λ d. d.id == j) (delete_document i documents) ≡ find (λ d. d.id == j) documents
unfolding delete_document
find-delete_document i j [] n = refl
find-delete_document i j (d ∷ documents) n = ground (arith, find-delete_document i j documents n)

pub find-replace_slot :
    (y j : ℕ) (documents : List StoredDocument)
    → ((d : StoredDocument) → find (occupies y) documents ≡ some d → d.id ≢ j)
    → find (λ d. d.id == j) (replace_slot y documents) ≡ find (λ d. d.id == j) documents
unfolding replace_slot
find-replace_slot y j documents h = elim (Option-cases (find (occupies y) documents)) [
  | inl e ↦ rw (replace_slot, e) refl
  | inr (d, e) ↦ rw (replace_slot, e) (find-delete_document d.id j documents (h d e))
]

pub found_id :
    (j : ℕ) (documents : List StoredDocument) (d : StoredDocument)
    → find (λ (d : StoredDocument). d.id == j) documents ≡ some d
    → d.id ≡ j
found_id j [] d h = ground arith
found_id j (x ∷ documents) d h = ground (arith, found_id j documents d)
