-- ===== src/Storage/Upload.antt =====
-- `OdcDocumentsService.upload` and `getFile` of src/odc/odc-documents.service.ts, over the dossier
-- of one application and the stored files. An id is a number, `id_text` writes it; `mime_allow` is
-- the list of a document type.
use robia_back.Prelude.{
  ℕ, ◌*◌, String, Bool, true, false, not, ◌&&◌, Option, none, some, List, any, find, ltb, ◌==◌,
  str_eq, if◌then◌else◌,
}
use robia_back.Storage.Texts.{Text, codes}
use robia_back.Storage.Keys.{build_odc_storage_key, storage_key_belongs_to}
use robia_back.Storage.Files.{FileSystem, get}
use robia_back.Odc.Completeness.{DocumentStatus, pending_upload, received, rejected}
use robia_back.Odc.Application.{StoredDocument, State, Error, Outcome, ok, err}
use robia_back.Odc.Dossier.{addable, occupies, add_uploaded_document}

pub record UploadFile (Content : Type 0) : Type 0 where
  pub buffer : Content
  pub mimetype : String
  pub originalname : String
  pub size : ℕ

pub data UploadError : Type 0 where
  payload_too_large mime_not_allowed not_written not_confirmed not_persisted : UploadError
  refused : Error → UploadError

-- `unanswered`: the row is committed, and the call fails nevertheless.
pub data Uploaded : Type 0 where
  uploaded unanswered : State → Uploaded
  failed : UploadError → Uploaded

-- What surrounds one upload: whether the database fails in the transaction of the row, whether
-- `addUploadedDocument` throws after its commit, in the event or in the query of its answer, and
-- what other requests do to the application while the file is written.
pub record Weather : Type 0 where
  pub row_fails : Bool
  pub answer_fails : Bool
  pub meanwhile : State → State

abbrev pub max_odc_upload_bytes : ℕ
max_odc_upload_bytes = 10 * 1024 * 1024

abbrev pub is_received : DocumentStatus → Bool
is_received received = true
is_received pending_upload = false
is_received rejected = false

module _ {Content : Type 0} (fs : FileSystem Content) (object_property : Text → Option Text)
    (id_text : ℕ → Text) (mime_allow : ℕ → List String)
    (organization_id application_id : Text) where
  abbrev pub belongs : Text → ℕ → Bool
  belongs key id = storage_key_belongs_to key organization_id application_id (id_text id)

  -- The key of the row that an uploaded document replaces, if it belongs to that row.
  unfoldable pub key_of_document : Option StoredDocument → Option Text
  key_of_document none = none
  key_of_document (some d) = elim d.storage_key [
    | none ↦ none
    | some key ↦ if belongs key d.id then some key else none
  ]

  unfoldable pub replaced_storage_key : ℕ → State → Option Text
  replaced_storage_key type_id s = key_of_document (find (occupies type_id) s.documents)

  abbrev pub remove_replaced : Option Text → fs.Files → fs.Files
  remove_replaced none files = files
  remove_replaced (some key) files = (fs.remove key files).1

  unfoldable pub settle : ℕ → Text → Weather → State → Outcome → fs.Files → Uploaded × fs.Files
  settle type_id key weather s (err e) files = (failed (refused e), (fs.remove key files).1)
  settle type_id key weather s (ok t) files =
      if weather.row_fails
      then (failed not_persisted, (fs.remove key files).1)
      else if weather.answer_fails
      then (unanswered t, (fs.remove key files).1)
      else (uploaded t, remove_replaced (replaced_storage_key type_id s) files)

  unfoldable pub persist :
      ℕ → ℕ → UploadFile Content → Text → Weather → State → fs.Files → Uploaded × fs.Files
  persist document_id type_id file key weather s files =
      settle type_id key weather s
        (add_uploaded_document document_id type_id file.originalname file.mimetype file.size key s)
        files

  unfoldable pub store :
      ℕ → ℕ → UploadFile Content → Text → Weather → State → fs.Files → Uploaded × fs.Files
  store document_id type_id file key weather s files =
      let written = fs.write key file.buffer files in
      if not written.0
      then (failed not_written, written.1)
      else if not (fs.access key written.1)
      then (failed not_confirmed, written.1)
      else persist document_id type_id file key weather (weather.meanwhile s) written.1

  unfoldable pub upload :
      ℕ → Text → ℕ → UploadFile Content → Weather → State → fs.Files → Uploaded × fs.Files
  upload document_id uuid type_id file weather s files =
      if ltb max_odc_upload_bytes file.size
      then (failed payload_too_large, files)
      else elim (addable type_id s) [
        | some e ↦ (failed (refused e), files)
        | none ↦
            if any (λ m. str_eq m file.mimetype) (mime_allow type_id)
            then store document_id type_id file
                (build_odc_storage_key object_property uuid organization_id application_id
                  (id_text document_id) (codes file.mimetype))
                weather s files
            else (failed mime_not_allowed, files)
      ]

  -- The file of a row, under the guard that every download passes.
  unfoldable pub file_of_document : StoredDocument → fs.Files → Option (String × String × Content)
  file_of_document d files = elim d.storage_key [
    | none ↦ none
    | some key ↦
        if is_received d.status && belongs key d.id
        then elim (get fs key files) [
          | none ↦ none
          | some stream ↦ some (d.original_name, d.mime_type, stream)
        ]
        else none
  ]

  -- `getFile`; `none` is the answer 404.
  unfoldable pub get_file : ℕ → State → fs.Files → Option (String × String × Content)
  get_file document_id s files = elim (find (λ d. d.id == document_id) s.documents) [
    | none ↦ none
    | some d ↦ file_of_document d files
  ]
