-- ===== src/Storage/Tests.antt =====
-- Runs of Storage on a file system in memory.
use robia_back.Prelude.{
  ℕ, zero, suc, ◌≡◌, ◌≢◌, refl, ap, ◌↔◌, String, true, false, Option, none, some, List, [], ◌∷◌,
  find, All, if◌then◌else◌, arith,
}
use robia_back.Storage.Texts.{Text, codes, text_eq, is_hex}
use robia_back.Storage.Keys.{
  storage_key_belongs_to, build_odc_storage_key, extension_for_mime_type, known_extension,
}
use robia_back.Storage.Canonical.{IsSegment, IsPlain, IsKeyOf}
use robia_back.Storage.Patterns.{IsUuid}
use robia_back.Storage.Belongs.{storage_key_belongs_to-IsKeyOf}
use robia_back.Storage.Memory.{disk}
use robia_back.Storage.Filenames.{sanitize_content_disposition_filename, is_white}
use robia_back.Storage.Upload
use robia_back.Storage.Upload.{
  UploadFile, UploadError, payload_too_large, not_persisted, Uploaded, uploaded, unanswered, failed,
  Weather,
}
use robia_back.Storage.Downloads.{get_file-upload, get_file_other-upload}
use robia_back.Odc.Completeness.{received}
use robia_back.Odc.Application.{draft, Application, StoredDocument, State}
use robia_back.Odc.Dossier.{addable, occupies, add_uploaded_document}

abbrev uuid : Text
uuid = codes "0f8fad5b-d9cb-469f-a165-70867728950e"

uuid-IsUuid : IsUuid uuid
unfolding is_hex
uuid-IsUuid = record {
  time_low = codes "0f8fad5b";
  time_mid = codes "d9cb";
  time_high = codes "469f";
  clock = codes "a165";
  node = codes "70867728950e";
  time_low_8 = (refl, ground arith);
  time_mid_4 = (refl, ground arith);
  time_high_4 = (refl, ground arith);
  clock_4 = (refl, ground arith);
  node_12 = (refl, ground arith);
  joined = refl;
}

abbrev id_text : ℕ → Text
id_text zero = codes "d"
id_text (suc n) = b'd' ∷ id_text n

id_text-IsPlain : (n : ℕ) → All IsPlain (id_text n)
id_text-IsPlain zero = ground arith
id_text-IsPlain (suc n) = (ground arith, id_text-IsPlain n)

id_text_cons : (n : ℕ) → (t : Text) × (id_text n ≡ b'd' ∷ t)
id_text_cons zero = ([], refl)
id_text_cons (suc n) = (id_text n, refl)

id_text-IsSegment : (n : ℕ) → IsSegment (id_text n)
id_text-IsSegment n =
    let p = id_text_cons n in
    (
      id_text-IsPlain n,
      (λ h. ground (arith, p.1)),
      (λ h. ground (arith, p.1)),
      (λ h. ground (arith, p.1)),
    )

id_text_injective : (i j : ℕ) → id_text i ≡ id_text j → i ≡ j
id_text_injective zero zero h = refl
id_text_injective zero (suc j) h = let p = id_text_cons j in ground (arith, p.1)
id_text_injective (suc i) zero h = let p = id_text_cons i in ground (arith, p.1)
id_text_injective (suc i) (suc j) h = ap suc (id_text_injective i j (ground arith))

abbrev object_property : Text → Option Text
object_property t =
    if text_eq t (codes "constructor")
    then some (codes "function Object() { [native code] }")
    else none

storage_key_belongs_to-IsKeyOf_example :
    storage_key_belongs_to (codes "a/b/../x") (codes "a") (codes "b") (codes "..") ≡ true
    ↔ IsKeyOf (codes "a/b/../x") (codes "a") (codes "b") (codes "..")
storage_key_belongs_to-IsKeyOf_example =
    storage_key_belongs_to-IsKeyOf (codes "a/b/../x") (codes "a") (codes "b") (codes "..")

sanitized : sanitize_content_disposition_filename (codes " c\"v.pdf ") ≡ codes "cv.pdf"
unfolding sanitize_content_disposition_filename is_white
sanitized = refl

abbrev application : Application
application = record {
  status = draft;
  answers = [];
  missing = none;
  submitted_at = none;
  summary_draft = none;
  proposed_total = none;
  final_total = none;
  decided_at = none;
  decided_by = none;
  decision_reason = none;
}

abbrev old_key : Text
old_key =
    build_odc_storage_key object_property uuid (id_text 0) (id_text 1) (id_text 2)
      (codes "application/pdf")

abbrev document : ℕ → ℕ → StoredDocument
document id type_id = record {
  id = id;
  document_type_id = type_id;
  original_name = "old.pdf";
  mime_type = "application/pdf";
  size_bytes = 3;
  storage_key = some old_key;
  status = received;
}

-- A draft with the documents 2 and 5 in the slots 4 and 6.
abbrev dossier : State
dossier = record {
  application = application;
  program = record {
    fields = [];
    criteria = [];
    doc_types = record { id = 4; key = "statutes"; required = true } ∷ [];
  };
  documents = document 2 4 ∷ document 5 6 ∷ [];
  score_lines = [];
  history = [];
  emitted = [];
  clock = 0;
}

abbrev file : UploadFile ℕ
file = record { buffer = 77; mimetype = "application/pdf"; originalname = "new.pdf"; size = 10 }

abbrev fair : Weather
fair = record { row_fails = false; answer_fails = false; meanwhile = λ s. s }

abbrev foul : Weather
foul = record { row_fails = true; answer_fails = false; meanwhile = λ s. s }

abbrev stored : Text → Option ℕ
stored k = if text_eq k old_key then some 5 else none

abbrev mime_allow : ℕ → List String
mime_allow _ = "application/pdf" ∷ []

abbrev run : Weather → Uploaded × (Text → Option ℕ)
run w =
    Upload.upload disk object_property id_text mime_allow (id_text 0) (id_text 1) 3 uuid 4 file w
      dossier stored

abbrev result_of : Uploaded → State
result_of (uploaded t) = t
result_of (unanswered t) = t
result_of (failed _) = dossier

is_uploaded : (run fair).0 ≡ uploaded (result_of (run fair).0)
unfolding Upload.upload Upload.store Upload.persist Upload.settle add_uploaded_document addable
    build_odc_storage_key extension_for_mime_type known_extension
is_uploaded = refl

is_not_persisted : (run foul).0 ≡ failed not_persisted
unfolding Upload.upload Upload.store Upload.persist Upload.settle add_uploaded_document addable
    build_odc_storage_key extension_for_mime_type known_extension
is_not_persisted = refl

-- The row is committed, and its answer fails: the new file is removed, and that of the replaced row
-- stays.
abbrev unlucky : Weather
unlucky = record { row_fails = false; answer_fails = true; meanwhile = λ s. s }

is_unanswered : (run unlucky).0 ≡ unanswered (result_of (run unlucky).0)
unfolding Upload.upload Upload.store Upload.persist Upload.settle add_uploaded_document addable
    build_odc_storage_key extension_for_mime_type known_extension
is_unanswered = refl

old_file : (run unlucky).1 old_key ≡ some 5
unfolding Upload.upload Upload.store Upload.persist Upload.settle add_uploaded_document addable
    build_odc_storage_key extension_for_mime_type known_extension
old_file = refl

occupant_is_2 :
    (j : ℕ) → 2 ≢ j → (d : StoredDocument) → find (occupies 4) dossier.documents ≡ some d → d.id ≢ j
unfolding occupies
occupant_is_2 j n d h = ground arith

get_file-upload_example :
    Upload.get_file disk object_property id_text mime_allow
      (id_text 0)
      (id_text 1)
      3
      (result_of (run fair).0)
      (run fair).1
    ≡ some ("new.pdf", "application/pdf", 77)
get_file-upload_example =
    get_file-upload disk object_property id_text mime_allow (id_text 0) (id_text 1)
      (id_text-IsSegment 0) (id_text-IsSegment 1) id_text-IsSegment id_text_injective 3 uuid 4 file
      fair dossier (result_of (run fair).0) stored uuid-IsUuid refl (occupant_is_2 3 (omega arith))
      is_uploaded

get_file_other-upload_example :
    Upload.get_file disk object_property id_text mime_allow
      (id_text 0)
      (id_text 1)
      5
      (result_of (run foul).0)
      (run foul).1
    ≡ Upload.get_file disk object_property id_text mime_allow
        (id_text 0)
        (id_text 1)
        5
        dossier
        stored
get_file_other-upload_example =
    get_file_other-upload disk object_property id_text mime_allow (id_text 0) (id_text 1)
      (id_text-IsSegment 0) (id_text-IsSegment 1) id_text-IsSegment id_text_injective 3 5 uuid 4
      file foul dossier stored uuid-IsUuid refl (omega arith) (occupant_is_2 5 (omega arith))
