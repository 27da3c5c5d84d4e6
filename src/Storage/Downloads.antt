-- ===== src/Storage/Downloads.antt =====
-- What an upload of src/odc/odc-documents.service.ts leaves for the downloads: the new file, and
-- every other file as it was.
use robia_back.Prelude.{
  ℕ, ◌≡◌, ◌≢◌, inl, inr, refl, sym, ◌∙◌, subst, String, true, Option, none, some, List, ◌∷◌, find,
  ◌==◌, arith, Bool-cases, Option-cases,
}
use robia_back.Storage.Texts.{Text, codes}
use robia_back.Storage.Keys.{build_odc_storage_key, storage_key_belongs_to}
use robia_back.Storage.Canonical.{IsSegment}
use robia_back.Storage.Patterns.{IsUuid}
use robia_back.Storage.Belongs.{storage_key_belongs_to_owner}
use robia_back.Storage.Built.{storage_key_belongs_to-build_odc_storage_key}
use robia_back.Storage.Files.{IsCanonical, FileSystem, get, get_write, get_write_ne, get_remove_ne}
use robia_back.Storage.Upload
use robia_back.Storage.Upload.{
  UploadFile, UploadError, payload_too_large, mime_not_allowed, not_written, not_confirmed,
  not_persisted, refused, Uploaded, uploaded, unanswered, failed, Weather, max_odc_upload_bytes,
  is_received,
}
use robia_back.Odc.Application.{StoredDocument, State, Outcome, ok, err}
use robia_back.Odc.Dossier.{occupies, add_uploaded_document}
use robia_back.Storage.Slots.{
  new_document, documents-add_uploaded_document, find-replace_slot, found_id,
}

module _ {Content : Type 0} (fs : FileSystem Content) (object_property : Text → Option Text)
    (id_text : ℕ → Text) (mime_allow : ℕ → List String) (organization_id application_id : Text)
    (organization_segment : IsSegment organization_id)
    (application_segment : IsSegment application_id) (id_segment : (i : ℕ) → IsSegment (id_text i))
    (id_injective : (i j : ℕ) → id_text i ≡ id_text j → i ≡ j) where
  abbrev upload_of :
      ℕ → Text → ℕ → UploadFile Content → Weather → State → fs.Files → Uploaded × fs.Files
  upload_of = Upload.upload fs object_property id_text mime_allow organization_id application_id

  abbrev get_file_of : ℕ → State → fs.Files → Option (String × String × Content)
  get_file_of = Upload.get_file fs object_property id_text mime_allow organization_id application_id

  abbrev replaced_of : ℕ → State → Option Text
  replaced_of =
      Upload.replaced_storage_key fs object_property id_text mime_allow organization_id
        application_id

  abbrev remove_of : Option Text → fs.Files → fs.Files
  remove_of =
      Upload.remove_replaced fs object_property id_text mime_allow organization_id application_id

  abbrev key_of : ℕ → Text → UploadFile Content → Text
  key_of i u file =
      build_odc_storage_key object_property u organization_id application_id (id_text i)
        (codes file.mimetype)

  -- What a successful upload has gone through.
  uploaded_inv :
      (i : ℕ) (u : Text) (y : ℕ) (file : UploadFile Content) (w : Weather) (s t : State)
      (files : fs.Files)
      → (upload_of i u y file w s files).0 ≡ uploaded t
      → let key = key_of i u file in
        let written = fs.write key file.buffer files in
        (written.0 ≡ true)
        × (fs.access key written.1 ≡ true)
        × (add_uploaded_document i y file.originalname file.mimetype file.size key (w.meanwhile s)
            ≡ ok t)
        × ((upload_of i u y file w s files).1 ≡ remove_of (replaced_of y (w.meanwhile s)) written.1)
  unfolding Upload.upload Upload.store Upload.persist Upload.settle
  uploaded_inv i u y file w s t files h = ground arith

  unanswered_inv :
      (i : ℕ) (u : Text) (y : ℕ) (file : UploadFile Content) (w : Weather) (s t : State)
      (files : fs.Files)
      → (upload_of i u y file w s files).0 ≡ unanswered t
      → add_uploaded_document i y file.originalname file.mimetype file.size
          (key_of i u file)
          (w.meanwhile s)
        ≡ ok t
  unfolding Upload.upload Upload.store Upload.persist Upload.settle
  unanswered_inv i u y file w s t files h = ground arith

  abbrev Belongs : Text → ℕ → Type 0
  Belongs key i = storage_key_belongs_to key organization_id application_id (id_text i) ≡ true

  Belongs-distinct : (j k : Text) (a b : ℕ) → Belongs j a → Belongs k b → a ≢ b → j ≢ k
  Belongs-distinct j k a b h h' n e =
      let o = organization_id in
      let p = application_id in
      let same =
        storage_key_belongs_to_owner k o p (id_text a) o p (id_text b)
          (subst (λ x. Belongs x a) e h) h' in
      n (id_injective a b same.2)

  Belongs-IsCanonical : (k : Text) (i : ℕ) → Belongs k i → IsCanonical k
  Belongs-IsCanonical k i h = (organization_id, application_id, id_text i, h)

  get_remove_other :
      (j k : Text) (a b : ℕ) (files : fs.Files)
      → Belongs j a
      → Belongs k b
      → a ≢ b
      → get fs j (fs.remove k files).1 ≡ get fs j files
  get_remove_other j k a b files h h' n =
      get_remove_ne fs j k files (Belongs-IsCanonical j a h) (Belongs-IsCanonical k b h')
        (Belongs-distinct j k a b h h' n)

  get_write_other :
      (j k : Text) (a b : ℕ) (c : Content) (files : fs.Files)
      → Belongs j a
      → Belongs k b
      → a ≢ b
      → get fs j (fs.write k c files).1 ≡ get fs j files
  get_write_other j k a b c files h h' n =
      get_write_ne fs j k c files (Belongs-IsCanonical j a h) (Belongs-IsCanonical k b h')
        (Belongs-distinct j k a b h h' n)

  replaced_key :
      (o : Option StoredDocument) (k : Text)
      → Upload.key_of_document fs object_property id_text mime_allow organization_id application_id
          o
        ≡ some k
      → (d : StoredDocument) × (o ≡ some d) × Belongs k d.id
  unfolding Upload.key_of_document
  replaced_key none k h = ground arith
  replaced_key (some d) k h = (d, refl, ground arith)

  -- The removal of the replaced file leaves the file of any other row.
  replaced_other :
      (y : ℕ) (s : State) (key : Text) (j : ℕ) (files : fs.Files)
      → Belongs key j
      → ((d : StoredDocument) → find (occupies y) s.documents ≡ some d → d.id ≢ j)
      → get fs key (remove_of (replaced_of y s) files) ≡ get fs key files
  unfolding Upload.replaced_storage_key
  replaced_other y s key j files b h = elim (Option-cases (replaced_of y s)) [
    | inl e ↦ rw e refl
    | inr (k, e) ↦
        let p = replaced_key (find (occupies y) s.documents) k e in
        rw e (get_remove_other key k j p.0.id files b p.2 (λ q. h p.0 p.1 (sym q)))
  ]

  key-Belongs :
      (i : ℕ) (u : Text) (file : UploadFile Content)
      → IsUuid u
      → object_property (codes file.mimetype) ≡ none
      → Belongs (key_of i u file) i
  key-Belongs i u file hu hm =
      storage_key_belongs_to-build_odc_storage_key object_property u organization_id application_id
        (id_text i) (codes file.mimetype) organization_segment application_segment (id_segment i) hu
        hm

  abbrev file_of : StoredDocument → fs.Files → Option (String × String × Content)
  file_of =
      Upload.file_of_document fs object_property id_text mime_allow organization_id application_id

  file_of_new :
      (i y z : ℕ) (n m : String) (key : Text) (c : Content) (files : fs.Files)
      → Belongs key i
      → get fs key files ≡ some c
      → file_of (new_document i y n m z key) files ≡ some (n, m, c)
  unfolding Upload.file_of_document
  file_of_new i y z n m key c files b g = rw (b, g) refl

  get_file_head :
      (i : ℕ) (t : State) (d : StoredDocument) (rest : List StoredDocument) (files : fs.Files)
      → d.id ≡ i
      → t.documents ≡ d ∷ rest
      → get_file_of i t files ≡ file_of d files
  unfolding Upload.get_file
  get_file_head i t d rest files e h = ground (arith, h)

  -- After a successful upload the download of the new document serves its name, its MIME type and
  -- the uploaded bytes, also where the upload replaces a document and removes its file, for ids
  -- that are safe segments, a UUID, a MIME type that no object inherits as a property, and a
  -- document id that is not the one of the replaced document.
  pub get_file-upload :
      (i : ℕ) (u : Text) (y : ℕ) (file : UploadFile Content) (w : Weather) (s t : State)
      (files : fs.Files)
      → IsUuid u
      → object_property (codes file.mimetype) ≡ none
      → ((d : StoredDocument) → find (occupies y) (w.meanwhile s).documents ≡ some d → d.id ≢ i)
      → (upload_of i u y file w s files).0 ≡ uploaded t
      → get_file_of i t (upload_of i u y file w s files).1
        ≡ some (file.originalname, file.mimetype, file.buffer)
  get_file-upload i u y file w s t files hu hm fresh h =
      let v = uploaded_inv i u y file w s t files h in
      let key = key_of i u file in
      let b = key-Belongs i u file hu hm in
      let written = (fs.write key file.buffer files).1 in
      let kept = replaced_other y (w.meanwhile s) key i written b fresh in
      let there = get_write fs key file.buffer files v.0 v.1 in
      let row =
        documents-add_uploaded_document i y file.originalname file.mimetype file.size key
          (w.meanwhile s) t v.2 in
      rw (v.3) (
        get_file_head i t _ _ _ refl row
        ∙ file_of_new i y file.size file.originalname file.mimetype key file.buffer _ b
            (kept ∙ there))

  -- Every file that a row of the id `j` can serve is the same.
  abbrev Same : ℕ → fs.Files → fs.Files → Type 0
  Same j files files' = (key : Text) → Belongs key j → get fs key files' ≡ get fs key files

  abbrev Spared : ℕ → ℕ → State → Type 0
  Spared j y s = (d : StoredDocument) → find (occupies y) s.documents ≡ some d → d.id ≢ j

  settle-Same :
      (i j y : ℕ) (key : Text) (w : Weather) (s : State) (o : Outcome) (files : fs.Files)
      → Belongs key i
      → j ≢ i
      → Spared j y s
      → Same j files
          (Upload.settle fs object_property id_text mime_allow organization_id application_id y key
            w s o files).1
  unfolding Upload.settle
  settle-Same i j y key w s (err e) files b n h k c = get_remove_other k key j i files c b n
  settle-Same i j y key w s (ok t) files b n h k c = elim (Bool-cases w.row_fails) [
    | inl e ↦ rw e (get_remove_other k key j i files c b n)
    | inr e ↦ elim (Bool-cases w.answer_fails) [
      | inl f ↦ rw (e, f) (get_remove_other k key j i files c b n)
      | inr f ↦ rw (e, f) (replaced_other y s k j files c h)
    ]
  ]

  store-Same :
      (i j y : ℕ) (file : UploadFile Content) (key : Text) (w : Weather) (s : State)
      (files : fs.Files)
      → Belongs key i
      → j ≢ i
      → Spared j y (w.meanwhile s)
      → Same j files
          (Upload.store fs object_property id_text mime_allow organization_id application_id i y
            file key w s files).1
  unfolding Upload.store Upload.persist
  store-Same i j y file key w s files b n h k c =
      let written = fs.write key file.buffer files in
      let same = get_write_other k key j i file.buffer files c b n in
      let o =
        add_uploaded_document i y file.originalname file.mimetype file.size key (w.meanwhile s) in
      let settled = settle-Same i j y key w (w.meanwhile s) o written.1 b n h k c ∙ same in
      elim (Bool-cases written.0) [
        | inr e ↦ rw e same
        | inl e ↦ elim (Bool-cases (fs.access key written.1)) [
          | inr f ↦ rw (e, f) same
          | inl f ↦ rw (e, f) settled
        ]
      ]

  upload-Same :
      (i j : ℕ) (u : Text) (y : ℕ) (file : UploadFile Content) (w : Weather) (s : State)
      (files : fs.Files)
      → Belongs (key_of i u file) i
      → j ≢ i
      → Spared j y (w.meanwhile s)
      → Same j files (upload_of i u y file w s files).1
  unfolding Upload.upload
  upload-Same i j u y file w s files b n h k c =
      ground (arith, store-Same i j y file (key_of i u file) w s files b n h k c)

  file_of-Same :
      (d : StoredDocument) (files files' : fs.Files)
      → Same d.id files files'
      → file_of d files' ≡ file_of d files
  unfolding Upload.file_of_document
  file_of-Same d files files' h = elim (Option-cases d.storage_key) [
    | inl e ↦ ground arith
    | inr (key, e) ↦ ground (arith, h key)
  ]

  -- The rows after an upload: one that fails before its commit leaves those that the other requests
  -- have made.
  abbrev rows_after : Weather → State → Uploaded → State
  rows_after w s (uploaded t) = t
  rows_after w s (unanswered t) = t
  rows_after w s (failed _) = w.meanwhile s

  row-find :
      (i j y : ℕ) (file : UploadFile Content) (key : Text) (s t : State)
      → add_uploaded_document i y file.originalname file.mimetype file.size key s ≡ ok t
      → j ≢ i
      → Spared j y s
      → find (λ d. d.id == j) t.documents ≡ find (λ d. d.id == j) s.documents
  row-find i j y file key s t h n k =
      let row =
        documents-add_uploaded_document i y file.originalname file.mimetype file.size key s t h in
      ground (arith, row, find-replace_slot y j s.documents k)

  rows_after-find :
      (i j : ℕ) (u : Text) (y : ℕ) (file : UploadFile Content) (w : Weather) (s : State)
      (files : fs.Files) (r : Uploaded)
      → (upload_of i u y file w s files).0 ≡ r
      → j ≢ i
      → Spared j y (w.meanwhile s)
      → find (λ d. d.id == j) (rows_after w s r).documents
        ≡ find (λ d. d.id == j) (w.meanwhile s).documents
  rows_after-find i j u y file w s files (failed e) h n k = refl
  rows_after-find i j u y file w s files (uploaded t) h n k =
      row-find i j y file (key_of i u file) (w.meanwhile s) t
        ((uploaded_inv i u y file w s t files h).2) n k
  rows_after-find i j u y file w s files (unanswered t) h n k =
      row-find i j y file (key_of i u file) (w.meanwhile s) t
        (unanswered_inv i u y file w s t files h) n k

  get_file-Same :
      (j : ℕ) (s t : State) (files files' : fs.Files)
      → find (λ d. d.id == j) t.documents ≡ find (λ d. d.id == j) s.documents
      → Same j files files'
      → get_file_of j t files' ≡ get_file_of j s files
  unfolding Upload.get_file
  get_file-Same j s t files files' e h = elim (Option-cases (find (λ d. d.id == j) s.documents)) [
    | inl f ↦ rw (Upload.get_file, e, f) refl
    | inr (d, f) ↦
        let id : d.id ≡ j = found_id j s.documents d f in
        rw (Upload.get_file, e, f)
          (file_of-Same d files files' (subst (λ x. Same x files files') (sym id) h))
  ]

  -- Whether an upload succeeds or fails, before its row is committed or after, the download of
  -- every document but the new one and the one that it replaces answers what it answered before,
  -- when other requests do not change that document, for ids that are distinct and safe segments,
  -- a UUID, and a MIME type that no object inherits as a property.
  pub get_file_other-upload :
      (i j : ℕ) (u : Text) (y : ℕ) (file : UploadFile Content) (w : Weather) (s : State)
      (files : fs.Files)
      → IsUuid u
      → object_property (codes file.mimetype) ≡ none
      → j ≢ i
      → ((d : StoredDocument) → find (occupies y) (w.meanwhile s).documents ≡ some d → d.id ≢ j)
      → get_file_of j
          (rows_after w s (upload_of i u y file w s files).0)
          (upload_of i u y file w s files).1
        ≡ get_file_of j (w.meanwhile s) files
  get_file_other-upload i j u y file w s files hu hm n k =
      get_file-Same j (w.meanwhile s) _ files _ (rows_after-find i j u y file w s files _ refl n k)
        (upload-Same i j u y file w s files (key-Belongs i u file hu hm) n k)
