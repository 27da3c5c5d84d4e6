-- ===== src/Storage/Orphans.antt =====
-- What an upload of src/odc/odc-documents.service.ts that fails before its row is committed leaves
-- in the storage.
use robia_back.Prelude.{ℕ, ◌≡◌, ◌≢◌, String, true, false, Option, List, arith}
use robia_back.Storage.Texts.{Text, codes}
use robia_back.Storage.Keys.{build_odc_storage_key}
use robia_back.Storage.Files.{FileSystem}
use robia_back.Storage.Upload
use robia_back.Storage.Upload.{
  UploadFile, UploadError, payload_too_large, mime_not_allowed, not_written, not_confirmed,
  not_persisted, refused, Uploaded, uploaded, unanswered, failed, Weather, max_odc_upload_bytes,
  is_received,
}
use robia_back.Odc.Application.{State}

module _ {Content : Type 0} (fs : FileSystem Content) (object_property : Text → Option Text)
    (id_text : ℕ → Text) (mime_allow : ℕ → List String)
    (organization_id application_id : Text) where
  abbrev upload_of :
      ℕ → Text → ℕ → UploadFile Content → Weather → State → fs.Files → Uploaded × fs.Files
  upload_of = Upload.upload fs object_property id_text mime_allow organization_id application_id

  abbrev key_of : ℕ → Text → UploadFile Content → Text
  key_of i u file =
      build_odc_storage_key object_property u organization_id application_id (id_text i)
        (codes file.mimetype)

  -- An upload that fails leaves no file under the key that was made for it, when the removal of a
  -- file does not fail and the row is not committed, unless the writing itself failed or could not be confirmed: refused before
  -- or after the write, or with its row not stored.
  upload_no_orphan :
      (i : ℕ) (u : Text) (y : ℕ) (file : UploadFile Content) (w : Weather) (s : State)
      (files : fs.Files) (e : UploadError)
      → (upload_of i u y file w s files).0 ≡ failed e
      → e ≢ not_written
      → e ≢ not_confirmed
      → fs.access (key_of i u file) files ≡ false
      → ((f : fs.Files) → (fs.remove (key_of i u file) f).0 ≡ true)
      → fs.access (key_of i u file) (upload_of i u y file w s files).1 ≡ false
  unfolding Upload.upload Upload.store Upload.persist Upload.settle
  upload_no_orphan i u y file w s files e h a b c d =
      let key = key_of i u file in
      let written = (fs.write key file.buffer files).1 in
      ground (arith, fs.access-remove key written (d written))
