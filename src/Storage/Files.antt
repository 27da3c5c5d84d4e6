-- ===== src/Storage/Files.antt =====
-- `LocalOdcStorage` of src/odc/storage/local-odc-storage.ts over a file system, which belongs to
-- Node: a parameter, with its documented behaviour at canonical keys as laws. Two canonical keys
-- that differ are two paths. A call that throws is `false`, and may have done its work or not.
use robia_back.Prelude.{◌≡◌, refl, ◌≢◌, Bool, true, false, Option, none, some, if◌then◌else◌}
use robia_back.Storage.Texts.{Text}
use robia_back.Storage.Keys.{storage_key_belongs_to}

abbrev pub IsCanonical : Text → Type 0
IsCanonical key = (o : Text) × (a : Text) × (d : Text) × (storage_key_belongs_to key o a d ≡ true)

pub record FileSystem (Content : Type 0) : Type 1 where
  pub Files : Type 0
  -- `mkdir` and `writeFile`
  pub write : Text → Content → Files → Bool × Files
  pub access : Text → Files → Bool
  -- what `createReadStream` yields
  pub content : Text → Files → Content
  -- `rm` with `force`
  pub remove : Text → Files → Bool × Files
  pub content-write :
      (k : Text) (c : Content) (f : Files) → (write k c f).0 ≡ true → content k (write k c f).1 ≡ c
  pub access-write_ne :
      (j k : Text) (c : Content) (f : Files)
      → IsCanonical j
      → IsCanonical k
      → j ≢ k
      → access j (write k c f).1 ≡ access j f
  pub content-write_ne :
      (j k : Text) (c : Content) (f : Files)
      → IsCanonical j
      → IsCanonical k
      → j ≢ k
      → content j (write k c f).1 ≡ content j f
  pub access-remove :
      (k : Text) (f : Files) → (remove k f).0 ≡ true → access k (remove k f).1 ≡ false
  pub access-remove_ne :
      (j k : Text) (f : Files)
      → IsCanonical j
      → IsCanonical k
      → j ≢ k
      → access j (remove k f).1 ≡ access j f
  pub content-remove_ne :
      (j k : Text) (f : Files)
      → IsCanonical j
      → IsCanonical k
      → j ≢ k
      → content j (remove k f).1 ≡ content j f

module _ {Content : Type 0} (fs : FileSystem Content) where
  -- `LocalOdcStorage.get`
  unfoldable pub get : Text → fs.Files → Option Content
  get key files = if fs.access key files then some (fs.content key files) else none

  pub get_write :
      (k : Text) (c : Content) (f : fs.Files)
      → (fs.write k c f).0 ≡ true
      → fs.access k (fs.write k c f).1 ≡ true
      → get k (fs.write k c f).1 ≡ some c
  unfolding get
  get_write k c f h a = rw (a, fs.content-write k c f h) refl

  pub get_write_ne :
      (j k : Text) (c : Content) (f : fs.Files)
      → IsCanonical j
      → IsCanonical k
      → j ≢ k
      → get j (fs.write k c f).1 ≡ get j f
  unfolding get
  get_write_ne j k c f hj hk n =
      rw (fs.access-write_ne j k c f hj hk n, fs.content-write_ne j k c f hj hk n) refl

  pub get_remove_ne :
      (j k : Text) (f : fs.Files)
      → IsCanonical j
      → IsCanonical k
      → j ≢ k
      → get j (fs.remove k f).1 ≡ get j f
  unfolding get
  get_remove_ne j k f hj hk n =
      rw (fs.access-remove_ne j k f hj hk n, fs.content-remove_ne j k f hj hk n) refl
