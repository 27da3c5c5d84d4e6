-- ===== src/Storage/Keys.antt =====
-- `extensionForMimeType`, `buildOdcStorageKey` and `storageKeyBelongsTo` of
-- src/odc/storage/odc-storage-key.ts. `object_property` is what a property that every object
-- inherits prints as in a template text, and `uuid` is the result of `randomUUID()`.
use robia_back.Prelude.{
  ℕ, zero, suc, Bool, true, false, ◌&&◌, ◌||◌, Option, none, some, List, [], ◌∷◌, ◌++◌, map, ◌==◌,
  any, if◌then◌else◌,
}
use robia_back.Storage.Texts.{
  Text, codes, text_eq, includes, split_on, second, filter_text, take, is_alphanumeric, is_hex,
  to_lower,
}

-- The own properties of `KNOWN_EXTENSIONS`, then what it inherits.
unfoldable pub known_extension : (Text → Option Text) → Text → Option Text
known_extension object_property mime_type =
    if text_eq mime_type (codes "application/pdf")
    then some (codes ".pdf")
    else if text_eq mime_type (codes "image/png")
    then some (codes ".png")
    else if text_eq mime_type (codes "image/jpeg")
    then some (codes ".jpg")
    else object_property mime_type

abbrev pub dotted : Text → Text
dotted [] = []
dotted (c ∷ s) = b'.' ∷ map to_lower (c ∷ s)

unfoldable pub derived_extension : Text → Text
derived_extension mime_type = elim (second (split_on b'/' mime_type)) [
  | none ↦ []
  | some subtype ↦ dotted (take 10 (filter_text is_alphanumeric subtype))
]

unfoldable pub extension_for_mime_type : (Text → Option Text) → Text → Text
extension_for_mime_type object_property mime_type =
    elim (known_extension object_property mime_type) [
      | none ↦ derived_extension mime_type
      | some known ↦ known
    ]

unfoldable pub build_odc_storage_key :
    (Text → Option Text) → Text → Text → Text → Text → Text → Text
build_odc_storage_key object_property uuid organization_id application_id document_id mime_type =
    organization_id
    ++ (b'/' ∷ application_id
        ++ (b'/' ∷ document_id
            ++ (b'/' ∷ uuid ++ extension_for_mime_type object_property mime_type)))

-- `[0-9a-f]{n}` at the start of a text, and what follows it.
unfoldable pub hex_run : ℕ → Text → Option Text
hex_run zero s = some s
hex_run (suc n) [] = none
hex_run (suc n) (c ∷ s) = let rest = hex_run n s in if is_hex c then rest else none

-- `[0-9a-f]{n}-`
unfoldable pub hex_group : ℕ → Text → Option Text
hex_group zero [] = none
hex_group zero (c ∷ s) = if c == b'-' then some s else none
hex_group (suc n) [] = none
hex_group (suc n) (c ∷ s) = let rest = hex_group n s in if is_hex c then rest else none

abbrev pub and_then : Option Text → (Text → Option Text) → Option Text
and_then none f = none
and_then (some s) f = f s

-- `(\.[a-z0-9]{1,10})?$`: a text of at most `n` letters and digits, then its end.
unfoldable pub alphanumeric_end : ℕ → Text → Bool
alphanumeric_end n [] = true
alphanumeric_end zero (c ∷ s) = false
alphanumeric_end (suc n) (c ∷ s) = is_alphanumeric c && alphanumeric_end n s

unfoldable pub extension_end : Text → Bool
extension_end [] = true
extension_end (c ∷ []) = false
extension_end (c ∷ d ∷ s) = c == b'.' && alphanumeric_end 10 (d ∷ s)

unfoldable pub filename_tail : Text → Option Text
filename_tail s = and_then (hex_group 8 s) λ s1.
    and_then (hex_group 4 s1)
      λ s2. and_then (hex_group 4 s2) λ s3. and_then (hex_group 4 s3) (hex_run 12)

-- `CANONICAL_STORAGE_KEY_FILENAME.test(filename)`
unfoldable pub is_canonical_filename : Text → Bool
is_canonical_filename filename = elim (filename_tail filename) [
  | none ↦ false
  | some rest ↦ extension_end rest
]

-- A segment that is empty, `.` or `..`.
abbrev pub is_special : Text → Bool
is_special [] = true
is_special (c ∷ []) = c == b'.'
is_special (c ∷ d ∷ []) = c == b'.' && d == b'.'
is_special (c ∷ d ∷ e ∷ s) = false

unfoldable pub segments_belong : List Text → Text → Text → Text → Bool
segments_belong (o ∷ a ∷ d ∷ filename ∷ []) organization_id application_id document_id =
    text_eq o organization_id
    && text_eq a application_id
    && text_eq d document_id
    && is_canonical_filename filename
segments_belong _ organization_id application_id document_id = false

unfoldable pub storage_key_belongs_to : Text → Text → Text → Text → Bool
storage_key_belongs_to storage_key organization_id application_id document_id =
    if includes b'\\' storage_key || includes 0 storage_key
    then false
    else if any is_special (split_on b'/' storage_key)
    then false
    else segments_belong (split_on b'/' storage_key) organization_id application_id document_id
