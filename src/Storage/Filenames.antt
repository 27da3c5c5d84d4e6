-- ===== src/Storage/Filenames.antt =====
-- `sanitizeContentDispositionFilename` of src/odc/storage/odc-storage-key.ts.
use robia_back.Prelude.{ℕ, Bool, not, ◌&&◌, ◌||◌, [], ◌∷◌, ◌==◌, every, is_space, if◌then◌else◌}
use robia_back.Storage.Texts.{Text, codes, filter_text}

-- `/[^\r\n"\\]/`
abbrev pub is_kept : ℕ → Bool
is_kept c = not (c == 13 || c == 10 || c == b'"' || c == b'\\')

-- White space, as `trim` knows it.
unfoldable pub is_white : ℕ → Bool
is_white c = is_space c

-- `s.trim()`
unfoldable pub trim_start : Text → Text
trim_start [] = []
trim_start (c ∷ s) = let rest = trim_start s in if is_white c then rest else c ∷ s

unfoldable pub trim_end : Text → Text
trim_end [] = []
trim_end (c ∷ s) = let rest = trim_end s in if is_white c && every is_white s then [] else c ∷ rest

unfoldable pub or_document : Text → Text
or_document [] = codes "document"
or_document (c ∷ s) = c ∷ s

unfoldable pub sanitize_content_disposition_filename : Text → Text
unfolding trim_start trim_end or_document
sanitize_content_disposition_filename original_name =
    or_document (trim_end (trim_start (filter_text is_kept original_name)))
