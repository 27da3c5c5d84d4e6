-- ===== src/Storage/SafeNames.antt =====
-- `sanitizeContentDispositionFilename` of src/odc/storage/odc-storage-key.ts yields a name that is
-- safe in the header of a download.
use robia_back.Prelude.{
  ℕ, ◌≡◌, ◌≢◌, refl, sym, ap, ◌∙◌, subst, ◌↔◌, inl, inr, true, false, ◌&&◌, [], ◌∷◌, ◌++◌, All,
  every, arith, Bool-cases,
}
use robia_back.Storage.Texts.{Text, codes, filter_text}
use robia_back.Storage.Filenames.{
  is_kept, is_white, trim_start, trim_end, or_document, sanitize_content_disposition_filename,
}

-- A character that neither ends the value of `filename="..."` nor the header.
abbrev pub IsHarmless : ℕ → Type 0
IsHarmless c = (c ≢ 13) × (c ≢ 10) × (c ≢ b'"') × (c ≢ b'\\')

pub record IsSafeName (s : Text) : Type 0 where
  pub harmless : All IsHarmless s
  pub nonempty : s ≢ []
  pub starts : (c : ℕ) (t : Text) → s ≡ c ∷ t → is_white c ≡ false
  pub ends : (t : Text) (c : ℕ) → s ≡ t ++ (c ∷ []) → is_white c ≡ false

filter_text-IsHarmless : (s : Text) → All IsHarmless (filter_text is_kept s)
filter_text-IsHarmless [] = tt
filter_text-IsHarmless (c ∷ s) = elim (Bool-cases (is_kept c)) [
  | inl e ↦ rw e (ground arith, filter_text-IsHarmless s)
  | inr e ↦ rw e (filter_text-IsHarmless s)
]

trim_start-IsHarmless : (s : Text) → All IsHarmless s → All IsHarmless (trim_start s)
unfolding trim_start
trim_start-IsHarmless [] h = tt
trim_start-IsHarmless (c ∷ s) h = elim (Bool-cases (is_white c)) [
  | inl e ↦ rw e (trim_start-IsHarmless s h.1)
  | inr e ↦ rw e h
]

trim_end-IsHarmless : (s : Text) → All IsHarmless s → All IsHarmless (trim_end s)
unfolding trim_end
trim_end-IsHarmless [] h = tt
trim_end-IsHarmless (c ∷ s) h = elim (Bool-cases (is_white c && every is_white s)) [
  | inl e ↦ rw e tt
  | inr e ↦ rw e (h.0, trim_end-IsHarmless s h.1)
]

trim_start-starts : (s : Text) (c : ℕ) (t : Text) → trim_start s ≡ c ∷ t → is_white c ≡ false
unfolding trim_start
trim_start-starts [] c t h = ground arith
trim_start-starts (x ∷ s) c t h = ground (arith, trim_start-starts s c t)

trim_end-starts :
    (s : Text) (c : ℕ) (t : Text)
    → ((d : ℕ) (u : Text) → s ≡ d ∷ u → is_white d ≡ false)
    → trim_end s ≡ c ∷ t
    → is_white c ≡ false
unfolding trim_end
trim_end-starts [] c t k h = ground arith
trim_end-starts (x ∷ s) c t k h = ground (arith, k x s refl)

trim_end-blank : (s : Text) → trim_end s ≡ [] → every is_white s ≡ true
unfolding trim_end
trim_end-blank [] h = refl
trim_end-blank (x ∷ s) h = ground arith

trim_end-ends : (s t : Text) (c : ℕ) → trim_end s ≡ t ++ (c ∷ []) → is_white c ≡ false
unfolding trim_end
trim_end-ends [] [] c h = ground arith
trim_end-ends [] (y ∷ t) c h = ground arith
trim_end-ends (x ∷ s) [] c h = ground (arith, trim_end-blank s)
trim_end-ends (x ∷ s) (y ∷ t) c h = ground (arith, trim_end-ends s t c)

trim_start_fixed :
    (s : Text) → ((c : ℕ) (t : Text) → s ≡ c ∷ t → is_white c ≡ false) → trim_start s ≡ s
unfolding trim_start
trim_start_fixed [] h = refl
trim_start_fixed (x ∷ s) h = ground (arith, h x s refl)

blank_ends :
    (x : ℕ) (s : Text)
    → is_white x ≡ true
    → every is_white s ≡ true
    → (t : Text) × (c : ℕ) × (x ∷ s ≡ t ++ (c ∷ [])) × (is_white c ≡ true)
blank_ends x [] h k = ([], x, refl, h)
blank_ends x (y ∷ s) h k =
    let p = blank_ends y s (ground arith) (ground arith) in
    (x ∷ p.0, p.1, ap (λ (t : Text). x ∷ t) p.2, p.3)

trim_end_fixed :
    (s : Text) → ((t : Text) (c : ℕ) → s ≡ t ++ (c ∷ []) → is_white c ≡ false) → trim_end s ≡ s
unfolding trim_end
trim_end_fixed [] h = refl
trim_end_fixed (x ∷ s) h = elim (Bool-cases (is_white x && every is_white s)) [
  | inl e ↦
      let p = blank_ends x s (ground arith) (ground arith) in
      absurd (ground (arith, h p.0 p.1 p.2, p.3))
  | inr e ↦ rw e (
      ap (λ (t : Text). x ∷ t)
        (trim_end_fixed s (λ t c k. h (x ∷ t) c (ap (λ (u : Text). x ∷ u) k))))
]

filter_text_fixed : (s : Text) → All IsHarmless s → filter_text is_kept s ≡ s
filter_text_fixed [] h = refl
filter_text_fixed (c ∷ s) h = ground (arith, filter_text_fixed s h.1)

abbrev trimmed : Text → Text
trimmed s = trim_end (trim_start (filter_text is_kept s))

trimmed-starts : (s : Text) (c : ℕ) (t : Text) → trimmed s ≡ c ∷ t → is_white c ≡ false
trimmed-starts s c t h = trim_end-starts _ c t (trim_start-starts (filter_text is_kept s)) h

trimmed-IsHarmless : (s : Text) → All IsHarmless (trimmed s)
trimmed-IsHarmless s = trim_end-IsHarmless _ (trim_start-IsHarmless _ (filter_text-IsHarmless s))

word_starts : (c d : ℕ) (s t : Text) → is_white c ≡ false → c ∷ s ≡ d ∷ t → is_white d ≡ false
word_starts c d s t h e = ground arith

word_ends :
    (s t : Text) (c d : ℕ) → is_white c ≡ false → s ++ (c ∷ []) ≡ t ++ (d ∷ []) → is_white d ≡ false
word_ends [] [] c d h e = ground arith
word_ends [] (y ∷ []) c d h e = ground arith
word_ends [] (y ∷ z ∷ t) c d h e = ground arith
word_ends (x ∷ []) [] c d h e = ground arith
word_ends (x ∷ y ∷ s) [] c d h e = ground arith
word_ends (x ∷ s) (y ∷ t) c d h e = ground (arith, word_ends s t c d)

codes-document-IsSafeName : IsSafeName (codes "document")
unfolding is_white
codes-document-IsSafeName = record {
  harmless = ground arith;
  nonempty = ground arith;
  starts = λ c t h. word_starts _ c _ t refl h;
  ends = λ t c h. word_ends (codes "documen") t b't' c refl h;
}

or_document-IsSafeName : (s t : Text) → s ≡ trimmed t → IsSafeName (or_document s)
unfolding or_document
or_document-IsSafeName [] t e = codes-document-IsSafeName
or_document-IsSafeName (c ∷ s) t e = record {
  harmless = subst (λ s. All IsHarmless s) (sym e) (trimmed-IsHarmless t);
  nonempty = ground arith;
  starts = λ d u h. trimmed-starts t d u (sym e ∙ h);
  ends = λ u d h. trim_end-ends _ u d (sym e ∙ h);
}

sanitize-IsSafeName : (s : Text) → IsSafeName (sanitize_content_disposition_filename s)
unfolding sanitize_content_disposition_filename
sanitize-IsSafeName s = or_document-IsSafeName (trimmed s) s refl

or_document_nonempty : (s : Text) → s ≢ [] → or_document s ≡ s
unfolding or_document
or_document_nonempty [] h = absurd (h refl)
or_document_nonempty (c ∷ s) h = refl

sanitize_fixed : (s : Text) → IsSafeName s → sanitize_content_disposition_filename s ≡ s
unfolding sanitize_content_disposition_filename
sanitize_fixed s h =
    rw (filter_text_fixed s h.harmless, trim_start_fixed s h.starts, trim_end_fixed s h.ends)
      (or_document_nonempty s h.nonempty)

-- What the header of a download names is a safe name: not empty, without CR, LF, quote and
-- backslash, with no white space at either end; and exactly the safe names are kept as they are.
sanitize_content_disposition_filename-IsSafeName :
    (s : Text)
    → IsSafeName (sanitize_content_disposition_filename s)
      × (sanitize_content_disposition_filename s ≡ s ↔ IsSafeName s)
sanitize_content_disposition_filename-IsSafeName s =
    (sanitize-IsSafeName s, ((λ h. subst IsSafeName h (sanitize-IsSafeName s)), sanitize_fixed s))
