-- ===== src/Storage/Canonical.antt =====
-- What `storageKeyBelongsTo` of src/odc/storage/odc-storage-key.ts accepts, said apart from the
-- code: four segments, the ids of the row and a canonical file name.
use robia_back.Prelude.{ℕ, ◌≡◌, ◌≢◌, ◌↔◌, inl, inr, true, [], ◌∷◌, ◌++◌, All, arith, Option-cases}
use robia_back.Storage.Texts.{Text, codes, is_hex, is_alphanumeric}
use robia_back.Storage.Patterns.{
  IsGroup, IsUuid, IsExtension, IsFilename, extension_end_complete, extension_end_sound,
  filename_tail_complete, filename_tail_sound,
}
use robia_back.Storage.Keys.{is_canonical_filename, filename_tail}

-- A code unit that neither ends a segment nor is refused in a key.
abbrev pub IsPlain : ℕ → Type 0
IsPlain c = (c ≢ b'/') × (c ≢ b'\\') × (c ≢ 0)

-- A segment that a path keeps as it is.
abbrev pub IsSegment : Text → Type 0
IsSegment s = All IsPlain s × (s ≢ []) × (s ≢ codes ".") × (s ≢ codes "..")

-- The key of a file of one document of one application of one organization.
abbrev pub IsKeyOf : Text → Text → Text → Text → Type 0
IsKeyOf key o a d =
    IsSegment o
    × IsSegment a
    × IsSegment d
    × ((f : Text) × IsFilename f × (key ≡ o ++ (b'/' ∷ a ++ (b'/' ∷ d ++ (b'/' ∷ f)))))

All-append : (P : ℕ → Type 0) (s t : Text) → All P s → All P t → All P (s ++ t)
All-append P [] t h k = k
All-append P (x ∷ s) t h k = (h.0, All-append P s t h.1 k)

All-map : (P Q : ℕ → Type 0) → ((c : ℕ) → P c → Q c) → (s : Text) → All P s → All Q s
All-map P Q f [] h = tt
All-map P Q f (x ∷ s) h = (f x h.0, All-map P Q f s h.1)

is_hex-IsPlain : (c : ℕ) → is_hex c ≡ true → IsPlain c
unfolding is_hex
is_hex-IsPlain c h = ground arith

is_alphanumeric-IsPlain : (c : ℕ) → is_alphanumeric c ≡ true → IsPlain c
unfolding is_alphanumeric
is_alphanumeric-IsPlain c h = ground arith

IsGroup-IsPlain : (n : ℕ) (s : Text) → IsGroup n s → All IsPlain s
IsGroup-IsPlain n s h = All-map _ _ is_hex-IsPlain s h.1

IsPlain-dash : IsPlain b'-'
IsPlain-dash = ground arith

IsUuid-IsPlain : (s : Text) → IsUuid s → All IsPlain s
IsUuid-IsPlain s h =
    let join = λ (x y : Text) (p : All IsPlain x) (q : All IsPlain y).
      All-append IsPlain x (b'-' ∷ y) p (IsPlain-dash, q) in
    rw h.joined (
      join h.time_low _ (IsGroup-IsPlain 8 h.time_low h.time_low_8) (
        join h.time_mid _ (IsGroup-IsPlain 4 h.time_mid h.time_mid_4) (
          join h.time_high _ (IsGroup-IsPlain 4 h.time_high h.time_high_4) (
            join h.clock _ (IsGroup-IsPlain 4 h.clock h.clock_4)
              (IsGroup-IsPlain 12 h.node h.node_12)))))

IsExtension-IsPlain : (s : Text) → IsExtension s → All IsPlain s
IsExtension-IsPlain s (inl e) = rw e tt
IsExtension-IsPlain s (inr (t, e, _, _, h)) =
    rw e ((ground arith, All-map _ _ is_alphanumeric-IsPlain t h))

pub IsFilename-IsPlain : (f : Text) → IsFilename f → All IsPlain f
IsFilename-IsPlain f (u, e, p, q, joined) =
    rw joined (All-append IsPlain u e (IsUuid-IsPlain u p) (IsExtension-IsPlain e q))

-- `CANONICAL_STORAGE_KEY_FILENAME` matches what it describes.
pub is_canonical_filename_iff : (f : Text) → is_canonical_filename f ≡ true ↔ IsFilename f
unfolding is_canonical_filename
is_canonical_filename_iff f = (
  (λ h. elim (Option-cases (filename_tail f)) [
    | inl e ↦ absurd (ground arith)
    | inr (r, e) ↦
        let p = filename_tail_sound f r e in
        (p.0, r, p.1, extension_end_sound r (ground arith), p.2)
  ]),
  (λ h.
      let (u, e, p, q, joined) = h in
      rw joined (ground (arith, filename_tail_complete u e p, extension_end_complete e q))),
)
