-- ===== src/Storage/Belongs.antt =====
-- `storageKeyBelongsTo` and `buildOdcStorageKey` of src/odc/storage/odc-storage-key.ts: the guard of
-- a download accepts exactly the keys that are described in Canonical, and those that are built.
use robia_back.Prelude.{
  ℕ, ◌≡◌, ◌≢◌, refl, sym, ap, ◌∙◌, subst, ◌↔◌, true, false, List, [], ◌∷◌, ◌++◌, ◌==◌, any, All,
  arith,
}
use robia_back.Storage.Texts.{Text, codes, text_eq_sound, text_eq_refl, includes, split_on, is_hex}
use robia_back.Storage.Segments.{
  split_on_whole, split_on-append, includes-append, join_with, join_with-split_on,
  split_on-Excludes, Excludes,
}
use robia_back.Storage.Canonical.{
  IsPlain, IsSegment, IsKeyOf, IsFilename-IsPlain, is_canonical_filename_iff,
}
use robia_back.Storage.Keys.{
  is_canonical_filename, filename_tail, hex_group, is_special, segments_belong,
  storage_key_belongs_to,
}

abbrev Clean : Text → Type 0
Clean s = (includes b'/' s ≡ false) × (includes b'\\' s ≡ false) × (includes 0 s ≡ false)

IsPlain-Clean : (s : Text) → All IsPlain s → Clean s
IsPlain-Clean [] h = (refl, refl, refl)
IsPlain-Clean (x ∷ s) h = ground (arith, IsPlain-Clean s h.1)

Clean-IsPlain : (s : Text) → Clean s → All IsPlain s
Clean-IsPlain [] h = tt
Clean-IsPlain (x ∷ s) h = (ground arith, Clean-IsPlain s (ground arith))

is_special_complete : (s : Text) → s ≢ [] → s ≢ codes "." → s ≢ codes ".." → is_special s ≡ false
is_special_complete [] h i j = absurd (h refl)
is_special_complete (c ∷ []) h i j = ground (arith, i)
is_special_complete (c ∷ d ∷ []) h i j = ground (arith, j)
is_special_complete (c ∷ d ∷ e ∷ s) h i j = refl

is_special_sound : (s : Text) → is_special s ≡ false → (s ≢ []) × (s ≢ codes ".") × (s ≢ codes "..")
is_special_sound [] h = ground arith
is_special_sound (c ∷ []) h = ground arith
is_special_sound (c ∷ d ∷ []) h = ground arith
is_special_sound (c ∷ d ∷ e ∷ s) h = ground arith

special_IsSegment : (s : Text) → IsSegment s → is_special s ≡ false
special_IsSegment s (_, i, j, k) = is_special_complete s i j k

special_filename : (s : Text) → is_canonical_filename s ≡ true → is_special s ≡ false
unfolding is_canonical_filename filename_tail hex_group is_hex
special_filename [] h = ground arith
special_filename (c ∷ []) h = ground arith
special_filename (c ∷ d ∷ []) h = ground arith
special_filename (c ∷ d ∷ e ∷ s) h = refl

key_segments :
    (o a d f : Text)
    → includes b'/' o ≡ false
    → includes b'/' a ≡ false
    → includes b'/' d ≡ false
    → includes b'/' f ≡ false
    → split_on b'/' (o ++ (b'/' ∷ a ++ (b'/' ∷ d ++ (b'/' ∷ f)))) ≡ o ∷ a ∷ d ∷ f ∷ []
key_segments o a d f p q r s = simp (
  split_on-append b'/' o (a ++ (b'/' ∷ d ++ (b'/' ∷ f))) p,
  split_on-append b'/' a (d ++ (b'/' ∷ f)) q,
  split_on-append b'/' d f r,
  split_on_whole b'/' f s,
)

key_excludes :
    (c : ℕ) (o a d f : Text)
    → (b'/' == c) ≡ false
    → includes c o ≡ false
    → includes c a ≡ false
    → includes c d ≡ false
    → includes c f ≡ false
    → includes c (o ++ (b'/' ∷ a ++ (b'/' ∷ d ++ (b'/' ∷ f)))) ≡ false
key_excludes c o a d f n p q r s = ground (
  arith,
  includes-append c o (b'/' ∷ a ++ (b'/' ∷ d ++ (b'/' ∷ f))),
  includes-append c a (b'/' ∷ d ++ (b'/' ∷ f)),
  includes-append c d (b'/' ∷ f),
)

belongs_complete : (key o a d : Text) → IsKeyOf key o a d → storage_key_belongs_to key o a d ≡ true
unfolding storage_key_belongs_to segments_belong
belongs_complete key o a d (ho, ha, hd, (f, hf, e)) =
    let co = IsPlain-Clean o ho.0 in
    let ca = IsPlain-Clean a ha.0 in
    let cd = IsPlain-Clean d hd.0 in
    let cf = IsPlain-Clean f (IsFilename-IsPlain f hf) in
    let canonical = (is_canonical_filename_iff f).1 hf in
    rw
      (
        e,
        key_excludes b'\\' o a d f refl co.1 ca.1 cd.1 cf.1,
        key_excludes 0 o a d f refl co.2 ca.2 cd.2 cf.2,
        key_segments o a d f co.0 ca.0 cd.0 cf.0,
        special_IsSegment o ho,
        special_IsSegment a ha,
        special_IsSegment d hd,
        special_filename f canonical,
        text_eq_refl o,
        text_eq_refl a,
        text_eq_refl d,
        canonical,
      )
      refl

segments_belong_sound :
    (segments : List Text) (o a d : Text)
    → segments_belong segments o a d ≡ true
    → (f : Text) × (segments ≡ o ∷ a ∷ d ∷ f ∷ []) × (is_canonical_filename f ≡ true)
unfolding segments_belong
segments_belong_sound [] o a d h = ground arith
segments_belong_sound (_ ∷ []) o a d h = ground arith
segments_belong_sound (_ ∷ _ ∷ []) o a d h = ground arith
segments_belong_sound (_ ∷ _ ∷ _ ∷ []) o a d h = ground arith
segments_belong_sound (_ ∷ _ ∷ _ ∷ _ ∷ _ ∷ _) o a d h = ground arith
segments_belong_sound (s ∷ t ∷ u ∷ f ∷ []) o a d h =
    (f, ground (arith, text_eq_sound s o, text_eq_sound t a, text_eq_sound u d), ground arith)

key_parts :
    (c : ℕ) (o a d f : Text)
    → includes c (o ++ (b'/' ∷ a ++ (b'/' ∷ d ++ (b'/' ∷ f)))) ≡ false
    → (includes c o ≡ false) × (includes c a ≡ false) × (includes c d ≡ false)
key_parts c o a d f h = ground (
  arith,
  includes-append c o (b'/' ∷ a ++ (b'/' ∷ d ++ (b'/' ∷ f))),
  includes-append c a (b'/' ∷ d ++ (b'/' ∷ f)),
  includes-append c d (b'/' ∷ f),
)

segment :
    (s : Text)
    → includes b'/' s ≡ false
    → includes b'\\' s ≡ false
    → includes 0 s ≡ false
    → is_special s ≡ false
    → IsSegment s
segment s p q r h = let k = is_special_sound s h in (Clean-IsPlain s (p, q, r), k.0, k.1, k.2)

belongs_tests :
    (key o a d : Text)
    → storage_key_belongs_to key o a d ≡ true
    → (includes b'\\' key ≡ false)
      × (includes 0 key ≡ false)
      × (any is_special (split_on b'/' key) ≡ false)
      × (segments_belong (split_on b'/' key) o a d ≡ true)
unfolding storage_key_belongs_to
belongs_tests key o a d h = ground arith

belongs_sound : (key o a d : Text) → storage_key_belongs_to key o a d ≡ true → IsKeyOf key o a d
unfolding join_with
belongs_sound key o a d h =
    let t = belongs_tests key o a d h in
    let p = segments_belong_sound (split_on b'/' key) o a d t.3 in
    let f = p.0 in
    let e : key ≡ o ++ (b'/' ∷ a ++ (b'/' ∷ d ++ (b'/' ∷ f))) =
      sym (join_with-split_on b'/' key) ∙ ap (join_with b'/') p.1 in
    let slash = subst (λ ts. All (Excludes b'/') ts) p.1 (split_on-Excludes b'/' key) in
    let special = subst (λ ts. any is_special ts ≡ false) p.1 t.2 in
    let back = key_parts b'\\' o a d f (subst (λ k. includes b'\\' k ≡ false) e t.0) in
    let nul = key_parts 0 o a d f (subst (λ k. includes 0 k ≡ false) e t.1) in
    (
      segment o slash.0 back.0 nul.0 (ground arith),
      segment a slash.1.0 back.1 nul.1 (ground arith),
      segment d slash.1.1.0 back.2 nul.2 (ground arith),
      (f, (is_canonical_filename_iff f).0 p.2, e),
    )

-- A download accepts a key exactly when it consists of the ids of the row's organization,
-- application and document, each a segment that a path keeps as it is (not empty, `.` or `..`, no
-- slash, backslash or NUL), and of a file name that is a UUID and an extension of at most ten
-- letters and digits, or none.
pub storage_key_belongs_to-IsKeyOf :
    (key o a d : Text) → storage_key_belongs_to key o a d ≡ true ↔ IsKeyOf key o a d
storage_key_belongs_to-IsKeyOf key o a d = (belongs_sound key o a d, belongs_complete key o a d)

-- A key is accepted for one organization, application and document only.
pub storage_key_belongs_to_owner :
    (key o a d o' a' d' : Text)
    → storage_key_belongs_to key o a d ≡ true
    → storage_key_belongs_to key o' a' d' ≡ true
    → (o ≡ o') × (a ≡ a') × (d ≡ d')
storage_key_belongs_to_owner key o a d o' a' d' h k =
    let p = segments_belong_sound _ o a d (belongs_tests key o a d h).3 in
    let q = segments_belong_sound _ o' a' d' (belongs_tests key o' a' d' k).3 in
    ground (arith, p.1, q.1)
