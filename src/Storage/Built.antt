-- ===== src/Storage/Built.antt =====
-- `buildOdcStorageKey` of src/odc/storage/odc-storage-key.ts: what it builds is canonical.
use robia_back.Prelude.{
  ℕ, zero, suc, ◌≤◌, ◌≡◌, refl, ap, ◌⊎◌, inl, inr, true, Option, none, some, [], ◌∷◌, ◌++◌, map,
  length, All, arith, Option-cases,
}
use robia_back.Storage.Texts.{
  Text, codes, split_on, second, filter_text, take, is_alphanumeric, to_lower,
}
use robia_back.Storage.Patterns.{IsUuid, IsExtension}
use robia_back.Storage.Canonical.{IsSegment}
use robia_back.Storage.Belongs.{storage_key_belongs_to-IsKeyOf}
use robia_back.Storage.Keys.{
  storage_key_belongs_to, build_odc_storage_key, extension_for_mime_type, known_extension,
  derived_extension, dotted,
}

abbrev Alphanumeric : Text → Type 0
Alphanumeric s = All (λ c. is_alphanumeric c ≡ true) s

filter_text-Alphanumeric : (s : Text) → Alphanumeric (filter_text is_alphanumeric s)
filter_text-Alphanumeric [] = tt
filter_text-Alphanumeric (c ∷ s) = ground (arith, filter_text-Alphanumeric s)

take-Alphanumeric : (n : ℕ) (s : Text) → Alphanumeric s → Alphanumeric (take n s)
take-Alphanumeric zero s h = tt
take-Alphanumeric (suc n) [] h = tt
take-Alphanumeric (suc n) (c ∷ s) h = (h.0, take-Alphanumeric n s h.1)

length-take : (n : ℕ) (s : Text) → length (take n s) ≤ n
length-take zero s = omega arith
length-take (suc n) [] = omega arith
length-take (suc n) (c ∷ s) = omega (arith, length-take n s)

is_alphanumeric-to_lower : (c : ℕ) → is_alphanumeric c ≡ true → is_alphanumeric (to_lower c) ≡ true
unfolding is_alphanumeric to_lower
is_alphanumeric-to_lower c h = ground arith

map-to_lower-Alphanumeric : (s : Text) → Alphanumeric s → Alphanumeric (map to_lower s)
map-to_lower-Alphanumeric [] h = tt
map-to_lower-Alphanumeric (c ∷ s) h =
    (is_alphanumeric-to_lower c h.0, map-to_lower-Alphanumeric s h.1)

length-map-to_lower : (s : Text) → length (map to_lower s) ≡ length s
length-map-to_lower [] = refl
length-map-to_lower (c ∷ s) = ap suc (length-map-to_lower s)

dotted-IsExtension : (s : Text) → length s ≤ 10 → Alphanumeric s → IsExtension (dotted s)
dotted-IsExtension [] l h = inl refl
dotted-IsExtension (c ∷ s) l h = inr (
  map to_lower (c ∷ s),
  refl,
  ground arith,
  omega (arith, l, length-map-to_lower (c ∷ s)),
  map-to_lower-Alphanumeric (c ∷ s) h,
)

derived_extension-IsExtension : (mime : Text) → IsExtension (derived_extension mime)
unfolding derived_extension
derived_extension-IsExtension mime =
    elim (second (split_on b'/' mime))
      as (λ (o : Option Text).
        IsExtension
          (elim o [ none ↦ [] | some t ↦ dotted (take 10 (filter_text is_alphanumeric t)) ])) [
            | none ↦ inl refl
            | some t ↦
                let kept = filter_text is_alphanumeric t in
                dotted-IsExtension (take 10 kept) (length-take 10 kept)
                  (take-Alphanumeric 10 kept (filter_text-Alphanumeric t))
          ]

known_IsExtension :
    (s : Text) → ((s ≡ codes ".pdf") ⊎ (s ≡ codes ".png") ⊎ (s ≡ codes ".jpg")) → IsExtension s
unfolding is_alphanumeric
known_IsExtension s (inl e) =
    inr (codes "pdf", e, ground arith, omega arith, (refl, (refl, (refl, tt))))
known_IsExtension s (inr (inl e)) =
    inr (codes "png", e, ground arith, omega arith, (refl, (refl, (refl, tt))))
known_IsExtension s (inr (inr e)) =
    inr (codes "jpg", e, ground arith, omega arith, (refl, (refl, (refl, tt))))

module _ (object_property : Text → Option Text) where
  known_extension-some :
      (mime s : Text)
      → object_property mime ≡ none
      → known_extension object_property mime ≡ some s
      → (s ≡ codes ".pdf") ⊎ (s ≡ codes ".png") ⊎ (s ≡ codes ".jpg")
  unfolding known_extension
  known_extension-some mime s h k = ground arith

  extension_for_mime_type-IsExtension :
      (mime : Text)
      → object_property mime ≡ none
      → IsExtension (extension_for_mime_type object_property mime)
  unfolding extension_for_mime_type
  extension_for_mime_type-IsExtension mime h =
      elim (Option-cases (known_extension object_property mime)) [
        | inl e ↦ rw (e, extension_for_mime_type) (derived_extension-IsExtension mime)
        | inr (s, e) ↦
            rw (e, extension_for_mime_type) (known_IsExtension s (known_extension-some mime s h e))
      ]

  -- A key that is built from the ids of an organization, an application and a document and from a
  -- UUID is accepted by the guard of the download for that organization, application and document,
  -- whatever the MIME type is, unless its name is that of an inherited property.
  pub storage_key_belongs_to-build_odc_storage_key :
      (uuid organization_id application_id document_id mime_type : Text)
      → IsSegment organization_id
      → IsSegment application_id
      → IsSegment document_id
      → IsUuid uuid
      → object_property mime_type ≡ none
      → storage_key_belongs_to
          (build_odc_storage_key object_property uuid organization_id application_id document_id
            mime_type)
          organization_id
          application_id
          document_id
        ≡ true
  unfolding build_odc_storage_key
  storage_key_belongs_to-build_odc_storage_key u o a d mime ho ha hd hu h =
      let e = extension_for_mime_type object_property mime in
      (storage_key_belongs_to-IsKeyOf _ o a d).1
        (ho, ha, hd, (u ++ e, (u, e, hu, extension_for_mime_type-IsExtension mime h, refl), refl))
