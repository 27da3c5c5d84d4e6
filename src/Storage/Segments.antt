-- ===== src/Storage/Segments.antt =====
-- The segments of a text: what `split` returns, and the text that they make again.
use robia_back.Prelude.{
  ℕ, ◌≡◌, refl, ap, false, ◌||◌, List, [], ◌∷◌, ◌++◌, ◌==◌, All, if◌then◌else◌, arith, Bool-cases,
  inl, inr,
}
use robia_back.Storage.Texts.{Text, includes, push_head, split_on}

-- A text without the separator is one segment.
pub split_on_whole : (c : ℕ) (s : Text) → includes c s ≡ false → split_on c s ≡ s ∷ []
unfolding split_on
split_on_whole c [] h = refl
split_on_whole c (x ∷ s) h = ground (arith, split_on_whole c s)

-- The first segment ends where the separator stands first.
pub split_on-append :
    (c : ℕ) (s t : Text) → includes c s ≡ false → split_on c (s ++ (c ∷ t)) ≡ s ∷ split_on c t
unfolding split_on
split_on-append c [] t h = ground arith
split_on-append c (x ∷ s) t h = ground (arith, split_on-append c s t)

pub includes-append : (c : ℕ) (s t : Text) → includes c (s ++ t) ≡ (includes c s || includes c t)
includes-append c [] t = refl
includes-append c (x ∷ s) t = ground (arith, includes-append c s t)

-- The segments with the separator between them.
unfoldable pub join_with : ℕ → List Text → Text
join_with c [] = []
join_with c (s ∷ []) = s
join_with c (s ∷ t ∷ ts) = s ++ (c ∷ join_with c (t ∷ ts))

join_with-push_head : (c x : ℕ) (ts : List Text) → join_with c (push_head x ts) ≡ x ∷ join_with c ts
unfolding join_with
join_with-push_head c x [] = refl
join_with-push_head c x (t ∷ []) = refl
join_with-push_head c x (t ∷ u ∷ ts) = refl

first_segment : ℕ → Text → Text
unfolding split_on
first_segment c [] = []
first_segment c (x ∷ s) = let rest = first_segment c s in if x == c then [] else x ∷ rest

split_on-cons : (c : ℕ) (s : Text) → (ts : List Text) × (split_on c s ≡ first_segment c s ∷ ts)
unfolding split_on first_segment
split_on-cons c [] = ([], refl)
split_on-cons c (x ∷ s) =
    let p = split_on-cons c s in
    elim (Bool-cases (x == c)) [
      | inl h ↦ (first_segment c s ∷ p.0, rw (h, p.1) refl)
      | inr h ↦ (p.0, rw (h, p.1) refl)
    ]

pub join_with-split_on : (c : ℕ) (s : Text) → join_with c (split_on c s) ≡ s
unfolding split_on join_with
join_with-split_on c [] = refl
join_with-split_on c (x ∷ s) =
    let p = split_on-cons c s in
    ground (
      arith,
      p.1,
      ap (join_with c) p.1,
      join_with-split_on c s,
      join_with-push_head c x (split_on c s),
    )

abbrev pub Excludes : ℕ → Text → Type 0
Excludes c s = includes c s ≡ false

Excludes-push_head :
    (c x : ℕ) (ts : List Text)
    → (x == c) ≡ false
    → All (Excludes c) ts
    → All (Excludes c) (push_head x ts)
Excludes-push_head c x [] h a = ground arith
Excludes-push_head c x (t ∷ ts) h a = ground arith

pub split_on-Excludes : (c : ℕ) (s : Text) → All (Excludes c) (split_on c s)
unfolding split_on
split_on-Excludes c [] = (refl, tt)
split_on-Excludes c (x ∷ s) = elim (Bool-cases (x == c)) [
  | inl h ↦ rw h (refl, split_on-Excludes c s)
  | inr h ↦ rw h (Excludes-push_head c x (split_on c s) h (split_on-Excludes c s))
]
