-- ===== src/Storage/Patterns.antt =====
-- What the pattern of canonical file names in src/odc/storage/odc-storage-key.ts says, apart from
-- how it is matched: groups of hexadecimal digits, a UUID, an extension.
use robia_back.Prelude.{
  ℕ, zero, suc, ◌≤◌, ◌≡◌, ◌≢◌, refl, sym, ap, ◌⊎◌, inl, inr, true, Option, none, some, [], ◌∷◌,
  ◌++◌, length, All, arith,
}
use mathlib.Core.List.{append_assoc}
use mathlib.Core.Path.{◌≡⟨◌⟩◌, ◌∎}
use robia_back.Storage.Texts.{Text, is_hex, is_alphanumeric}
use robia_back.Storage.Keys.{
  hex_run, hex_group, and_then, filename_tail, alphanumeric_end, extension_end,
}

abbrev pub IsGroup : ℕ → Text → Type 0
IsGroup n s = (length s ≡ n) × All (λ c. is_hex c ≡ true) s

-- Five groups of 8, 4, 4, 4 and 12 digits with a dash between them.
pub record IsUuid (s : Text) : Type 0 where
  pub time_low : Text
  pub time_mid : Text
  pub time_high : Text
  pub clock : Text
  pub node : Text
  pub time_low_8 : IsGroup 8 time_low
  pub time_mid_4 : IsGroup 4 time_mid
  pub time_high_4 : IsGroup 4 time_high
  pub clock_4 : IsGroup 4 clock
  pub node_12 : IsGroup 12 node
  pub joined :
      s ≡ time_low ++ (b'-' ∷ time_mid ++ (b'-' ∷ time_high ++ (b'-' ∷ clock ++ (b'-' ∷ node))))

-- Nothing, or a dot and one to ten letters and digits.
abbrev pub IsExtension : Text → Type 0
IsExtension s =
    (s ≡ [])
    ⊎ ((t : Text) × (s ≡ b'.' ∷ t)
        × (t ≢ [])
        × (length t ≤ 10)
        × All (λ c. is_alphanumeric c ≡ true) t)

abbrev pub IsFilename : Text → Type 0
IsFilename s = (u : Text) × (e : Text) × IsUuid u × IsExtension e × (s ≡ u ++ e)

hex_group-append : (n : ℕ) (g s : Text) → IsGroup n g → hex_group n (g ++ (b'-' ∷ s)) ≡ some s
unfolding hex_group
hex_group-append zero [] s h = refl
hex_group-append zero (c ∷ g) s h = absurd (omega (arith, h.0))
hex_group-append (suc n) [] s h = absurd (omega (arith, h.0))
hex_group-append (suc n) (c ∷ g) s h =
    ground (arith, hex_group-append n g s (omega (arith, h.0), h.1.1))

hex_run-append : (n : ℕ) (g s : Text) → IsGroup n g → hex_run n (g ++ s) ≡ some s
unfolding hex_run
hex_run-append zero [] s h = refl
hex_run-append zero (c ∷ g) s h = absurd (omega (arith, h.0))
hex_run-append (suc n) [] s h = absurd (omega (arith, h.0))
hex_run-append (suc n) (c ∷ g) s h =
    ground (arith, hex_run-append n g s (omega (arith, h.0), h.1.1))

hex_group_sound :
    (n : ℕ) (s r : Text) → hex_group n s ≡ some r → (g : Text) × IsGroup n g × (s ≡ g ++ (b'-' ∷ r))
unfolding hex_group
hex_group_sound zero [] r h = ground arith
hex_group_sound zero (c ∷ s) r h = ([], (refl, tt), ground arith)
hex_group_sound (suc n) [] r h = ground arith
hex_group_sound (suc n) (c ∷ s) r h =
    let e : (is_hex c ≡ true) × (hex_group n s ≡ some r) = ground arith in
    let p = hex_group_sound n s r e.1 in
    (c ∷ p.0, (omega (arith, p.1.0), (e.0, p.1.1)), ap (λ (t : Text). c ∷ t) p.2)

hex_run_sound :
    (n : ℕ) (s r : Text) → hex_run n s ≡ some r → (g : Text) × IsGroup n g × (s ≡ g ++ r)
unfolding hex_run
hex_run_sound zero s r h = ([], (refl, tt), ground arith)
hex_run_sound (suc n) [] r h = ground arith
hex_run_sound (suc n) (c ∷ s) r h =
    let e : (is_hex c ≡ true) × (hex_run n s ≡ some r) = ground arith in
    let p = hex_run_sound n s r e.1 in
    (c ∷ p.0, (omega (arith, p.1.0), (e.0, p.1.1)), ap (λ (t : Text). c ∷ t) p.2)

alphanumeric_end_complete :
    (n : ℕ) (s : Text)
    → length s ≤ n
    → All (λ c. is_alphanumeric c ≡ true) s
    → alphanumeric_end n s ≡ true
unfolding alphanumeric_end
alphanumeric_end_complete zero [] l h = refl
alphanumeric_end_complete (suc n) [] l h = refl
alphanumeric_end_complete zero (c ∷ s) l h = absurd (omega arith)
alphanumeric_end_complete (suc n) (c ∷ s) l h =
    ground (arith, alphanumeric_end_complete n s (omega arith) h.1)

alphanumeric_end_sound :
    (n : ℕ) (s : Text)
    → alphanumeric_end n s ≡ true
    → (length s ≤ n) × All (λ c. is_alphanumeric c ≡ true) s
unfolding alphanumeric_end
alphanumeric_end_sound zero [] h = (omega arith, tt)
alphanumeric_end_sound (suc n) [] h = (omega arith, tt)
alphanumeric_end_sound zero (c ∷ s) h = ground arith
alphanumeric_end_sound (suc n) (c ∷ s) h =
    let e : (is_alphanumeric c ≡ true) × (alphanumeric_end n s ≡ true) = ground arith in
    let p = alphanumeric_end_sound n s e.1 in (omega (arith, p.0), (e.0, p.1))

pub extension_end_complete : (s : Text) → IsExtension s → extension_end s ≡ true
unfolding extension_end
extension_end_complete [] h = refl
extension_end_complete (c ∷ []) h = ground arith
extension_end_complete (c ∷ d ∷ s) (inl e) = ground arith
extension_end_complete (c ∷ d ∷ s) (inr (t, e, _, short, plain)) =
    let f : t ≡ d ∷ s = ground arith in
    let g : c ≡ b'.' = ground arith in
    ground (arith, g, ap (alphanumeric_end 10) f, alphanumeric_end_complete 10 t short plain)

pub extension_end_sound : (s : Text) → extension_end s ≡ true → IsExtension s
unfolding extension_end
extension_end_sound [] h = inl refl
extension_end_sound (c ∷ []) h = ground arith
extension_end_sound (c ∷ d ∷ s) h =
    let e : (c ≡ b'.') × (alphanumeric_end 10 (d ∷ s) ≡ true) = ground arith in
    let p = alphanumeric_end_sound 10 (d ∷ s) e.1 in
    inr (d ∷ s, ap (λ (t : ℕ). t ∷ d ∷ s) e.0, ground arith, p.0, p.1)

-- Five groups, then the rest.
groups_append :
    (a b c d e r : Text)
    → (a ++ (b'-' ∷ b ++ (b'-' ∷ c ++ (b'-' ∷ d ++ (b'-' ∷ e))))) ++ r
      ≡ a ++ (b'-' ∷ b ++ (b'-' ∷ c ++ (b'-' ∷ d ++ (b'-' ∷ e ++ r))))
groups_append a b c d e r = simp append_assoc

pub filename_tail_complete : (u r : Text) → IsUuid u → filename_tail (u ++ r) ≡ some r
unfolding filename_tail
filename_tail_complete u r h =
    rw (h.joined, groups_append h.time_low h.time_mid h.time_high h.clock h.node r)
      (simp (
        hex_group-append 8 h.time_low _ h.time_low_8,
        hex_group-append 4 h.time_mid _ h.time_mid_4,
        hex_group-append 4 h.time_high _ h.time_high_4,
        hex_group-append 4 h.clock _ h.clock_4,
        hex_run-append 12 h.node r h.node_12,
      ))

and_then-some :
    (o : Option Text) (f : Text → Option Text) (r : Text)
    → and_then o f ≡ some r
    → (s : Text) × (o ≡ some s) × (f s ≡ some r)
and_then-some none f r h = ground arith
and_then-some (some s) f r h = (s, refl, h)

pub filename_tail_sound :
    (s r : Text) → filename_tail s ≡ some r → (u : Text) × IsUuid u × (s ≡ u ++ r)
unfolding filename_tail
filename_tail_sound s r h =
    let p1 = and_then-some _ _ r h in
    let g1 = hex_group_sound 8 s p1.0 p1.1 in
    let p2 = and_then-some _ _ r p1.2 in
    let g2 = hex_group_sound 4 p1.0 p2.0 p2.1 in
    let p3 = and_then-some _ _ r p2.2 in
    let g3 = hex_group_sound 4 p2.0 p3.0 p3.1 in
    let p4 = and_then-some _ _ r p3.2 in
    let g4 = hex_group_sound 4 p3.0 p4.0 p4.1 in
    let g5 = hex_run_sound 12 p4.0 r p4.2 in
    (
      _,
      record {
        time_low = g1.0;
        time_mid = g2.0;
        time_high = g3.0;
        clock = g4.0;
        node = g5.0;
        time_low_8 = g1.1;
        time_mid_4 = g2.1;
        time_high_4 = g3.1;
        clock_4 = g4.1;
        node_12 = g5.1;
        joined = refl;
      },
      (s
          ≡⟨ cc (g1.2, g2.2, g3.2, g4.2, g5.2) ⟩
            g1.0 ++ (b'-' ∷ g2.0 ++ (b'-' ∷ g3.0 ++ (b'-' ∷ g4.0 ++ (b'-' ∷ g5.0 ++ r))))
          ≡⟨ sym (groups_append g1.0 g2.0 g3.0 g4.0 g5.0 r) ⟩ _ ∎),
    )
