-- ===== src/Automations/Inputs/Placeholders.antt =====
-- The pattern `EVENT_PLACEHOLDER` of src/ops-automation/automation-templating.ts matches the texts
-- that are written for a key, and gives the key back.
use Prim.Native.Char.{Char, code}
use text.Mathlib.TextEquality.{Char-path}
use robia_back.Prelude.{
  ◌≡◌, ◌≢◌, refl, sym, ap, ◌∙◌, subst, ◌↔◌, inl, inr, Bool, true, false, String, Option, none, some,
  ◌==◌, eq_iff, arith, Bool-cases, Option-cases,
}
use robia_back.Automations.Inputs.Templating.{
  is_word, strip, word_end, prepend, nonempty, placeholder,
}

-- A text of letters, digits and underscores.
abbrev pub IsWord : String → Type 0
IsWord String.[] = Unit
IsWord (String.◌∷◌ c s) = (is_word (code c) ≡ true) × IsWord s

-- `s + t`
abbrev pub append : String → String → String
append String.[] t = t
append (String.◌∷◌ c s) t = String.◌∷◌ c (append s t)

-- `{{event.<key>}}`
abbrev pub print_placeholder : String → String
print_placeholder key = append "{{event." (append key "}}")

strip_complete : (p s : String) → strip p (append p s) ≡ some s
unfolding strip
strip_complete String.[] s = refl
strip_complete (String.◌∷◌ d p) s = ground (arith, strip_complete p s)

strip_sound : (p s r : String) → strip p s ≡ some r → s ≡ append p r
unfolding strip
strip_sound String.[] s r h = ground arith
strip_sound (String.◌∷◌ d p) String.[] r h = ground arith
strip_sound (String.◌∷◌ d p) (String.◌∷◌ c s) r h = elim (Bool-cases (code c == code d)) [
  | inl e ↦
      let same : c ≡ d = Char-path c d (ground arith) in
      rw same (ap (λ (t : String). String.◌∷◌ d t) (strip_sound p s r (ground arith)))
  | inr e ↦ absurd (ground arith)
]

word_end_complete : (k : String) → IsWord k → word_end (append k "}}") ≡ some k
unfolding word_end is_word
word_end_complete String.[] h = refl
word_end_complete (String.◌∷◌ c k) h = rw (h.0, word_end_complete k h.1) refl

prepend-some :
    (o : Option String) (c : Char) (k : String)
    → prepend c o ≡ some k
    → (j : String) × (o ≡ some j) × (String.◌∷◌ c j ≡ k)
prepend-some none c k h = ground arith
prepend-some (some j) c k h = (j, refl, ground arith)

abbrev Ends : String → String → Type 0
Ends s k = (s ≡ append k "}}") × IsWord k

word_end_sound : (s k : String) → word_end s ≡ some k → Ends s k
unfolding word_end
word_end_sound String.[] k h = ground arith
word_end_sound (String.◌∷◌ c s) k h = elim (Bool-cases (is_word (code c))) [
  | inl e ↦
      let p = prepend-some (word_end s) c k (ground arith) in
      let q = word_end_sound s p.0 p.1 in
      subst (λ t. Ends (String.◌∷◌ c s) t) p.2 (ap (λ (t : String). String.◌∷◌ c t) q.0, (e, q.1))
  | inr e ↦
      let t : (String.◌∷◌ c s ≡ "}}") × (k ≡ String.[]) =
        ground (arith, eq_iff (String.◌∷◌ c s) "}}") in
      subst (λ x. Ends (String.◌∷◌ c s) x) (sym t.1) (t.0, tt)
]

abbrev emptiness : Option String → Bool
emptiness (some (String.◌∷◌ c s)) = false
emptiness _ = true

nonempty_some :
    (o : Option String) (k : String) → nonempty o ≡ some k → (o ≡ some k) × (k ≢ String.[])
nonempty_some none k h = ground arith
nonempty_some (some String.[]) k h = ground arith
nonempty_some (some (String.◌∷◌ c s)) k h =
    (h, (λ e. let f : some (String.◌∷◌ c s) ≡ some String.[] = ground arith in cc (ap emptiness f)))

nonempty_complete : (k : String) → k ≢ String.[] → nonempty (some k) ≡ some k
nonempty_complete String.[] h = absurd (h refl)
nonempty_complete (String.◌∷◌ c s) h = refl

placeholder_complete :
    (k : String) → k ≢ String.[] → IsWord k → placeholder (print_placeholder k) ≡ some k
unfolding placeholder
placeholder_complete k n h =
    let stripped = strip_complete "{{event." (append k "}}") in
    let ended = word_end_complete k h in ground (arith, stripped, ended, nonempty_complete k n)

placeholder_sound :
    (s k : String) → placeholder s ≡ some k → (s ≡ print_placeholder k) × (k ≢ String.[]) × IsWord k
unfolding placeholder
placeholder_sound s k h = elim (Option-cases (strip "{{event." s)) [
  | inl e ↦ absurd (ground arith)
  | inr (r, e) ↦
      let p = nonempty_some (word_end r) k (ground arith) in
      let q = word_end_sound r k p.0 in
      (strip_sound "{{event." s r e ∙ ap (append "{{event.") q.0, p.1, q.1)
]

-- A text is a placeholder of a key exactly when it is that key between `{{event.` and `}}`, and
-- the key is a non-empty text of letters, digits and underscores.
placeholder_iff :
    (s k : String) → placeholder s ≡ some k ↔ (s ≡ print_placeholder k) × (k ≢ String.[]) × IsWord k
placeholder_iff s k = (placeholder_sound s k, (λ h. rw (h.0) (placeholder_complete k h.1 h.2)))
