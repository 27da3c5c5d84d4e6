-- ===== src/Storage/Texts.antt =====
-- Texts as lists of code units, with the operations of `String.prototype` that the storage keys
-- of src/odc/storage/odc-storage-key.ts use.
use Prim.Native.Char.{code}
use robia_back.Prelude.{
  ℕ, zero, suc, ◌+◌, ◌≡◌, refl, Bool, true, false, ◌&&◌, ◌||◌, Option, none, some, List, [], ◌∷◌,
  String, ◌==◌, leb, any, if◌then◌else◌, arith,
}

abbrev pub Text : Type 0
Text = List ℕ

abbrev pub codes : String → Text
codes String.[] = []
codes (String.◌∷◌ c s) = code c ∷ codes s

-- `a === b`
abbrev pub text_eq : Text → Text → Bool
text_eq [] [] = true
text_eq (x ∷ s) (y ∷ t) = x == y && text_eq s t
text_eq _ _ = false

pub text_eq_sound : (s t : Text) → text_eq s t ≡ true → s ≡ t
text_eq_sound [] [] h = refl
text_eq_sound [] (y ∷ t) h = ground arith
text_eq_sound (x ∷ s) [] h = ground arith
text_eq_sound (x ∷ s) (y ∷ t) h = ground (arith, text_eq_sound s t)

pub text_eq_refl : (s : Text) → text_eq s s ≡ true
text_eq_refl [] = refl
text_eq_refl (x ∷ s) = ground (arith, text_eq_refl s)

-- `s.includes(c)` for one code unit.
abbrev pub includes : ℕ → Text → Bool
includes c s = any (λ x. x == c) s

-- `s.split(c)`
abbrev pub push_head : ℕ → List Text → List Text
push_head x [] = (x ∷ []) ∷ []
push_head x (t ∷ ts) = (x ∷ t) ∷ ts

unfoldable pub split_on : ℕ → Text → List Text
split_on c [] = [] ∷ []
split_on c (x ∷ s) = let rest = split_on c s in if x == c then [] ∷ rest else push_head x rest

-- `s.split(c)[1]`
abbrev pub second : List Text → Option Text
second (_ ∷ t ∷ _) = some t
second _ = none

abbrev pub filter_text : (ℕ → Bool) → Text → Text
filter_text p [] = []
filter_text p (x ∷ s) = if p x then x ∷ filter_text p s else filter_text p s

-- `s.slice(0, n)`
abbrev pub take : ℕ → Text → Text
take zero s = []
take (suc n) [] = []
take (suc n) (x ∷ s) = x ∷ take n s

abbrev pub is_digit : ℕ → Bool
is_digit c = leb b'0' c && leb c b'9'

abbrev pub is_upper : ℕ → Bool
is_upper c = leb b'A' c && leb c b'Z'

abbrev pub is_lower : ℕ → Bool
is_lower c = leb b'a' c && leb c b'z'

-- `/[a-z0-9]/i`
unfoldable pub is_alphanumeric : ℕ → Bool
is_alphanumeric c = is_lower c || is_upper c || is_digit c

-- `/[0-9a-f]/i`
unfoldable pub is_hex : ℕ → Bool
is_hex c = is_digit c || leb b'a' c && leb c b'f' || leb b'A' c && leb c b'F'

-- `toLowerCase` of a letter or a digit of ASCII.
unfoldable pub to_lower : ℕ → ℕ
to_lower c = if is_upper c then c + 32 else c
