-- ===== src/Storage/Memory.antt =====
-- A file system in memory, which shows that the laws of a file system can hold.
use robia_back.Prelude.{
  ℕ, ◌≡◌, ◌≢◌, refl, Bool, true, false, Option, none, some, if◌then◌else◌, Bool-cases, inl, inr,
}
use robia_back.Storage.Texts.{Text, text_eq, text_eq_refl, text_eq_sound}
use robia_back.Storage.Files.{FileSystem}

abbrev pub Stored : Type 0
Stored = Text → Option ℕ

abbrev pub put_at : Text → Option ℕ → Stored → Stored
put_at k c f j = if text_eq j k then c else f j

abbrev pub is_there : Option ℕ → Bool
is_there none = false
is_there (some _) = true

abbrev pub bytes : Option ℕ → ℕ
bytes none = 0
bytes (some c) = c

put_at_same : (k : Text) (c : Option ℕ) (f : Stored) → put_at k c f k ≡ c
put_at_same k c f = rw (text_eq_refl k) refl

put_at_other : (j k : Text) (c : Option ℕ) (f : Stored) → j ≢ k → put_at k c f j ≡ f j
put_at_other j k c f n = elim (Bool-cases (text_eq j k)) [
  | inl e ↦ absurd (n (text_eq_sound j k e))
  | inr e ↦ rw e refl
]

pub content_put : (k : Text) (c : ℕ) (f : Stored) → bytes (put_at k (some c) f k) ≡ c
content_put k c f = rw (put_at_same k (some c) f) refl

pub access_removed : (k : Text) (f : Stored) → is_there (put_at k none f k) ≡ false
access_removed k f = rw (put_at_same k none f) refl

pub access_other :
    (j k : Text) (c : Option ℕ) (f : Stored) → j ≢ k → is_there (put_at k c f j) ≡ is_there (f j)
access_other j k c f n = rw (put_at_other j k c f n) refl

pub content_other :
    (j k : Text) (c : Option ℕ) (f : Stored) → j ≢ k → bytes (put_at k c f j) ≡ bytes (f j)
content_other j k c f n = rw (put_at_other j k c f n) refl

abbrev pub disk : FileSystem ℕ
disk = record {
  Files = Stored;
  write = λ k c f. (true, put_at k (some c) f);
  access = λ k f. is_there (f k);
  content = λ k f. bytes (f k);
  remove = λ k f. (true, put_at k none f);
  content-write = λ k c f h. content_put k c f;
  access-write_ne = λ j k c f hj hk n. access_other j k (some c) f n;
  content-write_ne = λ j k c f hj hk n. content_other j k (some c) f n;
  access-remove = λ k f h. access_removed k f;
  access-remove_ne = λ j k f hj hk n. access_other j k none f n;
  content-remove_ne = λ j k f hj hk n. content_other j k none f n;
}
