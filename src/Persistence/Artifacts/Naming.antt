-- ===== src/Persistence/Artifacts/Naming.antt =====
-- persistence/artifacts.py: `_sanitize_slug`, on the code points of a client's name. `lower` stands for
-- Python's str.lower.
use gxassessms.Base.{
  ℕ, zero, suc, ◌≤◌, ◌≡◌, ◌≢◌, refl, Bool, true, false, [], ◌∷◌, ◌==◌, ◌&&◌, ◌||◌, leb,
  if◌then◌else◌, select, all, take, length, Chars, codes, arith, starts_with,
}

-- [a-z0-9-]
abbrev pub is_slug_char : ℕ → Bool
is_slug_char c = leb b'a' c && leb c b'z' || leb b'0' c && leb c b'9' || c == b'-'

-- name.replace(" ", "-")
abbrev hyphenate : Chars → Chars
hyphenate [] = []
hyphenate (c ∷ cs) = (if c == b' ' then b'-' else c) ∷ hyphenate cs

abbrev follows_hyphen : ℕ → Chars → Bool
follows_hyphen c [] = false
follows_hyphen c (d ∷ cs) = c == b'-' && d == b'-'

-- re.sub(r"-+", "-", slug)
unfoldable pub collapse : Chars → Chars
collapse [] = []
collapse (c ∷ cs) = let rest = collapse cs in if follows_hyphen c cs then rest else c ∷ rest

-- slug.strip("-")
unfoldable pub strip_left : Chars → Chars
strip_left [] = []
strip_left (c ∷ cs) = let rest = strip_left cs in if c == b'-' then rest else c ∷ cs

abbrev keep_unless_last : ℕ → Chars → Chars
keep_unless_last c [] = if c == b'-' then [] else c ∷ []
keep_unless_last c (d ∷ cs) = c ∷ d ∷ cs

unfoldable pub strip_right : Chars → Chars
strip_right [] = []
strip_right (c ∷ cs) = keep_unless_last c (strip_right cs)

abbrev or_unnamed : Chars → Chars
or_unnamed [] = codes "unnamed"
or_unnamed (c ∷ cs) = c ∷ cs

-- _MAX_SLUG_LENGTH
abbrev pub max_slug_length : ℕ
max_slug_length = 64

unfoldable pub sanitize_slug : (Chars → Chars) → Chars → Chars
unfolding collapse strip_left strip_right
sanitize_slug lower [] = codes "unnamed"
sanitize_slug lower (c ∷ cs) = or_unnamed (
    take max_slug_length
      (strip_right (strip_left (collapse (select is_slug_char (hyphenate (lower (c ∷ cs))))))))

all-select : (p : ℕ → Bool) (cs : Chars) → all p (select p cs) ≡ true
unfolding all
all-select p [] = refl
all-select p (c ∷ cs) = ground (arith, all-select p cs)

all-collapse : (p : ℕ → Bool) (cs : Chars) → all p cs ≡ true → all p (collapse cs) ≡ true
unfolding all collapse
all-collapse p [] h = refl
all-collapse p (c ∷ cs) h = ground (arith, all-collapse p cs)

all-strip_left : (p : ℕ → Bool) (cs : Chars) → all p cs ≡ true → all p (strip_left cs) ≡ true
unfolding all strip_left
all-strip_left p [] h = refl
all-strip_left p (c ∷ cs) h = ground (arith, all-strip_left p cs)

all-keep_unless_last :
    (p : ℕ → Bool) (c : ℕ) (cs : Chars)
    → p c ≡ true
    → all p cs ≡ true
    → all p (keep_unless_last c cs) ≡ true
unfolding all
all-keep_unless_last p c [] h r = ground arith
all-keep_unless_last p c (d ∷ cs) h r = ground arith

all-strip_right : (p : ℕ → Bool) (cs : Chars) → all p cs ≡ true → all p (strip_right cs) ≡ true
unfolding strip_right
all-strip_right p [] h = unfold all in refl
all-strip_right p (c ∷ cs) h =
    all-keep_unless_last p c (strip_right cs) (unfold all in ground arith)
      (all-strip_right p cs (unfold all in ground arith))

all-take : (p : ℕ → Bool) (n : ℕ) (cs : Chars) → all p cs ≡ true → all p (take n cs) ≡ true
unfolding all
all-take p zero cs h = refl
all-take p (suc n) [] h = refl
all-take p (suc n) (c ∷ cs) h = ground (arith, all-take p n cs)

length-take : (n : ℕ) (cs : Chars) → length (take n cs) ≤ n
length-take zero cs = ground arith
length-take (suc n) [] = ground arith
length-take (suc n) (c ∷ cs) = ground (arith, length-take n cs)

-- a name of a directory: letters, digits and hyphens, at least one and at most max_slug_length of them,
-- the first of which is no hyphen
pub record IsSlug (slug : Chars) : Type 0 where
  pub allowed : all is_slug_char slug ≡ true
  pub bounded : length slug ≤ max_slug_length
  pub named : slug ≢ []
  pub starts_well : starts_with (codes "-") slug ≡ false

starts_with-strip_left : (cs : Chars) → starts_with (codes "-") (strip_left cs) ≡ false
unfolding strip_left
starts_with-strip_left [] = refl
starts_with-strip_left (c ∷ cs) = ground (arith, starts_with-strip_left cs)

starts_with-keep_unless_last :
    (c : ℕ) (cs : Chars)
    → (b'-' == c) ≡ false
    → starts_with (codes "-") (keep_unless_last c cs) ≡ false
starts_with-keep_unless_last c [] h = ground arith
starts_with-keep_unless_last c (d ∷ cs) h = ground arith

starts_with-strip_right :
    (cs : Chars)
    → starts_with (codes "-") cs ≡ false
    → starts_with (codes "-") (strip_right cs) ≡ false
unfolding strip_right
starts_with-strip_right [] h = refl
starts_with-strip_right (c ∷ cs) h = starts_with-keep_unless_last c (strip_right cs) (ground arith)

IsSlug-or_unnamed :
    (cs : Chars)
    → all is_slug_char cs ≡ true
    → length cs ≤ max_slug_length
    → starts_with (codes "-") cs ≡ false
    → IsSlug (or_unnamed cs)
IsSlug-or_unnamed [] allowed bounded starts = record {
  allowed = unfold all in refl;
  bounded = omega arith;
  named = λ e. ground arith;
  starts_well = refl;
}
IsSlug-or_unnamed (c ∷ cs) allowed bounded starts = record {
  allowed = allowed;
  bounded = bounded;
  named = λ e. ground arith;
  starts_well = starts;
}

starts_with-take :
    (n : ℕ) (cs : Chars)
    → starts_with (codes "-") cs ≡ false
    → starts_with (codes "-") (take n cs) ≡ false
starts_with-take zero cs h = refl
starts_with-take (suc n) [] h = refl
starts_with-take (suc n) (c ∷ cs) h = ground arith

-- Any name at all becomes a slug: letters, digits and hyphens, at least one and at most 64 of them, the
-- first of which is no hyphen.
pub sanitize_slug-IsSlug :
    (lower : Chars → Chars) (name : Chars) → IsSlug (sanitize_slug lower name)
unfolding sanitize_slug
sanitize_slug-IsSlug lower [] = IsSlug-or_unnamed [] (unfold all in refl) (omega arith) refl
sanitize_slug-IsSlug lower (c ∷ cs) =
    let kept = select is_slug_char (hyphenate (lower (c ∷ cs))) in
    let stripped = strip_left (collapse kept) in
    IsSlug-or_unnamed (take max_slug_length (strip_right stripped))
      (all-take is_slug_char max_slug_length _ (
        all-strip_right is_slug_char _ (
          all-strip_left is_slug_char _ (
            all-collapse is_slug_char kept
              (all-select is_slug_char (hyphenate (lower (c ∷ cs))))))))
      (length-take max_slug_length _)
      (starts_with-take max_slug_length (strip_right stripped)
        (starts_with-strip_right stripped (starts_with-strip_left (collapse kept))))
