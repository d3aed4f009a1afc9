-- ===== src/Domain/PathValidation/Canonical.antt =====
-- The paths that pass are those that join segments with nothing to hide, each in one way.
use gxassessms.Base.{
  append-nil, ℕ, ◌≡◌, ◌≢◌, refl, sym, ◌∙◌, ap, Bool, true, false, not, List, [], ◌∷◌, ◌++◌,
  Bool-cases, inl, inr, arith, All, all, select, contains, Chars, codes, text_eq, text_eq_iff,
  starts_with, split_on, join_with, Lacks, All-split_on, Lacks-split_on, split_on-join_with,
}
use gxassessms.Errors.{require->>-ok, ok, value_error}
use gxassessms.Domain.PathValidation.{
  path_text, has, is_component, parts_of, normalized, is_portable, validate_canonical_posix_path,
}

-- a name that stays in its directory on every platform
pub record IsSegment (s : Chars) : Type 0 where
  pub given : s ≢ []
  pub not_here : s ≢ codes "."
  pub not_up : s ≢ codes ".."
  pub no_slash : Lacks b'/' s
  pub no_backslash : Lacks b'\\' s
  pub no_colon : Lacks b':' s
  pub portable : is_portable s ≡ true

Lacks-has : (c : ℕ) (s : Chars) → has c s ≡ false → Lacks c s
unfolding contains
Lacks-has c [] h = tt
Lacks-has c (d ∷ s) h = (ground arith, Lacks-has c s (ground arith))

has-Lacks : (c : ℕ) (s : Chars) → Lacks c s → has c s ≡ false
unfolding contains
has-Lacks c [] h = refl
has-Lacks c (d ∷ s) h = ground (arith, has-Lacks c s h.1, h.0)

-- what holds of the elements that pass a test
All-select_both {κ} :
    {A : Type 0} (P : A → Type κ) (p : A → Bool) (xs : List A)
    → All P xs
    → All (λ x. (p x ≡ true) × P x) (select p xs)
All-select_both P p [] h = tt
All-select_both P p (x ∷ xs) h = elim (Bool-cases (p x)) [
  | inl t ↦ rw t ((t, h.0), All-select_both P p xs h.1)
  | inr f ↦ rw f (All-select_both P p xs h.1)
]

All-zip :
    {A : Type 0} {P Q R : A → Type 0} (xs : List A)
    → ((x : A) → P x → Q x → R x)
    → All P xs
    → All Q xs
    → All R xs
All-zip [] f h k = tt
All-zip (x ∷ xs) f h k = (f x h.0 k.0, All-zip xs f h.1 k.1)

All-all : {A : Type 0} (p : A → Bool) (xs : List A) → all p xs ≡ true → All (λ x. p x ≡ true) xs
unfolding all
All-all p [] h = tt
All-all p (x ∷ xs) h = (ground arith, All-all p xs (ground arith))

all-All : {A : Type 0} (p : A → Bool) (xs : List A) → All (λ x. p x ≡ true) xs → all p xs ≡ true
unfolding all
all-All p [] h = refl
all-All p (x ∷ xs) h = ground (arith, all-All p xs h.1, h.0)

All-checked :
    (path : Chars) (parts : List Chars)
    → All (λ s. (is_component s ≡ true) × (Lacks b'/' s × Lacks b'\\' s)) parts
    → all (λ s. not (text_eq s (codes ".."))) parts ≡ true
    → all (λ s. not (has b':' s)) parts ≡ true
    → all is_portable parts ≡ true
    → All IsSegment parts
unfolding all
All-checked path [] h up colon port = tt
All-checked path (s ∷ ss) (h, hs) up colon port = (
  record {
    given = λ e. ground (arith, text_eq_iff s []);
    not_here = λ e. ground (arith, text_eq_iff s (codes "."));
    not_up = λ e. ground (arith, text_eq_iff s (codes ".."));
    no_slash = h.1.0;
    no_backslash = h.1.1;
    no_colon = Lacks-has b':' s (ground arith);
    portable = ground arith;
  },
  All-checked path ss hs (ground arith) (ground arith) (ground arith),
)

joined :
    (path : Chars) (parts : List Chars)
    → parts_of path ≡ parts
    → text_eq (normalized path) (codes ".") ≡ false
    → normalized path ≡ path
    → (parts ≢ []) × (join_with b'/' parts ≡ path)
joined path [] e dot same =
    absurd (ground (arith, ap path_text e, text_eq_iff (normalized path) (codes ".")))
joined path (s ∷ ss) e dot same = (λ none. ground arith, sym (ap path_text e) ∙ same)

-- A path that passes is the join of its parts, which are some segments that hide nothing: none is
-- "." or "..", none has a slash, a backslash or a colon, and all are portable.
pub validate_canonical_posix_path-IsSegment :
    (path : Chars)
    → validate_canonical_posix_path path ≡ ok tt
    → (parts_of path ≢ []) × (join_with b'/' (parts_of path) ≡ path) × All IsSegment (parts_of path)
unfolding validate_canonical_posix_path
validate_canonical_posix_path-IsSegment path h =
    let (some_text, h1) = require->>-ok (not (text_eq path [])) value_error _ h in
    let (backslash, h2) = require->>-ok (not (has b'\\' path)) value_error _ h1 in
    let (relative, h3) = require->>-ok (not (starts_with (codes "/") path)) value_error _ h2 in
    let (up, h4) =
      require->>-ok (all (λ s. not (text_eq s (codes ".."))) (parts_of path)) value_error _ h3 in
    let (colon, h5) =
      require->>-ok (all (λ s. not (has b':' s)) (parts_of path)) value_error _ h4 in
    let (dot, h6) = require->>-ok (not (text_eq (normalized path) (codes "."))) value_error _ h5 in
    let (same, last) = require->>-ok (text_eq (normalized path) path) value_error _ h6 in
    let port : all is_portable (parts_of path) ≡ true = ground arith in
    let (nonempty, path_eq) =
      joined path (parts_of path) refl (ground arith)
        ((text_eq_iff (normalized path) path).0 same) in
    (
      nonempty,
      path_eq,
      All-checked path (parts_of path) (plain_parts path (ground arith)) up colon port,
    )
  where
    plain_parts :
        (path : Chars)
        → has b'\\' path ≡ false
        → All (λ s. (is_component s ≡ true) × (Lacks b'/' s × Lacks b'\\' s)) (parts_of path)
    plain_parts path h =
        unfold parts_of in
        All-select_both (λ s. Lacks b'/' s × Lacks b'\\' s) is_component (split_on b'/' path)
          (All-zip (split_on b'/' path) (λ s a b. (a, b)) (Lacks-split_on b'/' path)
            (All-split_on (λ d. d ≢ b'\\') b'/' path (Lacks-has b'\\' path h)))

-- the parts of joined segments are the segments
components : (ss : List Chars) → All IsSegment ss → select is_component ss ≡ ss
components [] h = refl
components (s ∷ ss) (h, hs) =
    rw (components ss hs)
      (ground (arith, text_eq_iff s [], text_eq_iff s (codes "."), h.given, h.not_here))

All-no_slash : (ss : List Chars) → All IsSegment ss → All (Lacks b'/') ss
All-no_slash [] h = tt
All-no_slash (s ∷ ss) (h, hs) = (h.no_slash, All-no_slash ss hs)

parts_of-join_with :
    (s : Chars) (ss : List Chars)
    → All IsSegment (s ∷ ss)
    → parts_of (join_with b'/' (s ∷ ss)) ≡ s ∷ ss
unfolding parts_of
parts_of-join_with s ss h =
    rw (split_on-join_with b'/' s ss (All-no_slash (s ∷ ss) h)) (components (s ∷ ss) h)

Lacks-append : (c : ℕ) (s t : Chars) → Lacks c s → Lacks c t → Lacks c (s ++ t)
Lacks-append c [] t h k = k
Lacks-append c (d ∷ s) t h k = (h.0, Lacks-append c s t h.1 k)

no_backslash :
    (s : Chars) (ss : List Chars) → All IsSegment (s ∷ ss) → Lacks b'\\' (join_with b'/' (s ∷ ss))
no_backslash s [] (h, hs) = h.no_backslash
no_backslash s (t ∷ ts) (h, hs) =
    Lacks-append b'\\' s (b'/' ∷ join_with b'/' (t ∷ ts)) h.no_backslash
      (ground arith, no_backslash t ts hs)

All-tests :
    (ss : List Chars)
    → All IsSegment ss
    → (all (λ s. not (text_eq s (codes ".."))) ss ≡ true)
      × (all (λ s. not (has b':' s)) ss ≡ true)
      × (all is_portable ss ≡ true)
unfolding all
All-tests [] h = (refl, refl, refl)
All-tests (s ∷ ss) (h, hs) =
    let (up, colon, port) = All-tests ss hs in
    (
      ground (arith, text_eq_iff s (codes ".."), h.not_up, up),
      ground (arith, has-Lacks b':' s h.no_colon, colon),
      ground (arith, h.portable, port),
    )

not_rooted : (s t : Chars) → s ≢ [] → Lacks b'/' s → starts_with (codes "/") (s ++ t) ≡ false
not_rooted [] t given h = absurd (given refl)
not_rooted (c ∷ s) t given h = ground (arith, h.0)

joined_not_rooted :
    (s : Chars) (ss : List Chars)
    → IsSegment s
    → starts_with (codes "/") (join_with b'/' (s ∷ ss)) ≡ false
joined_not_rooted s [] h = rw append-nil at (not_rooted s [] h.given h.no_slash)
joined_not_rooted s (t ∷ ts) h = not_rooted s (b'/' ∷ join_with b'/' (t ∷ ts)) h.given h.no_slash

no_parts_here : parts_of (codes ".") ≡ []
unfolding parts_of split_on
no_parts_here = refl

no_parts : parts_of [] ≡ []
unfolding parts_of split_on
no_parts = refl

differs :
    (path other s : Chars) (ss : List Chars)
    → parts_of path ≡ s ∷ ss
    → parts_of other ≡ []
    → text_eq path other ≡ false
differs path other s ss e none = elim (Bool-cases (text_eq path other)) [
  | inr f ↦ f
  | inl t ↦
      let clash : s ∷ ss ≡ [] = sym e ∙ ap parts_of ((text_eq_iff path other).0 t) ∙ none in
      ground arith
]

-- Segments that hide nothing, joined by slashes, make a path that passes, and its parts are those
-- segments.
pub validate_canonical_posix_path-join_with :
    (s : Chars) (ss : List Chars)
    → All IsSegment (s ∷ ss)
    → (validate_canonical_posix_path (join_with b'/' (s ∷ ss)) ≡ ok tt)
      × (parts_of (join_with b'/' (s ∷ ss)) ≡ s ∷ ss)
unfolding validate_canonical_posix_path
validate_canonical_posix_path-join_with s ss h =
    let path = join_with b'/' (s ∷ ss) in
    let parts = parts_of-join_with s ss h in
    let (up, colon, port) = All-tests (s ∷ ss) h in
    let backslash = has-Lacks b'\\' path (no_backslash s ss h) in
    let rooted = joined_not_rooted s ss h.0 in
    let dot : text_eq path (codes ".") ≡ false =
      differs path (codes ".") s ss parts no_parts_here in
    let nonempty : text_eq path [] ≡ false = differs path [] s ss parts no_parts in
    let same : text_eq path path ≡ true = (text_eq_iff path path).1 refl in
    (rw (nonempty, backslash, rooted, parts, up, colon, dot, same, port) refl, parts)
