-- ===== src/Adapters/Verification/Versions.antt =====
-- core/contracts/verification.py: versions and ranges of versions, on code points. Unicode's digits and
-- white space are a parameter; a number that int refuses for its length, of more than 4300 digits, is
-- taken.
pub mod Pinned
use gxassessms.Base.{
  ℕ, ◌+◌, ◌*◌, ◌≡◌, ◌≢◌, String, Bool, true, false, not, Option, none, some, List, [], ◌∷◌, ◌==◌,
  ◌&&◌, ◌||◌, ltb, if◌then◌else◌, Chars, split_on,
}
use gxassessms.Errors.{Result, ok, err, or_value_error, ◌>>=◌}

pub record Unicode : Type 0 where
  -- int(c), where the character is a decimal digit
  pub digit_value : ℕ → Option ℕ
  pub is_space : ℕ → Bool
  pub digit_no_space : (c d : ℕ) → digit_value c ≡ some d → is_space c ≡ false
  pub comma_no_digit : digit_value b',' ≡ none
  pub newline_space : is_space 10 ≡ true
  pub dot_no_space : is_space b'.' ≡ false
  pub equals_no_space : is_space b'=' ≡ false

pub record Version : Type 0 where
  pub major : ℕ
  pub minor : ℕ
  pub patch : ℕ

-- the text before a final newline, where `$` matches too
unfoldable pub chomp : Chars → Chars
chomp [] = []
chomp (c ∷ []) = if c == 10 then [] else c ∷ []
chomp (c ∷ d ∷ cs) = c ∷ chomp (d ∷ cs)

abbrev pub is_nil : Chars → Bool
is_nil [] = true
is_nil (c ∷ cs) = false

abbrev pub push_digit : ℕ → Option ℕ → Option ℕ
push_digit acc none = none
push_digit acc (some d) = some (acc * 10 + d)

abbrev pub version_of : Option ℕ → Option ℕ → Option ℕ → Option Version
version_of (some a) (some b) (some c) = some (record { major = a; minor = b; patch = c })
version_of _ _ _ = none

pub data Comparison : Type 0 where
  at_least at_most above below equal : Comparison

abbrev pub version_lt : Version → Version → Bool
version_lt v w =
    ltb v.major w.major
    || v.major == w.major && (ltb v.minor w.minor || v.minor == w.minor && ltb v.patch w.patch)

abbrev pub version_eq : Version → Version → Bool
version_eq v w = v.major == w.major && v.minor == w.minor && v.patch == w.patch

-- ops[op](ver, target)
abbrev pub holds : Comparison → Version → Version → Bool
holds at_least v w = not (version_lt v w)
holds at_most v w = not (version_lt w v)
holds above v w = version_lt w v
holds below v w = version_lt v w
holds equal v w = version_eq v w

abbrev pub with_op : Comparison → Option Version → Option (Comparison × Version)
with_op op none = none
with_op op (some v) = some (op, v)

abbrev pub is_constraint : Option (Comparison × Version) → Bool
is_constraint none = false
is_constraint (some c) = true

module _ (u : Unicode) where
  open u use {digit_value, is_space}

  -- s.strip()
  unfoldable pub rstrip : Chars → Chars
  rstrip [] = []
  rstrip (c ∷ cs) = let rest = rstrip cs in if is_nil rest && is_space c then [] else c ∷ rest

  unfoldable pub lstrip : Chars → Chars
  lstrip [] = []
  lstrip (c ∷ cs) = if is_space c then lstrip cs else c ∷ cs

  unfoldable pub strip : Chars → Chars
  unfolding rstrip lstrip
  strip cs = rstrip (lstrip cs)

  -- int of `\d*`, behind the digits that `acc` stands for
  unfoldable pub number_from : Option ℕ → Chars → Option ℕ
  number_from acc [] = acc
  number_from none (c ∷ cs) = none
  number_from (some acc) (c ∷ cs) = number_from (push_digit acc (digit_value c)) cs

  -- int of `\d+`
  unfoldable pub number : Chars → Option ℕ
  unfolding number_from
  number [] = none
  number (c ∷ cs) = number_from (some 0) (c ∷ cs)

  abbrev pub of_parts : List Chars → Option Version
  of_parts (a ∷ b ∷ c ∷ []) = version_of (number a) (number b) (number c)
  of_parts _ = none

  -- the groups of _SEMVER_RE
  unfoldable pub match_semver : Chars → Option Version
  unfolding chomp split_on number
  match_semver version = of_parts (split_on b'.' (chomp version))

  unfoldable pub parse_semver : Chars → Result Version
  unfolding match_semver
  parse_semver version = or_value_error (match_semver version)

  -- _CONSTRAINT_RE.match(constraint)
  unfoldable pub parse_constraint : Chars → Option (Comparison × Version)
  unfolding match_semver
  parse_constraint (c ∷ d ∷ cs) =
      if c == b'>' && d == b'='
      then with_op at_least (match_semver cs)
      else if c == b'<' && d == b'='
      then with_op at_most (match_semver cs)
      else if c == b'>'
      then with_op above (match_semver (d ∷ cs))
      else if c == b'<'
      then with_op below (match_semver (d ∷ cs))
      else if c == b'=' && d == b'='
      then with_op equal (match_semver cs)
      else none
  parse_constraint _ = none

  -- the loop over constraints: the first that fails ends it
  unfoldable pub all_hold : Version → List Chars → Result Bool
  unfolding parse_constraint strip
  all_hold ver [] = ok true
  all_hold ver (constraint ∷ rest) = do
    (op, target) ← or_value_error (parse_constraint (strip constraint))
    let others = all_hold ver rest
    if holds op ver target then others else ok false

  unfoldable pub version_satisfies_range : Chars → Chars → Result Bool
  unfolding parse_semver all_hold split_on
  version_satisfies_range version version_range = do
    ver ← parse_semver version
    all_hold ver (split_on b',' version_range)

  unfoldable pub are_constraints : List Chars → Bool
  unfolding parse_constraint strip
  are_constraints [] = true
  are_constraints (c ∷ cs) = is_constraint (parse_constraint (strip c)) && are_constraints cs

  -- _validate_version_range
  abbrev pub is_version_range : Chars → Bool
  is_version_range version_range = are_constraints (split_on b',' version_range)
