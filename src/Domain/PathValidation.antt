-- ===== src/Domain/PathValidation.antt =====
-- core/domain/path_validation.py, on the code points of a path. PurePosixPath is Python's: the parts
-- of a relative path are what lies between slashes, but for empty parts and ".".
pub mod Canonical
use gxassessms.Base.{
  ℕ, ◌-◌, Bool, true, false, not, List, [], ◌∷◌, ◌==◌, ◌&&◌, ◌||◌, leb, if◌then◌else◌, contains,
  any, all, select, Chars, codes, text_eq, starts_with, split_on, join_with,
}
use gxassessms.Errors.{Result, ok, err, require, value_error, ◌>>=◌, ◌>>◌}

abbrev pub has : ℕ → Chars → Bool
has c s = contains (λ a b. a == b) c s

abbrev pub is_component : Chars → Bool
is_component s = not (text_eq s []) && not (text_eq s (codes "."))

-- PurePosixPath(path_str).parts
unfoldable pub parts_of : Chars → List Chars
unfolding split_on
parts_of path = select is_component (split_on b'/' path)

-- str(path), for the parts of a path
abbrev pub path_text : List Chars → Chars
path_text [] = codes "."
path_text (s ∷ ss) = join_with b'/' (s ∷ ss)

-- str(PurePosixPath(path_str))
abbrev pub normalized : Chars → Chars
normalized path = path_text (parts_of path)

-- a letter without its case, as re.IGNORECASE compares
abbrev upper : ℕ → ℕ
upper c = if leb b'a' c && leb c b'z' then c - 32 else c

abbrev upper_all : Chars → Chars
upper_all [] = []
upper_all (c ∷ cs) = upper c ∷ upper_all cs

-- `.+` up to `$`: characters that are no newline, and perhaps one newline at the end
unfoldable pub dotted : Chars → Bool
dotted [] = true
dotted (c ∷ []) = true
dotted (c ∷ d ∷ cs) = not (c == 10) && dotted (d ∷ cs)

-- `(\..+)?$`
unfoldable pub is_extension : Chars → Bool
unfolding dotted
is_extension [] = true
is_extension (c ∷ []) = c == 10
is_extension (c ∷ d ∷ cs) = c == b'.' && not (d == 10) && dotted (d ∷ cs)

abbrev is_port_digit : ℕ → Bool
is_port_digit c = leb b'1' c && leb c b'9'

abbrev device : Chars → Bool
device name =
    text_eq name (codes "CON")
    || text_eq name (codes "PRN")
    || text_eq name (codes "AUX")
    || text_eq name (codes "NUL")

abbrev port : Chars → Bool
port name = text_eq name (codes "COM") || text_eq name (codes "LPT")

-- `d` and the rest behind a port's three letters
abbrev port_rest : Chars → Bool
port_rest [] = false
port_rest (d ∷ rest) = is_port_digit d && is_extension rest

-- _RESERVED_NAME_RE.match(part)
unfoldable pub is_reserved : Chars → Bool
unfolding is_extension
is_reserved (a ∷ b ∷ c ∷ rest) =
    device (upper_all (a ∷ b ∷ c ∷ [])) && is_extension rest
    || port (upper_all (a ∷ b ∷ c ∷ [])) && port_rest rest
is_reserved _ = false

-- part.endswith(".") or part.endswith(" ")
unfoldable pub ends_badly : Chars → Bool
ends_badly [] = false
ends_badly (c ∷ []) = c == b'.' || c == b' '
ends_badly (c ∷ d ∷ cs) = ends_badly (d ∷ cs)

-- _ILLEGAL_CHARS & set(part)
unfoldable pub has_illegal : Chars → Bool
unfolding contains any
has_illegal s = any (λ c. has c (codes "<>\"|?*")) s

-- the last loop's checks of a segment
abbrev pub is_portable : Chars → Bool
is_portable s = not (is_reserved s) && not (ends_badly s) && not (has_illegal s)

unfoldable pub validate_canonical_posix_path : Chars → Result (Unit {0})
unfolding contains all
validate_canonical_posix_path path = do
  require (not (text_eq path [])) value_error
  require (not (has b'\\' path)) value_error
  require (not (starts_with (codes "/") path)) value_error
  require (all (λ s. not (text_eq s (codes ".."))) (parts_of path)) value_error
  require (all (λ s. not (has b':' s)) (parts_of path)) value_error
  require (not (text_eq (normalized path) (codes "."))) value_error
  require (text_eq (normalized path) path) value_error
  require (all is_portable (parts_of path)) value_error
