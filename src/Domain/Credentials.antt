-- ===== src/Domain/Credentials.antt =====
-- core/domain/models.py: the references to credentials in an AuthContext, on code points. `is_space`
-- stands for Python's str.isspace on one character.
pub mod References
use gxassessms.Base.{
  ℕ, String, Bool, true, false, not, Option, none, some, List, [], ◌∷◌, ◌==◌, ◌&&◌, ◌||◌, leb, any,
  all, if◌then◌else◌, Chars, codes, text_eq,
}
use gxassessms.Domain.PathValidation.{has}
use gxassessms.Errors.{Result, ok, err, require, value_error, ◌>>=◌, ◌>>◌}

abbrev is_upper : ℕ → Bool
is_upper c = leb b'A' c && leb c b'Z'

abbrev is_lower : ℕ → Bool
is_lower c = leb b'a' c && leb c b'z'

abbrev is_digit : ℕ → Bool
is_digit c = leb b'0' c && leb c b'9'

-- re.fullmatch(r"^[first][rest]*$", s)
unfoldable pub fullmatch : (ℕ → Bool) → (ℕ → Bool) → Chars → Bool
fullmatch first rest [] = false
fullmatch first rest (c ∷ cs) = first c && all rest cs

-- _ENV_CREDENTIAL_REF_RE
abbrev pub env_credential_ref : Chars → Bool
env_credential_ref =
    fullmatch (λ c. c == b'_' || is_upper c) (λ c. c == b'_' || is_upper c || is_digit c)

-- _PROVIDER_NAME_RE
abbrev pub provider_name : Chars → Bool
provider_name = fullmatch is_lower (λ c. is_lower c || is_digit c || c == b'_')

abbrev is_key_start : ℕ → Bool
is_key_start c = is_upper c || is_lower c || is_digit c

-- _PROVIDER_KEY_RE
abbrev pub provider_key : Chars → Bool
provider_key =
    fullmatch is_key_start (λ c. is_key_start c || c == b'.' || c == b'_' || c == b'/' || c == b'-')

abbrev pub push : ℕ → Option (Chars × Chars) → Option (Chars × Chars)
push c none = none
push c (some (before, after)) = some (c ∷ before, after)

-- s.partition(sep), `none` where the separator is not found
unfoldable pub partition : ℕ → Chars → Option (Chars × Chars)
partition sep [] = none
partition sep (c ∷ cs) =
    let rest = partition sep cs in if c == sep then some ([], cs) else push c rest

abbrev pub is_provider_ref : Option (Chars × Chars) → Bool
is_provider_ref none = false
is_provider_ref (some (provider, key)) =
    if text_eq provider (codes "env")
    then env_credential_ref key
    else not (has b':' key) && provider_name provider && provider_key key

module _ (is_space : ℕ → Bool) where
  unfoldable pub is_valid_credential_ref : Chars → Bool
  unfolding partition
  is_valid_credential_ref value =
      not (text_eq value [] || any is_space value)
      && (env_credential_ref value || is_provider_ref (partition b':' value))

  unfoldable pub validate_credential_refs : List (String × String) → Result (Unit {0})
  unfolding is_valid_credential_ref
  validate_credential_refs [] = ok tt
  validate_credential_refs ((ref_name, ref_value) ∷ refs) = do
    require (is_valid_credential_ref (codes ref_value)) value_error
    validate_credential_refs refs
