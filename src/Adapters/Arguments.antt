-- ===== src/Adapters/Arguments.antt =====
-- adapters/_base.py: the arguments that a configuration may pass to a PowerShell tool, on code points.
-- `is_word` stands for Python's `\w`, and `lower` for str.lower.
pub mod Screened
use gxassessms.Base.{
  ℕ, String, Bool, true, false, not, Option, none, some, List, [], ◌∷◌, ◌==◌, ◌&&◌, ◌||◌, leb, any,
  all, if◌then◌else◌, Chars, codes, text_eq, starts_with, select,
}
use gxassessms.Errors.{Result, ok, err, require, adapter_error, ◌>>=◌, ◌>>◌}
use gxassessms.Domain.Credentials.{partition}

abbrev is_letter : ℕ → Bool
is_letter c = leb b'A' c && leb c b'Z' || leb b'a' c && leb c b'z'

abbrev is_name_char : ℕ → Bool
is_name_char c = is_letter c || leb b'0' c && leb c b'9'

-- a final newline is let through, since the pattern ends in `$`
abbrev pub at_end : Chars → Bool
at_end [] = true
at_end (c ∷ []) = c == 10
at_end (c ∷ d ∷ cs) = false

module _ (is_word : ℕ → Bool) where
  abbrev is_value_char : ℕ → Bool
  is_value_char c = is_word c || c == b'-' || c == b'.' || c == b','

  -- `[\w\-.,]*$`
  unfoldable pub is_value_rest : Chars → Bool
  is_value_rest [] = true
  is_value_rest (c ∷ cs) = at_end (c ∷ cs) || is_value_char c && is_value_rest cs

  -- `[\w\-.,]+$`
  abbrev pub is_value : Chars → Bool
  is_value [] = false
  is_value (c ∷ cs) = is_value_char c && is_value_rest cs

  -- `[A-Za-z0-9]*(?::[\w\-.,]+)?$`
  unfoldable pub is_name_rest : Chars → Bool
  unfolding is_value_rest
  is_name_rest [] = true
  is_name_rest (c ∷ cs) =
      at_end (c ∷ cs) || is_name_char c && is_name_rest cs || c == b':' && is_value cs

  -- _ARG_PATTERN.match(arg)
  unfoldable pub matches_arg_pattern : Chars → Bool
  unfolding is_name_rest
  matches_arg_pattern (dash ∷ c ∷ cs) = dash == b'-' && is_letter c && is_name_rest cs
  matches_arg_pattern _ = false

  unfoldable pub validate_extra_args : List Chars → Result (List Chars)
  unfolding matches_arg_pattern
  validate_extra_args [] = ok []
  validate_extra_args (arg ∷ args) = do
    require (matches_arg_pattern arg) adapter_error
    rest ← validate_extra_args args
    ok (arg ∷ rest)

-- a dict over texts as code points: an existing key keeps its place
unfoldable pub put : {V : Type 0} → Chars → V → List (Chars × V) → List (Chars × V)
put k v [] = (k, v) ∷ []
put k v ((j, w) ∷ m) = if text_eq j k then (j, v) ∷ m else (j, w) ∷ put k v m

-- named_args and switches
abbrev pub Split : Type 0
Split = List (Chars × Chars) × List (Chars × Bool)

abbrev pub bare : Chars → Chars
bare [] = []
bare (c ∷ cs) = cs

-- an argument without its dash, split at its colon
abbrev pub by_colon : Chars → Option (Chars × Chars) → Split → Split
by_colon whole none (named_args, switches) = (named_args, put whole true switches)
by_colon whole (some (name, value)) (named_args, switches) = (put name value named_args, switches)

unfoldable pub split_arg : Chars → Split → Split
unfolding partition put
split_arg arg split = by_colon (bare arg) (partition b':' (bare arg)) split

unfoldable pub split_all : List Chars → Split → Split
unfolding split_arg
split_all [] split = split
split_all (arg ∷ args) split = split_all args (split_arg arg split)

unfoldable pub parse_extra_args : List Chars → Split
unfolding split_all
parse_extra_args extra_args = split_all extra_args ([], [])

module _ (lower : Chars → Chars) where
  -- any(r.startswith(k.lower()) for r in reserved_lower)
  abbrev pub is_reserved : List Chars → Chars → Bool
  is_reserved reserved_args k = any (λ r. starts_with (lower k) (lower r)) reserved_args

  -- whether there are conflicts
  abbrev pub any_reserved : {V : Type 0} → List Chars → List (Chars × V) → Bool
  any_reserved reserved_args m = any (λ e. is_reserved reserved_args e.0) m

  unfoldable pub check_reserved_args :
      List (Chars × Chars) → List (Chars × Bool) → List Chars → Result (Unit {0})
  unfolding any
  check_reserved_args extra_named switches reserved_args =
      require (not (any_reserved reserved_args extra_named || any_reserved reserved_args switches))
        adapter_error
