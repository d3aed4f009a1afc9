-- ===== src/Adapters/Arguments/Screened.antt =====
-- adapters/_base.py: arguments that pass the checks are well formed and bind no reserved parameter.
use gxassessms.Base.{
  ℕ, ◌≡◌, refl, sym, ap, subst, ◌∙◌, arith, Bool-cases, inl, inr, Bool, true, false, ◌||◌, Option,
  none, some, List, [], ◌∷◌, any, Chars, text_eq, text_eq_iff, starts_with, All,
}
use gxassessms.Errors.{ok, adapter_error, >>=-ok, require->>-ok, require-ok, ok_injective}
use gxassessms.Domain.Credentials.{partition}
use gxassessms.Adapters.Arguments.{
  Split, bare, put, by_colon, split_arg, split_all, parse_extra_args, is_reserved,
  check_reserved_args, matches_arg_pattern, validate_extra_args,
}

-- the name that an argument binds
abbrev pub name_of : Chars → Option (Chars × Chars) → Chars
name_of whole none = whole
name_of whole (some (name, value)) = name

abbrev pub bound_name : Chars → Chars
bound_name arg = name_of (bare arg) (partition b':' (bare arg))

any-put :
    {V : Type 0} (p : Chars → Bool) (k : Chars) (v : V) (m : List (Chars × V))
    → any (λ e. p e.0) (put k v m) ≡ (p k || any (λ e. p e.0) m)
unfolding any put
any-put p k v [] = refl
any-put p k v ((j, w) ∷ m) = elim (Bool-cases (text_eq j k)) [
  | inl e ↦ let same : p j ≡ p k = ap p ((text_eq_iff j k).0 e) in rw e (ground (arith, same))
  | inr e ↦ rw e (ground (arith, any-put p k v m))
]

-- whether a key of either dict passes a test
abbrev hits : (Chars → Bool) → Split → Bool
hits p split = any (λ e. p e.0) split.0 || any (λ e. p e.0) split.1

hits-by_colon :
    (p : Chars → Bool) (whole : Chars) (found : Option (Chars × Chars)) (split : Split)
    → hits p (by_colon whole found split) ≡ (p (name_of whole found) || hits p split)
hits-by_colon p whole none (named, switches) = ground (arith, any-put p whole true switches)
hits-by_colon p whole (some (name, value)) (named, switches) =
    ground (arith, any-put p name value named)

misses-split_all :
    (p : Chars → Bool) (args : List Chars) (split : Split)
    → hits p (split_all args split) ≡ false
    → (hits p split ≡ false) × All (λ arg. p (bound_name arg) ≡ false) args
unfolding split_all split_arg
misses-split_all p [] split h = (h, tt)
misses-split_all p (arg ∷ args) split h =
    let (missed, rest) = misses-split_all p args (split_arg arg split) h in
    let step = hits-by_colon p (bare arg) (partition b':' (bare arg)) split in
    (ground (arith, step, missed), (ground (arith, step, missed), rest))

validate_extra_args-ok :
    (is_word : ℕ → Bool) (args validated : List Chars)
    → validate_extra_args is_word args ≡ ok validated
    → (args ≡ validated) × All (λ arg. matches_arg_pattern is_word arg ≡ true) args
unfolding validate_extra_args
validate_extra_args-ok is_word [] validated h = (ok_injective h, tt)
validate_extra_args-ok is_word (arg ∷ args) validated h =
    let (matches, h1) = require->>-ok (matches_arg_pattern is_word arg) adapter_error _ h in
    let (rest, others, h2) = >>=-ok (validate_extra_args is_word args) _ h1 in
    let (same, all_match) = validate_extra_args-ok is_word args rest others in
    (ap (λ r. arg ∷ r) same ∙ ok_injective h2, (matches, all_match))

-- If the arguments pass validation and their names the check against reserved ones, each argument has the
-- form that the allowlist demands, and the name it binds, up to its colon, is a prefix of no reserved
-- name, letter case aside.
pub check_reserved_args-screens :
    (is_word : ℕ → Bool) (lower : Chars → Chars) (args validated reserved_args : List Chars)
    → validate_extra_args is_word args ≡ ok validated
    → check_reserved_args lower
        (parse_extra_args validated).0
        (parse_extra_args validated).1
        reserved_args
      ≡ ok tt
    → All (λ arg. matches_arg_pattern is_word arg ≡ true) args
      × All
          (λ arg. any (λ r. starts_with (lower (bound_name arg)) (lower r)) reserved_args ≡ false)
          args
unfolding check_reserved_args parse_extra_args
check_reserved_args-screens is_word lower args validated reserved_args valid h =
    let (same, all_match) = validate_extra_args-ok is_word args validated valid in
    let clear = require-ok _ adapter_error h in
    let missed : hits (is_reserved lower reserved_args) (split_all validated ([], [])) ≡ false =
      ground (arith, clear) in
    let (start, free) =
      misses-split_all (is_reserved lower reserved_args) validated ([], []) missed in
    (
      all_match,
      subst
          (All (λ arg.
            any (λ r. starts_with (lower (bound_name arg)) (lower r)) reserved_args ≡ false))
          (sym same) free,
    )
