-- ===== src/Base/Text.antt =====
-- Texts as lists of code points: splitting at a separator, and joining.
use Prim.Native.Char.{code}
use Prim.Native.Nat.{ℕ}
use Prim.Native.String.{String}
use mathlib.Core.Path.{◌≡◌, refl}
use mathlib.Core.Logic.{◌≢◌, ◌↔◌, inl, inr}
use mathlib.Core.Bool.{Bool, true, false, ◌&&◌}
use mathlib.Core.List.{List, [], ◌∷◌, ◌++◌}
use native.Mathlib.Omega.{arith}
use gxassessms.Base.Tests.{◌==◌, if◌then◌else◌, Bool-cases}
use gxassessms.Base.Lists.{All}

abbrev pub Chars : Type 0
Chars = List ℕ

-- the code points of a text
abbrev pub codes : String → Chars
codes String.[] = []
codes (String.◌∷◌ c s) = code c ∷ codes s

abbrev pub text_eq : Chars → Chars → Bool
text_eq [] [] = true
text_eq (a ∷ s) (b ∷ t) = a == b && text_eq s t
text_eq _ _ = false

pub text_eq_iff : (s t : Chars) → (text_eq s t ≡ true) ↔ (s ≡ t)
text_eq_iff [] [] = ground arith
text_eq_iff [] (b ∷ t) = ground arith
text_eq_iff (a ∷ s) [] = ground arith
text_eq_iff (a ∷ s) (b ∷ t) = ground (arith, text_eq_iff s t)

-- s.startswith(prefix)
abbrev pub starts_with : Chars → Chars → Bool
starts_with [] s = true
starts_with (a ∷ prefix) [] = false
starts_with (a ∷ prefix) (b ∷ s) = a == b && starts_with prefix s

abbrev pub push_first : ℕ → List Chars → List Chars
push_first c [] = (c ∷ []) ∷ []
push_first c (s ∷ ss) = (c ∷ s) ∷ ss

-- s.split(sep), for a separator of one character
unfoldable pub split_on : ℕ → Chars → List Chars
split_on sep [] = [] ∷ []
split_on sep (c ∷ cs) =
    let rest = split_on sep cs in if c == sep then [] ∷ rest else push_first c rest

-- sep.join(parts)
abbrev pub join_with : ℕ → List Chars → Chars
join_with sep [] = []
join_with sep (s ∷ []) = s
join_with sep (s ∷ t ∷ ts) = s ++ sep ∷ join_with sep (t ∷ ts)

-- a text without a character
abbrev pub Lacks : ℕ → Chars → Type 0
Lacks c = All (λ d. d ≢ c)

abbrev IsSome : List Chars → Type 0
IsSome [] = ⊥
IsSome (s ∷ ss) = Unit

split_on-IsSome : (sep : ℕ) (cs : Chars) → IsSome (split_on sep cs)
unfolding split_on
split_on-IsSome sep [] = tt
split_on-IsSome sep (c ∷ cs) = elim (Bool-cases (c == sep)) [
  | inl e ↦ rw e tt
  | inr e ↦ rw e (pushed (split_on sep cs))
]
  where
    pushed : (ss : List Chars) → IsSome (push_first c ss)
    pushed [] = tt
    pushed (s ∷ ss) = tt

All-push_first :
    (P : ℕ → Type 0) (c : ℕ) (ss : List Chars)
    → P c
    → All (All P) ss
    → All (All P) (push_first c ss)
All-push_first P c [] p h = ((p, tt), tt)
All-push_first P c (s ∷ ss) p h = ((p, h.0), h.1)

-- what holds of the characters of a text holds of the characters of its parts
pub All-split_on :
    (P : ℕ → Type 0) (sep : ℕ) (cs : Chars) → All P cs → All (All P) (split_on sep cs)
unfolding split_on
All-split_on P sep [] h = (tt, tt)
All-split_on P sep (c ∷ cs) h = elim (Bool-cases (c == sep)) [
  | inl e ↦ rw e (tt, All-split_on P sep cs h.1)
  | inr e ↦ rw e (All-push_first P c (split_on sep cs) h.0 (All-split_on P sep cs h.1))
]

pub Lacks-split_on : (sep : ℕ) (cs : Chars) → All (Lacks sep) (split_on sep cs)
unfolding split_on
Lacks-split_on sep [] = (tt, tt)
Lacks-split_on sep (c ∷ cs) = elim (Bool-cases (c == sep)) [
  | inl e ↦ rw e (tt, Lacks-split_on sep cs)
  | inr e ↦
      rw e
        (All-push_first (λ d. d ≢ sep) c (split_on sep cs) (ground arith) (Lacks-split_on sep cs))
]

split_on-part :
    (sep : ℕ) (s : Chars) (rest : Chars)
    → Lacks sep s
    → split_on sep (s ++ sep ∷ rest) ≡ s ∷ split_on sep rest
unfolding split_on
split_on-part sep [] rest h = ground arith
split_on-part sep (c ∷ s) rest h =
    let ih = split_on-part sep s rest h.1 in rw ih (ground (arith, h.0))

pub split_on-last : (sep : ℕ) (s : Chars) → Lacks sep s → split_on sep s ≡ s ∷ []
unfolding split_on
split_on-last sep [] h = refl
split_on-last sep (c ∷ s) h = let ih = split_on-last sep s h.1 in rw ih (ground (arith, h.0))

-- Parts that lack the separator are read back from their joined text.
pub split_on-join_with :
    (sep : ℕ) (s : Chars) (ss : List Chars)
    → All (Lacks sep) (s ∷ ss)
    → split_on sep (join_with sep (s ∷ ss)) ≡ s ∷ ss
split_on-join_with sep s [] h = split_on-last sep s h.0
split_on-join_with sep s (t ∷ ts) h =
    rw (split_on-part sep s (join_with sep (t ∷ ts)) h.0, split_on-join_with sep t ts h.1) refl
