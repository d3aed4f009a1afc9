-- ===== src/Base/Assoc.antt =====
-- Python's `dict` as an association list in insertion order, over a key with an equality test.
use mathlib.Core.Path.{◌≡◌, refl}
use mathlib.Core.Bool.{Bool}
use mathlib.Core.Option.{Option, none, some}
use mathlib.Core.List.{List, [], ◌∷◌, ◌++◌}
use native.Mathlib.Omega.{arith}
use text.Mathlib.TextEquality.{eq_iff}
use Prim.Native.String.{String}
use text.Mathlib.TextPositions.{eq_refl}
use Prim.Native.Nat.{suc}
use mathlib.Core.Path.{sym, subst}
use mathlib.Core.Logic.{inl, inr}
use mathlib.Core.Bool.{false, ◌||◌}
use gxassessms.Base.Lists.{length, All}
use gxassessms.Base.Tests.{Bool-cases, str_eq, if◌then◌else◌}

-- d.get(k)
module _ {ℓ} {V : Type ℓ} where
  unfoldable pub lookup : String → List (String × V) → Option V
  lookup k [] = none
  lookup k ((j, v) ∷ m) = if str_eq j k then some v else lookup k m

  -- d[k] = v: an existing key keeps its place
  unfoldable pub upsert : String → V → List (String × V) → List (String × V)
  upsert k v [] = (k, v) ∷ []
  upsert k v ((j, w) ∷ m) = if str_eq j k then (j, v) ∷ m else (j, w) ∷ upsert k v m

  pub lookup-upsert :
      (k j : String) (v : V) (m : List (String × V))
      → lookup j (upsert k v m) ≡ (if str_eq k j then some v else lookup j m)
  unfolding lookup upsert
  lookup-upsert k j v [] = refl
  lookup-upsert k j v ((i, w) ∷ m) =
      ground (arith, eq_iff k j, eq_iff i k, eq_iff i j, lookup-upsert k j v m)

-- defaultdict(list): `groups[key(x)].append(x)` for each x, in order
module _ {ℓ κ} {K : Type κ} {A : Type ℓ} (eq : K → K → Bool) where
  unfoldable pub add_to_group : K → A → List (K × List A) → List (K × List A)
  add_to_group k a [] = (k, a ∷ []) ∷ []
  add_to_group k a ((j, g) ∷ gs) =
      if eq j k then (j, g ++ a ∷ []) ∷ gs else (j, g) ∷ add_to_group k a gs

  unfoldable pub group_by : (A → K) → List A → List (K × List A) → List (K × List A)
  group_by key [] groups = groups
  group_by key (a ∷ as') groups = group_by key as' (add_to_group (key a) a groups)

pub lookup-upsert_self {ℓ} :
    {V : Type ℓ} (k : String) (v : V) (m : List (String × V)) → lookup k (upsert k v m) ≡ some v
lookup-upsert_self k v m = simp (lookup-upsert, eq_refl)

-- the test for a key of a dict
abbrev pub is_key {ℓ} : {V : Type ℓ} → String → List (String × V) → Bool
is_key k [] = false
is_key k ((j, _) ∷ m) = str_eq k j || is_key k m

pub length-upsert :
    {V : Type 0} (k : String) (v : V) (m : List (String × V))
    → is_key k m ≡ false
    → length (upsert k v m) ≡ suc (length m)
unfolding upsert
length-upsert k v [] h = refl
length-upsert k v ((j, w) ∷ m) h = ground (arith, eq_iff k j, eq_iff j k, length-upsert k v m)

pub is_key-upsert :
    {V : Type 0} (k j : String) (v : V) (m : List (String × V))
    → is_key j (upsert k v m) ≡ (str_eq j k || is_key j m)
unfolding upsert
is_key-upsert k j v [] = refl
is_key-upsert k j v ((i, w) ∷ m) =
    ground (arith, eq_iff i k, eq_iff j k, eq_iff j i, is_key-upsert k j v m)

pub All-upsert :
    {V : Type 0} (P : String × V → Type 0) (k : String) (v : V) (m : List (String × V))
    → P (k, v)
    → All P m
    → All P (upsert k v m)
unfolding upsert
All-upsert P k v [] p h = (p, tt)
All-upsert P k v ((j, w) ∷ m) p h = elim (Bool-cases (str_eq j k)) [
  | inl own ↦ rw own (subst (λ i. P (i, v)) (sym ((eq_iff j k).0 own)) p, h.1)
  | inr other ↦ rw other (h.0, All-upsert P k v m p h.1)
]
