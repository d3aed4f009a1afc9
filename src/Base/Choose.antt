-- ===== src/Base/Choose.antt =====
-- Python's `max` and `min` with a key: the first element that no later one is strictly better than.
use mathlib.Core.Path.{◌≡◌, refl, sym, subst}
use mathlib.Core.Logic.{◌⊎◌, inl, inr}
use mathlib.Core.Bool.{Bool, true, false}
use mathlib.Core.List.{List, [], ◌∷◌}
use gxassessms.Base.Tests.{if◌then◌else◌, Bool-cases}
use gxassessms.Base.Lists.{All}

module _ {A : Type 0} (better : A → A → Bool) where
  unfoldable pub pick : A → List A → A
  pick best [] = best
  pick best (x ∷ xs) = pick (if better x best then x else best) xs

-- an element of a list
abbrev pub Among : {A : Type 0} → A → List A → Type 0
Among a [] = ⊥
Among a (x ∷ xs) = (a ≡ x) ⊎ Among a xs

module _ {A : Type 0} (better : A → A → Bool) where
  pick-won :
      (best x : A) (xs : List A)
      → better x best ≡ true
      → pick better best (x ∷ xs) ≡ pick better x xs
  unfolding pick
  pick-won best x xs w = rw w refl

  pick-lost :
      (best x : A) (xs : List A)
      → better x best ≡ false
      → pick better best (x ∷ xs) ≡ pick better best xs
  unfolding pick
  pick-lost best x xs l = rw l refl

  pub pick-Among : (best : A) (xs : List A) → Among (pick better best xs) (best ∷ xs)
  pick-Among best [] = inl (unfold pick in refl)
  pick-Among best (x ∷ xs) = elim (Bool-cases (better x best)) [
    | inl w ↦
        subst (λ a. Among a (best ∷ x ∷ xs)) (sym (pick-won best x xs w)) (inr (pick-Among x xs))
    | inr l ↦
        subst (λ a. Among a (best ∷ x ∷ xs)) (sym (pick-lost best x xs l))
          (elim (pick-Among best xs) [ inl e ↦ inl e | inr m ↦ inr (inr m) ])
  ]

  module _ (AtLeast : A → A → Type 0) (own : (a : A) → AtLeast a a)
      (trans : (a b c : A) → AtLeast a b → AtLeast b c → AtLeast a c)
      (wins : (a b : A) → better a b ≡ true → AtLeast a b)
      (loses : (a b : A) → better a b ≡ false → AtLeast b a) where
    pick-AtLeast :
        (best : A) (xs : List A) (a : A) → AtLeast best a → AtLeast (pick better best xs) a
    pick-AtLeast best [] a h = unfold pick in h
    pick-AtLeast best (x ∷ xs) a h = elim (Bool-cases (better x best)) [
      | inl w ↦ rw (pick-won best x xs w) (pick-AtLeast x xs a (trans x best a (wins x best w) h))
      | inr l ↦ rw (pick-lost best x xs l) (pick-AtLeast best xs a h)
    ]

    -- the choice is at least as good as every element
    pub All-pick : (best : A) (xs : List A) → All (AtLeast (pick better best xs)) (best ∷ xs)
    All-pick best [] = (unfold pick in own best, tt)
    All-pick best (x ∷ xs) = elim (Bool-cases (better x best)) [
      | inl w ↦
          subst (λ a. All (AtLeast a) (best ∷ x ∷ xs)) (sym (pick-won best x xs w))
            (pick-AtLeast x xs best (wins x best w), All-pick x xs)
      | inr l ↦
          subst (λ a. All (AtLeast a) (best ∷ x ∷ xs)) (sym (pick-lost best x xs l))
            (
              pick-AtLeast best xs best (own best),
              (pick-AtLeast best xs x (loses x best l), (All-pick best xs).1),
            )
    ]
