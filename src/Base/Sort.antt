-- ===== src/Base/Sort.antt =====
-- A stable sort, as `ORDER BY` with `rowid` and as `list.sort` make it.
use mathlib.Core.Path.{◌≡◌, refl}
use mathlib.Core.Bool.{Bool, true, ◌||◌}
use mathlib.Core.List.{List, [], ◌∷◌, ◌++◌, Perm, perm_middle, append-nil}
use mathlib.Core.List.Perm
use native.Mathlib.Omega.{arith}
use gxassessms.Base.Tests.{if◌then◌else◌, Bool-cases}
use gxassessms.Base.Lists.{All}
use mathlib.Core.Logic.{inl, inr}

module _ {ℓ} {A : Type ℓ} (le : A → A → Bool) where
  -- behind every element that does not come after `a`
  unfoldable pub insert_by : A → List A → List A
  insert_by a [] = a ∷ []
  insert_by a (x ∷ xs) = if le x a then x ∷ insert_by a xs else a ∷ x ∷ xs

  unfoldable pub sort_onto : List A → List A → List A
  sort_onto sorted [] = sorted
  sort_onto sorted (x ∷ xs) = sort_onto (insert_by x sorted) xs

  unfoldable pub sort_by : List A → List A
  unfolding sort_onto insert_by
  sort_by xs = sort_onto [] xs

  pub insert_by-last :
      (a : A) (xs : List A) → All (λ x. le x a ≡ true) xs → insert_by a xs ≡ xs ++ a ∷ []
  unfolding insert_by
  insert_by-last a [] h = refl
  insert_by-last a (x ∷ xs) h = ground (arith, insert_by-last a xs h.1)

  sort_onto-append :
      (s xs : List A) (a : A) → sort_onto s (xs ++ a ∷ []) ≡ insert_by a (sort_onto s xs)
  unfolding sort_onto
  sort_onto-append s [] a = refl
  sort_onto-append s (x ∷ xs) a = sort_onto-append (insert_by x s) xs a

  pub sort_by-append : (xs : List A) (a : A) → sort_by (xs ++ a ∷ []) ≡ insert_by a (sort_by xs)
  unfolding sort_by
  sort_by-append xs a = sort_onto-append [] xs a

  pub All-insert_by {κ} :
      (P : A → Type κ) (a : A) (xs : List A) → P a → All P xs → All P (insert_by a xs)
  unfolding insert_by
  All-insert_by P a [] p h = (p, tt)
  All-insert_by P a (x ∷ xs) p h = elim (Bool-cases (le x a)) [
    | inl e ↦ rw e (h.0, All-insert_by P a xs p h.1)
    | inr e ↦ rw e (p, h)
  ]

  All-sort_onto {κ} : (P : A → Type κ) (s xs : List A) → All P s → All P xs → All P (sort_onto s xs)
  unfolding sort_onto
  All-sort_onto P s [] hs h = hs
  All-sort_onto P s (x ∷ xs) hs h =
      All-sort_onto P (insert_by x s) xs (All-insert_by P x s h.0 hs) h.1

  pub All-sort_by {κ} : (P : A → Type κ) (xs : List A) → All P xs → All P (sort_by xs)
  unfolding sort_by
  All-sort_by P xs h = All-sort_onto P [] xs tt h

  insert_by-perm : (a : A) (xs : List A) → Perm (insert_by a xs) (a ∷ xs)
  unfolding insert_by
  insert_by-perm a [] = Perm.refl (a ∷ [])
  insert_by-perm a (x ∷ xs) = elim (Bool-cases (le x a)) [
    | inl e ↦ rw e (Perm.trans (Perm.cons x (insert_by-perm a xs)) (Perm.swap a x xs))
    | inr e ↦ rw e (Perm.refl (a ∷ x ∷ xs))
  ]

  sort_onto-perm : (s xs : List A) → Perm (sort_onto s xs) (s ++ xs)
  unfolding sort_onto
  sort_onto-perm s [] = rw append-nil (Perm.refl s)
  sort_onto-perm s (x ∷ xs) =
      Perm.trans (sort_onto-perm (insert_by x s) xs)
        (Perm.trans (Perm.append_right xs (insert_by-perm x s)) (Perm.symm (perm_middle s xs)))

  pub sort_by-perm : (xs : List A) → Perm (sort_by xs) xs
  unfolding sort_by
  sort_by-perm xs = sort_onto-perm [] xs

-- every earlier element at most every later one
abbrev pub IsSorted {ℓ} : {A : Type ℓ} → (A → A → Bool) → List A → Type ℓ
IsSorted le [] = Unit
IsSorted le (x ∷ xs) = All (λ y. le x y ≡ true) xs × IsSorted le xs

module _ {A : Type 0} (le : A → A → Bool) (total : (x y : A) → (le x y || le y x) ≡ true)
    (trans : (x y z : A) → le x y ≡ true → le y z ≡ true → le x z ≡ true) where
  All-below :
      (x y : A) (xs : List A)
      → le x y ≡ true
      → All (λ z. le y z ≡ true) xs
      → All (λ z. le x z ≡ true) xs
  All-below x y [] h k = tt
  All-below x y (z ∷ xs) h k = (trans x y z h k.0, All-below x y xs h k.1)

  insert_by-IsSorted : (a : A) (xs : List A) → IsSorted le xs → IsSorted le (insert_by le a xs)
  unfolding insert_by
  insert_by-IsSorted a [] h = (tt, tt)
  insert_by-IsSorted a (x ∷ xs) h = elim (Bool-cases (le x a)) [
    | inl e ↦ rw e (All-insert_by le (λ y. le x y ≡ true) a xs e h.0, insert_by-IsSorted a xs h.1)
    | inr e ↦
        let below : le a x ≡ true = ground (arith, total a x, e) in
        rw e ((below, All-below a x xs below h.0), h)
  ]

  sort_onto-IsSorted : (s xs : List A) → IsSorted le s → IsSorted le (sort_onto le s xs)
  unfolding sort_onto
  sort_onto-IsSorted s [] h = h
  sort_onto-IsSorted s (x ∷ xs) h =
      sort_onto-IsSorted (insert_by le x s) xs (insert_by-IsSorted x s h)

  pub sort_by-IsSorted : (xs : List A) → IsSorted le (sort_by le xs)
  unfolding sort_by
  sort_by-IsSorted xs = sort_onto-IsSorted [] xs tt
