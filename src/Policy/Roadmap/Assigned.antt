-- ===== src/Policy/Roadmap/Assigned.antt =====
-- policy/roadmap.py: the assignments, their phases and scores, and their order.
use mathlib.Core.List.{Perm}
use gxassessms.Base.{
  String, ◌≡◌, refl, Bool, true, false, Option, none, some, List, [], ◌∷◌, str_eq, if◌then◌else◌,
  contains, map, sort_by, sort_onto, insert_by, All, All-sort_by, sort_by-perm, arith, Bool-cases,
  inl, inr, Chars, codes, lookup,
}
use gxassessms.Domain.Enums.{severity_value}
use gxassessms.Domain.Findings.{ConsolidatedFinding}
use gxassessms.Policy.Floats.{Floats}
use gxassessms.Policy.Roadmap.{
  RoadmapRules, RoadmapAssignment, valid_phases, checked_phase, determine_phase, at_least_zero,
  at_most_hundred, compute_priority, assign_one, comes_no_later, ranked_pairs, assign_phases,
  chars_le,
}

-- each element comes no later than the next
abbrev IsOrdered : {A : Type 0} → (A → A → Bool) → List A → Type 0
IsOrdered le [] = Unit
IsOrdered le (x ∷ []) = Unit
IsOrdered le (x ∷ y ∷ xs) = (le x y ≡ true) × IsOrdered le (y ∷ xs)

-- an order of which, of two elements, one does not come later than the other
module _ {A : Type 0} (le : A → A → Bool) (total : (x y : A) → le x y ≡ false → le y x ≡ true) where
  insert_by-behind :
      (x a : A) (xs : List A)
      → le x a ≡ true
      → IsOrdered le (x ∷ xs)
      → IsOrdered le (insert_by le a xs)
      → IsOrdered le (x ∷ insert_by le a xs)
  unfolding insert_by
  insert_by-behind x a [] h o i = (h, tt)
  insert_by-behind x a (y ∷ ys) h o i = elim (Bool-cases (le y a)) [
    | inl e ↦ let i' = rw e at i in rw e (o.0, i')
    | inr e ↦ let i' = rw e at i in rw e (h, i')
  ]

  IsOrdered-rest : (x : A) (xs : List A) → IsOrdered le (x ∷ xs) → IsOrdered le xs
  IsOrdered-rest x [] o = tt
  IsOrdered-rest x (y ∷ xs) o = o.1

  insert_by-IsOrdered : (a : A) (xs : List A) → IsOrdered le xs → IsOrdered le (insert_by le a xs)
  unfolding insert_by
  insert_by-IsOrdered a [] o = tt
  insert_by-IsOrdered a (x ∷ xs) o = elim (Bool-cases (le x a)) [
    | inl e ↦ rw e (insert_by-behind x a xs e o (insert_by-IsOrdered a xs (IsOrdered-rest x xs o)))
    | inr e ↦ rw e (total x a e, o)
  ]

  sort_onto-IsOrdered : (s xs : List A) → IsOrdered le s → IsOrdered le (sort_onto le s xs)
  unfolding sort_onto
  sort_onto-IsOrdered s [] o = o
  sort_onto-IsOrdered s (x ∷ xs) o =
      sort_onto-IsOrdered (insert_by le x s) xs (insert_by-IsOrdered x s o)

  sort_by-IsOrdered : (xs : List A) → IsOrdered le (sort_by le xs)
  unfolding sort_by
  sort_by-IsOrdered xs = sort_onto-IsOrdered [] xs tt

chars_le-total : (s t : Chars) → chars_le s t ≡ false → chars_le t s ≡ true
unfolding chars_le
chars_le-total [] t h = ground arith
chars_le-total (c ∷ s) [] h = refl
chars_le-total (c ∷ s) (d ∷ t) h = ground (arith, chars_le-total s t)

module _ (floats : Floats) where
  open floats use {
    Float, lt, of_nat, rounded, lt_irrefl, lt_asym, zero-lt-hundred, rounded_above, rounded_below,
  }

  comes_no_later-total :
      (p q : Float × RoadmapAssignment floats)
      → comes_no_later floats p q ≡ false
      → comes_no_later floats q p ≡ true
  comes_no_later-total (p, a) (q, b) h = by_scores (lt q p) (lt p q) h
    where
      by_scores :
          (less more : Bool)
          → (if less
              then true
              else if more
              then false
              else chars_le (codes a.finding_key) (codes b.finding_key))
            ≡ false
          → (if more
              then true
              else if less
              then false
              else chars_le (codes b.finding_key) (codes a.finding_key))
            ≡ true
      by_scores true more h = ground arith
      by_scores false true h = refl
      by_scores false false h = chars_le-total (codes a.finding_key) (codes b.finding_key) h

  -- between 0 and 100
  abbrev pub IsWithin : Float → Type 0
  IsWithin x = (lt x (of_nat 0) ≡ false) × (lt (of_nat 100) x ≡ false)

  at_least_zero-bound : (x : Float) → lt (at_least_zero floats x) (of_nat 0) ≡ false
  at_least_zero-bound x = elim (Bool-cases (lt (of_nat 0) x)) [
    | inl e ↦ rw e (lt_asym (of_nat 0) x e)
    | inr e ↦ rw e (lt_irrefl (of_nat 0))
  ]

  at_most_hundred-IsWithin :
      (x : Float) → lt x (of_nat 0) ≡ false → IsWithin (at_most_hundred floats x)
  at_most_hundred-IsWithin x h = elim (Bool-cases (lt x (of_nat 100))) [
    | inl e ↦ rw e (h, lt_asym x (of_nat 100) e)
    | inr e ↦ rw e (lt_asym (of_nat 0) (of_nat 100) zero-lt-hundred, lt_irrefl (of_nat 100))
  ]

  rounded-IsWithin : (x : Float) → IsWithin x → IsWithin (rounded x)
  rounded-IsWithin x (above, below) = (rounded_above x above, rounded_below x below)

  compute_priority-IsWithin :
      (r : RoadmapRules floats) (f : ConsolidatedFinding) → IsWithin (compute_priority floats r f)
  unfolding compute_priority
  compute_priority-IsWithin r f = at_most_hundred-IsWithin _ (at_least_zero-bound _)

  checked_phase-valid :
      (o : Option String) → contains str_eq (checked_phase floats o) valid_phases ≡ true
  checked_phase-valid none = unfold contains in refl
  checked_phase-valid (some phase) = elim (Bool-cases (contains str_eq phase valid_phases)) [
    | inl e ↦ rw (e, e) refl
    | inr e ↦ rw e (unfold contains in refl)
  ]

  -- an assignment has one of the phases, and a score between 0 and 100
  abbrev pub IsSound : RoadmapAssignment floats → Type 0
  IsSound a = (contains str_eq a.phase valid_phases ≡ true) × IsWithin a.priority_score

  assign_one-IsSound :
      (r : RoadmapRules floats) (f : ConsolidatedFinding) → IsSound (assign_one floats r f).1
  unfolding assign_one determine_phase
  assign_one-IsSound r f = (
    checked_phase-valid (lookup (severity_value f.severity) r.severity_to_phase),
    rounded-IsWithin (compute_priority floats r f) (compute_priority-IsWithin r f),
  )

  All-assign_one :
      (r : RoadmapRules floats) (fs : List ConsolidatedFinding)
      → All (λ p. IsSound p.1) (map (assign_one floats r) fs)
  All-assign_one r [] = tt
  All-assign_one r (f ∷ fs) = (assign_one-IsSound r f, All-assign_one r fs)

  All-map :
      (ps : List (Float × RoadmapAssignment floats))
      → All (λ p. IsSound p.1) ps
      → All IsSound (map (λ p. p.1) ps)
  All-map [] h = tt
  All-map (p ∷ ps) h = (h.0, All-map ps h.1)

  -- a first pair may stand before a second one: its score is not lower, and where no score is greater
  -- than the other its key is not behind
  abbrev pub Precedes : Float × RoadmapAssignment floats → Float × RoadmapAssignment floats → Type 0
  Precedes (p, a) (q, b) =
      (lt p q ≡ false)
      × (lt q p ≡ false → chars_le (codes a.finding_key) (codes b.finding_key) ≡ true)

  abbrev pub IsRanked : List (Float × RoadmapAssignment floats) → Type 0
  IsRanked [] = Unit
  IsRanked (x ∷ []) = Unit
  IsRanked (x ∷ y ∷ xs) = Precedes x y × IsRanked (y ∷ xs)

  comes_no_later-Precedes :
      (x y : Float × RoadmapAssignment floats) → comes_no_later floats x y ≡ true → Precedes x y
  comes_no_later-Precedes (p, a) (q, b) h = elim (Bool-cases (lt q p)) [
    | inl e ↦ (lt_asym q p e, λ n. ground (arith, e, n))
    | inr e ↦ elim (Bool-cases (lt p q)) [
      | inl less ↦ let h' = rw (e, less) at h in ground arith
      | inr equal ↦ (equal, λ n. rw (e, equal) at h)
    ]
  ]

  IsOrdered-IsRanked :
      (xs : List (Float × RoadmapAssignment floats))
      → IsOrdered (comes_no_later floats) xs
      → IsRanked xs
  IsOrdered-IsRanked [] o = tt
  IsOrdered-IsRanked (x ∷ []) o = tt
  IsOrdered-IsRanked (x ∷ y ∷ xs) o =
      (comes_no_later-Precedes x y o.0, IsOrdered-IsRanked (y ∷ xs) o.1)

  -- The roadmap is the assignments of a rearrangement of the findings, one for each, in which a score
  -- never stands before a greater one, and of two scores neither of which is greater the earlier key
  -- stands first; each has one of the four phases and a score between 0 and 100.
  pub assign_phases-IsSound :
      (r : RoadmapRules floats) (fs : List ConsolidatedFinding)
      → (pairs : List (Float × RoadmapAssignment floats)) × (assign_phases floats r fs
          ≡ map (λ p. p.1) pairs)
        × Perm pairs (map (assign_one floats r) fs)
        × IsRanked pairs
        × All IsSound (assign_phases floats r fs)
  unfolding assign_phases ranked_pairs
  assign_phases-IsSound r fs = (
    ranked_pairs floats r fs,
    refl,
    sort_by-perm (comes_no_later floats) (map (assign_one floats r) fs),
    IsOrdered-IsRanked _ (
        sort_by-IsOrdered (comes_no_later floats) comes_no_later-total
          (map (assign_one floats r) fs)),
    All-map (ranked_pairs floats r fs)
        (All-sort_by (comes_no_later floats) (λ p. IsSound p.1) _ (All-assign_one r fs)),
  )
