-- ===== src/Policy/Reporting/Audience.antt =====
-- What a report for an audience shows.
use gxassessms.Base.{
  ℕ, zero, suc, ◌≤◌, ◌<◌, ◌≡◌, refl, true, false, Option, none, some, List, [], ◌∷◌, arith, All,
  ltb, Bool-cases, inl, inr, take, length, sort_by, insert_by, sort_onto, lookup, All-sort_by,
  All-insert_by, ◌⊎◌,
}
use gxassessms.Errors.{ok}
use gxassessms.Domain.Enums.{severity_order, severity_order_table}
use gxassessms.Domain.Findings.{ConsolidatedFinding}
use gxassessms.Policy.Reporting.{
  AudienceConfig, min_severity_text, min_confidence, visible, ranks_before, capped, filter_config,
}

-- each finding before the next, by severity and then by confidence
abbrev pub NotBelow : ConsolidatedFinding → ConsolidatedFinding → Type 0
NotBelow a b =
    (severity_order b.severity < severity_order a.severity)
    ⊎ ((severity_order b.severity ≡ severity_order a.severity)
        × (b.confidence.overall ≤ a.confidence.overall))

-- every earlier finding against every later one
abbrev pub IsRanked : List ConsolidatedFinding → Type 0
IsRanked [] = Unit
IsRanked (x ∷ xs) = All (NotBelow x) xs × IsRanked xs

ranks_before-NotBelow : (a b : ConsolidatedFinding) → ranks_before a b ≡ true → NotBelow a b
unfolding ranks_before
ranks_before-NotBelow a b h = ground arith

not-ranks_before : (a b : ConsolidatedFinding) → ranks_before a b ≡ false → NotBelow b a
unfolding ranks_before
not-ranks_before a b h = ground arith

NotBelow-trans : (a b c : ConsolidatedFinding) → NotBelow a b → NotBelow b c → NotBelow a c
NotBelow-trans a b c h k = ground arith

All-NotBelow-trans :
    (a b : ConsolidatedFinding) (xs : List ConsolidatedFinding)
    → NotBelow a b
    → All (NotBelow b) xs
    → All (NotBelow a) xs
All-NotBelow-trans a b [] h k = tt
All-NotBelow-trans a b (x ∷ xs) h k = (NotBelow-trans a b x h k.0, All-NotBelow-trans a b xs h k.1)

insert_by-IsRanked :
    (a : ConsolidatedFinding) (xs : List ConsolidatedFinding)
    → IsRanked xs
    → IsRanked (insert_by ranks_before a xs)
unfolding insert_by
insert_by-IsRanked a [] h = (tt, tt)
insert_by-IsRanked a (x ∷ xs) h = elim (Bool-cases (ranks_before x a)) [
  | inl e ↦ rw e (
    All-insert_by ranks_before (NotBelow x) a xs (ranks_before-NotBelow x a e) h.0,
    insert_by-IsRanked a xs h.1,
  )
  | inr e ↦
      let below = not-ranks_before x a e in rw e ((below, All-NotBelow-trans a x xs below h.0), h)
]

sort_onto-IsRanked :
    (s xs : List ConsolidatedFinding) → IsRanked s → IsRanked (sort_onto ranks_before s xs)
unfolding sort_onto
sort_onto-IsRanked s [] h = h
sort_onto-IsRanked s (x ∷ xs) h =
    sort_onto-IsRanked (insert_by ranks_before x s) xs (insert_by-IsRanked x s h)

All-take {κ} :
    (P : ConsolidatedFinding → Type κ) (n : ℕ) (xs : List ConsolidatedFinding)
    → All P xs
    → All P (take n xs)
All-take P zero xs h = tt
All-take P (suc n) [] h = tt
All-take P (suc n) (x ∷ xs) h = (h.0, All-take P n xs h.1)

IsRanked-take : (n : ℕ) (xs : List ConsolidatedFinding) → IsRanked xs → IsRanked (take n xs)
IsRanked-take zero xs h = tt
IsRanked-take (suc n) [] h = tt
IsRanked-take (suc n) (x ∷ xs) h = (All-take (NotBelow x) n xs h.0, IsRanked-take n xs h.1)

length-take : (n : ℕ) (xs : List ConsolidatedFinding) → length (take n xs) ≤ n
length-take zero xs = omega arith
length-take (suc n) [] = omega arith
length-take (suc n) (x ∷ xs) = omega (arith, length-take n xs)

abbrev IsShown : ℕ → ℕ → ConsolidatedFinding → Type 0
IsShown severity confidence f =
    (severity ≤ severity_order f.severity) × (confidence ≤ f.confidence.overall)

All-visible :
    (severity confidence : ℕ) (fs : List ConsolidatedFinding)
    → All (IsShown severity confidence) (visible severity confidence fs)
unfolding visible
All-visible severity confidence [] = tt
All-visible severity confidence (f ∷ fs) = ground (arith, All-visible severity confidence fs)

abbrev pub Within : Option ℕ → List ConsolidatedFinding → Type 0
Within none fs = Unit
Within (some n) fs = length fs ≤ n

capped_lem :
    (limit : Option ℕ) (fs : List ConsolidatedFinding) (severity confidence : ℕ)
    → IsRanked fs
    → All (IsShown severity confidence) fs
    → IsRanked (capped limit fs)
      × All (IsShown severity confidence) (capped limit fs)
      × Within limit (capped limit fs)
unfolding capped
capped_lem none fs severity confidence r h = (r, h, tt)
capped_lem (some n) fs severity confidence r h = elim (Bool-cases (ltb n (length fs))) [
  | inl over ↦
      rw over
        (IsRanked-take n fs r, All-take (IsShown severity confidence) n fs h, length-take n fs)
  | inr fits ↦ rw fits (r, h, ground arith)
]

-- If the minimum severity of an audience is known, the report for it is made, and shows findings at
-- or above the minimum severity and the minimum confidence alone, the graver before the less grave
-- and of equal ones the more certain first, and no more of them than the limit.
pub filter_config_lem :
    (a : AudienceConfig) (fs : List ConsolidatedFinding)
    → (severity : ℕ) → lookup (min_severity_text a) severity_order_table ≡ some severity
    → (shown : List ConsolidatedFinding) × (filter_config a fs ≡ ok shown)
      × IsRanked shown
      × All
          (λ f. (severity ≤ severity_order f.severity) × (min_confidence a ≤ f.confidence.overall))
          shown
      × Within a.max_findings shown
unfolding filter_config
filter_config_lem a fs severity known =
    let sorted = sort_by ranks_before (visible severity (min_confidence a) fs) in
    let parts =
      capped_lem a.max_findings sorted severity (min_confidence a)
        (unfold sort_by in sort_onto-IsRanked [] (visible severity (min_confidence a) fs) tt)
        (All-sort_by ranks_before (IsShown severity (min_confidence a))
          (visible severity (min_confidence a) fs) (All-visible severity (min_confidence a) fs)) in
    rw known (capped a.max_findings sorted, refl, parts.0, parts.1, parts.2)
