-- ===== src/Examples/Planning.antt =====
-- The theorems on the roadmap and on confidence at a few findings, with numbers of ten-thousandths for the floats.
use mathlib.Core.List.{Perm}
use Prim.Native.Nat.{◌/◌}
use gxassessms.Base.{
  ℕ, min, ◌≤◌, ◌+◌, ◌*◌, true, false, ◌≡◌, refl, none, some, ◌≢◌, String, List, [], ◌∷◌, ltb, map,
  All, arith,
}
use gxassessms.Policy.Floats.{Floats}
use gxassessms.Policy.Roadmap.{RoadmapRules, RoadmapAssignment, assign_phases, assign_one}
use gxassessms.Policy.Roadmap.Assigned.{IsRanked, IsSound, assign_phases-IsSound}
use gxassessms.Errors.{ok}
use gxassessms.Domain.Findings.{ConsolidatedFinding}
use gxassessms.Consolidation.Dedup.{group}
use gxassessms.Consolidation.Rule.{consolidate}
use gxassessms.Consolidation.Rule.Merging.{Merges}
use gxassessms.Policy.Consolidation.{priority_list}
use gxassessms.Policy.Consolidation.Confidence.{ConsolidationRules, merge_group}
use gxassessms.Policy.Consolidation.Confidence.Bounded.{IsScored, consolidate-IsScored}
use gxassessms.Examples.{certain, doubtful, three_findings, unstripped}

pub irreflexive : (x : ℕ) → ltb x x ≡ false
irreflexive x = ground arith

pub asymmetric : (x y : ℕ) → ltb x y ≡ true → ltb y x ≡ false
asymmetric x y h = ground arith

pub natural : (x : ℕ) → ltb x 0 ≡ false
natural x = ground arith

pub capped : (x : ℕ) → min x 10000 ≤ 10000
capped x = omega arith

abbrev pub scaled : Floats
scaled = record {
  Float = ℕ;
  lt = ltb;
  add = λ x y. x + y;
  mul = λ x y. x * y / 10000;
  of_nat = λ n. n * 10000;
  hundredths = λ n. n * 100;
  ten_thousandths = λ n. n;
  rounded = λ x. x;
  in_ten_thousandths = λ x. min x 10000;
  lt_irrefl = irreflexive;
  lt_asym = asymmetric;
  zero-lt-hundred = refl;
  rounded_above = λ x h. h;
  rounded_below = λ x h. h;
  in_ten_thousandths_below = λ x h. capped x;
  rounded_4 = λ x. x;
  rounded_4_above = λ x h. h;
  rounded_4_below = λ x h. h;
  zero-lt-one = refl;
  of_nat_above = λ n. natural (n * 10000);
  hundredths_above = λ n. natural (n * 100);
  add_above = λ x y h k. natural (x + y);
  mul_above = λ x y h k. natural (x * y / 10000);
}

abbrev plan : RoadmapRules scaled
plan = record {
  severity_to_phase = ("HIGH", "IMMEDIATE") ∷ [];
  phases = ("IMMEDIATE", "0-30 days") ∷ [];
  weight_severity = none;
  weight_confidence = none;
  weight_category = none;
  weight_corroboration = none;
  severity_scores = [];
  category_priority = [];
}

assign_phases-IsSound_example :
    (pairs : List (ℕ × RoadmapAssignment scaled)) × (assign_phases scaled plan
        (certain ∷ doubtful ∷ [])
      ≡ map (λ p. p.1) pairs)
    × Perm pairs (map (assign_one scaled plan) (certain ∷ doubtful ∷ []))
    × IsRanked scaled pairs
    × All (IsSound scaled) (assign_phases scaled plan (certain ∷ doubtful ∷ []))
assign_phases-IsSound_example = assign_phases-IsSound scaled plan (certain ∷ doubtful ∷ [])

abbrev tiers : List (ℕ × ℕ)
tiers = (1, 4000) ∷ (2, 7000) ∷ []

abbrev by_default : ConsolidationRules scaled
by_default = record {
  status_priority = none;
  weight_evidence = none;
  weight_corroboration = none;
  weight_freshness = none;
  weight_provenance = none;
  corroboration_scores = some tiers;
  provenance_scores = [];
}

default_given : priority_list none ≢ []
default_given e = ground arith

abbrev same_id : String → String
same_id key = key

consolidate-IsScored_example :
    (merged : List ConsolidatedFinding) × (consolidate
        (merge_group scaled same_id by_default)
        unstripped
        three_findings
      ≡ ok merged)
    × Merges (merge_group scaled same_id by_default) (group unstripped three_findings) merged
    × All IsScored merged
consolidate-IsScored_example =
    consolidate-IsScored scaled same_id by_default unstripped three_findings tiers default_given
      refl
