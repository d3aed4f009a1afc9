-- ===== src/Policy/Roadmap.antt =====
-- policy/roadmap.py: phases, timelines and priorities, over floats that are a parameter.
pub mod Assigned
use gxassessms.Base.{
  ℕ, ◌*◌, min, String, Bool, true, false, Option, none, some, List, [], ◌∷◌, ◌==◌, ◌||◌, ◌&&◌, ltb,
  str_eq, if◌then◌else◌, contains, lookup, map, sort_by, ◌≡◌, Chars, codes,
}
use gxassessms.Domain.Enums.{severity_value, category_name}
use gxassessms.Domain.Findings.{ConsolidatedFinding}
use gxassessms.Pipeline.Collaborators.{TextMap}
use gxassessms.Policy.Floats.{Floats}

-- s <= t, as Python compares texts
unfoldable pub chars_le : Chars → Chars → Bool
chars_le [] t = true
chars_le (c ∷ s) [] = false
chars_le (c ∷ s) (d ∷ t) = let rest = chars_le s t in ltb c d || c == d && rest

abbrev pub valid_phases : List String
valid_phases = "IMMEDIATE" ∷ "SHORT_TERM" ∷ "MEDIUM_TERM" ∷ "LONG_TERM" ∷ []

abbrev or_default {ℓ} : {A : Type ℓ} → A → Option A → A
or_default d none = d
or_default d (some a) = a

module _ (floats : Floats) where
  open floats use {Float, lt, add, mul, of_nat, hundredths, ten_thousandths, rounded}

  pub record RoadmapRules : Type 0 where
    pub severity_to_phase : TextMap
    -- the timeline of each phase that has one
    pub phases : TextMap
    pub weight_severity : Option Float
    pub weight_confidence : Option Float
    pub weight_category : Option Float
    pub weight_corroboration : Option Float
    pub severity_scores : List (String × Float)
    pub category_priority : List (String × Float)

  pub record RoadmapAssignment : Type 0 where
    pub finding_instance_id : String
    pub finding_key : String
    pub phase : String
    pub timeline : String
    pub priority_score : Float

  abbrev pub checked_phase : Option String → String
  checked_phase none = "MEDIUM_TERM"
  checked_phase (some phase) = if contains str_eq phase valid_phases then phase else "MEDIUM_TERM"

  -- _determine_phase
  unfoldable pub determine_phase : RoadmapRules → ConsolidatedFinding → String
  unfolding lookup severity_value contains
  determine_phase r f = checked_phase (lookup (severity_value f.severity) r.severity_to_phase)

  -- _get_timeline
  unfoldable pub get_timeline : RoadmapRules → String → String
  unfolding lookup
  get_timeline r phase = or_default "TBD" (lookup phase r.phases)

  -- max(0.0, x) and min(100.0, x)
  abbrev pub at_least_zero : Float → Float
  at_least_zero x = if lt (of_nat 0) x then x else of_nat 0

  abbrev pub at_most_hundred : Float → Float
  at_most_hundred x = if lt x (of_nat 100) then x else of_nat 100

  -- _compute_priority
  unfoldable pub total_priority : RoadmapRules → ConsolidatedFinding → Float
  unfolding lookup severity_value category_name
  total_priority r f =
      add
        (add
          (add
            (mul (or_default (of_nat 50) (lookup (severity_value f.severity) r.severity_scores))
              (or_default (hundredths 40) r.weight_severity))
            (mul (mul (ten_thousandths f.confidence.overall) (of_nat 100))
              (or_default (hundredths 25) r.weight_confidence)))
          (mul
            (mul (of_nat 50)
              (or_default (of_nat 1) (lookup (category_name f.category) r.category_priority)))
            (or_default (hundredths 20) r.weight_category)))
        (mul (of_nat (min 100 (f.confidence.corroborating_tools * 25)))
          (or_default (hundredths 15) r.weight_corroboration))

  unfoldable pub compute_priority : RoadmapRules → ConsolidatedFinding → Float
  unfolding total_priority
  compute_priority r f = at_most_hundred (at_least_zero (total_priority r f))

  -- one pair of the list that is sorted
  unfoldable pub assign_one : RoadmapRules → ConsolidatedFinding → Float × RoadmapAssignment
  unfolding determine_phase get_timeline compute_priority
  assign_one r f = (
    compute_priority r f,
    record {
      finding_instance_id = f.finding_instance_id;
      finding_key = f.finding_key;
      phase = determine_phase r f;
      timeline = get_timeline r (determine_phase r f);
      priority_score = rounded (compute_priority r f);
    },
  )

  -- the order of the keys (-score, finding_key)
  abbrev pub comes_no_later : Float × RoadmapAssignment → Float × RoadmapAssignment → Bool
  comes_no_later (p, a) (q, b) =
      if lt q p
      then true
      else if lt p q
      then false
      else chars_le (codes a.finding_key) (codes b.finding_key)

  -- the pairs, sorted
  unfoldable pub ranked_pairs :
      RoadmapRules → List ConsolidatedFinding → List (Float × RoadmapAssignment)
  unfolding assign_one sort_by chars_le
  ranked_pairs r fs = sort_by comes_no_later (map (assign_one r) fs)

  -- DefaultRoadmapPolicy.assign_phases
  unfoldable pub assign_phases : RoadmapRules → List ConsolidatedFinding → List RoadmapAssignment
  unfolding ranked_pairs
  assign_phases r fs = map (λ p. p.1) (ranked_pairs r fs)
