-- ===== src/Policy/Consolidation/Confidence.antt =====
-- policy/consolidation.py: the confidence of a merged finding, `merge_group` and `consolidate`, over floats
-- that are a parameter. `fresh_id` stands for the uuid4 that is drawn for a key.
pub mod Bounded
use gxassessms.Base.{
  ℕ, ◌*◌, String, Bool, true, false, Option, none, some, List, [], ◌∷◌, ◌++◌, leb, str_eq,
  if◌then◌else◌, length, map, lookup, group_by, add_to_group,
}
use gxassessms.Errors.{Result, ok, err, consolidation_error, value_error, ◌>>=◌}
use gxassessms.Domain.Findings.{Finding, ConsolidatedFinding, ConfidenceScore, tool_value}
use gxassessms.Policy.Floats.{Floats}
use gxassessms.Policy.Consolidation.{
  reconcile_severity, reconcile_status, reconcile_title, reconcile_category, reconcile_description,
  build_sources, merge_benchmark_refs, unseen,
}

abbrev pub or_default {ℓ} : {A : Type ℓ} → A → Option A → A
or_default d none = d
or_default d (some a) = a

-- the tiers whose key is at most n, and of them the one of the greatest key
abbrev pub higher {ℓ} : {A : Type ℓ} → ℕ → ℕ × A → Option (ℕ × A) → Option (ℕ × A)
higher n tier none = if leb tier.0 n then some tier else none
higher n tier (some best) =
    if leb tier.0 n then (if leb tier.0 best.0 then some best else some tier) else some best

unfoldable pub floor_tier {ℓ} : {A : Type ℓ} → ℕ → List (ℕ × A) → Option (ℕ × A)
floor_tier n [] = none
floor_tier n (tier ∷ tiers) = higher n tier (floor_tier n tiers)

-- len({f.tool for f in group})
unfoldable pub distinct_tools : List Finding → ℕ
unfolding unseen tool_value
distinct_tools fs = length (unseen [] (map (λ f. tool_value f.tool) fs))

module _ (floats : Floats) where
  open floats use {Float, lt, add, mul, of_nat, hundredths, rounded_4, in_ten_thousandths}

  pub record ConsolidationRules : Type 0 where
    pub status_priority : Option (List String)
    pub weight_evidence : Option Float
    pub weight_corroboration : Option Float
    pub weight_freshness : Option Float
    pub weight_provenance : Option Float
    -- corroboration_scores with its keys and values read as numbers; `none` where one is no number
    pub corroboration_scores : Option (List (ℕ × Float))
    pub provenance_scores : List (String × Float)

  abbrev pub score_of : Option (ℕ × Float) → Float
  score_of none = hundredths 40
  score_of (some (k, v)) = v

  abbrev pub read_tiers : Option (List (ℕ × Float)) → Result (List (ℕ × Float))
  read_tiers none = err value_error
  read_tiers (some tiers) = ok tiers

  -- min(1.0, x) and max(0.0, x)
  abbrev pub at_most_one : Float → Float
  at_most_one x = if lt x (of_nat 1) then x else of_nat 1

  abbrev pub not_negative : Float → Float
  not_negative x = if lt (of_nat 0) x then x else of_nat 0

  unfoldable pub evidence_strength : ℕ → Float
  evidence_strength n = at_most_one (add (hundredths 60) (mul (of_nat n) (hundredths 10)))

  unfoldable pub overall_score : ConsolidationRules → ℕ → Float → Float
  unfolding evidence_strength lookup
  overall_score r n corroboration = at_most_one (
      not_negative (
        add
          (add
            (add (mul (evidence_strength n) (or_default (hundredths 30) r.weight_evidence))
              (mul corroboration (or_default (hundredths 35) r.weight_corroboration)))
            (mul (of_nat 1) (or_default (hundredths 20) r.weight_freshness)))
          (mul (or_default (hundredths 70) (lookup "system-generated" r.provenance_scores))
            (or_default (hundredths 15) r.weight_provenance))))

  -- a score as ConfidenceScore takes it, which raises ValidationError for one that is negative or above 1
  abbrev pub checked_score : Float → Result ℕ
  checked_score x =
      if lt x (of_nat 0)
      then err value_error
      else if lt (of_nat 1) x
      then err value_error
      else ok (in_ten_thousandths x)

  -- _compute_confidence
  unfoldable pub compute_confidence : ConsolidationRules → List Finding → Result ConfidenceScore
  unfolding overall_score evidence_strength floor_tier distinct_tools
  compute_confidence r fs = do
    tiers ← read_tiers r.corroboration_scores
    strength ← checked_score (rounded_4 (evidence_strength (distinct_tools fs)))
    freshness ← checked_score (rounded_4 (of_nat 1))
    overall ← checked_score (
        rounded_4
          (overall_score r (distinct_tools fs) (score_of (floor_tier (distinct_tools fs) tiers))))
    ok (record {
      evidence_strength = strength;
      corroborating_tools = distinct_tools fs;
      data_freshness = freshness;
      provenance = "system-generated";
      overall = overall;
    })

  module _ (fresh_id : String → String) where
    -- DefaultConsolidationPolicy.merge_group
    unfoldable pub merge_group :
        ConsolidationRules → String → List Finding → Result ConsolidatedFinding
    unfolding compute_confidence reconcile_severity reconcile_status reconcile_title
        reconcile_category reconcile_description build_sources merge_benchmark_refs
    merge_group r finding_key [] = err consolidation_error
    merge_group r finding_key (f ∷ fs) = do
      status ← reconcile_status r.status_priority f fs
      confidence ← compute_confidence r (f ∷ fs)
      ok (record {
        finding_instance_id = fresh_id finding_key;
        finding_key = finding_key;
        title = reconcile_title f fs;
        severity = reconcile_severity f fs;
        status = status;
        category = reconcile_category f fs;
        description = reconcile_description (f ∷ fs);
        sources = build_sources (f ∷ fs);
        confidence = confidence;
        benchmark_refs = merge_benchmark_refs (f ∷ fs);
        root_cause = none;
        remediation = none;
        narrative = none;
      })

    unfoldable pub merge_groups :
        ConsolidationRules → List (String × List Finding) → Result (List ConsolidatedFinding)
    unfolding merge_group
    merge_groups r [] = ok []
    merge_groups r ((finding_key, g) ∷ gs) = do
      merged ← merge_group r finding_key g
      rest ← merge_groups r gs
      ok (merged ∷ rest)

    -- DefaultConsolidationPolicy.consolidate
    unfoldable pub consolidate :
        ConsolidationRules → List Finding → Result (List ConsolidatedFinding)
    unfolding merge_groups group_by add_to_group
    consolidate r fs = merge_groups r (group_by str_eq (λ f. f.finding_key) fs [])
