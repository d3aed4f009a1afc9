-- ===== src/Policy/Consolidation/Confidence/Bounded.antt =====
-- policy/consolidation.py: the default policy merges every group, with scores within their bounds.
use gxassessms.Base.{
  ℕ, suc, ap, subst, ◌≤◌, ◌≢◌, ◌≡◌, refl, String, false, some, List, [], ◌∷◌, length, map, All,
  arith, Bool-cases, inl, inr, contains, str_eq,
}
use gxassessms.Errors.{ok, >>=-ok, >>=-total, ok_injective}
use gxassessms.Domain.Enums.{severity_order}
use gxassessms.Domain.Findings.{Finding, ConsolidatedFinding, ConfidenceScore, tool_value}
use gxassessms.Consolidation.Dedup.{group}
use gxassessms.Consolidation.Rule.{consolidate}
use gxassessms.Consolidation.Rule.Merging.{Merges, consolidate-Merges}
use gxassessms.Policy.Floats.{Floats}
use gxassessms.Policy.Consolidation.{priority_list, reconcile_status, build_sources, unseen}
use gxassessms.Policy.Consolidation.Reconciled.{reconcile_severity_lem, reconcile_status_lem}
use gxassessms.Policy.Consolidation.Confidence.{
  ConsolidationRules, at_most_one, not_negative, checked_score, score_of, floor_tier,
  evidence_strength, overall_score, compute_confidence, distinct_tools, merge_group, read_tiers,
}

length-unseen : (seen ts : List String) → length (unseen seen ts) ≤ length ts
unfolding unseen
length-unseen seen [] = omega arith
length-unseen seen (t ∷ ts) = elim (Bool-cases (contains str_eq t seen)) [
  | inl e ↦ rw e (omega (arith, length-unseen seen ts))
  | inr e ↦ rw e (omega (arith, length-unseen (t ∷ seen) ts))
]

length-build_sources : (fs : List Finding) → length (build_sources fs) ≡ length fs
unfolding build_sources
length-build_sources [] = refl
length-build_sources (f ∷ fs) = ap suc (length-build_sources fs)

length-map : {A B : Type 0} (g : A → B) (xs : List A) → length (map g xs) ≡ length xs
length-map g [] = refl
length-map g (x ∷ xs) = ap suc (length-map g xs)

distinct_tools-bound : (fs : List Finding) → distinct_tools fs ≤ length fs
unfolding distinct_tools
distinct_tools-bound fs = omega (
  arith,
  length-unseen [] (map (λ f. tool_value f.tool) fs),
  length-map (λ f. tool_value f.tool) fs,
)

-- scores of at most 1, and no more tools than sources
abbrev pub IsScored : ConsolidatedFinding → Type 0
IsScored m =
    (m.confidence.overall ≤ 10000)
    × (m.confidence.evidence_strength ≤ 10000)
    × (m.confidence.corroborating_tools ≤ length m.sources)

module _ (floats : Floats) where
  open floats use {
    Float, lt, of_nat, rounded_4, in_ten_thousandths, lt_irrefl, lt_asym, in_ten_thousandths_below,
    rounded_4_above, rounded_4_below, zero-lt-one, of_nat_above, hundredths_above, add_above,
    mul_above,
  }

  -- from 0 to 1
  abbrev IsScore : Float → Type 0
  IsScore x = (lt x (of_nat 0) ≡ false) × (lt (of_nat 1) x ≡ false)

  at_most_one-IsScore : (x : Float) → lt x (of_nat 0) ≡ false → IsScore (at_most_one floats x)
  at_most_one-IsScore x above = elim (Bool-cases (lt x (of_nat 1))) [
    | inl e ↦ rw e (above, lt_asym x (of_nat 1) e)
    | inr e ↦ rw e (lt_asym (of_nat 0) (of_nat 1) zero-lt-one, lt_irrefl (of_nat 1))
  ]

  not_negative-above : (x : Float) → lt (not_negative floats x) (of_nat 0) ≡ false
  not_negative-above x = elim (Bool-cases (lt (of_nat 0) x)) [
    | inl e ↦ rw e (lt_asym (of_nat 0) x e)
    | inr e ↦ rw e (lt_irrefl (of_nat 0))
  ]

  evidence_strength-IsScore : (n : ℕ) → IsScore (evidence_strength floats n)
  unfolding evidence_strength
  evidence_strength-IsScore n =
      at_most_one-IsScore _
        (add_above _ _ (hundredths_above 60) (mul_above _ _ (of_nat_above n) (hundredths_above 10)))

  overall_score-IsScore :
      (r : ConsolidationRules floats) (n : ℕ) (corroboration : Float)
      → IsScore (overall_score floats r n corroboration)
  unfolding overall_score
  overall_score-IsScore r n corroboration = at_most_one-IsScore _ (not_negative-above _)

  -- a score from 0 to 1 is accepted
  checked_score-total :
      (x : Float) → IsScore x → (n : ℕ) × (checked_score floats (rounded_4 x) ≡ ok n)
  checked_score-total x (above, below) =
      (in_ten_thousandths (rounded_4 x), rw (rounded_4_above x above, rounded_4_below x below) refl)

  checked_score-bound : (x : Float) (n : ℕ) → checked_score floats x ≡ ok n → n ≤ 10000
  checked_score-bound x n h = elim (Bool-cases (lt x (of_nat 0))) [
    | inl e ↦ let h' = rw e at h in ground arith
    | inr e ↦ elim (Bool-cases (lt (of_nat 1) x)) [
      | inl over ↦ let h' = rw (e, over) at h in ground arith
      | inr within ↦
          let h' = rw (e, within) at h in
          subst (λ k. k ≤ 10000) (ok_injective h') (in_ten_thousandths_below x within)
    ]
  ]

  compute_confidence-bound :
      (r : ConsolidationRules floats) (fs : List Finding) (c : ConfidenceScore)
      → compute_confidence floats r fs ≡ ok c
      → (c.overall ≤ 10000)
        × (c.evidence_strength ≤ 10000)
        × (c.corroborating_tools ≡ distinct_tools fs)
  unfolding compute_confidence
  compute_confidence-bound r fs c h =
      let (tiers, e1, h1) = >>=-ok (read_tiers floats r.corroboration_scores) _ h in
      let (strength, e2, h2) = >>=-ok (checked_score floats _) _ h1 in
      let (freshness, e3, h3) = >>=-ok (checked_score floats _) _ h2 in
      let (overall, e4, h4) = >>=-ok (checked_score floats _) _ h3 in
      subst
        (λ c.
          (c.overall ≤ 10000)
          × (c.evidence_strength ≤ 10000)
          × (c.corroborating_tools ≡ distinct_tools fs))
        (ok_injective h4)
        (checked_score-bound _ overall e4, checked_score-bound _ strength e2, refl)

  compute_confidence-total :
      (r : ConsolidationRules floats) (tiers : List (ℕ × Float)) (fs : List Finding)
      → r.corroboration_scores ≡ some tiers
      → (c : ConfidenceScore) × (compute_confidence floats r fs ≡ ok c)
  unfolding compute_confidence
  compute_confidence-total r tiers fs read =
      let n = distinct_tools fs in
      let (strength, e2) =
        checked_score-total (evidence_strength floats n) (evidence_strength-IsScore n) in
      let (freshness, e3) =
        checked_score-total (of_nat 1)
          (lt_asym (of_nat 0) (of_nat 1) zero-lt-one, lt_irrefl (of_nat 1)) in
      let (overall, e4) =
        checked_score-total (overall_score floats r n (score_of floats (floor_tier n tiers)))
          (overall_score-IsScore r n _) in
      >>=-total (read_tiers floats r.corroboration_scores) _ tiers (ap (read_tiers floats) read) (
        >>=-total (checked_score floats _) _ strength e2 (
          >>=-total (checked_score floats _) _ freshness e3
            (>>=-total (checked_score floats _) _ overall e4 (_, refl))))

  module _ (fresh_id : String → String) (r : ConsolidationRules floats) where
    -- a group that is merged has the severity of none of its findings above its own
    abbrev pub IsMerged : String → List Finding → ConsolidatedFinding → Type 0
    IsMerged key fs m =
        (m.finding_key ≡ key)
        × All (λ g. severity_order g.severity ≤ severity_order m.severity) fs
        × (length m.sources ≡ length fs)
        × IsScored m

    merge_group-IsMerged :
        (key : String) (fs : List Finding) (m : ConsolidatedFinding)
        → merge_group floats fresh_id r key fs ≡ ok m
        → IsMerged key fs m
    unfolding merge_group
    merge_group-IsMerged key [] m h = ground arith
    merge_group-IsMerged key (f ∷ fs) m h =
        let (status, e1, h1) = >>=-ok (reconcile_status r.status_priority f fs) _ h in
        let (confidence, e2, h2) = >>=-ok (compute_confidence floats r (f ∷ fs)) _ h1 in
        let (overall, strength, tools) = compute_confidence-bound r (f ∷ fs) confidence e2 in
        subst (IsMerged key (f ∷ fs)) (ok_injective h2) (
          refl,
          (reconcile_severity_lem f fs).1,
          length-build_sources (f ∷ fs),
          (
            overall,
            strength,
            omega (arith, tools, distinct_tools-bound (f ∷ fs), length-build_sources (f ∷ fs)),
          ),
        )

    -- rules that the policy accepts: some status has a priority, and the tiers are numbers
    merge_group-total :
        priority_list r.status_priority ≢ []
        → (tiers : List (ℕ × Float)) → r.corroboration_scores ≡ some tiers
        → (key : String) (f : Finding) (fs : List Finding)
        → (m : ConsolidatedFinding) × (merge_group floats fresh_id r key (f ∷ fs) ≡ ok m)
    unfolding merge_group
    merge_group-total given tiers read key f fs =
        let (status, e, among, best) = reconcile_status_lem r.status_priority f fs given in
        let (confidence, scored) = compute_confidence-total r tiers (f ∷ fs) read in
        >>=-total (reconcile_status r.status_priority f fs) _ status e
          (>>=-total (compute_confidence floats r (f ∷ fs)) _ confidence scored (_, refl))

    All-IsScored :
        (gs : List (List Finding)) (ms : List ConsolidatedFinding)
        → Merges (merge_group floats fresh_id r) gs ms
        → All IsScored ms
    All-IsScored [] [] h = tt
    All-IsScored (g ∷ gs) (m ∷ ms) ((key, chosen, made), rest) =
        ((merge_group-IsMerged key g m made).3, All-IsScored gs ms rest)
    All-IsScored [] (m ∷ ms) h = absurd h
    All-IsScored (g ∷ gs) [] h = absurd h

    -- The default rule over the default policy consolidates any findings, if its list of priorities is not
    -- empty and its corroboration tiers are numbers: no score that the policy computes is refused as
    -- negative or above 1, it returns what the policy makes of each group of linked findings, and each
    -- merged finding has an overall confidence and an evidence strength of at most 1 and counts no more
    -- tools than it has sources.
    pub consolidate-IsScored :
        (strip : String → String) (fs : List Finding) (tiers : List (ℕ × Float))
        → priority_list r.status_priority ≢ []
        → r.corroboration_scores ≡ some tiers
        → (merged : List ConsolidatedFinding) × (consolidate
              (merge_group floats fresh_id r)
              strip
              fs
            ≡ ok merged)
          × Merges (merge_group floats fresh_id r) (group strip fs) merged
          × All IsScored merged
    consolidate-IsScored strip fs tiers given read =
        let (merged, e, each) =
          consolidate-Merges (merge_group floats fresh_id r) strip fs
            (merge_group-total given tiers read) in
        (merged, e, each, All-IsScored (group strip fs) merged each)
