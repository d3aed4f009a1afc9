-- ===== src/Consolidation/Rule.antt =====
-- consolidation/rules.py: DefaultConsolidationRule. The policy behind it is a plugin, of which the
-- rule calls `merge_group`.
pub mod Merging
use gxassessms.Base.{
  ℕ, String, Bool, true, false, not, List, [], ◌∷◌, ◌&&◌, ◌||◌, ◌==◌, ltb, str_eq, if◌then◌else◌,
  all, pick,
}
use gxassessms.Errors.{Error, Result, ok, err, consolidation_error, value_error, ◌>>=◌}
use gxassessms.Domain.Enums.{severity_order}
use gxassessms.Domain.Findings.{Finding, ConsolidatedFinding}
use gxassessms.Persistence.Findings.{text_le}
use gxassessms.Consolidation.Dedup.{group}

-- the greater key: the severity, and then the finding_key
unfoldable pub outranks : Finding → Finding → Bool
outranks a b =
    ltb (severity_order b.severity) (severity_order a.severity)
    || severity_order b.severity == severity_order a.severity
      && not (text_le a.finding_key b.finding_key)

-- _select_canonical_finding_key
unfoldable pub select_canonical_finding_key : List Finding → Result String
unfolding all pick outranks
select_canonical_finding_key [] = err consolidation_error
select_canonical_finding_key (f ∷ fs) =
    if all (λ g. str_eq g.finding_key f.finding_key) fs
    then ok f.finding_key
    else ok (pick outranks f fs).finding_key

-- `except (ConsolidationError, ValueError) as exc: raise ConsolidationError(...)`
abbrev pub rewrap : {A : Type 0} → Result A → Result A
rewrap (ok a) = ok a
rewrap (err value_error) = err consolidation_error
rewrap (err e) = err e

module _ (merge_group : String → List Finding → Result ConsolidatedFinding) where
  -- the body of the `try`
  unfoldable pub merge_one : List Finding → Result ConsolidatedFinding
  unfolding select_canonical_finding_key
  merge_one g = select_canonical_finding_key g >>= λ key. merge_group key g

  -- the loop over the groups
  unfoldable pub merge_all : List (List Finding) → Result (List ConsolidatedFinding)
  unfolding merge_one
  merge_all [] = ok []
  merge_all (g ∷ gs) = do merged ← rewrap (merge_one g); rest ← merge_all gs; ok (merged ∷ rest)

  module _ (strip : String → String) where
    -- DefaultConsolidationRule.consolidate; of no finding there is no group
    unfoldable pub consolidate : List Finding → Result (List ConsolidatedFinding)
    unfolding merge_all group
    consolidate fs = merge_all (group strip fs)
