-- ===== src/Examples/Merging.antt =====
-- The merging theorems at a group of findings.
use gxassessms.Base.{String, ◌≡◌, refl, List, [], ◌∷◌}
use gxassessms.Errors.{Result, ok}
use gxassessms.Domain.Enums.{high, low}
use gxassessms.Domain.Findings.{Finding, ConsolidatedFinding}
use gxassessms.Consolidation.Dedup.{group}
use gxassessms.Consolidation.Rule.{consolidate}
use gxassessms.Consolidation.Rule.Merging.{Merges, consolidate-Merges}
use gxassessms.Examples.{finding, merged_finding, three_findings, unstripped}

abbrev first : Finding
first = finding "scuba:mfa" high ("mfa" ∷ [])

abbrev others : List Finding
others = finding "maester:mfa" low ("mfa" ∷ []) ∷ []

abbrev merge_named : String → List Finding → Result ConsolidatedFinding
merge_named key fs = ok (merged_finding key high 5000)

merges_all :
    (key : String) (f : Finding) (rest : List Finding)
    → (m : ConsolidatedFinding) × (merge_named key (f ∷ rest) ≡ ok m)
merges_all key f rest = (merged_finding key high 5000, refl)

consolidate-Merges_example :
    (merged : List ConsolidatedFinding) × (consolidate merge_named unstripped three_findings
      ≡ ok merged)
    × Merges merge_named (group unstripped three_findings) merged
consolidate-Merges_example = consolidate-Merges merge_named unstripped three_findings merges_all
