-- ===== src/Examples/Consolidating.antt =====
-- The grouping theorems at three findings, and the disjoint set's at three elements.
use gxassessms.Base.{ℕ, ◌≡◌, ◌↔◌, [], map}
use gxassessms.Consolidation.Dedup.{group}
use gxassessms.Consolidation.Dedup.Keys.{Connected}
use gxassessms.Consolidation.Dedup.Grouping.{classes, group-eq-classes}
use gxassessms.Examples.{three_findings, unstripped}

group-eq-classes_example :
    (ρ : ℕ → ℕ) × (group unstripped three_findings ≡ map (λ g. g.1) (classes ρ 0 three_findings []))
    × ((i j : ℕ) → (ρ i ≡ ρ j) ↔ Connected unstripped three_findings i j)
group-eq-classes_example = group-eq-classes unstripped three_findings
