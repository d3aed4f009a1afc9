-- ===== src/Consolidation/Rule/Merging.antt =====
-- The key that a merged finding gets, and one merged finding for each group.
use gxassessms.Base.{
  suc, ◌++◌, ℕ, ◌≤◌, String, ◌≡◌, refl, sym, ap, inl, inr, true, List, [], ◌∷◌, arith, All, Among,
  all, pick, pick-Among, All-pick, str_eq, eq_iff, Bool-cases, add_to_group, map, ◌==◌,
}
use gxassessms.Errors.{Result, ok}
use gxassessms.Domain.Enums.{severity_order}
use gxassessms.Domain.Findings.{Finding, ConsolidatedFinding}
use gxassessms.Consolidation.Dedup.{group}
use gxassessms.Consolidation.Dedup.Grouping.{classes, group-eq-classes}
use gxassessms.Consolidation.Rule.{
  outranks, select_canonical_finding_key, merge_one, merge_all, consolidate,
}

-- at the same key, every finding of a list has the key
same_key :
    (key : String) (fs : List Finding) (f : Finding)
    → all (λ g. str_eq g.finding_key key) fs ≡ true
    → Among f fs
    → f.finding_key ≡ key
unfolding all
same_key key [] f h m = absurd m
same_key key (g ∷ gs) f h (inl e) = rw e (ground (arith, eq_iff g.finding_key key))
same_key key (g ∷ gs) f h (inr m) = same_key key gs f (ground arith) m

-- The canonical key of a group that is not empty is the key of one of its findings, of which no
-- finding of the group has a higher severity.
pub select_canonical_finding_key_lem :
    (f : Finding) (fs : List Finding)
    → (chosen : Finding) × (select_canonical_finding_key (f ∷ fs) ≡ ok chosen.finding_key)
      × Among chosen (f ∷ fs)
      × All (λ g. severity_order g.severity ≤ severity_order chosen.severity) (f ∷ fs)
unfolding select_canonical_finding_key
select_canonical_finding_key_lem f fs =
    let chosen = pick outranks f fs in
    let member = pick-Among outranks f fs in
    (
      chosen,
      elim (Bool-cases (all (λ g. str_eq g.finding_key f.finding_key) fs)) [
        | inl one ↦ rw one (
            ap ok (
              sym (elim member [
                | inl e ↦ ap (λ g. g.finding_key) e
                | inr m ↦ same_key f.finding_key fs chosen one m
              ])))
        | inr more ↦ rw more refl
      ],
      member,
      All-pick outranks (λ a b. severity_order b.severity ≤ severity_order a.severity)
          (λ a. omega arith) (λ a b c h k. omega arith) (λ a b h. unfold outranks in ground arith)
          (λ a b h. unfold outranks in ground arith) f fs,
    )

abbrev IsInhabited : List Finding → Type 0
IsInhabited [] = ⊥
IsInhabited (f ∷ fs) = Unit

abbrev AllInhabited : List (ℕ × List Finding) → Type 0
AllInhabited [] = Unit
AllInhabited ((k, g) ∷ gs) = IsInhabited g × AllInhabited gs

IsInhabited-append : (g : List Finding) (f : Finding) → IsInhabited (g ++ f ∷ [])
IsInhabited-append [] f = tt
IsInhabited-append (x ∷ g) f = tt

add_to_group-AllInhabited :
    (k : ℕ) (f : Finding) (gs : List (ℕ × List Finding))
    → AllInhabited gs
    → AllInhabited (add_to_group (λ a b. a == b) k f gs)
unfolding add_to_group
add_to_group-AllInhabited k f [] h = (tt, tt)
add_to_group-AllInhabited k f ((j, g) ∷ gs) h = elim (Bool-cases (j == k)) [
  | inl own ↦ rw own (IsInhabited-append g f, h.1)
  | inr other ↦ rw other (h.0, add_to_group-AllInhabited k f gs h.1)
]

classes-AllInhabited :
    (ρ : ℕ → ℕ) (idx : ℕ) (fs : List Finding) (gs : List (ℕ × List Finding))
    → AllInhabited gs
    → AllInhabited (classes ρ idx fs gs)
unfolding classes
classes-AllInhabited ρ idx [] gs h = h
classes-AllInhabited ρ idx (f ∷ fs) gs h =
    classes-AllInhabited ρ (suc idx) fs (add_to_group (λ a b. a == b) (ρ idx) f gs)
      (add_to_group-AllInhabited (ρ idx) f gs h)

-- what `merge_group` makes of each group, with the group's canonical key
abbrev pub Merges :
    (String → List Finding → Result ConsolidatedFinding)
    → List (List Finding)
    → List ConsolidatedFinding
    → Type 0
Merges merge_group [] [] = Unit
Merges merge_group (g ∷ gs) (m ∷ ms) =
    ((key : String) × (select_canonical_finding_key g ≡ ok key) × (merge_group key g ≡ ok m))
    × Merges merge_group gs ms
Merges merge_group _ _ = ⊥

merge_all-Merges :
    (merge_group : String → List Finding → Result ConsolidatedFinding)
    (gs : List (ℕ × List Finding))
    → ((key : String) (f : Finding) (fs : List Finding)
        → (m : ConsolidatedFinding) × (merge_group key (f ∷ fs) ≡ ok m))
    → AllInhabited gs
    → (merged : List ConsolidatedFinding) × (merge_all merge_group (map (λ g. g.1) gs) ≡ ok merged)
      × Merges merge_group (map (λ g. g.1) gs) merged
unfolding merge_all merge_one
merge_all-Merges merge_group [] total h = ([], refl, tt)
merge_all-Merges merge_group ((k, []) ∷ gs) total h = absurd h.0
merge_all-Merges merge_group ((k, f ∷ fs) ∷ gs) total h =
    let (chosen, key, member, highest) = select_canonical_finding_key_lem f fs in
    let (m, made) = total chosen.finding_key f fs in
    let (ms, rest, each) = merge_all-Merges merge_group gs total h.1 in
    (m ∷ ms, rw (key, made, rest) refl, ((chosen.finding_key, key, made), each))

-- If the policy merges every group that is not empty, then consolidation succeeds, and makes of each
-- group of linked findings, in the groups' order, what the policy makes of it with its canonical key.
pub consolidate-Merges :
    (merge_group : String → List Finding → Result ConsolidatedFinding) (strip : String → String)
    (fs : List Finding)
    → ((key : String) (f : Finding) (rest : List Finding)
        → (m : ConsolidatedFinding) × (merge_group key (f ∷ rest) ≡ ok m))
    → (merged : List ConsolidatedFinding) × (consolidate merge_group strip fs ≡ ok merged)
      × Merges merge_group (group strip fs) merged
unfolding consolidate
consolidate-Merges merge_group strip fs total =
    let (ρ, grouped, iff) = group-eq-classes strip fs in
    rw grouped
      (merge_all-Merges merge_group (classes ρ 0 fs []) total (classes-AllInhabited ρ 0 fs [] tt))
