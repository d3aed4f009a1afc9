-- ===== src/Consolidation/Dedup/Grouping.antt =====
-- The groups of `group`: the classes of findings that dedup keys link.
use mathlib.Core.List.{flatten, Perm, perm_append_singleton}
use mathlib.Core.List.Perm
use gxassessms.Base.{
  ℕ, suc, ◌+◌, ◌≤◌, ◌<◌, String, ◌≡◌, refl, ap, inl, inr, ◌↔◌, List, [], ◌∷◌, ◌++◌, All, arith,
  Bool, Bool-cases, str_eq, add_to_group, length, ◌==◌, map, append_assoc, append-nil,
}
use gxassessms.Domain.Findings.{Finding}
use gxassessms.Consolidation.DisjointSet.{DisjointSet, new, find}
use gxassessms.Consolidation.DisjointSet.Finding.{Represents, find_lem}
use gxassessms.Consolidation.Dedup.{
  KeyTable, union_table, add_keys, index_findings, collect_groups, group,
}
use gxassessms.Consolidation.Dedup.Linking.{In, Shares, union_table_lem}
use gxassessms.Consolidation.Dedup.Keys.{Connected, Linked_iff_Connected}

-- the findings from index `idx` on, put to the groups of their roots
unfoldable pub classes :
    (ℕ → ℕ) → ℕ → List Finding → List (ℕ × List Finding) → List (ℕ × List Finding)
classes ρ idx [] groups = groups
classes ρ idx (f ∷ fs) groups =
    classes ρ (suc idx) fs (add_to_group (λ a b. a == b) (ρ idx) f groups)

collect_groups-eq-classes :
    {n : ℕ} {ρ : ℕ → ℕ} (idx : ℕ) (fs : List Finding) (ds : DisjointSet)
    (groups : List (ℕ × List Finding))
    → Represents n ds.parent ds.rank ρ
    → idx + length fs ≤ n
    → collect_groups idx fs ds groups ≡ classes ρ idx fs groups
unfolding collect_groups classes
collect_groups-eq-classes idx [] ds groups rep h = refl
collect_groups-eq-classes {ρ} idx (f ∷ fs) ds groups rep h =
    let (root, rep') = find_lem ds idx rep (omega arith) in
    rw root (
      collect_groups-eq-classes (suc idx) fs (find ds idx).1
        (add_to_group (λ a b. a == b) (ρ idx) f groups) rep' (omega arith))

members {κ} : {K : Type κ} → List (K × List Finding) → List Finding
members [] = []
members ((k, g) ∷ gs) = g ++ members gs

flatten-map {κ} :
    {K : Type κ} (gs : List (K × List Finding)) → flatten (map (λ g. g.1) gs) ≡ members gs
unfolding members flatten
flatten-map [] = refl
flatten-map ((k, g) ∷ gs) = rw (flatten-map gs) refl

add_to_group-perm {κ} :
    {K : Type κ} (eq : K → K → Bool) (k : K) (f : Finding) (gs : List (K × List Finding))
    → Perm (members (add_to_group eq k f gs)) (members gs ++ f ∷ [])
unfolding members add_to_group
add_to_group-perm eq k f [] = Perm.refl (f ∷ [])
add_to_group-perm eq k f ((j, g) ∷ gs) = elim (Bool-cases (eq j k)) [
  | inl own ↦
      rw (own, append_assoc, append_assoc)
        (Perm.append_left g (Perm.symm (perm_append_singleton f (members gs))))
  | inr other ↦ rw (other, append_assoc) (Perm.append_left g (add_to_group-perm eq k f gs))
]

classes-perm :
    (ρ : ℕ → ℕ) (idx : ℕ) (fs : List Finding) (gs : List (ℕ × List Finding))
    → Perm (members (classes ρ idx fs gs)) (members gs ++ fs)
unfolding classes
classes-perm ρ idx [] gs = rw append-nil (Perm.refl (members gs))
classes-perm ρ idx (f ∷ fs) gs =
    Perm.trans (classes-perm ρ (suc idx) fs (add_to_group (λ a b. a == b) (ρ idx) f gs))
      (rw append_assoc at (Perm.append_right fs (add_to_group-perm (λ a b. a == b) (ρ idx) f gs)))

-- every index of the table is below `m`
abbrev InRange : ℕ → KeyTable → Type 0
InRange m = All (λ e. All (λ i. i < m) e.1)

below_of_In : (m i : ℕ) (xs : List ℕ) → All (λ x. x < m) xs → In i xs → i < m
below_of_In m i [] h e = absurd e
below_of_In m i (x ∷ xs) h (inl e) = rw e h.0
below_of_In m i (x ∷ xs) h (inr e) = below_of_In m i xs h.1 e

Shares-lt : (m : ℕ) (table : KeyTable) → InRange m table → (i j : ℕ) → Shares table i j → i < m
Shares-lt m [] h i j s = absurd s
Shares-lt m ((k, is) ∷ t) h i j (inl both) = below_of_In m i is h.0 both.0
Shares-lt m ((k, is) ∷ t) h i j (inr s) = Shares-lt m t h.1 i j s

All-snoc :
    (m idx : ℕ) (xs : List ℕ) → idx < m → All (λ x. x < m) xs → All (λ x. x < m) (xs ++ idx ∷ [])
All-snoc m idx [] l h = (l, tt)
All-snoc m idx (x ∷ xs) l h = (h.0, All-snoc m idx xs l h.1)

add_to_group-InRange :
    (m idx : ℕ) (key : String) (table : KeyTable)
    → idx < m
    → InRange m table
    → InRange m (add_to_group str_eq key idx table)
unfolding add_to_group
add_to_group-InRange m idx key [] l h = ((l, tt), tt)
add_to_group-InRange m idx key ((k, is) ∷ t) l h = elim (Bool-cases (str_eq k key)) [
  | inl own ↦ rw own (All-snoc m idx is l h.0, h.1)
  | inr other ↦ rw other (h.0, add_to_group-InRange m idx key t l h.1)
]

module _ (strip : String → String) where
  add_keys-InRange :
      (m idx : ℕ) (keys : List String) (table : KeyTable)
      → idx < m
      → InRange m table
      → InRange m (add_keys strip idx keys table)
  unfolding add_keys
  add_keys-InRange m idx [] table l h = h
  add_keys-InRange m idx (key ∷ keys) table l h = elim (Bool-cases (str_eq (strip key) "")) [
    | inl blank ↦ rw blank (add_keys-InRange m idx keys table l h)
    | inr given ↦ rw given (
        add_keys-InRange m idx keys (add_to_group str_eq (strip key) idx table) l
          (add_to_group-InRange m idx (strip key) table l h))
  ]

  index_findings-InRange :
      (m idx : ℕ) (fs : List Finding) (table : KeyTable)
      → idx + length fs ≤ m
      → InRange m table
      → InRange m (index_findings strip idx fs table)
  unfolding index_findings
  index_findings-InRange m idx [] table l h = h
  index_findings-InRange m idx (f ∷ fs) table l h =
      index_findings-InRange m (suc idx) fs (add_keys strip idx f.dedup_keys table) (omega arith)
        (add_keys-InRange m idx f.dedup_keys table (omega arith) h)

  -- The groups are the classes of the findings under a map of their indices that has the same value
  -- at two indices exactly when the findings have a dedup key in common that is not blank when stripped,
  -- or are linked so through other findings.
  pub group-eq-classes :
      (fs : List Finding)
      → (ρ : ℕ → ℕ) × (group strip fs ≡ map (λ g. g.1) (classes ρ 0 fs []))
        × ((i j : ℕ) → (ρ i ≡ ρ j) ↔ Connected strip fs i j)
  unfolding group
  group-eq-classes fs =
      let table = index_findings strip 0 fs [] in
      let n = length fs in
      let (ρ, rep, iff) =
        union_table_lem n table
          (Shares-lt n table (index_findings-InRange n 0 fs [] (omega arith) tt)) in
      (
        ρ,
        ap (map (λ g. g.1))
            (collect_groups-eq-classes 0 fs (union_table table (new n)) [] rep (omega arith)),
        λ i j.
            let own = iff i j in
            let same_keys = Linked_iff_Connected strip fs i j in
            (λ e. same_keys.0 (own.0 e), λ c. own.1 (same_keys.1 c)),
      )

  -- Grouping loses no finding, makes none, and puts each into one group.
  pub group-perm : (fs : List Finding) → Perm (flatten (group strip fs)) fs
  unfolding members
  group-perm fs =
      let (ρ, e, iff) = group-eq-classes fs in
      rw (e, flatten-map (classes ρ 0 fs [])) (classes-perm ρ 0 fs [])
