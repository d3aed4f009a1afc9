-- ===== src/Consolidation/Dedup.antt =====
-- consolidation/dedup.py: UnionFindDedup. `strip` stands for Python's str.strip.
pub mod Linking
pub mod Keys
pub mod Grouping
use gxassessms.Base.{
  ℕ, zero, suc, String, Bool, List, [], ◌∷◌, ◌==◌, str_eq, if◌then◌else◌, length, map, add_to_group,
}
use gxassessms.Domain.Findings.{Finding}
use gxassessms.Consolidation.DisjointSet.{DisjointSet, new, find, union}

abbrev pub KeyTable : Type 0
KeyTable = List (String × List ℕ)

-- `for first, i in indices: ds.union(first, i)`
unfoldable pub union_rest : ℕ → List ℕ → DisjointSet → DisjointSet
union_rest first [] ds = ds
union_rest first (i ∷ rest) ds = union_rest first rest (union ds first i)

abbrev pub union_key : List ℕ → DisjointSet → DisjointSet
union_key [] ds = ds
union_key (first ∷ rest) ds = union_rest first rest ds

-- `for key, indices in key_to_indices.items()`
unfoldable pub union_table : KeyTable → DisjointSet → DisjointSet
union_table [] ds = ds
union_table ((key, indices) ∷ table) ds = union_table table (union_key indices ds)

-- `groups_map[ds.find(idx)].append(finding)` for each finding
unfoldable pub collect_groups :
    ℕ → List Finding → DisjointSet → List (ℕ × List Finding) → List (ℕ × List Finding)
unfolding add_to_group
collect_groups idx [] ds groups = groups
collect_groups idx (f ∷ fs) ds groups =
    let (root, ds') = find ds idx in
    collect_groups (suc idx) fs ds' (add_to_group (λ a b. a == b) root f groups)

module _ (strip : String → String) where
  -- the loop over a finding's dedup_keys; keys that are blank are left out
  unfoldable pub add_keys : ℕ → List String → KeyTable → KeyTable
  unfolding add_to_group
  add_keys idx [] table = table
  add_keys idx (key ∷ keys) table =
      add_keys idx keys
        (if str_eq (strip key) "" then table else add_to_group str_eq (strip key) idx table)

  -- key_to_indices
  unfoldable pub index_findings : ℕ → List Finding → KeyTable → KeyTable
  unfolding add_keys
  index_findings idx [] table = table
  index_findings idx (f ∷ fs) table = index_findings (suc idx) fs (add_keys idx f.dedup_keys table)

  -- UnionFindDedup().group(findings); of no finding it makes no group, as the early return does
  unfoldable pub group : List Finding → List (List Finding)
  unfolding index_findings union_table collect_groups
  group fs =
      map (λ g. g.1)
        (collect_groups 0 fs (union_table (index_findings 0 fs []) (new (length fs))) [])
