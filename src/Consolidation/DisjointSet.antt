-- ===== src/Consolidation/DisjointSet.antt =====
-- consolidation/dedup.py: _DisjointSet. The loops of `find` take fuel: one round more than the
-- greatest rank, since ranks grow along every path of parents.
pub mod Roots
pub mod Finding
pub mod Union
use gxassessms.Base.{
  ℕ, zero, suc, ◌+◌, Bool, true, false, List, [], ◌∷◌, ◌++◌, ◌==◌, ltb, leb, if◌then◌else◌, get_or,
  set, length, max,
}

pub record DisjointSet : Type 0 where
  pub parent : List ℕ
  pub rank : List ℕ

-- self._parent[x]; every x that occurs is in range
abbrev pub parent_of : List ℕ → ℕ → ℕ
parent_of p x = get_or p x x

abbrev pub rank_of : List ℕ → ℕ → ℕ
rank_of r x = get_or r x 0

unfoldable pub range_from : ℕ → ℕ → List ℕ
range_from first zero = []
range_from first (suc n) = first ∷ range_from (suc first) n

unfoldable pub zeros : ℕ → List ℕ
zeros zero = []
zeros (suc n) = 0 ∷ zeros n

-- _DisjointSet(size)
unfoldable pub new : ℕ → DisjointSet
unfolding range_from zeros
new size = record { parent = range_from 0 size; rank = zeros size }

-- `while self._parent[root] != root: root = self._parent[root]`
unfoldable pub find_root : ℕ → List ℕ → ℕ → ℕ
find_root zero p root = root
find_root (suc fuel) p root =
    let rest = find_root fuel p (parent_of p root) in
    if parent_of p root == root then root else rest

-- `while self._parent[x] != root: next_x = self._parent[x]; self._parent[x] = root; x = next_x`
unfoldable pub compress : ℕ → List ℕ → ℕ → ℕ → List ℕ
compress zero p x root = p
compress (suc fuel) p x root =
    let rest = compress fuel (set p x root) (parent_of p x) root in
    if parent_of p x == root then p else rest

unfoldable pub maximum : List ℕ → ℕ
maximum [] = 0
maximum (n ∷ ns) = max n (maximum ns)

unfoldable pub fuel_for : DisjointSet → ℕ
unfolding maximum
fuel_for ds = suc (maximum ds.rank)

unfoldable pub find : DisjointSet → ℕ → ℕ × DisjointSet
unfolding fuel_for find_root compress
find ds x =
    let root = find_root (fuel_for ds) ds.parent x in
    (root, record ds { parent = compress (fuel_for ds) ds.parent x root })

-- the roots differ: the one of lower rank goes below the other
unfoldable pub link : DisjointSet → ℕ → ℕ → DisjointSet
link ds root_x root_y =
    if ltb (rank_of ds.rank root_x) (rank_of ds.rank root_y)
    then record ds { parent = set ds.parent root_x root_y }
    else if ltb (rank_of ds.rank root_y) (rank_of ds.rank root_x)
    then record ds { parent = set ds.parent root_y root_x }
    else record {
      parent = set ds.parent root_y root_x;
      rank = set ds.rank root_x (rank_of ds.rank root_x + 1);
    }

unfoldable pub union : DisjointSet → ℕ → ℕ → DisjointSet
union ds x y =
    let (root_x, ds_x) = find ds x in
    let (root_y, ds_y) = find ds_x y in if root_x == root_y then ds_y else link ds_y root_x root_y
