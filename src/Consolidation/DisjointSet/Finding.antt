-- ===== src/Consolidation/DisjointSet/Finding.antt =====
-- `find` returns the root, and path compression changes no root.
use gxassessms.Base.{
  ℕ, zero, suc, ◌<◌, ◌≡◌, ◌≢◌, refl, ◌∙◌, List, arith, get_or-set, set, length, length-set, ◌==◌,
  Bool-cases, inl, inr, subst,
}
use gxassessms.Consolidation.DisjointSet.{
  DisjointSet, parent_of, rank_of, find_root, compress, find, maximum, fuel_for,
}
use gxassessms.Consolidation.DisjointSet.Roots.{IsForest, find_root_unique}

-- the arrays are a forest on 0 .. n - 1, and ρ gives the root of each element
pub record Represents (n : ℕ) (p r : List ℕ) (ρ : ℕ → ℕ) : Type 0 where
  pub forest : IsForest n p r
  pub fixes : (x : ℕ) → x < n → parent_of p x ≡ x → ρ x ≡ x
  pub along : (x : ℕ) → x < n → ρ (parent_of p x) ≡ ρ x
  pub root : (x : ℕ) → x < n → parent_of p (ρ x) ≡ ρ x
  pub inside : (x : ℕ) → x < n → ρ x < n
  pub above : (x : ℕ) → x < n → ρ x ≢ x → rank_of r x < rank_of r (ρ x)

module _ {n : ℕ} {p r : List ℕ} {ρ : ℕ → ℕ} (rep : Represents n p r ρ) where
  -- With fuel for every rank, the loop of `find` gives the root.
  pub find_root-root : (x : ℕ) → x < n → find_root (suc (maximum r)) p x ≡ ρ x
  find_root-root x lt =
      find_root_unique rep.forest ρ rep.fixes rep.along (suc (maximum r)) x lt (omega arith)

  pub root_fixed : (x : ℕ) → x < n → ρ (ρ x) ≡ ρ x
  root_fixed x lt = rep.fixes (ρ x) (rep.inside x lt) (rep.root x lt)

  -- A write of an element's root as its parent changes no root.
  shortened : (x : ℕ) → x < n → Represents n (set p x (ρ x)) r ρ
  shortened x lt =
      let bound : x < length p = omega (arith, rep.forest.parents) in
      record {
        forest = record {
          parents = length-set p x (ρ x) ∙ rep.forest.parents;
          ranks = rep.forest.ranks;
          closed = λ y ly.
              ground
                (arith, get_or-set p x y (ρ x) y bound, rep.forest.closed y ly, rep.inside x lt);
          ranked = λ y ly.
              ground
                (arith, get_or-set p x y (ρ x) y bound, rep.forest.ranked y ly, rep.above x lt);
        };
        fixes = λ y ly. ground (arith, get_or-set p x y (ρ x) y bound, rep.fixes y ly);
        along =
            λ y ly. ground (arith, get_or-set p x y (ρ x) y bound, rep.along y ly, root_fixed x lt);
        root = λ y ly.
            ground (arith, get_or-set p x (ρ y) (ρ x) (ρ y) bound, rep.root y ly, root_fixed y ly);
        inside = rep.inside;
        above = rep.above;
      }

pub compress-Represents :
    {n : ℕ} {r : List ℕ} {ρ : ℕ → ℕ} (fuel : ℕ) (p : List ℕ) (x : ℕ)
    → Represents n p r ρ
    → x < n
    → Represents n (compress fuel p x (ρ x)) r ρ
unfolding compress
compress-Represents zero p x rep lt = rep
compress-Represents {n} {r} {ρ} (suc fuel) p x rep lt = elim (Bool-cases (parent_of p x == ρ x)) [
  | inl done ↦ rw done rep
  | inr more ↦ rw more (
      subst (λ v. Represents n (compress fuel (set p x (ρ x)) (parent_of p x) v) r ρ)
        (rep.along x lt)
        (compress-Represents fuel (set p x (ρ x)) (parent_of p x) (shortened rep x lt)
          (rep.forest.closed x lt)))
]

-- Of a forest that represents a map to roots, `find` of an element in range returns the element's
-- root, and the forest behind it represents the same map.
pub find_lem :
    {n : ℕ} {ρ : ℕ → ℕ} (ds : DisjointSet) (x : ℕ)
    → Represents n ds.parent ds.rank ρ
    → x < n
    → ((find ds x).0 ≡ ρ x) × Represents n (find ds x).1.parent (find ds x).1.rank ρ
unfolding find
find_lem ds x rep lt =
    rw (find_root-root rep x lt) (refl, compress-Represents (fuel_for ds) ds.parent x rep lt)
