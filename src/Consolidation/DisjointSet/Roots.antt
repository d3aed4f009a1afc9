-- ===== src/Consolidation/DisjointSet/Roots.antt =====
-- The forest of a disjoint set: ranks grow along parents, so every path of parents ends in a root.
use gxassessms.Base.{
  ℕ, zero, suc, ◌+◌, ◌≤◌, ◌<◌, ◌≡◌, ◌≢◌, ◌∙◌, List, [], ◌∷◌, arith, length, ◌==◌, Bool-cases, inl,
  inr,
}
use gxassessms.Consolidation.DisjointSet.{parent_of, rank_of, find_root, maximum}

pub record IsForest (n : ℕ) (p r : List ℕ) : Type 0 where
  pub parents : length p ≡ n
  pub ranks : length r ≡ n
  pub closed : (x : ℕ) → x < n → parent_of p x < n
  pub ranked : (x : ℕ) → x < n → parent_of p x ≢ x → rank_of r x < rank_of r (parent_of p x)

pub rank_of-le-maximum : (r : List ℕ) (x : ℕ) → rank_of r x ≤ maximum r
unfolding maximum
rank_of-le-maximum [] x = omega arith
rank_of-le-maximum (a ∷ r) zero = omega arith
rank_of-le-maximum (a ∷ r) (suc x) = omega (arith, rank_of-le-maximum r x)

module _ {n : ℕ} {p r : List ℕ} (forest : IsForest n p r) where
  -- With fuel for the ranks that are left, the loop ends at a root of no lower rank.
  pub find_root-is_root :
      (fuel x : ℕ)
      → x < n
      → maximum r < fuel + rank_of r x
      → (parent_of p (find_root fuel p x) ≡ find_root fuel p x)
        × (find_root fuel p x < n)
        × (rank_of r x ≤ rank_of r (find_root fuel p x))
        × (find_root fuel p x ≢ x → rank_of r x < rank_of r (find_root fuel p x))
  unfolding find_root
  find_root-is_root zero x lt enough = absurd (omega (arith, rank_of-le-maximum r x))
  find_root-is_root (suc fuel) x lt enough = elim (Bool-cases (parent_of p x == x)) [
    | inl root ↦ rw root (ground arith)
    | inr inner ↦
        let up : rank_of r x < rank_of r (parent_of p x) = forest.ranked x lt (ground arith) in
        rw inner (
          ground (arith, find_root-is_root fuel (parent_of p x) (forest.closed x lt) (omega arith)))
  ]

  -- A function that is constant along parents and fixes the roots gives the root.
  pub find_root_unique :
      (σ : ℕ → ℕ)
      → ((x : ℕ) → x < n → parent_of p x ≡ x → σ x ≡ x)
      → ((x : ℕ) → x < n → σ (parent_of p x) ≡ σ x)
      → (fuel x : ℕ) → x < n
      → maximum r < fuel + rank_of r x
      → find_root fuel p x ≡ σ x
  unfolding find_root
  find_root_unique σ fixes along zero x lt enough = absurd (omega (arith, rank_of-le-maximum r x))
  find_root_unique σ fixes along (suc fuel) x lt enough = elim (Bool-cases (parent_of p x == x)) [
    | inl root ↦ rw root (ground (arith, fixes x lt))
    | inr inner ↦
        let up : rank_of r x < rank_of r (parent_of p x) = forest.ranked x lt (ground arith) in
        rw inner (
          find_root_unique σ fixes along fuel (parent_of p x) (forest.closed x lt) (omega arith)
          ∙ along x lt)
  ]
