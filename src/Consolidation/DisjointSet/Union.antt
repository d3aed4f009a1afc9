-- ===== src/Consolidation/DisjointSet/Union.antt =====
-- `union` joins the two sets of its arguments, and no others.
use gxassessms.Base.{
  ℕ, zero, suc, ◌+◌, ◌<◌, ◌≡◌, ◌≢◌, ◌⊎◌, ◌↔◌, refl, sym, ◌∙◌, List, arith, get_or, get_or-set, set,
  length, length-set, ◌==◌, if◌then◌else◌, Bool-cases, inl, inr, ltb,
}
use gxassessms.Consolidation.DisjointSet.{
  DisjointSet, parent_of, rank_of, find, link, union, new, range_from, zeros,
}
use gxassessms.Consolidation.DisjointSet.Finding.{Represents, find_lem}

-- the roots behind a link of `loser` below `winner`
abbrev pub linked : ℕ → ℕ → (ℕ → ℕ) → ℕ → ℕ
linked loser winner ρ z = if ρ z == loser then winner else ρ z

-- A root of lower rank goes below another root: the roots are those before, with the one replaced.
below :
    {n : ℕ} {p r : List ℕ} {ρ : ℕ → ℕ} (loser winner : ℕ)
    → Represents n p r ρ
    → loser < n
    → winner < n
    → parent_of p loser ≡ loser
    → parent_of p winner ≡ winner
    → loser ≢ winner
    → rank_of r loser < rank_of r winner
    → Represents n (set p loser winner) r (linked loser winner ρ)
below {p} {ρ} loser winner rep ll lw rl rw' differ higher =
    let bound : loser < length p = omega (arith, rep.forest.parents) in
    record {
      forest = record {
        parents = length-set p loser winner ∙ rep.forest.parents;
        ranks = rep.forest.ranks;
        closed =
            λ y ly. ground (arith, get_or-set p loser y winner y bound, rep.forest.closed y ly);
        ranked =
            λ y ly. ground (arith, get_or-set p loser y winner y bound, rep.forest.ranked y ly);
      };
      fixes = λ y ly. ground (arith, get_or-set p loser y winner y bound, rep.fixes y ly);
      along = λ y ly. ground (
        arith,
        get_or-set p loser y winner y bound,
        rep.along y ly,
        rep.fixes winner lw rw',
        rep.fixes loser ll rl,
      );
      root = λ y ly. ground (
        arith,
        get_or-set p loser (ρ y) winner (ρ y) bound,
        get_or-set p loser winner winner winner bound,
        rep.root y ly,
      );
      inside = λ y ly. ground (arith, rep.inside y ly);
      above = λ y ly. ground (arith, rep.above y ly);
    }

-- A greater rank for a root keeps the forest.
promoted :
    {n : ℕ} {p r : List ℕ} {ρ : ℕ → ℕ} (winner : ℕ)
    → Represents n p r ρ
    → winner < n
    → parent_of p winner ≡ winner
    → Represents n p (set r winner (rank_of r winner + 1)) ρ
promoted {p} {r} {ρ} winner rep lw rw' =
    let bound : winner < length r = omega (arith, rep.forest.ranks) in
    let v = rank_of r winner + 1 in
    record {
      forest = record {
        parents = rep.forest.parents;
        ranks = length-set r winner v ∙ rep.forest.ranks;
        closed = rep.forest.closed;
        ranked = λ y ly. ground (
          arith,
          get_or-set r winner y v 0 bound,
          get_or-set r winner (parent_of p y) v 0 bound,
          rep.forest.ranked y ly,
        );
      };
      fixes = rep.fixes;
      along = rep.along;
      root = rep.root;
      inside = rep.inside;
      above = λ y ly. ground (
        arith,
        get_or-set r winner y v 0 bound,
        get_or-set r winner (ρ y) v 0 bound,
        rep.above y ly,
        rep.fixes winner lw rw',
      );
    }

-- two elements in one set, behind the union of the sets with the roots `a` and `b`
abbrev pub Joined : (ℕ → ℕ) → ℕ → ℕ → ℕ → ℕ → Type 0
Joined ρ a b z w = (ρ z ≡ ρ w) ⊎ (((ρ z ≡ a) × (ρ w ≡ b)) ⊎ ((ρ z ≡ b) × (ρ w ≡ a)))

linked_iff :
    (loser winner : ℕ) (ρ : ℕ → ℕ) (z w : ℕ)
    → (linked loser winner ρ z ≡ linked loser winner ρ w) ↔ Joined ρ loser winner z w
linked_iff loser winner ρ z w = (λ e. ground arith, λ j. ground arith)

Joined-swap : (ρ : ℕ → ℕ) (a b z w : ℕ) → Joined ρ a b z w ↔ Joined ρ b a z w
Joined-swap ρ a b z w = ground arith

-- the arrays of a disjoint set represent a map to roots whose sets are those of ρ, joined at a and b
abbrev pub Joins : ℕ → (ℕ → ℕ) → ℕ → ℕ → DisjointSet → Type 0
Joins n ρ a b ds =
    (σ : ℕ → ℕ) × Represents n ds.parent ds.rank σ × ((z w : ℕ) → (σ z ≡ σ w) ↔ Joined ρ a b z w)

link_lem :
    {n : ℕ} {ρ : ℕ → ℕ} (ds : DisjointSet) (a b : ℕ)
    → Represents n ds.parent ds.rank ρ
    → a < n
    → b < n
    → parent_of ds.parent a ≡ a
    → parent_of ds.parent b ≡ b
    → a ≢ b
    → Joins n ρ a b (link ds a b)
unfolding link
link_lem {n} {ρ} ds a b rep la lb ra rb differ =
    elim (Bool-cases (ltb (rank_of ds.rank a) (rank_of ds.rank b))) [
      | inl lower ↦
          rw lower (linked a b ρ, below a b rep la lb ra rb differ (ground arith), linked_iff a b ρ)
      | inr not_lower ↦
          let v = rank_of ds.rank a + 1 in
          let bound : a < length ds.rank = omega (arith, rep.forest.ranks) in
          elim (Bool-cases (ltb (rank_of ds.rank b) (rank_of ds.rank a))) [
            | inl lower ↦
                rw (not_lower, lower)
                  (
                    linked b a ρ,
                    below b a rep lb la rb ra (λ e. differ (sym e)) (ground arith),
                    λ z w. ground (arith, linked_iff b a ρ z w, Joined-swap ρ a b z w),
                  )
            | inr equal ↦
                rw (not_lower, equal)
                  (
                    linked b a ρ,
                    below b a (promoted a rep la ra) lb la rb ra (λ e. differ (sym e))
                        (ground (
                          arith,
                          get_or-set ds.rank a b v 0 bound,
                          get_or-set ds.rank a a v 0 bound,
                        )),
                    λ z w. ground (arith, linked_iff b a ρ z w, Joined-swap ρ a b z w),
                  )
          ]
    ]

-- Of a forest that represents a map to roots, `union` of two elements in range leaves a forest whose
-- sets are those before, with the set of x joined to the set of y and no others joined.
pub union_lem :
    {n : ℕ} {ρ : ℕ → ℕ} (ds : DisjointSet) (x y : ℕ)
    → Represents n ds.parent ds.rank ρ
    → x < n
    → y < n
    → Joins n ρ (ρ x) (ρ y) (union ds x y)
unfolding union
union_lem {n} {ρ} ds x y rep lx ly =
    let (root_x, rep_x) = find_lem ds x rep lx in
    let ds_x = (find ds x).1 in
    let (root_y, rep_y) = find_lem ds_x y rep_x ly in
    let ds_y = (find ds_x y).1 in
    elim (Bool-cases (ρ x == ρ y)) [
      | inl same ↦ rw (root_x, root_y, same) (ρ, rep_y, λ z w. ground arith)
      | inr other ↦
          rw (root_x, root_y, other)
            (link_lem ds_y (ρ x) (ρ y) rep_y (rep.inside x lx) (rep.inside y ly) (rep_y.root x lx)
              (rep_y.root y ly) (ground arith))
    ]

get_or-range_from : (first n x : ℕ) → get_or (range_from first n) x (first + x) ≡ first + x
unfolding range_from
get_or-range_from first zero x = refl
get_or-range_from first (suc n) zero = omega arith
get_or-range_from first (suc n) (suc x) =
    let e : first + suc x ≡ suc first + x = omega arith in rw e (get_or-range_from (suc first) n x)

length-range_from : (first n : ℕ) → length (range_from first n) ≡ n
unfolding range_from
length-range_from first zero = refl
length-range_from first (suc n) = omega (arith, length-range_from (suc first) n)

length-zeros : (n : ℕ) → length (zeros n) ≡ n
unfolding zeros
length-zeros zero = refl
length-zeros (suc n) = omega (arith, length-zeros n)

own_parent : (n x : ℕ) → parent_of (range_from 0 n) x ≡ x
own_parent n x = let e : 0 + x ≡ x = omega arith in rw e at (get_or-range_from 0 n x)

-- A new disjoint set has each element in a set of its own.
pub new-Represents : (n : ℕ) → Represents n (new n).parent (new n).rank (λ x. x)
unfolding new
new-Represents n =
    let own = own_parent n in
    record {
      forest = record {
        parents = length-range_from 0 n;
        ranks = length-zeros n;
        closed = λ x lx. rw (own x) lx;
        ranked = λ x lx inner. absurd (inner (own x));
      };
      fixes = λ x lx e. refl;
      along = λ x lx. own x;
      root = λ x lx. own x;
      inside = λ x lx. lx;
      above = λ x lx e. absurd (e refl);
    }
