-- ===== src/Consolidation/Dedup/Linking.antt =====
-- The sets behind all unions are the classes of the least equivalence that relates two findings with
-- a key in common.
use gxassessms.Base.{ℕ, ◌<◌, ◌≡◌, refl, sym, ◌∙◌, ap, ◌⊎◌, inl, inr, ◌↔◌, List, [], ◌∷◌, All}
use gxassessms.Consolidation.DisjointSet.{DisjointSet, new, union}
use gxassessms.Consolidation.DisjointSet.Finding.{Represents}
use gxassessms.Consolidation.DisjointSet.Union.{Joined, union_lem, new-Represents}
use gxassessms.Consolidation.Dedup.{KeyTable, union_rest, union_key, union_table}

abbrev pub In : ℕ → List ℕ → Type 0
In i [] = ⊥
In i (x ∷ xs) = (i ≡ x) ⊎ In i xs

-- some key of the table has both indices
abbrev pub Shares : KeyTable → ℕ → ℕ → Type 0
Shares [] i j = ⊥
Shares ((key, indices) ∷ table) i j = (In i indices × In j indices) ⊎ Shares table i j

-- the least equivalence that holds of indices with a key in common
pub data Linked (table : KeyTable) : ℕ → ℕ → Type 0 where
  shared : {i j : ℕ} → Shares table i j → Linked table i j
  same : {i j : ℕ} → i ≡ j → Linked table i j
  swap : {i j : ℕ} → Linked table i j → Linked table j i
  chain : {i j k : ℕ} → Linked table i j → Linked table j k → Linked table i k

abbrev Sound : KeyTable → (ℕ → ℕ) → Type 0
Sound table ρ = (z w : ℕ) → ρ z ≡ ρ w → Linked table z w

-- the sets behind some unions: coarser than those of ρ, and still within the table's classes
record Grown (n : ℕ) (table : KeyTable) (ρ : ℕ → ℕ) (ds : DisjointSet) : Type 0 where
  roots : ℕ → ℕ
  represents : Represents n ds.parent ds.rank roots
  sound : Sound table roots
  coarser : (z w : ℕ) → ρ z ≡ ρ w → roots z ≡ roots w

All-In : {P : ℕ → Type 0} (xs : List ℕ) → ((i : ℕ) → In i xs → P i) → All P xs
All-In [] h = tt
All-In (x ∷ xs) h = (h x (inl refl), All-In xs (λ i m. h i (inr m)))

to_first_of :
    (first : ℕ) (rest : List ℕ) (roots : ℕ → ℕ)
    → ((i : ℕ) → In i rest → roots first ≡ roots i)
    → (i : ℕ) → In i (first ∷ rest)
    → roots first ≡ roots i
to_first_of first rest roots h i (inl e) = ap roots (sym e)
to_first_of first rest roots h i (inr m) = h i m

Joined-Linked :
    (table : KeyTable) {ρ : ℕ → ℕ} (x y z w : ℕ)
    → Sound table ρ
    → Linked table x y
    → Joined ρ (ρ x) (ρ y) z w
    → Linked table z w
Joined-Linked table x y z w s l (inl e) = s z w e
Joined-Linked table x y z w s l (inr (inl (p, q))) = chain (s z x p) (chain l (swap (s w y q)))
Joined-Linked table x y z w s l (inr (inr (p, q))) =
    chain (s z y p) (chain (swap l) (swap (s w x q)))

module _ {n : ℕ} (table : KeyTable) where
  Grown-union :
      {ρ : ℕ → ℕ} (ds : DisjointSet) (x y : ℕ)
      → Represents n ds.parent ds.rank ρ
      → Sound table ρ
      → x < n
      → y < n
      → Linked table x y
      → (g : Grown n table ρ (union ds x y)) × (g.roots x ≡ g.roots y)
  Grown-union {ρ} ds x y rep s lx ly l =
      let (σ, rep', iff) = union_lem ds x y rep lx ly in
      (
        record {
          roots = σ;
          represents = rep';
          sound = λ z w e. Joined-Linked table x y z w s l ((iff z w).0 e);
          coarser = λ z w e. (iff z w).1 (inl e);
        },
        (iff x y).1 (inr (inl (refl, refl))),
      )

  Grown-rest :
      (first : ℕ) (rest : List ℕ) (ds : DisjointSet) {ρ : ℕ → ℕ}
      → Represents n ds.parent ds.rank ρ
      → Sound table ρ
      → first < n
      → All (λ i. (i < n) × Linked table first i) rest
      → (g : Grown n table ρ (union_rest first rest ds)) × ((i : ℕ)
          → In i rest
          → g.roots first ≡ g.roots i)
  unfolding union_rest
  Grown-rest first [] ds {ρ} rep s lf h =
      (record { roots = ρ; represents = rep; sound = s; coarser = λ z w e. e }, λ i m. absurd m)
  Grown-rest first (x ∷ rest) ds {ρ} rep s lf h =
      let (g, e) = Grown-union ds first x rep s lf h.0.0 h.0.1 in
      let (k, es) = Grown-rest first rest (union ds first x) g.represents g.sound lf h.1 in
      (
        record {
          roots = k.roots;
          represents = k.represents;
          sound = k.sound;
          coarser = λ z w p. k.coarser z w (g.coarser z w p);
        },
        λ i m. elim m [
          | inl at ↦ k.coarser first i (e ∙ ap g.roots (sym at))
          | inr later ↦ es i later
        ],
      )

  -- one key: all of its indices come into one set
  Grown-key :
      {ρ : ℕ → ℕ} (indices : List ℕ) (ds : DisjointSet)
      → Represents n ds.parent ds.rank ρ
      → Sound table ρ
      → ((i : ℕ) → In i indices → i < n)
      → ((i j : ℕ) → In i indices → In j indices → Linked table i j)
      → (g : Grown n table ρ (union_key indices ds)) × ((i j : ℕ)
          → In i indices
          → In j indices
          → g.roots i ≡ g.roots j)
  Grown-key {ρ} [] ds rep s bound l =
      (record { roots = ρ; represents = rep; sound = s; coarser = λ z w e. e }, λ i j m. absurd m)
  Grown-key {ρ} (first ∷ rest) ds rep s bound l =
      let (g, es) =
        Grown-rest first rest ds rep s (bound first (inl refl))
          (All-In rest (λ i m. (bound i (inr m), l first i (inl refl) (inr m)))) in
      let to_first = to_first_of first rest g.roots es in
      (g, λ i j m k. sym (to_first i m) ∙ to_first j k)

  -- the keys of a part of the table
  Grown-table :
      (part : KeyTable) (ds : DisjointSet) {ρ : ℕ → ℕ}
      → Represents n ds.parent ds.rank ρ
      → Sound table ρ
      → ((i j : ℕ) → Shares part i j → i < n)
      → ((i j : ℕ) → Shares part i j → Linked table i j)
      → (g : Grown n table ρ (union_table part ds)) × ((i j : ℕ)
          → Shares part i j
          → g.roots i ≡ g.roots j)
  unfolding union_table
  Grown-table [] ds {ρ} rep s bound l =
      (record { roots = ρ; represents = rep; sound = s; coarser = λ z w e. e }, λ i j m. absurd m)
  Grown-table ((key, indices) ∷ part) ds {ρ} rep s bound l =
      let (g, es) =
        Grown-key indices ds rep s (λ i m. bound i i (inl (m, m)))
          (λ i j m k. l i j (inl (m, k))) in
      let (k, fs) =
        Grown-table part (union_key indices ds) g.represents g.sound (λ i j m. bound i j (inr m))
          (λ i j m. l i j (inr m)) in
      (
        record {
          roots = k.roots;
          represents = k.represents;
          sound = k.sound;
          coarser = λ z w p. k.coarser z w (g.coarser z w p);
        },
        λ i j m. elim m [
          | inl both ↦ k.coarser i j (es i j both.0 both.1)
          | inr later ↦ fs i j later
        ],
      )

Linked-roots :
    (table : KeyTable) (roots : ℕ → ℕ)
    → ((i j : ℕ) → Shares table i j → roots i ≡ roots j)
    → {i j : ℕ} → Linked table i j
    → roots i ≡ roots j
Linked-roots table roots h (shared {i} {j} m) = h i j m
Linked-roots table roots h (same e) = ap roots e
Linked-roots table roots h (swap l) = sym (Linked-roots table roots h l)
Linked-roots table roots h (chain l k) = Linked-roots table roots h l ∙ Linked-roots table roots h k

-- Behind the unions for every key of a table whose indices are in range, the forest represents a map
-- to roots that has the same value at two elements exactly when the table links them.
pub union_table_lem :
    (n : ℕ) (table : KeyTable)
    → ((i j : ℕ) → Shares table i j → i < n)
    → (ρ : ℕ → ℕ) × Represents n
        (union_table table (new n)).parent
        (union_table table (new n)).rank
        ρ
      × ((i j : ℕ) → (ρ i ≡ ρ j) ↔ Linked table i j)
union_table_lem n table bound =
    let (g, es) =
      Grown-table table table (new n) (new-Represents n) (λ z w e. same e) bound
        (λ i j m. shared m) in
    (g.roots, g.represents, λ i j. (g.sound i j, Linked-roots table g.roots es))
