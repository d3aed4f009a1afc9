-- ===== src/Adapters/Directories/Latest.antt =====
-- adapters/_base.py: what find_latest_output_dir returns.
use gxassessms.Base.{
  ℕ, ◌≡◌, sym, subst, arith, Bool-cases, inl, inr, ◌≤◌, String, Bool, true, false, ltb, List, [],
  ◌∷◌, All, select, contains, str_eq, if◌then◌else◌, eq_refl,
}
use gxassessms.Errors.{ok, traverse, adapter_error, >>=-ok, require->>-ok, ok_injective}
use gxassessms.Adapters.Outputs.{as_unreadable}
use gxassessms.Adapters.Outputs.Collected.{as_unreadable-ok}
use gxassessms.Adapters.Directories.{
  Directories, Stamped, later, latest, latest_of, is_candidate, stamp, find_latest_output_dir,
}

All-map :
    {A : Type 0} {P Q : A → Type 0} → ((x : A) → P x → Q x) → (xs : List A) → All P xs → All Q xs
All-map f [] h = tt
All-map f (x ∷ xs) h = (f x h.0, All-map f xs h.1)

-- every element is among them
All-contains : (xs : List String) → All (λ x. contains str_eq x xs ≡ true) xs
unfolding contains
All-contains [] = tt
All-contains (x ∷ xs) =
    (ground (arith, eq_refl x), All-map (λ y h. ground (arith, h)) xs (All-contains xs))

All-select :
    (P : String → Type 0) (p : String → Bool) (xs : List String)
    → All P xs
    → All (λ x. P x × (p x ≡ true)) (select p xs)
All-select P p [] h = tt
All-select P p (x ∷ xs) h = elim (Bool-cases (p x)) [
  | inl e ↦ rw e ((h.0, e), All-select P p xs h.1)
  | inr e ↦ rw e (All-select P p xs h.1)
]

-- what holds of the selected ones holds of the others under the test
All-unselect :
    (P : String → Type 0) (p : String → Bool) (xs : List String)
    → All P (select p xs)
    → All (λ x. p x ≡ true → P x) xs
All-unselect P p [] h = tt
All-unselect P p (x ∷ xs) h =
    let own = λ (b : Bool) (e : p x ≡ b).
      subst (λ b. All P (if b then x ∷ select p xs else select p xs)) e h in
    elim (Bool-cases (p x)) [
      | inl e ↦ let both = own true e in ((λ q. both.0), All-unselect P p xs both.1)
      | inr e ↦ ((λ q. ground (arith, q, e)), All-unselect P p xs (own false e))
    ]

-- the latest is one of them, and none is later
latest-holds :
    (P : Stamped → Type 0) (best : Stamped) (ds : List Stamped)
    → P best
    → All P ds
    → P (latest best ds)
unfolding latest
latest-holds P best [] h hs = h
latest-holds P best (d ∷ ds) h hs = elim (Bool-cases (ltb best.1 d.1)) [
  | inl e ↦ rw e (latest-holds P d ds hs.0 hs.1)
  | inr e ↦ rw e (latest-holds P best ds h hs.1)
]

later-bound : (best d : Stamped) → (best.1 ≤ (later best d).1) × (d.1 ≤ (later best d).1)
later-bound best d = ground arith

latest-bound :
    (best : Stamped) (ds : List Stamped)
    → (best.1 ≤ (latest best ds).1) × All (λ d. d.1 ≤ (latest best ds).1) ds
unfolding latest
latest-bound best [] = (omega arith, tt)
latest-bound best (d ∷ ds) =
    let (own, rest) = latest-bound (later best d) ds in
    let (old, new) = later-bound best d in
    (omega (arith, old, own), (omega (arith, new, own), rest))

module _ (dirs : Directories) where
  -- a directory that the prefix admits, with its time
  abbrev pub IsCandidate : List String → String → Stamped → Type 0
  IsCandidate children prefix d =
      (contains str_eq d.0 children ≡ true)
      × (is_candidate dirs prefix d.0 ≡ true)
      × (dirs.mtime d.0 ≡ ok d.1)

  -- a directory with a time that is at most a bound
  abbrev pub IsNoLater : ℕ → String → Type 0
  IsNoLater bound c = (u : ℕ) × (dirs.mtime c ≡ ok u) × (u ≤ bound)

  stamps :
      (Q : String → Type 0) (cs : List String) (ds : List Stamped)
      → traverse (stamp dirs) cs ≡ ok ds
      → All Q cs
      → All (λ d. Q d.0 × (dirs.mtime d.0 ≡ ok d.1)) ds
  unfolding traverse
  stamps Q [] ds h qs = subst (All (λ d. Q d.0 × (dirs.mtime d.0 ≡ ok d.1))) (ok_injective h) tt
  stamps Q (c ∷ cs) ds h qs =
      let (d, one, h1) = >>=-ok (stamp dirs c) _ h in
      let (rest, others, h2) = >>=-ok (traverse (stamp dirs) cs) _ h1 in
      let (t, read, h3) = >>=-ok (dirs.mtime c) _ one in
      let own = subst (λ d. Q d.0 × (dirs.mtime d.0 ≡ ok d.1)) (ok_injective h3) (qs.0, read) in
      subst (All (λ d. Q d.0 × (dirs.mtime d.0 ≡ ok d.1))) (ok_injective h2)
        (own, stamps Q cs rest others qs.1)

  bounded :
      (bound : ℕ) (cs : List String) (ds : List Stamped)
      → traverse (stamp dirs) cs ≡ ok ds
      → All (λ d. d.1 ≤ bound) ds
      → All (IsNoLater bound) cs
  unfolding traverse
  bounded bound [] ds h bs = tt
  bounded bound (c ∷ cs) ds h bs =
      let (d, one, h1) = >>=-ok (stamp dirs c) _ h in
      let (rest, others, h2) = >>=-ok (traverse (stamp dirs) cs) _ h1 in
      let (t, read, h3) = >>=-ok (dirs.mtime c) _ one in
      let (own, below) = subst (All (λ d. d.1 ≤ bound)) (sym (ok_injective h2)) bs in
      (
        (t, read, subst (λ d. d.1 ≤ bound) (sym (ok_injective h3)) own),
        bounded bound cs rest others below,
      )

  -- a candidate among what the directory holds, none of whose candidates is later
  abbrev pub IsLatest : List String → String → String → Type 0
  IsLatest children prefix d =
      (t : ℕ) × IsCandidate children prefix (d, t)
      × All (λ c. is_candidate dirs prefix c ≡ true → IsNoLater t c) children

  latest_of-IsLatest :
      (children : List String) (prefix : String) (ds : List Stamped) (d : String)
      → traverse (stamp dirs) (select (is_candidate dirs prefix) children) ≡ ok ds
      → latest_of ds ≡ ok d
      → IsLatest children prefix d
  latest_of-IsLatest children prefix [] d stamped h = ground arith
  latest_of-IsLatest children prefix (x ∷ xs) d stamped h =
      let p = is_candidate dirs prefix in
      let found =
        stamps _ (select p children) (x ∷ xs) stamped
          (All-select _ p children (All-contains children)) in
      let (own, rest) = latest-bound x xs in
      let (m, read) = latest-holds _ x xs found.0 found.1 in
      subst (IsLatest children prefix) (ok_injective h) (
        (latest x xs).1,
        (m.0, m.1, read),
        All-unselect (IsNoLater (latest x xs).1) p children
            (bounded (latest x xs).1 (select p children) (x ∷ xs) stamped (own, rest)),
      )

  -- The directory that find_latest_output_dir returns is among those that the base directory holds,
  -- under the prefix, and no other such directory has a later time.
  pub find_latest_output_dir-IsLatest :
      (base_dir prefix d : String)
      → find_latest_output_dir dirs base_dir prefix ≡ ok d
      → (children : List String) × (dirs.iterdir base_dir ≡ ok children)
        × IsLatest children prefix d
  unfolding find_latest_output_dir
  find_latest_output_dir-IsLatest base_dir prefix d h =
      let (present, h1) = require->>-ok (dirs.exists base_dir) adapter_error _ h in
      let (children, listed, h2) = >>=-ok (as_unreadable (dirs.iterdir base_dir)) _ h1 in
      let (ds, stamped, h3) =
        >>=-ok (as_unreadable (traverse (stamp dirs) (select (is_candidate dirs prefix) children)))
          _ h2 in
      (
        children,
        as_unreadable-ok _ listed,
        latest_of-IsLatest children prefix ds d (as_unreadable-ok _ stamped) h3,
      )
