-- ===== src/Policy/Consolidation/Reconciled.antt =====
-- What the severity, the status and the references of a merged group are.
use gxassessms.Base.{
  ◌≤◌, String, ◌≡◌, ◌≢◌, not, ◌&&◌, inl, inr, refl, true, false, Option, List, [], ◌∷◌, ◌||◌, arith,
  All, Among, pick, pick-Among, All-pick, map, contains, any, str_eq, eq_iff, eq_refl, ◌++◌,
  Bool-cases,
}
use gxassessms.Errors.{ok}
use gxassessms.Domain.Enums.{FindingStatus, severity_order}
use gxassessms.Domain.Findings.{Finding}
use gxassessms.Policy.Consolidation.{
  status_among, reconcile_severity, severer, reconcile_status, priority_of, prior, priority_list,
  unseen, all_refs, merge_benchmark_refs,
}

All-map :
    {A B : Type 0} (P : B → Type 0) (f : A → B) (xs : List A)
    → All P (map f xs)
    → All (λ x. P (f x)) xs
All-map P f [] h = tt
All-map P f (x ∷ xs) h = (h.0, All-map P f xs h.1)

-- The severity of a merged group is the severity of one of its findings, and no finding of the group
-- has a higher one.
pub reconcile_severity_lem :
    (f : Finding) (fs : List Finding)
    → Among (reconcile_severity f fs) (map (λ g. g.severity) (f ∷ fs))
      × All (λ g. severity_order g.severity ≤ severity_order (reconcile_severity f fs)) (f ∷ fs)
unfolding reconcile_severity
reconcile_severity_lem f fs = (
  pick-Among severer f.severity (map (λ g. g.severity) fs),
  All-map (λ s. severity_order s ≤ severity_order (reconcile_severity f fs)) (λ g. g.severity)
      (f ∷ fs)
      (All-pick severer (λ a b. severity_order b ≤ severity_order a) (λ a. omega arith)
        (λ a b c h k. omega arith) (λ a b h. ground arith) (λ a b h. ground arith) f.severity
        (map (λ g. g.severity) fs)),
)

prior-le :
    (order : List String) (a b : FindingStatus)
    → prior order a b ≡ true
    → priority_of order a ≤ priority_of order b
unfolding prior
prior-le order a b h = ground arith

not-prior :
    (order : List String) (a b : FindingStatus)
    → prior order a b ≡ false
    → priority_of order b ≤ priority_of order a
unfolding prior
not-prior order a b h = ground arith

-- The status of a merged group can be told if the list of priorities is not empty: it is the status of one of its findings, and no finding of the group has one of a better priority.
pub reconcile_status_lem :
    (order : Option (List String)) (f : Finding) (fs : List Finding)
    → priority_list order ≢ []
    → (s : FindingStatus) × (reconcile_status order f fs ≡ ok s)
      × Among s (map (λ g. g.status) (f ∷ fs))
      × All
          (λ g. priority_of (priority_list order) s ≤ priority_of (priority_list order) g.status)
          (f ∷ fs)
unfolding reconcile_status
reconcile_status_lem order f fs given = by_list (priority_list order) given
  where
    by_list :
        (list : List String)
        → list ≢ []
        → (s : FindingStatus) × (status_among list f fs ≡ ok s)
          × Among s (map (λ g. g.status) (f ∷ fs))
          × All (λ g. priority_of list s ≤ priority_of list g.status) (f ∷ fs)
    by_list [] some_text = absurd (some_text refl)
    by_list (t ∷ ts) some_text =
        let s = pick (prior (t ∷ ts)) f.status (map (λ g. g.status) fs) in
        (
          s,
          refl,
          pick-Among (prior (t ∷ ts)) f.status (map (λ g. g.status) fs),
          All-map (λ x. priority_of (t ∷ ts) s ≤ priority_of (t ∷ ts) x) (λ g. g.status) (f ∷ fs)
              (All-pick (prior (t ∷ ts)) (λ a b. priority_of (t ∷ ts) a ≤ priority_of (t ∷ ts) b)
                (λ a. omega arith) (λ a b c h k. omega arith) (prior-le (t ∷ ts))
                (not-prior (t ∷ ts)) f.status (map (λ g. g.status) fs)),
        )

contains-unseen :
    (r : String) (seen ts : List String)
    → contains str_eq r (unseen seen ts) ≡ (not (contains str_eq r seen) && contains str_eq r ts)
unfolding contains unseen
contains-unseen r seen [] = ground arith
contains-unseen r seen (t ∷ ts) =
    ground (arith, contains-unseen r seen ts, contains-unseen r (t ∷ seen) ts, eq_iff r t)

-- no text twice
abbrev pub IsDistinct : List String → Type 0
IsDistinct [] = Unit
IsDistinct (t ∷ ts) = (contains str_eq t ts ≡ false) × IsDistinct ts

unseen-IsDistinct : (seen ts : List String) → IsDistinct (unseen seen ts)
unfolding unseen
unseen-IsDistinct seen [] = tt
unseen-IsDistinct seen (t ∷ ts) = elim (Bool-cases (contains str_eq t seen)) [
  | inl old ↦ rw old (unseen-IsDistinct seen ts)
  | inr fresh ↦ rw fresh (once, unseen-IsDistinct (t ∷ seen) ts)
]
  where
    once : contains str_eq t (unseen (t ∷ seen) ts) ≡ false
    once = rw (contains-unseen t (t ∷ seen) ts) (unfold contains in ground (arith, eq_refl t))

contains-append :
    (r : String) (xs ys : List String)
    → contains str_eq r (xs ++ ys) ≡ (contains str_eq r xs || contains str_eq r ys)
unfolding contains
contains-append r [] ys = refl
contains-append r (x ∷ xs) ys = ground (arith, contains-append r xs ys)

contains-all_refs :
    (r : String) (fs : List Finding)
    → contains str_eq r (all_refs fs) ≡ any (λ f. contains str_eq r f.benchmark_refs) fs
unfolding all_refs any
contains-all_refs r [] = unfold contains in refl
contains-all_refs r (f ∷ fs) =
    rw (contains-append r f.benchmark_refs (all_refs fs), contains-all_refs r fs) refl

-- The references of a merged group are those of its findings: a reference is among them exactly when
-- some finding has it, and none is there twice.
pub merge_benchmark_refs_lem :
    (fs : List Finding)
    → ((r : String)
        → contains str_eq r (merge_benchmark_refs fs)
          ≡ any (λ f. contains str_eq r f.benchmark_refs) fs)
      × IsDistinct (merge_benchmark_refs fs)
unfolding merge_benchmark_refs
merge_benchmark_refs_lem fs = (
  λ r. rw (contains-unseen r [] (all_refs fs)) (contains-all_refs r fs),
  unseen-IsDistinct [] (all_refs fs),
)
