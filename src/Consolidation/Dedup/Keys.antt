-- ===== src/Consolidation/Dedup/Keys.antt =====
-- consolidation/dedup.py: the key table says which findings have a dedup key in common, stripped and not
-- blank.
use gxassessms.Base.{
  ℕ, suc, String, Bool, true, false, ◌≡◌, refl, sym, subst, ◌⊎◌, inl, inr, ◌↔◌, List, [], ◌∷◌, ◌++◌,
  All, Bool-cases, str_eq, eq_iff, eq_refl, add_to_group, if◌then◌else◌,
}
use gxassessms.Domain.Findings.{Finding}
use gxassessms.Consolidation.Dedup.{KeyTable, add_keys, index_findings}
use gxassessms.Consolidation.Dedup.Linking.{In, Shares, Linked, shared, same, swap, chain}

In-append : (j : ℕ) (xs ys : List ℕ) → In j xs → In j (xs ++ ys)
In-append j [] ys h = absurd h
In-append j (x ∷ xs) ys (inl e) = inl e
In-append j (x ∷ xs) ys (inr h) = inr (In-append j xs ys h)

In-last : (j : ℕ) (xs : List ℕ) → In j (xs ++ j ∷ [])
In-last j [] = inl refl
In-last j (x ∷ xs) = inr (In-last j xs)

In-snoc : (i j : ℕ) (xs : List ℕ) → In i (xs ++ j ∷ []) → In i xs ⊎ (i ≡ j)
In-snoc i j [] (inl e) = inr e
In-snoc i j [] (inr h) = absurd h
In-snoc i j (x ∷ xs) (inl e) = inl (inl e)
In-snoc i j (x ∷ xs) (inr h) = elim (In-snoc i j xs h) [ inl m ↦ inl (inr m) | inr e ↦ inr e ]

-- the indices that the table has under a key
abbrev at_key : String → KeyTable → List ℕ
at_key k [] = []
at_key k ((j, is) ∷ t) = if str_eq j k then is else at_key k t

-- every index stands under a key for which P holds of it
abbrev Keyed : (String → ℕ → Type 0) → KeyTable → Type 0
Keyed P = All (λ e. (i : ℕ) → In i e.1 → P e.0 i)

add_to_group-Keyed :
    (P : String → ℕ → Type 0) (key : String) (idx : ℕ) (t : KeyTable)
    → P key idx
    → Keyed P t
    → Keyed P (add_to_group str_eq key idx t)
unfolding add_to_group
add_to_group-Keyed P key idx [] p h = (alone, tt)
  where
    alone : (i : ℕ) → In i (idx ∷ []) → P key i
    alone i (inl e) = subst (P key) (sym e) p
    alone i (inr m) = absurd m
add_to_group-Keyed P key idx ((k, is) ∷ t) p h = elim (Bool-cases (str_eq k key)) [
  | inl own ↦
      let p' = subst (λ j. P j idx) (sym ((eq_iff k key).0 own)) p in
      rw own (
        (λ i m. elim (In-snoc i idx is m) [ inl old ↦ h.0 i old | inr e ↦ subst (P k) (sym e) p' ]),
        h.1,
      )
  | inr other ↦ rw other (h.0, add_to_group-Keyed P key idx t p h.1)
]

add_to_group-old :
    (k key : String) (j idx : ℕ) (t : KeyTable)
    → In j (at_key k t)
    → In j (at_key k (add_to_group str_eq key idx t))
unfolding add_to_group
add_to_group-old k key j idx [] h = absurd h
add_to_group-old k key j idx ((i, is) ∷ t) h =
    by_tests (str_eq i k) (str_eq i key) refl refl (add_to_group-old k key j idx t)
  where
    by_tests :
        (a b : Bool)
        → str_eq i k ≡ a
        → str_eq i key ≡ b
        → (In j (at_key k t) → In j (at_key k (add_to_group str_eq key idx t)))
        → In j (
            at_key k (
              if str_eq i key
              then (i, is ++ idx ∷ []) ∷ t
              else (i, is) ∷ add_to_group str_eq key idx t))
    by_tests true true e e' rest =
        rw (e', e)
          (In-append j is (idx ∷ []) (subst (λ b. In j (if b then is else at_key k t)) e h))
    by_tests true false e e' rest =
        rw (e', e) (subst (λ b. In j (if b then is else at_key k t)) e h)
    by_tests false true e e' rest =
        rw (e', e) (subst (λ b. In j (if b then is else at_key k t)) e h)
    by_tests false false e e' rest =
        rw (e', e) (rest (subst (λ b. In j (if b then is else at_key k t)) e h))

add_to_group-new :
    (key : String) (idx : ℕ) (t : KeyTable) → In idx (at_key key (add_to_group str_eq key idx t))
unfolding add_to_group
add_to_group-new key idx [] = rw (eq_refl key) (inl refl)
add_to_group-new key idx ((k, is) ∷ t) = elim (Bool-cases (str_eq k key)) [
  | inl own ↦ rw (own, own) (In-last idx is)
  | inr other ↦ rw (other, other) (add_to_group-new key idx t)
]

at_key-Shares :
    (k : String) (i j : ℕ) (t : KeyTable) → In i (at_key k t) → In j (at_key k t) → Shares t i j
at_key-Shares k i j [] h m = absurd h
at_key-Shares k i j ((key, is) ∷ t) h m = by_test (str_eq key k) h m (at_key-Shares k i j t)
  where
    by_test :
        (b : Bool)
        → In i (if b then is else at_key k t)
        → In j (if b then is else at_key k t)
        → (In i (at_key k t) → In j (at_key k t) → Shares t i j)
        → Shares ((key, is) ∷ t) i j
    by_test true h m rest = inl (h, m)
    by_test false h m rest = inr (rest h m)

Shares-Keyed :
    (P : String → ℕ → Type 0) (t : KeyTable) (i j : ℕ)
    → Keyed P t
    → Shares t i j
    → (k : String) × P k i × P k j
Shares-Keyed P [] i j h s = absurd s
Shares-Keyed P ((k, is) ∷ t) i j h (inl both) = (k, h.0 i both.0, h.0 j both.1)
Shares-Keyed P ((k, is) ∷ t) i j h (inr s) = Shares-Keyed P t i j h.1 s

module _ (strip : String → String) where
  -- a key is one of a finding's dedup keys, stripped, and not blank
  abbrev pub Offers : String → List String → Type 0
  Offers k [] = ⊥
  Offers k (x ∷ xs) = ((strip x ≡ k) × (str_eq (strip x) "" ≡ false)) ⊎ Offers k xs

  -- the finding at an index has the key, where the first finding has the index `idx`
  abbrev pub Carries : ℕ → String → List Finding → ℕ → Type 0
  Carries idx k [] j = ⊥
  Carries idx k (f ∷ fs) j = ((j ≡ idx) × Offers k f.dedup_keys) ⊎ Carries (suc idx) k fs j

  add_keys-Keyed :
      (P : String → ℕ → Type 0) (idx : ℕ) (keys : List String) (t : KeyTable)
      → ((k : String) → Offers k keys → P k idx)
      → Keyed P t
      → Keyed P (add_keys strip idx keys t)
  unfolding add_keys
  add_keys-Keyed P idx [] t p h = h
  add_keys-Keyed P idx (x ∷ xs) t p h = elim (Bool-cases (str_eq (strip x) "")) [
    | inl blank ↦ rw blank (add_keys-Keyed P idx xs t (λ k o. p k (inr o)) h)
    | inr given ↦ rw given (
        add_keys-Keyed P idx xs (add_to_group str_eq (strip x) idx t) (λ k o. p k (inr o))
          (add_to_group-Keyed P (strip x) idx t (p (strip x) (inl (refl, given))) h))
  ]

  index_findings-Keyed :
      (P : String → ℕ → Type 0) (idx : ℕ) (fs : List Finding) (t : KeyTable)
      → ((k : String) (j : ℕ) → Carries idx k fs j → P k j)
      → Keyed P t
      → Keyed P (index_findings strip idx fs t)
  unfolding index_findings
  index_findings-Keyed P idx [] t p h = h
  index_findings-Keyed P idx (f ∷ fs) t p h =
      index_findings-Keyed P (suc idx) fs (add_keys strip idx f.dedup_keys t)
        (λ k j c. p k j (inr c))
        (add_keys-Keyed P idx f.dedup_keys t (λ k o. p k idx (inl (refl, o))) h)

  add_keys-old :
      (k : String) (j idx : ℕ) (keys : List String) (t : KeyTable)
      → In j (at_key k t)
      → In j (at_key k (add_keys strip idx keys t))
  unfolding add_keys
  add_keys-old k j idx [] t h = h
  add_keys-old k j idx (x ∷ xs) t h = elim (Bool-cases (str_eq (strip x) "")) [
    | inl blank ↦ rw blank (add_keys-old k j idx xs t h)
    | inr given ↦ rw given (
        add_keys-old k j idx xs (add_to_group str_eq (strip x) idx t)
          (add_to_group-old k (strip x) j idx t h))
  ]

  add_keys-new :
      (k : String) (idx : ℕ) (keys : List String) (t : KeyTable)
      → Offers k keys
      → In idx (at_key k (add_keys strip idx keys t))
  unfolding add_keys
  add_keys-new k idx [] t o = absurd o
  add_keys-new k idx (x ∷ xs) t (inl (e, given)) = rw given (
      add_keys-old k idx idx xs (add_to_group str_eq (strip x) idx t) (
        subst (λ k. In idx (at_key k (add_to_group str_eq (strip x) idx t))) e
          (add_to_group-new (strip x) idx t)))
  add_keys-new k idx (x ∷ xs) t (inr o) = elim (Bool-cases (str_eq (strip x) "")) [
    | inl blank ↦ rw blank (add_keys-new k idx xs t o)
    | inr given ↦ rw given (add_keys-new k idx xs (add_to_group str_eq (strip x) idx t) o)
  ]

  index_findings-old :
      (k : String) (j idx : ℕ) (fs : List Finding) (t : KeyTable)
      → In j (at_key k t)
      → In j (at_key k (index_findings strip idx fs t))
  unfolding index_findings
  index_findings-old k j idx [] t h = h
  index_findings-old k j idx (f ∷ fs) t h =
      index_findings-old k j (suc idx) fs (add_keys strip idx f.dedup_keys t)
        (add_keys-old k j idx f.dedup_keys t h)

  index_findings-new :
      (k : String) (j idx : ℕ) (fs : List Finding) (t : KeyTable)
      → Carries idx k fs j
      → In j (at_key k (index_findings strip idx fs t))
  unfolding index_findings
  index_findings-new k j idx [] t c = absurd c
  index_findings-new k j idx (f ∷ fs) t (inl (e, o)) =
      index_findings-old k j (suc idx) fs (add_keys strip idx f.dedup_keys t) (
        subst (λ i. In i (at_key k (add_keys strip idx f.dedup_keys t))) (sym e)
          (add_keys-new k idx f.dedup_keys t o))
  index_findings-new k j idx (f ∷ fs) t (inr c) =
      index_findings-new k j (suc idx) fs (add_keys strip idx f.dedup_keys t) c

  -- the least equivalence of the findings' indices that holds where two findings have a key in common
  pub data Connected (fs : List Finding) : ℕ → ℕ → Type 0 where
    common : {i j : ℕ} (k : String) → Carries 0 k fs i → Carries 0 k fs j → Connected fs i j
    itself : {i j : ℕ} → i ≡ j → Connected fs i j
    back : {i j : ℕ} → Connected fs i j → Connected fs j i
    on : {i j k : ℕ} → Connected fs i j → Connected fs j k → Connected fs i k

  module _ (fs : List Finding) where
    of_Linked : {i j : ℕ} → Linked (index_findings strip 0 fs []) i j → Connected fs i j
    of_Linked {i} {j} (shared s) =
        let keyed = index_findings-Keyed (λ k j. Carries 0 k fs j) 0 fs [] (λ k j c. c) tt in
        let (k, a, b) = Shares-Keyed (λ k j. Carries 0 k fs j) _ i j keyed s in common k a b
    of_Linked (same e) = itself e
    of_Linked (swap l) = back (of_Linked l)
    of_Linked (chain l m) = on (of_Linked l) (of_Linked m)

    to_Linked : {i j : ℕ} → Connected fs i j → Linked (index_findings strip 0 fs []) i j
    to_Linked {i} {j} (common k a b) = shared (
        at_key-Shares k i j (index_findings strip 0 fs []) (index_findings-new k i 0 fs [] a)
          (index_findings-new k j 0 fs [] b))
    to_Linked (itself e) = same e
    to_Linked (back l) = swap (to_Linked l)
    to_Linked (on l m) = chain (to_Linked l) (to_Linked m)

    pub Linked_iff_Connected :
        (i j : ℕ) → Linked (index_findings strip 0 fs []) i j ↔ Connected fs i j
    Linked_iff_Connected i j = (of_Linked, to_Linked)
