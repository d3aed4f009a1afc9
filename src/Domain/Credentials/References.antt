-- ===== src/Domain/Credentials/References.antt =====
-- core/domain/models.py: what a reference to a credential can be, and that nothing else passes.
use gxassessms.Base.{
  ℕ, ◌≡◌, refl, ap, ◌∙◌, arith, Bool-cases, ◌⊎◌, inl, inr, true, some, String, List, [], ◌∷◌, ◌++◌,
  ◌==◌, any, Chars, codes, All, Lacks, subst, none, Option, false, Bool, text_eq, text_eq_iff,
}
use gxassessms.Errors.{ok, value_error, require->>-ok}
use gxassessms.Domain.Credentials.{
  env_credential_ref, provider_name, provider_key, push, partition, is_provider_ref,
  is_valid_credential_ref, validate_credential_refs,
}

-- a provider, a colon and a key
abbrev pub IsProviderRef : Chars → Type 0
IsProviderRef value =
    (provider : Chars) × (key : Chars) × (value ≡ provider ++ b':' ∷ key)
    × Lacks b':' provider
    × (((provider ≡ codes "env") × (env_credential_ref key ≡ true))
        ⊎ ((provider_name provider ≡ true) × (provider_key key ≡ true)))

abbrev pub IsLookupRef : Chars → Type 0
IsLookupRef value = (env_credential_ref value ≡ true) ⊎ IsProviderRef value

pushed-eq :
    (sep c : ℕ) (cs : Chars) (found : Option (Chars × Chars)) (before after : Chars)
    → (c == sep) ≡ false
    → ((b a : Chars) → found ≡ some (b, a) → (cs ≡ b ++ sep ∷ a) × Lacks sep b)
    → push c found ≡ some (before, after)
    → (c ∷ cs ≡ before ++ sep ∷ after) × Lacks sep before
pushed-eq sep c cs none before after other smaller h = ground arith
pushed-eq sep c cs (some (b, a)) before after other smaller h =
    let (joined, lacks) = smaller b a refl in
    let at_before : c ∷ b ≡ before = ground (arith, h) in
    let at_after : a ≡ after = ground (arith, h) in
    (
      ap (λ s. c ∷ s) joined
          ∙ ap (λ s. s ++ sep ∷ a) at_before
          ∙ ap (λ s. before ++ sep ∷ s) at_after,
      subst (Lacks sep) at_before (ground (arith, other), lacks),
    )

partition-eq :
    (sep : ℕ) (cs before after : Chars)
    → partition sep cs ≡ some (before, after)
    → (cs ≡ before ++ sep ∷ after) × Lacks sep before
unfolding partition
partition-eq sep [] before after h = ground arith
partition-eq sep (c ∷ cs) before after h = elim (Bool-cases (c == sep)) [
  | inl e ↦ found_here e
  | inr e ↦ pushed-eq sep c cs (partition sep cs) before after e (partition-eq sep cs) (rw e at h)
]
  where
    found_here : (c == sep) ≡ true → (c ∷ cs ≡ before ++ sep ∷ after) × Lacks sep before
    found_here e =
        let h2 = rw e at h in
        let at_before : [] ≡ before = ground (arith, h2) in
        let at_after : cs ≡ after = ground (arith, h2) in
        let same : c ≡ sep = ground (arith, e) in
        (
          ap (λ d. d ∷ cs) same ∙ ap (λ s. sep ∷ s) at_after ∙ ap (λ s. s ++ sep ∷ after) at_before,
          subst (Lacks sep) at_before tt,
        )

partition-IsProviderRef :
    (value : Chars) (found : Option (Chars × Chars))
    → partition b':' value ≡ found
    → is_provider_ref found ≡ true
    → IsProviderRef value
partition-IsProviderRef value none placed h = ground arith
partition-IsProviderRef value (some (provider, key)) placed h =
    let (joined, lacks) = partition-eq b':' value provider key placed in
    (
      provider,
      key,
      joined,
      lacks,
      elim (Bool-cases (text_eq provider (codes "env"))) [
        | inl e ↦ inl ((text_eq_iff provider (codes "env")).0 e, rw e at h)
        | inr e ↦ inr (ground (arith, h, e))
      ],
    )

module _ (is_space : ℕ → Bool) where
  is_valid_credential_ref-IsLookupRef :
      (value : Chars)
      → is_valid_credential_ref is_space value ≡ true
      → (any is_space value ≡ false) × IsLookupRef value
  unfolding is_valid_credential_ref
  is_valid_credential_ref-IsLookupRef value h =
      let spaceless : any is_space value ≡ false = ground (arith, h) in
      (
        spaceless,
        elim (Bool-cases (env_credential_ref value)) [
          | inl e ↦ inl e
          | inr e ↦ inr (partition-IsProviderRef value _ refl (ground (arith, h, e)))
        ],
      )

  -- If a set of references is accepted, each of them is without white space and is the name of an
  -- environment variable, or a provider and a key around its first colon: env and such a name, or a
  -- provider's name and a key of the provider's form.
  pub validate_credential_refs-IsLookupRef :
      (refs : List (String × String))
      → validate_credential_refs is_space refs ≡ ok tt
      → All (λ r. (any is_space (codes r.1) ≡ false) × IsLookupRef (codes r.1)) refs
  unfolding validate_credential_refs
  validate_credential_refs-IsLookupRef [] h = tt
  validate_credential_refs-IsLookupRef ((name, value) ∷ refs) h =
      let (valid, rest) =
        require->>-ok (is_valid_credential_ref is_space (codes value)) value_error _ h in
      (
        is_valid_credential_ref-IsLookupRef (codes value) valid,
        validate_credential_refs-IsLookupRef refs rest,
      )
