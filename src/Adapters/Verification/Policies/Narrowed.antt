-- ===== src/Adapters/Verification/Policies/Narrowed.antt =====
-- core/contracts/verification.py and adapters/_verification.py: configuration narrows what the code
-- approves, and never widens it.
use gxassessms.Base.{
  ◌≡◌, refl, sym, ap, subst, ◌∙◌, arith, String, Bool, true, Option, none, some, List, [], ◌∷◌,
  str_eq, eq_refl, contains, all, All-sort_by, All, Chars, codes, starts_with,
}
use gxassessms.Errors.{ok, value_error, >>=-ok, require->>-ok, ok_injective}
use gxassessms.Adapters.Verification.Versions.{Unicode, version_satisfies_range}
use gxassessms.Adapters.Verification.Versions.Pinned.{pinned, version_satisfies_range-pinned}
use gxassessms.Adapters.Verification.Policies.{
  ModulePolicy, ModulePolicyOverride, InputBlob, VerificationMode, Invocation, pin_of, validate_pin,
  validate_override, effective_range, effective_hashes, is_approved, build_input_blob,
}

-- a range that starts with `==` is a pin
starts-pinned :
    (u : Unicode) (cs : Chars) → starts_with (codes "==") cs ≡ true → cs ≡ pinned u (pin_of cs)
starts-pinned u [] h = ground arith
starts-pinned u (a ∷ []) h = ground arith
starts-pinned u (a ∷ b ∷ cs) h = ground (arith, h)

All-all : {A : Type 0} (p : A → Bool) (xs : List A) → all p xs ≡ true → All (λ x. p x ≡ true) xs
unfolding all
All-all p [] h = tt
All-all p (x ∷ xs) h = (ground (arith, h), All-all p xs (ground (arith, h)))

All-contains :
    (h : String) (hs xs : List String)
    → All (λ x. contains str_eq x hs ≡ true) xs
    → All (λ x. contains str_eq x (h ∷ hs) ≡ true) xs
unfolding contains
All-contains h hs [] all_in = tt
All-contains h hs (x ∷ xs) all_in = (ground (arith, all_in.0), All-contains h hs xs all_in.1)

-- each member of a set is in it
each_contained : (hs : List String) → All (λ h. contains str_eq h hs ≡ true) hs
unfolding contains
each_contained [] = tt
each_contained (h ∷ hs) = (rw (eq_refl h) refl, All-contains h hs hs (each_contained hs))

module _ (u : Unicode) (text_le : String → String → Bool) where
  effective_range-narrows :
      (policy : ModulePolicy) (range : Option Chars) (effective version : Chars)
      → validate_pin u text_le range ≡ ok tt
      → effective_range u text_le policy range ≡ ok effective
      → version_satisfies_range u version effective ≡ ok true
      → version_satisfies_range u version policy.version_range ≡ ok true
  unfolding effective_range validate_pin
  effective_range-narrows policy none effective version valid h admits =
      subst (λ r. version_satisfies_range u version r ≡ ok true) (sym (ok_injective h)) admits
  effective_range-narrows policy (some range) effective version valid h admits =
      let (starts, v1) = require->>-ok (starts_with (codes "==") range) value_error _ valid in
      let (satisfied, by_policy, h1) =
        >>=-ok (version_satisfies_range u (pin_of range) policy.version_range) _ h in
      let (is_satisfied, h2) = require->>-ok satisfied value_error _ h1 in
      let is_pin : effective ≡ pinned u (pin_of range) =
        sym (ok_injective h2) ∙ starts-pinned u range starts in
      version_satisfies_range-pinned u (pin_of range) version policy.version_range
        (by_policy ∙ ap ok is_satisfied)
        (subst (λ r. version_satisfies_range u version r ≡ ok true) is_pin admits)

  effective_hashes-approved :
      (policy : ModulePolicy) (pins : Option (List String)) (effective : List String)
      → effective_hashes u text_le policy pins ≡ ok effective
      → All (λ h. is_approved u text_le policy h ≡ true) effective
  unfolding effective_hashes
  effective_hashes-approved policy none effective h =
      subst (All (λ h. is_approved u text_le policy h ≡ true)) (ok_injective h) (
        All-sort_by text_le (λ h. is_approved u text_le policy h ≡ true)
          policy.approved_package_hashes (each_contained policy.approved_package_hashes))
  effective_hashes-approved policy (some pins) effective h =
      let (approved, h1) =
        require->>-ok (all (is_approved u text_le policy) pins) value_error _ h in
      subst (All (λ h. is_approved u text_le policy h ≡ true)) (ok_injective h1) (
        All-sort_by text_le (λ h. is_approved u text_le policy h ≡ true) pins
          (All-all (is_approved u text_le policy) pins approved))

  -- Whatever valid override the configuration has, if the input of a verification is built, each hash in
  -- it is one that the policy approves, and a version that its range admits is admitted by the policy's.
  pub build_input_blob_narrows :
      (policy : ModulePolicy) (override : ModulePolicyOverride) (mode : VerificationMode)
      (invocation : Option Invocation) (blob : InputBlob) (version : Chars)
      → validate_override u text_le override ≡ ok tt
      → build_input_blob u text_le policy (some override) mode invocation ≡ ok blob
      → version_satisfies_range u version blob.effective_version_range ≡ ok true
      → All
          (λ h. contains str_eq h policy.approved_package_hashes ≡ true)
          blob.effective_approved_hashes
        × (version_satisfies_range u version policy.version_range ≡ ok true)
  unfolding build_input_blob validate_override
  build_input_blob_narrows policy override mode invocation blob version valid h admits =
      let (p, valid_pin, v1) = >>=-ok (validate_pin u text_le override.version_range) _ valid in
      let (range, ranged, h1) =
        >>=-ok (effective_range u text_le policy override.version_range) _ h in
      let (hashes, hashed, h2) =
        >>=-ok (effective_hashes u text_le policy override.pinned_package_hashes) _ h1 in
      let out = ok_injective h2 in
      let in_range : range ≡ blob.effective_version_range =
        ap (λ b. b.effective_version_range) out in
      let in_hashes : hashes ≡ blob.effective_approved_hashes =
        ap (λ b. b.effective_approved_hashes) out in
      (
        subst (All (λ h. contains str_eq h policy.approved_package_hashes ≡ true)) in_hashes
            (effective_hashes-approved policy override.pinned_package_hashes hashes hashed),
        effective_range-narrows policy override.version_range range version valid_pin ranged
            (subst (λ r. version_satisfies_range u version r ≡ ok true) (sym in_range) admits),
      )
