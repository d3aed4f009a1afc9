-- ===== src/Adapters/Verification/Verifying/Cleared.antt =====
-- adapters/_verification.py and _base.py: a tool has run only if its command is allowed and the report of
-- its module clears it, and no temporary directory stays behind.
use gxassessms.Base.{
  ℕ, ◌≡◌, refl, ap, subst, ◌∙◌, arith, Bool-cases, inl, inr, String, Bool, true, not, ◌||◌, Option,
  some, List, str_eq, contains, select, eq_refl, eq_iff, ◌⊎◌, false, [], ◌∷◌,
}
use gxassessms.Errors.{Result, ok, err, adapter_error, >>=-ok, require->>-ok, ok_injective}
use gxassessms.Json.{truthy}
use gxassessms.Adapters.Processes.{Run, timed_out, inaccessible, exited, killed}
use gxassessms.Adapters.Verification.Versions.{Unicode}
use gxassessms.Adapters.Verification.Policies.{
  ModulePolicy, ModulePolicyOverride, InputBlob, Invocation, VerificationMode, collection,
  build_input_blob,
}
use gxassessms.Adapters.Verification.Verifying.{
  Shell, Report, returns_zero, is_collection, parse_verification_report, verify_below, within,
  with_blob, verify_module, run_verified_powershell,
}

module _ (shell : Shell) where
  -- the run of the template in a temporary directory, its report, and what the report says
  abbrev pub IsCleared : InputBlob → ℕ → Report → Type 0
  IsCleared blob timeout_seconds report =
      (dir : String) × (shell.mkdtemp ≡ ok dir)
      × (shell.write_input dir blob ≡ ok tt)
      × (shell.run dir timeout_seconds ≡ exited 0)
      × (parse_verification_report shell dir ≡ ok report)
      × (truthy report.provenance_approved ≡ true)
      × (truthy report.execution_supported ≡ true)

  returns_zero-exited :
      (run : Run) (succeeded : Bool)
      → returns_zero shell run ≡ ok succeeded
      → succeeded ≡ true
      → run ≡ exited 0
  returns_zero-exited timed_out succeeded h s = ground arith
  returns_zero-exited inaccessible succeeded h s = ground arith
  returns_zero-exited (killed signal) succeeded h s = ground arith
  returns_zero-exited (exited code) succeeded h s =
      let zero : code ≡ 0 = ground (arith, h, s) in ap exited zero

  within-IsCleared :
      (blob : InputBlob) (timeout_seconds : ℕ) (made : Result String) (report : Report)
      (temp temp' : List String)
      → shell.mkdtemp ≡ made
      → within shell (verify_below shell blob collection timeout_seconds) made temp
        ≡ (ok report, temp')
      → IsCleared blob timeout_seconds report
  unfolding verify_below
  within-IsCleared blob timeout_seconds (err e) report temp temp' at_made h =
      ground (arith, ap (λ r. r.0) h)
  within-IsCleared blob timeout_seconds (ok dir) report temp temp' at_made h =
      let (u1, written, h1) = >>=-ok (shell.write_input dir blob) _ (ap (λ r. r.0) h) in
      let (succeeded, ran, h2) = >>=-ok (returns_zero shell (shell.run dir timeout_seconds)) _ h1 in
      let (report', reported, h3) = >>=-ok (parse_verification_report shell dir) _ h2 in
      let (approved, h4) = require->>-ok (truthy report'.provenance_approved) adapter_error _ h3 in
      let (supported, h5) = require->>-ok (truthy report'.execution_supported) adapter_error _ h4 in
      let (ended, h6) =
        require->>-ok (succeeded || not (is_collection shell collection)) adapter_error _ h5 in
      let same = ok_injective h6 in
      let success : succeeded ≡ true = ground (arith, ended) in
      (
        dir,
        at_made,
        written,
        returns_zero-exited (shell.run dir timeout_seconds) succeeded ran success,
        reported ∙ ap ok same,
        subst (λ r. truthy r.provenance_approved ≡ true) same approved,
        subst (λ r. truthy r.execution_supported ≡ true) same supported,
      )

  with_blob-IsCleared :
      (made : Result InputBlob) (timeout_seconds : ℕ) (report : Report) (temp temp' : List String)
      → with_blob shell collection timeout_seconds made temp ≡ (ok report, temp')
      → (blob : InputBlob) × (made ≡ ok blob) × IsCleared blob timeout_seconds report
  with_blob-IsCleared (err e) timeout_seconds report temp temp' h = ground (arith, ap (λ r. r.0) h)
  with_blob-IsCleared (ok blob) timeout_seconds report temp temp' h =
      (blob, refl, within-IsCleared blob timeout_seconds shell.mkdtemp report temp temp' refl h)

  module _ (u : Unicode) (text_le : String → String → Bool) where
    -- If a verified run of a tool succeeds, its command is on the allowlist, and the run was that of the
    -- template on the input built from the policy and the override, in a temporary directory: it exited
    -- with 0, and its report says that provenance is approved and execution supported.
    pub run_verified_powershell-IsCleared :
        (policy : ModulePolicy) (allowed_commands : List String) (invocation : Invocation)
        (override : Option ModulePolicyOverride) (timeout_seconds : ℕ) (temp temp' : List String)
        (report : Report)
        → run_verified_powershell shell u text_le policy allowed_commands invocation override
            timeout_seconds temp
          ≡ (ok report, temp')
        → (contains str_eq invocation.command_name allowed_commands ≡ true)
          × ((blob : InputBlob) × (build_input_blob u text_le policy override collection
                  (some invocation)
                ≡ ok blob)
              × IsCleared blob timeout_seconds report)
    unfolding run_verified_powershell verify_module
    run_verified_powershell-IsCleared policy allowed_commands invocation override timeout_seconds
          temp temp' report h =
        elim (Bool-cases (contains str_eq invocation.command_name allowed_commands)) [
          | inl allowed ↦ (
            allowed,
            with_blob-IsCleared
                (build_input_blob u text_le policy override collection (some invocation))
                timeout_seconds report temp temp' (rw allowed at h),
          )
          | inr refused ↦ let h' = rw refused at h in ground (arith, ap (λ r. r.0) h')
        ]

    rmtree-create :
        (dir : String) (temp : List String)
        → contains str_eq dir temp ≡ false
        → select (λ d. not (str_eq d dir)) (dir ∷ temp) ≡ temp
    unfolding contains
    rmtree-create dir temp fresh = rw (eq_refl dir) (others temp fresh)
      where
        others :
            (ds : List String)
            → contains str_eq dir ds ≡ false
            → select (λ d. not (str_eq d dir)) ds ≡ ds
        others [] h = refl
        others (d ∷ ds) h = ground (arith, h, eq_iff d dir, eq_iff dir d, others ds)

    -- the temporary directories are the ones there were, or one more, which could not be removed
    abbrev pub IsCleanedUp : List String → List String → Type 0
    IsCleanedUp temp temp' =
        (temp' ≡ temp)
        ⊎ ((dir : String) × (shell.mkdtemp ≡ ok dir)
            × (shell.removes dir ≡ false)
            × (temp' ≡ dir ∷ temp))

    within-IsCleanedUp :
        (body : String → Result Report) (made : Result String) (temp : List String)
        → shell.mkdtemp ≡ made
        → ((dir : String) → shell.mkdtemp ≡ ok dir → contains str_eq dir temp ≡ false)
        → IsCleanedUp temp (within shell body made temp).1
    within-IsCleanedUp body (err e) temp own fresh = inl refl
    within-IsCleanedUp body (ok dir) temp own fresh = elim (Bool-cases (shell.removes dir)) [
      | inl can ↦ rw can (inl (rmtree-create dir temp (fresh dir own)))
      | inr cannot ↦ rw cannot (inr (dir, own, cannot, refl))
    ]

    with_blob-IsCleanedUp :
        (mode : VerificationMode) (timeout_seconds : ℕ) (made : Result InputBlob)
        (temp : List String)
        → ((dir : String) → shell.mkdtemp ≡ ok dir → contains str_eq dir temp ≡ false)
        → IsCleanedUp temp (with_blob shell mode timeout_seconds made temp).1
    with_blob-IsCleanedUp mode timeout_seconds (err e) temp fresh = inl refl
    with_blob-IsCleanedUp mode timeout_seconds (ok blob) temp fresh =
        within-IsCleanedUp (verify_below shell blob mode timeout_seconds) shell.mkdtemp temp refl
          fresh

    -- If mkdtemp gives a directory that was not there, a verification leaves, however it ends, also where
    -- it raises, the temporary directories that there were, or these and the one of its own where that
    -- could not be removed.
    pub verify_module-IsCleanedUp :
        (policy : ModulePolicy) (override : Option ModulePolicyOverride) (mode : VerificationMode)
        (invocation : Option Invocation) (timeout_seconds : ℕ) (temp : List String)
        → ((dir : String) → shell.mkdtemp ≡ ok dir → contains str_eq dir temp ≡ false)
        → IsCleanedUp temp
            (verify_module shell u text_le policy override mode invocation timeout_seconds temp).1
    unfolding verify_module
    verify_module-IsCleanedUp policy override mode invocation timeout_seconds temp fresh =
        with_blob-IsCleanedUp mode timeout_seconds
          (build_input_blob u text_le policy override mode invocation) temp fresh
