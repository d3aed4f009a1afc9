-- ===== src/Adapters/Verification/Approval/Deciding.antt =====
-- core/contracts/verification.py: a module is cleared for execution only through one candidate.
use gxassessms.Base.{
  ◌≡◌, refl, ap, subst, arith, Bool-cases, inl, inr, String, true, false, some, List, [], ◌∷◌, ◌++◌,
  select, any,
}
use gxassessms.Adapters.Verification.Policies.{ModulePolicy}
use gxassessms.Adapters.Verification.Approval.{
  CandidateOutcome, can_execute, is_executable, by_provenance, by_execution, apply_approval_logic,
}

-- the only candidate of a list that can be executed
abbrev pub IsOnlyExecutable : CandidateOutcome → List CandidateOutcome → Type 0
IsOnlyExecutable c candidates =
    (before : List CandidateOutcome) × (after : List CandidateOutcome) × (candidates
      ≡ before ++ c ∷ after)
    × (is_executable c ≡ true)
    × (any is_executable before ≡ false)
    × (any is_executable after ≡ false)

any-select :
    (cs : List CandidateOutcome) → select is_executable cs ≡ [] → any is_executable cs ≡ false
unfolding any
any-select [] h = refl
any-select (c ∷ cs) h = elim (Bool-cases (is_executable c)) [
  | inl e ↦ let h' = rw e at h in ground (arith, h')
  | inr e ↦ rw e (any-select cs (rw e at h))
]

select-IsOnlyExecutable :
    (c : CandidateOutcome) (cs : List CandidateOutcome)
    → select is_executable cs ≡ c ∷ []
    → IsOnlyExecutable c cs
unfolding any
select-IsOnlyExecutable c [] h = ground arith
select-IsOnlyExecutable c (d ∷ cs) h = elim (Bool-cases (is_executable d)) [
  | inl e ↦
      let h' = rw e at h in
      let same : d ≡ c = ground (arith, h') in
      let others : select is_executable cs ≡ [] = ground (arith, h') in
      (
        [],
        cs,
        ap (λ x. x ∷ cs) same,
        subst (λ x. is_executable x ≡ true) same e,
        refl,
        any-select cs others,
      )
  | inr e ↦
      let (before, after, split, runs, none_before, none_after) =
        select-IsOnlyExecutable c cs (rw e at h) in
      (d ∷ before, after, ap (λ x. d ∷ x) split, runs, rw e none_before, none_after)
]

module _ (candidates : List CandidateOutcome) (policy : ModulePolicy)
    (powershell_executable : String) (required_modules_logged : List String) where
  by_provenance-blocked :
      (cs : List CandidateOutcome)
      → can_execute
          (by_provenance candidates policy powershell_executable required_modules_logged cs)
        ≡ false
  by_provenance-blocked [] = refl
  by_provenance-blocked (c ∷ []) = refl
  by_provenance-blocked (c ∷ d ∷ cs) = refl

  by_execution-one :
      (found provenance_only : List CandidateOutcome)
      → select is_executable candidates ≡ found
      → can_execute (
          by_execution candidates policy powershell_executable required_modules_logged found
            provenance_only)
        ≡ true
      → (c : CandidateOutcome) × ((by_execution candidates policy powershell_executable
            required_modules_logged found provenance_only).approved_candidate
          ≡ some c)
        × IsOnlyExecutable c candidates
  by_execution-one [] provenance_only selected h =
      ground (arith, by_provenance-blocked provenance_only, h)
  by_execution-one (c ∷ []) provenance_only selected h =
      (c, refl, select-IsOnlyExecutable c candidates selected)
  by_execution-one (c ∷ d ∷ cs) provenance_only selected h = ground arith

-- If the decision clears a module for execution, the approved candidate is the only one of the
-- candidates that is both of approved provenance and executable.
pub apply_approval_logic-IsOnlyExecutable :
    (candidates : List CandidateOutcome) (policy : ModulePolicy) (powershell_executable : String)
    (required_modules_logged : List String)
    → can_execute
        (apply_approval_logic candidates policy powershell_executable required_modules_logged)
      ≡ true
    → (c : CandidateOutcome) × ((apply_approval_logic candidates policy powershell_executable
          required_modules_logged).approved_candidate
        ≡ some c)
      × IsOnlyExecutable c candidates
unfolding apply_approval_logic
apply_approval_logic-IsOnlyExecutable [] policy exe modules h = ground arith
apply_approval_logic-IsOnlyExecutable (c ∷ cs) policy exe modules h =
    by_execution-one (c ∷ cs) policy exe modules (select is_executable (c ∷ cs))
      (select (λ c. c.provenance_approved) (c ∷ cs)) refl h
