-- ===== src/Adapters/Verification/Approval.antt =====
-- core/contracts/verification.py: the decision over the candidates for a module.
pub mod Deciding
use gxassessms.Base.{String, Bool, true, false, Option, none, some, List, [], ◌∷◌, ◌&&◌, select}
use gxassessms.Adapters.Verification.Policies.{ModulePolicy}

pub record CandidateOutcome : Type 0 where
  pub version : String
  pub live_manifest_path : String
  pub live_module_root : String
  pub staged_manifest_path : Option String
  pub staged_module_root : Option String
  pub provenance_approved : Bool
  pub execution_supported : Bool
  pub rejection_reasons : List String
  pub confinement_violation : Option String
  pub package_hash : Option String
  pub hash_approved : Bool
  pub live_signature_status : Option String
  pub live_signer_subject : Option String
  pub live_signer_issuer : Option String
  pub live_signer_thumbprint : Option String
  pub staged_signature_status : Option String
  pub staged_signer_subject : Option String
  pub staged_signer_issuer : Option String
  pub staged_signer_thumbprint : Option String
  pub staged_signer_approved : Option Bool
  pub evidence_path : Option String

pub record ModuleVerificationResult : Type 0 where
  pub module_name : String
  pub provenance_approved : Bool
  pub execution_supported : Bool
  pub evidence_path : Option String
  pub rejection_reasons : List String
  pub approved_candidate : Option CandidateOutcome
  pub candidates : List CandidateOutcome
  pub required_modules_logged : List String
  pub powershell_executable : String

-- ModuleVerificationResult.can_execute
abbrev pub can_execute : ModuleVerificationResult → Bool
can_execute r = r.provenance_approved && r.execution_supported

abbrev pub is_executable : CandidateOutcome → Bool
is_executable c = c.provenance_approved && c.execution_supported

module _ (candidates : List CandidateOutcome) (policy : ModulePolicy)
    (powershell_executable : String) (required_modules_logged : List String) where
  -- _result
  abbrev pub result :
      Bool → Bool → Option String → List String → Option CandidateOutcome → ModuleVerificationResult
  result provenance_approved execution_supported evidence_path rejection_reasons approved = record {
    module_name = policy.module_name;
    provenance_approved = provenance_approved;
    execution_supported = execution_supported;
    evidence_path = evidence_path;
    rejection_reasons = rejection_reasons;
    approved_candidate = approved;
    candidates = candidates;
    required_modules_logged = required_modules_logged;
    powershell_executable = powershell_executable;
  }

  -- by the candidates of approved provenance, where none can be executed
  abbrev pub by_provenance : List CandidateOutcome → ModuleVerificationResult
  by_provenance [] = result false false none ("provenance_rejected" ∷ []) none
  by_provenance (winner ∷ []) = result true false winner.evidence_path [] (some winner)
  by_provenance (a ∷ b ∷ rest) = result false false none ("ambiguity" ∷ []) none

  -- by the candidates that can be executed
  abbrev pub by_execution : List CandidateOutcome → List CandidateOutcome → ModuleVerificationResult
  by_execution [] provenance_only = by_provenance provenance_only
  by_execution (winner ∷ []) provenance_only =
      result true true winner.evidence_path [] (some winner)
  by_execution (a ∷ b ∷ rest) provenance_only = result false true none ("ambiguity" ∷ []) none

  abbrev pub decide : List CandidateOutcome → ModuleVerificationResult
  decide [] = result false false none ("no_candidates" ∷ []) none
  decide (c ∷ cs) =
      by_execution (select is_executable (c ∷ cs)) (select (λ c. c.provenance_approved) (c ∷ cs))

  unfoldable pub apply_approval_logic : ModuleVerificationResult
  apply_approval_logic = decide candidates
