-- ===== src/Examples/Verifying.antt =====
-- The theorems on the verification of modules, on arguments and on collected files at small inputs.
use gxassessms.Base.{
  ℕ, ◌-◌, ◌≡◌, refl, arith, String, Bool, true, false, Option, none, some, List, [], ◌∷◌, ◌==◌,
  ◌||◌, leb, str_eq, contains, all, lookup, split_on, sort_by, All, codes, if◌then◌else◌,
}
use gxassessms.Errors.{ok}
use gxassessms.Json.{Json, text, bool, object, field, end, truthy}
use gxassessms.Adapters.Processes.{exited}
use gxassessms.Adapters.Verification.Versions.{
  Unicode, chomp, rstrip, lstrip, strip, number, number_from, match_semver, parse_semver,
  parse_constraint, all_hold, version_satisfies_range,
}
use gxassessms.Adapters.Verification.Policies.{
  ModulePolicy, ModulePolicyOverride, InputBlob, Invocation, collection, validate_pin,
  validate_hashes, validate_override, effective_range, effective_hashes, build_input_blob,
}
use gxassessms.Adapters.Verification.Policies.Narrowed.{build_input_blob_narrows}
use gxassessms.Adapters.Verification.Approval.{CandidateOutcome, can_execute, apply_approval_logic}
use gxassessms.Adapters.Verification.Approval.Deciding.{
  IsOnlyExecutable, apply_approval_logic-IsOnlyExecutable,
}
use gxassessms.Adapters.Verification.Verifying.{
  Shell, Report, parse_candidates, parse_approved, parse_result, parse_verification_report,
  verify_below, verify_module, run_verified_powershell,
}
use gxassessms.Adapters.Verification.Verifying.Cleared.{
  IsCleared, run_verified_powershell-IsCleared, IsCleanedUp, verify_module-IsCleanedUp,
}

abbrev digit : ℕ → Option ℕ
digit c = if leb 48 c then if leb c 57 then some (c - 48) else none else none

abbrev space : ℕ → Bool
space c = c == 10 || c == 32

pub digit-space : (c d : ℕ) → digit c ≡ some d → space c ≡ false
digit-space c d h = ground arith

abbrev pub unicode : Unicode
unicode = record {
  digit_value = digit;
  is_space = space;
  digit_no_space = digit-space;
  comma_no_digit = refl;
  newline_space = refl;
  dot_no_space = refl;
  equals_no_space = refl;
}

abbrev pub order : String → String → Bool
order s t = true

abbrev policy : ModulePolicy
policy = record {
  module_name = "ScubaGear";
  version_range = codes ">=1.5.0,<2.0.0";
  allowed_signers = record { subject = "CN=Microsoft"; issuer = "CN=PCA" } ∷ [];
  approved_package_hashes = "sha256tree:v1:00" ∷ "sha256tree:v1:01" ∷ [];
  allow_package_hash_fallback = true;
}

abbrev narrowing : ModulePolicyOverride
narrowing = record {
  version_range = some (codes "==1.5.2");
  pinned_package_hashes = some ("sha256tree:v1:01" ∷ []);
}

abbrev invocation : Invocation
invocation = record { command_name = "Invoke-SCuBA"; named_args = []; switches = [] }

abbrev blob : InputBlob
blob = record {
  module_name = "ScubaGear";
  effective_version_range = codes "==1.5.2";
  effective_approved_hashes = "sha256tree:v1:01" ∷ [];
  allowed_signers = record { subject = "CN=Microsoft"; issuer = "CN=PCA" } ∷ [];
  allow_package_hash_fallback = true;
  mode = collection;
  post_import_invocation = some invocation;
}

narrowing_holds : validate_override unicode order narrowing ≡ ok tt
unfolding validate_override validate_pin validate_hashes parse_semver match_semver chomp split_on
    number number_from all
narrowing_holds = refl

blob_built :
    build_input_blob unicode order policy (some narrowing) collection (some invocation) ≡ ok blob
unfolding build_input_blob effective_range effective_hashes version_satisfies_range parse_semver
    match_semver chomp split_on number number_from all_hold parse_constraint strip lstrip rstrip all
    contains sort_by
blob_built = refl

admitted : version_satisfies_range unicode (codes "1.5.2") (codes "==1.5.2") ≡ ok true
unfolding version_satisfies_range parse_semver match_semver chomp split_on number number_from
    all_hold parse_constraint strip lstrip rstrip
admitted = refl

build_input_blob_narrows_example :
    All
      (λ h. contains str_eq h policy.approved_package_hashes ≡ true)
      blob.effective_approved_hashes
    × (version_satisfies_range unicode (codes "1.5.2") policy.version_range ≡ ok true)
build_input_blob_narrows_example =
    build_input_blob_narrows unicode order policy narrowing collection (some invocation) blob
      (codes "1.5.2") narrowing_holds blob_built admitted

abbrev candidate : CandidateOutcome
candidate = record {
  version = "1.5.2";
  live_manifest_path = "/m/ScubaGear.psd1";
  live_module_root = "/m";
  staged_manifest_path = none;
  staged_module_root = none;
  provenance_approved = true;
  execution_supported = true;
  rejection_reasons = [];
  confinement_violation = none;
  package_hash = some "sha256tree:v1:01";
  hash_approved = true;
  live_signature_status = none;
  live_signer_subject = none;
  live_signer_issuer = none;
  live_signer_thumbprint = none;
  staged_signature_status = none;
  staged_signer_subject = none;
  staged_signer_issuer = none;
  staged_signer_thumbprint = none;
  staged_signer_approved = none;
  evidence_path = some "hash_only";
}

abbrev candidates : List CandidateOutcome
candidates = record candidate { provenance_approved = false } ∷ candidate ∷ []

cleared : can_execute (apply_approval_logic candidates policy "pwsh" []) ≡ true
unfolding apply_approval_logic
cleared = refl

apply_approval_logic-IsOnlyExecutable_example :
    (c : CandidateOutcome) × ((apply_approval_logic candidates policy "pwsh" []).approved_candidate
      ≡ some c)
    × IsOnlyExecutable c candidates
apply_approval_logic-IsOnlyExecutable_example =
    apply_approval_logic-IsOnlyExecutable candidates policy "pwsh" [] cleared

abbrev report_json : Json
report_json = object (
    field "module_name" (text "ScubaGear")
      (field "provenance_approved" (bool true) (field "execution_supported" (bool true) end)))

abbrev pub report : Report
report = record {
  module_name = text "ScubaGear";
  provenance_approved = bool true;
  execution_supported = bool true;
  rejection_reasons = [];
  approved_candidate = none;
  candidates = [];
  required_modules_logged = [];
}

abbrev pub shell : Shell
shell = record {
  mkdtemp = ok "/tmp/v";
  write_input = λ dir blob. ok tt;
  run = λ dir timeout. exited 0;
  read_report = λ dir. ok "{...}";
  is_blank = λ s. false;
  loads = λ s. ok report_json;
  characters = λ s. [];
  removes = λ dir. true;
}

verified :
    run_verified_powershell shell unicode order policy
      ("Invoke-SCuBA" ∷ [])
      invocation
      (some narrowing)
      60
      []
    ≡ (ok report, [])
unfolding run_verified_powershell verify_module verify_below parse_verification_report parse_result
    parse_candidates parse_approved truthy lookup contains build_input_blob effective_range
    effective_hashes version_satisfies_range parse_semver match_semver chomp split_on number
    number_from all_hold parse_constraint strip lstrip rstrip all sort_by
verified = refl

run_verified_powershell-IsCleared_example :
    (contains str_eq "Invoke-SCuBA" ("Invoke-SCuBA" ∷ []) ≡ true)
    × ((b : InputBlob) × (build_input_blob unicode order policy
            (some narrowing)
            collection
            (some invocation)
          ≡ ok b)
        × IsCleared shell b 60 report)
run_verified_powershell-IsCleared_example =
    run_verified_powershell-IsCleared shell unicode order policy ("Invoke-SCuBA" ∷ []) invocation
      (some narrowing) 60 [] [] report verified

none_there : (dir : String) → shell.mkdtemp ≡ ok dir → contains str_eq dir [] ≡ false
unfolding contains
none_there dir made = refl

verify_module-IsCleanedUp_example :
    IsCleanedUp shell unicode order []
      (verify_module shell unicode order policy
        (some narrowing)
        collection
        (some invocation)
        60
        []).1
verify_module-IsCleanedUp_example =
    verify_module-IsCleanedUp shell unicode order policy (some narrowing) collection
      (some invocation) 60 [] none_there
