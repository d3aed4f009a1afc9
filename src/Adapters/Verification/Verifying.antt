-- ===== src/Adapters/Verification/Verifying.antt =====
-- core/contracts/verification.py: reading a verification's report; and adapters/_verification.py and
-- _base.py: the run of a verification, and of a tool behind it. Temporary directories are a list; the
-- file system and subprocess are a parameter.
pub mod Cleared
use gxassessms.Base.{
  ℕ, String, Bool, true, false, not, Option, none, some, List, [], ◌∷◌, ◌==◌, ◌&&◌, ◌||◌, str_eq,
  contains, lookup, select, if◌then◌else◌,
}
use gxassessms.Errors.{
  Error, Result, ok, err, require, adapter_error, value_error, os_error, type_error, other_error,
  attribute_error, ◌>>=◌, ◌>>◌,
}
use gxassessms.Json.{
  Json, Object, nil, text, array, object, null, bool, number, items, fields, as_object, truthy,
  get_or_default,
}
use gxassessms.Adapters.Processes.{Run, timed_out, inaccessible, exited, killed}
use gxassessms.Adapters.Verification.Versions.{Unicode}
use gxassessms.Adapters.Verification.Policies.{
  ModulePolicy, ModulePolicyOverride, InputBlob, Invocation, VerificationMode, preflight,
  collection, build_input_blob,
}

-- a CandidateOutcome that is read from JSON, whose fields nothing checks. `others` is the whole object, for
-- the fields that are only passed on.
pub record ReadCandidate : Type 0 where
  pub provenance_approved : Json
  pub execution_supported : Json
  pub version : Json
  pub rejection_reasons : List Json
  pub others : Object

-- a ModuleVerificationResult that is read from JSON
pub record Report : Type 0 where
  pub module_name : Json
  pub provenance_approved : Json
  pub execution_supported : Json
  pub rejection_reasons : List Json
  pub approved_candidate : Option ReadCandidate
  pub candidates : List ReadCandidate
  pub required_modules_logged : List Json

pub record Shell : Type 0 where
  pub mkdtemp : Result String
  -- the writing of input.json below a directory
  pub write_input : String → InputBlob → Result (Unit {0})
  -- the run of the template on a directory's input
  pub run : String → ℕ → Run
  -- the text of report.json below a directory; reading may raise
  pub read_report : String → Result String
  pub is_blank : String → Bool
  pub loads : String → Result Json
  -- the characters of a text, each a text
  pub characters : String → List Json
  -- whether shutil.rmtree removes a directory; where it fails, it only warns
  pub removes : String → Bool

-- d[key]: a KeyError or, where the value is no dict, a TypeError
abbrev pub index : String → Json → Result Json
index key (object fs) = or_missing (lookup key (fields fs))
  where
    or_missing : Option Json → Result Json
    or_missing none = err other_error
    or_missing (some j) = ok j
index key _ = err type_error

abbrev pub keys : Object → List Json
keys [] = []
keys ((k, j) ∷ o) = text k ∷ keys o

-- `except (KeyError, TypeError) as exc: raise VerificationInfrastructureError(...)`
abbrev pub as_malformed : {A : Type 0} → Result A → Result A
as_malformed (ok a) = ok a
as_malformed (err other_error) = err adapter_error
as_malformed (err type_error) = err adapter_error
as_malformed (err e) = err e

-- `except OSError as exc: raise VerificationInfrastructureError(...)`
abbrev pub as_missing : {A : Type 0} → Result A → Result A
as_missing (ok a) = ok a
as_missing (err os_error) = err adapter_error
as_missing (err e) = err e

-- `except json.JSONDecodeError as exc: raise VerificationInfrastructureError(...)`
abbrev pub as_malformed_json : {A : Type 0} → Result A → Result A
as_malformed_json (ok a) = ok a
as_malformed_json (err value_error) = err adapter_error
as_malformed_json (err e) = err e

-- data.get(...), which a value that is no dict does not have
abbrev pub as_dict : Json → Result Object
as_dict (object fs) = ok (fields fs)
as_dict _ = err attribute_error

module _ (shell : Shell) where
  -- what a loop over a value goes through
  abbrev pub iterate : Json → Result (List Json)
  iterate (array js) = ok (items js)
  iterate (object fs) = ok (keys (fields fs))
  iterate (text s) = ok (shell.characters s)
  iterate null = err type_error
  iterate (bool b) = err type_error
  iterate (number n) = err type_error

  -- _parse_candidate
  unfoldable pub parse_candidate : Json → Result ReadCandidate
  unfolding lookup
  parse_candidate value = do
    version ← index "version" value
    live_manifest_path ← index "live_manifest_path" value
    live_module_root ← index "live_module_root" value
    others ← as_dict value
    provenance_approved ← index "provenance_approved" value
    execution_supported ← index "execution_supported" value
    rejection_reasons ← iterate (get_or_default (array nil) "rejection_reasons" others)
    ok (record {
      provenance_approved = provenance_approved;
      execution_supported = execution_supported;
      version = version;
      rejection_reasons = rejection_reasons;
      others = others;
    })

  unfoldable pub parse_candidates : List Json → Result (List ReadCandidate)
  unfolding parse_candidate
  parse_candidates [] = ok []
  parse_candidates (c ∷ cs) = do
    candidate ← parse_candidate c
    candidates ← parse_candidates cs
    ok (candidate ∷ candidates)

  unfoldable pub parse_approved : Json → Result (Option ReadCandidate)
  unfolding parse_candidate truthy
  parse_approved approved =
      let candidate = parse_candidate approved in
      if truthy approved then (candidate >>= λ c. ok (some c)) else ok none

  -- _parse_result
  unfoldable pub parse_result : Json → Result Report
  unfolding parse_candidates parse_approved lookup
  parse_result value = do
    report ← as_dict value
    module_name ← index "module_name" value
    provenance_approved ← index "provenance_approved" value
    execution_supported ← index "execution_supported" value
    rejection_reasons ← iterate (get_or_default (array nil) "rejection_reasons" report)
    approved ← parse_approved (get_or_default null "approved_candidate" report)
    candidates_raw ← iterate (get_or_default (array nil) "candidates" report)
    candidates ← parse_candidates candidates_raw
    modules ← iterate (get_or_default (array nil) "required_modules_logged" report)
    ok (record {
      module_name = module_name;
      provenance_approved = provenance_approved;
      execution_supported = execution_supported;
      rejection_reasons = rejection_reasons;
      approved_candidate = approved;
      candidates = candidates;
      required_modules_logged = modules;
    })

  unfoldable pub parse_verification_report : String → Result Report
  unfolding parse_result
  parse_verification_report dir = do
    contents ← as_missing (shell.read_report dir)
    require (not (shell.is_blank contents)) adapter_error
    value ← as_malformed_json (shell.loads contents)
    as_malformed (parse_result value)

  -- subprocess.run, whose return code is given where there is one: whether it is 0
  abbrev pub returns_zero : Run → Result Bool
  returns_zero timed_out = err adapter_error
  returns_zero inaccessible = err adapter_error
  returns_zero (exited code) = ok (code == 0)
  returns_zero (killed signal) = ok false

  abbrev pub is_collection : VerificationMode → Bool
  is_collection preflight = false
  is_collection collection = true

  -- what verify_module does below a temporary directory
  unfoldable pub verify_below : InputBlob → VerificationMode → ℕ → String → Result Report
  unfolding parse_verification_report truthy
  verify_below blob mode timeout_seconds dir = do
    shell.write_input dir blob
    succeeded ← returns_zero (shell.run dir timeout_seconds)
    report ← parse_verification_report dir
    require (truthy report.provenance_approved) adapter_error
    require (truthy report.execution_supported) adapter_error
    require (succeeded || not (is_collection mode)) adapter_error
    ok report

  -- tempfile.mkdtemp, of a directory that it names, and shutil.rmtree, which only warns where it fails
  abbrev pub create : String → List String → List String
  create dir temp = dir ∷ temp

  abbrev pub rmtree : String → List String → List String
  rmtree dir temp = if shell.removes dir then select (λ d. not (str_eq d dir)) temp else temp

  -- `try: ... finally: ...`, of a body that makes and removes no temporary directory
  abbrev pub finally :
      Result Report → (List String → List String) → List String → Result Report × List String
  finally outcome clean_up temp = (outcome, clean_up temp)

  abbrev pub within :
      (String → Result Report) → Result String → List String → Result Report × List String
  within body (err e) temp = (err e, temp)
  within body (ok dir) temp = finally (body dir) (rmtree dir) (create dir temp)

  abbrev pub with_blob :
      VerificationMode → ℕ → Result InputBlob → List String → Result Report × List String
  with_blob mode timeout_seconds (err e) temp = (err e, temp)
  with_blob mode timeout_seconds (ok blob) temp =
      within (verify_below blob mode timeout_seconds) shell.mkdtemp temp

  module _ (u : Unicode) (text_le : String → String → Bool) where
    unfoldable pub verify_module :
        ModulePolicy
        → Option ModulePolicyOverride
        → VerificationMode
        → Option Invocation
        → ℕ
        → List String
        → Result Report × List String
    unfolding verify_below build_input_blob
    verify_module policy override mode invocation timeout_seconds temp =
        with_blob mode timeout_seconds (build_input_blob u text_le policy override mode invocation)
          temp

    -- validate_command_allowlist, and verify_module in collection mode
    unfoldable pub run_verified_powershell :
        ModulePolicy
        → List String
        → Invocation
        → Option ModulePolicyOverride
        → ℕ
        → List String
        → Result Report × List String
    unfolding verify_module contains
    run_verified_powershell policy allowed_commands invocation override timeout_seconds temp =
        let verified =
          verify_module policy override collection (some invocation) timeout_seconds temp in
        if contains str_eq invocation.command_name allowed_commands
        then verified
        else (err value_error, temp)

    -- check_module_prerequisites: whether a module is satisfied, and the error that is passed on
    abbrev pub satisfied : Result Report → Result Bool
    satisfied (ok report) = ok true
    satisfied (err adapter_error) = ok false
    satisfied (err os_error) = ok false
    satisfied (err e) = err e

    unfoldable pub check_module_prerequisites :
        ModulePolicy → ℕ → List String → Result Bool × List String
    unfolding verify_module
    check_module_prerequisites policy timeout_seconds temp =
        let (report, temp') = verify_module policy none preflight none timeout_seconds temp in
        (satisfied report, temp')
