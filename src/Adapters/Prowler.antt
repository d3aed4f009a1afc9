-- ===== src/Adapters/Prowler.antt =====
-- adapters/prowler/adapter.py: the validation of Prowler's output, its parsing, and coverage. The
-- output files are a parameter, and what the parser takes from Python's library.
pub mod Parser
pub mod Commands
pub mod Observing
pub mod Covering
use gxassessms.Base.{
  String, Bool, true, false, not, Option, none, some, List, [], ◌∷◌, ◌++◌, str_eq, is_key, contains,
  lookup, add_to_group, if◌then◌else◌,
}
use gxassessms.Errors.{
  Result, ok, err, require, adapter_error, value_error, type_error, attribute_error, other_error,
  ◌>>=◌, ◌>>◌,
}
use gxassessms.Json.{Json, Object, as_object, as_array, as_text}
use gxassessms.Domain.Enums.{FindingStatus, pass, fail, manual, not_applicable}
use gxassessms.Domain.Findings.{ToolObservation, prowler, tool_value}
use gxassessms.Domain.Manifests.{ResolvedManifest, ArtifactRecord}
use gxassessms.Persistence.Store.{CoverageRow}
use gxassessms.Adapters.Outputs.{OutputFiles, load_json_file}
use gxassessms.Adapters.Prowler.Parser.{Texts, parse_prowler_findings}

-- STATUS_MAP
abbrev pub status_map : List (String × FindingStatus)
status_map = ("PASS", pass) ∷ ("FAIL", fail) ∷ ("MANUAL", manual) ∷ ("MUTED", not_applicable) ∷ []

-- `if ...: raise RawOutputValidationError(...)`, for a test that also yields a value
abbrev pub or_invalid : {A : Type 0} → Option A → Result A
or_invalid none = err adapter_error
or_invalid (some a) = ok a

-- d[key], which may raise KeyError
abbrev pub or_key_error : {A : Type 0} → Option A → Result A
or_key_error none = err other_error
or_key_error (some a) = ok a

-- each file's findings, under the file's path
abbrev pub Loaded : Type 0
Loaded = List (String × List Object)

abbrev pub any_entry : {A : Type 0} → List A → Bool
any_entry [] = false
any_entry (e ∷ es) = true

module _ (files : OutputFiles) where
  -- the checks of one finding
  unfoldable pub validate_finding : Json → Result Object
  unfolding lookup
  validate_finding value = do
    finding ← or_invalid (as_object value)
    info ← or_invalid (lookup "finding_info" finding)
    finding_info ← or_invalid (as_object info)
    raw_sc ← or_invalid (lookup "status_code" finding)
    status_code ← or_invalid (as_text raw_sc)
    require (not (str_eq status_code "")) adapter_error
    require (is_key status_code status_map) adapter_error
    raw_metadata ← or_invalid (lookup "metadata" finding)
    metadata ← or_invalid (as_object raw_metadata)
    raw_event_code ← or_invalid (lookup "event_code" metadata)
    event_code ← or_invalid (as_text raw_event_code)
    require (not (files.is_blank event_code)) adapter_error
    ok finding

  unfoldable pub validate_findings : List Json → Result (List Object)
  unfolding validate_finding
  validate_findings [] = ok []
  validate_findings (value ∷ values) = do
    finding ← validate_finding value
    findings ← validate_findings values
    ok (finding ∷ findings)

  unfoldable pub load_all : List (String × ArtifactRecord) → Result Loaded
  unfolding validate_findings load_json_file
  load_all [] = ok []
  load_all ((file_path, _) ∷ entries) = do
    data_value ← load_json_file files file_path
    values ← or_invalid (as_array data_value)
    findings ← validate_findings values
    rest ← load_all entries
    ok ((file_path, findings) ∷ rest)

  unfoldable pub validate_and_load : ResolvedManifest → Result Loaded
  unfolding load_all
  validate_and_load raw = do
    require (any_entry raw.file_manifest) adapter_error
    load_all raw.file_manifest

  unfoldable pub validate_raw : ResolvedManifest → Result (Unit {0})
  unfolding validate_and_load
  validate_raw raw = do all_findings ← validate_and_load raw; ok tt

  -- `except (KeyError, TypeError, ValueError, IndexError, AttributeError) as exc: raise ParseError(...)`
  abbrev pub as_parse_error : {A : Type 0} → Result A → Result A
  as_parse_error (ok a) = ok a
  as_parse_error (err value_error) = err adapter_error
  as_parse_error (err type_error) = err adapter_error
  as_parse_error (err attribute_error) = err adapter_error
  as_parse_error (err other_error) = err adapter_error
  as_parse_error (err e) = err e

  unfoldable pub parse_all : Texts → Loaded → Result (List ToolObservation)
  unfolding parse_prowler_findings
  parse_all texts [] = ok []
  parse_all texts ((file_path, findings) ∷ rest) = do
    observations ← as_parse_error (parse_prowler_findings texts file_path findings)
    others ← parse_all texts rest
    ok (observations ++ others)

  unfoldable pub parse : Texts → ResolvedManifest → Result (List ToolObservation)
  unfolding validate_and_load parse_all
  parse texts raw = do all_findings ← validate_and_load raw; parse_all texts all_findings

  -- check_statuses: the statuses of each check, in the order in which checks come up
  abbrev pub Statuses : Type 0
  Statuses = List (String × List String)

  unfoldable pub add_status : Object → Statuses → Result Statuses
  unfolding lookup add_to_group
  add_status f statuses = do
    raw_metadata ← or_key_error (lookup "metadata" f)
    metadata ← or_key_error (as_object raw_metadata)
    raw_check ← or_key_error (lookup "event_code" metadata)
    check_id ← or_key_error (as_text raw_check)
    raw_status ← or_key_error (lookup "status_code" f)
    status_code ← or_key_error (as_text raw_status)
    ok (add_to_group str_eq check_id status_code statuses)

  unfoldable pub add_statuses : List Object → Statuses → Result Statuses
  unfolding add_status
  add_statuses [] statuses = ok statuses
  add_statuses (f ∷ fs) statuses = do statuses' ← add_status f statuses; add_statuses fs statuses'

  abbrev pub all_of : Loaded → List Object
  all_of [] = []
  all_of ((file_path, findings) ∷ rest) = findings ++ all_of rest

  unfoldable pub coverage_record : String × List String → CoverageRow
  unfolding contains tool_value
  coverage_record (check_id, statuses) =
      if contains str_eq "MANUAL" statuses
      then record {
        control_id = check_id;
        tool_source = tool_value prowler;
        status = "partially_assessed";
        reason = some "Requires manual verification";
      }
      else record {
        control_id = check_id;
        tool_source = tool_value prowler;
        status = "assessed";
        reason = none;
      }

  unfoldable pub coverage_records : Statuses → List CoverageRow
  unfolding coverage_record
  coverage_records [] = []
  coverage_records (entry ∷ entries) = coverage_record entry ∷ coverage_records entries

  unfoldable pub coverage : ResolvedManifest → Result (List CoverageRow)
  unfolding validate_and_load add_statuses coverage_records
  coverage raw = do
    all_findings ← validate_and_load raw
    statuses ← add_statuses (all_of all_findings) []
    ok (coverage_records statuses)
