-- ===== src/Adapters/Scubagear.antt =====
-- adapters/scubagear/adapter.py and parser.py: ScubaGear's results, their validation, parsing and
-- coverage. Parameters are the output files, and what Python's library says of texts and of JSON.
pub mod Collecting
pub mod Covering
use gxassessms.Base.{
  String, Bool, true, false, not, Option, none, some, List, [], ◌∷◌, ◌++◌, ◌&&◌, ◌||◌, str_eq,
  is_key, lookup, any, select, if◌then◌else◌, codes, starts_with,
}
use gxassessms.Errors.{
  Result, ok, err, require, adapter_error, value_error, attribute_error, traverse, ◌>>=◌, ◌>>◌,
}
use gxassessms.Json.{
  Json, Object, Fields, object, text, field, end, array, get_or_default, as_object, as_array,
  as_text, truthy, items,
}
use gxassessms.Domain.Findings.{ToolObservation, scubagear, tool_value}
use gxassessms.Domain.Manifests.{ResolvedManifest, ArtifactRecord}
use gxassessms.Persistence.Store.{CoverageRow}
use gxassessms.Adapters.Outputs.{OutputFiles, load_json_file}
use mathlib.Core.List.{reverse}
use Prim.Native.String

pub record Texts : Type 0 where
  pub lower : String → String
  pub upper : String → String
  pub strip : String → String
  -- Path(text).name
  pub basename : String → String
  pub dumps : Json → String

-- s.endswith(suffix)
abbrev pub ends_with : String → String → Bool
ends_with suffix s = starts_with (reverse (codes suffix)) (reverse (codes s))

-- `if ...: raise RawOutputValidationError(...)`, and the ParseError of a missing key
abbrev pub or_adapter_error : {A : Type 0} → Option A → Result A
or_adapter_error none = err adapter_error
or_adapter_error (some a) = ok a

-- a field that pydantic demands to be a text
abbrev pub as_str : Json → Result String
as_str (text s) = ok s
as_str _ = err value_error

-- a group of a module's results, with its controls, which validation has found to be dicts
abbrev pub Group : Type 0
Group = Object × List Object

abbrev pub Results : Type 0
Results = List (String × List Group)

abbrev pub any_of : {A : Type 0} → List A → Bool
any_of [] = false
any_of (a ∷ rest) = true

abbrev pub paths : List (String × ArtifactRecord) → List String
paths [] = []
paths ((path, _) ∷ entries) = path ∷ paths entries

-- a control of a group of a module
abbrev pub Entry : Type 0
Entry = String × Object × Object

module _ (texts : Texts) where
  -- _find_scuba_results_file
  unfoldable pub find_scuba_results_file : List String → Option String
  find_scuba_results_file [] = none
  find_scuba_results_file (path ∷ rest) =
      let name = texts.lower (texts.basename path) in
      if starts_with (codes "scubaresults") (codes name) && ends_with ".json" name
      then some path
      else find_scuba_results_file rest

  unfoldable pub validate_controls : Option Json → Result (List Object)
  unfolding traverse
  validate_controls none = ok []
  validate_controls (some value) = do
    controls ← or_adapter_error (as_array value)
    traverse (λ control. or_adapter_error (as_object control)) controls

  unfoldable pub validate_group : Json → Result Group
  unfolding validate_controls lookup
  validate_group value = do
    group ← or_adapter_error (as_object value)
    controls ← validate_controls (lookup "Controls" group)
    ok (group, controls)

  unfoldable pub validate_module : String × Json → Result (String × List Group)
  unfolding validate_group traverse
  validate_module (module_key, value) = do
    values ← or_adapter_error (as_array value)
    groups ← traverse validate_group values
    ok (module_key, groups)

  abbrev pub has_controls : Results → Bool
  has_controls results = any (λ m. any (λ g. any_of g.1) m.1) results

  module _ (files : OutputFiles) where
    unfoldable pub validate_and_load_results : ResolvedManifest → Result Results
    unfolding find_scuba_results_file load_json_file validate_module traverse lookup any
    validate_and_load_results raw = do
      require (any_of raw.file_manifest) adapter_error
      results_file ← or_adapter_error (
          find_scuba_results_file
            (select (λ f. ends_with ".json" (texts.lower f)) (paths raw.file_manifest)))
      raw_data ← load_json_file files results_file
      contents ← or_adapter_error (as_object raw_data)
      raw_results ← or_adapter_error (lookup "Results" contents)
      modules ← or_adapter_error (as_object raw_results)
      require (any_of modules) adapter_error
      results ← traverse validate_module modules
      require (has_controls results) adapter_error
      ok results

    unfoldable pub validate_raw : ResolvedManifest → Result (Unit {0})
    unfolding validate_and_load_results
    validate_raw raw = do results ← validate_and_load_results raw; ok tt

  -- the controls, as the loops over modules, groups and controls come to them
  abbrev pub entries_of_group : String → Object → List Object → List Entry
  entries_of_group module_key group [] = []
  entries_of_group module_key group (c ∷ cs) =
      (module_key, group, c) ∷ entries_of_group module_key group cs

  abbrev pub entries_of_module : String → List Group → List Entry
  entries_of_module module_key [] = []
  entries_of_module module_key ((group, controls) ∷ groups) =
      entries_of_group module_key group controls ++ entries_of_module module_key groups

  abbrev pub entries_of : Results → List Entry
  entries_of [] = []
  entries_of ((module_key, groups) ∷ results) =
      entries_of_module module_key groups ++ entries_of results

  abbrev pub raw_data_of : String → Object → Object → Json → Json
  raw_data_of module_key group control description = object (
      field "module" (text module_key) (
        field "group_name" (get_or_default (text "") "GroupName" group) (
          field "group_number" (get_or_default (text "") "GroupNumber" group) (
            field "details" description (
              field "original_result" (get_or_default (text "") "OriginalResult" control) (
                field "original_details" (get_or_default (text "") "OriginalDetails" control)
                  end))))))

  -- _parse_control
  unfoldable pub parse_control : Entry → Result ToolObservation
  unfolding lookup
  parse_control (module_key, group, control) = do
    control_id ← or_adapter_error (lookup "Control ID" control)
    requirement ← or_adapter_error (lookup "Requirement" control)
    outcome ← or_adapter_error (lookup "Result" control)
    criticality ← or_adapter_error (lookup "Criticality" control)
    details ← or_adapter_error (lookup "Details" control)
    native_check_id ← as_str control_id
    title ← as_str requirement
    native_severity ← as_str criticality
    native_status ← as_str outcome
    description ← as_str details
    ok (record {
      observation_id = String.◌++◌ "scubagear:" native_check_id;
      tool = scubagear;
      native_check_id = native_check_id;
      native_severity = native_severity;
      native_status = native_status;
      native_category = none;
      title = title;
      description = description;
      benchmark_refs = [];
      raw_data = texts.dumps (raw_data_of module_key group control details);
    })

  unfoldable pub parse_scuba_results : Results → Result (List ToolObservation)
  unfolding parse_control traverse
  parse_scuba_results results = traverse parse_control (entries_of results)

  -- a text's method, which a value that is no text does not have
  abbrev pub text_or_attribute_error : Json → Result String
  text_or_attribute_error (text s) = ok s
  text_or_attribute_error _ = err attribute_error

  abbrev pub is_not_applicable : String → Bool
  is_not_applicable status = str_eq (texts.upper (texts.strip status)) "N/A"

  -- `details if details else None`, for a control that is not applicable
  abbrev pub reason_of : Json → Result (Option String)
  reason_of details = if truthy details then (as_str details >>= λ s. ok (some s)) else ok none

  abbrev pub record_of : String → Option String → Bool → CoverageRow
  record_of control_id reason not_applicable = record {
    control_id = control_id;
    tool_source = "ScubaGear";
    status = if not_applicable then "not_assessed" else "assessed";
    reason = reason;
  }

  unfoldable pub coverage_record : Entry → Result CoverageRow
  unfolding lookup truthy
  coverage_record (module_key, group, control) = do
    result_str ← text_or_attribute_error (get_or_default (text "") "Result" control)
    let not_applicable = is_not_applicable result_str
    reason ←
        if not_applicable then reason_of (get_or_default (text "") "Details" control) else ok none
    control_id ← as_str (get_or_default (text "") "Control ID" control)
    ok (record_of control_id reason not_applicable)

  module _ (files : OutputFiles) where
    unfoldable pub parse : ResolvedManifest → Result (List ToolObservation)
    unfolding validate_and_load_results parse_scuba_results
    parse raw = do results ← validate_and_load_results files raw; parse_scuba_results results

    unfoldable pub coverage : ResolvedManifest → Result (List CoverageRow)
    unfolding validate_and_load_results coverage_record traverse
    coverage raw = do
      results ← validate_and_load_results files raw
      traverse coverage_record (entries_of results)
