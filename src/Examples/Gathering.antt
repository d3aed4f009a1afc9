-- ===== src/Examples/Gathering.antt =====
-- The theorems on arguments, on collected files and on ScubaGear's results at small inputs.
use gxassessms.Base.{
  ◌≡◌, refl, String, true, false, none, List, [], ◌∷◌, ◌==◌, str_eq, any, all, lookup, split_on,
  contains, sort_by, All, codes, Chars, map, starts_with, IsSorted,
}
use gxassessms.Errors.{ok, traverse}
use gxassessms.Json.{Json, text, object, array, field, end, cons, nil}
use gxassessms.Domain.Credentials.{partition}
use gxassessms.Domain.PathValidation.{
  validate_canonical_posix_path, parts_of, dotted, is_extension, is_reserved, ends_badly,
  has_illegal,
}
use gxassessms.Domain.Findings.{scubagear, ToolObservation}
use gxassessms.Domain.Manifests.{ResolvedManifest, utf8}
use gxassessms.Persistence.Artifacts.Staging.{CollectionOutput}
use gxassessms.Adapters.Arguments.{
  matches_arg_pattern, is_name_rest, is_value_rest, validate_extra_args, put, split_arg, split_all,
  parse_extra_args, check_reserved_args,
}
use gxassessms.Adapters.Arguments.Screened.{bound_name, check_reserved_args-screens}
use gxassessms.Adapters.Outputs.{
  OutputFiles, target_le, load_json_file, collect_item, collect_items, build_collection_output,
}
use gxassessms.Adapters.Outputs.Collected.{
  IsCollected, pair_of, build_collection_output-IsCollected,
}
use gxassessms.Adapters.Scubagear.{
  Texts, find_scuba_results_file, validate_controls, validate_group, validate_module,
  validate_and_load_results, parse_control, parse_scuba_results, parse, coverage,
}
use gxassessms.Adapters.Scubagear.Covering.{assessments, coverage-assessments}
use mathlib.Core.List.{Perm}

abbrev arguments : List Chars
arguments = codes "-Verbose" ∷ codes "-M365Environment:gcc" ∷ []

abbrev reserved : List Chars
reserved = codes "OutPath" ∷ []

valid : validate_extra_args (λ c. any (λ d. c == d) (codes "gc")) arguments ≡ ok arguments
unfolding validate_extra_args matches_arg_pattern is_name_rest is_value_rest any
valid = refl

clear :
    check_reserved_args
      (λ s. s)
      (parse_extra_args arguments).0
      (parse_extra_args arguments).1
      reserved
    ≡ ok tt
unfolding check_reserved_args parse_extra_args split_all split_arg put partition any
clear = refl

check_reserved_args-screens_example :
    All (λ arg. matches_arg_pattern (λ c. any (λ d. c == d) (codes "gc")) arg ≡ true) arguments
    × All (λ arg. any (λ r. starts_with (bound_name arg) r) reserved ≡ false) arguments
check_reserved_args-screens_example =
    check_reserved_args-screens (λ c. any (λ d. c == d) (codes "gc")) (λ s. s) arguments arguments
      reserved valid clear

abbrev results_json : Json
results_json = object (
    field "Results"
      (object (
        field "AAD"
          (array (
            cons
              (object (
                field "Controls"
                  (array (
                    cons
                      (object (
                        field "Control ID" (text "MS.AAD.1.1v1") (
                          field "Requirement" (text "MFA") (
                            field "Result" (text "N/A") (
                              field "Criticality" (text "Shall")
                                (field "Details" (text "off") end))))))
                      nil))
                  end))
              nil))
          end))
      end)

abbrev pub files : OutputFiles
files = record {
  read_text = λ path. ok "{...}";
  is_blank = λ s. str_eq s "";
  loads = λ s. ok results_json;
  sha256_file = λ path. ok "abc";
  text_le = λ s t. true;
}

abbrev items : List (String × String)
items = ("/out/b.json", "scubagear/b.json") ∷ []

abbrev output : CollectionOutput
output = record {
  tool = scubagear;
  tool_slug = "scubagear";
  schema_version = "1.7.1";
  timestamp = 1;
  artifacts =
      record {
        source_path = "/out/b.json";
        target_relpath = "scubagear/b.json";
        encoding = utf8;
        sha256 = "abc";
      }
      ∷ [];
  allowed_metadata = "{}";
}

built : build_collection_output files scubagear "scubagear" items "1.7.1" 1 "{}" ≡ ok output
unfolding build_collection_output collect_items collect_item sort_by validate_canonical_posix_path
    parts_of split_on all contains is_reserved is_extension dotted ends_badly has_illegal any
built = refl

build_collection_output-IsCollected_example :
    All (IsCollected files (λ s t. refl) (λ s t u h k. refl) "scubagear") output.artifacts
    × IsSorted (target_le files) output.artifacts
    × Perm (map (pair_of) output.artifacts) items
build_collection_output-IsCollected_example =
    build_collection_output-IsCollected files (λ s t. refl) (λ s t u h k. refl) scubagear
      "scubagear" items "1.7.1" 1 "{}" output built

abbrev pub texts : Texts
texts = record {
  lower = λ s. s;
  upper = λ s. s;
  strip = λ s. s;
  basename = λ s. s;
  dumps = λ j. "{}";
}

abbrev raw : ResolvedManifest
raw = record {
  tool = scubagear;
  tool_slug = "scubagear";
  schema_version = "1.7.1";
  manifest_version = "1.1.0";
  timestamp = 1;
  file_manifest = ("scubaresults.json", record { encoding = utf8; sha256 = "abc" }) ∷ [];
  execution_metadata = "{}";
}

abbrev observations : List ToolObservation
observations =
    record {
      observation_id = "scubagear:MS.AAD.1.1v1";
      tool = scubagear;
      native_check_id = "MS.AAD.1.1v1";
      native_severity = "Shall";
      native_status = "N/A";
      native_category = none;
      title = "MFA";
      description = "off";
      benchmark_refs = [];
      raw_data = "{}";
    }
    ∷ []

parsed : parse texts files raw ≡ ok observations
unfolding parse validate_and_load_results find_scuba_results_file load_json_file validate_module
    validate_group validate_controls parse_scuba_results parse_control traverse lookup any
parsed = refl

coverage-assessments_example : coverage texts files raw ≡ ok (assessments texts observations)
coverage-assessments_example = coverage-assessments texts files raw observations parsed
