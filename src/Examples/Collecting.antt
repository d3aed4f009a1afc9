-- ===== src/Examples/Collecting.antt =====
-- The theorem on ScubaGear's collection at a small run.
use gxassessms.Base.{
  ◌≡◌, refl, String, true, none, [], ◌∷◌, str_eq, if◌then◌else◌, lookup, upsert, any, all, contains,
  split_on, sort_by,
}
use gxassessms.Errors.{ok, traverse}
use gxassessms.Json.{truthy}
use gxassessms.Domain.Configs.{EngagementConfig}
use gxassessms.Domain.Findings.{scubagear}
use gxassessms.Domain.Manifests.{utf8}
use gxassessms.Domain.PathValidation.{
  validate_canonical_posix_path, parts_of, dotted, is_extension, is_reserved, ends_badly,
  has_illegal,
}
use gxassessms.Persistence.Artifacts.Staging.{CollectionOutput}
use gxassessms.Adapters.Arguments.{
  validate_extra_args, parse_extra_args, split_all, check_reserved_args,
}
use gxassessms.Adapters.Outputs.{collect_item, collect_items, build_collection_output}
use gxassessms.Adapters.Directories.{Directories, latest, find_latest_output_dir}
use gxassessms.Adapters.Scubagear.{find_scuba_results_file}
use gxassessms.Adapters.Scubagear.Collecting.{System, output_of, prepare, finish, collect}
use gxassessms.Adapters.Scubagear.Collecting.Fresh.{IsCollection, collect-IsCollection}
use gxassessms.Adapters.Verification.Policies.{build_input_blob, effective_range, effective_hashes}
use gxassessms.Adapters.Verification.Verifying.{
  run_verified_powershell, verify_module, verify_below, parse_verification_report, parse_result,
  parse_candidates, parse_approved,
}
use gxassessms.Examples.Gathering.{files, texts}
use gxassessms.Examples.Verifying.{shell, unicode, order}

abbrev run_dir : String
run_dir = "/out/M365BaselineConformance_1"

abbrev before : Directories
before = record {
  exists = λ path. true;
  is_dir = λ path. str_eq path run_dir;
  iterdir = λ path. ok [];
  name = λ path. if str_eq path run_dir then "M365BaselineConformance_1" else "scubaresults.json";
  suffix = λ path. if str_eq path run_dir then "" else ".json";
  mtime = λ path. ok 7;
}

abbrev after : Directories
after = record before {
  iterdir = λ path. if str_eq path "/out" then ok (run_dir ∷ []) else ok ("scubaresults.json" ∷ []);
}

abbrev system : System
system = record {
  secure_mkdir = λ path. ok tt;
  path_str = λ s. s;
  before = before;
  after = after;
  is_word = λ c. true;
  lower = λ s. s;
  text_of = λ s. "";
  now = 1;
  metadata = λ modules report. "{}";
}

abbrev config : EngagementConfig
config = record {
  subscription_id = "";
  auth = record {
    method = "interactive";
    tenant_id = "t";
    client_id = "";
    client_secret_env = "";
    certificate_path = none;
  };
  tools =
      (
        "scubagear",
        record {
          output_dir = "/out";
          modules = "aad" ∷ [];
          timeout = none;
          extra_args = [];
          module_policy_override = none;
        },
      )
      ∷ [];
}

abbrev output : CollectionOutput
output = record {
  tool = scubagear;
  tool_slug = "scubagear";
  schema_version = "1.7.1";
  timestamp = 1;
  artifacts =
      record {
        source_path = "scubaresults.json";
        target_relpath = "scubagear/scubaresults.json";
        encoding = utf8;
        sha256 = "abc";
      }
      ∷ [];
  allowed_metadata = "{}";
}

collected : (collect texts files system shell unicode order config []).0 ≡ ok output
unfolding collect prepare finish run_verified_powershell verify_module verify_below
    parse_verification_report parse_result parse_candidates parse_approved truthy lookup contains
    build_input_blob effective_range effective_hashes all sort_by upsert traverse
    validate_extra_args parse_extra_args split_all check_reserved_args any find_latest_output_dir
    latest output_of find_scuba_results_file build_collection_output collect_items collect_item
    validate_canonical_posix_path parts_of split_on is_reserved is_extension dotted ends_badly
    has_illegal
collected = refl

collect-IsCollection_example : IsCollection texts files system shell unicode order config [] output
collect-IsCollection_example =
    collect-IsCollection texts files system shell unicode order config [] output collected
