-- ===== src/Examples/Prowling.antt =====
-- The theorems on Prowler's adapter at one finding, and at an engagement of one subscription.
use gxassessms.Base.{
  String, ◌≡◌, refl, true, false, Option, none, some, List, [], ◌∷◌, str_eq, lookup, upsert,
  contains, any, sort_by,
}
use gxassessms.Errors.{ok}
use gxassessms.Json.{Json, text, object, array, field, end, cons, nil, Object, truthy}
use gxassessms.Domain.Configs.{ToolConfig, EngagementConfig}
use gxassessms.Domain.Findings.{prowler, ToolObservation}
use gxassessms.Domain.Manifests.{ResolvedManifest, utf8}
use gxassessms.Persistence.Store.{CoverageRow}
use gxassessms.Adapters.Outputs.{OutputFiles, load_json_file}
use gxassessms.Adapters.Prowler.Parser.{
  Texts, parse_prowler_findings, parse_from, observe_finding, uid_hash, check_id_of,
  extract_benchmark_refs, compliance_refs,
}
use gxassessms.Adapters.Prowler.{
  Loaded, validate_finding, validate_findings, load_all, validate_and_load, parse, parse_all,
  coverage,
}
use gxassessms.Adapters.Prowler.Covering.{record_for, assessment, coverage-assessment}
use gxassessms.Adapters.Prowler.Commands.{
  validate_prowler_extra_args, add_auth, add_tenant, subprocess_env, add_scope, add_output,
  build_command,
}
use gxassessms.Adapters.Prowler.Commands.Scoped.{Scope, build_command_lem}

-- a finding of the check c1, which asks for manual verification
abbrev finding : Object
finding =
    ("finding_info", object end)
    ∷ ("status_code", text "MANUAL")
    ∷ ("metadata", object (field "event_code" (text "c1") end))
    ∷ []

abbrev finding_json : Json
finding_json = object (
    field "finding_info" (object end) (
      field "status_code" (text "MANUAL")
        (field "metadata" (object (field "event_code" (text "c1") end)) end)))

abbrev files : OutputFiles
files = record {
  read_text = λ path. ok "[...]";
  is_blank = λ s. str_eq s "";
  loads = λ s. ok (array (cons finding_json nil));
  sha256_file = λ path. ok "abc";
  text_le = λ s t. true;
}

abbrev texts : Texts
texts = record {
  repr = λ j. "{}";
  decimal = λ n. "0";
  text_le = λ s t. true;
  digest12 = λ s. ok s;
  digest8 = λ s. ok s;
  validate = λ o. ok tt;
  dumps = λ o. "{}";
}

abbrev raw : ResolvedManifest
raw = record {
  tool = prowler;
  tool_slug = "prowler";
  schema_version = "1.4.0";
  manifest_version = "1.1.0";
  timestamp = 1;
  file_manifest = ("/e/a.ocsf.json", record { encoding = utf8; sha256 = "abc" }) ∷ [];
  execution_metadata = "{}";
}

abbrev loaded : Loaded
loaded = ("/e/a.ocsf.json", finding ∷ []) ∷ []

loads : validate_and_load files raw ≡ ok loaded
unfolding validate_and_load load_all load_json_file validate_findings validate_finding lookup
loads = refl

abbrev observations : List ToolObservation
observations =
    record {
      observation_id = "prowler:c1:/e/a.ocsf.json:idx0";
      tool = prowler;
      native_check_id = "c1";
      native_severity = "Unknown";
      native_status = "MANUAL";
      native_category = none;
      title = "";
      description = "";
      benchmark_refs = [];
      raw_data = "{}";
    }
    ∷ []

parses : parse files texts raw ≡ ok observations
unfolding parse parse_all validate_and_load load_all load_json_file validate_findings
    validate_finding lookup parse_prowler_findings parse_from observe_finding uid_hash check_id_of
    truthy extract_benchmark_refs compliance_refs sort_by
parses = refl

coverage-assessment_example :
    (rs : List CoverageRow) × (coverage files raw ≡ ok rs)
    × ((c : String) → record_for c rs ≡ assessment c observations)
coverage-assessment_example =
    coverage-assessment files refl texts raw loaded observations loads parses

abbrev config : EngagementConfig
config = record {
  subscription_id = "s-1";
  auth = record {
    method = "client_credential";
    tenant_id = "t-1";
    client_id = "c-1";
    client_secret_env = "GX_SECRET";
    certificate_path = none;
  };
  tools = [];
}

abbrev tool_config : ToolConfig
tool_config = record {
  output_dir = "/out";
  modules = [];
  timeout = none;
  extra_args = "--verbose" ∷ [];
  module_policy_override = none;
}

abbrev environ : List (String × String)
environ = ("GX_SECRET", "s3cret") ∷ []

abbrev command : List String
command =
    "/bin/prowler" ∷ "azure" ∷ "--sp-env-auth" ∷ "--subscription-ids" ∷ "s-1" ∷ "-o" ∷ "/out" ∷ "-F"
    ∷ "ProwlerResults" ∷ "-M" ∷ "json-ocsf" ∷ "--verbose" ∷ []

abbrev environment : Option (List (String × String))
environment = some (
    ("GX_SECRET", "s3cret")
    ∷ ("AZURE_CLIENT_ID", "c-1")
    ∷ ("AZURE_TENANT_ID", "t-1")
    ∷ ("AZURE_CLIENT_SECRET", "s3cret")
    ∷ [])

builds :
    build_command (λ c. false) environ config tool_config "/out" "/bin/prowler"
    ≡ ok (command, environment)
unfolding build_command validate_prowler_extra_args add_auth add_tenant subprocess_env add_scope
    add_output contains any lookup upsert
builds = refl

build_command_lem_example :
    Scope
      (λ c. false)
      environ
      config
      tool_config
      "/out"
      "/bin/prowler"
      ("--verbose" ∷ [])
      command
      environment
build_command_lem_example =
    build_command_lem (λ c. false) environ config tool_config "/out" "/bin/prowler" command
      environment builds
