-- ===== src/Examples.antt =====
-- Runs of the theorems at concrete inputs: the engagements, findings, rules and plugins they use.
-- The children apply the theorems of one part each.
mod Consolidating
mod Lifecycles
mod Running
mod Replaying
mod Referring
mod Prowling
mod Verifying
mod Gathering
mod Collecting
mod Completing
mod Planning
mod Merging
mod Saving
mod Policies
mod Paths
mod Storing
mod Normalizing
mod Administering
use gxassessms.Base.{ℕ, String, none, some, List, [], ◌∷◌, false}
use gxassessms.Errors.{ok, err, adapter_error}
use gxassessms.Domain.Enums.{Severity, high, low, pass, fail, info}
use gxassessms.Domain.Enums
use gxassessms.Domain.Findings.{Finding, ConsolidatedFinding, scubagear}
use gxassessms.Persistence.Store.{Store, EngagementRow, EventRow, Payload, text}
use gxassessms.Pipeline.Collaborators.{Collaborators}
use gxassessms.Policy.Severity.{SeverityRules}
use gxassessms.Policy.Reporting.{AudienceConfig}

abbrev pub finding : String → Severity → List String → Finding
finding key severity keys = record {
  observation_id = key;
  native_check_id = key;
  finding_key = key;
  tool = scubagear;
  title = key;
  severity = severity;
  status = fail;
  category = Enums.compliance;
  description = "";
  dedup_keys = keys;
  benchmark_refs = [];
  raw_data = "{}";
}

-- the first and the third share the key "mfa"
abbrev pub three_findings : List Finding
three_findings =
    finding "scuba:mfa" high ("mfa" ∷ [])
    ∷ finding "maester:spf" low ("spf" ∷ "" ∷ [])
    ∷ finding "maester:mfa" low ("admins" ∷ "mfa" ∷ [])
    ∷ []

abbrev pub unstripped : String → String
unstripped key = key

abbrev pub merged_finding : String → Severity → ℕ → ConsolidatedFinding
merged_finding key severity confidence = record {
  finding_instance_id = key;
  finding_key = key;
  title = key;
  severity = severity;
  status = fail;
  category = Enums.compliance;
  description = "";
  sources = [];
  confidence = record {
    evidence_strength = confidence;
    corroborating_tools = 1;
    data_freshness = confidence;
    provenance = "";
    overall = confidence;
  };
  benchmark_refs = [];
  root_cause = none;
  remediation = none;
  narrative = none;
}

abbrev pub doubtful : ConsolidatedFinding
doubtful = merged_finding "scuba:mfa" high 3000

abbrev pub certain : ConsolidatedFinding
certain = merged_finding "maester:spf" low 9000

abbrev pub rules : SeverityRules
rules = record {
  escalation_thresholds = ("HIGH", 5000) ∷ [];
  downgrade_threshold = some 4000;
  upgrade_threshold = some 9500;
  minimum_severity = some "LOW";
  maximum_severity = none;
  downgrade_map = ("HIGH", "MEDIUM") ∷ [];
  upgrade_map = ("LOW", "MEDIUM") ∷ [];
}

abbrev pub executives : AudienceConfig
executives = record {
  minimum_severity = some "LOW";
  minimum_confidence = some 2000;
  max_findings = some 1;
  sections = none;
}

abbrev pub new_row : EngagementRow
new_row = record {
  client_name = "Contoso";
  tenant_id = "t-1";
  state = "CREATED";
  created_at = 1;
  updated_at = none;
  engagement_dir = none;
  config_snapshot = "{}";
}

abbrev pub fresh : Store
fresh = record {
  engagements = ("e1", new_row) ∷ [];
  events = [];
  findings = [];
  consolidated_findings = [];
  coverage_records = [];
  held = [];
  held_elsewhere = [];
  now = 2;
  stage_history = [];
  longitudinal_snapshots = [];
  tool_run_results = [];
  readings = 0;
  overrides = [];
  pace = λ n. n;
}

-- collection fails; the other plugins find nothing
abbrev pub unreachable : Collaborators
unreachable = record {
  CollectionResult = Unit;
  LoadedManifest = Unit;
  RawOutput = Unit;
  QaResult = Unit;
  adapters = [];
  collect = err adapter_error;
  save_raw_outputs = λ results. ok [];
  load_raw_outputs = ok [];
  get_engagement_dir = ok tt;
  secure_mkdir = ok tt;
  warn_broad_permissions = ok tt;
  build_report_payload = λ findings coverage. ok tt;
  has_output_dir = false;
  confine_and_resolve = λ manifests. ok [];
  tool_slug = λ raw. "";
  normalize = λ observations severities categories keys. ok [];
  consolidate = λ findings. ok [];
  review_findings = λ findings. ok [];
  is_noop = false;
  renderers = [];
  report_formats = [];
  report_theme = "";
  hash_collected = λ results. "";
  hash_observations = λ observations. "";
  hash_findings = λ findings. "";
  hash_consolidated = λ findings. "";
  hash_review = λ results. "";
  hash_nothing = "";
}

abbrev pub approval : Payload
approval = ("from", text "QA_REVIEW") ∷ ("to", text "QA_APPROVED") ∷ []

abbrev pub parse_again : Payload
parse_again = ("target_stage", text "PARSE") ∷ []
