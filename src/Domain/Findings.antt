-- ===== src/Domain/Findings.antt =====
-- core/domain/models.py: ToolObservation, Finding, ConfidenceScore, ConsolidatedFinding.
-- `raw_data`, a dict that no code modelled here looks into, stands as its JSON text; a score, which
-- the pipeline rounds to four places, stands in ten-thousandths.
use gxassessms.Base.{ℕ, String, Option, List}
use gxassessms.Domain.Enums.{Severity, FindingStatus, Category}

pub data ToolSource : Type 0 where
  scubagear maester monkey365 m365_assess prowler steampipe secure_score : ToolSource
  azure_advisor defender_cloud m365dsc intune_export azure_resource_graph custom : ToolSource
  manual_tool : ToolSource

unfoldable pub tool_value : ToolSource → String
tool_value scubagear = "ScubaGear"
tool_value maester = "Maester"
tool_value monkey365 = "Monkey365"
tool_value m365_assess = "M365_Assess"
tool_value prowler = "Prowler"
tool_value steampipe = "Steampipe"
tool_value secure_score = "SecureScore"
tool_value azure_advisor = "AzureAdvisor"
tool_value defender_cloud = "DefenderCloud"
tool_value m365dsc = "M365DSC"
tool_value intune_export = "IntuneExport"
tool_value azure_resource_graph = "AzureResourceGraph"
tool_value custom = "Custom"
tool_value manual_tool = "Manual"

pub record ToolObservation : Type 0 where
  pub observation_id : String
  pub tool : ToolSource
  pub native_check_id : String
  pub native_severity : String
  pub native_status : String
  pub native_category : Option String
  pub title : String
  pub description : String
  pub benchmark_refs : List String
  pub raw_data : String

pub record Finding : Type 0 where
  pub observation_id : String
  pub native_check_id : String
  pub finding_key : String
  pub tool : ToolSource
  pub title : String
  pub severity : Severity
  pub status : FindingStatus
  pub category : Category
  pub description : String
  pub dedup_keys : List String
  pub benchmark_refs : List String
  pub raw_data : String

pub record SourceEvidence : Type 0 where
  pub tool : ToolSource
  pub check_id : String
  pub raw_data : String

pub record ConfidenceScore : Type 0 where
  pub evidence_strength : ℕ
  pub corroborating_tools : ℕ
  pub data_freshness : ℕ
  pub provenance : String
  pub overall : ℕ

pub record ConsolidatedFinding : Type 0 where
  pub finding_instance_id : String
  pub finding_key : String
  pub title : String
  pub severity : Severity
  pub status : FindingStatus
  pub category : Category
  pub description : String
  pub sources : List SourceEvidence
  pub confidence : ConfidenceScore
  pub benchmark_refs : List String
  pub root_cause : Option String
  pub remediation : Option String
  pub narrative : Option String
