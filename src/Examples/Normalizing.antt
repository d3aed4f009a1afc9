-- ===== src/Examples/Normalizing.antt =====
-- The theorem on normalization at a passing observation.
use Prim.Native.String
use gxassessms.Base.{String, ◌≡◌, refl, none, [], ◌∷◌, lookup, split_on}
use gxassessms.Errors.{ok}
use gxassessms.Domain.Enums.{
  pass, info, compliance, status_of_value, severity_of_value, status_value, status_eq, of_value,
  category_name, category_value,
}
use gxassessms.Domain.Findings.{ToolObservation, Finding, scubagear, tool_value}
use gxassessms.Policy.Normalization.{
  NormalizationRules, normalize, normalize_one, resolve_severity, resolve_status, resolve_category,
  resolve_finding_key, mapped_status, Formatted, formatted, extract_module_prefix,
  category_key_to_enum,
}
use gxassessms.Policy.Normalization.Normalized.{IsNormalOf, Pointwise, normalize-IsNormalOf}

abbrev passing : ToolObservation
passing = record {
  observation_id = "o1";
  tool = scubagear;
  native_check_id = "MS.AAD.3.1v1";
  native_severity = "Shall";
  native_status = "Pass";
  native_category = none;
  title = "MFA";
  description = "";
  benchmark_refs = [];
  raw_data = "{}";
}

abbrev rules : NormalizationRules
rules = record {
  default_status_map = ("Pass", "PASS") ∷ [];
  default_severity_map = [];
  fallback_severity = none;
  default_category_map = [];
  fallback_category = none;
  dedup_key_fallback_pattern = none;
}

abbrev joined : String → String → String → Formatted
joined pattern tool check = formatted (String.◌++◌ tool (String.◌++◌ ":" check))

abbrev same : String → String
same s = s

abbrev finding : Finding
finding = record {
  observation_id = "o1";
  native_check_id = "MS.AAD.3.1v1";
  finding_key = "ScubaGear:MS.AAD.3.1v1";
  tool = scubagear;
  title = "MFA";
  severity = info;
  status = pass;
  category = compliance;
  description = "";
  dedup_keys = "ScubaGear:MS.AAD.3.1v1" ∷ [];
  benchmark_refs = [];
  raw_data = "{}";
}

normal : normalize same (λ cs. cs) joined rules (passing ∷ []) [] [] [] ≡ ok (finding ∷ [])
unfolding normalize normalize_one resolve_severity resolve_status resolve_category
    resolve_finding_key mapped_status lookup status_of_value severity_of_value status_value
    status_eq of_value category_name category_value tool_value extract_module_prefix
    category_key_to_enum split_on
normal = refl

normalize-IsNormalOf_example : Pointwise (IsNormalOf same) (passing ∷ []) (finding ∷ [])
normalize-IsNormalOf_example =
    normalize-IsNormalOf same (λ cs. cs) joined rules [] [] [] (passing ∷ []) (finding ∷ []) normal
