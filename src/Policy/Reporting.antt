-- ===== src/Policy/Reporting.antt =====
-- policy/reporting.py. A confidence stands in ten-thousandths; `max_findings` is not negative.
pub mod Audience
use gxassessms.Base.{
  ℕ, String, Bool, true, false, not, Option, none, some, List, [], ◌∷◌, ◌++◌, ◌&&◌, ◌||◌, ◌==◌, ltb,
  leb, str_eq, if◌then◌else◌, lookup, any, select, take, length, sort_by,
}
use gxassessms.Errors.{Result, ok, err, value_error}
use gxassessms.Domain.Enums.{
  Category, severity_value, status_value, category_value, category_name, severity_order,
  severity_order_table,
}
use gxassessms.Domain.Findings.{ConsolidatedFinding}
use gxassessms.Persistence.Findings.{text_le}

-- an entry of suppression_rules; "" where the key is missing
pub record SuppressionRule : Type 0 where
  pub field : String
  pub value : String

-- an entry of audiences
pub record AudienceConfig : Type 0 where
  pub minimum_severity : Option String
  pub minimum_confidence : Option ℕ
  pub max_findings : Option ℕ
  pub sections : Option (List String)

pub record ReportingRules : Type 0 where
  pub suppression_rules : List SuppressionRule
  pub audiences : List (String × AudienceConfig)

unfoldable pub rule_matches : ConsolidatedFinding → SuppressionRule → Bool
rule_matches f rule =
    str_eq rule.field "status" && str_eq (status_value f.status) rule.value
    || str_eq rule.field "severity" && str_eq (severity_value f.severity) rule.value
    || str_eq rule.field "category"
      && (str_eq (category_value f.category) rule.value
          || str_eq (category_name f.category) rule.value)

-- _is_suppressed
unfoldable pub is_suppressed : ConsolidatedFinding → List SuppressionRule → Bool
unfolding any rule_matches
is_suppressed f rules = any (rule_matches f) rules

-- the loop of apply_suppression
unfoldable pub unsuppressed :
    List SuppressionRule → List ConsolidatedFinding → List ConsolidatedFinding
unsuppressed rules [] = []
unsuppressed rules (f ∷ fs) =
    let rest = unsuppressed rules fs in if not (is_suppressed f rules) then f ∷ rest else rest

unfoldable pub apply_suppression :
    ReportingRules → List ConsolidatedFinding → List ConsolidatedFinding
unfolding unsuppressed
apply_suppression r fs = elim r.suppression_rules [
  | [] ↦ fs
  | rule ∷ rules ↦ unsuppressed (rule ∷ rules) fs
]

abbrev pub min_severity_text : AudienceConfig → String
min_severity_text a = elim a.minimum_severity [ none ↦ "INFO" | some t ↦ t ]

abbrev pub min_confidence : AudienceConfig → ℕ
min_confidence a = elim a.minimum_confidence [ none ↦ 0 | some n ↦ n ]

-- the loop of filter_for_audience
unfoldable pub visible : ℕ → ℕ → List ConsolidatedFinding → List ConsolidatedFinding
visible severity confidence [] = []
visible severity confidence (f ∷ fs) =
    let rest = visible severity confidence fs in
    if ltb (severity_order f.severity) severity
    then rest
    else if ltb f.confidence.overall confidence
    then rest
    else f ∷ rest

-- `key(a) >= key(b)` for the sort's key, a tuple: severity, confidence, finding_key
unfoldable pub ranks_before : ConsolidatedFinding → ConsolidatedFinding → Bool
ranks_before a b =
    ltb (severity_order b.severity) (severity_order a.severity)
    || severity_order b.severity == severity_order a.severity
      && (ltb b.confidence.overall a.confidence.overall
          || b.confidence.overall == a.confidence.overall && text_le b.finding_key a.finding_key)

-- `filtered[:max_findings]`, if there is a limit and it is passed
unfoldable pub capped : Option ℕ → List ConsolidatedFinding → List ConsolidatedFinding
capped none fs = fs
capped (some n) fs = if ltb n (length fs) then take n fs else fs

abbrev above :
    AudienceConfig → List ConsolidatedFinding → Option ℕ → Result (List ConsolidatedFinding)
above a fs none = err value_error
above a fs (some severity) =
    ok (capped a.max_findings (sort_by ranks_before (visible severity (min_confidence a) fs)))

unfoldable pub filter_config :
    AudienceConfig → List ConsolidatedFinding → Result (List ConsolidatedFinding)
unfolding lookup
filter_config a fs = above a fs (lookup (min_severity_text a) severity_order_table)

unfoldable pub filter_for_audience :
    ReportingRules → List ConsolidatedFinding → String → Result (List ConsolidatedFinding)
unfolding lookup filter_config
filter_for_audience r fs audience = elim (lookup audience r.audiences) [
  | none ↦ ok fs
  | some a ↦ filter_config a fs
]

unfoldable pub get_sections : ReportingRules → String → List String
unfolding lookup
get_sections r audience = elim (lookup audience r.audiences) [
  | none ↦ []
  | some a ↦ elim a.sections [ none ↦ [] | some s ↦ s ]
]
