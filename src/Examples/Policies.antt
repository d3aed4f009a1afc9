-- ===== src/Examples/Policies.antt =====
-- The severity and the reporting theorems at two findings.
use gxassessms.Base.{
  ◌≤◌, ◌≡◌, ◌≢◌, refl, arith, true, some, List, [], ◌∷◌, any, All, lookup, none, ap, eq_iff, str_eq,
}
use gxassessms.Errors.{ok}
use gxassessms.Domain.Enums.{
  medium, severity_order, severity_order_table, severity_value, severity_of_value, severity_eq,
  status_eq,
}
use gxassessms.Domain.Findings.{ConsolidatedFinding}
use gxassessms.Policy.Severity.{
  SeverityAdjustment, suggest_adjustments, suggest_all, suggest_one, optional_severity,
  effective_downgrade_threshold, mapped_severity, adjustment, below_threshold, check_escalation,
}
use gxassessms.Policy.Severity.Agreement.{is_downgrade, check_escalation-suggest_adjustments}
use gxassessms.Policy.Reporting.{filter_config}
use gxassessms.Policy.Reporting.Audience.{IsRanked, Within, filter_config_lem}
use gxassessms.Examples.{rules, doubtful, certain, executives}

abbrev lower : List SeverityAdjustment
lower = adjustment doubtful medium (below_threshold 3000 5000 doubtful.severity) ∷ []

made : suggest_adjustments rules (doubtful ∷ []) ≡ ok lower
unfolding suggest_adjustments suggest_all suggest_one optional_severity
    effective_downgrade_threshold mapped_severity severity_value severity_of_value severity_eq
    status_eq severity_order lookup
made = refl

given : rules.minimum_severity ≢ some ""
given e =
    let same : str_eq "LOW" "" ≡ true =
      (eq_iff "LOW" "").1 (ap (λ o. elim o [ none ↦ "" | some t ↦ t ]) e) in
    ground arith

check_escalation-suggest_adjustments_example :
    check_escalation rules doubtful ≡ ok (any is_downgrade lower)
check_escalation-suggest_adjustments_example =
    check_escalation-suggest_adjustments rules doubtful lower given made

known : lookup "LOW" severity_order_table ≡ some 1
unfolding lookup
known = refl

filter_config_lem_example :
    (shown : List ConsolidatedFinding) × (filter_config executives (certain ∷ doubtful ∷ [])
      ≡ ok shown)
    × IsRanked shown
    × All (λ f. (1 ≤ severity_order f.severity) × (2000 ≤ f.confidence.overall)) shown
    × Within (some 1) shown
filter_config_lem_example = filter_config_lem executives (certain ∷ doubtful ∷ []) 1 known
