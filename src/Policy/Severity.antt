-- ===== src/Policy/Severity.antt =====
-- policy/severity.py. A confidence and a threshold stand in ten-thousandths; an entry of the rules
-- that is absent is `none` or missing from its list.
pub mod Agreement
use gxassessms.Base.{
  ℕ, String, Bool, true, false, not, Option, none, some, List, [], ◌∷◌, ◌++◌, ◌&&◌, ◌||◌, ltb, leb,
  max, str_eq, if◌then◌else◌, lookup,
}
use gxassessms.Errors.{or_value_error, Result, ok, err, value_error, ◌>>=◌}
use gxassessms.Domain.Enums.{
  Severity, FindingStatus, pass, not_applicable, severity_value, severity_of_value, severity_order,
  severity_eq, status_eq,
}
use gxassessms.Domain.Findings.{ConsolidatedFinding}

pub record SeverityRules : Type 0 where
  pub escalation_thresholds : List (String × ℕ)
  pub downgrade_threshold : Option ℕ
  pub upgrade_threshold : Option ℕ
  pub minimum_severity : Option String
  pub maximum_severity : Option String
  pub downgrade_map : List (String × String)
  pub upgrade_map : List (String × String)

-- why a severity is suggested: the confidence, and the threshold that it misses or meets
pub data Reason : Type 0 where
  below_threshold above_threshold : ℕ → ℕ → Severity → Reason

pub record SeverityAdjustment : Type 0 where
  pub finding_instance_id : String
  pub finding_key : String
  pub current_severity : Severity
  pub suggested_severity : Severity
  pub reason : Reason

abbrev severity_or : Severity → Option String → Result Severity
severity_or s none = ok s
severity_or s (some t) = or_value_error (severity_of_value t)

-- _downgrade, with the rules' downgrade_map, and _upgrade, with their upgrade_map
unfoldable pub mapped_severity : List (String × String) → Severity → Result Severity
unfolding lookup
mapped_severity m s = severity_or s (lookup (severity_value s) m)

abbrev pub or_zero : Option ℕ → ℕ
or_zero none = 0
or_zero (some n) = n

unfoldable pub effective_downgrade_threshold : SeverityRules → ConsolidatedFinding → ℕ
unfolding lookup
effective_downgrade_threshold r f =
    max (or_zero (lookup (severity_value f.severity) r.escalation_thresholds))
      (or_zero r.downgrade_threshold)

abbrev pub is_actionable : ConsolidatedFinding → Bool
is_actionable f = not (status_eq f.status pass || status_eq f.status not_applicable)

-- `Severity(text) if text else None`
unfoldable pub optional_severity : Option String → Result (Option Severity)
optional_severity none = ok none
optional_severity (some t) =
    if str_eq t "" then ok none else (or_value_error (severity_of_value t) >>= λ s. ok (some s))

abbrev pub at_or_above : Severity → Option Severity → Bool
at_or_above s none = true
at_or_above s (some floor) = leb (severity_order floor) (severity_order s)

abbrev pub at_or_below : Severity → Option Severity → Bool
at_or_below s none = true
at_or_below s (some ceiling) = leb (severity_order s) (severity_order ceiling)

abbrev pub adjustment : ConsolidatedFinding → Severity → Reason → SeverityAdjustment
adjustment f s why = record {
  finding_instance_id = f.finding_instance_id;
  finding_key = f.finding_key;
  current_severity = f.severity;
  suggested_severity = s;
  reason = why;
}

abbrev pub lowered : Option Severity → ConsolidatedFinding → ℕ → Severity → List SeverityAdjustment
lowered floor f threshold s =
    if not (severity_eq s f.severity) && at_or_above s floor
    then adjustment f s (below_threshold f.confidence.overall threshold f.severity) ∷ []
    else []

abbrev pub raised : Option Severity → ConsolidatedFinding → ℕ → Severity → List SeverityAdjustment
raised ceiling f threshold s =
    if not (severity_eq s f.severity) && at_or_below s ceiling
    then adjustment f s (above_threshold f.confidence.overall threshold f.severity) ∷ []
    else []

-- the upgrade path of the loop's body
unfoldable pub upgrade_one :
    SeverityRules
    → Option Severity
    → ConsolidatedFinding
    → Option ℕ
    → Result (List SeverityAdjustment)
upgrade_one r ceiling f none = ok []
upgrade_one r ceiling f (some threshold) =
    if leb threshold f.confidence.overall
    then (mapped_severity r.upgrade_map f.severity >>= λ s. ok (raised ceiling f threshold s))
    else ok []

-- the loop's body: the adjustments that one finding adds
unfoldable pub suggest_one :
    SeverityRules
    → Option Severity
    → Option Severity
    → ConsolidatedFinding
    → Result (List SeverityAdjustment)
suggest_one r floor ceiling f =
    if not (is_actionable f)
    then ok []
    else if ltb f.confidence.overall (effective_downgrade_threshold r f)
    then (mapped_severity r.downgrade_map f.severity >>= λ s.
        ok (lowered floor f (effective_downgrade_threshold r f) s))
    else upgrade_one r ceiling f r.upgrade_threshold

unfoldable pub suggest_all :
    SeverityRules
    → Option Severity
    → Option Severity
    → List ConsolidatedFinding
    → Result (List SeverityAdjustment)
suggest_all r floor ceiling [] = ok []
suggest_all r floor ceiling (f ∷ fs) = do
  own ← suggest_one r floor ceiling f
  rest ← suggest_all r floor ceiling fs
  ok (own ++ rest)

unfoldable pub suggest_adjustments :
    SeverityRules → List ConsolidatedFinding → Result (List SeverityAdjustment)
suggest_adjustments r fs = do
  floor ← optional_severity r.minimum_severity
  ceiling ← optional_severity r.maximum_severity
  suggest_all r floor ceiling fs

-- `min_sev_str is None or SEVERITY_ORDER[...] >= SEVERITY_ORDER[Severity(min_sev_str)]`
abbrev pub above_text : Severity → Option String → Result Bool
above_text s none = ok true
above_text s (some t) = or_value_error (severity_of_value t) >>= λ floor.
    ok (leb (severity_order floor) (severity_order s))

unfoldable pub check_escalation : SeverityRules → ConsolidatedFinding → Result Bool
check_escalation r f =
    if not (is_actionable f)
    then ok false
    else if leb (effective_downgrade_threshold r f) f.confidence.overall
    then ok false
    else (mapped_severity r.downgrade_map f.severity >>= λ s.
        if severity_eq s f.severity then ok false else above_text s r.minimum_severity)

-- an entry of the override history of a finding
pub record OverrideHistory : Type 0 where
  pub count : Option ℕ
  pub from_severity : Option String
  pub to_severity : Option String

pub record RuleChange : Type 0 where
  pub finding_key : String
  pub current_default : Option String
  pub suggested_default : Option String
  pub override_count : ℕ

abbrev or_three : Option ℕ → ℕ
or_three none = 3
or_three (some n) = n

-- suggest_rule_changes, for the rules' suggestion_threshold
unfoldable pub suggest_rule_changes : Option ℕ → List (String × OverrideHistory) → List RuleChange
suggest_rule_changes threshold [] = []
suggest_rule_changes threshold ((key, h) ∷ hs) =
    let rest = suggest_rule_changes threshold hs in
    if leb (or_three threshold) (or_zero h.count)
    then record {
      finding_key = key;
      current_default = h.from_severity;
      suggested_default = h.to_severity;
      override_count = or_zero h.count;
    }
      ∷ rest
    else rest
