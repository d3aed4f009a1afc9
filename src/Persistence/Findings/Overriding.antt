-- ===== src/Persistence/Findings/Overriding.antt =====
-- persistence/finding_repo.py: overriding a severity, adding a finding by hand, and deleting an
-- engagement's findings. An override_id and a finding_id that are drawn fresh are not modelled.
pub mod Overridden
use gxassessms.Base.{
  ℕ, ◌+◌, String, Bool, not, Option, none, some, List, [], ◌∷◌, ◌++◌, ◌&&◌, str_eq, if◌then◌else◌,
  map, select, length,
}
use gxassessms.Errors.{persistence_error}
use gxassessms.Exec.{Exec, pure, raise, gets, modify, ◌>>=◌, ◌>>◌}
use gxassessms.Domain.Enums.{Severity, severity_value}
use gxassessms.Domain.Findings.{Finding, ConsolidatedFinding, manual_tool}
use gxassessms.Persistence.Store.{Store, OverrideRow, utc_now}
use gxassessms.Persistence.Findings.{belongs, owned_by}

-- WHERE finding_instance_id = ? AND engagement_id = ?
abbrev pub is_finding : String → String → String × ConsolidatedFinding → Bool
is_finding engagement_id finding_id (owner, f) =
    str_eq owner engagement_id && str_eq f.finding_instance_id finding_id

-- SELECT severity FROM consolidated_findings
unfoldable pub find_severity :
    String → String → List (String × ConsolidatedFinding) → Option Severity
find_severity engagement_id finding_id [] = none
find_severity engagement_id finding_id (r ∷ rows) =
    if is_finding engagement_id finding_id r
    then some r.1.severity
    else find_severity engagement_id finding_id rows

-- UPDATE consolidated_findings SET severity = ?
abbrev pub set_severity :
    String → String → Severity → String × ConsolidatedFinding → String × ConsolidatedFinding
set_severity engagement_id finding_id severity (owner, f) =
    if is_finding engagement_id finding_id (owner, f)
    then (owner, record f { severity = severity })
    else (owner, f)

abbrev pub or_no_finding : Option Severity → Exec Store Severity
or_no_finding none = raise persistence_error
or_no_finding (some severity) = pure severity

-- INSERT INTO overrides
abbrev pub override_row : String → Severity → Severity → String → String → ℕ → OverrideRow
override_row finding_id old_severity new_severity reason actor now = record {
  finding_id = finding_id;
  field = "severity";
  old_value = severity_value old_severity;
  new_value = severity_value new_severity;
  reason = reason;
  actor = actor;
  created_at = now;
}

-- behind the SELECT: the UPDATE and the INSERT
abbrev pub overriding :
    String → Severity → String → String → String → ℕ → Option Severity → Exec Store (Unit {0})
overriding finding_id new_severity reason actor engagement_id now found = do
  old_severity ← or_no_finding found
  modify (λ s. record s {
    consolidated_findings =
        map (set_severity engagement_id finding_id new_severity) s.consolidated_findings;
    overrides =
        s.overrides
        ++ (engagement_id, override_row finding_id old_severity new_severity reason actor now) ∷ [];
  })

unfoldable pub override_severity :
    String → Severity → String → String → String → Exec Store (Unit {0})
unfolding utc_now find_severity severity_value
override_severity finding_id new_severity reason actor engagement_id = do
  now ← utc_now
  found ← gets (λ s. find_severity engagement_id finding_id s.consolidated_findings)
  overriding finding_id new_severity reason actor engagement_id now found

-- for the dict of a Finding, which has every key but finding_id
unfoldable pub add_manual_finding : String → Finding → Exec Store (Unit {0})
unfolding utc_now
add_manual_finding engagement_id f = do
  now ← utc_now
  modify (λ s. record s {
    findings = s.findings ++ owned_by engagement_id (record f { tool = manual_tool } ∷ []);
  })

-- the rows that both deletions take
unfoldable pub delete_for_engagement : String → Exec Store ℕ
delete_for_engagement engagement_id = do
  total ← gets (λ s.
      length (select (belongs engagement_id) s.consolidated_findings)
      + length (select (belongs engagement_id) s.findings))
  modify (λ s. record s {
    consolidated_findings = select (λ r. not (belongs engagement_id r)) s.consolidated_findings;
    findings = select (λ r. not (belongs engagement_id r)) s.findings;
  })
  pure total
