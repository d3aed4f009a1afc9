-- ===== src/Persistence/Findings.antt =====
-- persistence/finding_repo.py and coverage_repo.py: what the stages save and load. The text columns
-- that hold JSON are not modelled: a saved value is loaded as it was.
pub mod Reloading
pub mod Overriding
use Prim.Native.String
use Prim.Native.Nat.{Ordering}
use gxassessms.Base.{
  String, Bool, true, false, not, Option, none, some, List, [], ◌∷◌, ◌++◌, ◌&&◌, str_eq,
  if◌then◌else◌, select, map, sort_by, contains, ◌||◌,
}
use gxassessms.Errors.{ok, err, other_error}
use gxassessms.Exec.{Exec, modify}
use gxassessms.Domain.Enums.{severity_value}
use gxassessms.Domain.Findings.{Finding, ConsolidatedFinding, tool_value}
use gxassessms.Persistence.Store.{Store, CoverageRow}

-- the rows of a table for one engagement
abbrev pub belongs : {A : Type 0} → String → String × A → Bool
belongs engagement_id (owner, _) = str_eq owner engagement_id

abbrev pub owned_by : {A : Type 0} → String → List A → List (String × A)
owned_by engagement_id xs = map (λ x. (engagement_id, x)) xs

-- a ≤ b, as SQLite orders texts
abbrev pub text_le : String → String → Bool
text_le a b = elim (String.compare a b) [ Ordering.gt ↦ false | _ ↦ true ]

-- DELETE FROM findings WHERE engagement_id = ? AND tool_source != 'Manual', negated
abbrev pub survives : String → String × Finding → Bool
survives engagement_id (owner, f) =
    not (str_eq owner engagement_id && not (str_eq (tool_value f.tool) "Manual"))

unfoldable pub save_parsed_findings : String → List Finding → Exec Store (Unit {0})
unfolding tool_value
save_parsed_findings engagement_id fs = modify λ s. record s {
  findings = select (survives engagement_id) s.findings ++ owned_by engagement_id fs;
}

-- ORDER BY severity, title: both are compared as texts
abbrev pub row_le : Finding → Finding → Bool
row_le a b =
    if str_eq (severity_value a.severity) (severity_value b.severity)
    then text_le a.title b.title
    else text_le (severity_value a.severity) (severity_value b.severity)

unfoldable pub get_parsed_as_findings : Store → String → List Finding
unfolding sort_by
get_parsed_as_findings s engagement_id =
    sort_by row_le (map (λ r. r.1) (select (belongs engagement_id) s.findings))

-- the finding_instance_id that the table has for a finding_key of the engagement, the last row's
unfoldable pub existing_id : String → String → List (String × ConsolidatedFinding) → Option String
existing_id engagement_id key [] = none
existing_id engagement_id key ((owner, f) ∷ rows) = elim (existing_id engagement_id key rows) [
  | some found ↦ some found
  | none ↦
      if str_eq owner engagement_id && str_eq f.finding_key key
      then some f.finding_instance_id
      else none
]

abbrev kept_id : Option String → ConsolidatedFinding → ConsolidatedFinding
kept_id none f = f
kept_id (some old) f = record f { finding_instance_id = old }

-- the findings with the identities that the table has for their keys
abbrev pub with_kept_ids :
    String
    → List (String × ConsolidatedFinding)
    → List ConsolidatedFinding
    → List ConsolidatedFinding
with_kept_ids engagement_id rows fs =
    map (λ f. kept_id (existing_id engagement_id f.finding_key rows) f) fs

abbrev pub other_rows : {A : Type 0} → String → List (String × A) → List (String × A)
other_rows engagement_id rows = select (λ r. not (belongs engagement_id r)) rows

-- finding_instance_id is the table's primary key: an INSERT of one that is there raises IntegrityError
unfoldable pub collides : List String → List ConsolidatedFinding → Bool
unfolding contains
collides present [] = false
collides present (f ∷ fs) =
    contains str_eq f.finding_instance_id present || collides (f.finding_instance_id ∷ present) fs

abbrev pub is_refused :
    String → List (String × ConsolidatedFinding) → List ConsolidatedFinding → Bool
is_refused engagement_id rows fs =
    collides (map (λ r. r.1.finding_instance_id) (other_rows engagement_id rows))
      (with_kept_ids engagement_id rows fs)

-- one transaction, which is taken back where an INSERT raises
unfoldable pub save_consolidated_findings :
    String → List ConsolidatedFinding → Exec Store (Unit {0})
unfolding existing_id collides
save_consolidated_findings engagement_id fs s =
    let rows = s.consolidated_findings in
    if is_refused engagement_id rows fs then (err other_error, s) else (
      ok tt,
      record s {
        consolidated_findings =
            other_rows engagement_id rows
            ++ owned_by engagement_id (with_kept_ids engagement_id rows fs);
      },
    )

abbrev pub consolidated_le : ConsolidatedFinding → ConsolidatedFinding → Bool
consolidated_le a b =
    if str_eq (severity_value a.severity) (severity_value b.severity)
    then text_le a.title b.title
    else text_le (severity_value a.severity) (severity_value b.severity)

unfoldable pub get_consolidated_as_findings : Store → String → List ConsolidatedFinding
unfolding sort_by
get_consolidated_as_findings s engagement_id =
    sort_by consolidated_le
      (map (λ r. r.1) (select (belongs engagement_id) s.consolidated_findings))

unfoldable pub delete_coverage : String → Exec Store (Unit {0})
delete_coverage engagement_id = modify λ s. record s {
  coverage_records = select (λ r. not (belongs engagement_id r)) s.coverage_records;
}

unfoldable pub save_coverage : String → List CoverageRow → Exec Store (Unit {0})
save_coverage engagement_id rs =
    modify λ s. record s { coverage_records = s.coverage_records ++ owned_by engagement_id rs }

unfoldable pub get_coverage : Store → String → List CoverageRow
get_coverage s engagement_id = map (λ r. r.1) (select (belongs engagement_id) s.coverage_records)
