-- ===== src/Persistence/Engagements/Administration.antt =====
-- persistence/engagement_repo.py: creating, listing and deleting engagements. A text that
-- json.loads reads is a parameter; the primary key of the table refuses a second row of one id.
use gxassessms.Base.{
  ℕ, String, Bool, not, Option, none, some, List, [], ◌∷◌, ◌++◌, str_eq, lookup, select, sort_by,
  leb, any, ◌||◌, if◌then◌else◌,
}
use gxassessms.Errors.{Error, Result, ok, err, other_error, persistence_error}
use gxassessms.Exec.{Exec, pure, raise, gets, modify, ◌>>=◌, ◌>>◌}
use gxassessms.Domain.Lifecycle.{EngagementState, created, state_value}
use gxassessms.Persistence.Store.{Store, EngagementRow, EventRow, utc_now}
use gxassessms.Persistence.Engagements.{find_row, or_not_found, put_row}
use gxassessms.Persistence.Findings.{belongs}

abbrev new_row : String → String → String → Option String → EngagementState → ℕ → EngagementRow
new_row client_name tenant_id config_snapshot engagement_dir state now = record {
  client_name = client_name;
  tenant_id = tenant_id;
  state = state_value state;
  created_at = now;
  updated_at = none;
  engagement_dir = engagement_dir;
  config_snapshot = config_snapshot;
}

-- a row of this id is there already
abbrev absent_or : Error → Option EngagementRow → Exec Store (Unit {0})
absent_or e none = pure tt
absent_or e (some row) = raise e

-- INSERT INTO engagements
abbrev insert_row : String → EngagementRow → Exec Store (Unit {0})
insert_row engagement_id row =
    modify (λ s. record s { engagements = s.engagements ++ (engagement_id, row) ∷ [] })

-- for an engagement_id that is given, or a fresh one
unfoldable pub create : String → String → String → Option String → String → Exec Store String
unfolding utc_now lookup
create client_name tenant_id config_snapshot engagement_dir engagement_id = do
  now ← utc_now
  found ← gets (λ s. find_row s engagement_id)
  absent_or other_error found
  insert_row engagement_id
      (new_row client_name tenant_id config_snapshot engagement_dir created now)
  pure engagement_id

unfoldable pub update_engagement_dir : String → Option String → Exec Store (Unit {0})
unfolding utc_now lookup
update_engagement_dir engagement_id engagement_dir = do
  now ← utc_now
  found ← gets (λ s. find_row s engagement_id)
  row ← or_not_found found
  put_row engagement_id (record row { engagement_dir = engagement_dir; updated_at = some now })

unfoldable pub rehydrate_from_snapshot :
    String → String → String → String → Option String → EngagementState → Exec Store (Unit {0})
unfolding utc_now lookup
rehydrate_from_snapshot engagement_id client_name tenant_id config_snapshot engagement_dir
      initial_state =
    do
      now ← utc_now
      found ← gets (λ s. find_row s engagement_id)
      absent_or persistence_error found
      insert_row engagement_id
          (new_row client_name tenant_id config_snapshot engagement_dir initial_state now)

-- ORDER BY created_at DESC
abbrev newer : String × EngagementRow → String × EngagementRow → Bool
newer (_, a) (_, b) = leb b.created_at a.created_at

unfoldable pub list_by_client : Store → String → List (String × EngagementRow)
unfolding sort_by
list_by_client s client_name =
    sort_by newer (select (λ r. str_eq r.1.client_name client_name) s.engagements)

unfoldable pub list_all : Store → List (String × EngagementRow)
unfolding sort_by
list_all s = sort_by newer s.engagements

-- DELETE FROM a table WHERE engagement_id = ?
abbrev pub without : {A : Type 0} → String → List (String × A) → List (String × A)
without engagement_id rows = select (λ r. not (belongs engagement_id r)) rows

abbrev pub event_belongs : String → EventRow → Bool
event_belongs engagement_id e = str_eq e.engagement_id engagement_id

-- the database's foreign keys: every other table's rows refer to an engagement
abbrev pub is_referenced : String → Store → Bool
is_referenced engagement_id s =
    any (event_belongs engagement_id) s.events
    || any (belongs engagement_id) s.overrides
    || any (belongs engagement_id) s.stage_history
    || any (belongs engagement_id) s.longitudinal_snapshots
    || any (belongs engagement_id) s.coverage_records
    || any (belongs engagement_id) s.tool_run_results
    || any (belongs engagement_id) s.consolidated_findings
    || any (belongs engagement_id) s.findings

-- DELETE FROM engagements, which raises IntegrityError while a row refers to the engagement
abbrev pub delete_engagement_row : String → Exec Store (Unit {0})
delete_engagement_row engagement_id s =
    if is_referenced engagement_id s
    then (err other_error, s)
    else (ok tt, record s { engagements = without engagement_id s.engagements })

-- the loop over the tables
abbrev pub delete_rows : String → Exec Store (Unit {0})
delete_rows engagement_id = do
  modify (λ s. record s { events = select (λ e. not (event_belongs engagement_id e)) s.events })
  modify (λ s. record s { overrides = without engagement_id s.overrides })
  modify (λ s. record s { stage_history = without engagement_id s.stage_history })
  modify (λ s. record s { longitudinal_snapshots = without engagement_id s.longitudinal_snapshots })
  modify (λ s. record s { coverage_records = without engagement_id s.coverage_records })
  modify (λ s. record s { tool_run_results = without engagement_id s.tool_run_results })
  modify (λ s. record s { consolidated_findings = without engagement_id s.consolidated_findings })
  modify (λ s. record s { findings = without engagement_id s.findings })
  delete_engagement_row engagement_id

-- a transaction, which is taken back where its body raises
abbrev pub in_transaction : Exec Store (Unit {0}) → Exec Store (Unit {0})
in_transaction m s = committed (m s)
  where
    committed : Result (Unit {0}) × Store → Result (Unit {0}) × Store
    committed (ok _, s') = (ok tt, s')
    committed (err e, s') = (err e, s)

unfoldable pub delete : String → Exec Store (Unit {0})
unfolding lookup any
delete engagement_id = do
  found ← gets (λ s. find_row s engagement_id)
  or_not_found found
  in_transaction (delete_rows engagement_id)
