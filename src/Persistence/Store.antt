-- ===== src/Persistence/Store.antt =====
-- The state that the pipeline's objects share: the tables of the database that they read and write
-- (persistence/migrations), the advisory locks of pipeline/state.py, and the clock.
use gxassessms.Base.{ℕ, ◌+◌, String, Bool, Option, List, suc}
use gxassessms.Exec.{Exec}
use gxassessms.Errors.{ok}
use gxassessms.Domain.Findings.{Finding, ConsolidatedFinding}

-- a row of `engagements`; `state` is the column's text
pub record EngagementRow : Type 0 where
  pub client_name : String
  pub tenant_id : String
  pub state : String
  pub created_at : ℕ
  pub updated_at : Option ℕ
  pub engagement_dir : Option String
  -- the JSON text
  pub config_snapshot : String

-- the EventType literals
pub data EventType : Type 0 where
  state_transition override ai_modification rerun manual_finding_added : EventType
  lock_broken stale_recovery narrative_edit narrative_approval rerender : EventType
  token_usage manual_merge raw_output_ingested : EventType

-- a value in a payload
pub data Value : Type 0 where
  text : String → Value
  number : ℕ → Value
  flag : Bool → Value

abbrev pub Payload : Type 0
Payload = List (String × Value)

-- a row of `pipeline_events`; `payload` is `none` where the column's text is not JSON
pub record EventRow : Type 0 where
  pub engagement_id : String
  pub timestamp : ℕ
  pub event_type : EventType
  pub actor : String
  pub payload : Option Payload

-- a row of `coverage_records`
pub record CoverageRow : Type 0 where
  pub control_id : String
  pub tool_source : String
  pub status : String
  pub reason : Option String

-- a row of `overrides`
pub record OverrideRow : Type 0 where
  pub finding_id : String
  pub field : String
  pub old_value : String
  pub new_value : String
  pub reason : String
  pub actor : String
  pub created_at : ℕ

pub record Store : Type 0 where
  pub engagements : List (String × EngagementRow)
  pub events : List EventRow
  -- rows with their engagement_id
  pub findings : List (String × Finding)
  pub consolidated_findings : List (String × ConsolidatedFinding)
  pub coverage_records : List (String × CoverageRow)
  pub overrides : List (String × OverrideRow)
  -- rows whose other columns nothing here reads
  pub stage_history : List (String × String)
  pub longitudinal_snapshots : List (String × String)
  pub tool_run_results : List (String × String)
  -- EngagementLock._locks: the engagements that this process holds
  pub held : List String
  -- the engagements whose lock file another process holds
  pub held_elsewhere : List String
  -- the clock: its present reading, and how far it goes on before each later reading
  pub now : ℕ
  pub readings : ℕ
  pub pace : ℕ → ℕ

-- utc_now()
unfoldable pub utc_now : Exec Store ℕ
utc_now s = (ok s.now, record s { now = s.now + s.pace s.readings; readings = suc s.readings })
