-- ===== src/Persistence/Journal.antt =====
-- persistence/event_repo.py: the append-only journal of events. Its laws are in the child module.
pub mod Laws
use gxassessms.Base.{
  ℕ, String, Bool, Option, some, List, [], ◌∷◌, ◌++◌, ◌==◌, ◌&&◌, leb, str_eq, select, sort_by,
}
use gxassessms.Exec.{Exec}
use gxassessms.Errors.{ok}
use gxassessms.Persistence.Store.{
  Store, EventRow, EventType, Payload, state_transition, override, ai_modification, rerun,
  manual_finding_added, lock_broken, stale_recovery, narrative_edit, narrative_approval, rerender,
  token_usage, manual_merge, raw_output_ingested,
}

abbrev pub event_type_position : EventType → ℕ
event_type_position state_transition = 0
event_type_position override = 1
event_type_position ai_modification = 2
event_type_position rerun = 3
event_type_position manual_finding_added = 4
event_type_position lock_broken = 5
event_type_position stale_recovery = 6
event_type_position narrative_edit = 7
event_type_position narrative_approval = 8
event_type_position rerender = 9
event_type_position token_usage = 10
event_type_position manual_merge = 11
event_type_position raw_output_ingested = 12

abbrev pub event_type_eq : EventType → EventType → Bool
event_type_eq a b = event_type_position a == event_type_position b

-- INSERT INTO pipeline_events; the PersistenceError that follows where the database refuses it is not
-- modelled
unfoldable pub append : EventRow → Exec Store (Unit {0})
append e s = (ok tt, record s { events = s.events ++ e ∷ [] })

-- WHERE engagement_id = ? AND event_type = ?
abbrev pub of_type : String → EventType → EventRow → Bool
of_type engagement_id event_type e =
    str_eq e.engagement_id engagement_id && event_type_eq e.event_type event_type

-- ORDER BY timestamp, rowid
abbrev pub not_after : EventRow → EventRow → Bool
not_after a b = leb a.timestamp b.timestamp

unfoldable pub get_events : List EventRow → String → List EventRow
unfolding sort_by
get_events events engagement_id =
    sort_by not_after (select (λ e. str_eq e.engagement_id engagement_id) events)

unfoldable pub get_events_by_type : List EventRow → String → EventType → List EventRow
unfolding sort_by
get_events_by_type events engagement_id event_type =
    sort_by not_after (select (of_type engagement_id event_type) events)
