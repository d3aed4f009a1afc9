-- ===== src/Pipeline/Orchestrator/Interventions/Recorded.antt =====
-- pipeline/orchestrator.py: what the journal answers about raw output behind a record of it.
use gxassessms.Base.{
  ℕ, String, ◌≡◌, refl, ap, ◌∙◌, Bool, true, false, some, List, [], ◌∷◌, ◌++◌, ◌&&◌, ◌||◌, str_eq,
  if◌then◌else◌, arith,
}
use gxassessms.Persistence.Store.{Store, EventRow, Payload, raw_output_ingested}
use gxassessms.Persistence.Journal.{get_events_by_type}
use gxassessms.Persistence.Journal.Laws.{IsChronological, get_events_by_type-append}
use gxassessms.Pipeline.Orchestrator.Interventions.{
  Query, answers, scan_ingested, has_raw_output_ingested_event, record_raw_output_ingested,
  ingested_payload,
}

scan_ingested-append :
    (q : Query) (es es' : List EventRow)
    → scan_ingested q (es ++ es') ≡ (scan_ingested q es || scan_ingested q es')
unfolding scan_ingested
scan_ingested-append q [] es' = refl
scan_ingested-append q (e ∷ es) es' = ground (arith, scan_ingested-append q es es')

-- one more event, on a condition
scan_ingested-if :
    (q : Query) (es : List EventRow) (e : EventRow) (p : Payload) (b : Bool)
    → e.payload ≡ some p
    → scan_ingested q (if b && true then es ++ e ∷ [] else es)
      ≡ (scan_ingested q es || b && answers q p)
unfolding scan_ingested
scan_ingested-if q es e p true h = scan_ingested-append q es (e ∷ []) ∙ rw h (ground arith)
scan_ingested-if q es e p false h = ground arith

-- Behind `record_raw_output_ingested`, `has_raw_output_ingested_event` answers yes for an engagement to
-- what it answered yes to before, and for the recorded engagement to what the recorded payload answers,
-- and to nothing else, if no event is dated behind the present.
pub has_raw_output_ingested_event-record_raw_output_ingested :
    (s : Store) (id other actor tool_slug source_path : String) (file_count : ℕ) (replaced : Bool)
    (ingested_at : String) (q : Query)
    → IsChronological s.now s.events
    → let (r, s') =
        record_raw_output_ingested id actor tool_slug source_path file_count replaced ingested_at
          s in
      has_raw_output_ingested_event s'.events other q ≡ (
        has_raw_output_ingested_event s.events other q
        || str_eq id other
          && answers q (ingested_payload tool_slug source_path file_count replaced ingested_at))
unfolding record_raw_output_ingested has_raw_output_ingested_event
has_raw_output_ingested_event-record_raw_output_ingested s id other actor tool_slug source_path
      file_count replaced ingested_at q c =
    let e : EventRow = record {
      engagement_id = id;
      timestamp = s.now;
      event_type = raw_output_ingested;
      actor = actor;
      payload = some (ingested_payload tool_slug source_path file_count replaced ingested_at);
    } in
    ap (scan_ingested q) (get_events_by_type-append s.events e other raw_output_ingested c)
    ∙ scan_ingested-if q (get_events_by_type s.events other raw_output_ingested) e _
        (str_eq id other) refl
