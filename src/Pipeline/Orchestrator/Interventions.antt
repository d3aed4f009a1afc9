-- ===== src/Pipeline/Orchestrator/Interventions.antt =====
-- pipeline/orchestrator.py: what an operator changes behind the pipeline's back, under the engagement's
-- lock and with an event in the journal, and the record of raw output that was brought in.
pub mod Recorded
use gxassessms.Base.{
  ℕ, String, Bool, true, false, Option, none, some, List, [], ◌∷◌, ◌==◌, ◌&&◌, str_eq,
  if◌then◌else◌, lookup,
}
use gxassessms.Exec.{Exec, ◌>>=◌, ◌>>◌}
use gxassessms.Domain.Enums.{Severity, severity_value}
use gxassessms.Domain.Findings.{Finding}
use gxassessms.Persistence.Store.{
  Store, EventRow, Payload, Value, text, number, flag, override, manual_finding_added,
  raw_output_ingested,
}
use gxassessms.Persistence.Journal.{get_events_by_type}
use gxassessms.Persistence.Findings.Overriding
use gxassessms.Pipeline.State.{hold, payload_is}
use gxassessms.Pipeline.Orchestrator.{emit_event}

abbrev pub override_payload : String → Severity → String → Payload
override_payload finding_id new_severity reason =
    ("finding_id", text finding_id)
    ∷ ("field", text "severity")
    ∷ ("new_severity", text (severity_value new_severity))
    ∷ ("reason", text reason)
    ∷ []

unfoldable pub override_severity :
    String → String → Severity → String → String → Exec Store (Unit {0})
unfolding hold Overriding.override_severity emit_event severity_value
override_severity engagement_id finding_id new_severity reason actor = hold engagement_id do
  Overriding.override_severity finding_id new_severity reason actor engagement_id
  emit_event engagement_id override actor (override_payload finding_id new_severity reason)

unfoldable pub add_manual_finding : String → Finding → String → Exec Store (Unit {0})
unfolding hold Overriding.add_manual_finding emit_event severity_value
add_manual_finding engagement_id finding actor = hold engagement_id do
  Overriding.add_manual_finding engagement_id finding
  emit_event engagement_id manual_finding_added actor (
      ("finding_key", text finding.finding_key)
      ∷ ("severity", text (severity_value finding.severity))
      ∷ [])

-- RawOutputIngestedPayload; the time stands as its isoformat
abbrev pub ingested_payload : String → String → ℕ → Bool → String → Payload
ingested_payload tool_slug source_path file_count replaced ingested_at =
    ("tool_slug", text tool_slug)
    ∷ ("source_path", text source_path)
    ∷ ("file_count", number file_count)
    ∷ ("replaced", flag replaced)
    ∷ ("ingested_at", text ingested_at)
    ∷ []

unfoldable pub record_raw_output_ingested :
    String → String → String → String → ℕ → Bool → String → Exec Store (Unit {0})
unfolding emit_event
record_raw_output_ingested engagement_id actor tool_slug source_path file_count replaced
      ingested_at =
    emit_event engagement_id raw_output_ingested actor
      (ingested_payload tool_slug source_path file_count replaced ingested_at)

abbrev same_flag : Bool → Bool → Bool
same_flag true b = b
same_flag false true = false
same_flag false false = true

-- `==` with a bool, which Python takes for 0 or 1
abbrev flag_is : Bool → Option Value → Bool
flag_is b (some (flag c)) = same_flag b c
flag_is true (some (number n)) = n == 1
flag_is false (some (number n)) = n == 0
flag_is b _ = false

-- `wanted is None or payload.get(key) == wanted`
abbrev text_wanted : String → Option String → Payload → Bool
text_wanted key none p = true
text_wanted key (some t) p = payload_is key t p

abbrev flag_wanted : Option Bool → Payload → Bool
flag_wanted none p = true
flag_wanted (some b) p = flag_is b (lookup "replaced" p)

-- what `has_raw_output_ingested_event` looks for, beside the engagement
pub record Query : Type 0 where
  pub tool_slug : String
  pub source_path : Option String
  pub replaced : Option Bool
  pub ingested_at : Option String

unfoldable pub answers : Query → Payload → Bool
unfolding payload_is lookup
answers q p =
    payload_is "tool_slug" q.tool_slug p
    && text_wanted "source_path" q.source_path p
    && flag_wanted q.replaced p
    && text_wanted "ingested_at" q.ingested_at p

-- an event whose payload is corrupt is passed over
abbrev answered_by : Query → Option Payload → Bool
answered_by q none = false
answered_by q (some p) = answers q p

unfoldable pub scan_ingested : Query → List EventRow → Bool
unfolding answers
scan_ingested q [] = false
scan_ingested q (e ∷ es) =
    let rest = scan_ingested q es in if answered_by q e.payload then true else rest

unfoldable pub has_raw_output_ingested_event : List EventRow → String → Query → Bool
unfolding get_events_by_type scan_ingested
has_raw_output_ingested_event events engagement_id q =
    scan_ingested q (get_events_by_type events engagement_id raw_output_ingested)
