-- ===== src/Pipeline/Orchestrator.antt =====
-- pipeline/orchestrator.py: transitions with their journal events, content hashes, the freshness of
-- a QA approval, resets and the stage to resume from.
pub mod Journaling
pub mod Approval
pub mod Interventions
use mathlib.Core.List.{reverse}
use gxassessms.Base.{
  ℕ, String, Bool, true, false, not, Option, none, some, List, [], ◌∷◌, ◌++◌, ◌==◌, ◌&&◌, ◌||◌, ltb,
  str_eq, if◌then◌else◌, contains, lookup, any,
}
use gxassessms.Exec.{Exec, pure, raise, lift, gets, modify, ◌>>=◌, ◌>>◌}
use gxassessms.Errors
use gxassessms.Errors.{or_value_error, Result, ok, err, pipeline_error, value_error}
use gxassessms.Domain.Lifecycle.{
  EngagementState, created, collecting, collected, parsing, parsed, normalizing, normalized,
  consolidating, consolidated, qa_review, qa_approved, rendering, complete, failed, state_eq,
  state_value, state_of_value, assert_can_transition_to, position,
}
use gxassessms.Persistence.Store.{
  Store, EventRow, EventType, Payload, text, utc_now, state_transition, rerun,
}
use gxassessms.Persistence.Journal
use gxassessms.Persistence.Journal.{get_events_by_type}
use gxassessms.Persistence.Engagements.{get, update_state, force_update_state}
use gxassessms.Pipeline.State.{extract_payload, payload_is, payload_text}
use gxassessms.Pipeline.Stages.{
  Stage, collect, parse, normalize, consolidate, review, render, stage_value, stage_eq, stage_order,
  stage_states, running_state, completed_state, get_stage_entry_state, owner_of_running,
}

unfoldable pub emit_event : String → EventType → String → Payload → Exec Store (Unit {0})
unfolding utc_now Journal.append
emit_event engagement_id event_type actor payload = do
  now ← utc_now
  Journal.append (record {
    engagement_id = engagement_id;
    timestamp = now;
    event_type = event_type;
    actor = actor;
    payload = some payload;
  })

abbrev hash_entry : Option String → Payload
hash_entry none = []
hash_entry (some h) = ("content_hash", text h) ∷ []

-- the payload of a transition's event
abbrev pub transition_payload : EngagementState → EngagementState → Option String → Payload
transition_payload from to content_hash =
    ("from", text (state_value from)) ∷ ("to", text (state_value to)) ∷ hash_entry content_hash

unfoldable pub transition_state :
    String → EngagementState → EngagementState → Option String → Exec Store (Unit {0})
transition_state engagement_id from to content_hash = do
  lift (assert_can_transition_to from to)
  update_state engagement_id to
  emit_event engagement_id state_transition "system" (transition_payload from to content_hash)

-- the loop of `_get_last_stage_hash` over `reversed(events)`
unfoldable pub find_stage_hash : EngagementState → List EventRow → Result (Option String)
unfolding extract_payload payload_is payload_text lookup
find_stage_hash done_state [] = ok none
find_stage_hash done_state (e ∷ es) = Errors.◌>>=◌ (extract_payload e) λ p.
    if payload_is "to" (state_value done_state) p
    then ok (elim (lookup "content_hash" p) [
      | none ↦ none
      | some _ ↦ some (payload_text "content_hash" "" p)
    ])
    else find_stage_hash done_state es

unfoldable pub get_last_stage_hash : List EventRow → String → Stage → Result (Option String)
unfolding find_stage_hash
get_last_stage_hash events engagement_id stage =
    find_stage_hash (completed_state stage)
      (reverse (get_events_by_type events engagement_id state_transition))

unfoldable pub is_stage_invalidated : List EventRow → String → Stage → String → Result Bool
unfolding get_last_stage_hash
is_stage_invalidated events engagement_id stage current =
    Errors.◌>>=◌ (get_last_stage_hash events engagement_id stage)
      λ last. ok (elim last [ none ↦ true | some h ↦ not (str_eq h current) ])

-- EngagementState(engagement["state"])
unfoldable pub get_current_state : String → Exec Store EngagementState
unfolding get
get_current_state engagement_id = do
  row ← get engagement_id
  lift (or_value_error (state_of_value row.state))

-- running_states.discard(QA_REVIEW); state in running_states
unfoldable pub detect_stale_running : EngagementState → Bool
unfolding any stage_states
detect_stale_running state =
    any (λ s. state_eq (running_state s) state) stage_order && not (state_eq state qa_review)

-- the first loop of `_verify_qa_for_render`: the time of the last QA_APPROVED transition
unfoldable pub scan_approval : Option ℕ → List EventRow → Result (Option ℕ)
unfolding extract_payload payload_is
scan_approval approved [] = ok approved
scan_approval approved (e ∷ es) =
    Errors.◌>>=◌ (extract_payload e)
      λ p. scan_approval (if payload_is "to" "QA_APPROVED" p then some e.timestamp else approved) es

-- _QA_UPSTREAM_STAGES
abbrev pub qa_upstream_stages : List String
qa_upstream_stages = "COLLECT" ∷ "PARSE" ∷ "NORMALIZE" ∷ "CONSOLIDATE" ∷ []

-- the second loop: no upstream stage was run again behind the approval
unfoldable pub check_reruns : ℕ → List EventRow → Result (Unit {0})
unfolding extract_payload payload_text contains
check_reruns approved [] = ok tt
check_reruns approved (e ∷ es) = Errors.◌>>=◌ (extract_payload e) λ p.
    if contains str_eq (payload_text "target_stage" "" p) qa_upstream_stages
      && ltb approved e.timestamp
    then err (pipeline_error "RENDER")
    else check_reruns approved es

abbrev pub reruns_since : Option ℕ → List EventRow → Result (Unit {0})
reruns_since none events = err (pipeline_error "RENDER")
reruns_since (some approved) events = check_reruns approved events

unfoldable pub verify_qa_for_render : List EventRow → String → Result (Unit {0})
unfolding scan_approval check_reruns
verify_qa_for_render events engagement_id =
    Errors.◌>>=◌ (scan_approval none (get_events_by_type events engagement_id state_transition))
      λ approved. reruns_since approved (get_events_by_type events engagement_id rerun)

-- the payload of a reset's event
abbrev pub rerun_payload : EngagementState → Stage → Payload
rerun_payload current target =
    ("from_state", text (state_value current))
    ∷ ("to_state", text (state_value (get_stage_entry_state target)))
    ∷ ("target_stage", text (stage_value target))
    ∷ ("reason", text "operator_rerun")
    ∷ []

-- a forced state and the event that records it, in a reset and in the recovery of a stale state
unfoldable pub forced : String → EngagementState → EventType → Payload → Exec Store (Unit {0})
forced engagement_id state event_type payload = do
  force_update_state engagement_id state
  emit_event engagement_id event_type "system" payload

-- the guard of a reset to RENDER
abbrev pub verify_if_render : String → Stage → Exec Store (Unit {0})
verify_if_render engagement_id target s =
    (if stage_eq target render then verify_qa_for_render s.events engagement_id else ok tt, s)

unfoldable pub reset_for_rerun : String → Stage → Exec Store (Unit {0})
unfolding get_current_state verify_qa_for_render forced
reset_for_rerun engagement_id target = do
  current ← get_current_state engagement_id
  if state_eq current (get_stage_entry_state target) then pure tt else do
    verify_if_render engagement_id target
    forced engagement_id (get_stage_entry_state target) rerun (rerun_payload current target)

-- _COMPLETED_TO_NEXT
unfoldable pub completed_to_next : EngagementState → Option Stage
completed_to_next created = some collect
completed_to_next collected = some parse
completed_to_next parsed = some parse
completed_to_next normalized = some consolidate
completed_to_next consolidated = some review
completed_to_next qa_approved = some render
completed_to_next _ = none

-- `for stage, (running, _) in STAGE_STATE_MAP.items(): if running.value == text`
unfoldable pub owner_of_text : String → List Stage → Option Stage
owner_of_text t [] = none
owner_of_text t (s ∷ ss) =
    if str_eq (state_value (running_state s)) t then some s else owner_of_text t ss

abbrev or_unknown_failure : Option Stage → Result (Option Stage)
or_unknown_failure none = err (pipeline_error "")
or_unknown_failure (some s) = ok (some s)

-- the search for the failed stage, over `reversed(events)`
unfoldable pub find_failed_stage : List EventRow → Result (Option Stage)
unfolding extract_payload payload_is payload_text owner_of_text
find_failed_stage [] = err (pipeline_error "")
find_failed_stage (e ∷ es) = Errors.◌>>=◌ (extract_payload e) λ p.
    if payload_is "to" "FAILED" p
    then or_unknown_failure (owner_of_text (payload_text "from" "" p) stage_order)
    else find_failed_stage es

abbrev resume_running : EngagementState → List EventRow → Option Stage → Result (Option Stage)
resume_running state events (some stage) = ok (some stage)
resume_running state events none =
    if state_eq state failed then find_failed_stage (reverse events) else err (pipeline_error "")

abbrev resume_next : EngagementState → List EventRow → Option Stage → Result (Option Stage)
resume_next state events (some stage) = ok (some stage)
resume_next state events none = resume_running state events (owner_of_running state)

-- the body of `determine_resume_stage`, for the current state and the journal's transitions
unfoldable pub resume_stage : EngagementState → List EventRow → Result (Option Stage)
unfolding completed_to_next find_failed_stage
resume_stage state events =
    if state_eq state complete || state_eq state qa_review
    then ok none
    else resume_next state events (completed_to_next state)

unfoldable pub determine_resume_stage : String → Exec Store (Option Stage)
unfolding get_current_state resume_stage
determine_resume_stage engagement_id = do
  state ← get_current_state engagement_id
  λ s. (resume_stage state (get_events_by_type s.events engagement_id state_transition), s)
