-- ===== src/Pipeline/Runner/Hashes.antt =====
-- The content hash that a completed stage leaves in the journal decides whether it is run again.
use mathlib.Core.List.{reverse, reverse-append}
use gxassessms.Base.{String, ◌≡◌, refl, true, not, some, List, ◌∷◌, arith, lookup, str_eq, eq_refl}
use gxassessms.Errors.{ok}
use gxassessms.Domain.Lifecycle.{EngagementState, state_value, can_transition_to}
use gxassessms.Persistence.Store.{Store, EngagementRow, EventRow, state_transition}
use gxassessms.Persistence.Journal.{get_events_by_type}
use gxassessms.Persistence.Journal.Laws.{
  IsChronological, IsChronological-later, get_events_by_type-append,
}
use gxassessms.Pipeline.Stages.{Stage, running_state, completed_state, stage_states}
use gxassessms.Pipeline.Orchestrator.{
  transition_payload, transition_state, find_stage_hash, get_last_stage_hash, is_stage_invalidated,
}
use gxassessms.Pipeline.Runner.Failing.{moved_event, transition_state-moved}

running-completed :
    (stage : Stage) → can_transition_to (running_state stage) (completed_state stage) ≡ true
unfolding stage_states can_transition_to
running-completed stage = ground arith

find_stage_hash-recorded :
    (from to : EngagementState) (h : String) (e : EventRow) (es : List EventRow)
    → e.payload ≡ some (transition_payload from to (some h))
    → find_stage_hash to (e ∷ es) ≡ ok (some h)
unfolding find_stage_hash
find_stage_hash-recorded from to h e es p = rw (p, eq_refl (state_value to)) refl

-- Let no event of the journal be dated behind the clock, and let the engagement be in the running
-- state of a stage. Then behind the transition that completes the stage with a content hash, the
-- stage counts as invalidated for a current hash exactly when that hash is another one.
pub transition_state-is_stage_invalidated :
    (id : String) (stage : Stage) (h current : String) (row : EngagementRow) (s : Store)
    → IsChronological s.now s.events
    → lookup id s.engagements ≡ some row
    → row.state ≡ state_value (running_state stage)
    → is_stage_invalidated
        (transition_state id (running_state stage) (completed_state stage) (some h) s).1.events
        id
        stage
        current
      ≡ ok (not (str_eq h current))
unfolding is_stage_invalidated get_last_stage_hash
transition_state-is_stage_invalidated id stage h current row s dated found here =
    let e = moved_event id (running_state stage) (completed_state stage) (some h) row s in
    let done =
      transition_state-moved id (running_state stage) (completed_state stage) (some h) row s found
        here (running-completed stage) in
    let journal =
      get_events_by_type-append s.events e id state_transition
        (IsChronological-later s.now e.timestamp s.events (omega arith) dated) in
    rw
      (
        done,
        journal,
        eq_refl id,
        reverse-append,
        find_stage_hash-recorded (running_state stage) (completed_state stage) h e
            (reverse (get_events_by_type s.events id state_transition)) refl,
      )
      refl
