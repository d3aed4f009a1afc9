-- ===== src/Pipeline/Runner/Failing.antt =====
-- A stage that raises: the engagement is marked FAILED, and the failed stage is found again.
use mathlib.Core.List.{reverse, reverse-append}
use gxassessms.Base.{
  ◌+◌, suc, String, ◌≡◌, refl, sym, ◌∙◌, ap, subst, true, Option, none, some, List, [], ◌∷◌, ◌++◌,
  arith, lookup, upsert, lookup-upsert_self, eq_refl,
}
use gxassessms.Errors.{Error, ok, err}
use gxassessms.Domain.Lifecycle.{
  EngagementState, failed, state_value, state_of_value, can_transition_to, assert_can_transition_to,
  state_of_value-state_value,
}
use gxassessms.Persistence.Store.{Store, EngagementRow, EventRow, state_transition}
use gxassessms.Persistence.Journal.{get_events_by_type}
use gxassessms.Persistence.Journal.Laws.{
  IsChronological, IsChronological-append, get_events_by_type-append,
}
use gxassessms.Persistence.Engagements.{update_state}
use gxassessms.Pipeline.Stages.{Stage, collect, running_state, stage_states, owner_of_running}
use gxassessms.Pipeline.Collaborators.{Collaborators}
use gxassessms.Pipeline.Orchestrator.{
  transition_payload, emit_event, transition_state, find_failed_stage, determine_resume_stage,
}
use gxassessms.Pipeline.Handlers.{StageContext, dispatch}
use gxassessms.Pipeline.Runner.{guarded_stage, is_caught, reraised}
use gxassessms.Pipeline.Runner.Invariants.{TableInvariant, dispatch-Keeps}
use gxassessms.Pipeline.Orchestrator.Journaling.{column_of, state_column}

module _ (id : String) (from to : EngagementState) (h : Option String) (row : EngagementRow)
    (s : Store) where
  abbrev pub moved_row : EngagementRow
  moved_row = record row { state = state_value to; updated_at = some s.now }

  abbrev pub moved_event : EventRow
  moved_event = record {
    engagement_id = id;
    timestamp = s.now + s.pace s.readings;
    event_type = state_transition;
    actor = "system";
    payload = some (transition_payload from to h);
  }

  -- the store behind a transition that succeeds
  abbrev pub moved : Store
  moved = record s {
    engagements = upsert id moved_row s.engagements;
    events = s.events ++ moved_event ∷ [];
    now = s.now + s.pace s.readings + s.pace (suc s.readings);
    readings = suc (suc s.readings);
  }

  -- A transition that the table allows, from the state that the engagement is in, succeeds: the row
  -- has the new state and the time of the first clock reading, the journal has one event more, with
  -- both states and the time of the second reading, and nothing else changes but the clock.
  pub transition_state-moved :
      lookup id s.engagements ≡ some row
      → row.state ≡ state_value from
      → can_transition_to from to ≡ true
      → transition_state id from to h s ≡ (ok tt, moved)
  unfolding transition_state update_state emit_event assert_can_transition_to
  transition_state-moved found here can =
      let read : state_of_value row.state ≡ some from =
        ap state_of_value here ∙ state_of_value-state_value from in
      rw (can, found, read, can) refl

find_failed_stage-moved :
    (stage : Stage) (e : EventRow) (es : List EventRow)
    → e.payload ≡ some (transition_payload (running_state stage) failed none)
    → find_failed_stage (e ∷ es) ≡ ok (some stage)
unfolding find_failed_stage stage_states state_value
find_failed_stage-moved collect e es p = rw p refl
find_failed_stage-moved stage e es p = rw p refl

running-failed : (stage : Stage) → can_transition_to (running_state stage) failed ≡ true
unfolding stage_states can_transition_to
running-failed stage = ground arith

-- the parts of a store that a stage's handler leaves alone
abbrev pub Same : Store → Store → Type 0
Same s t = (t.engagements ≡ s.engagements) × (t.events ≡ s.events) × (t.now ≡ s.now)

pub dispatch-Same :
    (c : Collaborators) (id : String) (stage : Stage) (ctx : StageContext c) (s : Store)
    → Same s (dispatch c id stage ctx s).1
dispatch-Same c id stage ctx s =
    let inv : TableInvariant (Same s) = record { tables = λ t fs ms rs h. h } in
    (dispatch-Keeps inv c id stage ctx).behind s (refl, refl, refl)

reads_failed :
    (id : String) (row : EngagementRow) (s : Store) (e : EventRow) (es : List EventRow)
    (stage : Stage)
    → lookup id s.engagements ≡ some row
    → row.state ≡ state_value failed
    → get_events_by_type s.events id state_transition ≡ es ++ e ∷ []
    → e.payload ≡ some (transition_payload (running_state stage) failed none)
    → (determine_resume_stage id s).0 ≡ ok (some stage)
unfolding determine_resume_stage owner_of_running
reads_failed id row s e es stage found here journal says =
    let read : state_of_value row.state ≡ some failed =
      ap state_of_value here ∙ state_of_value-state_value failed in
    rw (found, read, journal, reverse-append) (find_failed_stage-moved stage e (reverse es) says)

module _ (c : Collaborators) (id : String) (stop : Option Stage) (stage : Stage)
    (current : EngagementState) (ctx : StageContext c) where
  -- Let no event of the journal be dated behind the clock, let the engagement be in a state from which
  -- the stage's running state can be entered, and let the stage's handler raise an exception that the
  -- loop names. Then the loop's `try` statement raises the PipelineError of the stage (or the one that
  -- the handler raised), the engagement is FAILED in the database, and `determine_resume_stage` gives
  -- that stage.
  pub fail_then_resume :
      (row : EngagementRow) (s : Store) (e : Error)
      → IsChronological s.now s.events
      → lookup id s.engagements ≡ some row
      → row.state ≡ state_value current
      → can_transition_to current (running_state stage) ≡ true
      → (dispatch c id stage ctx (transition_state id current (running_state stage) none s).1).0
        ≡ err e
      → is_caught e ≡ true
      → let (r, s') = guarded_stage c id stop stage current ctx s in
        (r ≡ err (reraised stage e))
        × (state_column s'.engagements id ≡ some "FAILED")
        × ((determine_resume_stage id s').0 ≡ ok (some stage))
  unfolding guarded_stage state_value
  fail_then_resume row s e dated found here can raised caught =
      let run = running_state stage in
      let first = transition_state-moved id current run none row s found here can in
      let s1 = moved id current run none row s in
      let row1 = moved_row id current run none row s in
      let raised1 : (dispatch c id stage ctx s1).0 ≡ err e = rw first at raised in
      let s2 = (dispatch c id stage ctx s1).1 in
      let same = dispatch-Same c id stage ctx s1 in
      let found2 : lookup id s2.engagements ≡ some row1 =
        ap (lookup id) same.0 ∙ lookup-upsert_self id row1 s.engagements in
      let second =
        transition_state-moved id run failed none row1 s2 found2 refl (running-failed stage) in
      let row2 = moved_row id run failed none row1 s2 in
      let e1 = moved_event id current run none row s in
      let e2 = moved_event id run failed none row1 s2 in
      let s3 = moved id run failed none row1 s2 in
      let stored = lookup-upsert_self id row2 s2.engagements in
      let dated2 : IsChronological e2.timestamp s2.events =
        subst (λ es. IsChronological e2.timestamp es) (sym same.1)
          (IsChronological-append s.now e2.timestamp s.events e1 (omega (arith, same.2))
            (omega (arith, same.2)) dated) in
      let journal = get_events_by_type-append s2.events e2 id state_transition dated2 in
      rw (first, raised1, caught, second)
        (
          refl,
          ap column_of stored,
          reads_failed id row2 s3 e2 (get_events_by_type s2.events id state_transition) stage stored
              refl (rw (eq_refl id) at journal) refl,
        )
