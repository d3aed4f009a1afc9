-- ===== src/Examples/Running.antt =====
-- The theorems on the journal, the locks and the runs, at an engagement that has just been created.
use gxassessms.Base.{
  ◌≤◌, ◌<◌, ◌≡◌, refl, arith, true, none, some, List, [], ◌∷◌, ◌++◌, All, contains, str_eq, lookup,
  sort_by, insert_by, sort_onto,
}
use gxassessms.Exec.{Exec, raise}
use gxassessms.Errors.{
  ok, err, adapter_error, persistence_error, pipeline_error, is_gx_assess_error,
}
use gxassessms.Domain.Lifecycle.{created, state_value, can_transition_to}
use gxassessms.Persistence.Store.{EngagementRow, Store, EventRow, state_transition, rerun}
use gxassessms.Persistence.Journal.{get_events_by_type}
use gxassessms.Pipeline.Stages
use gxassessms.Pipeline.Stages.{stage_states}
use gxassessms.Pipeline.State.{extract_payload, payload_is, payload_text}
use gxassessms.Pipeline.Orchestrator.{
  transition_state, determine_resume_stage, verify_qa_for_render, scan_approval, check_reruns,
}
use gxassessms.Pipeline.Orchestrator.Journaling.{state_column, journal_state, IsCoherent}
use gxassessms.Pipeline.Orchestrator.Approval.{
  event, IsReadable, rerun_invalidates, approval_restores,
}
use gxassessms.Pipeline.Handlers.{empty_context, dispatch, run_collect}
use gxassessms.Pipeline.Runner.{guarded_stage, is_caught, reraised, run_stages}
use gxassessms.Pipeline.Runner.Coherence.{run_stages-IsCoherent, held-run_stages}
use gxassessms.Pipeline.Runner.Failing.{fail_then_resume}
use gxassessms.Examples.{fresh, new_row, unreachable, approval, parse_again}

here : "CREATED" ≡ state_value created
unfolding state_value
here = refl

found : lookup "e1" fresh.engagements ≡ some new_row
unfolding lookup
found = refl

can_run : can_transition_to created (Stages.running_state Stages.collect) ≡ true
unfolding can_transition_to stage_states
can_run = refl

raised :
    (dispatch unreachable "e1" Stages.collect
      (empty_context unreachable)
      (transition_state "e1" created (Stages.running_state Stages.collect) none fresh).1).0
    ≡ err adapter_error
unfolding dispatch run_collect
raised = refl

caught : is_caught adapter_error ≡ true
unfolding is_caught is_gx_assess_error
caught = refl

fail_then_resume_example :
    let (r, s') =
      guarded_stage unreachable "e1" none Stages.collect created
        (empty_context unreachable)
        fresh in
    (r ≡ err (reraised Stages.collect adapter_error))
    × (state_column s'.engagements "e1" ≡ some "FAILED")
    × ((determine_resume_stage "e1" s').0 ≡ ok (some Stages.collect))
fail_then_resume_example =
    fail_then_resume unreachable "e1" none Stages.collect created (empty_context unreachable)
      new_row fresh adapter_error tt found here can_run raised caught

fresh-IsCoherent : IsCoherent fresh
unfolding lookup journal_state
fresh-IsCoherent id = ground arith

run_stages-IsCoherent_example : IsCoherent (run_stages unreachable "e1" Stages.collect none fresh).1
run_stages-IsCoherent_example =
    run_stages-IsCoherent unreachable "e1" Stages.collect none fresh fresh-IsCoherent

held-run_stages_example :
    ((run_stages unreachable "e1" Stages.collect none fresh).1.held ≡ [])
    × (contains str_eq "e1" [] ≡ true
        → (run_stages unreachable "e1" Stages.collect none fresh).1 ≡ fresh)
held-run_stages_example = held-run_stages unreachable "e1" Stages.collect none fresh

abbrev refuse : Exec Store (Unit {0})
refuse = raise persistence_error

abbrev approved : List EventRow
approved = event "e1" state_transition 5 "qa" approval ∷ []

abbrev rerun_later : EventRow
rerun_later = event "e1" rerun 7 "system" parse_again

dated : All (λ e. e.timestamp ≤ 7) approved
dated = (omega arith, tt)

before : All (λ e. e.timestamp < 7) (get_events_by_type approved "e1" state_transition)
unfolding get_events_by_type sort_by sort_onto insert_by
before = (omega arith, tt)

upstream :
    contains str_eq
      (payload_text "target_stage" "" parse_again)
      ("COLLECT" ∷ "PARSE" ∷ "NORMALIZE" ∷ "CONSOLIDATE" ∷ [])
    ≡ true
unfolding contains payload_text lookup
upstream = refl

allowed : verify_qa_for_render approved "e1" ≡ ok tt
unfolding verify_qa_for_render get_events_by_type sort_by sort_onto insert_by scan_approval
    check_reruns extract_payload payload_is lookup
allowed = refl

rerun_invalidates_example :
    verify_qa_for_render (approved ++ rerun_later ∷ []) "e1" ≡ err (pipeline_error "RENDER")
rerun_invalidates_example =
    rerun_invalidates approved "e1" 7 "system" parse_again dated before upstream allowed

abbrev rerun_first : List EventRow
rerun_first = event "e1" rerun 3 "system" parse_again ∷ []

approves : payload_is "to" "QA_APPROVED" approval ≡ true
unfolding payload_is lookup
approves = refl

readable : All IsReadable rerun_first
readable = ((parse_again, refl), tt)

early : All (λ e. e.timestamp ≤ 5) rerun_first
early = (omega arith, tt)

approval_restores_example :
    verify_qa_for_render (rerun_first ++ event "e1" state_transition 5 "qa" approval ∷ []) "e1"
    ≡ ok tt
approval_restores_example =
    approval_restores rerun_first "e1" 5 "qa" approval early readable approves

abbrev busy_row : EngagementRow
busy_row = record new_row { state = "COLLECTING" }

abbrev busy : Store
busy = record fresh { engagements = ("e1", busy_row) ∷ [] }
