-- ===== src/Pipeline/Runner.antt =====
-- pipeline/_runner.py: the stage loop with its error paths, the recovery of a stale state and the
-- loading of what earlier runs left.
mod Invariants
pub mod Coherence
pub mod Failing
pub mod Hashes
pub mod Succeeding
pub mod Completing
use gxassessms.Base.{
  ℕ, String, Bool, true, false, not, Option, none, some, List, [], ◌∷◌, ◌++◌, ◌&&◌, ◌||◌, str_eq,
  if◌then◌else◌, group_by, add_to_group, any,
}
use gxassessms.Exec.{Exec, pure, raise, lift, gets, modify, continue, ◌>>=◌, ◌>>◌}
use gxassessms.Errors
use gxassessms.Errors.{
  Error, Result, ok, err, is_gx_assess_error, config_error, adapter_error, consolidation_error,
  qa_error, report_error, persistence_error, lock_timeout_error, invalid_transition_error,
  pipeline_error, runtime_error, os_error, value_error, type_error, attribute_error, import_error,
  other_error,
}
use gxassessms.Domain.Lifecycle.{EngagementState, failed, normalized, consolidated, state_value}
use gxassessms.Domain.Findings.{ToolObservation, Finding, ConsolidatedFinding, tool_value}
use gxassessms.Persistence.Store.{
  Store, EventRow, EventType, Payload, text, state_transition, stale_recovery, CoverageRow,
}
use gxassessms.Persistence.Journal.{get_events_by_type}
use gxassessms.Persistence.Engagements.{force_update_state}
use gxassessms.Persistence.Findings.{
  save_parsed_findings, get_parsed_as_findings, save_consolidated_findings,
  get_consolidated_as_findings, delete_coverage, save_coverage, get_coverage,
}
use gxassessms.Pipeline.State.{extract_payload, payload_is, hold}
use gxassessms.Pipeline.Stages.{
  Stage, collect, parse, normalize, consolidate, review, render, stage_value, stage_eq,
  running_state, completed_state, get_stage_entry_state, get_stages_from, owner_of_running,
}
use gxassessms.Pipeline.Collaborators
use gxassessms.Pipeline.Collaborators.{
  Collaborators, ToolAdapter, merge_dedup_keys, severity_map_for, category_map_for, or_empty,
  filter_renderers, render_all, collect_coverage,
}
use gxassessms.Pipeline.Orchestrator.{
  forced, emit_event, transition_state, get_current_state, detect_stale_running,
  verify_qa_for_render,
}
use gxassessms.Pipeline.Handlers.{StageContext, empty_context, dispatch, stage_hash}

-- isinstance(e, (GxAssessError, RuntimeError, OSError)): swallowed when the move to FAILED fails
unfoldable pub is_swallowed : Error → Bool
unfolding is_gx_assess_error
is_swallowed runtime_error = true
is_swallowed os_error = true
is_swallowed e = is_gx_assess_error e

-- the exceptions that the stage loop turns into a PipelineError; PipelineError itself is among them
unfoldable pub is_caught : Error → Bool
unfolding is_gx_assess_error
is_caught runtime_error = true
is_caught os_error = true
is_caught value_error = true
is_caught type_error = true
is_caught attribute_error = true
is_caught import_error = true
is_caught e = is_gx_assess_error e

-- `except PipelineError: raise`, `except (...) as e: raise PipelineError(stage=...) from e`
unfoldable pub reraised : Stage → Error → Error
reraised stage (pipeline_error s) = pipeline_error s
reraised stage e = pipeline_error (stage_value stage)

-- _verify_stage_completed: some transition of the journal went to the state
unfoldable pub verify_stage_completed : EngagementState → Bool → List EventRow → Result (Unit {0})
unfolding extract_payload payload_is
verify_stage_completed expected seen [] =
    if seen then ok tt else err (pipeline_error (state_value expected))
verify_stage_completed expected seen (e ∷ es) =
    Errors.◌>>=◌ (extract_payload e)
      λ p. verify_stage_completed expected (seen || payload_is "to" (state_value expected) p) es

-- the payload of a recovery's event
abbrev pub recovery_payload : EngagementState → Stage → Payload
recovery_payload stale stage =
    ("from", text (state_value stale))
    ∷ ("to", text (state_value (get_stage_entry_state stage)))
    ∷ ("reason", text "Stale running state detected from prior process crash")
    ∷ []

abbrev recover_to : String → EngagementState → Option Stage → Exec Store Stage
recover_to id stale none = raise (pipeline_error "")
recover_to id stale (some stage) = do
  forced id (get_stage_entry_state stage) stale_recovery (recovery_payload stale stage)
  pure stage

unfoldable pub recover_stale_state : String → EngagementState → Exec Store Stage
recover_stale_state id stale = recover_to id stale (owner_of_running stale)

module _ (c : Collaborators) (id : String) where
  -- where the loop stands behind a stage: its state, what it has in memory, and whether it breaks
  pub record Progress : Type 0 where
    pub current : EngagementState
    pub ctx : StageContext c
    pub stops : Bool

  handle_qa_completion : StageContext c → String → Exec Store Progress
  handle_qa_completion ctx hash =
      if c.is_noop
      then (transition_state id (running_state review) (completed_state review) (some hash)
          >> pure (record { current = completed_state review; ctx = ctx; stops = false }))
      else pure (record { current = running_state review; ctx = ctx; stops = true })

  abbrev is_stop : Option Stage → Stage → Bool
  is_stop none stage = false
  is_stop (some stop) stage = stage_eq stage stop

  -- the end of a stage that did not raise
  complete_stage : Option Stage → Stage → StageContext c → String → Exec Store Progress
  unfolding handle_qa_completion
  complete_stage stop review ctx hash = handle_qa_completion ctx hash
  complete_stage stop stage ctx hash = do
    transition_state id (running_state stage) (completed_state stage) (some hash)
    pure (record { current = completed_state stage; ctx = ctx; stops = is_stop stop stage })

  -- the body of the `try`
  pub try_stage : Option Stage → Stage → EngagementState → StageContext c → Exec Store Progress
  unfolding complete_stage
  try_stage stop stage current ctx = do
    transition_state id current (running_state stage) none
    ctx' ← dispatch c id stage ctx
    complete_stage stop stage ctx' (stage_hash c id stage ctx')

  abbrev swallow : Error → Result (Unit {0}) × Store → Result Progress × Store
  swallow e (ok _, s) = (err e, s)
  swallow e (err x, s) = (if is_swallowed x then err e else err x, s)

  abbrev handle : Stage → Result Progress × Store → Result Progress × Store
  handle stage (ok p, s) = (ok p, s)
  handle stage (err e, s) =
      if is_caught e
      then swallow (reraised stage e) (transition_state id (running_state stage) failed none s)
      else (err e, s)

  -- the `try` statement of the loop
  pub guarded_stage : Option Stage → Stage → EngagementState → StageContext c → Exec Store Progress
  unfolding try_stage is_swallowed is_caught reraised
  guarded_stage stop stage current ctx s = handle stage (try_stage stop stage current ctx s)

  -- `for stage in stages`
  pub run_loop :
      Option Stage → List Stage → EngagementState → StageContext c → Exec Store (Unit {0})
  unfolding guarded_stage
  run_loop stop [] current ctx = pure tt
  run_loop stop (stage ∷ stages) current ctx = guarded_stage stop stage current ctx >>= λ p.
      if p.stops then pure tt else run_loop stop stages p.current p.ctx

  -- _rehydrate_upstream_state, with its results put into a fresh context
  pub rehydrate : Stage → Exec Store (StageContext c)
  unfolding verify_stage_completed verify_qa_for_render
  rehydrate collect = pure (empty_context c)
  rehydrate parse = do
    manifests ← lift c.load_raw_outputs
    pure (record (empty_context c) { loaded_manifests = some manifests })
  rehydrate normalize = raise (pipeline_error "NORMALIZE")
  rehydrate consolidate = do
    (λ s. (
      verify_stage_completed normalized false (get_events_by_type s.events id state_transition),
      s,
    ))
    fs ← gets (λ s. get_parsed_as_findings s id)
    pure (record (empty_context c) { findings = some fs })
  rehydrate review = do
    (λ s. (
      verify_stage_completed consolidated false (get_events_by_type s.events id state_transition),
      s,
    ))
    merged ← gets (λ s. get_consolidated_as_findings s id)
    pure (record (empty_context c) { consolidated_findings = some merged })
  rehydrate render = do
    (λ s. (verify_qa_for_render s.events id, s))
    merged ← gets (λ s. get_consolidated_as_findings s id)
    pure (record (empty_context c) { consolidated_findings = some merged })

  restart : EngagementState → Exec Store (Stage × EngagementState)
  unfolding recover_stale_state
  restart stale = do
    stage ← recover_stale_state id stale
    recovered ← get_current_state id
    pure (stage, recovered)

  -- the first steps under the lock: the stage to begin at and the state to begin in
  pub begin : Stage → Exec Store (Stage × EngagementState)
  unfolding detect_stale_running restart
  begin start = do
    current ← get_current_state id
    if detect_stale_running current then restart current else pure (start, current)

  pub run_locked : Stage → Option Stage → Exec Store (Unit {0})
  unfolding begin rehydrate run_loop
  run_locked start stop = do
    first ← begin start
    ctx ← rehydrate start
    run_loop stop (get_stages_from first.0) first.1 ctx

  abbrev pub stops_at_review : Option Stage → Bool
  stops_at_review none = false
  stops_at_review (some stop) = stage_eq stop review

  unfoldable pub run_stages : Stage → Option Stage → Exec Store (Unit {0})
  unfolding run_locked
  run_stages start stop =
      if stops_at_review stop then raise value_error else hold id (run_locked start stop)
