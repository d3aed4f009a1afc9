-- ===== src/Pipeline/Runner/Completing.antt =====
-- pipeline/_runner.py: a run whose plugins all succeed reaches COMPLETE.
use gxassessms.Base.{
  String, ◌≡◌, refl, sym, ◌∙◌, ap, subst, true, false, none, some, List, [], ◌∷◌, arith, lookup,
  lookup-upsert_self, str_eq, contains, codes, any,
}
use gxassessms.Errors.{ok}
use gxassessms.Domain.Lifecycle.{
  EngagementState, created, collected, parsed, normalized, consolidated, qa_approved, complete,
  state_value, state_of_value, state_of_value-state_value, can_transition_to,
}
use gxassessms.Domain.Findings.{ConsolidatedFinding}
use gxassessms.Persistence.Store.{Store, EngagementRow}
use gxassessms.Pipeline.Stages.{
  Stage, collect, parse, normalize, consolidate, review, render, running_state, completed_state,
  stage_states, get_stages_from,
}
use gxassessms.Pipeline.Collaborators.{Collaborators}
use gxassessms.Persistence.Engagements.{get}
use gxassessms.Pipeline.State.{acquire, release, hold, matches_id_pattern}
use gxassessms.Pipeline.Orchestrator.{transition_state, get_current_state, detect_stale_running}
use gxassessms.Pipeline.Runner.{
  complete_stage, handle_qa_completion, run_loop, guarded_stage, try_stage, run_stages, run_locked,
  begin, rehydrate,
}
use gxassessms.Pipeline.Runner.Failing.{moved, moved_row, transition_state-moved, dispatch-Same}
use gxassessms.Pipeline.Handlers.{StageContext, empty_context, stage_hash, dispatch}
use gxassessms.Pipeline.Runner.Succeeding.{
  IsWilling, Ready, Done, Fits, Left, dispatch-Done, table-Left,
}

running-completed :
    (stage : Stage) → can_transition_to (running_state stage) (completed_state stage) ≡ true
unfolding stage_states can_transition_to
running-completed stage = ground arith

module _ (c : Collaborators) (id : String) (rows : List (String × ConsolidatedFinding))
    (w : IsWilling c id rows) where
  complete_stage-ok :
      (stage : Stage) (ctx : StageContext c) (hash : String) (s s' : Store)
      → transition_state id (running_state stage) (completed_state stage) (some hash) s
        ≡ (ok tt, s')
      → complete_stage c id none stage ctx hash s
        ≡ (ok (record { current = completed_state stage; ctx = ctx; stops = false }), s')
  unfolding complete_stage handle_qa_completion
  complete_stage-ok review ctx hash s s' e = rw (w.noop, e) refl
  complete_stage-ok stage ctx hash s s' e = rw e refl

  -- the engagement is in this state
  abbrev pub At : EngagementState → Store → Type 0
  At state s =
      (row : EngagementRow) × (lookup id s.engagements ≡ some row) × (row.state ≡ state_value state)

  abbrev Stepped : Stage → List Stage → EngagementState → StageContext c → Store → Type 0
  Stepped stage rest current ctx s =
      (ctx' : StageContext c) × (s' : Store) × (run_loop c id none (stage ∷ rest) current ctx s
        ≡ run_loop c id none rest (completed_state stage) ctx' s')
      × At (completed_state stage) s'
      × Done c id rows w stage ctx'
      × Left c id rows w stage s'.consolidated_findings

  -- one round of the loop
  run_loop-Stepped :
      (stage : Stage) (rest : List Stage) (current : EngagementState) (ctx : StageContext c)
      (s : Store)
      → can_transition_to current (running_state stage) ≡ true
      → At current s
      → Ready c id rows w stage ctx
      → Fits c id rows w stage s.consolidated_findings
      → Stepped stage rest current ctx s
  unfolding run_loop guarded_stage try_stage
  run_loop-Stepped stage rest current ctx s can (row, found, here) ready fits =
      let s1 : Store = moved id current (running_state stage) none row s in
      let row1 : EngagementRow = moved_row id current (running_state stage) none row s in
      let first =
        transition_state-moved id current (running_state stage) none row s found here can in
      let (ctx', done, next) = dispatch-Done c id rows w stage ctx s1 ready fits in
      let s2 : Store = (dispatch c id stage ctx s1).1 in
      let hash : String = stage_hash c id stage ctx' in
      let found2 : lookup id s2.engagements ≡ some row1 =
        ap (lookup id) (dispatch-Same c id stage ctx s1).0
        ∙ lookup-upsert_self id row1 s.engagements in
      let s3 : Store = moved id (running_state stage) (completed_state stage) (some hash) row1 s2 in
      let second =
        transition_state-moved id (running_state stage) (completed_state stage) (some hash) row1 s2
          found2 refl (running-completed stage) in
      let row3 : EngagementRow =
        moved_row id (running_state stage) (completed_state stage) (some hash) row1 s2 in
      (
        ctx',
        s3,
        rw (first, done, complete_stage-ok stage ctx' hash s2 s3 second) refl,
        (row3, lookup-upsert_self id row3 s2.engagements, refl),
        next,
        table-Left c id rows w stage ctx s1 fits,
      )

  abbrev all_stages : List Stage
  all_stages = collect ∷ parse ∷ normalize ∷ consolidate ∷ review ∷ render ∷ []

  run_loop-At :
      (s : Store)
      → At created s
      → s.consolidated_findings ≡ rows
      → (s' : Store) × (run_loop c id none all_stages created (empty_context c) s ≡ (ok tt, s'))
        × At complete s'
  unfolding stage_states can_transition_to
  run_loop-At s here same =
      let (ctx1, s1, e1, at1, r1, t1) =
        run_loop-Stepped collect (parse ∷ normalize ∷ consolidate ∷ review ∷ render ∷ []) created
          (empty_context c) s refl here tt same in
      let (ctx2, s2, e2, at2, r2, t2) =
        run_loop-Stepped parse (normalize ∷ consolidate ∷ review ∷ render ∷ []) collected ctx1 s1
          refl at1 r1 t1 in
      let (ctx3, s3, e3, at3, r3, t3) =
        run_loop-Stepped normalize (consolidate ∷ review ∷ render ∷ []) parsed ctx2 s2 refl at2 r2
          t2 in
      let (ctx4, s4, e4, at4, r4, t4) =
        run_loop-Stepped consolidate (review ∷ render ∷ []) normalized ctx3 s3 refl at3 r3 t3 in
      let (ctx5, s5, e5, at5, r5, t5) =
        run_loop-Stepped review (render ∷ []) consolidated ctx4 s4 refl at4 r4 tt in
      let (ctx6, s6, e6, at6, r6, t6) =
        run_loop-Stepped render [] qa_approved ctx5 s5 refl at5 r5 tt in
      (s6, e1 ∙ e2 ∙ e3 ∙ e4 ∙ e5 ∙ e6 ∙ run_loop_end complete ctx6 s6, at6)
    where
      run_loop_end :
          (state : EngagementState) (ctx : StageContext c) (s : Store)
          → run_loop c id none [] state ctx s ≡ (ok tt, s)
      run_loop_end state ctx s = unfold run_loop in refl

  run_locked-At :
      (s : Store)
      → At created s
      → s.consolidated_findings ≡ rows
      → (s' : Store) × (run_locked c id collect none s ≡ (ok tt, s')) × At complete s'
  unfolding run_locked begin rehydrate get_current_state get detect_stale_running any stage_states
      get_stages_from
  run_locked-At s (row, found, here) same =
      let (s', e, done) = run_loop-At s (row, found, here) same in
      let read : state_of_value row.state ≡ some created =
        ap state_of_value here ∙ state_of_value-state_value created in
      (s', rw (found, read) e, done)

  -- If the plugins succeed on whatever they are given, the directories that the handlers ask for can be
  -- had, the payload of the reports can be built, the merged findings have identities that fit into the
  -- table of consolidated findings, the QA strategy waits for no operator and the lock is free, then a
  -- run from COLLECT of an engagement in CREATED returns, and leaves the engagement in COMPLETE.
  pub run_stages-At :
      (s : Store)
      → At created s
      → s.consolidated_findings ≡ rows
      → contains str_eq id s.held ≡ false
      → matches_id_pattern (codes id) ≡ true
      → contains str_eq id s.held_elsewhere ≡ false
      → let (r, s') = run_stages c id collect none s in (r ≡ ok tt) × At complete s'
  unfolding run_stages hold acquire release
  run_stages-At s here same free valid free_elsewhere =
      let (s', e, done) = run_locked-At (record s { held = id ∷ s.held }) here same in
      let locked : run_stages c id collect none s ≡ (ok tt, release id s') =
        rw (free, valid, free_elsewhere, e) refl in
      (ap (λ p. p.0) locked, subst (λ p. At complete p.1) (sym locked) done)
