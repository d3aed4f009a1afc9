-- ===== src/Pipeline/Runner/Invariants.antt =====
-- What the transitions, the recovery and the writes of the tables keep, a whole run keeps.
use gxassessms.Base.{
  String, ◌≡◌, sym, subst, arith, Option, none, some, List, [], ◌∷◌, Bool-cases, inl, inr,
}
use gxassessms.Exec.{pure}
use gxassessms.Exec.Keeps.{
  Keeps, Keeps-pure, Keeps-raise, Keeps-lift, Keeps-gets, Keeps-read, Keeps-if, Keeps-bind,
}
use gxassessms.Errors.{Error, Result, ok, err}
use gxassessms.Domain.Findings.{Finding, ConsolidatedFinding}
use gxassessms.Domain.Lifecycle.{EngagementState, failed}
use gxassessms.Persistence.Store.{Store, CoverageRow, stale_recovery}
use gxassessms.Persistence.Findings.{
  save_parsed_findings, save_consolidated_findings, is_refused, delete_coverage, save_coverage,
}
use gxassessms.Pipeline.Stages.{
  Stage, collect, parse, normalize, consolidate, review, render, get_stage_entry_state,
  running_state,
}
use gxassessms.Pipeline.Collaborators.{Collaborators}
use gxassessms.Pipeline.Orchestrator.{forced, transition_state, get_current_state}
use gxassessms.Pipeline.Handlers.{StageContext, dispatch, save_if_any}
use gxassessms.Pipeline.Runner.{
  recovery_payload, recover_to, recover_stale_state, complete_stage, try_stage, guarded_stage,
  handle, swallow, is_caught, reraised, run_loop, rehydrate, begin, run_locked, Progress,
}

-- a predicate that does not look at the tables of findings and coverage
pub record TableInvariant (P : Store → Type 0) : Type 0 where
  pub tables :
      (s : Store) (fs : List (String × Finding)) (ms : List (String × ConsolidatedFinding))
      (rs : List (String × CoverageRow))
      → P s
      → P (record s { findings = fs; consolidated_findings = ms; coverage_records = rs })

pub record Invariant (P : Store → Type 0) : Type 0 where
  pub transition :
      (id : String) (from to : EngagementState) (h : Option String)
      → Keeps P (transition_state id from to h)
  pub recovery :
      (id : String) (stale : EngagementState) (stage : Stage)
      → Keeps P
          (forced id (get_stage_entry_state stage) stale_recovery (recovery_payload stale stage))
  pub writes : TableInvariant P

ruleset method_rules =
    (Keeps-pure, Keeps-raise, Keeps-lift, Keeps-gets, Keeps-read, Keeps-if, Keeps-bind)

-- Reading the current state changes nothing.
pub get_current_state-store : (id : String) (s : Store) → (get_current_state id s).1 ≡ s
unfolding get_current_state
get_current_state-store id s = ground arith

module _ {P : Store → Type 0} (inv : TableInvariant P) (c : Collaborators) (id : String) where
  parsed-Keeps : (fs : List Finding) → Keeps P (save_parsed_findings id fs)
  unfolding save_parsed_findings
  parsed-Keeps fs = record {
    behind = λ s h. inv.tables s _ s.consolidated_findings s.coverage_records h;
  }

  merged-Keeps : (fs : List ConsolidatedFinding) → Keeps P (save_consolidated_findings id fs)
  unfolding save_consolidated_findings
  merged-Keeps fs = record {
    behind = λ s h. elim (Bool-cases (is_refused id s.consolidated_findings fs)) [
      | inl refused ↦ rw refused h
      | inr taken ↦ rw taken (inv.tables s s.findings _ s.coverage_records h)
    ];
  }

  deleted-Keeps : Keeps P (delete_coverage id)
  unfolding delete_coverage
  deleted-Keeps = record { behind = λ s h. inv.tables s s.findings s.consolidated_findings _ h }

  saved-Keeps : (rs : List CoverageRow) → Keeps P (save_if_any c id rs)
  unfolding save_coverage
  saved-Keeps [] = Keeps-pure tt
  saved-Keeps (r ∷ rs) = record {
    behind = λ s h. inv.tables s s.findings s.consolidated_findings _ h;
  }

  ruleset keeps_rules = (method_rules, parsed-Keeps, merged-Keeps, deleted-Keeps, saved-Keeps)

  pub dispatch-Keeps : (stage : Stage) (ctx : StageContext c) → Keeps P (dispatch c id stage ctx)
  unfolding dispatch
  dispatch-Keeps collect ctx = search keeps_rules
  dispatch-Keeps parse ctx = search keeps_rules depth 12
  dispatch-Keeps normalize ctx = search keeps_rules depth 12
  dispatch-Keeps consolidate ctx = search keeps_rules depth 12
  dispatch-Keeps review ctx = search keeps_rules depth 12
  dispatch-Keeps render ctx = search keeps_rules depth 12

module _ {P : Store → Type 0} (inv : Invariant P) (c : Collaborators) (id : String) where
  current-Keeps : Keeps P (get_current_state id)
  current-Keeps = record { behind = λ s h. subst P (sym (get_current_state-store id s)) h }

  -- the end of a stage
  finish-Keeps :
      (stop : Option Stage) (stage : Stage) (ctx : StageContext c) (h : String)
      → Keeps P (complete_stage c id stop stage ctx h)
  unfolding complete_stage
  finish-Keeps stop review ctx h = search (method_rules, inv.transition) depth 12
  finish-Keeps stop stage ctx h = search (method_rules, inv.transition) depth 12

  try_stage-Keeps :
      (stop : Option Stage) (stage : Stage) (current : EngagementState) (ctx : StageContext c)
      → Keeps P (try_stage c id stop stage current ctx)
  unfolding try_stage
  try_stage-Keeps stop stage current ctx =
      search (Keeps-bind, inv.transition, dispatch-Keeps inv.writes c id, finish-Keeps)

  swallow-Keeps :
      (e : Error) (r : Result (Unit {0})) (s : Store) → P s → P (swallow c id e (r, s)).1
  swallow-Keeps e (ok _) s h = h
  swallow-Keeps e (err x) s h = h

  handle-Keeps :
      (stage : Stage) (r : Result (Progress c id)) (s : Store)
      → P s
      → P (handle c id stage (r, s)).1
  handle-Keeps stage (ok p) s h = h
  handle-Keeps stage (err e) s h = elim (Bool-cases (is_caught e)) [
    | inl caught ↦
        let m = transition_state id (running_state stage) failed none in
        rw caught (
          swallow-Keeps (reraised stage e) (m s).0 (m s).1
            ((inv.transition id (running_state stage) failed none).behind s h))
    | inr other ↦ rw other h
  ]

  guarded_stage-Keeps :
      (stop : Option Stage) (stage : Stage) (current : EngagementState) (ctx : StageContext c)
      → Keeps P (guarded_stage c id stop stage current ctx)
  unfolding guarded_stage
  guarded_stage-Keeps stop stage current ctx = record {
    behind = λ s h.
        let m = try_stage c id stop stage current ctx in
        handle-Keeps stage (m s).0 (m s).1 ((try_stage-Keeps stop stage current ctx).behind s h);
  }

  run_loop-Keeps :
      (stop : Option Stage) (stages : List Stage) (current : EngagementState) (ctx : StageContext c)
      → Keeps P (run_loop c id stop stages current ctx)
  unfolding run_loop
  run_loop-Keeps stop [] current ctx = Keeps-pure tt
  run_loop-Keeps stop (stage ∷ stages) current ctx =
      Keeps-bind (guarded_stage c id stop stage current ctx) _
        (guarded_stage-Keeps stop stage current ctx)
        λ p.
          Keeps-if p.stops (pure tt) _ (Keeps-pure tt) (run_loop-Keeps stop stages p.current p.ctx)

  rehydrate-Keeps : (start : Stage) → Keeps P (rehydrate c id start)
  unfolding rehydrate
  rehydrate-Keeps collect = search method_rules depth 12
  rehydrate-Keeps start = search method_rules depth 12

  recover_to-Keeps : (stale : EngagementState) (o : Option Stage) → Keeps P (recover_to id stale o)
  recover_to-Keeps stale none = Keeps-raise _
  recover_to-Keeps stale (some stage) = search (Keeps-bind, Keeps-pure, inv.recovery)

  begin-Keeps : (start : Stage) → Keeps P (begin c id start)
  unfolding begin recover_stale_state
  begin-Keeps start = search (method_rules, current-Keeps, recover_to-Keeps) depth 12

  pub run_locked-Keeps :
      (start : Stage) (stop : Option Stage) → Keeps P (run_locked c id start stop)
  unfolding run_locked
  run_locked-Keeps start stop = search (Keeps-bind, begin-Keeps, rehydrate-Keeps, run_loop-Keeps)
