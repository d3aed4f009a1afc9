-- ===== src/Pipeline/Runner/Coherence.antt =====
-- A run of the pipeline keeps the table of engagements and the journal in agreement, and gives the
-- lock back, on every path.
use gxassessms.Base.{
  String, ◌≡◌, refl, true, Option, List, arith, str_eq, contains, Bool-cases, inl, inr,
}
use gxassessms.Exec.{Exec}
use gxassessms.Exec.Keeps.{Keeps}
use gxassessms.Errors.{Result, ok, err}
use gxassessms.Domain.Lifecycle.{assert_can_transition_to}
use gxassessms.Persistence.Store.{Store, stale_recovery}
use gxassessms.Persistence.Engagements.{update_state, force_update_state}
use gxassessms.Pipeline.Stages.{Stage, get_stage_entry_state}
use gxassessms.Pipeline.State.{acquire, release, hold, under_lock, payload_text}
use gxassessms.Pipeline.State.Locking.{held-hold, acquire-tables}
use gxassessms.Pipeline.Collaborators.{Collaborators}
use gxassessms.Pipeline.Orchestrator.{emit_event, transition_state, forced}
use gxassessms.Pipeline.Orchestrator.Journaling.{
  IsCoherent, transition_state-IsCoherent, forced-IsCoherent,
}
use gxassessms.Pipeline.Runner.{recovery_payload, stops_at_review, run_locked, run_stages}
use gxassessms.Pipeline.Runner.Invariants.{Invariant, run_locked-Keeps}

coherent : Invariant IsCoherent
unfolding payload_text
coherent = record {
  transition = λ id from to h. record { behind = transition_state-IsCoherent id from to h };
  recovery = λ id stale stage. record {
    behind = λ s.
        forced-IsCoherent id (get_stage_entry_state stage) stale_recovery
          (recovery_payload stale stage) s (λ t. refl);
  };
  writes = record { tables = λ s fs ms rs h. h };
}

under_lock-IsCoherent :
    (id : String) (body : Exec Store (Unit {0})) (r : Result (Unit {0})) (s : Store)
    → Keeps IsCoherent body
    → IsCoherent s
    → IsCoherent (under_lock id body r s).1
unfolding release
under_lock-IsCoherent id body (ok _) s k h = k.behind s h
under_lock-IsCoherent id body (err e) s k h = h

acquire-IsCoherent : (id : String) (s : Store) → IsCoherent s → IsCoherent (acquire id s).1
acquire-IsCoherent id s h = let (rows, events) = acquire-tables id s in rw (rows, events) h

-- As long as the database accepts every statement, which the model supposes, each engagement of the
-- table is behind a run of the pipeline, whether it returns or raises, in the state that the journal
-- gives for it, if each was in that state before.
pub run_stages-IsCoherent :
    (c : Collaborators) (id : String) (start : Stage) (stop : Option Stage) (s : Store)
    → IsCoherent s
    → IsCoherent (run_stages c id start stop s).1
unfolding run_stages hold
run_stages-IsCoherent c id start stop s h = elim (Bool-cases (stops_at_review c id stop)) [
  | inl refused ↦ rw refused h
  | inr runs ↦ rw runs (
      under_lock-IsCoherent id (run_locked c id start stop) (acquire id s).0 (acquire id s).1
        (run_locked-Keeps coherent c id start stop) (acquire-IsCoherent id s h))
]

held_is : (locks : List String) → Invariant (λ s. s.held ≡ locks)
unfolding transition_state update_state force_update_state emit_event forced
    assert_can_transition_to
held_is locks = record {
  transition = λ id from to h. record { behind = λ s e. ground arith };
  recovery = λ id stale stage. record { behind = λ s e. ground arith };
  writes = record { tables = λ s fs ms rs e. e };
}

-- A run of the pipeline leaves the locks of the process as it found them, whatever it returns or
-- raises; and if this process holds the engagement's lock already, it changes nothing at all.
pub held-run_stages :
    (c : Collaborators) (id : String) (start : Stage) (stop : Option Stage) (s : Store)
    → ((run_stages c id start stop s).1.held ≡ s.held)
      × (contains str_eq id s.held ≡ true → (run_stages c id start stop s).1 ≡ s)
unfolding run_stages
held-run_stages c id start stop s =
    let kept =
      held-hold id (run_locked c id start stop) s
        (λ t. (run_locked-Keeps (held_is t.held) c id start stop).behind t refl) in
    ground (arith, kept)
