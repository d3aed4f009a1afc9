-- ===== src/Pipeline/Orchestrator/Journaling.antt =====
-- The journal is the source of truth: what it records of an engagement's state is the state that the
-- database has.
use gxassessms.Base.{
  String, ◌≡◌, refl, sym, ◌∙◌, Option, none, some, List, [], ◌∷◌, ◌++◌, arith, lookup, str_eq,
  lookup-upsert, upsert, eq_refl, eq_iff, if◌then◌else◌, Bool-cases, ◌⊎◌, inl, inr, Option-cases,
}
use gxassessms.Exec.{pure}
use gxassessms.Exec.Keeps.{Keeps, Keeps-pure, Keeps-read, Keeps-if, Keeps-bind}
use gxassessms.Errors.{Error, persistence_error, invalid_transition_error, ok, err}
use gxassessms.Domain.Lifecycle.{
  EngagementState, state_eq, state_value, state_of_value, can_transition_to,
  assert_can_transition_to,
}
use gxassessms.Persistence.Store.{
  Store, EngagementRow, EventRow, EventType, Payload, state_transition, stale_recovery, rerun,
}
use gxassessms.Pipeline.State.{payload_text}
use mathlib.Core.List.{foldl, foldl-append}
use gxassessms.Persistence.Engagements.{update_state, force_update_state}
use gxassessms.Pipeline.Orchestrator.{
  transition_payload, emit_event, transition_state, rerun_payload, verify_if_render, forced,
  get_current_state, reset_for_rerun,
}
use gxassessms.Pipeline.Stages.{Stage, get_stage_entry_state}

abbrev pub column_of : Option EngagementRow → Option String
column_of none = none
column_of (some row) = some row.state

-- the text of the engagement's state in the table
abbrev pub state_column : List (String × EngagementRow) → String → Option String
state_column rows id = column_of (lookup id rows)

-- what an event says of the state of its engagement; other events leave it as it is
abbrev recorded : EventType → Payload → String → String
recorded state_transition p t = payload_text "to" t p
recorded stale_recovery p t = payload_text "to" t p
recorded rerun p t = payload_text "to_state" t p
recorded _ p t = t

abbrev apply_event : String → String → EventRow → String
apply_event id t e =
    if str_eq e.engagement_id id
    then elim e.payload [ none ↦ t | some p ↦ recorded e.event_type p t ]
    else t

-- the state of an engagement by its journal alone, from the state it is created in
unfoldable pub journal_state : String → List EventRow → String
unfolding payload_text
journal_state id es = foldl (apply_event id) "CREATED" es

pub journal_state-append :
    (id : String) (es : List EventRow) (e : EventRow)
    → journal_state id (es ++ e ∷ []) ≡ apply_event id (journal_state id es) e
unfolding journal_state
journal_state-append id es e = rw foldl-append

-- the table and the journal agree on the state of every engagement of the table
abbrev pub Agree : List (String × EngagementRow) → List EventRow → Type 0
Agree rows events =
    (id : String)
    → (state_column rows id ≡ none) ⊎ (state_column rows id ≡ some (journal_state id events))

abbrev pub IsCoherent : Store → Type 0
IsCoherent s = Agree s.engagements s.events

Agree-move :
    (id : String) (row : EngagementRow) (e : EventRow) (rows : List (String × EngagementRow))
    (events : List EventRow)
    → e.engagement_id ≡ id
    → ((t : String) → apply_event id t e ≡ row.state)
    → Agree rows events
    → Agree (upsert id row rows) (events ++ e ∷ [])
Agree-move id row e rows events own says c j = ground (
  arith,
  c j,
  eq_iff id j,
  lookup-upsert id j row rows,
  journal_state-append j events e,
  says (journal_state j events),
)

-- `update_state` raises and changes neither engagements nor journal, or it moves the engagement.
update_state_lem :
    (id : String) (to : EngagementState) (s : Store)
    → let (r, s') = update_state id to s in
      ((x : Error) × (r ≡ err x) × (s'.engagements ≡ s.engagements) × (s'.events ≡ s.events))
      ⊎ ((row : EngagementRow) × (r ≡ ok tt)
          × (s'.engagements ≡ upsert id row s.engagements)
          × (s'.events ≡ s.events)
          × (row.state ≡ state_value to))
unfolding update_state assert_can_transition_to
update_state_lem id to s = elim (Option-cases (lookup id s.engagements)) [
  | inl missing ↦ rw missing (inl (persistence_error, refl, refl, refl))
  | inr (row, found) ↦ elim (Option-cases (state_of_value row.state)) [
    | inl unread ↦ rw (found, unread) (inl (persistence_error, refl, refl, refl))
    | inr (current, read) ↦ elim (Bool-cases (can_transition_to current to)) [
      | inl can ↦
          rw (found, read, can)
            (inr (
              record row { state = state_value to; updated_at = some s.now },
              refl,
              refl,
              refl,
              refl,
            ))
      | inr cannot ↦
          rw (found, read, cannot)
            (inl
              (invalid_transition_error (state_value current) (state_value to), refl, refl, refl))
    ]
  ]
]

transition_event : String → EngagementState → EngagementState → Option String → Store → EventRow
transition_event id from to h s = record {
  engagement_id = id;
  timestamp = s.now;
  event_type = state_transition;
  actor = "system";
  payload = some (transition_payload from to h);
}

-- A transition, whether it succeeds or raises, leaves each engagement of the table in the state that
-- the journal gives for it, if each was in that state before.
pub transition_state-IsCoherent :
    (id : String) (from to : EngagementState) (h : Option String) (s : Store)
    → IsCoherent s
    → IsCoherent (transition_state id from to h s).1
unfolding transition_state assert_can_transition_to emit_event payload_text transition_event
transition_state-IsCoherent id from to h s c = elim (Bool-cases (can_transition_to from to)) [
  | inr cannot ↦ rw (cannot, transition_state) c
  | inl can ↦ elim (update_state_lem id to s) [
    | inl (x, raised, same, quiet) ↦ rw (can, raised, same, quiet) c
    | inr (row, done, moved, quiet, now_to) ↦
        let s' = (update_state id to s).1 in
        rw (can, done, moved, quiet)
          (Agree-move id row (transition_event id from to h s') s.engagements s.events refl
            (λ t. rw (eq_refl id) (sym now_to)) c)
  ]
]

-- `force_update_state` raises and changes neither engagements nor journal, or it sets the state.
force_update_state_lem :
    (id : String) (to : EngagementState) (s : Store)
    → let (r, s') = force_update_state id to s in
      ((x : Error) × (r ≡ err x) × (s'.engagements ≡ s.engagements) × (s'.events ≡ s.events))
      ⊎ ((row : EngagementRow) × (r ≡ ok tt)
          × (s'.engagements ≡ upsert id row s.engagements)
          × (s'.events ≡ s.events)
          × (row.state ≡ state_value to))
unfolding force_update_state
force_update_state_lem id to s = elim (Option-cases (lookup id s.engagements)) [
  | inl missing ↦ rw missing (inl (persistence_error, refl, refl, refl))
  | inr (row, found) ↦
      rw found (
        inr
          (record row { state = state_value to; updated_at = some s.now }, refl, refl, refl, refl))
]

-- A forced move with the event that says so, as the reset and the recovery make it.
pub forced-IsCoherent :
    (id : String) (to : EngagementState) (ty : EventType) (p : Payload) (s : Store)
    → ((t : String) → recorded ty p t ≡ state_value to)
    → IsCoherent s
    → IsCoherent (forced id to ty p s).1
unfolding forced emit_event
forced-IsCoherent id to ty p s says c = elim (force_update_state_lem id to s) [
  | inl (x, raised, same, quiet) ↦ rw (raised, same, quiet) c
  | inr (row, done, moved, quiet, now_to) ↦
      let s' = (force_update_state id to s).1 in
      let e : EventRow = record {
        engagement_id = id;
        timestamp = s'.now;
        event_type = ty;
        actor = "system";
        payload = some p;
      } in
      rw (done, moved, quiet)
        (Agree-move id row e s.engagements s.events refl
          (λ t. rw (eq_refl id) (says t ∙ sym now_to)) c)
]

forced-Keeps :
    (id : String) (to : EngagementState) (ty : EventType) (p : Payload)
    → ((t : String) → recorded ty p t ≡ state_value to)
    → Keeps IsCoherent (forced id to ty p)
forced-Keeps id to ty p says = record { behind = λ s c. forced-IsCoherent id to ty p s says c }

get_current_state-Keeps : (id : String) → Keeps IsCoherent (get_current_state id)
unfolding get_current_state
get_current_state-Keeps id = record { behind = λ s c. ground (arith, c) }

-- A reset for a rerun, whether it succeeds or raises, leaves each engagement of the table in the state
-- that the journal gives for it, if each was in that state before.
pub reset_for_rerun-Keeps :
    (id : String) (target : Stage) → Keeps IsCoherent (reset_for_rerun id target)
unfolding reset_for_rerun payload_text
reset_for_rerun-Keeps id target =
    Keeps-bind (get_current_state id) _ (get_current_state-Keeps id) λ current.
      Keeps-if (state_eq current (get_stage_entry_state target)) (pure tt) _ (Keeps-pure tt) (
        Keeps-bind (verify_if_render id target) _ (Keeps-read _) λ _.
          forced-Keeps id (get_stage_entry_state target) rerun (rerun_payload current target)
            (λ t. refl))
