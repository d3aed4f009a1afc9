-- ===== src/Pipeline/Stages.antt =====
-- pipeline/stages.py: the stages, their order, and the states that belong to them.
use gxassessms.Base.{
  ℕ, String, ◌≡◌, Bool, Option, none, some, List, [], ◌∷◌, ◌==◌, if◌then◌else◌, arith, contains,
  leb, ◌↔◌,
}
use gxassessms.Domain.Lifecycle.{
  EngagementState, created, collecting, collected, parsing, parsed, normalizing, normalized,
  consolidating, consolidated, qa_review, qa_approved, rendering, complete, state_eq,
  can_transition_to,
}
use gxassessms.Domain.Lifecycle.Paths.{Walk}

pub data Stage : Type 0 where
  collect parse normalize consolidate review render : Stage

unfoldable pub stage_value : Stage → String
stage_value collect = "COLLECT"
stage_value parse = "PARSE"
stage_value normalize = "NORMALIZE"
stage_value consolidate = "CONSOLIDATE"
stage_value review = "QA_REVIEW"
stage_value render = "RENDER"

abbrev pub stage_position : Stage → ℕ
stage_position collect = 0
stage_position parse = 1
stage_position normalize = 2
stage_position consolidate = 3
stage_position review = 4
stage_position render = 5

abbrev pub stage_eq : Stage → Stage → Bool
stage_eq a b = stage_position a == stage_position b

-- STAGE_ORDER
abbrev pub stage_order : List Stage
stage_order = collect ∷ parse ∷ normalize ∷ consolidate ∷ review ∷ render ∷ []

-- STAGE_STATE_MAP[stage]: the running state and the completed state
unfoldable pub stage_states : Stage → EngagementState × EngagementState
stage_states collect = (collecting, collected)
stage_states parse = (parsing, parsed)
stage_states normalize = (normalizing, normalized)
stage_states consolidate = (consolidating, consolidated)
stage_states review = (qa_review, qa_approved)
stage_states render = (rendering, complete)

abbrev pub running_state : Stage → EngagementState
running_state stage = (stage_states stage).0

abbrev pub completed_state : Stage → EngagementState
completed_state stage = (stage_states stage).1

-- _STAGE_ENTRY_STATE[stage]
unfoldable pub get_stage_entry_state : Stage → EngagementState
get_stage_entry_state collect = created
get_stage_entry_state parse = collected
get_stage_entry_state normalize = parsed
get_stage_entry_state consolidate = normalized
get_stage_entry_state review = consolidated
get_stage_entry_state render = qa_approved

-- STAGE_ORDER[STAGE_ORDER.index(start):]
unfoldable pub stages_behind : Stage → List Stage → List Stage
stages_behind start [] = []
stages_behind start (s ∷ ss) = if stage_eq s start then s ∷ ss else stages_behind start ss

unfoldable pub get_stages_from : Stage → List Stage
unfolding stages_behind
get_stages_from start = stages_behind start stage_order

-- `for stage, (running, _) in STAGE_STATE_MAP.items(): if running == state: return stage`
unfoldable pub owner_among : EngagementState → List Stage → Option Stage
owner_among state [] = none
owner_among state (s ∷ ss) =
    if state_eq (running_state s) state then some s else owner_among state ss

unfoldable pub owner_of_running : EngagementState → Option Stage
unfolding owner_among stage_states
owner_of_running state = owner_among state stage_order

-- the states that a run of the given stages passes, two for each stage
abbrev pub states_of : List Stage → List EngagementState
states_of [] = []
states_of (s ∷ ss) = running_state s ∷ completed_state s ∷ states_of ss

-- From the entry state of a stage, the states of that stage and of all later ones form a path that
-- the table of transitions allows.
get_stages_from-Walk :
    (start : Stage) → Walk (get_stage_entry_state start) (states_of (get_stages_from start))
unfolding get_stages_from get_stage_entry_state stage_states can_transition_to
get_stages_from-Walk collect = ground arith
get_stages_from-Walk start = ground arith

-- A run from `start` has a stage exactly when it is not before `start`.
contains-get_stages_from :
    (start s : Stage)
    → contains stage_eq s (get_stages_from start) ≡ leb (stage_position start) (stage_position s)
unfolding get_stages_from contains
contains-get_stages_from start s = ground arith

-- A running state belongs to one stage: the search by running state finds the stage of each running
-- state, and finds nothing else.
owner_of_running_iff :
    (state : EngagementState) (s : Stage)
    → (owner_of_running state ≡ some s) ↔ (running_state s ≡ state)
unfolding owner_of_running
owner_of_running_iff state s = ground arith
