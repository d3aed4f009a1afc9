-- ===== src/Domain/Lifecycle.antt =====
-- core/domain/enums.py: EngagementState, its table of transitions and the tests on it.
pub mod Paths
use gxassessms.Base.{
  ℕ, String, ◌≡◌, refl, Bool, true, false, not, Option, none, some, List, [], ◌∷◌, ◌==◌,
  if◌then◌else◌, contains,
}
use gxassessms.Errors.{Result, ok, err, invalid_transition_error}
use gxassessms.Domain.Enums.{of_value}

pub data EngagementState : Type 0 where
  created collecting collected parsing parsed normalizing normalized : EngagementState
  consolidating consolidated qa_review qa_approved rendering complete failed : EngagementState

unfoldable pub state_value : EngagementState → String
state_value created = "CREATED"
state_value collecting = "COLLECTING"
state_value collected = "COLLECTED"
state_value parsing = "PARSING"
state_value parsed = "PARSED"
state_value normalizing = "NORMALIZING"
state_value normalized = "NORMALIZED"
state_value consolidating = "CONSOLIDATING"
state_value consolidated = "CONSOLIDATED"
state_value qa_review = "QA_REVIEW"
state_value qa_approved = "QA_APPROVED"
state_value rendering = "RENDERING"
state_value complete = "COMPLETE"
state_value failed = "FAILED"

abbrev pub engagement_states : List EngagementState
engagement_states =
    created ∷ collecting ∷ collected ∷ parsing ∷ parsed ∷ normalizing ∷ normalized ∷ consolidating
    ∷ consolidated ∷ qa_review ∷ qa_approved ∷ rendering ∷ complete ∷ failed ∷ []

-- EngagementState(text)
unfoldable pub state_of_value : String → Option EngagementState
unfolding of_value state_value
state_of_value s = of_value state_value engagement_states s

-- the place of a member in its enumeration, by which members are compared
abbrev pub position : EngagementState → ℕ
position created = 0
position collecting = 1
position collected = 2
position parsing = 3
position parsed = 4
position normalizing = 5
position normalized = 6
position consolidating = 7
position consolidated = 8
position qa_review = 9
position qa_approved = 10
position rendering = 11
position complete = 12
position failed = 13

abbrev pub state_eq : EngagementState → EngagementState → Bool
state_eq a b = position a == position b

-- _VALID_TRANSITIONS
unfoldable pub valid_transitions : EngagementState → List EngagementState
valid_transitions created = collecting ∷ failed ∷ []
valid_transitions collecting = collected ∷ failed ∷ []
valid_transitions collected = parsing ∷ failed ∷ []
valid_transitions parsing = parsed ∷ failed ∷ []
valid_transitions parsed = normalizing ∷ failed ∷ []
valid_transitions normalizing = normalized ∷ failed ∷ []
valid_transitions normalized = consolidating ∷ failed ∷ []
valid_transitions consolidating = consolidated ∷ failed ∷ []
valid_transitions consolidated = qa_review ∷ failed ∷ []
valid_transitions qa_review = qa_approved ∷ failed ∷ []
valid_transitions qa_approved = rendering ∷ failed ∷ []
valid_transitions rendering = complete ∷ failed ∷ []
valid_transitions complete = []
valid_transitions failed = []

unfoldable pub can_transition_to : EngagementState → EngagementState → Bool
unfolding valid_transitions contains
can_transition_to from to = contains state_eq to (valid_transitions from)

unfoldable pub assert_can_transition_to : EngagementState → EngagementState → Result (Unit {0})
assert_can_transition_to from to =
    if can_transition_to from to
    then ok tt
    else err (invalid_transition_error (state_value from) (state_value to))

unfoldable pub is_terminal : EngagementState → Bool
unfolding valid_transitions
is_terminal s = elim (valid_transitions s) [ [] ↦ true | _ ∷ _ ↦ false ]

-- Every state is read back from the text that the database holds for it.
pub state_of_value-state_value : (s : EngagementState) → state_of_value (state_value s) ≡ some s
unfolding state_of_value
state_of_value-state_value created = refl
state_of_value-state_value collecting = refl
state_of_value-state_value collected = refl
state_of_value-state_value parsing = refl
state_of_value-state_value parsed = refl
state_of_value-state_value normalizing = refl
state_of_value-state_value normalized = refl
state_of_value-state_value consolidating = refl
state_of_value-state_value consolidated = refl
state_of_value-state_value qa_review = refl
state_of_value-state_value qa_approved = refl
state_of_value-state_value rendering = refl
state_of_value-state_value complete = refl
state_of_value-state_value failed = refl
