-- ===== src/Examples/Lifecycles.antt =====
-- The theorems on states and stages at concrete ones.
use gxassessms.Base.{◌+◌, ◌≤◌, ◌≡◌, refl, arith, true, [], ◌∷◌, length, contains}
use gxassessms.Domain.Lifecycle.{
  qa_review, qa_approved, rendering, complete, position, state_eq, can_transition_to,
}
use gxassessms.Domain.Lifecycle.Paths.{Walk, length-Walk, complete_needs_approval}

last-Walk : Walk qa_review (qa_approved ∷ rendering ∷ complete ∷ [])
unfolding can_transition_to
last-Walk = (refl, (refl, (refl, tt)))

length-Walk_example :
    length (qa_approved ∷ rendering ∷ complete ∷ []) + position qa_review ≤ position complete
length-Walk_example = length-Walk qa_review (qa_approved ∷ rendering ∷ complete ∷ []) last-Walk

complete_needs_approval_example :
    contains state_eq qa_approved (qa_approved ∷ rendering ∷ complete ∷ []) ≡ true
complete_needs_approval_example =
    complete_needs_approval qa_review (qa_approved ∷ rendering ∷ complete ∷ []) (omega arith)
      last-Walk refl
