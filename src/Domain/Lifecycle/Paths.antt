-- ===== src/Domain/Lifecycle/Paths.antt =====
-- What the table of transitions allows: single steps, and whole paths.
use gxassessms.Base.{
  suc, ◌+◌, ◌≤◌, ◌<◌, ◌≡◌, ◌≢◌, ◌↔◌, ◌⊎◌, inl, inr, refl, true, false, List, [], ◌∷◌, subst, arith,
  length, contains,
}
use gxassessms.Domain.Lifecycle.{
  EngagementState, created, qa_approved, complete, failed, position, state_eq, can_transition_to,
  is_terminal,
}

-- A transition is allowed exactly when its source is neither COMPLETE nor FAILED and its target is
-- FAILED or the next state of the enumeration.
pub can_transition_to_iff :
    (a b : EngagementState)
    → (can_transition_to a b ≡ true)
      ↔ ((position a < 12) × ((b ≡ failed) ⊎ (position b ≡ suc (position a))))
unfolding can_transition_to
can_transition_to_iff created b = ground arith
can_transition_to_iff a b = ground arith

-- COMPLETE and FAILED are the terminal states, and no transition leaves a terminal state.
is_terminal_iff :
    (a : EngagementState)
    → ((is_terminal a ≡ true) ↔ ((a ≡ complete) ⊎ (a ≡ failed)))
      × ((b : EngagementState) → is_terminal a ≡ true → can_transition_to a b ≡ false)
unfolding is_terminal can_transition_to
is_terminal_iff created = (ground arith, λ b. ground arith)
is_terminal_iff a = (ground arith, λ b. ground arith)

-- a path of transitions that the table allows
abbrev pub Walk : EngagementState → List EngagementState → Type 0
Walk a [] = Unit
Walk a (b ∷ bs) = (can_transition_to a b ≡ true) × Walk b bs

abbrev pub last_of : EngagementState → List EngagementState → EngagementState
last_of a [] = a
last_of a (b ∷ bs) = last_of b bs

position-lt : (a b : EngagementState) → can_transition_to a b ≡ true → position a < position b
position-lt a b h = ground (arith, can_transition_to_iff a b)

-- Every path of transitions is finite: from a state it has at most as many steps as there are
-- states behind it in the enumeration.
pub length-Walk :
    (a : EngagementState) (bs : List EngagementState)
    → Walk a bs
    → length bs + position a ≤ position (last_of a bs)
length-Walk a [] w = omega arith
length-Walk a (b ∷ bs) w = omega (arith, position-lt a b w.0, length-Walk b bs w.1)

approved_or_before :
    (a b : EngagementState)
    → position a ≤ 9
    → can_transition_to a b ≡ true
    → (b ≡ failed) ⊎ ((b ≡ qa_approved) ⊎ (position b ≤ 9))
approved_or_before a b h t = ground (arith, can_transition_to_iff a b)

failed-Walk : (bs : List EngagementState) → Walk failed bs → last_of failed bs ≢ complete
failed-Walk [] w e = ground arith
failed-Walk (b ∷ bs) w e = ground (arith, can_transition_to_iff failed b)

-- An engagement that has not passed the QA review comes to COMPLETE only through QA_APPROVED: the
-- approval lies on every path of transitions that ends there.
pub complete_needs_approval :
    (a : EngagementState) (bs : List EngagementState)
    → position a ≤ 9
    → Walk a bs
    → last_of a bs ≡ complete
    → contains state_eq qa_approved bs ≡ true
unfolding contains
complete_needs_approval a [] h w e = ground arith
complete_needs_approval a (b ∷ bs) h w e = elim (approved_or_before a b h w.0) [
  | inl f ↦
      absurd
        (failed-Walk bs (subst (λ s. Walk s bs) f w.1) (subst (λ s. last_of s bs ≡ complete) f e))
  | inr (inl q) ↦ rw q refl
  | inr (inr p) ↦ ground (arith, complete_needs_approval b bs p w.1 e)
]
