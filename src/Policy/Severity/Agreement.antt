-- ===== src/Policy/Severity/Agreement.antt =====
-- What the suggestions obey, and how the escalation check agrees with them.
use gxassessms.Base.{
  ℕ, String, ◌≡◌, ◌≢◌, refl, sym, ◌∙◌, append-nil, Bool, true, false, Option, none, some, List, [],
  ◌∷◌, ◌++◌, arith, str_eq, eq_iff, if◌then◌else◌, Bool-cases, Option-cases, inl, inr, ap, any, leb,
  ltb,
}
use gxassessms.Errors.{Result, ok, err, ◌>>=◌}
use gxassessms.Domain.Enums.{Severity, severity_eq, severity_of_value}
use gxassessms.Domain.Findings.{ConsolidatedFinding}
use gxassessms.Policy.Severity.{
  SeverityRules, SeverityAdjustment, below_threshold, above_threshold, is_actionable, lowered,
  raised, above_text, optional_severity, at_or_above, mapped_severity,
  effective_downgrade_threshold, upgrade_one, suggest_one, suggest_all, suggest_adjustments,
  check_escalation,
}

abbrev pub is_downgrade : SeverityAdjustment → Bool
is_downgrade a = elim a.reason [ below_threshold _ _ _ ↦ true | above_threshold _ _ _ ↦ false ]

-- the floor that the suggestions read is the floor that the check reads
floor_agrees :
    (m : Option String) (floor : Option Severity) (s : Severity)
    → m ≢ some ""
    → optional_severity m ≡ ok floor
    → above_text s m ≡ ok (at_or_above s floor)
unfolding optional_severity
floor_agrees none floor s given e = ground arith
floor_agrees (some t) floor s given e = elim (Bool-cases (str_eq t "")) [
  | inl empty ↦ absurd (given (ap some ((eq_iff t "").0 empty)))
  | inr other ↦ elim (Option-cases (severity_of_value t)) [
    | inl unread ↦ let e' = rw (other, unread) at e in ground arith
    | inr (v, read) ↦ let e' = rw (other, read) at e in rw read (ground arith)
  ]
]

raises_none :
    (r : SeverityRules) (ceiling : Option Severity) (f : ConsolidatedFinding) (t : Option ℕ)
    (own : List SeverityAdjustment)
    → upgrade_one r ceiling f t ≡ ok own
    → any is_downgrade own ≡ false
unfolding upgrade_one any
raises_none r ceiling f none own e = ground arith
raises_none r ceiling f (some t) own e =
    raised_only (mapped_severity r.upgrade_map f.severity) (leb t f.confidence.overall) e
  where
    raised_only :
        (m : Result Severity) (b : Bool)
        → (if b then (m >>= λ s. ok (raised ceiling f t s)) else ok []) ≡ ok own
        → any is_downgrade own ≡ false
    raised_only m false h = ground arith
    raised_only (err x) true h = ground arith
    raised_only (ok s) true h = ground arith

module _ (r : SeverityRules) (floor ceiling : Option Severity) (f : ConsolidatedFinding) where
  agree_lowered :
      (m : Result Severity) (own : List SeverityAdjustment)
      → ((s : Severity) → above_text s r.minimum_severity ≡ ok (at_or_above s floor))
      → (m >>= λ s. ok (lowered floor f (effective_downgrade_threshold r f) s)) ≡ ok own
      → (m >>= λ s. if severity_eq s f.severity then ok false else above_text s r.minimum_severity)
        ≡ ok (any is_downgrade own)
  unfolding any
  agree_lowered (err x) own floors made = ground arith
  agree_lowered (ok s) own floors made = ground (arith, floors s)

  agree_one :
      (own : List SeverityAdjustment)
      → ((s : Severity) → above_text s r.minimum_severity ≡ ok (at_or_above s floor))
      → suggest_one r floor ceiling f ≡ ok own
      → check_escalation r f ≡ ok (any is_downgrade own)
  unfolding suggest_one check_escalation any
  agree_one own floors made = elim (Bool-cases (is_actionable f)) [
    | inr idle ↦ let made' = rw idle at made in rw idle (ground arith)
    | inl acts ↦ elim (Bool-cases (ltb f.confidence.overall (effective_downgrade_threshold r f))) [
      | inl low ↦
          let made' = rw (acts, low) at made in
          let high : leb (effective_downgrade_threshold r f) f.confidence.overall ≡ false =
            ground arith in
          rw (acts, high)
            (agree_lowered (mapped_severity r.downgrade_map f.severity) own floors made')
      | inr enough ↦
          let made' = rw (acts, enough) at made in
          let high : leb (effective_downgrade_threshold r f) f.confidence.overall ≡ true =
            ground arith in
          rw (acts, high, raises_none r ceiling f r.upgrade_threshold own made') refl
    ]
  ]

single : (m : Result (List SeverityAdjustment)) → (m >>= λ own. ok (own ++ [])) ≡ m
single (err x) = refl
single (ok own) = rw append-nil refl

-- The escalation check says of a finding what the suggestions say: if the suggestions for the
-- finding can be made, and the rules' minimum severity is not the empty text, then the check returns
-- true exactly when the suggestions have one for a confidence below the threshold, which is what the
-- downgrade map gives, lower or not.
pub check_escalation-suggest_adjustments :
    (r : SeverityRules) (f : ConsolidatedFinding) (suggested : List SeverityAdjustment)
    → r.minimum_severity ≢ some ""
    → suggest_adjustments r (f ∷ []) ≡ ok suggested
    → check_escalation r f ≡ ok (any is_downgrade suggested)
unfolding suggest_adjustments suggest_all
check_escalation-suggest_adjustments r f suggested given made =
    both (optional_severity r.minimum_severity) refl (optional_severity r.maximum_severity) made
  where
    both :
        (m : Result (Option Severity))
        → optional_severity r.minimum_severity ≡ m
        → (n : Result (Option Severity))
        → (m >>= λ floor. n >>= λ ceiling. suggest_all r floor ceiling (f ∷ [])) ≡ ok suggested
        → check_escalation r f ≡ ok (any is_downgrade suggested)
    both (err x) e n h = ground arith
    both (ok floor) e (err x) h = ground arith
    both (ok floor) e (ok ceiling) h =
        agree_one r floor ceiling f suggested (λ s. floor_agrees r.minimum_severity floor s given e)
          (sym (single (suggest_one r floor ceiling f)) ∙ h)
