-- ===== src/Persistence/Findings/Overriding/Overridden.antt =====
-- persistence/finding_repo.py: what an override changes, and what it records.
use gxassessms.Base.{
  suc, ◌+◌, String, ◌≡◌, refl, true, false, Option, none, some, List, [], ◌∷◌, ◌++◌, ◌&&◌, str_eq,
  map, arith, eq_iff, Bool-cases, inl, inr,
}
use gxassessms.Errors.{Result, ok, err, persistence_error}
use gxassessms.Domain.Enums.{Severity}
use gxassessms.Domain.Findings.{ConsolidatedFinding}
use gxassessms.Persistence.Store.{Store, utc_now}
use gxassessms.Persistence.Findings.Overriding.{
  find_severity, set_severity, is_finding, override_severity, override_row, overriding,
}

find_severity-set_severity :
    (eng id : String) (severity : Severity) (rows : List (String × ConsolidatedFinding))
    (old : Severity)
    → find_severity eng id rows ≡ some old
    → find_severity eng id (map (set_severity eng id severity) rows) ≡ some severity
unfolding find_severity
find_severity-set_severity eng id severity [] old h = ground arith
find_severity-set_severity eng id severity ((owner, f) ∷ rows) old h =
    elim (Bool-cases (is_finding eng id (owner, f))) [
      | inl own ↦ rw (own, own) refl
      | inr other ↦
          let h' = rw other at h in
          rw (other, other, find_severity-set_severity eng id severity rows old h') refl
    ]

-- a row of one finding is no row of a different one
apart :
    (eng id eng' id' : String) (r : String × ConsolidatedFinding)
    → str_eq eng eng' && str_eq id id' ≡ false
    → is_finding eng id r ≡ true
    → is_finding eng' id' r ≡ false
apart eng id eng' id' (owner, f) different own = ground (
  arith,
  eq_iff owner eng,
  eq_iff owner eng',
  eq_iff eng eng',
  eq_iff f.finding_instance_id id,
  eq_iff f.finding_instance_id id',
  eq_iff id id',
)

find_severity-set_severity_other :
    (eng id eng' id' : String) (severity : Severity) (rows : List (String × ConsolidatedFinding))
    → str_eq eng eng' && str_eq id id' ≡ false
    → find_severity eng' id' (map (set_severity eng id severity) rows) ≡ find_severity eng' id' rows
unfolding find_severity
find_severity-set_severity_other eng id eng' id' severity [] different = refl
find_severity-set_severity_other eng id eng' id' severity ((owner, f) ∷ rows) different =
    let rest = find_severity-set_severity_other eng id eng' id' severity rows different in
    elim (Bool-cases (is_finding eng id (owner, f))) [
      | inl own ↦ rw (own, apart eng id eng' id' (owner, f) different own, rest) refl
      | inr other ↦ rw (other, rest) refl
    ]

-- What an override leaves: it returns with the new severity for the finding, the severity of another
-- finding as it was, and one more row in the log with the old and the new severity; or it raises
-- PersistenceError with the findings and the log as they were, where there is no such finding.
abbrev pub Overridden :
    String
    → Severity
    → String
    → String
    → String
    → String
    → String
    → Store
    → Result (Unit {0}) × Store
    → Type 0
Overridden id severity reason actor eng eng' id' s (ok _, s') =
    (find_severity eng id s'.consolidated_findings ≡ some severity)
    × (find_severity eng' id' s'.consolidated_findings
        ≡ find_severity eng' id' s.consolidated_findings)
    × ((old : Severity) × (find_severity eng id s.consolidated_findings ≡ some old)
        × (s'.overrides
            ≡ s.overrides ++ (eng, override_row id old severity reason actor s.now) ∷ []))
Overridden id severity reason actor eng eng' id' s (err e, s') =
    (e ≡ persistence_error)
    × (find_severity eng id s.consolidated_findings ≡ none)
    × (s'.consolidated_findings ≡ s.consolidated_findings)
    × (s'.overrides ≡ s.overrides)

-- `override_severity` returns with the new severity for the finding of the engagement, the severity of any
-- other finding as it was and one more row in the log, with the old and the new severity; or it raises
-- PersistenceError with the findings and the log as they were, where there is no such finding.
pub override_severity-Overridden :
    (id : String) (severity : Severity) (reason actor eng eng' id' : String) (s : Store)
    → str_eq eng eng' && str_eq id id' ≡ false
    → Overridden id severity reason actor eng eng' id' s
        (override_severity id severity reason actor eng s)
unfolding override_severity utc_now
override_severity-Overridden id severity reason actor eng eng' id' s different =
    by_row (find_severity eng id s.consolidated_findings) refl
  where
    by_row :
        (found : Option Severity)
        → find_severity eng id s.consolidated_findings ≡ found
        → Overridden id severity reason actor eng eng' id' s (
            overriding id severity reason actor eng s.now found
              (record s { now = s.now + s.pace s.readings; readings = suc s.readings }))
    by_row none e = (refl, e, refl, refl)
    by_row (some old) e = (
      find_severity-set_severity eng id severity s.consolidated_findings old e,
      find_severity-set_severity_other eng id eng' id' severity s.consolidated_findings different,
      (old, e, refl),
    )
