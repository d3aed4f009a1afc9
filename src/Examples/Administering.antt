-- ===== src/Examples/Administering.antt =====
-- The theorems on deletions, overrides and the record of ingested output at a concrete store.
use gxassessms.Base.{String, ◌≡◌, ◌≢◌, refl, true, [], ◌∷◌, str_eq, eq_iff, arith}
use gxassessms.Domain.Enums.{low}
use gxassessms.Persistence.Store.{Store}
use gxassessms.Persistence.Engagements.Administration.{delete}
use gxassessms.Persistence.Engagements.Deleting.{Deleted, delete-Deleted}
use gxassessms.Persistence.Findings.Overriding.{override_severity}
use gxassessms.Persistence.Findings.Overriding.Overridden.{Overridden, override_severity-Overridden}
use gxassessms.Examples.{fresh, doubtful}

abbrev elsewhere : String
elsewhere = "e2"

other_engagement : elsewhere ≢ "e1"
other_engagement e = let same : str_eq "e2" "e1" ≡ true = (eq_iff "e2" "e1").1 e in ground arith

delete-Deleted_example : Deleted "e1" "e2" fresh (delete "e1" fresh)
delete-Deleted_example = delete-Deleted "e1" "e2" fresh other_engagement

abbrev consolidated : Store
consolidated = record fresh { consolidated_findings = ("e1", doubtful) ∷ [] }

override_severity-Overridden_example :
    Overridden "scuba:mfa" low "reviewed" "human:rick" "e1" "e1" "maester:spf" consolidated
      (override_severity "scuba:mfa" low "reviewed" "human:rick" "e1" consolidated)
override_severity-Overridden_example =
    override_severity-Overridden "scuba:mfa" low "reviewed" "human:rick" "e1" "e1" "maester:spf"
      consolidated refl
