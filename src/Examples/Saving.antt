-- ===== src/Examples/Saving.antt =====
-- The theorems on saved findings at an engagement with findings of an earlier run.
use gxassessms.Base.{[], ◌∷◌}
use gxassessms.Persistence.Store.{Store}
use gxassessms.Examples.{fresh, doubtful, certain}

abbrev worn : Store
worn = record fresh { consolidated_findings = ("e1", doubtful) ∷ ("e2", certain) ∷ [] }
