-- ===== src/Persistence/Artifacts.antt =====
-- persistence/artifacts.py. Its children model what it keeps on disk, how raw output that is brought
-- in by hand is committed there, the checks of the artifacts, and the names of directories.
pub mod Naming
pub mod Archiving
pub mod Disk
pub mod Staging
pub mod Committing
pub mod Saving
use gxassessms.Base.{ℕ}
