-- ===== src/Persistence/Artifacts/Saving.antt =====
-- persistence/artifacts.py: `save_ingested_raw_output` and `save_raw_outputs`, from the conflict probe
-- to the commit. What stands at a place is the raw output, or the run's raw outputs, whose artifacts or
-- manifests it holds. A failure while files are staged is an error of `files`; the staging directory
-- is then removed, and no other place has changed.
pub mod Whole
use gxassessms.Base.{
  ℕ, String, Bool, true, not, Option, none, some, List, [], ◌∷◌, ◌&&◌, ◌||◌, if◌then◌else◌,
}
use gxassessms.Errors.{Error, Result, ok, err, persistence_error}
use gxassessms.Exec.{Exec, modify, raise, pure, ◌>>=◌, ◌>>◌}
use gxassessms.Domain.Manifests.{RawToolOutput, IngestProvenance}
use gxassessms.Persistence.Artifacts.Disk.{
  Disk, Place, exists, put, artifacts, manifest, staged_artifacts, staged_manifest,
}
use gxassessms.Persistence.Artifacts.Staging.{
  Files, CollectionOutput, stage_ingested, stage_generation,
}
use gxassessms.Persistence.Artifacts.Committing.{commit_ingested, commit_generation}

-- the staging directory behind Phase 2
abbrev pub stage : {C : Type 0} → C → Disk C → Disk C
stage c d = put staged_artifacts (some c) (put staged_manifest (some c) d)

-- ingest_provenance.model_copy(update={"replaced": has_existing})
abbrev pub mark_replaced : Bool → IngestProvenance → IngestProvenance
mark_replaced has_existing p = record p { replaced = has_existing }

abbrev pub has_existing : {C : Type 0} → Disk C → Bool
has_existing d = exists manifest d || exists artifacts d

-- the rest of a method where its staging succeeded
abbrev pub staged_then : {C : Type 0} → Exec (Disk C) (Unit {0}) → Result C → Exec (Disk C) C
staged_then commit (err e) d = (err e, d)
staged_then commit (ok c) d = (modify (stage c) >> commit >> pure c) d

module _ (files : Files) (lower : String → String) where
  unfoldable pub save_ingested_raw_output :
      Bool → CollectionOutput → IngestProvenance → Exec (Disk RawToolOutput) RawToolOutput
  unfolding commit_ingested stage_ingested
  save_ingested_raw_output replace co provenance d =
      if has_existing d && not replace
      then (err persistence_error, d)
      else staged_then commit_ingested
          (stage_ingested files lower co (mark_replaced (has_existing d) provenance)) d

  -- the raw outputs of the results that succeeded
  unfoldable pub save_raw_outputs :
      List CollectionOutput → Exec (Disk (List RawToolOutput)) (List RawToolOutput)
  unfolding commit_generation stage_generation
  save_raw_outputs [] d = (ok [], d)
  save_raw_outputs (co ∷ cos) d =
      staged_then commit_generation (stage_generation files lower (co ∷ cos)) d
