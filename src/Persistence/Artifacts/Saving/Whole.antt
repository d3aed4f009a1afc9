-- ===== src/Persistence/Artifacts/Saving/Whole.antt =====
-- persistence/artifacts.py: what a save leaves on the disk, whether it returns or raises.
use gxassessms.Base.{
  ℕ, refl, Bool, true, false, not, Option, none, some, ◌⊎◌, inl, inr, ◌||◌, ◌&&◌, if◌then◌else◌,
  String,
}
use gxassessms.Errors.{Result, ok, err, persistence_error}
use gxassessms.Exec.{pure, continue}
use gxassessms.Domain.Manifests.{RawToolOutput, IngestProvenance}
use gxassessms.Persistence.Artifacts.Disk.{Disk, exists_in}
use gxassessms.Persistence.Artifacts.Staging.{Files, CollectionOutput, stage_ingested}
use gxassessms.Persistence.Artifacts.Saving.{save_ingested_raw_output, staged_then, mark_replaced}
use gxassessms.Persistence.Artifacts.Committing.{
  commit_ingested, Whole, Placed, Choice, is_persistence_error,
}
use gxassessms.Persistence.Artifacts.Committing.Atomic.{commit_ingested-Whole}

unchanged : (P Q : Type 0) (b : Bool) → P → Choice b P (P ⊎ Q)
unchanged P Q true h = h
unchanged P Q false h = inl h

replaced : (P Q R : Type 0) (b : Bool) → (Q → R) → Choice b P Q → Choice b P (P ⊎ R)
replaced P Q R true f h = h
replaced P Q R false f h = inr (f h)

module _ {C : Type 0} where
  -- nothing stands aside or staged
  abbrev pub idle : Option C → Option C → Option ℕ → Disk C
  idle old_artifacts old_manifest fuse = record {
    artifacts = old_artifacts;
    manifest = old_manifest;
    aside_artifacts = none;
    aside_manifest = none;
    staged_artifacts = none;
    staged_manifest = none;
    fuse = fuse;
  }

  -- What is returned is in place. A PersistenceError has changed nothing; an error of another kind has
  -- changed nothing, or both the artifacts and the manifest.
  abbrev pub Saved : Option C → Option C → Result C × Disk C → Type 0
  Saved a m (ok c, d) = Placed (some c) (some c) d
  Saved a m (err e, d) =
      Choice (is_persistence_error e) (Placed a m d)
        (Placed a m d ⊎ ((c : C) × Placed (some c) (some c) d))

  Whole-Saved :
      (a m : Option C) (c : C) (out : Result (Unit {0}) × Disk C)
      → Whole a m c c out
      → Saved a m (continue out.0 (λ _. pure c) out.1)
  Whole-Saved a m c (ok tt, d) h = h
  Whole-Saved a m c (err e, d) h =
      replaced (Placed a m d) _ _ (is_persistence_error e) (λ new. (c, new)) h

  pub staged_then-Saved :
      (a m : Option C) (fuse : Option ℕ) (r : Result C)
      → Saved a m (staged_then commit_ingested r (idle a m fuse))
  staged_then-Saved a m fuse (err e) = unchanged _ _ (is_persistence_error e) (refl, refl)
  staged_then-Saved a m fuse (ok c) = Whole-Saved a m c _ (commit_ingested-Whole a m c c fuse)

-- `save_ingested_raw_output`, run while nothing stands aside or staged and with at most one operation of
-- its commit failing, has the returned raw output as both the artifacts and the manifest in place if
-- it returns. If it raises PersistenceError, the artifacts and the manifest are as they were; an error of
-- another kind has left both as they were or replaced both.
pub save_ingested_raw_output-Saved :
    (files : Files) (lower : String → String) (replace : Bool) (co : CollectionOutput)
    (provenance : IngestProvenance) (a m : Option RawToolOutput) (fuse : Option ℕ)
    → Saved a m (save_ingested_raw_output files lower replace co provenance (idle a m fuse))
unfolding save_ingested_raw_output
save_ingested_raw_output-Saved files lower replace co provenance a m fuse =
    probe ((exists_in m || exists_in a) && not replace)
  where
    probe :
        (b : Bool)
        → Saved a m (
            if b
            then (err persistence_error, idle a m fuse)
            else staged_then commit_ingested
                (stage_ingested files lower co
                  (mark_replaced (exists_in m || exists_in a) provenance))
                (idle a m fuse))
    probe true = (refl, refl)
    probe false = staged_then-Saved a m fuse _
