-- ===== src/Persistence/Artifacts/Committing/Atomic.antt =====
-- persistence/artifacts.py: a commit of raw output brought in by hand leaves the old generation or the
-- new one in place, wherever an operation of the file system fails.
use gxassessms.Base.{ℕ, refl, zero, suc, Option, none, some}
use gxassessms.Persistence.Artifacts.Committing.{commit_ingested, clean_up, ready, Whole}
use gxassessms.Persistence.Artifacts.Disk.{Disk}

module _ {C : Type 0} where
  -- behind the two renames that commit
  abbrev committed : Option C → Option C → C → C → Option ℕ → Disk C
  committed aside_artifacts aside_manifest a m fuse = record {
    artifacts = some a;
    manifest = some m;
    aside_artifacts = aside_artifacts;
    aside_manifest = aside_manifest;
    staged_artifacts = none;
    staged_manifest = none;
    fuse = fuse;
  }

  clean_up-Whole :
      (a m : Option C) (a' m' : C) (fuse : Option ℕ)
      → Whole a m a' m' (clean_up (committed a m a' m' fuse))
  unfolding clean_up
  clean_up-Whole (some a) m a' m' none = (refl, refl)
  clean_up-Whole (some a) m a' m' (some zero) = (refl, refl)
  clean_up-Whole (some a) m a' m' (some (suc zero)) = (refl, refl)
  clean_up-Whole (some a) m a' m' (some (suc (suc zero))) = (refl, refl)
  clean_up-Whole (some a) m a' m' (some (suc (suc (suc n)))) = (refl, refl)
  clean_up-Whole none m a' m' none = (refl, refl)
  clean_up-Whole none m a' m' (some zero) = (refl, refl)
  clean_up-Whole none m a' m' (some (suc zero)) = (refl, refl)
  clean_up-Whole none m a' m' (some (suc (suc n))) = (refl, refl)

  -- Phase 3 of `save_ingested_raw_output` either raises PersistenceError and leaves the old artifacts
  -- and the old manifest, present or not, in their places, or leaves the staged ones there, if nothing
  -- stood aside before and at most one operation of the file system fails, whichever one it is.
  pub commit_ingested-Whole :
      (a m : Option C) (a' m' : C) (fuse : Option ℕ)
      → Whole a m a' m' (commit_ingested (ready a m a' m' fuse))
  unfolding commit_ingested
  commit_ingested-Whole (some a) (some m) a' m' none = clean_up-Whole (some a) (some m) a' m' none
  commit_ingested-Whole (some a) (some m) a' m' (some zero) = (refl, refl)
  commit_ingested-Whole (some a) (some m) a' m' (some (suc zero)) = (refl, refl)
  commit_ingested-Whole (some a) (some m) a' m' (some (suc (suc zero))) = (refl, refl)
  commit_ingested-Whole (some a) (some m) a' m' (some (suc (suc (suc zero)))) = (refl, refl)
  commit_ingested-Whole (some a) (some m) a' m' (some (suc (suc (suc (suc zero))))) = (refl, refl)
  commit_ingested-Whole (some a) (some m) a' m' (some (suc (suc (suc (suc (suc zero)))))) =
      (refl, refl)
  commit_ingested-Whole (some a) (some m) a' m' (some (suc (suc (suc (suc (suc (suc n))))))) =
      clean_up-Whole (some a) (some m) a' m' (some n)
  commit_ingested-Whole (some a) none a' m' none = clean_up-Whole (some a) none a' m' none
  commit_ingested-Whole (some a) none a' m' (some zero) = (refl, refl)
  commit_ingested-Whole (some a) none a' m' (some (suc zero)) = (refl, refl)
  commit_ingested-Whole (some a) none a' m' (some (suc (suc zero))) = (refl, refl)
  commit_ingested-Whole (some a) none a' m' (some (suc (suc (suc zero)))) = (refl, refl)
  commit_ingested-Whole (some a) none a' m' (some (suc (suc (suc (suc zero))))) = (refl, refl)
  commit_ingested-Whole (some a) none a' m' (some (suc (suc (suc (suc (suc n)))))) =
      clean_up-Whole (some a) none a' m' (some n)
  commit_ingested-Whole none (some m) a' m' none = clean_up-Whole none (some m) a' m' none
  commit_ingested-Whole none (some m) a' m' (some zero) = (refl, refl)
  commit_ingested-Whole none (some m) a' m' (some (suc zero)) = (refl, refl)
  commit_ingested-Whole none (some m) a' m' (some (suc (suc zero))) = (refl, refl)
  commit_ingested-Whole none (some m) a' m' (some (suc (suc (suc zero)))) = (refl, refl)
  commit_ingested-Whole none (some m) a' m' (some (suc (suc (suc (suc zero))))) = (refl, refl)
  commit_ingested-Whole none (some m) a' m' (some (suc (suc (suc (suc (suc n)))))) =
      clean_up-Whole none (some m) a' m' (some n)
  commit_ingested-Whole none none a' m' none = clean_up-Whole none none a' m' none
  commit_ingested-Whole none none a' m' (some zero) = (refl, refl)
  commit_ingested-Whole none none a' m' (some (suc zero)) = (refl, refl)
  commit_ingested-Whole none none a' m' (some (suc (suc zero))) = (refl, refl)
  commit_ingested-Whole none none a' m' (some (suc (suc (suc zero)))) = (refl, refl)
  commit_ingested-Whole none none a' m' (some (suc (suc (suc (suc n))))) =
      clean_up-Whole none none a' m' (some n)
