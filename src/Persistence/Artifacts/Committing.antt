-- ===== src/Persistence/Artifacts/Committing.antt =====
-- persistence/artifacts.py, Phase 3 of `save_ingested_raw_output`: old data is moved aside, the staged
-- artifacts and then the staged manifest take its place, and a failure on the way is rolled back.
pub mod Atomic
pub mod Generation
use gxassessms.Base.{
  ℕ, ◌≡◌, ◌⊎◌, refl, zero, suc, Bool, true, false, Option, none, some, if◌then◌else◌,
}
use gxassessms.Errors.{Error, Result, ok, err, os_error, persistence_error}
use gxassessms.Exec.{Exec, modify, raise, pure, ◌>>=◌, ◌>>◌}
use gxassessms.Persistence.Artifacts.Disk.{
  Disk, file, directory, rename, rename_existing, unlink, rmtree, ignoring_errors, system_call,
  exists, put, Place, artifacts, manifest, aside_artifacts, aside_manifest, staged_artifacts,
  staged_manifest,
}

abbrev pub is_persistence_error : Error → Bool
is_persistence_error persistence_error = true
is_persistence_error _ = false

abbrev pub Choice : Bool → Type 0 → Type 0 → Type 0
Choice true P Q = P
Choice false P Q = Q

module _ {C : Type 0} where
  abbrev pub Placed : Option C → Option C → Disk C → Type 0
  Placed a m d = (d.artifacts ≡ a) × (d.manifest ≡ m)

  -- shutil.rmtree(staging_dir, ignore_errors=True)
  unfoldable pub remove_staging : Exec (Disk C) (Unit {0})
  remove_staging =
      ignoring_errors
        (system_call >> modify (λ d. put staged_artifacts none (put staged_manifest none d)))

  abbrev if_exists : Place → Exec (Disk C) (Unit {0}) → Exec (Disk C) (Unit {0})
  if_exists p m d = if exists p d then m d else (ok tt, d)

  -- the `try` block up to `artifacts_committed = True`
  unfoldable pub commit_artifacts : Exec (Disk C) (Unit {0})
  commit_artifacts = do
    rename_existing directory artifacts aside_artifacts
    rename_existing file manifest aside_manifest
    -- secure_mkdir of artifacts and of manifests
    system_call
    system_call
    rename directory staged_artifacts artifacts

  -- the `except OSError` block, for the value of artifacts_committed
  unfoldable pub roll_back : Bool → Exec (Disk C) (Unit {0})
  unfolding remove_staging
  roll_back artifacts_committed = do
    if artifacts_committed then if_exists artifacts (rmtree artifacts) else pure tt
    ignoring_errors (rename_existing directory aside_artifacts artifacts)
    ignoring_errors (rename_existing file aside_manifest manifest)
    remove_staging
    raise persistence_error

  -- behind the `try` block
  unfoldable pub clean_up : Exec (Disk C) (Unit {0})
  unfolding remove_staging
  clean_up = do
    remove_staging
    if_exists aside_artifacts (rmtree aside_artifacts)
    unlink aside_manifest

  -- m, and `handler` where m raises
  abbrev pub on_error :
      Exec (Disk C) (Unit {0})
      → Exec (Disk C) (Unit {0})
      → Exec (Disk C) (Unit {0})
      → Exec (Disk C) (Unit {0})
  on_error m handler next d = continue_with (m d)
    where
      continue_with : Result (Unit {0}) × Disk C → Result (Unit {0}) × Disk C
      continue_with (ok tt, d') = next d'
      continue_with (err e, d') = handler d'

  -- Phase 3
  unfoldable pub commit_ingested : Exec (Disk C) (Unit {0})
  unfolding commit_artifacts roll_back clean_up
  commit_ingested =
      on_error commit_artifacts (roll_back false)
        (on_error (rename file staged_manifest manifest) (roll_back true) clean_up)

  -- nothing stands aside, and a generation is staged
  abbrev pub ready : Option C → Option C → C → C → Option ℕ → Disk C
  ready old_artifacts old_manifest new_artifacts new_manifest fuse = record {
    artifacts = old_artifacts;
    manifest = old_manifest;
    aside_artifacts = none;
    aside_manifest = none;
    staged_artifacts = some new_artifacts;
    staged_manifest = some new_manifest;
    fuse = fuse;
  }

  -- the old generation behind the rollback's error, the new one behind anything else
  abbrev pub Whole : Option C → Option C → C → C → Result (Unit {0}) × Disk C → Type 0
  Whole a m a' m' (ok _, d) = Placed (some a') (some m') d
  Whole a m a' m' (err e, d) =
      Choice (is_persistence_error e) (Placed a m d) (Placed (some a') (some m') d)

  -- behind the `try` block of `save_raw_outputs`; the loop over orphaned staging directories touches none
  -- of these paths, but its iterdir, which nothing guards, may raise
  unfoldable pub clean_up_generation : Exec (Disk C) (Unit {0})
  unfolding remove_staging
  clean_up_generation = do
    if_exists aside_artifacts (rmtree aside_artifacts)
    if_exists aside_manifest (rmtree aside_manifest)
    remove_staging
    system_call

  -- Phase 3 of `save_raw_outputs`, which has no rollback
  unfoldable pub commit_generation : Exec (Disk C) (Unit {0})
  unfolding clean_up_generation
  commit_generation =
      on_error
        (do
          rename_existing directory artifacts aside_artifacts
          rename_existing directory manifest aside_manifest
          rename directory staged_artifacts artifacts
          rename directory staged_manifest manifest)
        (raise persistence_error) clean_up_generation

  -- the new generation in its places, or an error with all of both generations on the disk; where the
  -- error is no PersistenceError, the new generation is in its places too
  abbrev pub Recoverable : Option C → Option C → C → C → Result (Unit {0}) × Disk C → Type 0
  Recoverable a m a' m' (ok _, d) = (d.artifacts ≡ some a') × (d.manifest ≡ some m')
  Recoverable a m a' m' (err e, d) =
      ((e ≡ persistence_error)
        × ((d.artifacts ≡ a) ⊎ (d.aside_artifacts ≡ a))
        × ((d.manifest ≡ m) ⊎ (d.aside_manifest ≡ m))
        × ((d.artifacts ≡ some a') ⊎ (d.staged_artifacts ≡ some a'))
        × (d.staged_manifest ≡ some m'))
      ⊎ ((e ≡ os_error) × (d.artifacts ≡ some a') × (d.manifest ≡ some m'))
