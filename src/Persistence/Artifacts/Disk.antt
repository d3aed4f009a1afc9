-- ===== src/Persistence/Artifacts/Disk.antt =====
-- The paths below raw-output that a commit in persistence/artifacts.py moves, and the calls of pathlib
-- and shutil on them. A file or a directory tree is moved whole, so what it holds is one value. An
-- operation that may raise OSError does so when the fuse runs out, and has then changed nothing.
use gxassessms.Base.{ℕ, zero, suc, Bool, true, false, Option, none, some, if◌then◌else◌}
use gxassessms.Errors.{Result, ok, err, os_error}
use gxassessms.Exec.{Exec, modify, ◌>>◌}

-- For `save_ingested_raw_output`, the six paths of one slug and one staging id: artifacts/<slug>,
-- manifests/<slug>.json, .old-artifacts-..., .old-manifest-..., and the two in the staging directory.
-- For `save_raw_outputs`, artifacts, manifests, .old-artifacts-..., .old-manifests-..., and the two.
pub data Place : Type 0 where
  artifacts manifest aside_artifacts aside_manifest staged_artifacts staged_manifest : Place

pub data Kind : Type 0 where
  file directory : Kind

pub record Disk (C : Type 0) : Type 0 where
  pub artifacts : Option C
  pub manifest : Option C
  pub aside_artifacts : Option C
  pub aside_manifest : Option C
  pub staged_artifacts : Option C
  pub staged_manifest : Option C
  -- how many operations succeed before the one that fails, if one does
  pub fuse : Option ℕ

-- one operation that the operating system may refuse
abbrev pub burn : Option ℕ → Result (Unit {0}) × Option ℕ
burn none = (ok tt, none)
burn (some zero) = (err os_error, none)
burn (some (suc n)) = (ok tt, some n)

module _ {C : Type 0} where
  abbrev pub at : Place → Disk C → Option C
  at artifacts d = d.artifacts
  at manifest d = d.manifest
  at aside_artifacts d = d.aside_artifacts
  at aside_manifest d = d.aside_manifest
  at staged_artifacts d = d.staged_artifacts
  at staged_manifest d = d.staged_manifest

  abbrev pub put : Place → Option C → Disk C → Disk C
  put artifacts c d = record d { artifacts = c }
  put manifest c d = record d { manifest = c }
  put aside_artifacts c d = record d { aside_artifacts = c }
  put aside_manifest c d = record d { aside_manifest = c }
  put staged_artifacts c d = record d { staged_artifacts = c }
  put staged_manifest c d = record d { staged_manifest = c }

  abbrev pub exists_in : Option C → Bool
  exists_in none = false
  exists_in (some c) = true

  -- path.exists()
  abbrev pub exists : Place → Disk C → Bool
  exists p d = exists_in (at p d)

  abbrev pub system_call : Exec (Disk C) (Unit {0})
  system_call d = let (r, fuse) = burn d.fuse in (r, record d { fuse = fuse })

  -- what a rename finds at its target: a file is replaced, a directory is in the way
  abbrev in_the_way : Kind → Option C → Bool
  in_the_way file there = false
  in_the_way directory there = exists_in there

  abbrev move_content : Bool → Place → Place → Option C → Exec (Disk C) (Unit {0})
  move_content false from to (some c) d = (ok tt, put to (some c) (put from none d))
  move_content _ from to _ d = (err os_error, d)

  -- from.rename(to)
  abbrev pub rename : Kind → Place → Place → Exec (Disk C) (Unit {0})
  rename k from to = system_call >> λ d. move_content (in_the_way k (at to d)) from to (at from d) d

  -- if from.exists(): from.rename(to)
  abbrev pub rename_existing : Kind → Place → Place → Exec (Disk C) (Unit {0})
  rename_existing k from to d = if exists from d then rename k from to d else (ok tt, d)

  -- path.unlink(missing_ok=True)
  abbrev pub unlink : Place → Exec (Disk C) (Unit {0})
  unlink p = system_call >> modify (put p none)

  -- the error is dropped: `except OSError: logger.error(...)`, and ignore_errors=True
  abbrev pub ignoring_errors : Exec (Disk C) (Unit {0}) → Exec (Disk C) (Unit {0})
  ignoring_errors m d = (ok tt, (m d).1)

  -- shutil.rmtree(path, ignore_errors=True)
  abbrev pub rmtree : Place → Exec (Disk C) (Unit {0})
  rmtree p = ignoring_errors (unlink p)
