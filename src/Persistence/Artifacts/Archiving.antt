-- ===== src/Persistence/Artifacts/Archiving.antt =====
-- persistence/artifacts.py: `archive` and `restore` of the class ArtifactManager, and in a child `purge`, on the
-- directory of one engagement, and their audit manifests. tarfile is a parameter. An operation of the
-- file system that raises OSError has changed nothing.
pub mod Purging
pub mod Kept
use gxassessms.Base.{
  ℕ, String, Bool, true, false, not, Option, none, some, List, [], ◌∷◌, ◌++◌, ◌&&◌, if◌then◌else◌,
  map, ◌≡◌, length,
}
use gxassessms.Errors.{Error, Result, ok, err, require, os_error, persistence_error}
use gxassessms.Exec.{Exec, modify, raise, pure, gets, lift, ◌>>=◌, ◌>>◌}
use gxassessms.Persistence.Artifacts.Disk.{burn, exists_in, ignoring_errors}

-- the files below a directory, each with its path and its text
abbrev pub Files : Type 0
Files = List (String × String)

pub record Tar : Type 1 where
  pub Tarball : Type 0
  -- tarfile.open(path, "w:gz") with tar.add, and the "r:gz" that reads it back; a TarError and an
  -- OSError, which every handler treats alike, stand as os_error, here and in `extract`
  pub add : Files → Result Tarball
  pub members : Tarball → List String
  -- tar.extractall: what stands as raw-output in the staging directory then
  pub extract : Tarball → Result (Option Files)
  -- a tarball gives back what was added
  pub extract-add : (files : Files) (b : Tarball) → add files ≡ ok b → extract b ≡ ok (some files)

pub data LifecycleAction : Type 0 where
  archive_action restore_action purge_action : LifecycleAction

-- an audit manifest: what it records beyond the operator and the time
pub record AuditManifest : Type 0 where
  pub action : LifecycleAction
  pub operator : String
  pub files_deleted : List String
  pub rmtree_error : Bool

abbrev pub has_file : Option Files → Bool
has_file none = false
has_file (some []) = false
has_file (some (f ∷ fs)) = true

abbrev pub paths : Option Files → List String
paths none = []
paths (some fs) = map (λ f. f.0) fs

module _ (tar : Tar) where
  open tar use {Tarball, add, members, extract}

  pub record EngagementDir : Type 0 where
    pub raw_output : Option Files
    pub archived : Option Tarball
    -- .restore-staging, where it exists, and the raw-output in it
    pub staging : Option (Option Files)
    -- the reports, the configuration and the rest
    pub others : Option Files
    pub audit : List AuditManifest
    -- how many operations succeed before the one that fails, if one does
    pub fuse : Option ℕ

  abbrev pub Step : Type 0 → Type 0
  Step A = Exec EngagementDir A

  abbrev pub system_call : Step (Unit {0})
  system_call d = let (r, fuse) = burn d.fuse in (r, record d { fuse = fuse })

  abbrev pub ignoring : Step (Unit {0}) → Step (Unit {0})
  ignoring m d = (ok tt, (m d).1)

  -- _write_lifecycle_audit
  unfoldable pub write_lifecycle_audit : AuditManifest → Step (Unit {0})
  write_lifecycle_audit m = system_call >> modify (λ d. record d { audit = d.audit ++ m ∷ [] })

  abbrev pub entry : LifecycleAction → String → AuditManifest
  entry action operator = record {
    action = action;
    operator = operator;
    files_deleted = [];
    rmtree_error = false;
  }

  -- shutil.rmtree(raw_dir)
  abbrev pub remove_raw : Step (Unit {0})
  remove_raw = system_call >> modify (λ d. record d { raw_output = none })

  abbrev when : Bool → Step (Unit {0}) → Step (Unit {0})
  when b m d = if b then m d else (ok tt, d)

  abbrev pub or_persistence_error {ℓ} : {A : Type ℓ} → Result A → Result A
  or_persistence_error (err os_error) = err persistence_error
  or_persistence_error r = r

  abbrev pub verified : Tarball → Bool
  verified b = some_of (members b)
    where
      some_of : List String → Bool
      some_of [] = false
      some_of (m ∷ ms) = true

  -- raw-output is emptied, with its tarball written
  abbrev pub empty_raw : Tarball → Step (Unit {0})
  empty_raw b = do
    modify (λ d. record d { archived = some b })
    remove_raw
    system_call
    modify (λ d. record d { raw_output = some [] })

  abbrev pub verify : Tarball → Step (Unit {0})
  verify b = lift (require (verified b) persistence_error) >> empty_raw b

  -- behind the checks of `archive`: the tarball is written and read back, raw-output is emptied
  abbrev pub store : Files → Step (Unit {0})
  store files = lift (or_persistence_error (add files)) >>= verify

  abbrev pub files_of : Option Files → Files
  files_of none = []
  files_of (some fs) = fs

  unfoldable pub archive : String → Step (Unit {0})
  unfolding write_lifecycle_audit
  archive operator = do
    d ← gets (λ d. d)
    lift (require (has_file d.raw_output) persistence_error)
    lift (require (not (exists_in d.archived)) persistence_error)
    store (files_of d.raw_output)
    ignoring (write_lifecycle_audit (entry archive_action operator))

  -- `raise PersistenceError` for an OSError of m
  abbrev translated : Step (Unit {0}) → Step (Unit {0})
  translated m d = let (r, d') = m d in (or_persistence_error r, d')

  abbrev drop_staging : Step (Unit {0})
  drop_staging = ignoring (system_call >> modify (λ d. record d { staging = none }))

  -- m, and staging_dir removed behind it, whether it returns or raises
  abbrev finally_drop_staging : Step (Unit {0}) → Step (Unit {0})
  finally_drop_staging m d = let (r, d') = m d in (r, (drop_staging d').1)

  -- the swap of `restore`
  abbrev pub swap : Files → Step (Unit {0})
  swap files = do
    d ← gets (λ d. d)
    when (exists_in d.raw_output) remove_raw
    system_call
    modify (λ d. record d { raw_output = some files; staging = some none })

  abbrev pub place : Option Files → Step (Unit {0})
  place none = drop_staging >> raise persistence_error
  place (some files) = finally_drop_staging (translated (swap files))

  -- secure_mkdir(staging_dir) and tar.extractall
  abbrev pub extract_to_staging : Tarball → Step (Option Files)
  extract_to_staging b = do
    system_call
    d ← gets (λ d. d)
    lift (require (not (exists_in d.staging)) os_error)
    modify (λ d. record d { staging = some none })
    files ← lift (extract b)
    modify (λ d. record d { staging = some files })
    pure files

  abbrev pub or_drop_staging : Step (Option Files) → Step (Option Files)
  or_drop_staging m d = caught (m d)
    where
      caught : Result (Option Files) × EngagementDir → Result (Option Files) × EngagementDir
      caught (ok files, d') = (ok files, d')
      caught (err os_error, d') = (err persistence_error, (drop_staging d').1)
      caught (err e, d') = (err e, d')

  abbrev found : Option Tarball → Result Tarball
  found none = err persistence_error
  found (some b) = ok b

  unfoldable pub restore : String → Step (Unit {0})
  unfolding write_lifecycle_audit
  restore operator = do
    d ← gets (λ d. d)
    b ← lift (found d.archived)
    files ← or_drop_staging (extract_to_staging b)
    place files
    ignoring (write_lifecycle_audit (entry restore_action operator))
