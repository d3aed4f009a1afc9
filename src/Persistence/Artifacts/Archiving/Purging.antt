-- ===== src/Persistence/Artifacts/Archiving/Purging.antt =====
-- persistence/artifacts.py: `purge`, which writes the audit manifest before it deletes.
use gxassessms.Base.{String, Bool, true, false, Option, none, some, List, [], ◌∷◌, ◌++◌}
use gxassessms.Errors.{Result, ok, err, require, persistence_error}
use gxassessms.Exec.{modify, raise, pure, gets, lift, ◌>>=◌, ◌>>◌}
use gxassessms.Persistence.Artifacts.Archiving.{
  Tar, EngagementDir, Step, Files, AuditManifest, purge_action, paths, system_call,
  write_lifecycle_audit,
}

module _ (tar : Tar) where
  open tar use {Tarball}

  abbrev staged_paths : Option (Option Files) → List String
  staged_paths none = []
  staged_paths (some files) = paths files

  abbrev archive_path : Option Tarball → List String
  archive_path none = []
  archive_path (some b) = "raw-output.tar.gz" ∷ []

  -- the files of the engagement, in the order of rglob
  abbrev pub all_files : EngagementDir tar → List String
  all_files d =
      paths d.raw_output ++ staged_paths d.staging ++ archive_path d.archived ++ paths d.others

  abbrev pub purge_entry : String → List String → Bool → AuditManifest
  purge_entry operator files failed = record {
    action = purge_action;
    operator = operator;
    files_deleted = files;
    rmtree_error = failed;
  }

  -- manifest_path.write_text of the manifest with its rmtree_error, in place of the one that was written
  abbrev pub mark_last : List AuditManifest → List AuditManifest
  mark_last [] = []
  mark_last (m ∷ []) = record m { rmtree_error = true } ∷ []
  mark_last (m ∷ n ∷ ms) = m ∷ mark_last (n ∷ ms)

  abbrev pub some_text : List String → Bool
  some_text [] = false
  some_text (s ∷ ss) = true

  -- what a removal that fails midway leaves of the directory
  pub record Remains : Type 0 where
    pub raw_output : Option Files
    pub archived : Option Tarball
    pub staging : Option (Option Files)
    pub others : Option Files

  -- shutil.rmtree(eng_dir), and what follows its failure
  abbrev pub remove_all : Remains → Step tar (Unit {0})
  remove_all remains d = caught (system_call tar d)
    where
      caught : Result (Unit {0}) × EngagementDir tar → Result (Unit {0}) × EngagementDir tar
      caught (ok _, d') =
          (ok tt, record d' { raw_output = none; archived = none; staging = none; others = none })
      caught (err e, d') =
          (system_call tar
              >> modify (λ d. record d { audit = mark_last d.audit })
              >> raise persistence_error)
            (record d' {
              raw_output = remains.raw_output;
              archived = remains.archived;
              staging = remains.staging;
              others = remains.others;
            })

  -- `remains` are what shutil.rmtree leaves where it fails
  unfoldable pub purge : Remains → String → Step tar (List String)
  unfolding write_lifecycle_audit
  purge remains operator = do
    files_deleted ← gets all_files
    lift (require (some_text files_deleted) persistence_error)
    write_lifecycle_audit tar (purge_entry operator files_deleted false)
    remove_all remains
    pure files_deleted
