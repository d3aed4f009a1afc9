-- ===== src/Persistence/Artifacts/Archiving/Kept.antt =====
-- persistence/artifacts.py: archiving loses no raw output, and purging records what it deletes.
use gxassessms.Base.{
  ℕ, zero, suc, ◌≡◌, refl, sym, subst, ◌∙◌, ap, Bool, true, false, not, Option, none, some, ◌⊎◌,
  inl, inr, List, [], ◌∷◌, ◌++◌, String, arith,
}
use gxassessms.Errors.{Result, ok, err, require, persistence_error, os_error}
use gxassessms.Exec.{modify, continue, lift, pure, ◌>>◌}
use gxassessms.Exec.Keeps.{Keeps, Keeps-bind, after}
use gxassessms.Persistence.Artifacts.Disk.{exists_in}
use gxassessms.Persistence.Artifacts.Archiving.Purging.{
  all_files, purge_entry, some_text, remove_all, purge, mark_last, Remains,
}
use gxassessms.Persistence.Artifacts.Archiving.{
  Tar, Files, EngagementDir, archive, write_lifecycle_audit, store, entry, archive_action,
  or_persistence_error, verified, system_call, remove_raw, empty_raw, verify, ignoring, has_file,
  files_of, AuditManifest,
}

or_persistence_error-ok {ℓ} :
    {A : Type ℓ} (tar : Tar) (r : Result A) (a : A) → or_persistence_error tar r ≡ ok a → r ≡ ok a
or_persistence_error-ok tar (ok b) a h = h
or_persistence_error-ok tar (err os_error) a h = ground arith
or_persistence_error-ok tar (err e) a h = ground arith

module _ (tar : Tar) where
  open tar use {Tarball, add, members, extract, extract-add}

  -- the raw output is in its place, or in an archive that gives it back
  abbrev pub Held : Files → EngagementDir tar → Type 0
  Held files d =
      (d.raw_output ≡ some files)
      ⊎ ((b : Tarball) × (d.archived ≡ some b) × (extract b ≡ ok (some files)))

  abbrev HasArchive : Tarball → EngagementDir tar → Type 0
  HasArchive b d = d.archived ≡ some b

  HasArchive-system_call : (b : Tarball) → Keeps (HasArchive b) (system_call tar)
  HasArchive-system_call b = record { behind = λ s h. h }

  HasArchive-modify :
      (b : Tarball) (f : EngagementDir tar → EngagementDir tar)
      → ((d : EngagementDir tar) → (f d).archived ≡ d.archived)
      → Keeps (HasArchive b) (modify f)
  HasArchive-modify b f same = record { behind = λ s h. same s ∙ h }

  archived-empty_raw : (b : Tarball) (d : EngagementDir tar) → HasArchive b (empty_raw tar b d).1
  archived-empty_raw b d =
      (Keeps-bind {P = HasArchive b} (remove_raw tar) _
          (Keeps-bind (system_call tar) _ (HasArchive-system_call b)
            (λ _. HasArchive-modify b _ (λ _. refl)))
          (λ _.
            Keeps-bind (system_call tar) _ (HasArchive-system_call b)
              (λ _. HasArchive-modify b _ (λ _. refl)))).behind
        (record d { archived = some b }) refl

  Held-verify :
      (files : Files) (d : EngagementDir tar) (b : Tarball)
      → d.raw_output ≡ some files
      → extract b ≡ ok (some files)
      → Held files (verify tar b d).1
  Held-verify files d b h back = by_test (verified tar b)
    where
      by_test :
          (test : Bool)
          → Held files (continue (require test persistence_error) (λ _. empty_raw tar b) d).1
      by_test true = inr (b, archived-empty_raw b d, back)
      by_test false = inl h

  Held-store :
      (files : Files) (d : EngagementDir tar)
      → d.raw_output ≡ some files
      → Held files (store tar files d).1
  Held-store files d h =
      by_result (or_persistence_error tar (add files))
        (λ b e. extract-add files b (or_persistence_error-ok tar (add files) b e))
    where
      by_result :
          (r : Result Tarball)
          → ((b : Tarball) → r ≡ ok b → extract b ≡ ok (some files))
          → Held files (continue r (verify tar) d).1
      by_result (err e) back = inl h
      by_result (ok b) back = Held-verify files d b h (back b refl)

  Held-write_lifecycle_audit :
      (files : Files) (m : AuditManifest)
      → Keeps (Held files) (ignoring tar (write_lifecycle_audit tar m))
  unfolding write_lifecycle_audit
  Held-write_lifecycle_audit files m = record {
    behind = λ s h.
        (Keeps-bind {P = Held files} (system_call tar) _ (record { behind = λ s h. h })
            (λ _. record { behind = λ s h. h })).behind
          s h;
  }

  -- Whatever `archive` raises, and whichever operation fails, the raw output of the engagement stands
  -- in its place behind it, or in an archive that gives it back.
  pub archive-Held :
      (operator : String) (files : Files) (d : EngagementDir tar)
      → d.raw_output ≡ some files
      → Held files (archive tar operator d).1
  unfolding archive
  archive-Held operator files d h = by_tests (has_file d.raw_output) (not (exists_in d.archived))
    where
      by_tests :
          (b c : Bool)
          → Held files
              (continue
                (require b persistence_error)
                (λ _.
                  lift (require c persistence_error)
                  >> (store tar (files_of tar d.raw_output)
                      >> ignoring tar
                          (write_lifecycle_audit tar (entry tar archive_action operator))))
                d).1
      by_tests false c = inl h
      by_tests true false = inl h
      by_tests true true =
          after (store tar (files_of tar d.raw_output) d).0 _
            (store tar (files_of tar d.raw_output) d).1
            (λ _. Held-write_lifecycle_audit files (entry tar archive_action operator))
            (subst (λ fs. Held files (store tar (files_of tar fs) d).1) (sym h)
              (Held-store files d h))

  -- what `purge` leaves: nothing, and an audit manifest with the paths of all the files there were; or an
  -- error, with every file in place, or with an audit manifest that has the paths of all the files there
  -- were and the removal's failure
  abbrev pub Purged : String → EngagementDir tar → Result (List String) × EngagementDir tar → Type 0
  Purged operator d (ok files, d') =
      (files ≡ all_files tar d)
      × (all_files tar d' ≡ [])
      × (d'.audit ≡ d.audit ++ purge_entry tar operator (all_files tar d) false ∷ [])
  Purged operator d (err e, d') =
      (all_files tar d' ≡ all_files tar d)
      ⊎ (d'.audit ≡ d.audit ++ purge_entry tar operator (all_files tar d) true ∷ [])

  mark_last-append :
      (ms : List AuditManifest) (m : AuditManifest)
      → mark_last tar (ms ++ m ∷ []) ≡ ms ++ record m { rmtree_error = true } ∷ []
  mark_last-append [] m = refl
  mark_last-append (x ∷ []) m = refl
  mark_last-append (x ∷ y ∷ ms) m = ap (λ t. x ∷ t) (mark_last-append (y ∷ ms) m)

  -- `purge` returns the paths of all files of the engagement with none of them left and an audit manifest
  -- that lists them behind the others; or it raises with every file still in place; or it raises where
  -- the removal fails, whatever that has left, with an audit manifest that lists all files there were and
  -- records the failure.
  pub purge-Purged :
      (remains : Remains tar) (operator : String) (d : EngagementDir tar)
      → Purged operator d (purge tar remains operator d)
  unfolding purge write_lifecycle_audit
  purge-Purged remains operator d = by_test (some_text tar (all_files tar d)) d.fuse
    where
      by_test :
          (b : Bool) (fuse : Option ℕ)
          → let d0 = record d { fuse = fuse } in
            Purged operator d (
              continue
                (require b persistence_error)
                (λ _.
                  write_lifecycle_audit tar (purge_entry tar operator (all_files tar d) false)
                  >> (remove_all tar remains >> pure (all_files tar d)))
                d0)
      by_test false fuse = inl refl
      by_test true none = (refl, refl, refl)
      by_test true (some zero) = inl refl
      by_test true (some (suc zero)) =
          inr (mark_last-append d.audit (purge_entry tar operator (all_files tar d) false))
      by_test true (some (suc (suc n))) = (refl, refl, refl)
