-- ===== src/Adapters/Scubagear/Collecting/Fresh.antt =====
-- adapters/scubagear/adapter.py: the output that is collected comes from the run.
use gxassessms.Base.{
  ◌≡◌, refl, subst, arith, String, Bool, false, not, List, [], ◌∷◌, contains, str_eq, lookup,
}
use gxassessms.Errors.{Result, ok, err, adapter_error, >>=-ok, require->>-ok, ok_injective}
use gxassessms.Json.{text}
use gxassessms.Domain.Configs.{EngagementConfig}
use gxassessms.Persistence.Artifacts.Staging.{CollectionOutput}
use gxassessms.Adapters.Arguments.{validate_extra_args, parse_extra_args, check_reserved_args}
use gxassessms.Adapters.Outputs.{OutputFiles}
use gxassessms.Adapters.Directories.{find_latest_output_dir}
use gxassessms.Adapters.Directories.Latest.{IsLatest, find_latest_output_dir-IsLatest}
use gxassessms.Adapters.Scubagear.{Texts, or_adapter_error}
use gxassessms.Adapters.Scubagear.Collecting.{
  output_dir_prefix, System, Prepared, existing, prepare, finish, run_tool, after_run, collect,
  with_modules, named_of, all_codes, reserved_args,
}
use gxassessms.Adapters.Verification.Versions.{Unicode}
use gxassessms.Adapters.Verification.Verifying.{Shell, Report}
use gxassessms.Adapters.Scubagear.Collecting.Alone.{not-true, IsOneOf, output_of-IsOneOf}

module _ (texts : Texts) (files : OutputFiles) where
  module _ (system : System) where
    prepare-existing :
        (config : EngagementConfig) (p : Prepared texts files system)
        → prepare texts files system config ≡ ok p
        → (children : List String) × (system.before.iterdir p.output_dir ≡ ok children)
          × (p.existing_dirs ≡ existing texts files system children)
    unfolding prepare
    prepare-existing config p h =
        let (tc, o0, h0) = >>=-ok (or_adapter_error (lookup "scubagear" config.tools)) _ h in
        let (t1, h1) = require->>-ok (not (str_eq tc.output_dir "")) adapter_error _ h0 in
        let (t2, made, h2) = >>=-ok (system.secure_mkdir (system.path_str tc.output_dir)) _ h1 in
        let (validated, o3, h3) =
          >>=-ok (validate_extra_args system.is_word (all_codes tc.extra_args)) _ h2 in
        let (extra, switches) = parse_extra_args validated in
        let (t4, o4, h4) =
          >>=-ok (check_reserved_args system.lower extra switches reserved_args) _ h3 in
        let (named, o5, h5) =
          >>=-ok
            (with_modules texts files tc.modules (
              named_of system.text_of extra
                (("OutPath", text (system.path_str tc.output_dir)) ∷ [])))
            _ h4 in
        let (children, listed, h6) =
          >>=-ok (system.before.iterdir (system.path_str tc.output_dir)) _ h5 in
        subst
          (λ q.
            (cs : List String) × (system.before.iterdir q.output_dir ≡ ok cs)
            × (q.existing_dirs ≡ existing texts files system cs))
          (ok_injective h6) (children, listed, refl)

    -- the output of a run: its one file lies in a directory that the run has made
    abbrev pub IsFresh : Prepared texts files system → CollectionOutput → Type 0
    IsFresh p output =
        (run_dir : String) × (old new children : List String) × (system.before.iterdir p.output_dir
          ≡ ok old)
        × (contains str_eq run_dir (existing texts files system old) ≡ false)
        × (system.after.iterdir p.output_dir ≡ ok new)
        × IsLatest system.after new output_dir_prefix run_dir
        × (system.after.iterdir run_dir ≡ ok children)
        × IsOneOf texts files children output.artifacts

    finish-IsFresh :
        (config : EngagementConfig) (p : Prepared texts files system) (verified : Result Report)
        (output : CollectionOutput)
        → prepare texts files system config ≡ ok p
        → finish texts files system p verified ≡ ok output
        → ((report : Report) × (verified ≡ ok report)) × IsFresh p output
    unfolding finish
    finish-IsFresh config p verified output prepared h =
        let (report, cleared, h0) = >>=-ok verified _ h in
        let (old, listed, own) = prepare-existing config p prepared in
        let (run_dir, found, h1) =
          >>=-ok (find_latest_output_dir system.after p.output_dir output_dir_prefix) _ h0 in
        let (fresh, h2) =
          require->>-ok (not (contains str_eq run_dir p.existing_dirs)) adapter_error _ h1 in
        let (children, held, h3) = >>=-ok (system.after.iterdir run_dir) _ h2 in
        let (new, listed', latest) =
          find_latest_output_dir-IsLatest system.after p.output_dir output_dir_prefix run_dir
            found in
        (
          (report, cleared),
          (
            run_dir,
            old,
            new,
            children,
            listed,
            subst (λ ds. contains str_eq run_dir ds ≡ false) own (not-true fresh),
            listed',
            latest,
            held,
            output_of-IsOneOf texts files system.after children "1.7.1" system.now _ output h3,
          ),
        )

    module _ (shell : Shell) (u : Unicode) (text_le : String → String → Bool) where
      -- what ScubaGear's collection has done when it returns
      abbrev pub IsCollection : EngagementConfig → List String → CollectionOutput → Type 0
      IsCollection config temp output =
          (p : Prepared texts files system) × (prepare texts files system config ≡ ok p)
          × ((report : Report) × ((run_tool texts files system shell u text_le p temp).0
                ≡ ok report))
          × IsFresh p output

      after_run-IsCollection :
          (config : EngagementConfig) (temp : List String) (output : CollectionOutput)
          (r : Result (Prepared texts files system))
          → prepare texts files system config ≡ r
          → (after_run texts files system shell u text_le r temp).0 ≡ ok output
          → IsCollection config temp output
      after_run-IsCollection config temp output (err e) prepared h = ground arith
      after_run-IsCollection config temp output (ok p) prepared h =
          let (ran, fresh) =
            finish-IsFresh config p (run_tool texts files system shell u text_le p temp).0 output
              prepared h in
          (p, prepared, ran, fresh)

      -- If ScubaGear's collect returns an output, its verified run has succeeded, and the output holds
      -- one artifact, with the hash of its source. The source is a file of a directory that was not
      -- among ScubaGear's directories in front of the run, and behind the run is a latest of them.
      pub collect-IsCollection :
          (config : EngagementConfig) (temp : List String) (output : CollectionOutput)
          → (collect texts files system shell u text_le config temp).0 ≡ ok output
          → IsCollection config temp output
      unfolding collect
      collect-IsCollection config temp output h =
          after_run-IsCollection config temp output (prepare texts files system config) refl h
