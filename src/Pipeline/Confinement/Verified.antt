-- ===== src/Pipeline/Confinement/Verified.antt =====
-- What has passed the trust boundary.
use Prim.Native.String
use gxassessms.Base.{
  is_key, length-upsert, is_key-upsert, All-upsert, ◌+◌, String, ◌≡◌, refl, sym, ◌∙◌, ap, subst,
  true, false, not, Option, none, some, List, [], ◌∷◌, arith, All, str_eq, eq_iff, contains, upsert,
  codes, starts_with, length,
}
use gxassessms.Errors.{Error, Result, ok, err, require->>-ok, >>=-ok, ok_injective}
use gxassessms.Domain.Manifests.{ArtifactRecord, ResolvedManifest}
use gxassessms.Domain.PathValidation.{validate_canonical_posix_path}
use gxassessms.Pipeline.Collaborators.{ToolAdapter}
use gxassessms.Pipeline.Confinement.{
  FileSystem, confinement_error, as_confinement_error, or_error, artifacts_under, LoadedManifest,
  check_artifacts_root, check_tool_subtree, check_artifact_path, check_entries,
  check_manifest_identity, confine_one, confine_all, confine_and_resolve, index_adapters,
}

or_error-ok {ℓ} : {A : Type ℓ} {a : A} (o : Option A) (e : Error) → or_error o e ≡ ok a → o ≡ some a
or_error-ok none e h = ground arith
or_error-ok (some a) e h = ground arith

as_confinement_error-ok : (r : Result (Unit {0})) → as_confinement_error r ≡ ok tt → r ≡ ok tt
as_confinement_error-ok (ok tt) h = refl
as_confinement_error-ok (err e) h = ground arith

module _ (fs : FileSystem) where
  open fs use {
    FilePath, path_eq, path_eq-sound, path_str, child, stem, resolve, resolve_strict,
    is_relative_to, is_file, sha256_file,
  }

  -- an entry of a resolved manifest: some path of the manifest leads to it, and its file lies in the
  -- tool's own directory and has the recorded hash
  pub record IsVerified (artifacts_root subtree : FilePath) (slug key : String)
      (rec : ArtifactRecord) : Type 0 where
    pub relpath : String
    pub path : FilePath
    pub key_is : path_str path ≡ key
    pub canonical : validate_canonical_posix_path (codes relpath) ≡ ok tt
    pub prefixed : starts_with (codes (String.◌++◌ slug "/")) (codes relpath) ≡ true
    pub found : resolve_strict (child artifacts_root relpath) ≡ some path
    pub inside : is_relative_to path subtree ≡ true
    pub regular : is_file path ≡ true
    pub hashed : sha256_file path ≡ ok rec.sha256

  check_artifact_path-IsVerified :
      (relpath : String) (rec : ArtifactRecord) (artifacts_root subtree : FilePath) (slug : String)
      (seen : List String) (path : FilePath)
      → check_artifact_path fs relpath rec artifacts_root subtree slug seen ≡ ok path
      → IsVerified artifacts_root subtree slug (path_str path) rec
        × (contains str_eq (path_str path) seen ≡ false)
  unfolding check_artifact_path
  check_artifact_path-IsVerified relpath rec artifacts_root subtree slug seen path h =
      let (u, canonical, h1) =
        >>=-ok (as_confinement_error (validate_canonical_posix_path (codes relpath))) _ h in
      let (prefixed, h2) = require->>-ok _ confinement_error _ h1 in
      let (resolved, found, h3) =
        >>=-ok (or_error (resolve_strict (child artifacts_root relpath)) confinement_error) _ h2 in
      let (inside, h4) = require->>-ok _ confinement_error _ h3 in
      let (regular, h5) = require->>-ok _ confinement_error _ h4 in
      let (hash, hashed, h6) = >>=-ok (sha256_file resolved) _ h5 in
      let (matches, h7) = require->>-ok _ confinement_error _ h6 in
      let (fresh, h8) =
        require->>-ok (not (contains str_eq (path_str resolved) seen)) confinement_error _ h7 in
      let same : resolved ≡ path = ground arith in
      (
        record {
          relpath = relpath;
          path = path;
          key_is = refl;
          canonical = as_confinement_error-ok _ canonical;
          prefixed = prefixed;
          found = or_error-ok _ confinement_error found ∙ ap some same;
          inside = subst (λ p. is_relative_to p subtree ≡ true) same inside;
          regular = subst (λ p. is_file p ≡ true) same regular;
          hashed = sym (ap sha256_file same) ∙ hashed ∙ ap ok ((eq_iff hash rec.sha256).0 matches);
        },
        subst (λ p. contains str_eq (path_str p) seen ≡ false) same (ground arith),
      )

  -- the paths seen are the keys of the resolved manifest
  abbrev Tracks : List String → List (String × ArtifactRecord) → Type 0
  Tracks seen m = (k : String) → contains str_eq k seen ≡ is_key k m

  check_entries-IsVerified :
      (entries : List (String × ArtifactRecord)) (artifacts_root subtree : FilePath) (slug : String)
      (seen : List String) (m result : List (String × ArtifactRecord))
      → Tracks seen m
      → All (λ e. IsVerified artifacts_root subtree slug e.0 e.1) m
      → check_entries fs entries artifacts_root subtree slug seen m ≡ ok result
      → All (λ e. IsVerified artifacts_root subtree slug e.0 e.1) result
        × (length result ≡ length entries + length m)
  unfolding check_entries
  check_entries-IsVerified [] root subtree slug seen m result tracks good h =
      let same : m ≡ result = ground arith in
      (
        subst (All (λ e. IsVerified root subtree slug e.0 e.1)) same good,
        omega (arith, ap length (sym same)),
      )
  check_entries-IsVerified ((relpath, rec) ∷ entries) root subtree slug seen m result tracks good
        h =
      let (path, checked, rest) =
        >>=-ok (check_artifact_path fs relpath rec root subtree slug seen) _ h in
      let (verified, fresh) =
        check_artifact_path-IsVerified relpath rec root subtree slug seen path checked in
      let new : is_key (path_str path) m ≡ false = sym (tracks (path_str path)) ∙ fresh in
      let (all_good, count) =
        check_entries-IsVerified entries root subtree slug (path_str path ∷ seen)
          (upsert (path_str path) rec m) result
          (λ k. unfold contains in rw (tracks k, is_key-upsert (path_str path) k rec m) refl)
          (All-upsert (λ e. IsVerified root subtree slug e.0 e.1) (path_str path) rec m verified
            good)
          rest in
      (all_good, omega (arith, count, length-upsert (path_str path) rec m new))

  abbrev pub IsConfined : FilePath → LoadedManifest fs → ResolvedManifest → Type 0
  IsConfined engagement_dir lm resolved =
      (resolved.tool_slug ≡ lm.raw_output.tool_slug)
      × (resolved.tool ≡ lm.raw_output.tool)
      × (length resolved.file_manifest ≡ length lm.raw_output.file_manifest)
      × All
          (λ e.
            IsVerified (artifacts_under fs engagement_dir)
              (child (artifacts_under fs (resolve engagement_dir)) lm.raw_output.tool_slug)
              lm.raw_output.tool_slug e.0 e.1)
          resolved.file_manifest

  abbrev pub AllConfined : FilePath → List (LoadedManifest fs) → List ResolvedManifest → Type 0
  AllConfined dir [] [] = Unit
  AllConfined dir (lm ∷ lms) (r ∷ rs) = IsConfined dir lm r × AllConfined dir lms rs
  AllConfined dir _ _ = ⊥

  module _ {RawOutput : Type 0} where
    confine_one-IsConfined :
        (dir root : FilePath) (adapters : List (String × ToolAdapter RawOutput))
        (lm : LoadedManifest fs) (resolved : ResolvedManifest)
        → root ≡ artifacts_under fs (resolve dir)
        → confine_one fs (artifacts_under fs dir) root adapters lm ≡ ok resolved
        → IsConfined dir lm resolved
    unfolding confine_one check_tool_subtree
    confine_one-IsConfined dir root adapters lm resolved at_root h =
        let slug = lm.raw_output.tool_slug in
        let base = artifacts_under fs dir in
        let (u, known, h1) = >>=-ok (check_manifest_identity fs lm adapters) _ h in
        let (subtree, checked, h2) = >>=-ok (check_tool_subtree fs base root slug) _ h1 in
        let (entries, verified, h3) =
          >>=-ok (check_entries fs lm.raw_output.file_manifest base subtree slug [] []) _ h2 in
        let (canonical, at_subtree) =
          require->>-ok (path_eq (resolve (child base slug)) (child root slug)) confinement_error _
            checked in
        let placed : subtree ≡ child (artifacts_under fs (resolve dir)) slug =
          ok_injective (sym at_subtree)
          ∙ path_eq-sound _ _ canonical
          ∙ ap (λ r. child r slug) at_root in
        let (all_good, count) =
          check_entries-IsVerified lm.raw_output.file_manifest base subtree slug [] [] entries
            (λ k. unfold contains in refl) tt verified in
        let out = ok_injective (sym h3) in
        (
          ap (λ r. r.tool_slug) out,
          ap (λ r. r.tool) out,
          ap (λ r. length r.file_manifest) out ∙ omega (arith, count),
          subst
              (λ r.
                All
                  (λ e.
                    IsVerified base (child (artifacts_under fs (resolve dir)) slug) slug e.0 e.1)
                  r.file_manifest)
              (sym out)
              (subst (λ t. All (λ e. IsVerified base t slug e.0 e.1) entries) placed all_good),
        )

    confine_all-AllConfined :
        (dir root : FilePath) (adapters : List (String × ToolAdapter RawOutput))
        (lms : List (LoadedManifest fs)) (rs : List ResolvedManifest)
        → root ≡ artifacts_under fs (resolve dir)
        → confine_all fs (artifacts_under fs dir) root adapters lms ≡ ok rs
        → AllConfined dir lms rs
    unfolding confine_all
    confine_all-AllConfined dir root adapters [] [] at_root h = tt
    confine_all-AllConfined dir root adapters [] (r ∷ rs) at_root h = ground arith
    confine_all-AllConfined dir root adapters (lm ∷ lms) rs at_root h =
        let (r, one, h1) = >>=-ok (confine_one fs (artifacts_under fs dir) root adapters lm) _ h in
        let (rest, others, h2) =
          >>=-ok (confine_all fs (artifacts_under fs dir) root adapters lms) _ h1 in
        subst (AllConfined dir (lm ∷ lms)) (ok_injective h2) (
          confine_one-IsConfined dir root adapters lm r at_root one,
          confine_all-AllConfined dir root adapters lms rest at_root others,
        )

    -- If the boundary lets a list of manifests through, each has become one resolved manifest of its
    -- tool with as many entries, and each entry comes from a canonical path below the tool's slug that
    -- leads to a regular file with the recorded hash inside the tool's directory, whose place is the
    -- resolved engagement directory's raw-output/artifacts.
    pub confine_and_resolve-AllConfined :
        (lms : List (LoadedManifest fs)) (dir : FilePath) (adapters : List (ToolAdapter RawOutput))
        (rs : List ResolvedManifest)
        → confine_and_resolve fs lms dir adapters ≡ ok rs
        → AllConfined dir lms rs
    unfolding confine_and_resolve check_artifacts_root
    confine_and_resolve-AllConfined lms dir adapters rs h =
        let (root, checked, h1) =
          >>=-ok (check_artifacts_root fs (artifacts_under fs dir) dir) _ h in
        let (index, indexed, h2) = >>=-ok (index_adapters [] adapters) _ h1 in
        let (below, h3) = require->>-ok _ confinement_error _ checked in
        let (canonical, at_root) =
          require->>-ok
            (path_eq (resolve (artifacts_under fs dir)) (artifacts_under fs (resolve dir)))
            confinement_error _ h3 in
        confine_all-AllConfined dir root index lms rs
          (ok_injective (sym at_root) ∙ path_eq-sound _ _ canonical) h2
