-- ===== src/Pipeline/Confinement.antt =====
-- pipeline/confinement.py: the trust boundary between loaded manifests and adapters. The file system
-- and pathlib's operations on it are a parameter. A ManifestConfinementError is a PipelineError with
-- the stage "confine".
pub mod Verified
use Prim.Native.String
use gxassessms.Base.{
  ℕ, String, Bool, true, false, not, Option, none, some, List, [], ◌∷◌, ◌++◌, str_eq, if◌then◌else◌,
  contains, lookup, upsert, codes, starts_with, ◌≡◌,
}
use gxassessms.Errors.{
  Error, Result, ok, err, require, pipeline_error, os_error, value_error, ◌>>=◌, ◌>>◌,
}
use gxassessms.Domain.Findings.{ToolSource, tool_value}
use gxassessms.Domain.Manifests.{
  ArtifactRecord, RawToolOutput, ResolvedManifest, recognized_manifest_versions,
}
use gxassessms.Domain.PathValidation.{validate_canonical_posix_path}
use gxassessms.Pipeline.Collaborators.{ToolAdapter}

pub record FileSystem : Type 1 where
  pub FilePath : Type 0
  -- p == q
  pub path_eq : FilePath → FilePath → Bool
  pub path_eq-sound : (p q : FilePath) → path_eq p q ≡ true → p ≡ q
  -- str(p)
  pub path_str : FilePath → String
  -- p / name
  pub child : FilePath → String → FilePath
  pub stem : FilePath → String
  pub resolve : FilePath → FilePath
  -- p.resolve(strict=True); `none` where it raises FileNotFoundError or OSError
  pub resolve_strict : FilePath → Option FilePath
  pub is_relative_to : FilePath → FilePath → Bool
  pub is_file : FilePath → Bool
  -- core/hashing.py on the file's bytes; reading may raise
  pub sha256_file : FilePath → Result String

abbrev pub confinement_error : Error
confinement_error = pipeline_error "confine"

-- ToolSource.__ne__ compares texts
abbrev pub tool_eq : ToolSource → ToolSource → Bool
tool_eq a b = str_eq (tool_value a) (tool_value b)

-- `except ValueError as e: raise _confinement_error(...)`
abbrev pub as_confinement_error : Result (Unit {0}) → Result (Unit {0})
as_confinement_error (ok _) = ok tt
as_confinement_error (err value_error) = err confinement_error
as_confinement_error (err e) = err e

abbrev pub or_error {ℓ} : {A : Type ℓ} → Option A → Error → Result A
or_error none e = err e
or_error (some a) e = ok a

module _ {RawOutput : Type 0} where
  -- the loop that fills adapter_by_slug
  unfoldable pub index_adapters :
      List (String × ToolAdapter RawOutput)
      → List (ToolAdapter RawOutput)
      → Result (List (String × ToolAdapter RawOutput))
  unfolding lookup
  index_adapters index [] = ok index
  index_adapters index (a ∷ as') = do
    elim (lookup a.storage_slug index) [ none ↦ ok tt | some _ ↦ err confinement_error ]
    index_adapters (index ++ (a.storage_slug, a) ∷ []) as'

module _ (fs : FileSystem) where
  open fs use {
    FilePath, path_eq, path_str, child, stem, resolve, resolve_strict, is_relative_to, is_file,
    sha256_file,
  }

  pub record LoadedManifest : Type 0 where
    pub source_path : FilePath
    pub raw_output : RawToolOutput

  abbrev pub artifacts_under : FilePath → FilePath
  artifacts_under dir = child (child dir "raw-output") "artifacts"

  -- _check_artifacts_root
  unfoldable pub check_artifacts_root : FilePath → FilePath → Result FilePath
  check_artifacts_root artifacts_root engagement_dir = do
    require (is_relative_to (resolve artifacts_root) (resolve engagement_dir)) confinement_error
    require (path_eq (resolve artifacts_root) (artifacts_under (resolve engagement_dir)))
        confinement_error
    ok (resolve artifacts_root)

  module _ {RawOutput : Type 0} where
    -- _check_manifest_identity
    unfoldable pub check_manifest_identity :
        LoadedManifest → List (String × ToolAdapter RawOutput) → Result (Unit {0})
    unfolding lookup contains tool_value
    check_manifest_identity lm adapters = do
      require (contains str_eq lm.raw_output.manifest_version recognized_manifest_versions)
          confinement_error
      require (str_eq (stem lm.source_path) lm.raw_output.tool_slug) confinement_error
      adapter ← or_error (lookup lm.raw_output.tool_slug adapters) confinement_error
      require (tool_eq lm.raw_output.tool adapter.tool_source) confinement_error

  -- _check_tool_subtree
  unfoldable pub check_tool_subtree : FilePath → FilePath → String → Result FilePath
  check_tool_subtree artifacts_root resolved_root slug = do
    require (path_eq (resolve (child artifacts_root slug)) (child resolved_root slug))
        confinement_error
    ok (resolve (child artifacts_root slug))

  -- _check_artifact_path, for the resolved paths seen so far
  unfoldable pub check_artifact_path :
      String → ArtifactRecord → FilePath → FilePath → String → List String → Result FilePath
  unfolding contains validate_canonical_posix_path
  check_artifact_path relpath rec artifacts_root tool_subtree slug seen = do
    as_confinement_error (validate_canonical_posix_path (codes relpath))
    require (starts_with (codes (String.◌++◌ slug "/")) (codes relpath)) confinement_error
    resolved ← or_error (resolve_strict (child artifacts_root relpath)) confinement_error
    require (is_relative_to resolved tool_subtree) confinement_error
    require (is_file resolved) confinement_error
    actual_hash ← sha256_file resolved
    require (str_eq actual_hash rec.sha256) confinement_error
    require (not (contains str_eq (path_str resolved) seen)) confinement_error
    ok resolved

  -- the loop over a manifest's entries, with resolved_manifest and seen_resolved
  unfoldable pub check_entries :
      List (String × ArtifactRecord)
      → FilePath
      → FilePath
      → String
      → List String
      → List (String × ArtifactRecord)
      → Result (List (String × ArtifactRecord))
  unfolding check_artifact_path upsert
  check_entries [] artifacts_root tool_subtree slug seen resolved_manifest = ok resolved_manifest
  check_entries ((relpath, rec) ∷ entries) artifacts_root tool_subtree slug seen resolved_manifest =
      do
        resolved ← check_artifact_path relpath rec artifacts_root tool_subtree slug seen
        check_entries entries artifacts_root tool_subtree slug (path_str resolved ∷ seen)
            (upsert (path_str resolved) rec resolved_manifest)

  module _ {RawOutput : Type 0} where
    -- one round of the loop over the manifests
    unfoldable pub confine_one :
        FilePath
        → FilePath
        → List (String × ToolAdapter RawOutput)
        → LoadedManifest
        → Result ResolvedManifest
    unfolding check_manifest_identity check_tool_subtree check_entries
    confine_one artifacts_root resolved_root adapters lm = do
      check_manifest_identity lm adapters
      tool_subtree ← check_tool_subtree artifacts_root resolved_root lm.raw_output.tool_slug
      entries ←
          check_entries lm.raw_output.file_manifest artifacts_root tool_subtree
            lm.raw_output.tool_slug [] []
      ok (record {
        tool = lm.raw_output.tool;
        tool_slug = lm.raw_output.tool_slug;
        schema_version = lm.raw_output.schema_version;
        manifest_version = lm.raw_output.manifest_version;
        timestamp = lm.raw_output.timestamp;
        file_manifest = entries;
        execution_metadata = lm.raw_output.execution_metadata;
      })

    unfoldable pub confine_all :
        FilePath
        → FilePath
        → List (String × ToolAdapter RawOutput)
        → List LoadedManifest
        → Result (List ResolvedManifest)
    unfolding confine_one
    confine_all artifacts_root resolved_root adapters [] = ok []
    confine_all artifacts_root resolved_root adapters (lm ∷ lms) = do
      resolved ← confine_one artifacts_root resolved_root adapters lm
      rest ← confine_all artifacts_root resolved_root adapters lms
      ok (resolved ∷ rest)

    unfoldable pub confine_and_resolve :
        List LoadedManifest
        → FilePath
        → List (ToolAdapter RawOutput)
        → Result (List ResolvedManifest)
    unfolding check_artifacts_root index_adapters confine_all
    confine_and_resolve lms engagement_dir adapters = do
      resolved_root ← check_artifacts_root (artifacts_under engagement_dir) engagement_dir
      index ← index_adapters [] adapters
      confine_all (artifacts_under engagement_dir) resolved_root index lms
