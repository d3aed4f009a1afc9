-- ===== src/Persistence/Artifacts/Staging.antt =====
-- persistence/artifacts.py: the checks of collected artifacts before and while they are staged. The
-- files are a parameter: what pathlib says of a source, core/hashing.py's hash of it, and the hash of
-- its copy in the staging directory. `lower` stands for Python's str.lower.
pub mod Staged
use Prim.Native.String
use gxassessms.Base.{
  ℕ, String, Bool, not, List, [], ◌∷◌, str_eq, if◌then◌else◌, contains, upsert, codes, starts_with,
  Option, none, some, ◌&&◌,
}
use gxassessms.Errors.{Error, Result, ok, err, require, persistence_error, value_error, ◌>>=◌, ◌>>◌}
use gxassessms.Domain.Findings.{ToolSource}
use gxassessms.Domain.Manifests.{
  FileEncoding, ArtifactRecord, RawToolOutput, IngestProvenance, SourceMode, collected_mode,
  ingested_mode, validate_raw_output,
}
use gxassessms.Domain.PathValidation.{validate_canonical_posix_path}

pub record CollectedArtifact : Type 0 where
  pub source_path : String
  pub target_relpath : String
  pub encoding : FileEncoding
  pub sha256 : String

pub record CollectionOutput : Type 0 where
  pub tool : ToolSource
  pub tool_slug : String
  pub schema_version : String
  pub timestamp : ℕ
  pub artifacts : List CollectedArtifact
  -- the part of execution_metadata that EXECUTION_METADATA_ALLOWLIST lets through, as JSON
  pub allowed_metadata : String

-- MANIFEST_VERSION_CURRENT
abbrev pub manifest_version_current : String
manifest_version_current = "1.1.0"

pub record Files : Type 0 where
  pub is_absolute : String → Bool
  pub exists : String → Bool
  pub is_file : String → Bool
  pub is_symlink : String → Bool
  -- sha256_file(source); reading may raise
  pub sha256_file : String → Result String
  -- shutil.copy2(source, dest) and sha256_file(dest); either may raise
  pub copied_sha256 : String → Result String

-- `except ValueError as e: raise PersistenceError(...)`
abbrev pub as_persistence_error : Result (Unit {0}) → Result (Unit {0})
as_persistence_error (ok _) = ok tt
as_persistence_error (err value_error) = err persistence_error
as_persistence_error (err e) = err e

abbrev pub record_of : CollectedArtifact → ArtifactRecord
record_of a = record { encoding = a.encoding; sha256 = a.sha256 }

-- the manifest that is written; the metadata is filtered by the allowlist of the version and the slug
abbrev pub collected_output : CollectionOutput → List (String × ArtifactRecord) → RawToolOutput
collected_output co file_manifest = record {
  tool = co.tool;
  tool_slug = co.tool_slug;
  schema_version = co.schema_version;
  manifest_version = manifest_version_current;
  timestamp = co.timestamp;
  file_manifest = file_manifest;
  execution_metadata = co.allowed_metadata;
  source_mode = collected_mode;
  ingest_provenance = none;
}

abbrev pub ingested_output :
    CollectionOutput → IngestProvenance → List (String × ArtifactRecord) → RawToolOutput
ingested_output co provenance file_manifest = record {
  tool = co.tool;
  tool_slug = co.tool_slug;
  schema_version = co.schema_version;
  manifest_version = manifest_version_current;
  timestamp = co.timestamp;
  file_manifest = file_manifest;
  execution_metadata = "{}";
  source_mode = ingested_mode;
  ingest_provenance = some provenance;
}

module _ (files : Files) (lower : String → String) where
  -- the checks of target_relpath against the ones seen
  unfoldable pub check_target : String → List String → List String → String → Result (Unit {0})
  unfolding contains validate_canonical_posix_path
  check_target slug seen seen_lower relpath = do
    as_persistence_error (validate_canonical_posix_path (codes relpath))
    require (starts_with (codes (String.◌++◌ slug "/")) (codes relpath)) persistence_error
    require (not (contains str_eq relpath seen)) persistence_error
    require (not (contains str_eq (lower relpath) seen_lower)) persistence_error

  -- Phase 1 of `save_raw_outputs`, for one artifact
  unfoldable pub check_artifact :
      String → List String → List String → CollectedArtifact → Result (Unit {0})
  unfolding check_target
  check_artifact slug seen seen_lower a = do
    require (files.is_absolute a.source_path) persistence_error
    require (files.exists a.source_path) persistence_error
    require (files.is_file a.source_path) persistence_error
    require (not (files.is_symlink a.source_path)) persistence_error
    actual ← files.sha256_file a.source_path
    require (str_eq actual a.sha256) persistence_error
    check_target slug seen seen_lower a.target_relpath

  -- the copy of one artifact, verified
  unfoldable pub copy_artifact : CollectedArtifact → Result (Unit {0})
  copy_artifact a = do
    copy_hash ← files.copied_sha256 a.source_path
    require (str_eq copy_hash a.sha256) persistence_error

  -- Phase 2 of `save_ingested_raw_output`, for one artifact
  unfoldable pub ingest_artifact :
      String → List String → List String → CollectedArtifact → Result (Unit {0})
  unfolding check_target copy_artifact
  ingest_artifact slug seen seen_lower a = do
    require (files.is_absolute a.source_path) persistence_error
    require (files.is_file a.source_path) persistence_error
    require (not (files.is_symlink a.source_path)) persistence_error
    check_target slug seen seen_lower a.target_relpath
    copy_artifact a

  -- its loop, with seen_relpaths, seen_relpaths_lower and file_manifest
  unfoldable pub ingest_artifacts :
      String
      → List String
      → List String
      → List (String × ArtifactRecord)
      → List CollectedArtifact
      → Result (List (String × ArtifactRecord))
  unfolding ingest_artifact upsert
  ingest_artifacts slug seen seen_lower file_manifest [] = ok file_manifest
  ingest_artifacts slug seen seen_lower file_manifest (a ∷ as') = do
    ingest_artifact slug seen seen_lower a
    ingest_artifacts slug (a.target_relpath ∷ seen) (lower a.target_relpath ∷ seen_lower)
        (upsert a.target_relpath (record_of a) file_manifest) as'

  -- Phase 2, up to the manifest that is written
  unfoldable pub stage_ingested : CollectionOutput → IngestProvenance → Result RawToolOutput
  unfolding ingest_artifacts validate_raw_output
  stage_ingested co provenance = do
    file_manifest ← ingest_artifacts co.tool_slug [] [] [] co.artifacts
    let raw_output = ingested_output co provenance file_manifest in
        validate_raw_output raw_output >> ok raw_output

  -- Phase 1 of `save_raw_outputs` for the artifacts of one tool: what it has seen behind them
  unfoldable pub check_artifacts :
      String
      → List String
      → List String
      → List CollectedArtifact
      → Result (List String × List String)
  unfolding check_artifact
  check_artifacts slug seen seen_lower [] = ok (seen, seen_lower)
  check_artifacts slug seen seen_lower (a ∷ as') = do
    check_artifact slug seen seen_lower a
    check_artifacts slug (a.target_relpath ∷ seen) (lower a.target_relpath ∷ seen_lower) as'

  -- Phase 1 of `save_raw_outputs`
  unfoldable pub check_outputs :
      List String → List String → List String → List CollectionOutput → Result (Unit {0})
  unfolding check_artifacts contains
  check_outputs slugs seen seen_lower [] = ok tt
  check_outputs slugs seen seen_lower (co ∷ cos) = do
    require (not (contains str_eq co.tool_slug slugs)) persistence_error
    (seen', seen_lower') ← check_artifacts co.tool_slug seen seen_lower co.artifacts
    check_outputs (co.tool_slug ∷ slugs) seen' seen_lower' cos

  -- Phase 2 of `save_raw_outputs`, for one tool's artifacts
  unfoldable pub stage_artifacts :
      List (String × ArtifactRecord)
      → List CollectedArtifact
      → Result (List (String × ArtifactRecord))
  unfolding copy_artifact upsert
  stage_artifacts file_manifest [] = ok file_manifest
  stage_artifacts file_manifest (a ∷ as') = do
    copy_artifact a
    stage_artifacts (upsert a.target_relpath (record_of a) file_manifest) as'

  unfoldable pub stage_outputs : List CollectionOutput → Result (List RawToolOutput)
  unfolding stage_artifacts validate_raw_output
  stage_outputs [] = ok []
  stage_outputs (co ∷ cos) = do
    file_manifest ← stage_artifacts [] co.artifacts
    validate_raw_output (collected_output co file_manifest)
    rest ← stage_outputs cos
    ok (collected_output co file_manifest ∷ rest)

  -- Phases 1 and 2 of `save_raw_outputs`
  unfoldable pub stage_generation : List CollectionOutput → Result (List RawToolOutput)
  unfolding check_outputs stage_outputs
  stage_generation cos = do check_outputs [] [] [] cos; stage_outputs cos
