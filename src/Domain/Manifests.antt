-- ===== src/Domain/Manifests.antt =====
-- core/domain/models.py: the manifests of raw output, and what their validators demand. Times stand in
-- UTC; metadata, which no code modelled here looks into, stands as its JSON text.
use gxassessms.Base.{
  ℕ, String, Bool, true, false, Option, none, some, List, [], ◌∷◌, ◌==◌, ◌&&◌, ◌||◌, leb, str_eq,
  contains, Chars, codes,
}
use gxassessms.Errors.{Result, ok, err, require, value_error, ◌>>◌}
use gxassessms.Domain.Findings.{ToolSource}
use gxassessms.Domain.PathValidation.{validate_canonical_posix_path}

pub data FileEncoding : Type 0 where
  utf8 binary : FileEncoding

pub data SourceMode : Type 0 where
  collected_mode ingested_mode : SourceMode

pub record ArtifactRecord : Type 0 where
  pub encoding : FileEncoding
  pub sha256 : String

pub record IngestProvenance : Type 0 where
  pub source_path : String
  pub ingested_at : ℕ
  pub ingested_by : String
  pub replaced : Bool

pub record RawToolOutput : Type 0 where
  pub tool : ToolSource
  pub tool_slug : String
  pub schema_version : String
  pub manifest_version : String
  pub timestamp : ℕ
  pub file_manifest : List (String × ArtifactRecord)
  pub execution_metadata : String
  pub source_mode : SourceMode
  pub ingest_provenance : Option IngestProvenance

pub record ResolvedManifest : Type 0 where
  pub tool : ToolSource
  pub tool_slug : String
  pub schema_version : String
  pub manifest_version : String
  pub timestamp : ℕ
  pub file_manifest : List (String × ArtifactRecord)
  pub execution_metadata : String

-- RECOGNIZED_MANIFEST_VERSIONS and INGEST_CAPABLE_MANIFEST_VERSIONS
abbrev pub recognized_manifest_versions : List String
recognized_manifest_versions = "1.0.0" ∷ "1.1.0" ∷ []

abbrev pub ingest_capable_manifest_versions : List String
ingest_capable_manifest_versions = "1.1.0" ∷ []

abbrev is_slug_start : ℕ → Bool
is_slug_start c = leb b'a' c && leb c b'z' || leb b'0' c && leb c b'9'

unfoldable pub is_slug_rest : Chars → Bool
is_slug_rest [] = true
is_slug_rest (c ∷ cs) = (is_slug_start c || c == b'-') && is_slug_rest cs

-- re.fullmatch(TOOL_SLUG_PATTERN, v)
unfoldable pub matches_tool_slug : Chars → Bool
unfolding is_slug_rest
matches_tool_slug [] = false
matches_tool_slug (c ∷ cs) = is_slug_start c && is_slug_rest cs

abbrev all_canonical : List (String × ArtifactRecord) → Result (Unit {0})
all_canonical [] = ok tt
all_canonical ((key, _) ∷ entries) = do
  validate_canonical_posix_path (codes key)
  all_canonical entries

-- file_manifest_must_be_valid
abbrev pub file_manifest_must_be_valid : List (String × ArtifactRecord) → Result (Unit {0})
file_manifest_must_be_valid [] = err value_error
file_manifest_must_be_valid (e ∷ es) = all_canonical (e ∷ es)

-- source_mode_matches_provenance
abbrev pub source_mode_matches_provenance : RawToolOutput → Result (Unit {0})
source_mode_matches_provenance r = by_mode r.source_mode r.ingest_provenance
  where
    by_mode : SourceMode → Option IngestProvenance → Result (Unit {0})
    by_mode ingested_mode none = err value_error
    by_mode collected_mode (some p) = err value_error
    by_mode collected_mode none = ok tt
    by_mode ingested_mode (some p) =
        require (contains str_eq r.manifest_version ingest_capable_manifest_versions) value_error

-- RawToolOutput(...): the validators, in pydantic's order
unfoldable pub validate_raw_output : RawToolOutput → Result (Unit {0})
unfolding matches_tool_slug contains
validate_raw_output r = do
  require (matches_tool_slug (codes r.tool_slug)) value_error
  file_manifest_must_be_valid r.file_manifest
  source_mode_matches_provenance r
