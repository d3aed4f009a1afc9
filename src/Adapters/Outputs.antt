-- ===== src/Adapters/Outputs.antt =====
-- adapters/_base.py: reading a tool's output as JSON, and putting a collection's result together.
-- The files and JSON's decoding are a parameter, and so is Python's order of texts.
pub mod Collected
use gxassessms.Base.{
  ℕ, String, Bool, not, List, [], ◌∷◌, codes, starts_with, sort_by, if◌then◌else◌,
}
use gxassessms.Errors.{Result, ok, err, require, adapter_error, os_error, value_error, ◌>>=◌, ◌>>◌}
use gxassessms.Json.{Json}
use gxassessms.Domain.Findings.{ToolSource}
use gxassessms.Domain.Manifests.{utf8}
use gxassessms.Domain.PathValidation.{validate_canonical_posix_path}
use gxassessms.Persistence.Artifacts.Staging.{CollectedArtifact, CollectionOutput}
use Prim.Native.String

pub record OutputFiles : Type 0 where
  -- path.read_text, which may raise
  pub read_text : String → Result String
  -- not text.strip()
  pub is_blank : String → Bool
  -- json.loads; a JSONDecodeError is a ValueError
  pub loads : String → Result Json
  pub sha256_file : String → Result String
  -- s <= t, as Python compares texts
  pub text_le : String → String → Bool

-- `except (OSError, LookupError)` and `except OSError`, behind which an AdapterError is raised
abbrev pub as_unreadable : {A : Type 0} → Result A → Result A
as_unreadable (ok a) = ok a
as_unreadable (err os_error) = err adapter_error
as_unreadable (err e) = err e

-- `except json.JSONDecodeError as exc: raise RawOutputValidationError(...)`
abbrev pub as_invalid_json : {A : Type 0} → Result A → Result A
as_invalid_json (ok a) = ok a
as_invalid_json (err value_error) = err adapter_error
as_invalid_json (err e) = err e

module _ (files : OutputFiles) where
  unfoldable pub load_json_file : String → Result Json
  load_json_file path = do
    text ← as_unreadable (files.read_text path)
    require (not (files.is_blank text)) adapter_error
    as_invalid_json (files.loads text)

  -- the loop's body in build_collection_output, for one pair of a source and its target
  unfoldable pub collect_item : String → String × String → Result CollectedArtifact
  collect_item tool_slug (source_path, target_relpath) = do
    validate_canonical_posix_path (codes target_relpath)
    require (starts_with (codes (String.◌++◌ tool_slug "/")) (codes target_relpath)) value_error
    sha ← as_unreadable (files.sha256_file source_path)
    ok (record {
      source_path = source_path;
      target_relpath = target_relpath;
      encoding = utf8;
      sha256 = sha;
    })

  unfoldable pub collect_items : String → List (String × String) → Result (List CollectedArtifact)
  unfolding collect_item
  collect_items tool_slug [] = ok []
  collect_items tool_slug (item ∷ rest) = do
    artifact ← collect_item tool_slug item
    artifacts ← collect_items tool_slug rest
    ok (artifact ∷ artifacts)

  abbrev pub any_item : List (String × String) → Bool
  any_item [] = Bool.false
  any_item (item ∷ rest) = Bool.true

  abbrev pub target_le : CollectedArtifact → CollectedArtifact → Bool
  target_le a b = files.text_le a.target_relpath b.target_relpath

  unfoldable pub build_collection_output :
      ToolSource → String → List (String × String) → String → ℕ → String → Result CollectionOutput
  unfolding collect_items sort_by
  build_collection_output tool tool_slug items schema_version timestamp execution_metadata = do
    require (any_item items) adapter_error
    artifacts ← collect_items tool_slug items
    ok (record {
      tool = tool;
      tool_slug = tool_slug;
      schema_version = schema_version;
      timestamp = timestamp;
      artifacts = sort_by target_le artifacts;
      allowed_metadata = execution_metadata;
    })
