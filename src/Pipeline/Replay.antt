-- ===== src/Pipeline/Replay.antt =====
-- pipeline/replay.py: loading the manifests of an engagement's raw output. The directory is a list of
-- entries in the order of their paths; `lower` stands for Python's str.lower, `is_json` for the test of
-- an entry's suffix, and `decode` for the reading of a RawToolOutput's fields from JSON, behind which
-- its validators run.
pub mod Loaded
use gxassessms.Base.{
  String, Bool, true, false, not, Option, none, some, List, [], ◌∷◌, ◌&&◌, str_eq, if◌then◌else◌,
}
use gxassessms.Errors.{
  Error, Result, ok, err, require, pipeline_error, value_error, type_error, ◌>>=◌, ◌>>◌,
}
use gxassessms.Domain.Manifests.{RawToolOutput, validate_raw_output}
use gxassessms.Pipeline.Stages.{Stage, collect, stage_eq}

pub record ManifestEntry : Type 0 where
  pub name : String
  pub is_dir : Bool
  -- read_text, which may raise
  pub text : Result String

-- a LoadedManifest, its path as the name below the directory
pub record LoadedFile : Type 0 where
  pub source_path : String
  pub raw_output : RawToolOutput

-- MissingRawOutputError, whose stage is not given
abbrev pub missing_error : Error
missing_error = pipeline_error ""

-- InvalidRawOutputError
abbrev pub replay_error : Error
replay_error = pipeline_error "replay"

-- `except (ValueError, TypeError) as e: raise InvalidRawOutputError(...)`
abbrev pub as_replay_error : {A : Type 0} → Result A → Result A
as_replay_error (ok a) = ok a
as_replay_error (err value_error) = err replay_error
as_replay_error (err type_error) = err replay_error
as_replay_error (err e) = err e

-- a manifests directory with no entry holds nothing to replay
abbrev pub some_entry : List ManifestEntry → Bool
some_entry [] = false
some_entry (e ∷ es) = true

module _ (lower : String → String) (is_json : String → Bool)
    (decode : String → Result RawToolOutput) where
  -- the loop over the directory's shape
  unfoldable pub check_shape : List ManifestEntry → Result (Unit {0})
  check_shape [] = ok tt
  check_shape (e ∷ es) = do
    require (not e.is_dir) replay_error
    require (is_json e.name) replay_error
    require (str_eq e.name (lower e.name)) replay_error
    check_shape es

  -- RawToolOutput.model_validate_json
  unfoldable pub model_validate_json : String → Result RawToolOutput
  unfolding validate_raw_output
  model_validate_json raw_json = do
    raw_output ← decode raw_json
    validate_raw_output raw_output
    ok raw_output

  -- the loop that reads the manifests
  unfoldable pub read_entries : List ManifestEntry → Result (List LoadedFile)
  unfolding model_validate_json
  read_entries [] = ok []
  read_entries (e ∷ es) = do
    raw_json ← e.text
    raw_output ← as_replay_error (model_validate_json raw_json)
    rest ← read_entries es
    ok (record { source_path = e.name; raw_output = raw_output } ∷ rest)

  -- `none` is a directory that does not exist
  unfoldable pub load_raw_outputs : Option (List ManifestEntry) → Result (List LoadedFile)
  unfolding check_shape read_entries
  load_raw_outputs none = err missing_error
  load_raw_outputs (some entries) = do
    require (some_entry entries) missing_error
    check_shape entries
    read_entries entries

-- ReplayEngine.validate_start_stage
unfoldable pub validate_start_stage : Stage → Result (Unit {0})
validate_start_stage stage = require (not (stage_eq stage collect)) value_error
