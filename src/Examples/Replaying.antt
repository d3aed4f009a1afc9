-- ===== src/Examples/Replaying.antt =====
-- The theorem on replay's loading of manifests at a directory of one manifest.
use gxassessms.Base.{◌≡◌, refl, true, false, none, some, [], ◌∷◌, all, any, split_on}
use gxassessms.Errors.{ok}
use gxassessms.Domain.Findings.{scubagear}
use gxassessms.Domain.Manifests.{
  RawToolOutput, validate_raw_output, utf8, collected_mode, matches_tool_slug, is_slug_rest,
}
use gxassessms.Domain.PathValidation.{
  validate_canonical_posix_path, parts_of, dotted, is_extension, is_reserved, ends_badly,
  has_illegal,
}
use gxassessms.Pipeline.Replay.{
  ManifestEntry, LoadedFile, load_raw_outputs, check_shape, read_entries, model_validate_json,
}
use gxassessms.Pipeline.Replay.Loaded.{AllLoaded, load_raw_outputs-AllLoaded}

abbrev output : RawToolOutput
output = record {
  tool = scubagear;
  tool_slug = "scubagear";
  schema_version = "1";
  manifest_version = "1.1.0";
  timestamp = 1;
  file_manifest = ("scubagear/out.json", record { encoding = utf8; sha256 = "abc" }) ∷ [];
  execution_metadata = "{}";
  source_mode = collected_mode;
  ingest_provenance = none;
}

abbrev entry : ManifestEntry
entry = record { name = "scubagear.json"; is_dir = false; text = ok "{}" }

abbrev loaded : LoadedFile
loaded = record { source_path = "scubagear.json"; raw_output = output }

valid : validate_raw_output output ≡ ok tt
unfolding validate_raw_output validate_canonical_posix_path parts_of split_on all is_reserved
    is_extension dotted ends_badly has_illegal any matches_tool_slug is_slug_rest
valid = refl

loads :
    load_raw_outputs (λ s. s) (λ s. true) (λ s. ok output) (some (entry ∷ [])) ≡ ok (loaded ∷ [])
unfolding load_raw_outputs check_shape read_entries model_validate_json
loads = simp (valid)

load_raw_outputs-AllLoaded_example :
    AllLoaded (λ s. s) (λ s. true) (λ s. ok output) (entry ∷ []) (loaded ∷ [])
load_raw_outputs-AllLoaded_example =
    load_raw_outputs-AllLoaded (λ s. s) (λ s. true) (λ s. ok output) (entry ∷ []) (loaded ∷ [])
      loads
