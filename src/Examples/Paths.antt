-- ===== src/Examples/Paths.antt =====
-- The theorems on paths and on the trust boundary at a path, a name and a manifest.
use Prim.Native.String
use gxassessms.Base.{
  String, ◌≡◌, ◌≢◌, refl, true, none, some, [], ◌∷◌, All, Chars, codes, contains, all, any, str_eq,
  join_with, split_on, starts_with, eq_iff, lookup, upsert,
}
use gxassessms.Errors.{ok}
use gxassessms.Domain.Findings.{scubagear, tool_value}
use gxassessms.Domain.Manifests.{
  RawToolOutput, ArtifactRecord, ResolvedManifest, utf8, collected_mode,
}
use gxassessms.Domain.PathValidation.{
  validate_canonical_posix_path, parts_of, dotted, is_extension, is_reserved, ends_badly,
  has_illegal,
}
use gxassessms.Domain.PathValidation.Canonical.{
  IsSegment, validate_canonical_posix_path-IsSegment, validate_canonical_posix_path-join_with,
}
use gxassessms.Persistence.Artifacts.Naming.{IsSlug, sanitize_slug, sanitize_slug-IsSlug}
use gxassessms.Pipeline.Collaborators.{ToolAdapter}
use gxassessms.Pipeline.Confinement.{
  FileSystem, LoadedManifest, confine_and_resolve, check_artifacts_root, index_adapters,
  confine_all, confine_one, check_manifest_identity, check_tool_subtree, check_entries,
  check_artifact_path,
}
use gxassessms.Pipeline.Confinement.Verified.{AllConfined, confine_and_resolve-AllConfined}

abbrev path : Chars
path = codes "scubagear/out.json"

passes : validate_canonical_posix_path path ≡ ok tt
unfolding validate_canonical_posix_path parts_of split_on all contains is_reserved is_extension
    dotted ends_badly has_illegal any
passes = refl

validate_canonical_posix_path-IsSegment_example :
    (parts_of path ≢ []) × (join_with b'/' (parts_of path) ≡ path) × All IsSegment (parts_of path)
validate_canonical_posix_path-IsSegment_example =
    validate_canonical_posix_path-IsSegment path passes

segments : All IsSegment (codes "scubagear" ∷ codes "out.json" ∷ [])
unfolding parts_of split_on
segments = (validate_canonical_posix_path-IsSegment path passes).2

validate_canonical_posix_path-join_with_example :
    (validate_canonical_posix_path (join_with b'/' (codes "scubagear" ∷ codes "out.json" ∷ []))
      ≡ ok tt)
    × (parts_of (join_with b'/' (codes "scubagear" ∷ codes "out.json" ∷ []))
        ≡ codes "scubagear" ∷ codes "out.json" ∷ [])
validate_canonical_posix_path-join_with_example =
    validate_canonical_posix_path-join_with (codes "scubagear") (codes "out.json" ∷ []) segments

sanitize_slug-IsSlug_example : IsSlug (sanitize_slug (λ name. name) (codes "- Contoso!"))
sanitize_slug-IsSlug_example = sanitize_slug-IsSlug (λ name. name) (codes "- Contoso!")

-- paths are texts; every file is there, with one hash
abbrev files : FileSystem
files = record {
  FilePath = String;
  path_eq = str_eq;
  path_eq-sound = λ p q. (eq_iff p q).0;
  path_str = λ p. p;
  child = λ p name. String.◌++◌ p (String.◌++◌ "/" name);
  stem = λ p. "scubagear";
  resolve = λ p. p;
  resolve_strict = λ p. some p;
  is_relative_to = λ p root. starts_with (codes root) (codes p);
  is_file = λ p. true;
  sha256_file = λ p. ok "abc";
}

abbrev adapter : ToolAdapter Unit
adapter = record {
  storage_slug = "scubagear";
  tool_source = scubagear;
  capabilities = [];
  validate_raw = λ raw. ok tt;
  parse = λ raw. ok [];
  coverage = λ raw. ok [];
  severity_map = none;
  category_map = none;
  dedup_key_rules = none;
}

abbrev record_abc : ArtifactRecord
record_abc = record { encoding = utf8; sha256 = "abc" }

abbrev output : RawToolOutput
output = record {
  tool = scubagear;
  tool_slug = "scubagear";
  schema_version = "1";
  manifest_version = "1.1.0";
  timestamp = 1;
  file_manifest = ("scubagear/out.json", record_abc) ∷ [];
  execution_metadata = "{}";
  source_mode = collected_mode;
  ingest_provenance = none;
}

abbrev loaded : LoadedManifest files
loaded = record { source_path = "/e/raw-output/manifests/scubagear.json"; raw_output = output }

abbrev resolved : ResolvedManifest
resolved = record {
  tool = scubagear;
  tool_slug = "scubagear";
  schema_version = "1";
  manifest_version = "1.1.0";
  timestamp = 1;
  file_manifest = ("/e/raw-output/artifacts/scubagear/out.json", record_abc) ∷ [];
  execution_metadata = "{}";
}

confined : confine_and_resolve files (loaded ∷ []) "/e" (adapter ∷ []) ≡ ok (resolved ∷ [])
unfolding confine_and_resolve check_artifacts_root index_adapters confine_all confine_one
    check_manifest_identity check_tool_subtree check_entries check_artifact_path lookup upsert
    contains tool_value validate_canonical_posix_path parts_of split_on all is_reserved is_extension
    dotted ends_badly has_illegal any
confined = refl

confine_and_resolve-AllConfined_example : AllConfined files "/e" (loaded ∷ []) (resolved ∷ [])
confine_and_resolve-AllConfined_example =
    confine_and_resolve-AllConfined files (loaded ∷ []) "/e" (adapter ∷ []) (resolved ∷ []) confined
