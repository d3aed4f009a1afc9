-- ===== src/Adapters/Scubagear/Collecting.antt =====
-- adapters/scubagear/adapter.py: the collection of ScubaGear's output, after a verified run, and the
-- output that is brought in. The directories before and behind the run are parameters.
pub mod Alone
pub mod Fresh
use gxassessms.Base.{
  ℕ, String, Bool, true, false, not, Option, none, some, List, [], ◌∷◌, ◌&&◌, str_eq, contains,
  select, lookup, upsert, if◌then◌else◌, Chars, codes, starts_with,
}
use gxassessms.Errors.{Result, ok, err, require, adapter_error, traverse, ◌>>=◌, ◌>>◌}
use gxassessms.Json.{Json, Items, nil, cons, text, array}
use gxassessms.Domain.Configs.{ToolConfig, EngagementConfig}
use gxassessms.Domain.Findings.{scubagear}
use gxassessms.Persistence.Artifacts.Staging.{CollectionOutput}
use gxassessms.Adapters.Arguments.{validate_extra_args, parse_extra_args, check_reserved_args}
use gxassessms.Adapters.Outputs.{OutputFiles, as_unreadable, build_collection_output}
use gxassessms.Adapters.Directories.{Directories, find_latest_output_dir}
use gxassessms.Adapters.Scubagear.{Texts, find_scuba_results_file, or_adapter_error}
use gxassessms.Adapters.Verification.Policies.{ModulePolicy, SignerIdentity, Invocation}
use gxassessms.Adapters.Verification.Versions.{Unicode}
use gxassessms.Adapters.Verification.Verifying.{
  Shell, Report, run_verified_powershell, check_module_prerequisites,
}
use Prim.Native.String

-- MODULE_POLICY
abbrev pub module_policy : ModulePolicy
module_policy = record {
  module_name = "ScubaGear";
  version_range = codes ">=1.5.0,<2.0.0";
  allowed_signers =
      record {
        subject =
            "CN=Microsoft Corporation, O=Microsoft Corporation, L=Redmond, S=Washington, C=US";
        issuer =
            "CN=Microsoft Code Signing PCA 2011, O=Microsoft Corporation, L=Redmond, S=Washington, C=US";
      }
      ∷ [];
  approved_package_hashes =
      "sha256tree:v1:0000000000000000000000000000000000000000000000000000000000000000" ∷ [];
  allow_package_hash_fallback = true;
}

-- ALLOWED_COMMANDS
abbrev pub allowed_commands : List String
allowed_commands = "Invoke-SCuBA" ∷ []

-- _RESERVED_ARGS
abbrev pub reserved_args : List Chars
reserved_args = codes "OutPath" ∷ []

-- _PRODUCT_NAME_MAP
abbrev pub product_name_map : List (String × String)
product_name_map =
    ("aad", "AAD")
    ∷ ("defender", "Defender")
    ∷ ("exo", "EXO")
    ∷ ("powerplatform", "PowerPlatform")
    ∷ ("sharepoint", "SharePoint")
    ∷ ("teams", "Teams")
    ∷ []

-- _OUTPUT_DIR_PREFIX
abbrev pub output_dir_prefix : String
output_dir_prefix = "M365BaselineConformance"

abbrev pub or_default_timeout : Option ℕ → ℕ
or_default_timeout none = 1800
or_default_timeout (some t) = t

abbrev pub texts_of : List String → Items
texts_of [] = nil
texts_of (s ∷ ss) = cons (text s) (texts_of ss)

pub record System : Type 0 where
  pub secure_mkdir : String → Result (Unit {0})
  -- str(Path(text))
  pub path_str : String → String
  -- the directories in front of the run and behind it
  pub before : Directories
  pub after : Directories
  pub is_word : ℕ → Bool
  pub lower : Chars → Chars
  -- the text of its code points
  pub text_of : Chars → String
  pub now : ℕ
  -- the allowed part of execution_metadata, of the modules and the verification
  pub metadata : List String → Report → String

-- named_args.update(extra_named), and the switches
abbrev pub named_of :
    (Chars → String) → List (Chars × Chars) → List (String × Json) → List (String × Json)
named_of text_of [] named_args = named_args
named_of text_of ((k, v) ∷ extra) named_args =
    named_of text_of extra (upsert (text_of k) (text (text_of v)) named_args)

abbrev pub switches_of : (Chars → String) → List (Chars × Bool) → List (String × Bool)
switches_of text_of [] = []
switches_of text_of ((k, b) ∷ switches) = (text_of k, b) ∷ switches_of text_of switches

abbrev pub all_codes : List String → List Chars
all_codes [] = []
all_codes (s ∷ ss) = codes s ∷ all_codes ss

module _ (shell : Shell) (u : Unicode) (text_le : String → String → Bool) where
  -- the check of the module, in the 60 seconds that are the default
  unfoldable pub check_prerequisites : List String → Result Bool × List String
  unfolding check_module_prerequisites
  check_prerequisites temp = check_module_prerequisites shell u text_le module_policy 60 temp

module _ (texts : Texts) (files : OutputFiles) where
  -- the modules by their canonical names; one that has none is an error
  abbrev pub canonical_modules : List String → Result (List String)
  canonical_modules modules =
      traverse (λ m. or_adapter_error (lookup (texts.lower m) product_name_map)) modules

  -- `if modules: ...`
  abbrev pub with_modules : List String → List (String × Json) → Result (List (String × Json))
  with_modules [] named_args = ok named_args
  with_modules (m ∷ ms) named_args = do
    names ← canonical_modules (m ∷ ms)
    ok (upsert "ProductNames" (array (texts_of names)) named_args)

  -- what the collection and the ingestion do with a directory's files
  unfoldable pub output_of :
      Directories → List String → String → ℕ → String → Result CollectionOutput
  unfolding find_scuba_results_file build_collection_output
  output_of dirs children schema_version timestamp metadata = do
    results_path ←
        or_adapter_error
          (find_scuba_results_file texts (select (λ f. str_eq (dirs.suffix f) ".json") children))
    build_collection_output files scubagear "scubagear"
        ((results_path, String.◌++◌ "scubagear/" (dirs.name results_path)) ∷ []) schema_version
        timestamp metadata

  unfoldable pub ingest_from_directory : Directories → String → String → ℕ → Result CollectionOutput
  unfolding output_of
  ingest_from_directory dirs source_dir schema_version timestamp = do
    children ← as_unreadable (dirs.iterdir source_dir)
    output_of dirs children schema_version timestamp "{}"

  module _ (system : System) where
    -- what is known when the tool is run
    pub record Prepared : Type 0 where
      pub tc : ToolConfig
      pub output_dir : String
      pub invocation : Invocation
      pub existing_dirs : List String

    abbrev pub existing : List String → List String
    existing children =
        select
          (λ d.
            system.before.is_dir d
            && starts_with (codes output_dir_prefix) (codes (system.before.name d)))
          children

    unfoldable pub prepare : EngagementConfig → Result Prepared
    unfolding lookup validate_extra_args parse_extra_args check_reserved_args upsert traverse
    prepare config = do
      tc ← or_adapter_error (lookup "scubagear" config.tools)
      require (not (str_eq tc.output_dir "")) adapter_error
      let output_dir = system.path_str tc.output_dir
      system.secure_mkdir output_dir
      validated ← validate_extra_args system.is_word (all_codes tc.extra_args)
      let (extra_named, switches) = parse_extra_args validated
      check_reserved_args system.lower extra_named switches reserved_args
      named_args ←
          with_modules tc.modules
            (named_of system.text_of extra_named (("OutPath", text output_dir) ∷ []))
      children ← system.before.iterdir output_dir
      ok (record {
        tc = tc;
        output_dir = output_dir;
        invocation = record {
          command_name = "Invoke-SCuBA";
          named_args = named_args;
          switches = switches_of system.text_of switches;
        };
        existing_dirs = existing children;
      })

    -- what follows the run
    unfoldable pub finish : Prepared → Result Report → Result CollectionOutput
    unfolding find_latest_output_dir contains output_of
    finish p verified = do
      report ← verified
      run_dir ← find_latest_output_dir system.after p.output_dir output_dir_prefix
      require (not (contains str_eq run_dir p.existing_dirs)) adapter_error
      children ← system.after.iterdir run_dir
      output_of system.after children "1.7.1" system.now (system.metadata p.tc.modules report)

    module _ (shell : Shell) (u : Unicode) (text_le : String → String → Bool) where
      -- the run, whose result goes on with the temporary directories that it leaves
      abbrev pub run_tool : Prepared → List String → Result Report × List String
      run_tool p temp =
          run_verified_powershell shell u text_le module_policy allowed_commands p.invocation
            p.tc.module_policy_override (or_default_timeout p.tc.timeout) temp

      abbrev pub after_run : Result Prepared → List String → Result CollectionOutput × List String
      after_run (err e) temp = (err e, temp)
      after_run (ok p) temp = let (report, temp') = run_tool p temp in (finish p report, temp')

      unfoldable pub collect :
          EngagementConfig → List String → Result CollectionOutput × List String
      unfolding prepare finish run_verified_powershell
      collect config temp = after_run (prepare config) temp
