-- ===== src/Adapters/Prowler/Commands.antt =====
-- adapters/prowler/adapter.py: the command line of Prowler, its run, and the output that is brought in.
-- Parameters are Python's `\w`, the environment variables, and the system that finds, runs and lists.
pub mod Extending
pub mod Adding
pub mod Scoped
use gxassessms.Base.{
  ℕ, String, Bool, true, false, not, Option, none, some, List, [], ◌∷◌, ◌++◌, ◌==◌, ◌&&◌, ◌||◌,
  str_eq, contains, any, if◌then◌else◌, lookup, upsert, Chars, codes, starts_with,
}
use gxassessms.Errors.{Result, ok, err, require, adapter_error, os_error, ◌>>=◌, ◌>>◌}
use gxassessms.Domain.Configs.{ToolConfig, AuthConfig, EngagementConfig}
use gxassessms.Domain.Findings.{prowler}
use gxassessms.Persistence.Artifacts.Staging.{CollectionOutput}
use gxassessms.Adapters.Arguments.{at_end}
use gxassessms.Adapters.Processes.{Run, timed_out, inaccessible, exited, killed}
use gxassessms.Adapters.Outputs.{OutputFiles, build_collection_output}
use Prim.Native.String

-- _PROWLER_ALLOWED_FLAGS
abbrev pub allowed_flags : List String
allowed_flags =
    "--az-cli-auth" ∷ "--sp-env-auth" ∷ "--browser-auth" ∷ "--managed-identity-auth" ∷ "--tenant-id"
    ∷ "--subscription-id" ∷ "--subscription-ids" ∷ "--azure-region" ∷ "--checks" ∷ "--checks-file"
    ∷ "--mutelist-file" ∷ "--severity" ∷ "--services" ∷ "--ignore-exit-code-3" ∷ "--only-logs"
    ∷ "--verbose" ∷ "--no-banner" ∷ []

-- AUTH_METHOD_MAP
abbrev pub auth_method_map : List (String × List String)
auth_method_map =
    ("client_credential", "--sp-env-auth" ∷ []) ∷ ("interactive", "--browser-auth" ∷ []) ∷ []

-- PROWLER_AUTH_FLAGS
abbrev pub prowler_auth_flags : List String
prowler_auth_flags =
    "--sp-env-auth" ∷ "--browser-auth" ∷ "--az-cli-auth" ∷ "--managed-identity-auth" ∷ []

abbrev pub has : String → List String → Bool
has flag args = contains str_eq flag args

module _ (is_word : ℕ → Bool) where
  abbrev is_value_char : ℕ → Bool
  is_value_char c =
      is_word c
      || c == b'-'
      || c == b'.'
      || c == b','
      || c == b':'
      || c == b'/'
      || c == b'@'
      || c == b' '
      || c == 92

  unfoldable pub is_value_rest : Chars → Bool
  is_value_rest [] = true
  is_value_rest (c ∷ cs) = at_end (c ∷ cs) || is_value_char c && is_value_rest cs

  -- _PROWLER_VALUE_RE.match(arg)
  abbrev pub matches_value : Chars → Bool
  matches_value [] = false
  matches_value (c ∷ cs) = is_value_char c && is_value_rest cs

  abbrev pub is_permitted : String → Bool
  is_permitted arg =
      if starts_with (codes "-") (codes arg)
      then has arg allowed_flags
      else matches_value (codes arg)

  unfoldable pub validate_prowler_extra_args : List String → Result (List String)
  unfolding contains is_value_rest
  validate_prowler_extra_args [] = ok []
  validate_prowler_extra_args (arg ∷ args) = do
    require (is_permitted arg) adapter_error
    rest ← validate_prowler_extra_args args
    ok (arg ∷ rest)

-- PROWLER_AUTH_FLAGS & set(extra_args)
abbrev pub has_auth : List String → Bool
has_auth args = any (λ flag. has flag args) prowler_auth_flags

-- the flags of the method, where the arguments bring none
abbrev pub with_auth : List String → Bool → Option (List String) → Result (List String)
with_auth cmd true flags = ok cmd
with_auth cmd false (some flags) = ok (cmd ++ flags)
with_auth cmd false none = err adapter_error

unfoldable pub add_auth : EngagementConfig → List String → List String → Result (List String)
unfolding lookup any contains
add_auth config extra_args cmd =
    with_auth cmd (has_auth extra_args) (lookup config.auth.method auth_method_map)

unfoldable pub add_tenant : EngagementConfig → List String → List String → Result (List String)
unfolding contains
add_tenant config extra_args cmd =
    if has "--browser-auth" cmd || has "--browser-auth" extra_args
    then (do
      require (not (str_eq config.auth.tenant_id "")) adapter_error
      ok (
          if has "--tenant-id" extra_args
          then cmd
          else cmd ++ "--tenant-id" ∷ config.auth.tenant_id ∷ []))
    else ok cmd

-- bool(certificate_path)
abbrev pub is_given : Option String → Bool
is_given none = false
is_given (some s) = not (str_eq s "")

abbrev pub or_collection_error : {A : Type 0} → Option A → Result A
or_collection_error none = err adapter_error
or_collection_error (some a) = ok a

module _ (environ : List (String × String)) where
  -- subprocess_env; `none` is the environment of this process
  unfoldable pub subprocess_env :
      EngagementConfig → List String → Result (Option (List (String × String)))
  unfolding contains lookup upsert
  subprocess_env config cmd =
      if has "--sp-env-auth" cmd
      then (do
        require
            (not (is_given config.auth.certificate_path && str_eq config.auth.client_secret_env ""))
            adapter_error
        require (not (str_eq config.auth.client_secret_env "")) adapter_error
        secret ← or_collection_error (lookup config.auth.client_secret_env environ)
        ok (
            some (
              upsert "AZURE_CLIENT_SECRET" secret (
                upsert "AZURE_TENANT_ID" config.auth.tenant_id
                  (upsert "AZURE_CLIENT_ID" config.auth.client_id environ)))))
      else ok none

abbrev pub has_scope : List String → Bool
has_scope args = has "--subscription-id" args || has "--subscription-ids" args

unfoldable pub add_scope : EngagementConfig → List String → List String → List String
unfolding contains
add_scope config extra_args cmd =
    if not (str_eq config.subscription_id "") && not (has_scope extra_args)
    then cmd ++ "--subscription-ids" ∷ config.subscription_id ∷ []
    else cmd

abbrev pub check_args : List String → List String
check_args [] = []
check_args (m ∷ ms) = "--checks" ∷ m ∷ ms

unfoldable pub add_output : ToolConfig → String → List String → List String → List String
add_output tc output_dir extra_args cmd =
    cmd
    ++ "-o"
      ∷ output_dir
      ∷ "-F"
      ∷ "ProwlerResults"
      ∷ "-M"
      ∷ "json-ocsf"
      ∷ (check_args tc.modules ++ extra_args)

-- the command and its environment
unfoldable pub build_command :
    (ℕ → Bool)
    → List (String × String)
    → EngagementConfig
    → ToolConfig
    → String
    → String
    → Result (List String × Option (List (String × String)))
unfolding validate_prowler_extra_args add_auth add_tenant subprocess_env add_scope add_output
build_command is_word environ config tc output_dir prowler_path = do
  extra_args ← validate_prowler_extra_args is_word tc.extra_args
  authorized ← add_auth config extra_args (prowler_path ∷ "azure" ∷ [])
  addressed ← add_tenant config extra_args authorized
  env ← subprocess_env environ config addressed
  ok (add_output tc output_dir extra_args (add_scope config extra_args addressed), env)

pub record System : Type 0 where
  -- shutil.which("prowler")
  pub which : Option String
  pub environ : List (String × String)
  -- str(Path(text))
  pub path_str : String → String
  pub secure_mkdir : String → Result (Unit {0})
  pub run : List String → Option (List (String × String)) → ℕ → Run
  -- the paths that directory.rglob(name) gives, with their paths relative to the directory
  pub rglob : String → String → Result (List (String × String))
  pub now : ℕ
  -- the allowed part of execution_metadata, of a directory, a method and checks
  pub metadata : String → String → List String → String

abbrev pub or_default_timeout : Option ℕ → ℕ
or_default_timeout none = 1800
or_default_timeout (some t) = t

-- _PROWLER_SUCCESS_CODES
abbrev pub check_run : Run → Result (Unit {0})
check_run timed_out = err adapter_error
check_run inaccessible = err adapter_error
check_run (killed signal) = err adapter_error
check_run (exited code) = require (code == 0 || code == 3) adapter_error

-- the pairs of a source and its target, none of which is an error
abbrev pub below_slug : List (String × String) → List (String × String)
below_slug [] = []
below_slug ((path, relpath) ∷ found) = (path, String.◌++◌ "prowler/" relpath) ∷ below_slug found

abbrev pub any_found : List (String × String) → Bool
any_found [] = false
any_found (f ∷ fs) = true

module _ (is_word : ℕ → Bool) (system : System) (files : OutputFiles) where
  unfoldable pub collect : EngagementConfig → Result CollectionOutput
  unfolding build_command build_collection_output lookup
  collect config = do
    prowler_path ← or_collection_error system.which
    tc ← or_collection_error (lookup "prowler" config.tools)
    require (not (str_eq tc.output_dir "")) adapter_error
    let output_dir = system.path_str tc.output_dir
    system.secure_mkdir output_dir
    (cmd, env) ← build_command is_word system.environ config tc output_dir prowler_path
    check_run (system.run cmd env (or_default_timeout tc.timeout))
    ocsf_files ← system.rglob output_dir "ProwlerResults.ocsf.json"
    require (any_found ocsf_files) adapter_error
    build_collection_output files prowler "prowler" (below_slug ocsf_files) "1.4.0" system.now
        (system.metadata output_dir config.auth.method tc.modules)

  -- `except OSError as exc: raise CollectionError(...)`
  abbrev pub as_collection_error : {A : Type 0} → Result A → Result A
  as_collection_error (ok a) = ok a
  as_collection_error (err os_error) = err adapter_error
  as_collection_error (err e) = err e

  unfoldable pub ingest_from_directory : String → String → ℕ → Result CollectionOutput
  unfolding build_collection_output
  ingest_from_directory source_dir schema_version timestamp = do
    ocsf_files ← as_collection_error (system.rglob source_dir "ProwlerResults.ocsf.json")
    require (any_found ocsf_files) adapter_error
    build_collection_output files prowler "prowler" (below_slug ocsf_files) schema_version timestamp
        "{}"
