-- ===== src/Adapters/Verification/Policies.antt =====
-- core/contracts/verification.py: the policy for a module, its narrowing by the configuration; and
-- adapters/_verification.py: the input that the verification is given. A set of hashes is a list.
pub mod Narrowed
use gxassessms.Base.{
  ℕ, String, Bool, true, false, not, Option, none, some, List, [], ◌∷◌, ◌&&◌, ◌||◌, str_eq,
  contains, all, sort_by, if◌then◌else◌, Chars, codes, starts_with,
}
use gxassessms.Errors.{Result, ok, err, require, value_error, ◌>>=◌, ◌>>◌}
use gxassessms.Json.{Json}
use gxassessms.Adapters.Verification.Versions.{
  Unicode, Version, parse_semver, version_satisfies_range, is_version_range,
}

pub record SignerIdentity : Type 0 where
  pub subject : String
  pub issuer : String

pub record ModulePolicy : Type 0 where
  pub module_name : String
  pub version_range : Chars
  pub allowed_signers : List SignerIdentity
  pub approved_package_hashes : List String
  pub allow_package_hash_fallback : Bool

pub record ModulePolicyOverride : Type 0 where
  pub version_range : Option Chars
  pub pinned_package_hashes : Option (List String)

abbrev pub any_of : {A : Type 0} → List A → Bool
any_of [] = false
any_of (a ∷ rest) = true

abbrev pub is_package_hash : String → Bool
is_package_hash h = starts_with (codes "sha256tree:v1:") (codes h)

-- the text behind `==`
abbrev pub pin_of : Chars → Chars
pin_of (a ∷ b ∷ pin) = pin
pin_of _ = []

pub data VerificationMode : Type 0 where
  preflight collection : VerificationMode

pub record Invocation : Type 0 where
  pub command_name : String
  pub named_args : List (String × Json)
  pub switches : List (String × Bool)

-- what build_input_blob encodes as JSON
pub record InputBlob : Type 0 where
  pub module_name : String
  pub effective_version_range : Chars
  pub effective_approved_hashes : List String
  pub allowed_signers : List SignerIdentity
  pub allow_package_hash_fallback : Bool
  pub mode : VerificationMode
  pub post_import_invocation : Option Invocation

-- `text_le` is Python's order of texts
module _ (u : Unicode) (text_le : String → String → Bool) where
  -- ModulePolicy.__post_init__
  unfoldable pub validate_policy : ModulePolicy → Result (Unit {0})
  unfolding all
  validate_policy p = do
    require (any_of p.allowed_signers) value_error
    require (any_of p.approved_package_hashes) value_error
    require (all is_package_hash p.approved_package_hashes) value_error
    require (is_version_range u p.version_range) value_error

  unfoldable pub validate_pin : Option Chars → Result (Unit {0})
  unfolding parse_semver
  validate_pin none = ok tt
  validate_pin (some version_range) = do
    require (starts_with (codes "==") version_range) value_error
    version ← parse_semver u (pin_of version_range)
    ok tt

  unfoldable pub validate_hashes : Option (List String) → Result (Unit {0})
  unfolding all
  validate_hashes none = ok tt
  validate_hashes (some hashes) = do
    require (any_of hashes) value_error
    require (all is_package_hash hashes) value_error

  -- ModulePolicyOverride.__post_init__
  unfoldable pub validate_override : ModulePolicyOverride → Result (Unit {0})
  unfolding validate_pin validate_hashes
  validate_override o = do validate_pin o.version_range; validate_hashes o.pinned_package_hashes

  unfoldable pub effective_range : ModulePolicy → Option Chars → Result Chars
  unfolding version_satisfies_range
  effective_range policy none = ok policy.version_range
  effective_range policy (some version_range) = do
    satisfied ← version_satisfies_range u (pin_of version_range) policy.version_range
    require satisfied value_error
    ok version_range

  abbrev pub is_approved : ModulePolicy → String → Bool
  is_approved policy h = contains str_eq h policy.approved_package_hashes

  unfoldable pub effective_hashes : ModulePolicy → Option (List String) → Result (List String)
  unfolding all contains sort_by
  effective_hashes policy none = ok (sort_by text_le policy.approved_package_hashes)
  effective_hashes policy (some hashes) = do
    require (all (is_approved policy) hashes) value_error
    ok (sort_by text_le hashes)

  -- override.version_range and override.pinned_package_hashes, `none` for no override
  abbrev pub pinned_range : Option ModulePolicyOverride → Option Chars
  pinned_range none = none
  pinned_range (some o) = o.version_range

  abbrev pub pinned_hashes : Option ModulePolicyOverride → Option (List String)
  pinned_hashes none = none
  pinned_hashes (some o) = o.pinned_package_hashes

  -- by subject, and by issuer where subjects are the same
  abbrev pub signer_le : SignerIdentity → SignerIdentity → Bool
  signer_le a b =
      if str_eq a.subject b.subject then text_le a.issuer b.issuer else text_le a.subject b.subject

  unfoldable pub build_input_blob :
      ModulePolicy
      → Option ModulePolicyOverride
      → VerificationMode
      → Option Invocation
      → Result InputBlob
  unfolding effective_range effective_hashes sort_by
  build_input_blob policy override mode invocation = do
    version_range ← effective_range policy (pinned_range override)
    hashes ← effective_hashes policy (pinned_hashes override)
    ok (record {
      module_name = policy.module_name;
      effective_version_range = version_range;
      effective_approved_hashes = hashes;
      allowed_signers = sort_by signer_le policy.allowed_signers;
      allow_package_hash_fallback = policy.allow_package_hash_fallback;
      mode = mode;
      post_import_invocation = invocation;
    })
