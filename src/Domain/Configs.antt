-- ===== src/Domain/Configs.antt =====
-- core/config/config.py: the configuration of an engagement, as far as the adapters read it.
use gxassessms.Base.{ℕ, String, Option, List}
use gxassessms.Adapters.Verification.Policies.{ModulePolicyOverride}

pub record ToolConfig : Type 0 where
  pub output_dir : String
  pub modules : List String
  pub timeout : Option ℕ
  pub extra_args : List String
  pub module_policy_override : Option ModulePolicyOverride

pub record AuthConfig : Type 0 where
  pub method : String
  pub tenant_id : String
  pub client_id : String
  pub client_secret_env : String
  pub certificate_path : Option String

pub record EngagementConfig : Type 0 where
  pub subscription_id : String
  pub auth : AuthConfig
  pub tools : List (String × ToolConfig)
