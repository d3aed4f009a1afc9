-- ===== src/Adapters/Prowler/Commands/Scoped.antt =====
-- adapters/prowler/adapter.py: the command line that is run authenticates, stays within the engagement's
-- tenant and subscription, and passes on no extra argument that is not permitted.
use gxassessms.Base.{
  ℕ, ◌≡◌, refl, sym, subst, arith, Bool-cases, inl, inr, String, Bool, true, not, ◌&&◌, ◌||◌,
  Option, none, some, List, [], ◌∷◌, str_eq, if◌then◌else◌, lookup, All,
}
use gxassessms.Errors.{ok, >>=-ok, ok_injective}
use gxassessms.Domain.Configs.{ToolConfig, EngagementConfig}
use gxassessms.Adapters.Prowler.Commands.{
  has, has_auth, has_scope, is_permitted, validate_prowler_extra_args, add_auth, add_tenant,
  subprocess_env, add_scope, add_output, build_command,
}
use gxassessms.Adapters.Prowler.Commands.Extending.{
  validate-IsPermitted, Extends, uses_browser, uses_secret, trans-Extends, has_auth-Extends,
  Authorized,
}
use gxassessms.Adapters.Prowler.Commands.Adding.{
  add_auth-Authorized, add_tenant-ok, subprocess_env-secret, add_scope-ok, add_output-Extends,
  passes, add_tenant-passes, add_scope-passes, passes-add_scope, passes-add_output,
}

abbrev pub secret_of : Option (List (String × String)) → Option String
secret_of none = none
secret_of (some env) = lookup "AZURE_CLIENT_SECRET" env

module _ (is_word : ℕ → Bool) (environ : List (String × String)) (config : EngagementConfig)
    (tc : ToolConfig) (output_dir prowler_path : String) where
  abbrev pub Scope : List String → List String → Option (List (String × String)) → Type 0
  Scope extra_args cmd env =
      (has_auth cmd ≡ true)
      × ((not (uses_browser config extra_args)
            || not (str_eq config.auth.tenant_id "") && has "--tenant-id" cmd)
          ≡ true)
      × ((str_eq config.subscription_id "" || has_scope cmd) ≡ true)
      × ((not (uses_browser config extra_args)
            || has "--tenant-id" extra_args
            || passes "--tenant-id" config.auth.tenant_id cmd)
          ≡ true)
      × ((str_eq config.subscription_id ""
            || has_scope extra_args
            || passes "--subscription-ids" config.subscription_id cmd)
          ≡ true)
      × All (λ arg. is_permitted is_word arg ≡ true) extra_args
      × ((if uses_secret config extra_args
            then secret_of env
            else lookup config.auth.client_secret_env environ)
          ≡ lookup config.auth.client_secret_env environ)

  secret_lem :
      (extra_args authorized addressed : List String) (env : Option (List (String × String)))
      → Authorized config extra_args authorized
      → Extends authorized addressed
      → subprocess_env environ config addressed ≡ ok env
      → (if uses_secret config extra_args
          then secret_of env
          else lookup config.auth.client_secret_env environ)
        ≡ lookup config.auth.client_secret_env environ
  secret_lem extra_args authorized addressed env auth grows h =
      elim (Bool-cases (uses_secret config extra_args)) [
        | inl secret ↦
            let flagged : has "--sp-env-auth" authorized ≡ true =
              ground (arith, auth.by_secret, secret) in
            let (e, is_env, found) =
              subprocess_env-secret environ config addressed env h
                (grows "--sp-env-auth" flagged) in
            rw (secret, is_env) found
        | inr none_used ↦ rw none_used refl
      ]

  scope_lem :
      (extra_args authorized addressed : List String) (env : Option (List (String × String)))
      → Authorized config extra_args authorized
      → add_tenant config extra_args authorized ≡ ok addressed
      → subprocess_env environ config addressed ≡ ok env
      → All (λ arg. is_permitted is_word arg ≡ true) extra_args
      → Scope extra_args
          (add_output tc output_dir extra_args (add_scope config extra_args addressed))
          env
  scope_lem extra_args authorized addressed env auth tenant supplied permitted =
      let scoped = add_scope config extra_args addressed in
      let cmd = add_output tc output_dir extra_args scoped in
      let (named, for_tenant) = add_tenant-ok config extra_args authorized addressed tenant in
      let (kept, in_scope) = add_scope-ok config extra_args addressed in
      let (written, passed) = add_output-Extends tc output_dir extra_args scoped in
      let from_start =
        trans-Extends authorized addressed cmd named
          (trans-Extends addressed scoped cmd kept written) in
      let from_tenant = trans-Extends addressed scoped cmd kept written in
      (
        elim (Bool-cases (has_auth extra_args)) [
          | inl given ↦ has_auth-Extends extra_args cmd passed given
          | inr absent ↦
              has_auth-Extends authorized cmd from_start (ground (arith, auth.flagged, absent))
        ],
        ground
            (arith, for_tenant, auth.by_browser, passed "--tenant-id", from_tenant "--tenant-id"),
        ground (
          arith,
          in_scope,
          passed "--subscription-id",
          passed "--subscription-ids",
          written "--subscription-id",
          written "--subscription-ids",
        ),
        ground (
          arith,
          add_tenant-passes config extra_args authorized addressed tenant,
          auth.by_browser,
          passes-add_scope config "--tenant-id" config.auth.tenant_id extra_args addressed,
          passes-add_output tc output_dir "--tenant-id" config.auth.tenant_id extra_args scoped,
        ),
        ground (
          arith,
          add_scope-passes config extra_args addressed,
          passes-add_output tc output_dir "--subscription-ids" config.subscription_id extra_args
              scoped,
        ),
        permitted,
        secret_lem extra_args authorized addressed env auth named supplied,
      )

  -- If a command is built, it has a flag of authentication; if it signs in through a browser, the
  -- configured tenant is not empty and the command names a tenant, which is the configured one unless the
  -- extra arguments bring the flag; if a subscription is configured, the command names one, which is the
  -- configured one unless the extra arguments bring a flag; each extra argument is an allowed flag or
  -- consists of permitted characters; and if it signs in by a secret, the environment of the process
  -- holds the configured variable's value as the secret.
  pub build_command_lem :
      (cmd : List String) (env : Option (List (String × String)))
      → build_command is_word environ config tc output_dir prowler_path ≡ ok (cmd, env)
      → Scope tc.extra_args cmd env
  unfolding build_command
  build_command_lem cmd env h =
      let (extra_args, valid, h1) =
        >>=-ok (validate_prowler_extra_args is_word tc.extra_args) _ h in
      let (authorized, by_flags, h2) =
        >>=-ok (add_auth config extra_args (prowler_path ∷ "azure" ∷ [])) _ h1 in
      let (addressed, tenant, h3) = >>=-ok (add_tenant config extra_args authorized) _ h2 in
      let (env', supplied, h4) = >>=-ok (subprocess_env environ config addressed) _ h3 in
      let (same, permitted) = validate-IsPermitted is_word tc.extra_args extra_args valid in
      let out = ok_injective h4 in
      let auth =
        add_auth-Authorized config extra_args (prowler_path ∷ "azure" ∷ []) authorized by_flags in
      let all_permitted = subst (All (λ arg. is_permitted is_word arg ≡ true)) same permitted in
      let result =
        scope_lem extra_args authorized addressed env' auth tenant supplied all_permitted in
      subst (λ x. Scope x cmd env) (sym same) (subst (λ o. Scope extra_args o.0 o.1) out result)
