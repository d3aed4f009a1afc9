-- ===== src/Adapters/Prowler/Commands/Adding.antt =====
-- adapters/prowler/adapter.py: what each step in making Prowler's command line adds to it.
use gxassessms.Base.{
  ◌≡◌, refl, sym, subst, ◌∙◌, arith, Bool-cases, inl, inr, String, Bool, true, not, ◌&&◌, ◌||◌,
  Option, none, some, List, eq_refl, false, [], ◌∷◌, ◌++◌, str_eq, contains, any, lookup, upsert,
  lookup-upsert_self,
}
use gxassessms.Errors.{ok, adapter_error, >>=-ok, require->>-ok, ok_injective}
use gxassessms.Domain.Configs.{ToolConfig, EngagementConfig}
use gxassessms.Adapters.Prowler.Commands.{
  has, has_auth, check_args, has_scope, add_auth, add_tenant, is_given, or_collection_error,
  subprocess_env, add_scope, add_output,
}
use gxassessms.Adapters.Prowler.Commands.Extending.{
  has-append, Extends, append-Extends, by_method, Authorized,
}

pub add_auth-Authorized :
    (config : EngagementConfig) (extra_args cmd result : List String)
    → add_auth config extra_args cmd ≡ ok result
    → Authorized config extra_args result
unfolding add_auth lookup any contains
add_auth-Authorized config extra_args cmd result h = elim (Bool-cases (has_auth extra_args)) [
  | inl given ↦ record {
    flagged = rw given refl;
    by_browser = rw given refl;
    by_secret = rw given refl;
  }
  | inr absent ↦ by_method config extra_args cmd result absent h
]

tenant-added :
    (cmd : List String) (tenant_id : String)
    → has "--tenant-id" (cmd ++ "--tenant-id" ∷ tenant_id ∷ []) ≡ true
unfolding contains
tenant-added cmd tenant_id =
    ground (arith, has-append "--tenant-id" cmd ("--tenant-id" ∷ tenant_id ∷ []))

pub add_tenant-ok :
    (config : EngagementConfig) (extra_args cmd result : List String)
    → add_tenant config extra_args cmd ≡ ok result
    → Extends cmd result
      × ((not (has "--browser-auth" cmd || has "--browser-auth" extra_args)
            || not (str_eq config.auth.tenant_id "")
              && (has "--tenant-id" extra_args || has "--tenant-id" result))
          ≡ true)
unfolding add_tenant
add_tenant-ok config extra_args cmd result h =
    elim (Bool-cases (has "--browser-auth" cmd || has "--browser-auth" extra_args)) [
      | inl active ↦
          let (known, h1) =
            require->>-ok (not (str_eq config.auth.tenant_id "")) adapter_error _
              (rw active at h) in
          elim (Bool-cases (has "--tenant-id" extra_args)) [
            | inl given ↦
                let same : cmd ≡ result = ok_injective (rw given at h1) in
                (subst (Extends cmd) same (λ flag own. own), rw (active, given, known) refl)
            | inr absent ↦
                let same = ok_injective (rw absent at h1) in
                (
                  subst (Extends cmd) same (append-Extends cmd _),
                  rw (active, absent, known)
                      (subst (λ r. has "--tenant-id" r ≡ true) same
                        (tenant-added cmd config.auth.tenant_id)),
                )
          ]
      | inr inactive ↦
          let same : cmd ≡ result = ok_injective (rw inactive at h) in
          (subst (Extends cmd) same (λ flag own. own), rw inactive refl)
    ]

or_collection_error-ok :
    {A : Type 0} {a : A} (o : Option A) → or_collection_error o ≡ ok a → o ≡ some a
or_collection_error-ok none h = ground arith
or_collection_error-ok (some a) h = ground (arith, h)

pub subprocess_env-secret :
    (environ : List (String × String)) (config : EngagementConfig) (cmd : List String)
    (env : Option (List (String × String)))
    → subprocess_env environ config cmd ≡ ok env
    → has "--sp-env-auth" cmd ≡ true
    → (e : List (String × String)) × (env ≡ some e)
      × (lookup "AZURE_CLIENT_SECRET" e ≡ lookup config.auth.client_secret_env environ)
unfolding subprocess_env
subprocess_env-secret environ config cmd env h secret =
    let (t1, h1) =
      require->>-ok
        (not (is_given config.auth.certificate_path && str_eq config.auth.client_secret_env ""))
        adapter_error _ (rw secret at h) in
    let (t2, h2) =
      require->>-ok (not (str_eq config.auth.client_secret_env "")) adapter_error _ h1 in
    let (value, found, h3) =
      >>=-ok (or_collection_error (lookup config.auth.client_secret_env environ)) _ h2 in
    (
      _,
      sym (ok_injective h3),
      lookup-upsert_self "AZURE_CLIENT_SECRET" value (
            upsert "AZURE_TENANT_ID" config.auth.tenant_id
              (upsert "AZURE_CLIENT_ID" config.auth.client_id environ))
          ∙ sym (or_collection_error-ok _ found),
    )

scope-added :
    (cmd : List String) (id : String) → has_scope (cmd ++ "--subscription-ids" ∷ id ∷ []) ≡ true
unfolding contains
scope-added cmd id = ground (
  arith,
  has-append "--subscription-id" cmd ("--subscription-ids" ∷ id ∷ []),
  has-append "--subscription-ids" cmd ("--subscription-ids" ∷ id ∷ []),
)

pub add_scope-ok :
    (config : EngagementConfig) (extra_args cmd : List String)
    → Extends cmd (add_scope config extra_args cmd)
      × ((str_eq config.subscription_id ""
            || has_scope extra_args
            || has_scope (add_scope config extra_args cmd))
          ≡ true)
unfolding add_scope
add_scope-ok config extra_args cmd =
    elim (Bool-cases (not (str_eq config.subscription_id "") && not (has_scope extra_args))) [
      | inl scoped ↦
          rw scoped (append-Extends cmd _, ground (arith, scope-added cmd config.subscription_id))
      | inr open_scope ↦ rw open_scope ((λ flag own. own), ground (arith, open_scope))
    ]

pub add_output-Extends :
    (tc : ToolConfig) (output_dir : String) (extra_args cmd : List String)
    → Extends cmd (add_output tc output_dir extra_args cmd)
      × Extends extra_args (add_output tc output_dir extra_args cmd)
unfolding add_output contains
add_output-Extends tc output_dir extra_args cmd = (
  append-Extends cmd _,
  λ flag h. ground (
    arith,
    h,
    has-append flag (check_args tc.modules) extra_args,
    has-append flag cmd (
        "-o"
        ∷ output_dir
        ∷ "-F"
        ∷ "ProwlerResults"
        ∷ "-M"
        ∷ "json-ocsf"
        ∷ (check_args tc.modules ++ extra_args)),
  ),
)

-- a flag with its value behind it
abbrev pub passes : String → String → List String → Bool
passes flag value [] = false
passes flag value (x ∷ []) = false
passes flag value (x ∷ y ∷ rest) =
    let later = passes flag value (y ∷ rest) in str_eq x flag && str_eq y value || later

pub passes-append :
    (flag value : String) (xs ys : List String)
    → passes flag value xs ≡ true
    → passes flag value (xs ++ ys) ≡ true
passes-append flag value [] ys h = ground (arith, h)
passes-append flag value (x ∷ []) ys h = ground (arith, h)
passes-append flag value (x ∷ y ∷ xs) ys h = ground (arith, h, passes-append flag value (y ∷ xs) ys)

passes-added :
    (flag value : String) (cmd : List String) → passes flag value (cmd ++ flag ∷ value ∷ []) ≡ true
passes-added flag value [] = ground (arith, eq_refl flag, eq_refl value)
passes-added flag value (x ∷ []) = ground (arith, eq_refl flag, eq_refl value)
passes-added flag value (x ∷ y ∷ cmd) = ground (arith, passes-added flag value (y ∷ cmd))

pub add_tenant-passes :
    (config : EngagementConfig) (extra_args cmd result : List String)
    → add_tenant config extra_args cmd ≡ ok result
    → ((not (has "--browser-auth" cmd || has "--browser-auth" extra_args)
          || has "--tenant-id" extra_args
          || passes "--tenant-id" config.auth.tenant_id result)
        ≡ true)
unfolding add_tenant
add_tenant-passes config extra_args cmd result h =
    elim (Bool-cases (has "--browser-auth" cmd || has "--browser-auth" extra_args)) [
      | inl active ↦
          let (known, h1) =
            require->>-ok (not (str_eq config.auth.tenant_id "")) adapter_error _
              (rw active at h) in
          elim (Bool-cases (has "--tenant-id" extra_args)) [
            | inl given ↦ rw (active, given) refl
            | inr absent ↦
                let same = ok_injective (rw absent at h1) in
                let passed =
                  subst (λ r. passes "--tenant-id" config.auth.tenant_id r ≡ true) same
                    (passes-added "--tenant-id" config.auth.tenant_id cmd) in
                rw (active, absent) passed
          ]
      | inr inactive ↦ rw inactive refl
    ]

pub add_scope-passes :
    (config : EngagementConfig) (extra_args cmd : List String)
    → ((str_eq config.subscription_id ""
          || has_scope extra_args
          || passes "--subscription-ids" config.subscription_id (add_scope config extra_args cmd))
        ≡ true)
unfolding add_scope
add_scope-passes config extra_args cmd =
    elim (Bool-cases (not (str_eq config.subscription_id "") && not (has_scope extra_args))) [
      | inl scoped ↦
          rw scoped (ground (arith, passes-added "--subscription-ids" config.subscription_id cmd))
      | inr open_scope ↦ rw open_scope (ground (arith, open_scope))
    ]

-- and what is in front of the rest of the command stays there
pub passes-add_scope :
    (config : EngagementConfig) (flag value : String) (extra_args cmd : List String)
    → passes flag value cmd ≡ true
    → passes flag value (add_scope config extra_args cmd) ≡ true
unfolding add_scope
passes-add_scope config flag value extra_args cmd h =
    elim (Bool-cases (not (str_eq config.subscription_id "") && not (has_scope extra_args))) [
      | inl scoped ↦ rw scoped (passes-append flag value cmd _ h)
      | inr open_scope ↦ rw open_scope h
    ]

pub passes-add_output :
    (tc : ToolConfig) (output_dir flag value : String) (extra_args cmd : List String)
    → passes flag value cmd ≡ true
    → passes flag value (add_output tc output_dir extra_args cmd) ≡ true
unfolding add_output
passes-add_output tc output_dir flag value extra_args cmd h = passes-append flag value cmd _ h
