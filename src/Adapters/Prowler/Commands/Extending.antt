-- ===== src/Adapters/Prowler/Commands/Extending.antt =====
-- adapters/prowler/adapter.py: permitted arguments, and what stays in a command that is extended.
use gxassessms.Base.{
  ℕ, ◌≡◌, refl, ap, subst, ◌∙◌, arith, Bool-cases, inl, inr, String, Bool, true, false, not, ◌&&◌,
  ◌||◌, List, [], ◌∷◌, ◌++◌, str_eq, eq_iff, contains, any, lookup, All,
}
use gxassessms.Errors.{ok, adapter_error, >>=-ok, require->>-ok, ok_injective}
use gxassessms.Domain.Configs.{EngagementConfig}
use gxassessms.Adapters.Prowler.Commands.{
  has, has_auth, with_auth, is_permitted, auth_method_map, validate_prowler_extra_args,
}

pub has-append :
    (flag : String) (xs ys : List String) → has flag (xs ++ ys) ≡ (has flag xs || has flag ys)
unfolding contains
has-append flag [] ys = refl
has-append flag (x ∷ xs) ys = ground (arith, has-append flag xs ys)

pub validate-IsPermitted :
    (is_word : ℕ → Bool) (args result : List String)
    → validate_prowler_extra_args is_word args ≡ ok result
    → (args ≡ result) × All (λ arg. is_permitted is_word arg ≡ true) args
unfolding validate_prowler_extra_args
validate-IsPermitted is_word [] result h = (ok_injective h, tt)
validate-IsPermitted is_word (arg ∷ args) result h =
    let (permitted, h1) = require->>-ok (is_permitted is_word arg) adapter_error _ h in
    let (rest, others, h2) = >>=-ok (validate_prowler_extra_args is_word args) _ h1 in
    let (same, all_permitted) = validate-IsPermitted is_word args rest others in
    (ap (λ r. arg ∷ r) same ∙ ok_injective h2, (permitted, all_permitted))

-- a command line that extends another has its flags
abbrev pub Extends : List String → List String → Type 0
Extends xs ys = (flag : String) → has flag xs ≡ true → has flag ys ≡ true

pub append-Extends : (xs ys : List String) → Extends xs (xs ++ ys)
append-Extends xs ys flag h = rw (has-append flag xs ys, h) refl

-- whether the run signs in through a browser: the method says so, unless an argument says otherwise
abbrev pub uses_browser : EngagementConfig → List String → Bool
uses_browser config extra_args =
    has "--browser-auth" extra_args
    || not (has_auth extra_args) && str_eq "interactive" config.auth.method

-- and whether it signs in by a secret of the configuration
abbrev pub uses_secret : EngagementConfig → List String → Bool
uses_secret config extra_args =
    not (has_auth extra_args) && str_eq "client_credential" config.auth.method

pub trans-Extends : (xs ys zs : List String) → Extends xs ys → Extends ys zs → Extends xs zs
trans-Extends xs ys zs f g flag h = g flag (f flag h)

pub has_auth-Extends :
    (xs ys : List String) → Extends xs ys → has_auth xs ≡ true → has_auth ys ≡ true
unfolding any
has_auth-Extends xs ys e h = ground (
  arith,
  h,
  e "--sp-env-auth",
  e "--browser-auth",
  e "--az-cli-auth",
  e "--managed-identity-auth",
)

-- after the flags of authentication are added
pub record Authorized (config : EngagementConfig) (extra_args cmd : List String) : Type 0 where
  pub flagged : (has_auth extra_args || has_auth cmd) ≡ true
  pub by_browser :
      (not (has_auth extra_args)
        && str_eq "interactive" config.auth.method
        && not (has "--browser-auth" cmd))
      ≡ false
  pub by_secret : (uses_secret config extra_args && not (has "--sp-env-auth" cmd)) ≡ false

pub by_method :
    (config : EngagementConfig) (extra_args cmd result : List String)
    → has_auth extra_args ≡ false
    → with_auth cmd (has_auth extra_args) (lookup config.auth.method auth_method_map) ≡ ok result
    → Authorized config extra_args result
unfolding lookup contains any
by_method config extra_args cmd result absent h =
    elim (Bool-cases (str_eq "client_credential" config.auth.method)) [
      | inl secret ↦
          let same = ok_injective (rw (absent, secret) at h) in
          let added = has-append "--sp-env-auth" cmd ("--sp-env-auth" ∷ []) in
          let other : str_eq "interactive" config.auth.method ≡ false =
            subst (λ m. str_eq "interactive" m ≡ false)
              ((eq_iff "client_credential" config.auth.method).0 secret) refl in
          subst (Authorized config extra_args) same (record {
            flagged = ground (arith, added);
            by_browser = ground (arith, other);
            by_secret = ground (arith, added);
          })
      | inr no_secret ↦ elim (Bool-cases (str_eq "interactive" config.auth.method)) [
        | inl browser ↦
            let same = ok_injective (rw (absent, no_secret, browser) at h) in
            let added = has-append "--browser-auth" cmd ("--browser-auth" ∷ []) in
            subst (Authorized config extra_args) same (record {
              flagged = ground (arith, added);
              by_browser = ground (arith, added);
              by_secret = ground (arith, no_secret);
            })
        | inr no_browser ↦
            let h' = rw (absent, no_secret, no_browser) at h in absurd (ground (arith, h'))
      ]
    ]
