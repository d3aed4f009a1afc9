-- ===== src/Examples/Referring.antt =====
-- The theorem on references to credentials at two of them.
use gxassessms.Base.{
  ℕ, Bool, false, String, ◌≡◌, refl, List, [], ◌∷◌, ◌==◌, All, any, all, codes, contains,
}
use gxassessms.Errors.{ok}
use gxassessms.Domain.Credentials.{
  fullmatch, partition, is_valid_credential_ref, validate_credential_refs,
}
use gxassessms.Domain.Credentials.References.{IsLookupRef, validate_credential_refs-IsLookupRef}

abbrev is_blank : ℕ → Bool
is_blank c = c == b' '

abbrev refs : List (String × String)
refs = ("client", "env:GX_SECRET") ∷ ("vault", "key_vault:tenant/prod") ∷ []

accepted : validate_credential_refs is_blank refs ≡ ok tt
unfolding validate_credential_refs is_valid_credential_ref partition fullmatch any all contains
accepted = refl

validate_credential_refs-IsLookupRef_example :
    All (λ r. (any is_blank (codes r.1) ≡ false) × IsLookupRef (codes r.1)) refs
validate_credential_refs-IsLookupRef_example =
    validate_credential_refs-IsLookupRef is_blank refs accepted
