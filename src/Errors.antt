-- ===== src/Errors.antt =====
-- core/contracts/errors.py, and the built-in exceptions that the pipeline's handlers name.
-- A message is not modelled: no handler reads it. The attributes that are read are kept.
use gxassessms.Base.{
  ◌≡◌, refl, arith, List, [], ◌∷◌, if◌then◌else◌, String, Bool, true, false, Option, none, some,
}

pub data Error : Type 0 where
  -- ConfigError, AdapterError, ConsolidationError, QAError, ReportError and their subclasses
  config_error adapter_error consolidation_error qa_error report_error : Error
  -- PersistenceError and its subclasses
  persistence_error lock_timeout_error : Error
  invalid_transition_error : String → String → Error
  -- PipelineError and its subclasses, with the attribute `stage`
  pipeline_error : String → Error
  runtime_error os_error value_error type_error attribute_error import_error : Error
  -- any exception that no handler of the pipeline names, such as a KeyError or an AssertionError
  other_error : Error

-- isinstance(e, GxAssessError)
unfoldable pub is_gx_assess_error : Error → Bool
is_gx_assess_error config_error = true
is_gx_assess_error adapter_error = true
is_gx_assess_error consolidation_error = true
is_gx_assess_error qa_error = true
is_gx_assess_error report_error = true
is_gx_assess_error persistence_error = true
is_gx_assess_error lock_timeout_error = true
is_gx_assess_error (invalid_transition_error from to) = true
is_gx_assess_error (pipeline_error stage) = true
is_gx_assess_error _ = false

pub data Result {ℓ} (A : Type ℓ) : Type ℓ where
  err : Error → Result A
  ok : A → Result A

-- an enumeration's constructor at a text that is none of its values
abbrev pub or_value_error : {A : Type 0} → Option A → Result A
or_value_error (some a) = ok a
or_value_error none = err value_error

infixl 5 ◌>>=◌ ◌>>◌
abbrev pub ◌>>=◌ {ℓ κ} : {A : Type ℓ} {B : Type κ} → Result A → (A → Result B) → Result B
err raised >>= next = err raised
ok a >>= next = next a

abbrev pub ◌>>◌ {ℓ} : {B : Type ℓ} → Result (Unit {0}) → Result B → Result B
first >> second = first >>= λ _. second

-- `if not test: raise e`
abbrev pub require : Bool → Error → Result (Unit {0})
require test e = if test then ok tt else err e

-- a step that lets the rest succeed has its test met
pub require->>-ok {ℓ} :
    {B : Type ℓ} {b : B} (test : Bool) (e : Error) (rest : Result B)
    → (require test e >> rest) ≡ ok b
    → (test ≡ true) × (rest ≡ ok b)
require->>-ok true e rest h = (refl, h)
require->>-ok false e rest h = ground arith

pub require-ok : (test : Bool) (e : Error) → require test e ≡ ok tt → test ≡ true
require-ok true e h = refl
require-ok false e h = ground arith

-- a chain that succeeds has a first step that does
pub >>=-ok {ℓ κ} :
    {A : Type ℓ} {B : Type κ} {b : B} (m : Result A) (next : A → Result B)
    → (m >>= next) ≡ ok b
    → (a : A) × (m ≡ ok a) × (next a ≡ ok b)
>>=-ok (ok a) next h = (a, refl, h)
>>=-ok (err e) next h = ground arith

-- and a chain whose first step and whose rest succeed does too
pub >>=-total {ℓ κ} :
    {A : Type ℓ} {B : Type κ} (m : Result A) (next : A → Result B) (a : A)
    → m ≡ ok a
    → (b : B) × (next a ≡ ok b)
    → (b : B) × ((m >>= next) ≡ ok b)
>>=-total m next a e (b, e') = (b, rw e e')

pub ok_injective {ℓ} : {A : Type ℓ} {a b : A} → Result.ok a ≡ ok b → a ≡ b
ok_injective h = ground arith

-- `[f(x) for x in xs]`, where f may raise
unfoldable pub traverse : {A B : Type 0} → (A → Result B) → List A → Result (List B)
traverse f [] = ok []
traverse f (x ∷ xs) = do y ← f x; ys ← traverse f xs; ok (y ∷ ys)
