-- ===== src/Domain/Enums.antt =====
-- core/domain/enums.py: Severity, FindingStatus, Category, with their texts; and SEVERITY_ORDER of
-- core/domain/constants.py. A `StrEnum` member is looked up by its text: `of_value`.
use gxassessms.Base.{
  ℕ, String, ◌≡◌, refl, Bool, Option, none, some, List, [], ◌∷◌, str_eq, if◌then◌else◌, lookup,
}

-- Enum(text): the first member whose value is the text; `none` is the ValueError
unfoldable pub of_value {ℓ} : {A : Type ℓ} → (A → String) → List A → String → Option A
of_value value [] s = none
of_value value (a ∷ members) s = if str_eq (value a) s then some a else of_value value members s

pub data Severity : Type 0 where
  critical high medium low info : Severity

unfoldable pub severity_value : Severity → String
severity_value critical = "CRITICAL"
severity_value high = "HIGH"
severity_value medium = "MEDIUM"
severity_value low = "LOW"
severity_value info = "INFO"

abbrev pub severities : List Severity
severities = critical ∷ high ∷ medium ∷ low ∷ info ∷ []

unfoldable pub severity_of_value : String → Option Severity
unfolding of_value severity_value
severity_of_value s = of_value severity_value severities s

-- SEVERITY_ORDER
abbrev pub severity_order_table : List (String × ℕ)
severity_order_table = ("INFO", 0) ∷ ("LOW", 1) ∷ ("MEDIUM", 2) ∷ ("HIGH", 3) ∷ ("CRITICAL", 4) ∷ []

-- SEVERITY_ORDER.get(s.value, 0)
unfoldable pub severity_order : Severity → ℕ
unfolding lookup severity_value
severity_order s = elim (lookup (severity_value s) severity_order_table) [ none ↦ 0 | some n ↦ n ]

pub data FindingStatus : Type 0 where
  fail pass warning error not_applicable manual : FindingStatus

unfoldable pub status_value : FindingStatus → String
status_value fail = "FAIL"
status_value pass = "PASS"
status_value warning = "WARNING"
status_value error = "ERROR"
status_value not_applicable = "N/A"
status_value manual = "MANUAL"

abbrev pub statuses : List FindingStatus
statuses = fail ∷ pass ∷ warning ∷ error ∷ not_applicable ∷ manual ∷ []

unfoldable pub status_of_value : String → Option FindingStatus
unfolding of_value status_value
status_of_value s = of_value status_value statuses s

pub data Category : Type 0 where
  identity_access data_protection device_management email_collaboration : Category
  infrastructure_security network_security logging_monitoring cost_optimization : Category
  operational_excellence compliance application_security : Category

unfoldable pub category_value : Category → String
category_value identity_access = "Identity & Access"
category_value data_protection = "Data Protection"
category_value device_management = "Device Management"
category_value email_collaboration = "Email & Collaboration"
category_value infrastructure_security = "Infrastructure Security"
category_value network_security = "Network Security"
category_value logging_monitoring = "Logging & Monitoring"
category_value cost_optimization = "Cost Optimization"
category_value operational_excellence = "Operational Excellence"
category_value compliance = "Compliance & Governance"
category_value application_security = "Application Security"

-- the attribute `name` of the member
unfoldable pub category_name : Category → String
category_name identity_access = "IDENTITY_ACCESS"
category_name data_protection = "DATA_PROTECTION"
category_name device_management = "DEVICE_MANAGEMENT"
category_name email_collaboration = "EMAIL_COLLABORATION"
category_name infrastructure_security = "INFRASTRUCTURE_SECURITY"
category_name network_security = "NETWORK_SECURITY"
category_name logging_monitoring = "LOGGING_MONITORING"
category_name cost_optimization = "COST_OPTIMIZATION"
category_name operational_excellence = "OPERATIONAL_EXCELLENCE"
category_name compliance = "COMPLIANCE"
category_name application_security = "APPLICATION_SECURITY"

abbrev pub categories : List Category
categories =
    identity_access ∷ data_protection ∷ device_management ∷ email_collaboration
    ∷ infrastructure_security ∷ network_security ∷ logging_monitoring ∷ cost_optimization
    ∷ operational_excellence ∷ compliance ∷ application_security ∷ []

-- Every severity is read back from its text.
severity_of_value-severity_value : (s : Severity) → severity_of_value (severity_value s) ≡ some s
unfolding severity_of_value
severity_of_value-severity_value critical = refl
severity_of_value-severity_value high = refl
severity_of_value-severity_value medium = refl
severity_of_value-severity_value low = refl
severity_of_value-severity_value info = refl

-- Every status is read back from its text.
pub status_of_value-status_value : (s : FindingStatus) → status_of_value (status_value s) ≡ some s
unfolding status_of_value
status_of_value-status_value fail = refl
status_of_value-status_value pass = refl
status_of_value-status_value warning = refl
status_of_value-status_value error = refl
status_of_value-status_value not_applicable = refl
status_of_value-status_value manual = refl

-- The members of an enumeration are the same exactly when their texts are.
unfoldable pub severity_eq : Severity → Severity → Bool
unfolding severity_value
severity_eq a b = str_eq (severity_value a) (severity_value b)

unfoldable pub status_eq : FindingStatus → FindingStatus → Bool
unfolding status_value
status_eq a b = str_eq (status_value a) (status_value b)
