-- ===== src/Policy/Normalization.antt =====
-- policy/normalization.py. `strip` and `lower` stand for Python's str.strip and str.lower, `format` for
-- str.format with the fields tool and native_check_id. An entry of default_severity_map has its three
-- keys; other entries of the rules are `none` or missing from their list where they are absent.
pub mod Normalized
use gxassessms.Base.{
  ℕ, String, Bool, true, false, not, Option, none, some, List, [], ◌∷◌, ◌&&◌, ◌||◌, str_eq,
  if◌then◌else◌, lookup, Chars, codes, text_eq, starts_with, split_on,
}
use gxassessms.Errors.{Error, Result, ok, err, or_value_error, value_error, ◌>>=◌}
use gxassessms.Domain.Enums.{
  Severity, info, severity_of_value, FindingStatus, pass, not_applicable, error, status_of_value,
  status_eq, Category, compliance, of_value, categories, category_name, category_value,
}
use gxassessms.Domain.Findings.{ToolObservation, Finding, tool_value}
use gxassessms.Pipeline.Collaborators.{SeverityMap, TextMap}

-- an entry of default_severity_map
pub record SeverityEntry : Type 0 where
  pub requirement : String
  pub status : String
  pub severity : String

pub record NormalizationRules : Type 0 where
  pub default_status_map : TextMap
  pub default_severity_map : List SeverityEntry
  pub fallback_severity : Option String
  pub default_category_map : TextMap
  pub fallback_category : Option String
  pub dedup_key_fallback_pattern : Option String

-- what str.format does: a text, a KeyError or a ValueError, or another exception
pub data Formatted : Type 0 where
  formatted : String → Formatted
  unknown_placeholder : Formatted
  other_failure : Error → Formatted

abbrev pub or_text : String → Option String → String
or_text d none = d
or_text d (some t) = t

abbrev pub is_passing : Option FindingStatus → Bool
is_passing none = false
is_passing (some s) = status_eq s pass || status_eq s not_applicable

-- status_map.get(obs.native_status, obs.native_status)
unfoldable pub mapped_status : NormalizationRules → ToolObservation → String
unfolding lookup
mapped_status r o = or_text o.native_status (lookup o.native_status r.default_status_map)

-- adapter_severity_map.get((severity, status))
unfoldable pub adapter_severity : String → String → SeverityMap → Option String
adapter_severity severity status [] = none
adapter_severity severity status (((a, b), t) ∷ m) =
    if str_eq a severity && str_eq b status then some t else adapter_severity severity status m

-- the loop over default_severity_map
unfoldable pub default_severity : String → String → List SeverityEntry → Option String
default_severity severity status [] = none
default_severity severity status (e ∷ es) =
    if str_eq e.requirement severity && str_eq e.status status
    then some e.severity
    else default_severity severity status es

abbrev or_else {ℓ} : {A : Type ℓ} → Option A → Option A → Option A
or_else none b = b
or_else (some a) b = some a

-- _resolve_severity
unfoldable pub resolve_severity :
    NormalizationRules → ToolObservation → SeverityMap → Result Severity
unfolding mapped_status adapter_severity default_severity severity_of_value status_of_value
    status_eq
resolve_severity r o m =
    if is_passing (status_of_value (mapped_status r o))
    then ok info
    else or_value_error (
        severity_of_value (
          or_text (or_text "MEDIUM" r.fallback_severity) (
            or_else (adapter_severity o.native_severity (mapped_status r o) m)
              (default_severity o.native_severity (mapped_status r o) r.default_severity_map))))

-- _resolve_status
abbrev pub or_error_status : Option FindingStatus → FindingStatus
or_error_status none = error
or_error_status (some s) = s

abbrev pub status_of : Option String → String → Result FindingStatus
status_of (some mapped) native = or_value_error (status_of_value mapped)
status_of none native = ok (or_error_status (status_of_value native))

unfoldable pub resolve_status : NormalizationRules → ToolObservation → Result FindingStatus
unfolding lookup status_of_value
resolve_status r o = status_of (lookup o.native_status r.default_status_map) o.native_status

-- _category_key_to_enum
unfoldable pub category_key_to_enum : String → Category
unfolding of_value category_name category_value
category_key_to_enum key = elim (of_value category_name categories key) [
  | some c ↦ c
  | none ↦ elim (of_value category_value categories key) [ some c ↦ c | none ↦ compliance ]
]

abbrev second : List Chars → Option Chars
second (s ∷ t ∷ u ∷ ts) = some t
second _ = none

-- parts[0], of two parts or more
abbrev first : List Chars → Option Chars
first (s ∷ t ∷ ts) = some s
first _ = none

abbrev head_of : List Chars → Chars
head_of [] = []
head_of (s ∷ ss) = s

abbrev map_option {ℓ} : {A B : Type ℓ} → (A → B) → Option A → Option B
map_option f none = none
map_option f (some a) = some (f a)

-- the second segment of an id with this prefix
abbrev namespaced : Chars → ℕ → Chars → Option Chars
namespaced prefix sep id = if starts_with prefix id then second (split_on sep id) else none

abbrev found_in : Chars → TextMap → Option String
found_in key [] = none
found_in key ((k, v) ∷ m) = if text_eq (codes k) key then some v else found_in key m

-- `if prefix and prefix in m: m[prefix]`
abbrev by_prefix : Option Chars → TextMap → Option String
by_prefix none m = none
by_prefix (some []) m = none
by_prefix (some (c ∷ cs)) m = found_in (c ∷ cs) m

-- `if obs.native_category and obs.native_category in m`
abbrev by_category : Option String → TextMap → Option String
by_category none m = none
by_category (some t) m = if str_eq t "" then none else lookup t m

module _ (lower : Chars → Chars) where
  -- _extract_module_prefix
  unfoldable pub extract_module_prefix : Chars → Option Chars
  unfolding split_on
  extract_module_prefix id = map_option lower (
      or_else (namespaced (codes "MS.") b'.' id) (
        or_else (namespaced (codes "m365.") b'.' id) (
          or_else (map_option (λ s. head_of (split_on b'-' s)) (first (split_on b'.' id)))
            (or_else (namespaced (codes "m365_") b'_' id) (first (split_on b'_' id))))))

  -- _resolve_category
  unfoldable pub resolve_category : NormalizationRules → ToolObservation → TextMap → Category
  unfolding extract_module_prefix category_key_to_enum lookup
  resolve_category r o m =
      let prefix = extract_module_prefix (codes o.native_check_id) in
      category_key_to_enum (
        or_text (or_text "COMPLIANCE" r.fallback_category) (
          or_else (by_prefix prefix m) (
            or_else (lookup o.native_check_id m) (
              or_else (by_category o.native_category m) (
                or_else (by_prefix prefix r.default_category_map)
                  (lookup o.native_check_id r.default_category_map))))))

-- `if not key.strip(): raise ValueError`
abbrev pub given : (String → String) → String → Result String
given strip key = if str_eq (strip key) "" then err value_error else ok key

abbrev pub given_format : (String → String) → Formatted → Result String
given_format strip (formatted key) = given strip key
given_format strip unknown_placeholder = err value_error
given_format strip (other_failure e) = err e

abbrev pub key_or : (String → String) → Formatted → Option String → Result String
key_or strip fallback (some key) = given strip key
key_or strip fallback none = given_format strip fallback

abbrev pub default_pattern : String
default_pattern = "{tool}:{native_check_id}"

module _ (strip : String → String) (lower : Chars → Chars)
    (format : String → String → String → Formatted) where
  -- _resolve_finding_key
  unfoldable pub resolve_finding_key :
      NormalizationRules → ToolObservation → TextMap → Result String
  unfolding lookup tool_value
  resolve_finding_key r o keys =
      key_or strip
        (format (or_text default_pattern r.dedup_key_fallback_pattern) (tool_value o.tool)
          o.native_check_id)
        (lookup o.native_check_id keys)

  -- one round of `normalize`
  unfoldable pub normalize_one :
      NormalizationRules → SeverityMap → TextMap → TextMap → ToolObservation → Result Finding
  unfolding resolve_severity resolve_category resolve_status resolve_finding_key
  normalize_one r severities cats keys o = do
    severity ← resolve_severity r o severities
    status ← resolve_status r o
    finding_key ← resolve_finding_key r o keys
    ok (record {
      observation_id = o.observation_id;
      native_check_id = o.native_check_id;
      finding_key = finding_key;
      tool = o.tool;
      title = o.title;
      severity = severity;
      status = status;
      category = resolve_category lower r o cats;
      description = o.description;
      dedup_keys = finding_key ∷ [];
      benchmark_refs = o.benchmark_refs;
      raw_data = o.raw_data;
    })

  -- DefaultNormalizationPolicy.normalize
  unfoldable pub normalize :
      NormalizationRules
      → List ToolObservation
      → SeverityMap
      → TextMap
      → TextMap
      → Result (List Finding)
  unfolding normalize_one
  normalize r [] severities cats keys = ok []
  normalize r (o ∷ os) severities cats keys = do
    f ← normalize_one r severities cats keys o
    fs ← normalize r os severities cats keys
    ok (f ∷ fs)
