-- ===== src/Policy/Normalization/Normalized.antt =====
-- policy/normalization.py: what a normalized finding keeps of its observation, and its invariants.
use gxassessms.Base.{
  String, ◌≡◌, refl, sym, Bool, true, false, not, Option, none, some, List, [], ◌∷◌, ◌||◌, str_eq,
  lookup, Chars, ◌∙◌, arith, subst,
}
use gxassessms.Errors.{
  Result, ok, or_value_error, >>=-ok, ok_injective, value_error, require, ◌>>◌, require->>-ok,
}
use gxassessms.Domain.Enums.{
  FindingStatus, pass, not_applicable, info, severity_eq, status_eq, status_of_value, Severity,
}
use gxassessms.Domain.Findings.{ToolObservation, Finding}
use gxassessms.Pipeline.Collaborators.{SeverityMap, TextMap}
use gxassessms.Policy.Normalization.{
  NormalizationRules, resolve_severity, resolve_status, resolve_finding_key, normalize,
  normalize_one, or_error_status, status_of, or_text, key_or, mapped_status, is_passing, given,
  given_format, Formatted, formatted, unknown_placeholder, other_failure,
}

pub resolve_severity-is_passing :
    (r : NormalizationRules) (o : ToolObservation) (m : SeverityMap)
    → is_passing (status_of_value (mapped_status r o)) ≡ true
    → resolve_severity r o m ≡ ok info
unfolding resolve_severity
resolve_severity-is_passing r o m h = rw h refl

or_error_status-is_passing :
    (found : Option FindingStatus)
    → is_passing (some (or_error_status found)) ≡ true
    → is_passing found ≡ true
or_error_status-is_passing none h = unfold status_eq in ground arith
or_error_status-is_passing (some s) h = h

or_value_error-is_passing :
    (found : Option FindingStatus) (s : FindingStatus)
    → or_value_error found ≡ ok s
    → is_passing (some s) ≡ true
    → is_passing found ≡ true
or_value_error-is_passing none s h passing = ground arith
or_value_error-is_passing (some t) s h passing = rw (ok_injective h) passing

status_of-is_passing :
    (found : Option String) (native : String) (s : FindingStatus)
    → status_of found native ≡ ok s
    → is_passing (some s) ≡ true
    → is_passing (status_of_value (or_text native found)) ≡ true
status_of-is_passing (some mapped) native s h passing = or_value_error-is_passing _ s h passing
status_of-is_passing none native s h passing =
    or_error_status-is_passing _
      (subst (λ t. is_passing (some t) ≡ true) (sym (ok_injective h)) passing)

-- An observation whose status resolves to PASS or N/A has the severity INFO, whatever the maps hold.
pub resolve_severity-resolve_status :
    (r : NormalizationRules) (o : ToolObservation) (m : SeverityMap) (s : FindingStatus)
    → resolve_status r o ≡ ok s
    → is_passing (some s) ≡ true
    → resolve_severity r o m ≡ ok info
unfolding resolve_status mapped_status
resolve_severity-resolve_status r o m s h passing =
    resolve_severity-is_passing r o m (
      status_of-is_passing (lookup o.native_status r.default_status_map) o.native_status s h
        passing)

module _ (strip : String → String) (lower : Chars → Chars)
    (format : String → String → String → Formatted) where
  given_lem :
      (key : String)
      → given strip key ≡ (require (not (str_eq (strip key) "")) value_error >> ok key)
  given_lem key = ground arith

  given-ok : (key k : String) → given strip key ≡ ok k → str_eq (strip k) "" ≡ false
  given-ok key k h =
      let (test, e) =
        require->>-ok (not (str_eq (strip key) "")) value_error (ok key)
          (sym (given_lem key) ∙ h) in
      subst (λ t. str_eq (strip t) "" ≡ false) (ok_injective e) (ground (arith, test))

  given_format-ok :
      (f : Formatted) (k : String) → given_format strip f ≡ ok k → str_eq (strip k) "" ≡ false
  given_format-ok (formatted key) k h = given-ok key k h
  given_format-ok unknown_placeholder k h = ground arith
  given_format-ok (other_failure e) k h = ground arith

  key_or-ok :
      (f : Formatted) (found : Option String) (k : String)
      → key_or strip f found ≡ ok k
      → str_eq (strip k) "" ≡ false
  key_or-ok f (some key) k h = given-ok key k h
  key_or-ok f none k h = given_format-ok f k h

  -- a finding key that is returned is not blank
  resolve_finding_key-ok :
      (r : NormalizationRules) (o : ToolObservation) (keys : TextMap) (k : String)
      → resolve_finding_key strip lower format r o keys ≡ ok k
      → str_eq (strip k) "" ≡ false
  unfolding resolve_finding_key
  resolve_finding_key-ok r o keys k h = key_or-ok _ (lookup o.native_check_id keys) k h

-- the statuses that call for no action
abbrev pub is_settled : FindingStatus → Bool
is_settled pass = true
is_settled not_applicable = true
is_settled _ = false

is_settled-is_passing : (s : FindingStatus) → is_settled s ≡ true → is_passing (some s) ≡ true
unfolding status_eq
is_settled-is_passing pass h = refl
is_settled-is_passing not_applicable h = refl
is_settled-is_passing s h = ground arith

-- A finding keeps its observation's identity and references, has its finding key, which is not
-- blank, as its one dedup key, and the severity INFO where its status is PASS or N/A.
unfoldable pub IsNormalOf : (String → String) → ToolObservation → Finding → Type 0
IsNormalOf strip o f =
    (f.observation_id ≡ o.observation_id)
    × (f.native_check_id ≡ o.native_check_id)
    × (f.tool ≡ o.tool)
    × (f.title ≡ o.title)
    × (f.benchmark_refs ≡ o.benchmark_refs)
    × (f.dedup_keys ≡ f.finding_key ∷ [])
    × (str_eq (strip f.finding_key) "" ≡ false)
    × (not (is_settled f.status) || severity_eq f.severity info ≡ true)

-- two lists of one length whose elements are related in order
unfoldable pub Pointwise : {A B : Type 0} → (A → B → Type 0) → List A → List B → Type 0
Pointwise R [] [] = Unit
Pointwise R [] (b ∷ bs) = ⊥
Pointwise R (a ∷ as') [] = ⊥
Pointwise R (a ∷ as') (b ∷ bs) = R a b × Pointwise R as' bs

severity_eq-info :
    (b : Bool) (severity : Severity)
    → (b ≡ true → Result.ok severity ≡ ok info)
    → not b || severity_eq severity info ≡ true
severity_eq-info true severity h = rw (ok_injective (h refl)) (unfold severity_eq in refl)
severity_eq-info false severity h = refl

module _ (strip : String → String) (lower : Chars → Chars)
    (format : String → String → String → Formatted) where
  normalize_one-IsNormalOf :
      (r : NormalizationRules) (m : SeverityMap) (cats keys : TextMap) (o : ToolObservation)
      (f : Finding)
      → normalize_one strip lower format r m cats keys o ≡ ok f
      → IsNormalOf strip o f
  unfolding normalize_one IsNormalOf
  normalize_one-IsNormalOf r m cats keys o f h =
      let (severity, e1, h1) = >>=-ok (resolve_severity r o m) _ h in
      let (status, e2, h2) = >>=-ok (resolve_status r o) _ h1 in
      let (key, e3, h3) = >>=-ok (resolve_finding_key strip lower format r o keys) _ h2 in
      subst (IsNormalOf strip o) (ok_injective h3) (
        refl,
        refl,
        refl,
        refl,
        refl,
        refl,
        resolve_finding_key-ok strip lower format r o keys key e3,
        severity_eq-info _ severity (λ p.
            sym e1
            ∙ resolve_severity-resolve_status r o m status e2 (is_settled-is_passing status p)),
      )

  -- A normalization that succeeds returns one finding for each observation, in order. Each keeps its
  -- observation's identity and references, has its finding key, which is not blank, as its one dedup
  -- key, and the severity INFO where its status is PASS or N/A.
  pub normalize-IsNormalOf :
      (r : NormalizationRules) (m : SeverityMap) (cats keys : TextMap) (os : List ToolObservation)
      (fs : List Finding)
      → normalize strip lower format r os m cats keys ≡ ok fs
      → Pointwise (IsNormalOf strip) os fs
  unfolding normalize Pointwise
  normalize-IsNormalOf r m cats keys [] fs h =
      subst (Pointwise (IsNormalOf strip) []) (ok_injective h) tt
  normalize-IsNormalOf r m cats keys (o ∷ os) fs h =
      let (f, e1, h1) = >>=-ok (normalize_one strip lower format r m cats keys o) _ h in
      let (rest, e2, h2) = >>=-ok (normalize strip lower format r os m cats keys) _ h1 in
      subst (Pointwise (IsNormalOf strip) (o ∷ os)) (ok_injective h2) (
        normalize_one-IsNormalOf r m cats keys o f e1,
        normalize-IsNormalOf r m cats keys os rest e2,
      )
