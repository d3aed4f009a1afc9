-- ===== src/Adapters/Scubagear/Covering.antt =====
-- adapters/scubagear/adapter.py: the coverage of ScubaGear's results agrees with what is parsed.
use gxassessms.Base.{
  ◌≡◌, refl, ap, ◌∙◌, arith, Bool-cases, inl, inr, String, Option, none, some, List, [], ◌∷◌,
  str_eq, lookup, if◌then◌else◌,
}
use gxassessms.Errors.{ok, traverse, >>=-ok, ok_injective}
use gxassessms.Json.{Json, text, truthy, Object, null, bool, number, array, object}
use gxassessms.Domain.Findings.{ToolObservation}
use gxassessms.Domain.Manifests.{ResolvedManifest}
use gxassessms.Persistence.Store.{CoverageRow}
use gxassessms.Adapters.Outputs.{OutputFiles}
use gxassessms.Adapters.Scubagear.{
  Texts, Entry, or_adapter_error, as_str, entries_of, parse_control, parse_scuba_results,
  is_not_applicable, coverage_record, validate_and_load_results, parse, coverage,
}

pub or_adapter_error-ok :
    {A : Type 0} {a : A} (o : Option A) → or_adapter_error o ≡ ok a → o ≡ some a
or_adapter_error-ok none h = ground arith
or_adapter_error-ok (some a) h = ground (arith, h)

as_str-ok : (j : Json) (s : String) → as_str j ≡ ok s → j ≡ text s
as_str-ok (text t) s h = ap text (ok_injective h)
as_str-ok null s h = ground arith
as_str-ok (bool b) s h = ground arith
as_str-ok (number n) s h = ground arith
as_str-ok (array js) s h = ground arith
as_str-ok (object fs) s h = ground arith

-- a key whose value is a text
at_key :
    (key : String) (o : Object) (j : Json) (s : String)
    → or_adapter_error (lookup key o) ≡ ok j
    → as_str j ≡ ok s
    → lookup key o ≡ some (text s)
at_key key o j s found is_text =
    or_adapter_error-ok (lookup key o) found ∙ ap some (as_str-ok j s is_text)

module _ (texts : Texts) where
  -- the record that an observation calls for
  abbrev pub assessment : ToolObservation → CoverageRow
  assessment o = record {
    control_id = o.native_check_id;
    tool_source = "ScubaGear";
    status = if is_not_applicable texts o.native_status then "not_assessed" else "assessed";
    reason =
        if is_not_applicable texts o.native_status
        then if str_eq o.description "" then none else some o.description
        else none;
  }

  abbrev pub assessments : List ToolObservation → List CoverageRow
  assessments [] = []
  assessments (o ∷ os) = assessment o ∷ assessments os

  covered :
      (module_key : String) (group control : Object) (check_id status details : String)
      → lookup "Control ID" control ≡ some (text check_id)
      → lookup "Result" control ≡ some (text status)
      → lookup "Details" control ≡ some (text details)
      → coverage_record texts (module_key, group, control)
        ≡ ok (record {
          control_id = check_id;
          tool_source = "ScubaGear";
          status = if is_not_applicable texts status then "not_assessed" else "assessed";
          reason =
              if is_not_applicable texts status
              then if str_eq details "" then none else some details
              else none;
        })
  unfolding coverage_record truthy
  covered module_key group control check_id status details at_check at_status at_details =
      elim (Bool-cases (is_not_applicable texts status)) [
        | inl e ↦ elim (Bool-cases (str_eq details "")) [
          | inl blank ↦ rw (at_check, at_status, at_details, e, blank) refl
          | inr solid ↦ rw (at_check, at_status, at_details, e, solid) refl
        ]
        | inr e ↦ rw (at_check, at_status, e) refl
      ]

  coverage_record-assessment :
      (entry : Entry) (o : ToolObservation)
      → parse_control texts entry ≡ ok o
      → coverage_record texts entry ≡ ok (assessment o)
  unfolding parse_control
  coverage_record-assessment (module_key, group, control) o h =
      let (j1, f1, h1) = >>=-ok (or_adapter_error (lookup "Control ID" control)) _ h in
      let (j2, f2, h2) = >>=-ok (or_adapter_error (lookup "Requirement" control)) _ h1 in
      let (j3, f3, h3) = >>=-ok (or_adapter_error (lookup "Result" control)) _ h2 in
      let (j4, f4, h4) = >>=-ok (or_adapter_error (lookup "Criticality" control)) _ h3 in
      let (j5, f5, h5) = >>=-ok (or_adapter_error (lookup "Details" control)) _ h4 in
      let (s1, t1, k1) = >>=-ok (as_str j1) _ h5 in
      let (s2, t2, k2) = >>=-ok (as_str j2) _ k1 in
      let (s4, t4, k4) = >>=-ok (as_str j4) _ k2 in
      let (s3, t3, k3) = >>=-ok (as_str j3) _ k4 in
      let (s5, t5, k5) = >>=-ok (as_str j5) _ k3 in
      covered module_key group control s1 s3 s5 (at_key "Control ID" control j1 s1 f1 t1)
        (at_key "Result" control j3 s3 f3 t3) (at_key "Details" control j5 s5 f5 t5)
      ∙ ap (λ x. ok (assessment x)) (ok_injective k5)

  traverse-assessments :
      (entries : List Entry) (os : List ToolObservation)
      → traverse (parse_control texts) entries ≡ ok os
      → traverse (coverage_record texts) entries ≡ ok (assessments os)
  unfolding traverse
  traverse-assessments [] os h = ap (λ x. ok (assessments x)) (ok_injective h)
  traverse-assessments (entry ∷ entries) os h =
      let (o, parsed, h1) = >>=-ok (parse_control texts entry) _ h in
      let (rest, others, h2) = >>=-ok (traverse (parse_control texts) entries) _ h1 in
      rw (coverage_record-assessment entry o parsed, traverse-assessments entries rest others)
        (ap (λ x. ok (assessments x)) (ok_injective h2))

  -- If ScubaGear's output parses, coverage succeeds on it, with one record for each observation, in
  -- order: not assessed, with the details as the reason unless they are empty, where the status is N/A
  -- but for case and white space at its ends, and assessed without a reason otherwise.
  pub coverage-assessments :
      (files : OutputFiles) (raw : ResolvedManifest) (os : List ToolObservation)
      → parse texts files raw ≡ ok os
      → coverage texts files raw ≡ ok (assessments os)
  unfolding parse coverage parse_scuba_results
  coverage-assessments files raw os h =
      let (results, loaded, h1) = >>=-ok (validate_and_load_results texts files raw) _ h in
      rw loaded (traverse-assessments (entries_of texts results) os h1)
