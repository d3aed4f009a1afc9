-- ===== src/Adapters/Prowler/Covering.antt =====
-- adapters/prowler/adapter.py: the coverage that is reported agrees with the observations that are
-- parsed from the same output.
use gxassessms.Base.{
  ◌≡◌, refl, sym, ap, subst, ◌∙◌, arith, Bool-cases, inl, inr, String, Bool, true, ◌&&◌, Option,
  none, some, List, [], ◌∷◌, ◌++◌, append_assoc, append-nil, str_eq, eq_iff, lookup, add_to_group,
  contains, any, if◌then◌else◌,
}
use gxassessms.Errors.{ok}
use gxassessms.Json.{Object}
use gxassessms.Domain.Findings.{ToolObservation}
use gxassessms.Domain.Manifests.{ResolvedManifest}
use gxassessms.Persistence.Store.{CoverageRow}
use gxassessms.Adapters.Outputs.{OutputFiles}
use gxassessms.Adapters.Prowler.Parser.{Texts}
use gxassessms.Adapters.Prowler.Observing.{Reports, AllObserve, Parsed, parse-Parsed}
use gxassessms.Adapters.Prowler.{
  Loaded, add_status, add_statuses, all_of, coverage_record, coverage_records, coverage,
  validate_and_load, parse,
}

-- whether a check is among the observations, and whether one of it asks for manual verification
abbrev pub is_checked : String → List ToolObservation → Bool
is_checked c os = any (λ o. str_eq o.native_check_id c) os

abbrev pub needs_review : String → List ToolObservation → Bool
needs_review c os = any (λ o. str_eq o.native_check_id c && str_eq "MANUAL" o.native_status) os

-- the record that the observations call for
abbrev pub assessment : String → List ToolObservation → Option CoverageRow
assessment c os =
    if is_checked c os
    then some (record {
      control_id = c;
      tool_source = "Prowler";
      status = if needs_review c os then "partially_assessed" else "assessed";
      reason = if needs_review c os then some "Requires manual verification" else none;
    })
    else none

abbrev pub record_for : String → List CoverageRow → Option CoverageRow
record_for c [] = none
record_for c (r ∷ rs) = if str_eq r.control_id c then some r else record_for c rs

abbrev statuses_for : String → List ToolObservation → List String
statuses_for c [] = []
statuses_for c (o ∷ os) =
    let rest = statuses_for c os in
    if str_eq o.native_check_id c then o.native_status ∷ rest else rest

abbrev group_all : List ToolObservation → List (String × List String) → List (String × List String)
group_all [] statuses = statuses
group_all (o ∷ os) statuses =
    group_all os (add_to_group str_eq o.native_check_id o.native_status statuses)

abbrev combine : Option (List String) → List String → Option (List String)
combine (some old) new = some (old ++ new)
combine none [] = none
combine none (s ∷ ss) = some (s ∷ ss)

combine_append :
    (old : Option (List String)) (s : String) (ss : List String)
    → combine (combine old (s ∷ [])) ss ≡ combine old (s ∷ ss)
combine_append none s ss = refl
combine_append (some old) s ss = ap some (append_assoc old (s ∷ []) ss)

combine-nil : (old : Option (List String)) → combine old [] ≡ old
combine-nil none = refl
combine-nil (some old) = ap some (append-nil old)

lookup-add_to_group :
    (c k s : String) (statuses : List (String × List String))
    → lookup c (add_to_group str_eq k s statuses)
      ≡ (if str_eq k c then combine (lookup c statuses) (s ∷ []) else lookup c statuses)
unfolding lookup add_to_group
lookup-add_to_group c k s [] = refl
lookup-add_to_group c k s ((j, g) ∷ gs) =
    ground (arith, eq_iff j k, eq_iff j c, eq_iff k c, lookup-add_to_group c k s gs)

lookup-group_all :
    (c : String) (os : List ToolObservation) (statuses : List (String × List String))
    → lookup c (group_all os statuses) ≡ combine (lookup c statuses) (statuses_for c os)
lookup-group_all c [] statuses = sym (combine-nil (lookup c statuses))
lookup-group_all c (o ∷ os) statuses =
    let ih =
      lookup-group_all c os (add_to_group str_eq o.native_check_id o.native_status statuses) in
    let step = lookup-add_to_group c o.native_check_id o.native_status statuses in
    elim (Bool-cases (str_eq o.native_check_id c)) [
      | inl e ↦
          rw (ih, step, e) (combine_append (lookup c statuses) o.native_status (statuses_for c os))
      | inr e ↦ rw (ih, step, e) refl
    ]

module _ (files : OutputFiles) (blank : files.is_blank "" ≡ true) where
  add_status-ok :
      (f : Object) (check_id status_code : String) (statuses : List (String × List String))
      → Reports f check_id status_code
      → add_status files f statuses ≡ ok (add_to_group str_eq check_id status_code statuses)
  unfolding add_status
  add_status-ok f check_id status_code statuses r =
      rw (r.has_metadata, r.is_metadata, r.has_event_code, r.has_status_code) refl

  abbrev described : String → Option (List String) → Option CoverageRow
  described c none = none
  described c (some ss) = some (coverage_record files (c, ss))

  control_id-coverage_record :
      (k : String) (ss : List String) → (coverage_record files (k, ss)).control_id ≡ k
  unfolding coverage_record
  control_id-coverage_record k ss = ground arith

  record_for-coverage_records :
      (c : String) (statuses : List (String × List String))
      → record_for c (coverage_records files statuses) ≡ described c (lookup c statuses)
  unfolding coverage_records lookup
  record_for-coverage_records c [] = refl
  record_for-coverage_records c ((k, ss) ∷ rest) =
      let own = control_id-coverage_record k ss in
      elim (Bool-cases (str_eq k c)) [
        | inl e ↦
            let same = (eq_iff k c).0 e in
            rw (own, e) (ap (λ j. some (coverage_record files (j, ss))) same)
        | inr e ↦ rw (own, e) (record_for-coverage_records c rest)
      ]

  add_statuses-ok :
      (fs : List Object) (os : List ToolObservation) (statuses : List (String × List String))
      → AllObserve files blank fs os
      → add_statuses files fs statuses ≡ ok (group_all os statuses)
  unfolding add_statuses
  add_statuses-ok [] [] statuses h = refl
  add_statuses-ok [] (o ∷ os) statuses h = elim h [ ]
  add_statuses-ok (f ∷ fs) [] statuses h = elim h [ ]
  add_statuses-ok (f ∷ fs) (o ∷ os) statuses h =
      let (observed, others) = h in
      rw (add_status-ok f o.native_check_id o.native_status statuses observed.0) (
        add_statuses-ok fs os (add_to_group str_eq o.native_check_id o.native_status statuses)
          others)

  needs_review-statuses_for :
      (c : String) (os : List ToolObservation)
      → contains str_eq "MANUAL" (statuses_for c os) ≡ needs_review c os
  unfolding contains any
  needs_review-statuses_for c [] = refl
  needs_review-statuses_for c (o ∷ os) = ground (arith, needs_review-statuses_for c os)

  coverage_record_lem :
      (c : String) (ss : List String)
      → coverage_record files (c, ss) ≡ record {
        control_id = c;
        tool_source = "Prowler";
        status = if contains str_eq "MANUAL" ss then "partially_assessed" else "assessed";
        reason = if contains str_eq "MANUAL" ss then some "Requires manual verification" else none;
      }
  unfolding coverage_record
  coverage_record_lem c ss = elim (Bool-cases (contains str_eq "MANUAL" ss)) [
    | inl e ↦ rw e refl
    | inr e ↦ rw e refl
  ]

  combine-statuses_for :
      (c : String) (os : List ToolObservation)
      → combine none (statuses_for c os)
        ≡ (if is_checked c os then some (statuses_for c os) else none)
  unfolding any
  combine-statuses_for c [] = refl
  combine-statuses_for c (o ∷ os) = ground (arith, combine-statuses_for c os)

  described-assessment :
      (c : String) (os : List ToolObservation)
      → described c (combine none (statuses_for c os)) ≡ assessment c os
  described-assessment c os = elim (Bool-cases (is_checked c os)) [
    | inl e ↦
        rw
          (
            combine-statuses_for c os,
            e,
            coverage_record_lem c (statuses_for c os),
            needs_review-statuses_for c os,
          )
          refl
    | inr e ↦ rw (combine-statuses_for c os, e) refl
  ]

  -- Where the output passes validation and parsing returns observations, coverage returns, and for each
  -- check it has exactly the record that the observations call for: none for a check that no observation
  -- has, partially assessed for a check with an observation in status MANUAL, and assessed for any other.
  -- Assumed is that "" is blank.
  pub coverage-assessment :
      (texts : Texts) (raw : ResolvedManifest) (loaded : Loaded) (os : List ToolObservation)
      → validate_and_load files raw ≡ ok loaded
      → parse files texts raw ≡ ok os
      → (rs : List CoverageRow) × (coverage files raw ≡ ok rs)
        × ((c : String) → record_for c rs ≡ assessment c os)
  unfolding coverage
  coverage-assessment texts raw loaded os h parsed =
      let observed : AllObserve files blank (all_of files loaded) os =
        subst (Parsed files blank texts (all_of files loaded)) parsed
          (parse-Parsed files blank texts raw loaded h) in
      let statuses = group_all os [] in
      let grouped = add_statuses-ok (all_of files loaded) os [] observed in
      (
        coverage_records files (group_all os []),
        rw (h, grouped) refl,
        λ c.
            record_for-coverage_records c (group_all os [])
            ∙ ap (described c) (lookup-group_all c os [])
            ∙ described-assessment c os,
      )
