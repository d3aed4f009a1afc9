-- ===== src/Adapters/Prowler/Observing.antt =====
-- adapters/prowler/adapter.py: what validation guarantees of a finding, and that the parser therefore
-- takes the check and the status of each observation from the finding itself.
use gxassessms.Base.{
  ◌⊎◌, ℕ, suc, ◌≡◌, refl, ap, subst, ◌∙◌, arith, Bool-cases, inl, inr, String, true, false, not,
  Option, none, some, List, [], ◌∷◌, ◌++◌, str_eq, eq_iff, is_key, lookup, All,
}
use gxassessms.Errors.{
  Error, Result, ok, err, adapter_error, value_error, type_error, attribute_error, other_error,
  ◌>>=◌, >>=-ok, require->>-ok, ok_injective,
}
use gxassessms.Json.{
  Json, Object, text, object, as_object, as_array, as_text, truthy, object_or_empty,
}
use gxassessms.Domain.Findings.{ToolObservation, prowler}
use gxassessms.Domain.Manifests.{ResolvedManifest, ArtifactRecord}
use gxassessms.Adapters.Outputs.{OutputFiles, load_json_file}
use gxassessms.Adapters.Prowler.Parser.{
  Texts, text_at, check_id_of, uid_hash, observation_of, observe_finding, parse_from,
  parse_prowler_findings,
}
use gxassessms.Adapters.Prowler.{
  status_map, or_invalid, Loaded, any_entry, validate_finding, validate_findings, load_all,
  validate_and_load, as_parse_error, parse_all, parse, all_of,
}

-- a finding of a check, with a status
pub record Reports (f : Object) (check_id status_code : String) : Type 0 where
  pub raw_metadata : Json
  pub metadata : Object
  pub has_metadata : lookup "metadata" f ≡ some raw_metadata
  pub is_metadata : as_object raw_metadata ≡ some metadata
  pub has_event_code : lookup "event_code" metadata ≡ some (text check_id)
  pub has_status_code : lookup "status_code" f ≡ some (text status_code)

-- a test that lets a value through has found it
or_invalid-ok : {A : Type 0} {a : A} (o : Option A) → or_invalid o ≡ ok a → o ≡ some a
or_invalid-ok none h = ground arith
or_invalid-ok (some a) h = ground (arith, h)

as_text-some : (j : Json) (s : String) → as_text j ≡ some s → j ≡ text s
as_text-some (text t) s h = ground (arith, h)
as_text-some Json.null s h = ground arith
as_text-some (Json.bool b) s h = ground arith
as_text-some (Json.number n) s h = ground arith
as_text-some (Json.array js) s h = ground arith
as_text-some (object fs) s h = ground arith

object_or_empty-some : (j : Json) (o : Object) → as_object j ≡ some o → object_or_empty (some j) ≡ o
object_or_empty-some (object fs) o h = ground (arith, h)
object_or_empty-some Json.null o h = ground arith
object_or_empty-some (Json.bool b) o h = ground arith
object_or_empty-some (Json.number n) o h = ground arith
object_or_empty-some (text t) o h = ground arith
object_or_empty-some (Json.array js) o h = ground arith

text_at-text :
    (texts : Texts) (default key c : String) (o : Object)
    → lookup key o ≡ some (text c)
    → str_eq c "" ≡ false
    → text_at texts default key o ≡ c
unfolding truthy
text_at-text texts default key c o found some_text = rw (found, some_text) refl

module _ (files : OutputFiles) (blank : files.is_blank "" ≡ true) where
  -- what validation knows of a finding
  abbrev pub IsSound : Object → Type 0
  IsSound f =
      (check_id : String) × (status_code : String) × Reports f check_id status_code
      × (files.is_blank check_id ≡ false)
      × (str_eq status_code "" ≡ false)
      × (is_key status_code status_map ≡ true)

  validate_finding-IsSound :
      (value : Json) (f : Object) → validate_finding files value ≡ ok f → IsSound f
  unfolding validate_finding
  validate_finding-IsSound value f h =
      let (finding, o0, h0) = >>=-ok (or_invalid (as_object value)) _ h in
      let (info, o1, h1) = >>=-ok (or_invalid (lookup "finding_info" finding)) _ h0 in
      let (finding_info, o2, h2) = >>=-ok (or_invalid (as_object info)) _ h1 in
      let (raw_sc, o3, h3) = >>=-ok (or_invalid (lookup "status_code" finding)) _ h2 in
      let (status_code, o4, h4) = >>=-ok (or_invalid (as_text raw_sc)) _ h3 in
      let (t5, h5) = require->>-ok (not (str_eq status_code "")) adapter_error _ h4 in
      let (t6, h6) = require->>-ok (is_key status_code status_map) adapter_error _ h5 in
      let (raw_metadata, o7, h7) = >>=-ok (or_invalid (lookup "metadata" finding)) _ h6 in
      let (metadata, o8, h8) = >>=-ok (or_invalid (as_object raw_metadata)) _ h7 in
      let (raw_code, o9, h9) = >>=-ok (or_invalid (lookup "event_code" metadata)) _ h8 in
      let (code, o10, h10) = >>=-ok (or_invalid (as_text raw_code)) _ h9 in
      let (t11, h11) = require->>-ok (not (files.is_blank code)) adapter_error _ h10 in
      let is_code = as_text-some raw_code code (or_invalid-ok _ o10) in
      let is_status = as_text-some raw_sc status_code (or_invalid-ok _ o4) in
      let sound : IsSound finding = (
        code,
        status_code,
        record {
          raw_metadata = raw_metadata;
          metadata = metadata;
          has_metadata = or_invalid-ok _ o7;
          is_metadata = or_invalid-ok _ o8;
          has_event_code = or_invalid-ok _ o9 ∙ ap some is_code;
          has_status_code = or_invalid-ok _ o3 ∙ ap some is_status;
        },
        ground (arith, t11),
        ground (arith, t5),
        t6,
      ) in
      subst IsSound (ok_injective h11) sound

  validate_findings-IsSound :
      (values : List Json) (fs : List Object)
      → validate_findings files values ≡ ok fs
      → All IsSound fs
  unfolding validate_findings
  validate_findings-IsSound [] fs h = subst (All IsSound) (ok_injective h) tt
  validate_findings-IsSound (value ∷ values) fs h =
      let (f, one, h1) = >>=-ok (validate_finding files value) _ h in
      let (rest, others, h2) = >>=-ok (validate_findings files values) _ h1 in
      subst (All IsSound) (ok_injective h2)
        (validate_finding-IsSound value f one, validate_findings-IsSound values rest others)

  All-append : (P : Object → Type 0) (xs ys : List Object) → All P xs → All P ys → All P (xs ++ ys)
  All-append P [] ys hx hy = hy
  All-append P (x ∷ xs) ys hx hy = (hx.0, All-append P xs ys hx.1 hy)

  load_all-IsSound :
      (entries : List (String × ArtifactRecord)) (loaded : Loaded)
      → load_all files entries ≡ ok loaded
      → All IsSound (all_of files loaded)
  unfolding load_all
  load_all-IsSound [] loaded h = subst (λ l. All IsSound (all_of files l)) (ok_injective h) tt
  load_all-IsSound ((file_path, _) ∷ entries) loaded h =
      let (value, l1, h1) = >>=-ok (load_json_file files file_path) _ h in
      let (values, l2, h2) = >>=-ok (or_invalid (as_array value)) _ h1 in
      let (fs, valid, h3) = >>=-ok (validate_findings files values) _ h2 in
      let (rest, others, h4) = >>=-ok (load_all files entries) _ h3 in
      subst (λ l. All IsSound (all_of files l)) (ok_injective h4)
        (All-append IsSound fs (all_of files rest) (validate_findings-IsSound values fs valid)
          (load_all-IsSound entries rest others))

  pub validate_and_load-IsSound :
      (raw : ResolvedManifest) (loaded : Loaded)
      → validate_and_load files raw ≡ ok loaded
      → All IsSound (all_of files loaded)
  unfolding validate_and_load
  validate_and_load-IsSound raw loaded h =
      let (t, h1) = require->>-ok (any_entry raw.file_manifest) adapter_error _ h in
      load_all-IsSound raw.file_manifest loaded h1

  -- an observation that says what its finding says
  abbrev pub Observes : Object → ToolObservation → Type 0
  Observes f o =
      Reports f o.native_check_id o.native_status
      × (files.is_blank o.native_check_id ≡ false)
      × (is_key o.native_status status_map ≡ true)
      × (o.tool ≡ prowler)

  abbrev pub AllObserve : List Object → List ToolObservation → Type 0
  AllObserve [] [] = Unit
  AllObserve (f ∷ fs) (o ∷ os) = Observes f o × AllObserve fs os
  AllObserve _ _ = ⊥

  AllObserve-append :
      (fs gs : List Object) (os ps : List ToolObservation)
      → AllObserve fs os
      → AllObserve gs ps
      → AllObserve (fs ++ gs) (os ++ ps)
  AllObserve-append [] gs [] ps h k = k
  AllObserve-append [] gs (o ∷ os) ps h k = elim h [ ]
  AllObserve-append (f ∷ fs) gs [] ps h k = elim h [ ]
  AllObserve-append (f ∷ fs) gs (o ∷ os) ps h k = (h.0, AllObserve-append fs gs os ps h.1 k)

  not_empty : (s : String) → files.is_blank s ≡ false → str_eq s "" ≡ false
  not_empty s h = elim (Bool-cases (str_eq s "")) [
    | inl e ↦ let same = (eq_iff s "").0 e in ground (arith, ap files.is_blank same, blank, h)
    | inr e ↦ e
  ]

  observation_of-Observes :
      (texts : Texts) (f : Object) (digest : String)
      → IsSound f
      → Observes f (observation_of texts f digest)
  unfolding check_id_of
  observation_of-Observes texts f digest (code, status, r, solid, some_status, known) =
      let some_code = not_empty code solid in
      let in_metadata : object_or_empty (lookup "metadata" f) ≡ r.metadata =
        ap object_or_empty r.has_metadata
        ∙ object_or_empty-some r.raw_metadata r.metadata r.is_metadata in
      let at_code = text_at-text texts "" "event_code" code r.metadata r.has_event_code some_code in
      let at_status =
        text_at-text texts "FAIL" "status_code" status f r.has_status_code some_status in
      rw (in_metadata, at_code, at_status, some_code) (r, solid, known, refl)

  -- one of the findings, of which no observation can be made
  abbrev pub AnyUnobservable : Texts → List Object → Type 0
  AnyUnobservable texts [] = ⊥
  AnyUnobservable texts (f ∷ fs) =
      ((source_tag : String) × (idx : ℕ) × (e : Error) × (observe_finding texts source_tag idx f
          ≡ err e))
      ⊎ AnyUnobservable texts fs

  AnyUnobservable-left :
      (texts : Texts) (fs gs : List Object)
      → AnyUnobservable texts fs
      → AnyUnobservable texts (fs ++ gs)
  AnyUnobservable-left texts [] gs h = absurd h
  AnyUnobservable-left texts (f ∷ fs) gs (inl own) = inl own
  AnyUnobservable-left texts (f ∷ fs) gs (inr later) = inr (AnyUnobservable-left texts fs gs later)

  AnyUnobservable-right :
      (texts : Texts) (fs gs : List Object)
      → AnyUnobservable texts gs
      → AnyUnobservable texts (fs ++ gs)
  AnyUnobservable-right texts [] gs h = h
  AnyUnobservable-right texts (f ∷ fs) gs h = inr (AnyUnobservable-right texts fs gs h)

  -- the observations of the findings, or an error that has its cause in one of them
  abbrev pub Parsed : Texts → List Object → Result (List ToolObservation) → Type 0
  Parsed texts fs (ok os) = AllObserve fs os
  Parsed texts fs (err e) = AnyUnobservable texts fs

  Parsed-cons :
      (texts : Texts) (source_tag : String) (idx : ℕ) (f : Object) (fs : List Object)
      (one : Result ToolObservation) (rest : Result (List ToolObservation))
      → observe_finding texts source_tag idx f ≡ one
      → IsSound f
      → Parsed texts fs rest
      → Parsed texts (f ∷ fs) (one >>= λ o. rest >>= λ os. ok (o ∷ os))
  unfolding observe_finding
  Parsed-cons texts source_tag idx f fs (err e) rest own sound h = inl (source_tag, idx, e, own)
  Parsed-cons texts source_tag idx f fs (ok o) (err e) own sound h = inr h
  Parsed-cons texts source_tag idx f fs (ok o) (ok os) own sound h =
      let (digest, made, h1) = >>=-ok (uid_hash texts source_tag idx _) _ own in
      let (t, valid, h2) = >>=-ok (texts.validate (observation_of texts f digest)) _ h1 in
      (subst (Observes f) (ok_injective h2) (observation_of-Observes texts f digest sound), h)

  parse_from-Parsed :
      (texts : Texts) (source_tag : String) (idx : ℕ) (fs : List Object)
      → All IsSound fs
      → Parsed texts fs (parse_from texts source_tag idx fs)
  unfolding parse_from
  parse_from-Parsed texts source_tag idx [] h = tt
  parse_from-Parsed texts source_tag idx (f ∷ fs) h =
      Parsed-cons texts source_tag idx f fs (observe_finding texts source_tag idx f)
        (parse_from texts source_tag (suc idx) fs) refl h.0
        (parse_from-Parsed texts source_tag (suc idx) fs h.1)

  Parsed-as_parse_error :
      (texts : Texts) (fs : List Object) (r : Result (List ToolObservation))
      → Parsed texts fs r
      → Parsed texts fs (as_parse_error files r)
  Parsed-as_parse_error texts fs (ok os) h = h
  Parsed-as_parse_error texts fs (err value_error) h = h
  Parsed-as_parse_error texts fs (err type_error) h = h
  Parsed-as_parse_error texts fs (err attribute_error) h = h
  Parsed-as_parse_error texts fs (err other_error) h = h
  Parsed-as_parse_error texts fs (err e) h = h

  Parsed-append :
      (texts : Texts) (fs gs : List Object) (r s : Result (List ToolObservation))
      → Parsed texts fs r
      → Parsed texts gs s
      → Parsed texts (fs ++ gs) (r >>= λ os. s >>= λ ps. ok (os ++ ps))
  Parsed-append texts fs gs (err e) s h k = AnyUnobservable-left texts fs gs h
  Parsed-append texts fs gs (ok os) (err e) h k = AnyUnobservable-right texts fs gs k
  Parsed-append texts fs gs (ok os) (ok ps) h k = AllObserve-append fs gs os ps h k

  All-left : (P : Object → Type 0) (xs ys : List Object) → All P (xs ++ ys) → All P xs
  All-left P [] ys h = tt
  All-left P (x ∷ xs) ys h = (h.0, All-left P xs ys h.1)

  All-right : (P : Object → Type 0) (xs ys : List Object) → All P (xs ++ ys) → All P ys
  All-right P [] ys h = h
  All-right P (x ∷ xs) ys h = All-right P xs ys h.1

  parse_all-Parsed :
      (texts : Texts) (loaded : Loaded)
      → All IsSound (all_of files loaded)
      → Parsed texts (all_of files loaded) (parse_all files texts loaded)
  unfolding parse_all parse_prowler_findings
  parse_all-Parsed texts [] h = tt
  parse_all-Parsed texts ((file_path, fs) ∷ rest) h =
      Parsed-append texts fs (all_of files rest)
        (as_parse_error files (parse_from texts file_path 0 fs)) (parse_all files texts rest)
        (Parsed-as_parse_error texts fs (parse_from texts file_path 0 fs)
          (parse_from-Parsed texts file_path 0 fs (All-left IsSound fs (all_of files rest) h)))
        (parse_all-Parsed texts rest (All-right IsSound fs (all_of files rest) h))

  pub parse-Parsed :
      (texts : Texts) (raw : ResolvedManifest) (loaded : Loaded)
      → validate_and_load files raw ≡ ok loaded
      → Parsed texts (all_of files loaded) (parse files texts raw)
  unfolding parse
  parse-Parsed texts raw loaded h =
      rw h (parse_all-Parsed texts loaded (validate_and_load-IsSound raw loaded h))
