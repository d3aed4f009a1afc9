-- ===== src/Adapters/Prowler/Parser.antt =====
-- adapters/prowler/parser.py: from Prowler's findings to observations. Parameters are Python's str of a
-- list or a dict and of an index, its order of texts, the first digits of a text's SHA-256, and JSON's
-- encoding of a finding.
use Prim.Native.String
use gxassessms.Base.{
  ℕ, suc, String, Bool, Option, none, some, List, [], ◌∷◌, ◌++◌, str_eq, if◌then◌else◌, lookup,
  sort_by,
}
use gxassessms.Json.{
  Json, text, Object, get_or_default, object_or_empty, str_of, str_or, as_array, truthy,
}
use gxassessms.Errors.{Result, ok, ◌>>=◌, ◌>>◌}
use gxassessms.Domain.Findings.{ToolObservation, prowler}

pub record Texts : Type 0 where
  pub repr : Json → String
  pub decimal : ℕ → String
  pub text_le : String → String → Bool
  -- hashlib.sha256(s.encode()).hexdigest()[:12] and [:8]
  -- and encode raises UnicodeEncodeError for a lone surrogate
  pub digest12 : String → Result String
  pub digest8 : String → Result String
  -- what pydantic says of an observation's texts
  pub validate : ToolObservation → Result (Unit {0})
  pub dumps : Object → String

infixl 65 ◌&◌
abbrev pub ◌&◌ : String → String → String
s & t = String.◌++◌ s t

module _ (texts : Texts) where
  unfoldable pub framework_refs : String → List Json → List String
  framework_refs framework [] = []
  framework_refs framework (control_id ∷ rest) =
      (framework & ":" & str_of texts.repr control_id) ∷ framework_refs framework rest

  unfoldable pub compliance_refs : Object → List String
  unfolding framework_refs
  compliance_refs [] = []
  compliance_refs ((framework, control_ids) ∷ rest) =
      of_array (as_array control_ids) ++ compliance_refs rest
    where
      of_array : Option (List Json) → List String
      of_array none = []
      of_array (some ids) = framework_refs framework ids

  unfoldable pub extract_benchmark_refs : Object → List String
  unfolding compliance_refs sort_by lookup
  extract_benchmark_refs finding = sort_by texts.text_le (
      compliance_refs
        (object_or_empty (lookup "compliance" (object_or_empty (lookup "unmapped" finding)))))

  -- str(raw) if raw else default, for raw = d.get(key, default)
  abbrev pub text_at : String → String → Object → String
  text_at default key o = str_or texts.repr default (get_or_default (text default) key o)

  -- the digest of the finding's uid, or what stands in for it
  unfoldable pub uid_hash : String → ℕ → String → Result String
  uid_hash source_tag idx finding_uid =
      if str_eq finding_uid ""
      then if str_eq source_tag ""
        then ok ("idx" & texts.decimal idx)
        else (do file_hash ← texts.digest8 source_tag; ok (file_hash & ":idx" & texts.decimal idx))
      else texts.digest12 finding_uid

  unfoldable pub check_id_of : Object → Object → String
  unfolding lookup truthy
  check_id_of metadata finding_info =
      let check_id = text_at "" "event_code" metadata in
      if str_eq check_id "" then text_at "unknown" "uid" finding_info else check_id

  -- the observation of a finding, with the digest of its uid
  abbrev pub observation_of : Object → String → ToolObservation
  observation_of finding digest =
      let metadata = object_or_empty (lookup "metadata" finding) in
      let finding_info = object_or_empty (lookup "finding_info" finding) in
      let check_id = check_id_of metadata finding_info in
      record {
        observation_id = "prowler:" & check_id & ":" & digest;
        tool = prowler;
        native_check_id = check_id;
        native_severity = text_at "Unknown" "severity" finding;
        native_status = text_at "FAIL" "status_code" finding;
        native_category = none;
        title = text_at "" "title" finding_info;
        description = text_at "" "desc" finding_info;
        benchmark_refs = extract_benchmark_refs finding;
        raw_data = texts.dumps finding;
      }

  unfoldable pub observe_finding : String → ℕ → Object → Result ToolObservation
  unfolding check_id_of uid_hash extract_benchmark_refs lookup truthy
  observe_finding source_tag idx finding = do
    digest ←
        uid_hash source_tag idx (text_at "" "uid" (object_or_empty (lookup "finding_info" finding)))
    texts.validate (observation_of finding digest)
    ok (observation_of finding digest)

  -- the loop, from an index on
  unfoldable pub parse_from : String → ℕ → List Object → Result (List ToolObservation)
  unfolding observe_finding
  parse_from source_tag idx [] = ok []
  parse_from source_tag idx (finding ∷ rest) = do
    observation ← observe_finding source_tag idx finding
    observations ← parse_from source_tag (suc idx) rest
    ok (observation ∷ observations)

  unfoldable pub parse_prowler_findings : String → List Object → Result (List ToolObservation)
  unfolding parse_from
  parse_prowler_findings source_tag findings = parse_from source_tag 0 findings
