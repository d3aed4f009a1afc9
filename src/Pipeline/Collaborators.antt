-- ===== src/Pipeline/Collaborators.antt =====
-- What the stages call: adapters, policies, rules, QA strategies and renderers are plugins behind
-- the protocols of core/contracts/types.py, and the artifact store is the file system. They are
-- parameters. The loops of pipeline/stages.py over them are modelled here.
use gxassessms.Base.{
  String, Bool, not, Option, none, some, List, [], ◌∷◌, ◌++◌, ◌&&◌, str_eq, if◌then◌else◌, upsert,
  contains,
}
use gxassessms.Errors.{Result, ok, err, report_error, ◌>>=◌, ◌>>◌}
use gxassessms.Domain.Findings.{
  ToolObservation, Finding, ConsolidatedFinding, ToolSource, tool_value,
}
use gxassessms.Persistence.Store.{CoverageRow}

-- the maps that an adapter may expose; `none` where it lacks the attribute
abbrev pub SeverityMap : Type 0
SeverityMap = List ((String × String) × String)

abbrev pub TextMap : Type 0
TextMap = List (String × String)

pub record ToolAdapter (RawOutput : Type 0) : Type 0 where
  pub storage_slug : String
  pub tool_source : ToolSource
  pub capabilities : List String
  pub validate_raw : RawOutput → Result (Unit {0})
  pub parse : RawOutput → Result (List ToolObservation)
  pub coverage : RawOutput → Result (List CoverageRow)
  pub severity_map : Option SeverityMap
  pub category_map : Option TextMap
  pub dedup_key_rules : Option TextMap

-- a renderer; a theme of "" stands also for the attribute's absence
pub record ReportRenderer : Type 0 where
  pub format : String
  pub theme : String
  pub render : List ConsolidatedFinding → List CoverageRow → Result (Unit {0})

pub record Collaborators : Type 1 where
  pub CollectionResult : Type 0
  pub LoadedManifest : Type 0
  pub RawOutput : Type 0
  pub QaResult : Type 0
  pub adapters : List (ToolAdapter RawOutput)
  pub collect : Result (List CollectionResult)
  -- ArtifactManager.save_raw_outputs, load_raw_outputs of pipeline/replay.py and
  -- confine_and_resolve of pipeline/confinement.py: the file system
  pub save_raw_outputs : List CollectionResult → Result (List LoadedManifest)
  pub load_raw_outputs : Result (List LoadedManifest)
  -- ArtifactManager.get_engagement_dir, with an id that is valid or not; and the directory of the
  -- reports, which is made and whose permissions are looked at
  pub get_engagement_dir : Result (Unit {0})
  pub secure_mkdir : Result (Unit {0})
  pub warn_broad_permissions : Result (Unit {0})
  -- _build_report_payload, of what it reads
  pub build_report_payload : List ConsolidatedFinding → List CoverageRow → Result (Unit {0})
  -- whether the caller gives a directory for the reports
  pub has_output_dir : Bool
  pub confine_and_resolve : List LoadedManifest → Result (List RawOutput)
  -- ResolvedManifest.tool_slug
  pub tool_slug : RawOutput → String
  pub normalize : List ToolObservation → SeverityMap → TextMap → TextMap → Result (List Finding)
  pub consolidate : List Finding → Result (List ConsolidatedFinding)
  pub review_findings : List ConsolidatedFinding → Result (List QaResult)
  pub is_noop : Bool
  pub renderers : List ReportRenderer
  pub report_formats : List String
  pub report_theme : String
  -- SHA-256 of the JSON of a stage's output
  pub hash_collected : List CollectionResult → String
  pub hash_observations : List ToolObservation → String
  pub hash_findings : List Finding → String
  pub hash_consolidated : List ConsolidatedFinding → String
  pub hash_review : List QaResult → String
  pub hash_nothing : String

module _ {RawOutput : Type 0} (tool_slug : RawOutput → String) where
  -- `{a.storage_slug: a for a in adapters}.get(slug)`: the last of a slug
  unfoldable pub adapter_for :
      String → List (ToolAdapter RawOutput) → Option (ToolAdapter RawOutput)
  adapter_for slug [] = none
  adapter_for slug (a ∷ as') = elim (adapter_for slug as') [
    | some later ↦ some later
    | none ↦ if str_eq a.storage_slug slug then some a else none
  ]

  abbrev pub parse_with : Option (ToolAdapter RawOutput) → RawOutput → Result (List ToolObservation)
  parse_with none raw = ok []
  parse_with (some a) raw = do a.validate_raw raw; a.parse raw

  -- stages.parse, for the results that `_run_parse` builds, all with the status SUCCESS
  unfoldable pub parse :
      List RawOutput → List (ToolAdapter RawOutput) → Result (List ToolObservation)
  unfolding adapter_for
  parse [] adapters = ok []
  parse (raw ∷ raws) adapters = do
    parsed ← parse_with (adapter_for (tool_slug raw) adapters) raw
    rest ← parse raws adapters
    ok (parsed ++ rest)

  abbrev pub coverage_with : Option (ToolAdapter RawOutput) → RawOutput → Result (List CoverageRow)
  coverage_with none raw = ok []
  coverage_with (some a) raw =
      if contains str_eq "coverage_export" a.capabilities then a.coverage raw else ok []

  unfoldable pub collect_coverage :
      List RawOutput → List (ToolAdapter RawOutput) → Result (List CoverageRow)
  unfolding adapter_for contains
  collect_coverage [] adapters = ok []
  collect_coverage (raw ∷ raws) adapters = do
    covered ← coverage_with (adapter_for (tool_slug raw) adapters) raw
    rest ← collect_coverage raws adapters
    ok (covered ++ rest)

-- `result[key] = resolved` for each entry: a later adapter's entry replaces an earlier one's
unfoldable pub merge_entries : TextMap → TextMap → TextMap
unfolding upsert
merge_entries result [] = result
merge_entries result ((k, v) ∷ entries) = merge_entries (upsert k v result) entries

abbrev entries_of : Option TextMap → TextMap
entries_of none = []
entries_of (some m) = m

abbrev or_later : {A : Type 0} → Option A → Bool → Option A → Option A
or_later (some m) here own = some m
or_later none here own = if here then own else none

module _ {RawOutput : Type 0} where
  -- _merge_adapter_map(adapters, "dedup_key_rules", resolve_enum=False)
  unfoldable pub merge_dedup_keys : TextMap → List (ToolAdapter RawOutput) → TextMap
  unfolding merge_entries
  merge_dedup_keys result [] = result
  merge_dedup_keys result (a ∷ as') =
      merge_dedup_keys (merge_entries result (entries_of a.dedup_key_rules)) as'

  -- per_tool_sev.get(tool, {}) and per_tool_cat.get(tool, {}): the last adapter of the tool
  unfoldable pub severity_map_for : String → List (ToolAdapter RawOutput) → Option SeverityMap
  unfolding tool_value
  severity_map_for tool [] = none
  severity_map_for tool (a ∷ as') =
      or_later (severity_map_for tool as') (str_eq (tool_value a.tool_source) tool) a.severity_map

  unfoldable pub category_map_for : String → List (ToolAdapter RawOutput) → Option TextMap
  unfolding tool_value
  category_map_for tool [] = none
  category_map_for tool (a ∷ as') =
      or_later (category_map_for tool as') (str_eq (tool_value a.tool_source) tool) a.category_map

abbrev pub or_empty : {A : Type 0} → Option (List A) → List A
or_empty none = []
or_empty (some m) = m

-- the loop of `_filter_renderers`
unfoldable pub matching_renderers : List String → String → List ReportRenderer → List ReportRenderer
unfolding contains
matching_renderers formats theme [] = []
matching_renderers formats theme (r ∷ rs) =
    let rest = matching_renderers formats theme rs in
    if not (contains str_eq r.format formats)
    then rest
    else if not (str_eq r.theme "") && not (str_eq r.theme theme)
    then rest
    else r ∷ rest

unfoldable pub filter_renderers :
    List String → String → List ReportRenderer → Result (List ReportRenderer)
unfolding matching_renderers
filter_renderers formats theme rs =
    let selected = matching_renderers formats theme rs in
    elim selected [ [] ↦ err report_error | r ∷ more ↦ ok (r ∷ more) ]

-- stages.render: each renderer in turn
unfoldable pub render_all :
    List ConsolidatedFinding → List CoverageRow → List ReportRenderer → Result (Unit {0})
render_all findings coverage [] = ok tt
render_all findings coverage (r ∷ rs) = do
  r.render findings coverage
  render_all findings coverage rs
