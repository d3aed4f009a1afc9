-- ===== src/Pipeline/Runner/Succeeding.antt =====
-- pipeline/_runner.py: the handlers of the stages, where the plugins succeed on whatever they are given.
use gxassessms.Base.{
  String, ◌≡◌, refl, sym, subst, Bool, true, false, Option, none, some, List, [], ◌∷◌, ◌++◌, All,
  str_eq, if◌then◌else◌, contains, group_by,
}
use gxassessms.Exec.Keeps.{
  Keeps, Keeps-pure, Keeps-raise, Keeps-lift, Keeps-gets, Keeps-read, Keeps-if, Keeps-bind,
}
use gxassessms.Errors.{ok}
use gxassessms.Domain.Findings.{ToolObservation, Finding, ConsolidatedFinding, tool_value}
use gxassessms.Persistence.Store.{Store, CoverageRow}
use gxassessms.Persistence.Findings.{
  save_coverage, get_coverage, delete_coverage, save_parsed_findings, save_consolidated_findings,
  is_refused,
}
use gxassessms.Pipeline.Stages.{Stage, collect, parse, normalize, consolidate, review, render}
use gxassessms.Pipeline.Collaborators
use gxassessms.Pipeline.Collaborators.{
  Collaborators, ToolAdapter, SeverityMap, TextMap, or_empty, severity_map_for, category_map_for,
  merge_dedup_keys, adapter_for, collect_coverage, filter_renderers, ReportRenderer, render_all,
}
use gxassessms.Pipeline.Handlers.{
  StageContext, dispatch, save_if_any, normalize_groups, run_collect, run_parse, run_normalize,
  run_consolidate, run_qa_review, run_render,
}

-- an adapter that reads and reports whatever it is given
pub record IsWillingAdapter {RawOutput : Type 0} (a : ToolAdapter RawOutput) : Type 0 where
  pub accepts : (raw : RawOutput) → a.validate_raw raw ≡ ok tt
  pub parses : (raw : RawOutput) → (obs : List ToolObservation) × (a.parse raw ≡ ok obs)
  pub covers : (raw : RawOutput) → (rows : List CoverageRow) × (a.coverage raw ≡ ok rows)

-- plugins that succeed on whatever they are given, and a file system that serves the handlers, with no
-- review that waits for an operator; the merged findings of the engagement have identities that fit into
-- these rows of the table
pub record IsWilling (c : Collaborators) (id : String) (rows : List (String × ConsolidatedFinding))
    : Type 0 where
  pub adapters : All IsWillingAdapter c.adapters
  pub collects : (results : List c.CollectionResult) × (c.collect ≡ ok results)
  pub saves :
      (results : List c.CollectionResult)
      → (manifests : List c.LoadedManifest) × (c.save_raw_outputs results ≡ ok manifests)
  pub confines :
      (manifests : List c.LoadedManifest)
      → (raws : List c.RawOutput) × (c.confine_and_resolve manifests ≡ ok raws)
  pub normalizes :
      (obs : List ToolObservation) (severities : SeverityMap) (cats keys : TextMap)
      → (fs : List Finding) × (c.normalize obs severities cats keys ≡ ok fs)
  pub consolidates :
      (fs : List Finding)
      → (merged : List ConsolidatedFinding) × (c.consolidate fs ≡ ok merged)
        × (is_refused id rows merged ≡ false)
  pub finds_dir : c.get_engagement_dir ≡ ok tt
  pub makes_dir : c.secure_mkdir ≡ ok tt
  pub looks_at_dir : c.warn_broad_permissions ≡ ok tt
  pub builds :
      (merged : List ConsolidatedFinding) (coverage : List CoverageRow)
      → c.build_report_payload merged coverage ≡ ok tt
  pub reviews :
      (merged : List ConsolidatedFinding)
      → (results : List c.QaResult) × (c.review_findings merged ≡ ok results)
  pub noop : c.is_noop ≡ true
  pub selected : List ReportRenderer
  pub selects : filter_renderers c.report_formats c.report_theme c.renderers ≡ ok selected
  pub renders :
      (merged : List ConsolidatedFinding) (coverage : List CoverageRow)
      → render_all merged coverage selected ≡ ok tt

abbrev IsWillingIfFound : {RawOutput : Type 0} → Option (ToolAdapter RawOutput) → Type 0
IsWillingIfFound none = Unit
IsWillingIfFound (some a) = IsWillingAdapter a

module _ {RawOutput : Type 0} (tool_slug : RawOutput → String) where
  found_or_this :
      (b : ToolAdapter RawOutput) (test : Bool) (later : Option (ToolAdapter RawOutput))
      → IsWillingAdapter b
      → IsWillingIfFound later
      → IsWillingIfFound
          (elim later [ some later ↦ some later | none ↦ if test then some b else none ])
  found_or_this b test (some later) w h = h
  found_or_this b true none w h = w
  found_or_this b false none w h = tt

  adapter_for-IsWillingIfFound :
      (slug : String) (as' : List (ToolAdapter RawOutput))
      → All IsWillingAdapter as'
      → IsWillingIfFound (adapter_for tool_slug slug as')
  unfolding adapter_for
  adapter_for-IsWillingIfFound slug [] w = tt
  adapter_for-IsWillingIfFound slug (b ∷ bs) w =
      found_or_this b (str_eq b.storage_slug slug) (adapter_for tool_slug slug bs) w.0
        (adapter_for-IsWillingIfFound slug bs w.1)

  parse_with-ok :
      (raw : RawOutput) (found : Option (ToolAdapter RawOutput))
      → IsWillingIfFound found
      → (obs : List ToolObservation) × (Collaborators.parse_with tool_slug found raw ≡ ok obs)
  parse_with-ok raw none w = ([], refl)
  parse_with-ok raw (some a) w = let (obs, e) = w.parses raw in (obs, rw (w.accepts raw) e)

  coverage_with-ok :
      (raw : RawOutput) (found : Option (ToolAdapter RawOutput))
      → IsWillingIfFound found
      → (rows : List CoverageRow) × (Collaborators.coverage_with tool_slug found raw ≡ ok rows)
  coverage_with-ok raw none w = ([], refl)
  coverage_with-ok raw (some a) w = by_capability (contains str_eq "coverage_export" a.capabilities)
    where
      by_capability :
          (b : Bool) → (rows : List CoverageRow) × ((if b then a.coverage raw else ok []) ≡ ok rows)
      by_capability true = w.covers raw
      by_capability false = ([], refl)

  parse-ok :
      (raws : List RawOutput) (as' : List (ToolAdapter RawOutput))
      → All IsWillingAdapter as'
      → (obs : List ToolObservation) × (Collaborators.parse tool_slug raws as' ≡ ok obs)
  unfolding Collaborators.parse
  parse-ok [] as' w = ([], refl)
  parse-ok (raw ∷ raws) as' w =
      let (obs, e) =
        parse_with-ok raw (adapter_for tool_slug (tool_slug raw) as')
          (adapter_for-IsWillingIfFound (tool_slug raw) as' w) in
      let (rest, e') = parse-ok raws as' w in (obs ++ rest, rw (e, e') refl)

  collect_coverage-ok :
      (raws : List RawOutput) (as' : List (ToolAdapter RawOutput))
      → All IsWillingAdapter as'
      → (rows : List CoverageRow) × (collect_coverage tool_slug raws as' ≡ ok rows)
  unfolding collect_coverage
  collect_coverage-ok [] as' w = ([], refl)
  collect_coverage-ok (raw ∷ raws) as' w =
      let (rows, e) =
        coverage_with-ok raw (adapter_for tool_slug (tool_slug raw) as')
          (adapter_for-IsWillingIfFound (tool_slug raw) as' w) in
      let (rest, e') = collect_coverage-ok raws as' w in (rows ++ rest, rw (e, e') refl)

-- the report's directory, by a caller or below the engagement's
report_dir-ok :
    (c : Collaborators)
    → c.get_engagement_dir ≡ ok tt
    → (if c.has_output_dir then ok tt else c.get_engagement_dir) ≡ ok tt
report_dir-ok c h = by_test c.has_output_dir
  where
    by_test : (b : Bool) → (if b then ok tt else c.get_engagement_dir) ≡ ok tt
    by_test true = refl
    by_test false = h

module _ (c : Collaborators) (id : String) (rows : List (String × ConsolidatedFinding))
    (w : IsWilling c id rows) where
  normalize_groups-ok :
      (groups : List (String × List ToolObservation))
      → (fs : List Finding) × (normalize_groups c id groups ≡ ok fs)
  unfolding normalize_groups
  normalize_groups-ok [] = ([], refl)
  normalize_groups-ok ((tool, obs) ∷ groups) =
      let (fs, e) =
        w.normalizes obs (or_empty (severity_map_for tool c.adapters))
          (or_empty (category_map_for tool c.adapters)) (merge_dedup_keys [] c.adapters) in
      let (rest, e') = normalize_groups-ok groups in (fs ++ rest, rw (e, e') refl)

  save_if_any-ok : (rows : List CoverageRow) (s : Store) → (save_if_any c id rows s).0 ≡ ok tt
  unfolding save_coverage
  save_if_any-ok [] s = refl
  save_if_any-ok (r ∷ rs) s = refl

  -- what a stage needs in memory
  abbrev pub Ready : Stage → StageContext c → Type 0
  Ready collect ctx = Unit
  Ready parse ctx = (ms : List c.LoadedManifest) × (ctx.loaded_manifests ≡ some ms)
  Ready normalize ctx = (obs : List ToolObservation) × (ctx.observations ≡ some obs)
  Ready consolidate ctx = (fs : List Finding) × (ctx.findings ≡ some fs)
  Ready review ctx = (merged : List ConsolidatedFinding) × (ctx.consolidated_findings ≡ some merged)
  Ready render ctx = (merged : List ConsolidatedFinding) × (ctx.consolidated_findings ≡ some merged)

  -- the table of consolidated findings is still the one that it was, in front of a stage and behind it
  abbrev pub Fits : Stage → List (String × ConsolidatedFinding) → Type 0
  Fits review table = Unit
  Fits render table = Unit
  Fits stage table = table ≡ rows

  abbrev pub Left : Stage → List (String × ConsolidatedFinding) → Type 0
  Left collect table = table ≡ rows
  Left parse table = table ≡ rows
  Left normalize table = table ≡ rows
  Left stage table = Unit

  HasTable : Store → Type 0
  HasTable s = s.consolidated_findings ≡ rows

  parsed-HasTable : (fs : List Finding) → Keeps HasTable (save_parsed_findings id fs)
  unfolding HasTable save_parsed_findings
  parsed-HasTable fs = record { behind = λ s h. h }

  deleted-HasTable : Keeps HasTable (delete_coverage id)
  unfolding HasTable delete_coverage
  deleted-HasTable = record { behind = λ s h. h }

  saved-HasTable : (rs : List CoverageRow) → Keeps HasTable (save_if_any c id rs)
  unfolding HasTable save_coverage
  saved-HasTable [] = record { behind = λ s h. h }
  saved-HasTable (r ∷ rs) = record { behind = λ s h. h }

  ruleset table_rules = (
    Keeps-pure, Keeps-raise, Keeps-lift, Keeps-gets, Keeps-read, Keeps-if, Keeps-bind,
    parsed-HasTable, deleted-HasTable, saved-HasTable,
  )

  -- a stage in front of the consolidation leaves the table as it is
  pub table-Left :
      (stage : Stage) (ctx : StageContext c) (s : Store)
      → Fits stage s.consolidated_findings
      → Left stage (dispatch c id stage ctx s).1.consolidated_findings
  unfolding dispatch HasTable
  table-Left collect ctx s h =
      let k : Keeps HasTable (run_collect c id ctx) = search table_rules depth 12 in k.behind s h
  table-Left parse ctx s h =
      let k : Keeps HasTable (run_parse c id ctx) = search table_rules depth 14 in k.behind s h
  table-Left normalize ctx s h =
      let k : Keeps HasTable (run_normalize c id ctx) = search table_rules depth 12 in k.behind s h
  table-Left consolidate ctx s h = tt
  table-Left review ctx s h = tt
  table-Left render ctx s h = tt

  -- and what it leaves there for the next
  abbrev pub Done : Stage → StageContext c → Type 0
  Done collect ctx = Ready parse ctx
  Done parse ctx = Ready normalize ctx
  Done normalize ctx = Ready consolidate ctx
  Done consolidate ctx = Ready review ctx
  Done review ctx = Ready render ctx
  Done render ctx = Unit

  pub dispatch-Done :
      (stage : Stage) (ctx : StageContext c) (s : Store)
      → Ready stage ctx
      → Fits stage s.consolidated_findings
      → (ctx' : StageContext c) × ((dispatch c id stage ctx s).0 ≡ ok ctx') × Done stage ctx'
  unfolding dispatch run_collect run_parse run_normalize run_consolidate run_qa_review run_render
      delete_coverage parse-ok save_parsed_findings save_consolidated_findings
  dispatch-Done collect ctx s ready fits =
      let (results, e) = w.collects in
      let (manifests, e') = w.saves results in
      (
        record ctx { collection_results = some results; loaded_manifests = some manifests },
        rw (e, e') refl,
        (manifests, refl),
      )
  dispatch-Done parse ctx s (ms, here) fits =
      let (raws, e) = w.confines ms in
      let (obs, e') = parse-ok c.tool_slug raws c.adapters w.adapters in
      let (rows, e'') = collect_coverage-ok c.tool_slug raws c.adapters w.adapters in
      (
        record ctx { observations = some obs },
        rw (here, w.finds_dir, e, e', e'', save_if_any-ok rows (delete_coverage id s).1) refl,
        (obs, refl),
      )
  dispatch-Done normalize ctx s (obs, here) fits =
      let (fs, e) = normalize_groups-ok (group_by str_eq (λ o. tool_value o.tool) obs []) in
      (record ctx { findings = some fs }, rw (here, e) refl, (fs, refl))
  dispatch-Done consolidate ctx s (fs, here) fits =
      let (merged, e, taken) = w.consolidates fs in
      let taken' = subst (λ t. is_refused id t merged ≡ false) (sym fits) taken in
      (
        record ctx { consolidated_findings = some merged },
        rw (here, e, taken') refl,
        (merged, refl),
      )
  dispatch-Done review ctx s (merged, here) fits =
      let (results, e) = w.reviews merged in
      (record ctx { qa_results = some results }, rw (here, e) refl, (merged, here))
  dispatch-Done render ctx s (merged, here) fits = (
    ctx,
    rw
        (
          here,
          w.selects,
          report_dir-ok c w.finds_dir,
          w.makes_dir,
          w.looks_at_dir,
          w.builds merged (get_coverage s id),
          w.renders merged (get_coverage s id),
        )
        refl,
    tt,
  )
