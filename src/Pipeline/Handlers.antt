-- ===== src/Pipeline/Handlers.antt =====
-- pipeline/_runner.py: the context of a run, the handlers of the stages and their dispatch.
use gxassessms.Base.{
  String, Option, none, some, List, [], ◌∷◌, ◌++◌, str_eq, group_by, add_to_group, if◌then◌else◌,
}
use gxassessms.Exec.{Exec, pure, lift, gets, ◌>>=◌, ◌>>◌}
use gxassessms.Errors
use gxassessms.Errors.{
  Error, Result, ok, err, is_gx_assess_error, config_error, adapter_error, consolidation_error,
  qa_error, report_error, persistence_error, lock_timeout_error, invalid_transition_error,
  pipeline_error, runtime_error, os_error, value_error, type_error, attribute_error, import_error,
  other_error,
}
use gxassessms.Domain.Findings.{ToolObservation, Finding, ConsolidatedFinding, tool_value}
use gxassessms.Persistence.Store.{Store, CoverageRow}
use gxassessms.Persistence.Findings.{
  save_parsed_findings, save_consolidated_findings, delete_coverage, save_coverage, get_coverage,
}
use gxassessms.Pipeline.Stages.{
  Stage, collect, parse, normalize, consolidate, review, render, stage_value,
}
use gxassessms.Pipeline.Collaborators
use gxassessms.Pipeline.Collaborators.{
  Collaborators, ToolAdapter, merge_dedup_keys, severity_map_for, category_map_for, or_empty,
  filter_renderers, render_all, collect_coverage,
}

module _ (c : Collaborators) where
  open c use {CollectionResult, LoadedManifest, QaResult}

  pub record StageContext : Type 0 where
    pub collection_results : Option (List CollectionResult)
    pub loaded_manifests : Option (List LoadedManifest)
    pub observations : Option (List ToolObservation)
    pub findings : Option (List Finding)
    pub consolidated_findings : Option (List ConsolidatedFinding)
    pub qa_results : Option (List QaResult)

  abbrev pub empty_context : StageContext
  empty_context = record {
    collection_results = none;
    loaded_manifests = none;
    observations = none;
    findings = none;
    consolidated_findings = none;
    qa_results = none;
  }

-- _require_in_memory, and the assertion behind it
abbrev pub require_in_memory : {A : Type 0} → Option A → Stage → Result A
require_in_memory none stage = err (pipeline_error (stage_value stage))
require_in_memory (some a) stage = ok a

module _ (c : Collaborators) (id : String) where
  abbrev Context : Type 0
  Context = StageContext c

  unfoldable pub run_collect : Context → Exec Store Context
  run_collect ctx = do
    results ← lift c.collect
    manifests ← lift (c.save_raw_outputs results)
    pure (record ctx { collection_results = some results; loaded_manifests = some manifests })

  -- `if coverage_records: save(...)`
  abbrev pub save_if_any : List CoverageRow → Exec Store (Unit {0})
  save_if_any [] = pure tt
  save_if_any (r ∷ rs) = save_coverage id (r ∷ rs)

  unfoldable pub run_parse : Context → Exec Store Context
  run_parse ctx = do
    manifests ← lift (require_in_memory ctx.loaded_manifests parse)
    lift c.get_engagement_dir
    resolved ← lift (c.confine_and_resolve manifests)
    observations ← lift (Collaborators.parse c.tool_slug resolved c.adapters)
    covered ← lift (collect_coverage c.tool_slug resolved c.adapters)
    delete_coverage id
    save_if_any covered
    pure (record ctx { observations = some observations })

  unfoldable pub normalize_groups : List (String × List ToolObservation) → Result (List Finding)
  normalize_groups [] = ok []
  normalize_groups ((tool, obs) ∷ groups) =
      Errors.◌>>=◌
        (c.normalize obs (or_empty (severity_map_for tool c.adapters))
          (or_empty (category_map_for tool c.adapters)) (merge_dedup_keys [] c.adapters))
        λ fs. Errors.◌>>=◌ (normalize_groups groups) λ rest. ok (fs ++ rest)

  unfoldable pub run_normalize : Context → Exec Store Context
  unfolding normalize_groups group_by add_to_group
  run_normalize ctx = do
    observations ← lift (require_in_memory ctx.observations normalize)
    fs ← lift (normalize_groups (group_by str_eq (λ o. tool_value o.tool) observations []))
    save_parsed_findings id fs
    pure (record ctx { findings = some fs })

  unfoldable pub run_consolidate : Context → Exec Store Context
  run_consolidate ctx = do
    fs ← lift (require_in_memory ctx.findings consolidate)
    merged ← lift (c.consolidate fs)
    save_consolidated_findings id merged
    pure (record ctx { consolidated_findings = some merged })

  unfoldable pub run_qa_review : Context → Exec Store Context
  run_qa_review ctx = do
    merged ← lift (require_in_memory ctx.consolidated_findings review)
    results ← lift (c.review_findings merged)
    pure (record ctx { qa_results = some results })

  unfoldable pub run_render : Context → Exec Store Context
  run_render ctx = do
    merged ← lift (require_in_memory ctx.consolidated_findings render)
    selected ← lift (filter_renderers c.report_formats c.report_theme c.renderers)
    lift (if c.has_output_dir then ok tt else c.get_engagement_dir)
    lift c.secure_mkdir
    lift c.warn_broad_permissions
    coverage ← gets (λ s. get_coverage s id)
    lift (c.build_report_payload merged coverage)
    lift (render_all merged coverage selected)
    pure ctx

  -- dispatch[stage]()
  unfoldable pub dispatch : Stage → Context → Exec Store Context
  unfolding run_collect run_parse run_normalize run_consolidate run_qa_review run_render
  dispatch collect ctx = run_collect ctx
  dispatch parse ctx = run_parse ctx
  dispatch normalize ctx = run_normalize ctx
  dispatch consolidate ctx = run_consolidate ctx
  dispatch review ctx = run_qa_review ctx
  dispatch render ctx = run_render ctx

  -- _compute_content_hash(_get_stage_output(stage, ctx))
  unfoldable pub stage_hash : Stage → Context → String
  stage_hash collect ctx = c.hash_collected (or_empty ctx.collection_results)
  stage_hash parse ctx = c.hash_observations (or_empty ctx.observations)
  stage_hash normalize ctx = c.hash_findings (or_empty ctx.findings)
  stage_hash consolidate ctx = c.hash_consolidated (or_empty ctx.consolidated_findings)
  stage_hash review ctx = c.hash_review (or_empty ctx.qa_results)
  stage_hash render ctx = c.hash_nothing
