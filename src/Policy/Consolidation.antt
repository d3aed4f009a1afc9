-- ===== src/Policy/Consolidation.antt =====
-- policy/consolidation.py: how a group of findings becomes one; its confidence is in the child Confidence. Each function here
-- takes the group's first finding apart, since an empty group is refused before.
pub mod Reconciled
pub mod Confidence
use Prim.Native.String
use gxassessms.Base.{
  ℕ, suc, String, Bool, true, false, not, Option, none, some, List, [], ◌∷◌, ◌++◌, ◌&&◌, ◌||◌, ◌==◌,
  ltb, length, str_eq, if◌then◌else◌, contains, map, pick, sort_by,
}
use gxassessms.Errors.{Result, ok, err, value_error}
use gxassessms.Domain.Enums.{
  Severity, FindingStatus, Category, severity_order, status_value, category_name,
}
use gxassessms.Domain.Findings.{Finding, SourceEvidence, tool_value}
use gxassessms.Persistence.Findings.{text_le}

-- a < b, by code points
abbrev pub text_lt : String → String → Bool
text_lt a b = not (text_le b a)

abbrev pub severer : Severity → Severity → Bool
severer a b = ltb (severity_order b) (severity_order a)

-- _reconcile_severity
unfoldable pub reconcile_severity : Finding → List Finding → Severity
unfolding pick
reconcile_severity f fs = pick severer f.severity (map (λ g. g.severity) fs)

-- priority_map[s]: of a text that occurs twice the later place
unfoldable pub priority_from : ℕ → String → List String → Option ℕ
priority_from i s [] = none
priority_from i s (t ∷ ts) = elim (priority_from (suc i) s ts) [
  | some later ↦ some later
  | none ↦ if str_eq t s then some i else none
]

-- priority_map.get(s.value, len(status_priority))
unfoldable pub priority_of : List String → FindingStatus → ℕ
unfolding priority_from
priority_of order s = elim (priority_from 0 (status_value s) order) [
  | none ↦ length order
  | some i ↦ i
]

abbrev pub default_priority : List String
default_priority = "FAIL" ∷ "ERROR" ∷ "WARNING" ∷ "MANUAL" ∷ "PASS" ∷ "N/A" ∷ []

-- the smaller key: the priority, and then the text
unfoldable pub prior : List String → FindingStatus → FindingStatus → Bool
prior order a b =
    ltb (priority_of order a) (priority_of order b)
    || priority_of order a == priority_of order b && text_lt (status_value a) (status_value b)

abbrev pub status_among : List String → Finding → List Finding → Result FindingStatus
status_among [] f fs = err value_error
status_among (s ∷ order) f fs = ok (pick (prior (s ∷ order)) f.status (map (λ g. g.status) fs))

abbrev pub priority_list : Option (List String) → List String
priority_list none = default_priority
priority_list (some order) = order

-- _reconcile_status, for the rules' merge_strategy.status_priority
unfoldable pub reconcile_status :
    Option (List String) → Finding → List Finding → Result FindingStatus
unfolding pick
reconcile_status order f fs = status_among (priority_list order) f fs

-- the greater key: the severity, the tool's text and the check's id
unfoldable pub titled_better : Finding → Finding → Bool
titled_better a b =
    severer a.severity b.severity
    || severity_order a.severity == severity_order b.severity
      && (text_lt (tool_value b.tool) (tool_value a.tool)
          || str_eq (tool_value a.tool) (tool_value b.tool)
            && text_lt b.native_check_id a.native_check_id)

-- _reconcile_title
unfoldable pub reconcile_title : Finding → List Finding → String
unfolding pick titled_better
reconcile_title f fs = (pick titled_better f fs).title

unfoldable pub categorized_better : Finding → Finding → Bool
categorized_better a b =
    severer a.severity b.severity
    || severity_order a.severity == severity_order b.severity
      && text_lt (category_name b.category) (category_name a.category)

-- _reconcile_category
unfoldable pub reconcile_category : Finding → List Finding → Category
unfolding pick categorized_better
reconcile_category f fs = (pick categorized_better f fs).category

-- the texts that are not in `seen`, each once, in their order
unfoldable pub unseen : List String → List String → List String
unfolding contains
unseen seen [] = []
unseen seen (t ∷ ts) =
    let skipped = unseen seen ts in
    let taken = unseen (t ∷ seen) ts in if contains str_eq t seen then skipped else t ∷ taken

-- " | ".join(texts)
unfoldable pub join_bars : List String → String
join_bars [] = ""
join_bars (t ∷ ts) = elim ts [ [] ↦ t | u ∷ us ↦ String.◌++◌ t (String.◌++◌ " | " (join_bars ts)) ]

-- _reconcile_description
unfoldable pub reconcile_description : List Finding → String
unfolding unseen join_bars sort_by
reconcile_description fs =
    join_bars (sort_by (λ a b. text_le a b) (unseen [] (map (λ f. f.description) fs)))

-- _build_sources
unfoldable pub build_sources : List Finding → List SourceEvidence
build_sources fs =
    map (λ f. record { tool = f.tool; check_id = f.native_check_id; raw_data = f.raw_data }) fs

unfoldable pub all_refs : List Finding → List String
all_refs [] = []
all_refs (f ∷ fs) = f.benchmark_refs ++ all_refs fs

-- _merge_benchmark_refs
unfoldable pub merge_benchmark_refs : List Finding → List String
unfolding unseen all_refs
merge_benchmark_refs fs = unseen [] (all_refs fs)
