-- ===== src/Examples/Completing.antt =====
-- The theorem on a run whose plugins succeed, at plugins that find nothing.
use gxassessms.Base.{◌≡◌, refl, true, false, none, [], ◌∷◌, lookup, contains, codes, str_eq}
use gxassessms.Errors.{ok}
use gxassessms.Domain.Lifecycle.{created, complete, state_value}
use gxassessms.Pipeline.Stages
use gxassessms.Pipeline.State.{matches_id_pattern, id_rest, is_id_char}
use gxassessms.Pipeline.Collaborators.{
  Collaborators, ReportRenderer, filter_renderers, matching_renderers, render_all,
}
use gxassessms.Pipeline.Runner.{run_stages}
use gxassessms.Pipeline.Runner.Succeeding.{IsWilling}
use gxassessms.Pipeline.Runner.Completing.{At, run_stages-At}
use gxassessms.Persistence.Findings.{collides}
use gxassessms.Examples.{fresh, new_row, unreachable}

abbrev page : ReportRenderer
page = record { format = "html"; theme = ""; render = λ findings coverage. ok tt }

abbrev reachable : Collaborators
reachable = record unreachable {
  collect = ok [];
  is_noop = true;
  renderers = page ∷ [];
  report_formats = "html" ∷ [];
}

willing : IsWilling reachable "e1" []
unfolding collides filter_renderers matching_renderers contains render_all
willing = record {
  adapters = tt;
  collects = ([], refl);
  saves = λ results. ([], refl);
  confines = λ manifests. ([], refl);
  normalizes = λ obs severities cats keys. ([], refl);
  consolidates = λ fs. ([], refl, refl);
  finds_dir = refl;
  makes_dir = refl;
  looks_at_dir = refl;
  builds = λ merged coverage. refl;
  reviews = λ merged. ([], refl);
  noop = refl;
  selected = page ∷ [];
  selects = refl;
  renders = λ merged coverage. refl;
}

beginning : At reachable "e1" [] willing created fresh
unfolding lookup state_value
beginning = (new_row, refl, refl)

free : contains str_eq "e1" fresh.held ≡ false
unfolding contains
free = refl

valid : matches_id_pattern (codes "e1") ≡ true
unfolding matches_id_pattern id_rest is_id_char
valid = refl

free_elsewhere : contains str_eq "e1" fresh.held_elsewhere ≡ false
unfolding contains
free_elsewhere = refl

run_stages-At_example :
    let (r, s) = run_stages reachable "e1" Stages.collect none fresh in
    (r ≡ ok tt) × At reachable "e1" [] willing complete s
run_stages-At_example =
    run_stages-At reachable "e1" [] willing fresh beginning refl free valid free_elsewhere
