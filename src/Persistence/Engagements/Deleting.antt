-- ===== src/Persistence/Engagements/Deleting.antt =====
-- persistence/engagement_repo.py: what a deletion takes and what it leaves.
use gxassessms.Base.{
  String, ◌≡◌, ◌≢◌, refl, Bool, true, false, not, Option, none, some, List, [], ◌∷◌, select, any,
  arith, eq_iff, inl, inr, Bool-cases,
}
use gxassessms.Errors.{Result, ok, err, persistence_error}
use gxassessms.Exec.{◌>>=◌}
use gxassessms.Persistence.Store.{Store, EngagementRow, EventRow}
use gxassessms.Persistence.Engagements.{find_row, or_not_found}
use gxassessms.Persistence.Engagements.Administration.{
  delete, delete_rows, event_belongs, without, in_transaction,
}
use gxassessms.Persistence.Findings.{belongs}

select-not : {A : Type 0} (p : A → Bool) (xs : List A) → select p (select (λ x. not (p x)) xs) ≡ []
select-not p [] = refl
select-not p (x ∷ xs) = ground (arith, select-not p xs)

select-other :
    {A : Type 0} (p q : A → Bool) (xs : List A)
    → ((x : A) → q x ≡ true → p x ≡ false)
    → select q (select (λ x. not (p x)) xs) ≡ select q xs
select-other p q [] apart = refl
select-other p q (x ∷ xs) apart = elim (Bool-cases (q x)) [
  | inl own ↦ rw (apart x own, own, select-other p q xs apart) refl
  | inr other ↦ ground (arith, select-other p q xs apart)
]

-- the rows of one engagement in all tables
abbrev pub SameRows : String → Store → Store → Type 0
SameRows id s s' =
    (select (belongs id) s'.engagements ≡ select (belongs id) s.engagements)
    × (select (event_belongs id) s'.events ≡ select (event_belongs id) s.events)
    × (select (belongs id) s'.findings ≡ select (belongs id) s.findings)
    × (select (belongs id) s'.consolidated_findings ≡ select (belongs id) s.consolidated_findings)
    × (select (belongs id) s'.coverage_records ≡ select (belongs id) s.coverage_records)
    × (select (belongs id) s'.overrides ≡ select (belongs id) s.overrides)
    × (select (belongs id) s'.stage_history ≡ select (belongs id) s.stage_history)
    × (select (belongs id) s'.longitudinal_snapshots ≡ select (belongs id) s.longitudinal_snapshots)
    × (select (belongs id) s'.tool_run_results ≡ select (belongs id) s.tool_run_results)

abbrev pub NoRows : String → Store → Type 0
NoRows id s =
    (select (belongs id) s.engagements ≡ [])
    × (select (event_belongs id) s.events ≡ [])
    × (select (belongs id) s.findings ≡ [])
    × (select (belongs id) s.consolidated_findings ≡ [])
    × (select (belongs id) s.coverage_records ≡ [])
    × (select (belongs id) s.overrides ≡ [])
    × (select (belongs id) s.stage_history ≡ [])
    × (select (belongs id) s.longitudinal_snapshots ≡ [])
    × (select (belongs id) s.tool_run_results ≡ [])

other_row :
    {A : Type 0} (id other : String)
    → other ≢ id
    → (r : String × A) → belongs other r ≡ true
    → belongs id r ≡ false
other_row id other different (owner, a) own = ground (arith, eq_iff owner other, eq_iff owner id)

other_event :
    (id other : String)
    → other ≢ id
    → (e : EventRow) → event_belongs other e ≡ true
    → event_belongs id e ≡ false
other_event id other different e own =
    ground (arith, eq_iff e.engagement_id other, eq_iff e.engagement_id id)

-- the store without the rows of an engagement
abbrev cleared : String → Store → Store
cleared id s = record s {
  events = select (λ e. not (event_belongs id e)) s.events;
  overrides = without id s.overrides;
  stage_history = without id s.stage_history;
  longitudinal_snapshots = without id s.longitudinal_snapshots;
  coverage_records = without id s.coverage_records;
  tool_run_results = without id s.tool_run_results;
  consolidated_findings = without id s.consolidated_findings;
  findings = without id s.findings;
  engagements = without id s.engagements;
}

any-select-not :
    {A : Type 0} (p : A → Bool) (xs : List A) → any p (select (λ x. not (p x)) xs) ≡ false
unfolding any
any-select-not p [] = refl
any-select-not p (x ∷ xs) = ground (arith, any-select-not p xs)

-- no foreign key is in the way
delete_rows-cleared : (id : String) (s : Store) → delete_rows id s ≡ (ok tt, cleared id s)
delete_rows-cleared id s =
    rw
      (
        any-select-not (event_belongs id) s.events,
        any-select-not (belongs id) s.overrides,
        any-select-not (belongs id) s.stage_history,
        any-select-not (belongs id) s.longitudinal_snapshots,
        any-select-not (belongs id) s.coverage_records,
        any-select-not (belongs id) s.tool_run_results,
        any-select-not (belongs id) s.consolidated_findings,
        any-select-not (belongs id) s.findings,
      )
      refl

cleared-NoRows : (id : String) (s : Store) → NoRows id (cleared id s)
cleared-NoRows id s = (
  select-not (belongs id) s.engagements,
  select-not (event_belongs id) s.events,
  select-not (belongs id) s.findings,
  select-not (belongs id) s.consolidated_findings,
  select-not (belongs id) s.coverage_records,
  select-not (belongs id) s.overrides,
  select-not (belongs id) s.stage_history,
  select-not (belongs id) s.longitudinal_snapshots,
  select-not (belongs id) s.tool_run_results,
)

cleared-SameRows : (id other : String) (s : Store) → other ≢ id → SameRows other s (cleared id s)
cleared-SameRows id other s different = (
  select-other (belongs id) (belongs other) s.engagements (other_row id other different),
  select-other (event_belongs id) (event_belongs other) s.events (other_event id other different),
  select-other (belongs id) (belongs other) s.findings (other_row id other different),
  select-other (belongs id) (belongs other) s.consolidated_findings (other_row id other different),
  select-other (belongs id) (belongs other) s.coverage_records (other_row id other different),
  select-other (belongs id) (belongs other) s.overrides (other_row id other different),
  select-other (belongs id) (belongs other) s.stage_history (other_row id other different),
  select-other (belongs id) (belongs other) s.longitudinal_snapshots (other_row id other different),
  select-other (belongs id) (belongs other) s.tool_run_results (other_row id other different),
)

-- what a deletion leaves: it returns with no row of the engagement in any table and every row of another
-- one in its place, or raises PersistenceError with the store as it was
abbrev pub Deleted : String → String → Store → Result (Unit {0}) × Store → Type 0
Deleted id other s (ok _, s') = NoRows id s' × SameRows other s s'
Deleted id other s (err e, s') = (e ≡ persistence_error) × (find_row s id ≡ none) × (s' ≡ s)

-- `delete` returns with no row of the engagement in any table and the rows of every other engagement
-- unchanged, or raises PersistenceError with nothing changed, where the engagement does not exist.
pub delete-Deleted : (id other : String) (s : Store) → other ≢ id → Deleted id other s (delete id s)
unfolding delete
delete-Deleted id other s different = by_row (find_row s id) refl
  where
    by_row :
        (found : Option EngagementRow)
        → find_row s id ≡ found
        → Deleted id other s ((or_not_found found >>= λ _. in_transaction (delete_rows id)) s)
    by_row none e = (refl, e, refl)
    by_row (some row) e =
        rw (delete_rows-cleared id s) (cleared-NoRows id s, cleared-SameRows id other s different)
