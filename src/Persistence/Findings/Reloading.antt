-- ===== src/Persistence/Findings/Reloading.antt =====
-- What is loaded behind a save of an engagement's findings.
use mathlib.Core.List.{Perm}
use gxassessms.Base.{
  String, ◌≡◌, refl, ap, true, not, none, some, List, [], ◌∷◌, ◌++◌, ◌&&◌, arith, any, map, select,
  select-append, str_eq, eq_refl, sort_by-perm,
}
use gxassessms.Domain.Findings.{Finding, ConsolidatedFinding, tool_value}
use gxassessms.Errors.{Result, ok, err}
use gxassessms.Persistence.Store.{Store}
use gxassessms.Persistence.Findings.{
  belongs, owned_by, survives, row_le, save_parsed_findings, get_parsed_as_findings, existing_id,
  kept_id, is_refused, get_consolidated_as_findings,
}

-- the findings of an engagement that were added by hand
abbrev pub manual_of : String → List (String × Finding) → List Finding
manual_of id rows =
    map (λ r. r.1) (select (λ r. str_eq r.0 id && str_eq (tool_value r.1.tool) "Manual") rows)

own_rows :
    {A : Type 0} (id : String) (xs : List A)
    → map (λ r. r.1) (select (belongs id) (owned_by id xs)) ≡ xs
own_rows id [] = refl
own_rows id (x ∷ xs) = rw (eq_refl id) (ap (λ t. x ∷ t) (own_rows id xs))

survivors :
    (id : String) (rows : List (String × Finding))
    → map (λ r. r.1) (select (belongs id) (select (survives id) rows)) ≡ manual_of id rows
survivors id [] = refl
survivors id ((owner, f) ∷ rows) = ground (arith, survivors id rows)

map-append : {A B : Type 0} (f : A → B) (xs ys : List A) → map f (xs ++ ys) ≡ map f xs ++ map f ys
map-append f [] ys = refl
map-append f (x ∷ xs) ys = ap (λ t. f x ∷ t) (map-append f xs ys)

-- Behind a save of parsed findings, the engagement's findings are, in some order, the ones saved and
-- the ones that were added by hand before.
pub save_parsed_findings_lem :
    (id : String) (fs : List Finding) (s : Store)
    → Perm
        (get_parsed_as_findings (save_parsed_findings id fs s).1 id)
        (manual_of id s.findings ++ fs)
unfolding save_parsed_findings get_parsed_as_findings
save_parsed_findings_lem id fs s =
    rw
      (
        select-append (belongs id) (select (survives id) s.findings) (owned_by id fs),
        map-append (λ r. r.1) (select (belongs id) (select (survives id) s.findings))
            (select (belongs id) (owned_by id fs)),
        survivors id s.findings,
        own_rows id fs,
      )
      (sort_by-perm row_le (manual_of id s.findings ++ fs))

-- the identity of a finding that has none in the table stays its own
abbrev pub kept :
    String → List (String × ConsolidatedFinding) → ConsolidatedFinding → ConsolidatedFinding
kept id rows f = kept_id (existing_id id f.finding_key rows) f

existing_id-others :
    (id key : String) (rows : List (String × ConsolidatedFinding))
    → existing_id id key (select (λ r. not (belongs id r)) rows) ≡ none
unfolding existing_id
existing_id-others id key [] = refl
existing_id-others id key ((owner, f) ∷ rows) = ground (arith, existing_id-others id key rows)

-- what a save of consolidated findings leaves
abbrev pub Saved : String → List ConsolidatedFinding → Store → Result (Unit {0}) × Store → Type 0
Saved id fs s (ok _, s') =
    Perm (get_consolidated_as_findings s' id) (map (kept id s.consolidated_findings) fs)
    × ((key old : String)
        → existing_id id key s.consolidated_findings ≡ some old
        → any (λ f. str_eq f.finding_key key) fs ≡ true
        → existing_id id key s'.consolidated_findings ≡ some old)
Saved id fs s (err e, s') = (s' ≡ s) × (is_refused id s.consolidated_findings fs ≡ true)
