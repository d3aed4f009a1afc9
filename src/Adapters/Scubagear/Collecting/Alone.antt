-- ===== src/Adapters/Scubagear/Collecting/Alone.antt =====
-- adapters/scubagear/adapter.py: the one artifact that the collection and the ingestion give.
use gxassessms.Base.{
  ◌≡◌, refl, sym, ap, subst, ◌∙◌, arith, Bool-cases, inl, inr, String, Bool, true, false, not, some,
  List, [], ◌∷◌, ◌&&◌, contains, str_eq, eq_iff, select, if◌then◌else◌, sort_by, ℕ, codes,
  starts_with,
}
use gxassessms.Errors.{ok, value_error, >>=-ok, require->>-ok, ok_injective}
use gxassessms.Domain.Findings.{scubagear}
use gxassessms.Domain.PathValidation.{validate_canonical_posix_path}
use gxassessms.Persistence.Artifacts.Staging.{CollectedArtifact, CollectionOutput}
use gxassessms.Adapters.Outputs.{
  OutputFiles, as_unreadable, target_le, collect_item, collect_items, build_collection_output,
}
use gxassessms.Adapters.Outputs.Collected.{as_unreadable-ok}
use gxassessms.Adapters.Directories.{Directories}
use gxassessms.Adapters.Scubagear.{Texts, find_scuba_results_file, or_adapter_error, ends_with}
use gxassessms.Adapters.Scubagear.Covering.{or_adapter_error-ok}
use gxassessms.Adapters.Scubagear.Collecting.{output_of}
use Prim.Native.String

some_injective : {A : Type 0} {a b : A} → some a ≡ some b → a ≡ b
some_injective h = ground (arith, h)

pub not-true : {b : Bool} → not b ≡ true → b ≡ false
not-true h = ground (arith, h)

contains-select :
    (p : String → Bool) (x : String) (xs : List String)
    → contains str_eq x (select p xs) ≡ true
    → contains str_eq x xs ≡ true
unfolding contains
contains-select p x [] h = h
contains-select p x (y ∷ ys) h = ground (arith, h, contains-select p x ys)

contains-here : (x y : String) (ys : List String) → y ≡ x → contains str_eq x (y ∷ ys) ≡ true
unfolding contains
contains-here x y ys e = ground (arith, eq_iff y x, eq_iff x y, e, sym e)

contains-there :
    (x y : String) (ys : List String)
    → contains str_eq x ys ≡ true
    → contains str_eq x (y ∷ ys) ≡ true
unfolding contains
contains-there x y ys h = ground (arith, h)

module _ (texts : Texts) (files : OutputFiles) where
  -- the test of _find_scuba_results_file
  abbrev is_results_file : String → Bool
  is_results_file path =
      let name = texts.lower (texts.basename path) in
      starts_with (codes "scubaresults") (codes name) && ends_with ".json" name

  find_scuba_results_file-contains :
      (paths : List String) (path : String)
      → find_scuba_results_file texts paths ≡ some path
      → contains str_eq path paths ≡ true
  unfolding find_scuba_results_file
  find_scuba_results_file-contains [] path h = ground arith
  find_scuba_results_file-contains (x ∷ xs) path h =
      let at = λ (b : Bool) (e : is_results_file x ≡ b).
        subst (λ b. (if b then some x else find_scuba_results_file texts xs) ≡ some path) e h in
      elim (Bool-cases (is_results_file x)) [
        | inl e ↦ contains-here path x xs (some_injective (at true e))
        | inr e ↦ contains-there path x xs (find_scuba_results_file-contains xs path (at false e))
      ]

  -- one artifact, whose source is among the paths, under its own hash
  abbrev pub IsOneOf : List String → List CollectedArtifact → Type 0
  IsOneOf children artifacts =
      (a : CollectedArtifact) × (artifacts ≡ a ∷ [])
      × (contains str_eq a.source_path children ≡ true)
      × (files.sha256_file a.source_path ≡ ok a.sha256)

  collect_item-source :
      (path target : String) (a : CollectedArtifact)
      → collect_item files "scubagear" (path, target) ≡ ok a
      → (a.source_path ≡ path) × (files.sha256_file a.source_path ≡ ok a.sha256)
  unfolding collect_item
  collect_item-source path target a h =
      let (t1, canonical, h1) = >>=-ok (validate_canonical_posix_path (codes target)) _ h in
      let (below, h2) =
        require->>-ok (starts_with (codes (String.◌++◌ "scubagear" "/")) (codes target)) value_error
          _ h1 in
      let (sha, hashed, h3) = >>=-ok (as_unreadable (files.sha256_file path)) _ h2 in
      subst (λ x. (x.source_path ≡ path) × (files.sha256_file x.source_path ≡ ok x.sha256))
        (ok_injective h3) (refl, as_unreadable-ok _ hashed)

  build_collection_output-one :
      (path target schema_version : String) (timestamp : ℕ) (metadata : String)
      (output : CollectionOutput)
      → build_collection_output files scubagear "scubagear"
          ((path, target) ∷ [])
          schema_version
          timestamp
          metadata
        ≡ ok output
      → (a : CollectedArtifact) × (output.artifacts ≡ a ∷ [])
        × (a.source_path ≡ path)
        × (files.sha256_file a.source_path ≡ ok a.sha256)
  unfolding build_collection_output collect_items sort_by
  build_collection_output-one path target schema_version timestamp metadata output h =
      let (artifacts, collected, h1) =
        >>=-ok (collect_items files "scubagear" ((path, target) ∷ [])) _ h in
      let (a, one, h2) = >>=-ok (collect_item files "scubagear" (path, target)) _ collected in
      let (source, hashed) = collect_item-source path target a one in
      let sorted = ap (sort_by (target_le files)) (sym (ok_injective h2)) in
      (a, sym (ap (λ o. o.artifacts) (ok_injective h1)) ∙ sorted, source, hashed)

  pub output_of-IsOneOf :
      (dirs : Directories) (children : List String) (schema_version : String) (timestamp : ℕ)
      (metadata : String) (output : CollectionOutput)
      → output_of texts files dirs children schema_version timestamp metadata ≡ ok output
      → IsOneOf children output.artifacts
  unfolding output_of
  output_of-IsOneOf dirs children schema_version timestamp metadata output h =
      let json_files = select (λ f. str_eq (dirs.suffix f) ".json") children in
      let (path, found, h1) =
        >>=-ok (or_adapter_error (find_scuba_results_file texts json_files)) _ h in
      let (a, alone, source, hashed) =
        build_collection_output-one path _ schema_version timestamp metadata output h1 in
      let among = find_scuba_results_file-contains json_files path (or_adapter_error-ok _ found) in
      (
        a,
        alone,
        subst (λ s. contains str_eq s children ≡ true) (sym source)
            (contains-select _ path children among),
        hashed,
      )
