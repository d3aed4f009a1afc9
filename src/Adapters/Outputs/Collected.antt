-- ===== src/Adapters/Outputs/Collected.antt =====
-- adapters/_base.py: what a collection's result says of the files that it is made of.
use gxassessms.Base.{
  ◌≡◌, refl, ap, subst, ◌∙◌, arith, String, true, ◌||◌, List, [], ◌∷◌, map, codes, starts_with, All,
  sort_by, sort_by-perm, All-sort_by, sort_by-IsSorted, IsSorted, ℕ,
}
use gxassessms.Errors.{
  Result, ok, err, adapter_error, value_error, >>=-ok, require->>-ok, ok_injective,
}
use gxassessms.Domain.Findings.{ToolSource}
use gxassessms.Domain.PathValidation.{validate_canonical_posix_path}
use gxassessms.Persistence.Artifacts.Staging.{CollectedArtifact, CollectionOutput}
use gxassessms.Adapters.Outputs.{
  OutputFiles, as_unreadable, collect_item, collect_items, any_item, target_le,
  build_collection_output,
}
use mathlib.Core.List.{Perm}
use mathlib.Core.List.Perm
use Prim.Native.String

abbrev pub pair_of : CollectedArtifact → String × String
pair_of a = (a.source_path, a.target_relpath)

pub as_unreadable-ok : {A : Type 0} {a : A} (m : Result A) → as_unreadable m ≡ ok a → m ≡ ok a
as_unreadable-ok (ok a) h = h
as_unreadable-ok (err e) h = ground arith

module _ (files : OutputFiles)
    (total : (s t : String) → (files.text_le s t || files.text_le t s) ≡ true)
    (trans : (s t u : String)
      → files.text_le s t ≡ true
      → files.text_le t u ≡ true
      → files.text_le s u ≡ true) where
  -- a canonical path below the tool's slug, with the hash of its source
  abbrev pub IsCollected : String → CollectedArtifact → Type 0
  IsCollected tool_slug a =
      (validate_canonical_posix_path (codes a.target_relpath) ≡ ok tt)
      × (starts_with (codes (String.◌++◌ tool_slug "/")) (codes a.target_relpath) ≡ true)
      × (files.sha256_file a.source_path ≡ ok a.sha256)

  collect_item-IsCollected :
      (tool_slug : String) (item : String × String) (a : CollectedArtifact)
      → collect_item files tool_slug item ≡ ok a
      → IsCollected tool_slug a × (pair_of a ≡ item)
  unfolding collect_item
  collect_item-IsCollected tool_slug (source, target) a h =
      let (u1, canonical, h1) = >>=-ok (validate_canonical_posix_path (codes target)) _ h in
      let (below, h2) =
        require->>-ok (starts_with (codes (String.◌++◌ tool_slug "/")) (codes target)) value_error _
          h1 in
      let (sha, hashed, h3) = >>=-ok (as_unreadable (files.sha256_file source)) _ h2 in
      subst (λ x. IsCollected tool_slug x × (pair_of x ≡ (source, target))) (ok_injective h3)
        ((canonical, below, as_unreadable-ok _ hashed), refl)

  collect_items-IsCollected :
      (tool_slug : String) (items : List (String × String)) (artifacts : List CollectedArtifact)
      → collect_items files tool_slug items ≡ ok artifacts
      → All (IsCollected tool_slug) artifacts × (map pair_of artifacts ≡ items)
  unfolding collect_items
  collect_items-IsCollected tool_slug [] artifacts h =
      subst (λ x. All (IsCollected tool_slug) x × (map pair_of x ≡ [])) (ok_injective h) (tt, refl)
  collect_items-IsCollected tool_slug (item ∷ items) artifacts h =
      let (a, one, h1) = >>=-ok (collect_item files tool_slug item) _ h in
      let (rest, others, h2) = >>=-ok (collect_items files tool_slug items) _ h1 in
      let (collected, own) = collect_item-IsCollected tool_slug item a one in
      let (all_collected, same) = collect_items-IsCollected tool_slug items rest others in
      subst (λ x. All (IsCollected tool_slug) x × (map pair_of x ≡ item ∷ items)) (ok_injective h2)
        ((collected, all_collected), ap (λ i. i ∷ map pair_of rest) own ∙ ap (λ r. item ∷ r) same)

  -- If a collection's result is built, its artifacts are the items, reordered, sorted by their targets;
  -- each target is a canonical path below the tool's slug, and each hash is that of the source. Assumed
  -- is that the order of texts is total and transitive.
  pub build_collection_output-IsCollected :
      (tool : ToolSource) (tool_slug : String) (items : List (String × String))
      (schema_version : String) (timestamp : ℕ) (metadata : String) (output : CollectionOutput)
      → build_collection_output files tool tool_slug items schema_version timestamp metadata
        ≡ ok output
      → All (IsCollected tool_slug) output.artifacts
        × IsSorted (target_le files) output.artifacts
        × Perm (map pair_of output.artifacts) items
  unfolding build_collection_output
  build_collection_output-IsCollected tool tool_slug items schema_version timestamp metadata output
        h =
      let (some_item, h1) = require->>-ok (any_item files items) adapter_error _ h in
      let (artifacts, found, h2) = >>=-ok (collect_items files tool_slug items) _ h1 in
      let (all_collected, same) = collect_items-IsCollected tool_slug items artifacts found in
      let sorted : sort_by (target_le files) artifacts ≡ output.artifacts =
        ap (λ o. o.artifacts) (ok_injective h2) in
      (
        subst (All (IsCollected tool_slug)) sorted
            (All-sort_by (target_le files) (IsCollected tool_slug) artifacts all_collected),
        subst (IsSorted (target_le files)) sorted (
            sort_by-IsSorted (target_le files) (λ a b. total a.target_relpath b.target_relpath)
              (λ a b c. trans a.target_relpath b.target_relpath c.target_relpath) artifacts),
        subst (λ i. Perm (map pair_of output.artifacts) i) same
            (subst (λ x. Perm (map pair_of x) (map pair_of artifacts)) sorted
              (Perm.map pair_of (sort_by-perm (target_le files) artifacts))),
      )
