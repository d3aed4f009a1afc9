-- ===== src/Persistence/Artifacts/Staging/Staged.antt =====
-- persistence/artifacts.py: what a staged manifest records of each collected artifact.
use Prim.Native.String
use gxassessms.Base.{
  String, ◌≡◌, refl, sym, ◌∙◌, ap, Bool, true, false, not, some, List, [], ◌∷◌, ◌&&◌, str_eq, arith,
  All, contains, lookup, lookup-upsert, lookup-upsert_self, map, codes, starts_with, eq_iff,
  eq_refl,
}
use gxassessms.Errors.{
  Result, ok, err, require-ok, require->>-ok, >>=-ok, ok_injective, persistence_error,
}
use gxassessms.Domain.Manifests.{ArtifactRecord}
use gxassessms.Domain.PathValidation.{validate_canonical_posix_path}
use gxassessms.Persistence.Artifacts.Staging.{
  CollectedArtifact, Files, record_of, as_persistence_error, check_target, copy_artifact,
  ingest_artifact, ingest_artifacts,
}

as_persistence_error-ok : (r : Result (Unit {0})) → as_persistence_error r ≡ ok tt → r ≡ ok tt
as_persistence_error-ok (ok tt) h = refl
as_persistence_error-ok (err e) h = ground arith

-- no text occurs twice
unfoldable pub distinct : List String → Bool
unfolding contains
distinct [] = true
distinct (s ∷ ss) = not (contains str_eq s ss) && distinct ss

str_eq-apart :
    (k j : String) (xs : List String)
    → contains str_eq k xs ≡ true
    → contains str_eq j xs ≡ false
    → (str_eq j k ≡ false) × (str_eq k j ≡ false)
str_eq-apart k j xs h e = (ground (arith, eq_iff j k), ground (arith, eq_iff k j))

module _ (files : Files) (lower : String → String) where
  -- an artifact that passed: a regular file at an absolute path, a canonical target below the slug, and
  -- a copy with the recorded hash
  pub record IsIngestible (slug : String) (a : CollectedArtifact) : Type 0 where
    pub absolute : files.is_absolute a.source_path ≡ true
    pub regular : files.is_file a.source_path ≡ true
    pub no_link : files.is_symlink a.source_path ≡ false
    pub canonical : validate_canonical_posix_path (codes a.target_relpath) ≡ ok tt
    pub prefixed : starts_with (codes (String.◌++◌ slug "/")) (codes a.target_relpath) ≡ true
    pub copied : files.copied_sha256 a.source_path ≡ ok a.sha256

  abbrev Fresh : List String → List String → CollectedArtifact → Type 0
  Fresh seen seen_lower a =
      (contains str_eq a.target_relpath seen ≡ false)
      × (contains str_eq (lower a.target_relpath) seen_lower ≡ false)

  ingest_artifact-IsIngestible :
      (slug : String) (seen seen_lower : List String) (a : CollectedArtifact) (u : Unit {0})
      → ingest_artifact files lower slug seen seen_lower a ≡ ok u
      → IsIngestible slug a × Fresh seen seen_lower a
  unfolding ingest_artifact check_target copy_artifact
  ingest_artifact-IsIngestible slug seen seen_lower a u h =
      let (absolute, h1) = require->>-ok _ persistence_error _ h in
      let (regular, h2) = require->>-ok _ persistence_error _ h1 in
      let (no_link, h3) =
        require->>-ok (not (files.is_symlink a.source_path)) persistence_error _ h2 in
      let (v, target, h4) =
        >>=-ok (check_target files lower slug seen seen_lower a.target_relpath) _ h3 in
      let (w, canonical, t1) =
        >>=-ok (as_persistence_error (validate_canonical_posix_path (codes a.target_relpath))) _
          target in
      let (prefixed, t2) = require->>-ok _ persistence_error _ t1 in
      let (fresh, t3) =
        require->>-ok (not (contains str_eq a.target_relpath seen)) persistence_error _ t2 in
      let apart =
        require-ok (not (contains str_eq (lower a.target_relpath) seen_lower)) persistence_error
          t3 in
      let (hash, copied, h5) = >>=-ok (files.copied_sha256 a.source_path) _ h4 in
      let matches = require-ok (str_eq hash a.sha256) persistence_error h5 in
      (
        record {
          absolute = absolute;
          regular = regular;
          no_link = ground arith;
          canonical = as_persistence_error-ok _ canonical;
          prefixed = prefixed;
          copied = copied ∙ ap ok ((eq_iff hash a.sha256).0 matches);
        },
        (ground arith, ground arith),
      )

  -- what the loop ends with has, for a path that it has seen, the record it had
  lookup-ingest_artifacts :
      (slug : String) (seen seen_lower : List String) (m result : List (String × ArtifactRecord))
      (as' : List CollectedArtifact) (k : String)
      → contains str_eq k seen ≡ true
      → ingest_artifacts files lower slug seen seen_lower m as' ≡ ok result
      → lookup k result ≡ lookup k m
  unfolding ingest_artifacts
  lookup-ingest_artifacts slug seen seen_lower m result [] k old h =
      ap (lookup k) (ok_injective (sym h))
  lookup-ingest_artifacts slug seen seen_lower m result (a ∷ as') k old h =
      let (u, one, h1) = >>=-ok (ingest_artifact files lower slug seen seen_lower a) _ h in
      let (good, (fresh, apart)) = ingest_artifact-IsIngestible slug seen seen_lower a u one in
      let later =
        lookup-ingest_artifacts slug (a.target_relpath ∷ seen) (lower a.target_relpath ∷ seen_lower)
          _ result as' k (unfold contains in ground arith) h1 in
      later
      ∙ lookup-upsert a.target_relpath k (record_of a) m
      ∙ rw (str_eq-apart k a.target_relpath seen old fresh).0 refl

  -- and no path that differs from one that it has seen in its case alone
  apart-ingest_artifacts :
      (slug : String) (seen seen_lower : List String) (m result : List (String × ArtifactRecord))
      (as' : List CollectedArtifact) (k : String)
      → contains str_eq k seen_lower ≡ true
      → ingest_artifacts files lower slug seen seen_lower m as' ≡ ok result
      → contains str_eq k (map (λ a. lower a.target_relpath) as') ≡ false
  unfolding ingest_artifacts contains
  apart-ingest_artifacts slug seen seen_lower m result [] k old h = refl
  apart-ingest_artifacts slug seen seen_lower m result (a ∷ as') k old h =
      let (u, one, h1) = >>=-ok (ingest_artifact files lower slug seen seen_lower a) _ h in
      let (good, (fresh, apart)) = ingest_artifact-IsIngestible slug seen seen_lower a u one in
      let later =
        apart-ingest_artifacts slug (a.target_relpath ∷ seen) (lower a.target_relpath ∷ seen_lower)
          _ result as' k (ground arith) h1 in
      rw ((str_eq-apart k (lower a.target_relpath) seen_lower old apart).1, later) refl

  -- what a manifest records of an artifact
  abbrev pub IsRecorded : String → List (String × ArtifactRecord) → CollectedArtifact → Type 0
  IsRecorded slug m a = IsIngestible slug a × (lookup a.target_relpath m ≡ some (record_of a))

  -- If the artifacts of a tool are staged, each of them is a regular file that was copied with the hash
  -- it names, its target is a canonical path below the tool's slug under which the manifest has its
  -- encoding and hash, and no two targets differ in their case alone.
  pub ingest_artifacts-IsRecorded :
      (slug : String) (seen seen_lower : List String) (m result : List (String × ArtifactRecord))
      (as' : List CollectedArtifact)
      → ingest_artifacts files lower slug seen seen_lower m as' ≡ ok result
      → All (IsRecorded slug result) as' × (distinct (map (λ a. lower a.target_relpath) as') ≡ true)
  unfolding ingest_artifacts distinct
  ingest_artifacts-IsRecorded slug seen seen_lower m result [] h = (tt, refl)
  ingest_artifacts-IsRecorded slug seen seen_lower m result (a ∷ as') h =
      let (u, one, h1) = >>=-ok (ingest_artifact files lower slug seen seen_lower a) _ h in
      let (good, (fresh, apart)) = ingest_artifact-IsIngestible slug seen seen_lower a u one in
      let (rest, others) =
        ingest_artifacts-IsRecorded slug (a.target_relpath ∷ seen)
          (lower a.target_relpath ∷ seen_lower) _ result as' h1 in
      let kept =
        lookup-ingest_artifacts slug (a.target_relpath ∷ seen) (lower a.target_relpath ∷ seen_lower)
          _ result as' a.target_relpath (unfold contains in rw (eq_refl a.target_relpath) refl)
          h1 in
      let alone =
        apart-ingest_artifacts slug (a.target_relpath ∷ seen) (lower a.target_relpath ∷ seen_lower)
          _ result as' (lower a.target_relpath)
          (unfold contains in rw (eq_refl (lower a.target_relpath)) refl) h1 in
      (
        ((good, kept ∙ lookup-upsert_self a.target_relpath (record_of a) m), rest),
        rw (alone, others) refl,
      )
