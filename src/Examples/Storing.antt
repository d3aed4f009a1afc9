-- ===== src/Examples/Storing.antt =====
-- The theorems on the artifact store at concrete artifacts.
use gxassessms.Base.{String, suc, zero, refl, sym, ap, true, false, none, some, [], ◌∷◌}
use gxassessms.Errors.{ok, ok_injective}
use gxassessms.Domain.Findings.{scubagear}
use gxassessms.Domain.Manifests.{IngestProvenance, utf8}
use gxassessms.Persistence.Artifacts.Staging.{Files, CollectionOutput, CollectedArtifact}
use gxassessms.Persistence.Artifacts.Saving.{save_ingested_raw_output}
use gxassessms.Persistence.Artifacts.Saving.Whole.{Saved, idle, save_ingested_raw_output-Saved}
use gxassessms.Persistence.Artifacts.Committing.{commit_generation, ready, Recoverable}
use gxassessms.Persistence.Artifacts.Committing.Generation.{commit_generation-Recoverable}
use gxassessms.Persistence.Artifacts.Archiving
use gxassessms.Persistence.Artifacts.Archiving.{Tar, EngagementDir, archive, restore}
use gxassessms.Persistence.Artifacts.Archiving.Purging.{purge, Remains}
use gxassessms.Persistence.Artifacts.Archiving.Kept.{Held, archive-Held, Purged, purge-Purged}

abbrev files : Files
files = record {
  is_absolute = λ p. true;
  exists = λ p. true;
  is_file = λ p. true;
  is_symlink = λ p. false;
  sha256_file = λ p. ok "abc";
  copied_sha256 = λ p. ok "abc";
}

abbrev same_case : String → String
same_case s = s

abbrev artifact : CollectedArtifact
artifact = record {
  source_path = "/tmp/out.json";
  target_relpath = "scubagear/out.json";
  encoding = utf8;
  sha256 = "abc";
}

abbrev collection : CollectionOutput
collection = record {
  tool = scubagear;
  tool_slug = "scubagear";
  schema_version = "1";
  timestamp = 1;
  artifacts = artifact ∷ [];
  allowed_metadata = "{}";
}

abbrev provenance : IngestProvenance
provenance = record {
  source_path = "/tmp/out.json";
  ingested_at = 1;
  ingested_by = "human:rick";
  replaced = false;
}

save_ingested_raw_output-Saved_example : Saved none none (
    save_ingested_raw_output files same_case false collection provenance
      (idle none none (some (suc zero))))
save_ingested_raw_output-Saved_example =
    save_ingested_raw_output-Saved files same_case false collection provenance none none
      (some (suc zero))

commit_generation-Recoverable_example :
    Recoverable {C = String}
      (some "old")
      (some "old")
      "new"
      "new"
      (commit_generation (ready (some "old") (some "old") "new" "new" (some (suc zero))))
commit_generation-Recoverable_example =
    commit_generation-Recoverable (some "old") (some "old") "new" "new" (some (suc zero))

-- a tarball is the list of its files
abbrev tar : Tar
tar = record {
  Tarball = Archiving.Files;
  add = λ fs. ok fs;
  members = λ b. "raw-output" ∷ [];
  extract = λ b. ok (some b);
  extract-add = λ fs b h. ap (λ t. ok (some t)) (sym (ok_injective h));
}

abbrev raw : Archiving.Files
raw = ("artifacts/scubagear/out.json", "{}") ∷ []

-- a directory with raw output, where the second operation fails
abbrev held : EngagementDir tar
held = record {
  raw_output = some raw;
  archived = none;
  staging = none;
  others = none;
  audit = [];
  fuse = some 1;
}

archive-Held_example : Held tar raw (archive tar "rick" held).1
archive-Held_example = archive-Held tar "rick" raw held refl

-- a removal that leaves the reports
abbrev reports_left : Remains tar
reports_left = record { raw_output = none; archived = none; staging = none; others = some raw }

purge-Purged_example : Purged tar "rick" held (purge tar reports_left "rick" held)
purge-Purged_example = purge-Purged tar reports_left "rick" held
