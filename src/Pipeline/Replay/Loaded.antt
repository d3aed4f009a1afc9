-- ===== src/Pipeline/Replay/Loaded.antt =====
-- pipeline/replay.py: what load_raw_outputs has tested of the manifests that it returns.
use gxassessms.Base.{
  ◌≡◌, refl, subst, arith, String, Bool, true, false, not, some, List, [], ◌∷◌, str_eq, ◌∙◌,
}
use gxassessms.Errors.{Result, ok, err, >>=-ok, require->>-ok, ok_injective}
use gxassessms.Domain.Manifests.{RawToolOutput, validate_raw_output}
use gxassessms.Pipeline.Replay.{
  ManifestEntry, LoadedFile, replay_error, missing_error, as_replay_error, check_shape,
  model_validate_json, read_entries, load_raw_outputs, some_entry,
}

as_replay_error-ok : {A : Type 0} {a : A} (m : Result A) → as_replay_error m ≡ ok a → m ≡ ok a
as_replay_error-ok (ok a) h = h
as_replay_error-ok (err e) h = ground arith

module _ (lower : String → String) (is_json : String → Bool)
    (decode : String → Result RawToolOutput) where
  -- a file's name is lower-case and ends in .json
  abbrev pub IsShaped : ManifestEntry → Type 0
  IsShaped e = (e.is_dir ≡ false) × (is_json e.name ≡ true) × (str_eq e.name (lower e.name) ≡ true)

  -- the manifest is what the file's text decodes to, and its validators accept it
  abbrev pub IsRead : ManifestEntry → LoadedFile → Type 0
  IsRead e f =
      (f.source_path ≡ e.name)
      × ((raw_json : String) × (e.text ≡ ok raw_json) × (decode raw_json ≡ ok f.raw_output))
      × (validate_raw_output f.raw_output ≡ ok tt)

  abbrev pub AllLoaded : List ManifestEntry → List LoadedFile → Type 0
  AllLoaded [] [] = Unit
  AllLoaded (e ∷ es) (f ∷ fs) = (IsShaped e × IsRead e f) × AllLoaded es fs
  AllLoaded _ _ = ⊥

  model_validate_json-ok :
      (raw_json : String) (r : RawToolOutput)
      → model_validate_json lower is_json decode raw_json ≡ ok r
      → (decode raw_json ≡ ok r) × (validate_raw_output r ≡ ok tt)
  unfolding model_validate_json
  model_validate_json-ok raw_json r h =
      let (raw, decoded, h1) = >>=-ok (decode raw_json) _ h in
      let (u, valid, h2) = >>=-ok (validate_raw_output raw) _ h1 in
      let same = ok_injective h2 in
      (decoded ∙ h2, subst (λ s. validate_raw_output s ≡ ok tt) same valid)

  read_entries-AllLoaded :
      (es : List ManifestEntry) (fs : List LoadedFile)
      → check_shape lower is_json decode es ≡ ok tt
      → read_entries lower is_json decode es ≡ ok fs
      → AllLoaded es fs
  unfolding check_shape read_entries
  read_entries-AllLoaded [] [] shaped h = tt
  read_entries-AllLoaded [] (f ∷ fs) shaped h = ground arith
  read_entries-AllLoaded (e ∷ es) fs shaped h =
      let (file, s1) = require->>-ok (not e.is_dir) replay_error _ shaped in
      let (json, s2) = require->>-ok (is_json e.name) replay_error _ s1 in
      let (lower_case, s3) = require->>-ok (str_eq e.name (lower e.name)) replay_error _ s2 in
      let (raw_json, texted, h1) = >>=-ok e.text _ h in
      let (raw, validated, h2) =
        >>=-ok (as_replay_error (model_validate_json lower is_json decode raw_json)) _ h1 in
      let (rest, others, h3) = >>=-ok (read_entries lower is_json decode es) _ h2 in
      let (decoded, valid) = model_validate_json-ok raw_json raw (as_replay_error-ok _ validated) in
      let regular : e.is_dir ≡ false = ground (arith, file) in
      subst (AllLoaded (e ∷ es)) (ok_injective h3) (
        ((regular, json, lower_case), (refl, (raw_json, texted, decoded), valid)),
        read_entries-AllLoaded es rest s3 others,
      )

  -- If replay loads a directory, it has loaded one manifest for each entry, in order; each entry is a
  -- file with a lower-case name that ends in .json, and each manifest is what the entry's text decodes
  -- to and passes the validators of raw output.
  pub load_raw_outputs-AllLoaded :
      (entries : List ManifestEntry) (loaded : List LoadedFile)
      → load_raw_outputs lower is_json decode (some entries) ≡ ok loaded
      → AllLoaded entries loaded
  unfolding load_raw_outputs
  load_raw_outputs-AllLoaded entries loaded h =
      let (nonempty, h1) = require->>-ok (some_entry entries) missing_error _ h in
      let (u, shaped, h2) = >>=-ok (check_shape lower is_json decode entries) _ h1 in
      read_entries-AllLoaded entries loaded shaped h2
