-- ===== src/Adapters/Directories.antt =====
-- adapters/_base.py: the latest of the directories that a tool has left. What the file system says of
-- paths, which are texts, is a parameter.
pub mod Latest
use gxassessms.Base.{
  ℕ, String, Bool, ◌&&◌, ◌||◌, str_eq, ltb, select, List, [], ◌∷◌, if◌then◌else◌, codes,
  starts_with,
}
use gxassessms.Errors.{Result, ok, err, require, adapter_error, traverse, ◌>>=◌, ◌>>◌}
use gxassessms.Adapters.Outputs.{as_unreadable}

pub record Directories : Type 0 where
  pub exists : String → Bool
  pub is_dir : String → Bool
  pub iterdir : String → Result (List String)
  -- Path.name and Path.suffix
  pub name : String → String
  pub suffix : String → String
  -- stat().st_mtime, in the file system's unit
  pub mtime : String → Result ℕ

-- a directory with its time, and the later of two: the first where the times are the same
abbrev pub Stamped : Type 0
Stamped = String × ℕ

abbrev pub later : Stamped → Stamped → Stamped
later best d = if ltb best.1 d.1 then d else best

-- max(candidates, key=...), which demands a candidate
unfoldable pub latest : Stamped → List Stamped → Stamped
latest best [] = best
latest best (d ∷ ds) = latest (later best d) ds

abbrev pub latest_of : List Stamped → Result String
latest_of [] = err adapter_error
latest_of (d ∷ ds) = ok (latest d ds).0

module _ (dirs : Directories) where
  abbrev pub is_candidate : String → String → Bool
  is_candidate prefix d =
      dirs.is_dir d && (str_eq prefix "" || starts_with (codes prefix) (codes (dirs.name d)))

  abbrev pub stamp : String → Result Stamped
  stamp d = do t ← dirs.mtime d; ok (d, t)

  unfoldable pub find_latest_output_dir : String → String → Result String
  unfolding traverse latest
  find_latest_output_dir base_dir prefix = do
    require (dirs.exists base_dir) adapter_error
    children ← as_unreadable (dirs.iterdir base_dir)
    stamped ← as_unreadable (traverse stamp (select (is_candidate prefix) children))
    latest_of stamped
