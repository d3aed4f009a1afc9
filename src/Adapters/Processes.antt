-- ===== src/Adapters/Processes.antt =====
-- adapters/_base.py: running PowerShell. The platform and subprocess are a parameter.
use gxassessms.Base.{ℕ, Bool, List, [], ◌∷◌, ◌++◌, ◌==◌, if◌then◌else◌, Chars, codes}
use gxassessms.Errors.{Result, err, require, adapter_error, ◌>>=◌}
use gxassessms.Adapters.Arguments.{validate_extra_args}

-- what subprocess.run comes to: a TimeoutExpired, an OSError, or a process with its return code, which is
-- negative, and stands as the signal, where a signal has ended it
pub data Run : Type 0 where
  timed_out inaccessible : Run
  exited killed : ℕ → Run

-- get_powershell_executable
abbrev pub get_powershell_executable : Bool → Chars
get_powershell_executable is_windows = if is_windows then codes "powershell.exe" else codes "pwsh"

abbrev pub check_exit : Run → Result (Unit {0})
check_exit timed_out = err adapter_error
check_exit inaccessible = err adapter_error
check_exit (killed signal) = err adapter_error
check_exit (exited code) = require (code == 0) adapter_error

module _ (is_word : ℕ → Bool) (is_windows : Bool) (run : List Chars → ℕ → Run) where
  unfoldable pub run_powershell : Chars → List Chars → ℕ → Result (Unit {0})
  unfolding validate_extra_args
  run_powershell script arguments timeout_seconds = do
    validated_args ← validate_extra_args is_word arguments
    check_exit (
        run
          (get_powershell_executable is_windows
            ∷ codes "-NoProfile"
            ∷ codes "-NonInteractive"
            ∷ (validated_args ++ codes "-Command" ∷ script ∷ []))
          timeout_seconds)
