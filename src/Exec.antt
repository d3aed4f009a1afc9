-- ===== src/Exec.antt =====
-- Methods that change a store and may raise. What was written before a raise stays written, so the
-- store comes back beside the error too.
pub mod Keeps
use gxassessms.Errors.{Error, Result, ok, err}

abbrev pub Exec : Type 0 → Type 0 → Type 0
Exec S A = S → Result A × S

module _ {S : Type 0} where
  abbrev pub modify : (S → S) → Exec S (Unit {0})
  modify f s = (ok tt, f s)

module _ {S A : Type 0} where
  -- reads of the store, and results that do not depend on it
  abbrev pub gets : (S → A) → Exec S A
  gets read s = (ok (read s), s)

  abbrev pub raise : Error → Exec S A
  raise e s = (err e, s)

  abbrev pub pure : A → Exec S A
  pure a s = (ok a, s)

  abbrev pub lift : Result A → Exec S A
  lift r s = (r, s)

module _ {S A B : Type 0} where
  abbrev pub continue : Result A → (A → Exec S B) → Exec S B
  continue (err e) next s = (err e, s)
  continue (ok a) next s = next a s

  infixl 5 ◌>>=◌ ◌>>◌
  abbrev pub ◌>>=◌ : Exec S A → (A → Exec S B) → Exec S B
  ◌>>=◌ m next s = let (r, s') = m s in continue r next s'

  abbrev pub ◌>>◌ : Exec S A → Exec S B → Exec S B
  first >> second = first >>= λ _. second
