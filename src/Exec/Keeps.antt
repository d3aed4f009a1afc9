-- ===== src/Exec/Keeps.antt =====
-- Invariants of methods: one rule for each way to build a method. A method keeps a predicate if the
-- predicate holds behind it, whether it returns or raises.
use gxassessms.Base.{Bool, true, false, if◌then◌else◌}
use gxassessms.Errors.{Error, Result, ok, err}
use gxassessms.Exec.{Exec, pure, raise, lift, gets, continue, ◌>>=◌}

pub record Keeps {S A : Type 0} (P : S → Type 0) (m : Exec S A) : Type 0 where
  pub behind : (s : S) → P s → P (m s).1

module _ {S A B : Type 0} {P : S → Type 0} where
  pub after :
      (r : Result A) (f : A → Exec S B) (s : S)
      → ((a : A) → Keeps P (f a))
      → P s
      → P (continue r f s).1
  after (ok a) f s k h = (k a).behind s h
  after (err e) f s k h = h

  pub Keeps-bind :
      (first : Exec S A) (next : A → Exec S B)
      → Keeps P first
      → ((a : A) → Keeps P (next a))
      → Keeps P (first >>= next)
  Keeps-bind first next k ks = record {
    behind = λ s h. after (first s).0 next (first s).1 ks (k.behind s h);
  }

module _ {S A : Type 0} {P : S → Type 0} where
  pub Keeps-if : (b : Bool) (m n : Exec S A) → Keeps P m → Keeps P n → Keeps P (if b then m else n)
  Keeps-if false m n km kn = kn
  Keeps-if true m n km kn = km

  -- a method that only reads
  pub Keeps-read : (f : S → Result A) → Keeps P (λ s. (f s, s))
  Keeps-read f = record { behind = λ s h. h }

  pub Keeps-gets : (f : S → A) → Keeps P (gets f)
  Keeps-gets f = Keeps-read (λ s. ok (f s))

  pub Keeps-lift : (r : Result A) → Keeps P (lift r)
  Keeps-lift r = Keeps-read (λ s. r)

  pub Keeps-pure : (a : A) → Keeps P (pure a)
  Keeps-pure a = Keeps-lift (ok a)

  pub Keeps-raise : (e : Error) → Keeps P (raise {A = A} e)
  Keeps-raise e = Keeps-lift (err e)
