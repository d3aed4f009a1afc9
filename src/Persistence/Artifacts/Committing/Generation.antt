-- ===== src/Persistence/Artifacts/Committing/Generation.antt =====
-- persistence/artifacts.py: a commit of a run's raw output puts the new generation in place, or fails and
-- loses nothing.
use gxassessms.Base.{ℕ, refl, zero, suc, Option, none, some, inl, inr}
use gxassessms.Persistence.Artifacts.Committing.{commit_generation, ready, Recoverable}

module _ {C : Type 0} where
  -- Phase 3 of `save_raw_outputs` either returns with the staged artifacts and manifests in their places,
  -- or raises PersistenceError with the old and the new generation both on the disk, in their places,
  -- aside or staged, or raises OSError with the staged artifacts and manifests in their places, if
  -- nothing stood aside before and at most one operation fails, whichever one it is.
  pub commit_generation-Recoverable :
      (a m : Option C) (a' m' : C) (fuse : Option ℕ)
      → Recoverable a m a' m' (commit_generation (ready a m a' m' fuse))
  unfolding commit_generation
  commit_generation-Recoverable (some a) (some m) a' m' none = (refl, refl)
  commit_generation-Recoverable (some a) (some m) a' m' (some zero) =
      inl (refl, inl refl, inl refl, inr refl, refl)
  commit_generation-Recoverable (some a) (some m) a' m' (some (suc zero)) =
      inl (refl, inr refl, inl refl, inr refl, refl)
  commit_generation-Recoverable (some a) (some m) a' m' (some (suc (suc zero))) =
      inl (refl, inr refl, inr refl, inr refl, refl)
  commit_generation-Recoverable (some a) (some m) a' m' (some (suc (suc (suc zero)))) =
      inl (refl, inr refl, inr refl, inl refl, refl)
  commit_generation-Recoverable (some a) (some m) a' m' (some (suc (suc (suc (suc zero))))) =
      (refl, refl)
  commit_generation-Recoverable (some a) (some m) a' m' (some (suc (suc (suc (suc (suc zero)))))) =
      (refl, refl)
  commit_generation-Recoverable (some a) (some m) a' m'
        (some (suc (suc (suc (suc (suc (suc zero))))))) =
      (refl, refl)
  commit_generation-Recoverable (some a) (some m) a' m'
        (some (suc (suc (suc (suc (suc (suc (suc zero)))))))) =
      inr (refl, refl, refl)
  commit_generation-Recoverable (some a) (some m) a' m'
        (some (suc (suc (suc (suc (suc (suc (suc (suc n))))))))) =
      (refl, refl)
  commit_generation-Recoverable (some a) none a' m' none = (refl, refl)
  commit_generation-Recoverable (some a) none a' m' (some zero) =
      inl (refl, inl refl, inl refl, inr refl, refl)
  commit_generation-Recoverable (some a) none a' m' (some (suc zero)) =
      inl (refl, inr refl, inl refl, inr refl, refl)
  commit_generation-Recoverable (some a) none a' m' (some (suc (suc zero))) =
      inl (refl, inr refl, inl refl, inl refl, refl)
  commit_generation-Recoverable (some a) none a' m' (some (suc (suc (suc zero)))) = (refl, refl)
  commit_generation-Recoverable (some a) none a' m' (some (suc (suc (suc (suc zero))))) =
      (refl, refl)
  commit_generation-Recoverable (some a) none a' m' (some (suc (suc (suc (suc (suc zero)))))) =
      inr (refl, refl, refl)
  commit_generation-Recoverable (some a) none a' m' (some (suc (suc (suc (suc (suc (suc n))))))) =
      (refl, refl)
  commit_generation-Recoverable none (some m) a' m' none = (refl, refl)
  commit_generation-Recoverable none (some m) a' m' (some zero) =
      inl (refl, inl refl, inl refl, inr refl, refl)
  commit_generation-Recoverable none (some m) a' m' (some (suc zero)) =
      inl (refl, inl refl, inr refl, inr refl, refl)
  commit_generation-Recoverable none (some m) a' m' (some (suc (suc zero))) =
      inl (refl, inr refl, inr refl, inl refl, refl)
  commit_generation-Recoverable none (some m) a' m' (some (suc (suc (suc zero)))) = (refl, refl)
  commit_generation-Recoverable none (some m) a' m' (some (suc (suc (suc (suc zero))))) =
      (refl, refl)
  commit_generation-Recoverable none (some m) a' m' (some (suc (suc (suc (suc (suc zero)))))) =
      inr (refl, refl, refl)
  commit_generation-Recoverable none (some m) a' m' (some (suc (suc (suc (suc (suc (suc n))))))) =
      (refl, refl)
  commit_generation-Recoverable none none a' m' none = (refl, refl)
  commit_generation-Recoverable none none a' m' (some zero) =
      inl (refl, inl refl, inl refl, inr refl, refl)
  commit_generation-Recoverable none none a' m' (some (suc zero)) =
      inl (refl, inr refl, inl refl, inl refl, refl)
  commit_generation-Recoverable none none a' m' (some (suc (suc zero))) = (refl, refl)
  commit_generation-Recoverable none none a' m' (some (suc (suc (suc zero)))) =
      inr (refl, refl, refl)
  commit_generation-Recoverable none none a' m' (some (suc (suc (suc (suc n))))) = (refl, refl)
