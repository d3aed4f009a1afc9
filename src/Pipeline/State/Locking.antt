-- ===== src/Pipeline/State/Locking.antt =====
-- The lock is held while the body runs, and not behind it, on every path.
use gxassessms.Base.{
  String, ◌≡◌, refl, true, false, not, List, [], ◌∷◌, arith, str_eq, contains, select, eq_iff,
  eq_refl, Bool-cases, inl, inr,
}
use gxassessms.Exec.{Exec}
use gxassessms.Persistence.Store.{Store}
use gxassessms.Pipeline.State.{acquire, hold}

-- an engagement that is not held is not in the list without it
pub select-absent :
    (id : String) (ids : List String)
    → contains str_eq id ids ≡ false
    → select (λ held_id. not (str_eq held_id id)) ids ≡ ids
unfolding contains
select-absent id [] h = refl
select-absent id (x ∷ ids) h = ground (arith, select-absent id ids, eq_iff id x, eq_iff x id)

-- If a body leaves the locks as it finds them, then so does the body under the lock, whether it
-- returns or raises; and if this process holds the lock already, nothing changes.
pub held-hold :
    {A : Type 0} (id : String) (body : Exec Store A) (s : Store)
    → ((t : Store) → (body t).1.held ≡ t.held)
    → ((hold id body s).1.held ≡ s.held)
      × (contains str_eq id s.held ≡ true → (hold id body s).1 ≡ s)
unfolding hold
held-hold id body s keeps = elim (Bool-cases (contains str_eq id s.held)) [
  | inl taken ↦ rw taken (refl, λ _. refl)
  | inr free ↦
      ground
        (arith, select-absent id s.held free, keeps (record s { held = id ∷ s.held }), eq_refl id)
]

-- Taking the lock leaves the tables alone.
pub acquire-tables :
    (id : String) (s : Store)
    → ((acquire id s).1.engagements ≡ s.engagements) × ((acquire id s).1.events ≡ s.events)
unfolding acquire
acquire-tables id s = ground arith
