-- ===== src/Persistence/Journal/Laws.antt =====
-- What a read of the journal shows behind an append.
use gxassessms.Base.{
  ℕ, ◌≤◌, String, ◌≡◌, refl, Bool, true, List, [], ◌∷◌, ◌++◌, All, arith, select, select-append,
  sort_by, sort_by-append, insert_by-last, All-sort_by, if◌then◌else◌, Bool-cases, inl, inr,
  append-nil,
}
use gxassessms.Persistence.Store.{EventRow, EventType}
use gxassessms.Persistence.Journal.{not_after, of_type, get_events_by_type}

-- no event is dated behind `now`
abbrev pub IsChronological : ℕ → List EventRow → Type 0
IsChronological now = All (λ e. e.timestamp ≤ now)

pub IsChronological-append :
    (now later : ℕ) (es : List EventRow) (e : EventRow)
    → now ≤ later
    → e.timestamp ≤ later
    → IsChronological now es
    → IsChronological later (es ++ e ∷ [])
IsChronological-append now later [] e h k c = omega arith
IsChronological-append now later (x ∷ es) e h k c =
    (omega arith, IsChronological-append now later es e h k c.1)

pub IsChronological-later :
    (now later : ℕ) (es : List EventRow)
    → now ≤ later
    → IsChronological now es
    → IsChronological later es
IsChronological-later now later [] h c = tt
IsChronological-later now later (x ∷ es) h c =
    (omega arith, IsChronological-later now later es h c.1)

before_last :
    (e : EventRow) (p : EventRow → Bool) (es : List EventRow)
    → IsChronological e.timestamp es
    → All (λ x. not_after x e ≡ true) (select p es)
before_last e p [] c = tt
before_last e p (x ∷ es) c = elim (Bool-cases (p x)) [
  | inl t ↦ rw t (ground arith, before_last e p es c.1)
  | inr f ↦ rw f (before_last e p es c.1)
]

-- A read of the journal after an append of an event, when no earlier event is dated behind it: the
-- earlier answer, with the new event as its last if it is of the engagement and the type asked for.
pub get_events_by_type-append :
    (es : List EventRow) (e : EventRow) (id : String) (ty : EventType)
    → IsChronological e.timestamp es
    → get_events_by_type (es ++ e ∷ []) id ty ≡ (
        if of_type id ty e
        then get_events_by_type es id ty ++ e ∷ []
        else get_events_by_type es id ty)
unfolding get_events_by_type
get_events_by_type-append es e id ty c = elim (Bool-cases (of_type id ty e)) [
  | inl t ↦
      rw (select-append (of_type id ty) es (e ∷ []), t, sort_by-append not_after)
        (insert_by-last not_after e (sort_by not_after (select (of_type id ty) es)) (
          All-sort_by not_after (λ x. not_after x e ≡ true) (select (of_type id ty) es)
            (before_last e (of_type id ty) es c)))
  | inr f ↦ rw (select-append (of_type id ty) es (e ∷ []), f, append-nil) refl
]
