-- ===== src/Pipeline/Orchestrator/Approval.antt =====
-- When rendering is allowed: a QA approval that no later rerun of an upstream stage has made stale.
use gxassessms.Base.{
  ℕ, ◌≤◌, ◌<◌, String, ◌≡◌, refl, Bool, true, Option, none, some, List, [], ◌∷◌, ◌++◌, arith, All,
  str_eq, contains, eq_refl, if◌then◌else◌, Bool-cases, inl, inr, select, All-sort_by, Option-cases,
}
use gxassessms.Errors.{Result, ok, err, pipeline_error, ◌>>=◌, ◌>>◌}
use gxassessms.Persistence.Store.{EventRow, EventType, Payload, state_transition, rerun}
use gxassessms.Persistence.Journal.{get_events_by_type, of_type, not_after}
use gxassessms.Persistence.Journal.Laws.{IsChronological, get_events_by_type-append}
use gxassessms.Pipeline.State.{extract_payload, payload_is, payload_text}
use gxassessms.Pipeline.Orchestrator.{
  scan_approval, check_reruns, verify_qa_for_render, reruns_since, qa_upstream_stages,
}

-- the approval that an event leaves as the last one, if its payload can be read
abbrev approval_step : EventRow → Option ℕ → Payload → Option ℕ
approval_step e approved p = if payload_is "to" "QA_APPROVED" p then some e.timestamp else approved

scan_approval-append :
    (approved : Option ℕ) (es : List EventRow) (e : EventRow)
    → scan_approval approved (es ++ e ∷ [])
      ≡ (scan_approval approved es >>= λ a. extract_payload e >>= λ p. ok (approval_step e a p))
unfolding scan_approval
scan_approval-append approved [] e = refl
scan_approval-append approved (x ∷ es) e = elim (Option-cases x.payload) [
  | inl corrupt ↦ rw corrupt refl
  | inr (p, read) ↦ rw read (scan_approval-append (approval_step x approved p) es e)
]

check_reruns-append :
    (t : ℕ) (es : List EventRow) (e : EventRow)
    → check_reruns t (es ++ e ∷ []) ≡ (check_reruns t es >> check_reruns t (e ∷ []))
unfolding check_reruns
check_reruns-append t [] e = refl
check_reruns-append t (x ∷ es) e = ground (arith, check_reruns-append t es e)

abbrev Before : ℕ → Option ℕ → Type 0
Before n none = Unit
Before n (some t) = t < n

-- the approval found is as old as one of the events
scan_approval-lt :
    (n : ℕ) (approved : Option ℕ) (es : List EventRow) (t : ℕ)
    → Before n approved
    → All (λ e. e.timestamp < n) es
    → scan_approval approved es ≡ ok (some t)
    → t < n
unfolding scan_approval
scan_approval-lt n none [] t b h e = ground arith
scan_approval-lt n (some a) [] t b h e = ground arith
scan_approval-lt n approved (x ∷ es) t b h e = elim (Option-cases x.payload) [
  | inl corrupt ↦ ground arith
  | inr (p, read) ↦ elim (Bool-cases (payload_is "to" "QA_APPROVED" p)) [
    | inl approves ↦ scan_approval-lt n (some x.timestamp) es t h.0 h.1 (rw (read, approves) at e)
    | inr other ↦ scan_approval-lt n approved es t b h.1 (rw (read, other) at e)
  ]
]

-- an event of an engagement with a payload that can be read
abbrev pub event : String → EventType → ℕ → String → Payload → EventRow
event id ty at actor p = record {
  engagement_id = id;
  timestamp = at;
  event_type = ty;
  actor = actor;
  payload = some p;
}

check_reruns-stale :
    (t : ℕ) (id : String) (at : ℕ) (actor : String) (p : Payload)
    → t < at
    → contains str_eq (payload_text "target_stage" "" p) qa_upstream_stages ≡ true
    → check_reruns t (event id rerun at actor p ∷ []) ≡ err (pipeline_error "RENDER")
unfolding check_reruns
check_reruns-stale t id at actor p h upstream = rw upstream (ground arith)

-- Let no event of the journal be dated behind `at`, and let every transition of the engagement be
-- dated before it. If the QA gate lets the engagement be rendered, then behind a rerun event at `at`
-- whose target stage is upstream of the QA review the gate raises PipelineError.
pub rerun_invalidates :
    (es : List EventRow) (id : String) (at : ℕ) (actor : String) (p : Payload)
    → IsChronological at es
    → All (λ e. e.timestamp < at) (get_events_by_type es id state_transition)
    → contains str_eq (payload_text "target_stage" "" p) qa_upstream_stages ≡ true
    → verify_qa_for_render es id ≡ ok tt
    → verify_qa_for_render (es ++ event id rerun at actor p ∷ []) id ≡ err (pipeline_error "RENDER")
unfolding verify_qa_for_render
rerun_invalidates es id at actor p dated later upstream fresh =
    let r = event id rerun at actor p in
    let kept = get_events_by_type-append es r id state_transition dated in
    let added = get_events_by_type-append es r id rerun dated in
    rw (kept, added, eq_refl id)
      (again (scan_approval none (get_events_by_type es id state_transition)) refl)
  where
    again :
        (a : Result (Option ℕ))
        → scan_approval none (get_events_by_type es id state_transition) ≡ a
        → (a >>= λ approved.
            reruns_since approved
              (get_events_by_type es id rerun ++ event id rerun at actor p ∷ []))
          ≡ err (pipeline_error "RENDER")
    again (err x) e = let f = rw e at fresh in ground arith
    again (ok none) e = let f = rw e at fresh in ground arith
    again (ok (some t)) e =
        let f : check_reruns t (get_events_by_type es id rerun) ≡ ok tt = rw e at fresh in
        rw (check_reruns-append t (get_events_by_type es id rerun) (event id rerun at actor p), f)
          (check_reruns-stale t id at actor p
            (scan_approval-lt at none (get_events_by_type es id state_transition) t tt later e)
            upstream)

abbrev pub IsReadable : EventRow → Type 0
IsReadable e = (p : Payload) × (e.payload ≡ some p)

All-select {κ} :
    {A : Type 0} (P : A → Type κ) (p : A → Bool) (xs : List A) → All P xs → All P (select p xs)
All-select P p [] h = tt
All-select P p (x ∷ xs) h = elim (Bool-cases (p x)) [
  | inl t ↦ rw t (h.0, All-select P p xs h.1)
  | inr f ↦ rw f (All-select P p xs h.1)
]

-- what holds of the whole journal holds of what is read of it
All-read {κ} :
    (P : EventRow → Type κ) (es : List EventRow) (id : String) (ty : EventType)
    → All P es
    → All P (get_events_by_type es id ty)
unfolding get_events_by_type
All-read P es id ty h =
    All-sort_by not_after P (select (of_type id ty) es) (All-select P (of_type id ty) es h)

scan_approval-readable :
    (approved : Option ℕ) (es : List EventRow)
    → All IsReadable es
    → (a : Option ℕ) × (scan_approval approved es ≡ ok a)
unfolding scan_approval
scan_approval-readable approved [] h = (approved, refl)
scan_approval-readable approved (x ∷ es) ((p, read), h) =
    rw read (scan_approval-readable (approval_step x approved p) es h)

check_reruns-early :
    (t : ℕ) (es : List EventRow)
    → All IsReadable es
    → All (λ e. e.timestamp ≤ t) es
    → check_reruns t es ≡ ok tt
unfolding check_reruns
check_reruns-early t [] h k = refl
check_reruns-early t (x ∷ es) ((p, read), h) k =
    rw read (ground (arith, check_reruns-early t es h k.1))

-- Let no event of the journal be dated behind `at`, and let every payload be readable. Then behind a
-- transition to QA_APPROVED at `at` the QA gate lets the engagement be rendered, whatever was run
-- again before.
pub approval_restores :
    (es : List EventRow) (id : String) (at : ℕ) (actor : String) (p : Payload)
    → IsChronological at es
    → All IsReadable es
    → payload_is "to" "QA_APPROVED" p ≡ true
    → verify_qa_for_render (es ++ event id state_transition at actor p ∷ []) id ≡ ok tt
unfolding verify_qa_for_render
approval_restores es id at actor p dated readable approves =
    let e = event id state_transition at actor p in
    let added = get_events_by_type-append es e id state_transition dated in
    let kept = get_events_by_type-append es e id rerun dated in
    let (a, scanned) =
      scan_approval-readable none (get_events_by_type es id state_transition)
        (All-read IsReadable es id state_transition readable) in
    rw (added, kept, eq_refl id, scan_approval-append, scanned, approves)
      (check_reruns-early at (get_events_by_type es id rerun)
        (All-read IsReadable es id rerun readable)
        (All-read (λ x. x.timestamp ≤ at) es id rerun dated))
