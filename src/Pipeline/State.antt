-- ===== src/Pipeline/State.antt =====
-- pipeline/state.py: the advisory lock of an engagement, and the payload of an event.
pub mod Locking
use gxassessms.Base.{
  codes, ℕ, String, Bool, true, false, not, Option, none, some, List, [], ◌∷◌, ◌==◌, ◌&&◌, ◌||◌,
  leb, str_eq, if◌then◌else◌, contains, select, lookup,
}
use gxassessms.Exec.{Exec, pure, raise, lift, gets, modify, continue, ◌>>=◌, ◌>>◌}
use gxassessms.Errors.{Result, ok, err, persistence_error, lock_timeout_error}
use gxassessms.Persistence.Store.{Store, EventRow, Payload, Value, text}

-- [a-zA-Z0-9_-]
unfoldable pub is_id_char : ℕ → Bool
is_id_char c =
    leb b'a' c && leb c b'z'
    || leb b'A' c && leb c b'Z'
    || leb b'0' c && leb c b'9'
    || c == b'_'
    || c == b'-'

-- `[a-zA-Z0-9_-]*$`: in Python `$` also stands before a newline that ends the text
unfoldable pub id_rest : List ℕ → Bool
unfolding is_id_char
id_rest [] = true
id_rest (c ∷ []) = is_id_char c || c == 10
id_rest (c ∷ d ∷ cs) = is_id_char c && id_rest (d ∷ cs)

-- ENGAGEMENT_ID_PATTERN.match(id)
unfoldable pub matches_id_pattern : List ℕ → Bool
unfolding id_rest
matches_id_pattern [] = false
matches_id_pattern (c ∷ cs) = is_id_char c && id_rest cs

unfoldable pub acquire : String → Exec Store (Unit {0})
unfolding contains
acquire engagement_id s =
    if contains str_eq engagement_id s.held
    then (err persistence_error, s)
    else if not (matches_id_pattern (codes engagement_id))
    then (err persistence_error, s)
    else if contains str_eq engagement_id s.held_elsewhere
    then (err lock_timeout_error, s)
    else (ok tt, record s { held = engagement_id ∷ s.held })

-- `pop(engagement_id, None)`, and the file lock is released
unfoldable pub release : String → Store → Store
release engagement_id s = record s {
  held = select (λ held_id. not (str_eq held_id engagement_id)) s.held;
}

abbrev pub released : {A : Type 0} → String → Result A × Store → Result A × Store
released engagement_id (r, s) = (r, release engagement_id s)

abbrev pub under_lock :
    {A : Type 0} → String → Exec Store A → Result (Unit {0}) → Store → Result A × Store
under_lock engagement_id body (ok _) s = released engagement_id (body s)
under_lock engagement_id body (err e) s = (err e, s)

-- `with lock.hold(engagement_id): body`
unfoldable pub hold : {A : Type 0} → String → Exec Store A → Exec Store A
unfolding acquire release
hold engagement_id body s =
    let (r, s') = acquire engagement_id s in under_lock engagement_id body r s'

-- _extract_payload(event)
unfoldable pub extract_payload : EventRow → Result Payload
extract_payload e = elim e.payload [ none ↦ err persistence_error | some p ↦ ok p ]

abbrev text_is : String → Option Value → Bool
text_is t (some (text u)) = str_eq u t
text_is t _ = false

-- payload.get(key) == t
unfoldable pub payload_is : String → String → Payload → Bool
unfolding lookup
payload_is key t p = text_is t (lookup key p)

abbrev text_or : String → Option Value → String
text_or d (some (text u)) = u
text_or d _ = d

-- payload.get(key, d), for a key whose value is a text
unfoldable pub payload_text : String → String → Payload → String
unfolding lookup
payload_text key d p = text_or d (lookup key p)
