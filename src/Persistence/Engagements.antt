-- ===== src/Persistence/Engagements.antt =====
-- persistence/engagement_repo.py: reading and moving engagements. A transaction writes
-- after its checks, so one that raises has written nothing.
pub mod Administration
pub mod Deleting
use gxassessms.Base.{String, Option, none, some, lookup, upsert}
use gxassessms.Exec.{Exec, pure, raise, lift, gets, modify, ◌>>=◌, ◌>>◌}
use gxassessms.Errors.{persistence_error}
use gxassessms.Domain.Lifecycle.{
  EngagementState, state_value, state_of_value, assert_can_transition_to,
}
use gxassessms.Persistence.Store.{Store, EngagementRow, utc_now}

-- SELECT ... FROM engagements WHERE engagement_id = ?
abbrev pub find_row : Store → String → Option EngagementRow
find_row s engagement_id = lookup engagement_id s.engagements

abbrev pub put_row : String → EngagementRow → Exec Store (Unit {0})
put_row engagement_id row =
    modify (λ s. record s { engagements = upsert engagement_id row s.engagements })

abbrev pub or_not_found : Option EngagementRow → Exec Store EngagementRow
or_not_found none = raise persistence_error
or_not_found (some row) = pure row

abbrev or_unrecognized : Option EngagementState → Exec Store EngagementState
or_unrecognized none = raise persistence_error
or_unrecognized (some state) = pure state

unfoldable pub get : String → Exec Store EngagementRow
unfolding lookup
get engagement_id = do row ← gets (λ s. find_row s engagement_id); or_not_found row

unfoldable pub update_state : String → EngagementState → Exec Store (Unit {0})
unfolding utc_now
update_state engagement_id state = do
  now ← utc_now
  found ← gets (λ s. find_row s engagement_id)
  row ← or_not_found found
  current ← or_unrecognized (state_of_value row.state)
  lift (assert_can_transition_to current state)
  put_row engagement_id (record row { state = state_value state; updated_at = some now })

unfoldable pub force_update_state : String → EngagementState → Exec Store (Unit {0})
unfolding utc_now
force_update_state engagement_id state = do
  now ← utc_now
  found ← gets (λ s. find_row s engagement_id)
  row ← or_not_found found
  put_row engagement_id (record row { state = state_value state; updated_at = some now })
