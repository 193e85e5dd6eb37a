-- ===== src/PocketState/Examples.antt =====
-- A first publication during which a credential changes.
use arkode.Prelude.{◌≡◌, refl, true, some}
use arkode.Prelude.Results.{ok}
use arkode.PocketState.{
  PocketStateRow, PocketPublishAttempt, is_dirty, new_pocket_row, begin_publish_attempt,
  mark_changed, confirm_publish, RestoreInput, restored_row, restore, reset,
}

abbrev new_row : PocketStateRow
new_row = new_pocket_row 1 10 "backup"

abbrev edited : PocketStateRow
edited = mark_changed 12 (begin_publish_attempt 11 new_row).1

abbrev first_attempt : PocketPublishAttempt
first_attempt = (begin_publish_attempt 11 new_row).0

still_pending : is_dirty (confirm_publish 13 first_attempt edited) ≡ true
unfolding begin_publish_attempt mark_changed confirm_publish
still_pending = refl

-- After a reset a restore is accepted.
restored_again :
    (input : RestoreInput) → restore input (reset (some new_row)) ≡ ok (restored_row input)
restored_again input = refl
