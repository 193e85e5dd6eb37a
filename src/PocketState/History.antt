-- ===== src/PocketState/History.antt =====
-- What the pending mark says, over the operations and the changes that interleave with a publication.
use Prim.Native.String.{String}
use arkode.Prelude.{ℕ, suc, ◌≤◌, ◌≡◌, Bool, Option, none, some, is_some, or_default}
use arkode.PocketState.{
  PocketStateRow, PocketPublishAttempt, RestoreInput, is_dirty, new_pocket_row, configure,
  set_enabled, set_drive_file_id, begin_publish_attempt, confirm_publish, record_failure,
  record_pairing, record_revocation, mark_changed, restored_row,
}

-- The rows that the desktop reaches, with the attempt that is under way: one at a time, as the
-- publish lock has it. Anything but a confirmation may happen at any time.
pub data PocketHistory : PocketStateRow → Option PocketPublishAttempt → Type 0 where
  configured : (id now : ℕ) (path : String) → PocketHistory (new_pocket_row id now path) none
  restored : (input : RestoreInput) → PocketHistory (restored_row input) none
  reconfigured :
      {row : PocketStateRow} {flight : Option PocketPublishAttempt} (id now : ℕ) (path : String)
      → PocketHistory row flight
      → PocketHistory (configure id now path (some row)) flight
  switched :
      {row : PocketStateRow} {flight : Option PocketPublishAttempt} (enabled : Bool)
      → PocketHistory row flight
      → PocketHistory (set_enabled enabled row) flight
  located :
      {row : PocketStateRow} {flight : Option PocketPublishAttempt} (file_id : Option String)
      → PocketHistory row flight
      → PocketHistory (set_drive_file_id file_id row) flight
  changed :
      {row : PocketStateRow} {flight : Option PocketPublishAttempt} (now : ℕ)
      → PocketHistory row flight
      → PocketHistory (mark_changed now row) flight
  paired :
      {row : PocketStateRow} {flight : Option PocketPublishAttempt} (now : ℕ)
      (label : Option String)
      → PocketHistory row flight
      → PocketHistory (record_pairing now label row) flight
  revoked :
      {row : PocketStateRow} {flight : Option PocketPublishAttempt} (now : ℕ)
      → PocketHistory row flight
      → PocketHistory (record_revocation now row) flight
  began :
      {row : PocketStateRow} (now : ℕ)
      → PocketHistory row none
      → PocketHistory (begin_publish_attempt now row).1 (some (begin_publish_attempt now row).0)
  failed :
      {row : PocketStateRow} {flight : Option PocketPublishAttempt} (message : String)
      → PocketHistory row flight
      → PocketHistory (record_failure message row) none
  confirmed :
      {row : PocketStateRow} {attempt : PocketPublishAttempt} (now : ℕ)
      → PocketHistory row (some attempt)
      → PocketHistory (confirm_publish now attempt row) none

-- The counter of what was published is not ahead of the changes.
abbrev IsBehind : Option ℕ → ℕ → Type 0
IsBehind none change = Unit {0}
IsBehind (some published) change = published ≤ change

abbrev IsFlight : Option PocketPublishAttempt → PocketStateRow → Type 0
IsFlight none row = Unit {0}
IsFlight (some attempt) row =
    (attempt.target_seq ≤ row.change_seq)
    × (attempt.target_revision ≡ suc (or_default row.last_confirmed_revision 0))
    × IsBehind row.published_seq attempt.target_seq

pub record IsConsistent (row : PocketStateRow) (flight : Option PocketPublishAttempt) : Type 0 where
  pub marked : is_dirty row ≡ is_some row.dirty_since
  pub behind : IsBehind row.published_seq row.change_seq
  pub flying : IsFlight flight row
