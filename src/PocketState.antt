-- ===== src/PocketState.antt =====
-- packages/engine-core/src/db/repositories/pocketStateRepo.ts, and the triggers of
-- db/migrations/0023_add_pocket_state.sql on its table: what the desktop knows about its publications
-- for the phone. The table has one row at most. `published_seq` is none for the -1 of a new row; the
-- columns created_at and updated_at are left out.
pub mod History
mod Examples
use Prim.Native.String.{String}
use arkode.Prelude.{
  ℕ, suc, Bool, true, false, Option, none, some, ◌==◌, ltb, leb, or_default, if◌then◌else◌,
}
use arkode.Prelude.Results.{Result, ok, err}

pub record PocketStateRow : Type 0 where
  pub pocket_id : ℕ
  pub configured : Bool
  pub enabled : Bool
  pub drive_remote_path : Option String
  pub drive_file_id : Option String
  pub change_seq : ℕ
  pub published_seq : Option ℕ
  pub dirty_since : Option ℕ
  pub last_attempted_revision : Option ℕ
  pub last_confirmed_revision : Option ℕ
  pub last_attempt_at : Option ℕ
  pub last_successful_publish_at : Option ℕ
  pub last_error : Option String
  pub device_label : Option String
  pub paired_at : Option ℕ
  pub revoked_at : Option ℕ

pub record PocketPublishAttempt : Type 0 where
  pub target_seq : ℕ
  pub target_revision : ℕ

pub record RestoreInput : Type 0 where
  pub pocket_id : ℕ
  pub drive_remote_path : Option String
  pub drive_file_id : Option String
  pub enabled : Bool
  pub device_label : Option String
  pub paired_at : Option ℕ
  pub revoked_at : Option ℕ
  pub last_confirmed_revision : Option ℕ

abbrev pub PocketTable : Type 0
PocketTable = Option PocketStateRow

-- change_seq > published_seq.
abbrev pub is_newer : ℕ → Option ℕ → Bool
is_newer change none = true
is_newer change (some published) = ltb published change

-- change_seq = published_seq.
abbrev pub is_level : ℕ → Option ℕ → Bool
is_level change none = false
is_level change (some published) = change == published

-- `dirty` of the domain object.
abbrev pub is_dirty : PocketStateRow → Bool
is_dirty row = is_newer row.change_seq row.published_seq

abbrev pub require_row : PocketTable → Result String PocketStateRow
require_row none = err "Arkode Pocket has not been configured yet."
require_row (some row) = ok row

-- An UPDATE after `requireRow`.
abbrev pub update_pocket :
    (PocketStateRow → PocketStateRow) → PocketTable → Result String PocketStateRow
update_pocket change none = err "Arkode Pocket has not been configured yet."
update_pocket change (some row) = ok (change row)

-- The columns `configured` and `enabled` of a new row are set, by the INSERT and by default.
abbrev pub new_pocket_row : ℕ → ℕ → String → PocketStateRow
new_pocket_row id now path = record {
  pocket_id = id;
  configured = true;
  enabled = true;
  drive_remote_path = some path;
  drive_file_id = none;
  change_seq = 0;
  published_seq = none;
  dirty_since = some now;
  last_attempted_revision = none;
  last_confirmed_revision = none;
  last_attempt_at = none;
  last_successful_publish_at = none;
  last_error = none;
  device_label = none;
  paired_at = none;
  revoked_at = none;
}

unfoldable pub configure : ℕ → ℕ → String → PocketTable → PocketStateRow
configure id now path none = new_pocket_row id now path
configure id now path (some row) = record row { drive_remote_path = some path; configured = true }

abbrev pub set_enabled : Bool → PocketStateRow → PocketStateRow
set_enabled enabled row = record row { enabled = enabled }

abbrev pub set_drive_file_id : Option String → PocketStateRow → PocketStateRow
set_drive_file_id id row = record row { drive_file_id = id }

abbrev pub attempt_of : PocketStateRow → PocketPublishAttempt
attempt_of row = record {
  target_seq = row.change_seq;
  target_revision = suc (or_default row.last_confirmed_revision 0);
}

unfoldable pub begin_publish_attempt : ℕ → PocketStateRow → PocketPublishAttempt × PocketStateRow
begin_publish_attempt now row = (
  attempt_of row,
  record row {
    last_attempted_revision = some (attempt_of row).target_revision;
    last_attempt_at = some now;
  },
)

unfoldable pub confirm_publish : ℕ → PocketPublishAttempt → PocketStateRow → PocketStateRow
confirm_publish now attempt row = record row {
  published_seq = some attempt.target_seq;
  last_confirmed_revision = some attempt.target_revision;
  last_successful_publish_at = some now;
  last_error = none;
  dirty_since = if leb row.change_seq attempt.target_seq then none else row.dirty_since;
}

abbrev pub record_failure : String → PocketStateRow → PocketStateRow
record_failure message row = record row { last_error = some message }

abbrev pub record_pairing : ℕ → Option String → PocketStateRow → PocketStateRow
record_pairing now label row = record row { paired_at = some now; device_label = label }

unfoldable pub record_revocation : ℕ → PocketStateRow → PocketStateRow
record_revocation now row = record row {
  change_seq = suc row.change_seq;
  revoked_at = some now;
  dirty_since = some (or_default row.dirty_since now);
}

-- The triggers on the tables that a publication reads.
unfoldable pub mark_changed : ℕ → PocketStateRow → PocketStateRow
mark_changed now row = record row {
  change_seq = suc row.change_seq;
  dirty_since = if is_level row.change_seq row.published_seq then some now else row.dirty_since;
}

abbrev pub restored_row : RestoreInput → PocketStateRow
restored_row input = record {
  pocket_id = input.pocket_id;
  configured = true;
  enabled = input.enabled;
  drive_remote_path = input.drive_remote_path;
  drive_file_id = input.drive_file_id;
  change_seq = 0;
  published_seq = some 0;
  dirty_since = none;
  last_attempted_revision = none;
  last_confirmed_revision = input.last_confirmed_revision;
  last_attempt_at = none;
  last_successful_publish_at = none;
  last_error = none;
  device_label = input.device_label;
  paired_at = input.paired_at;
  revoked_at = input.revoked_at;
}

abbrev pub restore : RestoreInput → PocketTable → Result String PocketStateRow
restore input (some row) =
    err
      "Arkode Pocket is already configured on this machine — restore is only supported into a fresh install."
restore input none = ok (restored_row input)

abbrev pub reset : PocketTable → PocketTable
reset table = none
