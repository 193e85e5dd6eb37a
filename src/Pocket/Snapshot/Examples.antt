-- ===== src/Pocket/Snapshot/Examples.antt =====
-- Tests and the theorems at a concrete input.
use arkode.Prelude.{◌≡◌, refl}
use arkode.Prelude.Results.{ok, err}
use arkode.Pocket.Json.{number, array, object, no_items, no_fields, field}
use arkode.Pocket.Snapshot.{
  payload, unexpected_field, assert_only_keys, validate_pocket_snapshot_payload,
}
use arkode.Pocket.Snapshot.Documents.{payload_json}
use arkode.Pocket.Snapshot.RoundTrip.{validate-payload_json}
use arkode.Pocket.Snapshot.AllowList.{IsAllowedPayload, validated-IsAllowed}
use arkode.Pocket.Samples.{one_client}

-- A payload with a backup task is refused.
with_tasks :
    validate_pocket_snapshot_payload
      (object (field "formatVersion" (number 1) (field "tasks" (array no_items) no_fields)))
    ≡ err (unexpected_field payload "tasks")
unfolding validate_pocket_snapshot_payload assert_only_keys
with_tasks = refl

validate-payload_json_example :
    validate_pocket_snapshot_payload (payload_json one_client) ≡ ok one_client
validate-payload_json_example = validate-payload_json one_client ((λ e. cc), tt)

validated-IsAllowed_example : IsAllowedPayload (payload_json one_client)
validated-IsAllowed_example =
    validated-IsAllowed (payload_json one_client) one_client validate-payload_json_example
