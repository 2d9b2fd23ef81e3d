-- ===== src/Coordinator/Replay.antt =====
-- src/modules/bridge/operation_coordinator.rs: `replay_generated`, and src/modules/bridge/
-- operation_payload.rs: the restoring of the key of an operation.
use im_bridge_rs.Common.{String, not, ◌||◌, str_eq, is_blank, if◌then◌else◌}
use im_bridge_rs.Errors.{
  AppError, StResult, ok, err, ok_or, service_unavailable_error, conflict_error,
}
use im_bridge_rs.St.{StCommitResult, StCommitStatus, PollerRuntimeFence, fence_is_valid}
use im_bridge_rs.Operation.{
  OperationRecoveryPayload, append, replace, undo, compress, create, CommitPayload,
  OperationCommitState, BridgeOperationRecord, generated,
}
use im_bridge_rs.Store.{
  M, ◌>>=◌, ◌>>◌, lift, mapping_err, get_operation_key_reference, mark_committed_with_state,
  status_eq,
}
use im_bridge_rs.Coordinator.Seams.{Platform}
use im_bridge_rs.Coordinator.Payloads.{
  OperationCoordinator, OperationPayloadEncryptor, from_wrapped, recovery_payload,
  decode_and_validate_recovery_payload, key_unavailable,
}
use im_bridge_rs.Coordinator.Reports.{
  bridge_error_from_app, unknown_commit_error, not_applied_error,
}
use im_bridge_rs.Coordinator.Commit.{
  StM, send_marked, settle_not_applied, settle_unknown, is_not_applied,
}

module _ {V : Type 0} (p : Platform V) where
  -- `OperationPayloadKeyProvider::restore_for_operation`
  unfoldable pub restore_for_operation : String → M AppError OperationPayloadEncryptor
  unfolding get_operation_key_reference from_wrapped
  restore_for_operation operation_id = do
    found ← get_operation_key_reference operation_id
    reference ← lift (
        ok_or found (
          service_unavailable_error "PAYLOAD_KEY_REFERENCE_MISSING"
            "operation payload key reference is missing"))
    lift (from_wrapped p reference.wrapped_secret_id reference.key_version)

  -- `restore_payload_encryptor_for_operation`
  unfoldable pub restore_payload_encryptor_for_operation :
      OperationCoordinator → String → M AppError OperationPayloadEncryptor
  unfolding restore_for_operation
  restore_payload_encryptor_for_operation c operation_id =
      if c.payload_key_provider
      then restore_for_operation operation_id
      else lift (ok_or c.payload_encryptor key_unavailable)

  -- `decrypt_recovery_payload_for_operation`
  unfoldable pub decrypt_recovery_payload_for_operation :
      OperationCoordinator
      → BridgeOperationRecord
      → PollerRuntimeFence
      → M AppError (OperationRecoveryPayload V)
  unfolding restore_payload_encryptor_for_operation recovery_payload fence_is_valid
      decode_and_validate_recovery_payload
  decrypt_recovery_payload_for_operation c r fence = do
    encryptor ← restore_payload_encryptor_for_operation c r.id
    encrypted ← lift (recovery_payload r)
    if not (fence_is_valid fence) || not (str_eq fence.internal_bot_id r.bot_id)
        then lift (
            err (
              conflict_error "PAYLOAD_AAD_INVALID"
                "operation recovery fence does not match the historical operation"))
        else lift (decode_and_validate_recovery_payload p encryptor r encrypted fence)

  send_commit : BridgeOperationRecord → CommitPayload V → StResult StCommitResult
  send_commit r c = p.backend_commit (record {
    operation_id = r.id;
    locator = r.locator;
    expected_sha256 = c.expected_sha256;
    expected_integrity = c.expected_integrity;
    mutation = c.mutation;
    fence = c.fence;
  })

  -- The `match payload` of `replay_generated`.
  unfoldable pub send : BridgeOperationRecord → OperationRecoveryPayload V → StResult StCommitResult
  unfolding send_commit
  send r (create command) = p.backend_create command
  send r (append c) = send_commit r c
  send r (replace c) = send_commit r c
  send r (undo c) = send_commit r c
  send r (compress c) = send_commit r c

  -- Unlike `commit`, a replay does not mark the commit unknown when its result is not recorded.
  unfoldable pub replay_applied : BridgeOperationRecord → StCommitResult → StM StCommitResult
  unfolding unknown_commit_error
  replay_applied r result = do
    encoded ← lift (ok_or (p.result_to_string result) (unknown_commit_error p.ids r.id))
    mapping_err (λ _. unknown_commit_error p.ids r.id)
        (mark_committed_with_state r.id encoded OperationCommitState.not_started p.now)
    lift (ok result)

  unfoldable pub replay_status :
      BridgeOperationRecord → StCommitStatus → StCommitResult → StM StCommitResult
  unfolding replay_applied settle_not_applied settle_unknown not_applied_error
  replay_status r StCommitStatus.applied result = replay_applied r result
  replay_status r StCommitStatus.already_applied result = replay_applied r result
  replay_status r StCommitStatus.not_applied result =
      settle_not_applied p r.id "replayed commit was not applied" (not_applied_error p.ids r.id)
  replay_status r StCommitStatus.unknown result = settle_unknown p r.id

  -- The `match result` of `replay_generated`.
  unfoldable pub replay_settle :
      BridgeOperationRecord → StResult StCommitResult → StM StCommitResult
  unfolding replay_status settle_not_applied settle_unknown
  replay_settle r (ok result) = replay_status r result.status result
  replay_settle r (err error) =
      if is_not_applied error.commit_state
      then settle_not_applied p r.id "replayed commit was rejected before mutation" error
      else settle_unknown p r.id

  -- `replay_generated`
  unfoldable pub replay_generated :
      OperationCoordinator
      → BridgeOperationRecord
      → String
      → PollerRuntimeFence
      → StM StCommitResult
  unfolding decrypt_recovery_payload_for_operation send send_marked replay_settle fence_is_valid
      bridge_error_from_app unknown_commit_error
  replay_generated c r internal_bot_id fence =
      if not (fence_is_valid fence)
        || is_blank internal_bot_id
        || not (str_eq internal_bot_id r.bot_id)
        || not (str_eq fence.internal_bot_id r.bot_id)
      then lift (
          err (
            bridge_error_from_app p.ids r.id (
              conflict_error "PAYLOAD_AAD_INVALID"
                "operation replay bot identity does not match the historical operation")))
      else if not (status_eq r.status generated)
      then lift (err (unknown_commit_error p.ids r.id))
      else do
        payload ←
            mapping_err (bridge_error_from_app p.ids r.id)
              (decrypt_recovery_payload_for_operation c r fence)
        send_marked p r.id (send r payload) (replay_settle r)
