-- ===== src/Operation/Payload.antt =====
-- src/modules/bridge/operations.rs: the recovery payload, which holds what a replay needs, and its
-- encrypted form.
use im_bridge_rs.Common.{
  ℕ, String, Bool, not, ◌||◌, Option, none, some, List, is_blank, if◌then◌else◌,
}
use im_bridge_rs.Errors.{AppResult, ok, err, bad_request_error}
use im_bridge_rs.St.{
  StMutation, append_turn, undo_last_turn, replace_last_assistant, compress_messages, CreateStChat,
  PollerRuntimeFence, fence_is_valid,
}

-- The fields that `Append`, `Replace`, `Undo` and `Compress` share.
pub record CommitPayload (V : Type 0) : Type 0 where
  pub mutation : StMutation V
  pub expected_sha256 : String
  pub expected_integrity : String
  pub fence : PollerRuntimeFence

pub data OperationRecoveryPayload (V : Type 0) : Type 0 where
  append replace undo compress : CommitPayload V → OperationRecoveryPayload V
  create : CreateStChat V → OperationRecoveryPayload V

pub record EncryptedOperationPayload : Type 0 where
  pub ciphertext : List ℕ
  pub nonce : List ℕ  -- [u8; 24]
  pub key_version : ℕ  -- u32

unfoldable pub invalid : AppResult (Unit {0})
invalid =
    err
      (bad_request_error "PAYLOAD_RECOVERY_INVALID" "recovery payload mutation kind is not allowed")

module _ {V : Type 0} where
  -- `OperationRecoveryPayload::mutation`
  unfoldable pub payload_mutation : OperationRecoveryPayload V → Option (StMutation V)
  payload_mutation (append p) = some p.mutation
  payload_mutation (replace p) = some p.mutation
  payload_mutation (undo p) = some p.mutation
  payload_mutation (compress p) = some p.mutation
  payload_mutation (create c) = none

  unfoldable pub payload_fence : OperationRecoveryPayload V → PollerRuntimeFence
  payload_fence (append p) = p.fence
  payload_fence (replace p) = p.fence
  payload_fence (undo p) = p.fence
  payload_fence (compress p) = p.fence
  payload_fence (create c) = c.fence

  unfoldable pub identity_missing : CommitPayload V → Bool
  identity_missing p = is_blank p.expected_sha256 || is_blank p.expected_integrity

  unfoldable pub validate_identity : CommitPayload V → AppResult (Unit {0})
  unfolding identity_missing
  validate_identity p =
      if identity_missing p
      then err
          (bad_request_error "PAYLOAD_RECOVERY_INVALID" "recovery snapshot identity is required")
      else ok tt

  -- The second `match` of `validate`: the kind of the payload and of its mutation agree.
  unfoldable pub validate_append : CommitPayload V → StMutation V → AppResult (Unit {0})
  unfolding validate_identity invalid
  validate_append p (append_turn u a) = validate_identity p
  validate_append p _ = invalid

  unfoldable pub validate_replace : CommitPayload V → StMutation V → AppResult (Unit {0})
  unfolding validate_identity invalid
  validate_replace p (replace_last_assistant e a) = validate_identity p
  validate_replace p _ = invalid

  unfoldable pub validate_undo : CommitPayload V → StMutation V → AppResult (Unit {0})
  unfolding validate_identity invalid
  validate_undo p (undo_last_turn u a) = validate_identity p
  validate_undo p _ = invalid

  unfoldable pub validate_compress : CommitPayload V → StMutation V → AppResult (Unit {0})
  unfolding validate_identity invalid
  validate_compress p (compress_messages patches) = validate_identity p
  validate_compress p _ = invalid

  unfoldable pub validate_kind : OperationRecoveryPayload V → AppResult (Unit {0})
  unfolding validate_append validate_replace validate_undo validate_compress
  validate_kind (append p) = validate_append p p.mutation
  validate_kind (replace p) = validate_replace p p.mutation
  validate_kind (undo p) = validate_undo p p.mutation
  validate_kind (compress p) = validate_compress p p.mutation
  validate_kind (create c) =
      if is_blank c.operation_id
      then err (bad_request_error "PAYLOAD_RECOVERY_INVALID" "create operation id is required")
      else ok tt

  -- `OperationRecoveryPayload::validate`
  unfoldable pub validate : OperationRecoveryPayload V → AppResult (Unit {0})
  unfolding validate_kind payload_fence
  validate p =
      if not (fence_is_valid (payload_fence p))
      then err (
          bad_request_error "PAYLOAD_FENCE_INVALID"
            "operation recovery payload runtime fence is invalid")
      else validate_kind p
