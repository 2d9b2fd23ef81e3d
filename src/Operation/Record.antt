-- ===== src/Operation/Record.antt =====
-- src/modules/bridge/operations.rs, `BridgeOperationRecord`.
use im_bridge_rs.Common.{ℕ, ℤ, String, Bool, Option}
use im_bridge_rs.St.{StChatLocator}
use im_bridge_rs.Operation.Status.{BridgeOperationStatus, OperationCommitState}
use im_bridge_rs.Operation.Payload.{EncryptedOperationPayload}

pub record BridgeOperationRecord : Type 0 where
  pub id : String
  pub actor_id : String
  pub bot_id : String
  pub telegram_update_id : ℤ  -- i64
  pub channel_context_key : String
  pub operation_kind : String
  pub locator : StChatLocator
  pub status : BridgeOperationStatus
  pub commit_state : OperationCommitState
  pub source_sha256 : Option String
  pub source_integrity : Option String
  pub source_size : Option ℤ  -- i64
  pub message_count : Option ℤ  -- i64
  pub mutation_digest : Option String
  pub payload : Option EncryptedOperationPayload
  pub connector_result_json : Option String
  pub error_stage : Option String
  pub error_code : Option String
  pub error_summary : Option String
  pub retryable : Bool
  pub attempt_count : ℕ  -- u32
  pub request_id : String
  pub trace_id : String
  pub created_at : String
  pub updated_at : String
