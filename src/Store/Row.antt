-- ===== src/Store/Row.antt =====
-- src/modules/bridge/operation_store.rs: the columns of `bridge_operations` and their decoding.
-- The CHECK constraints of migrations/0004_st_sidecar.sql keep `status` and `commit_state` to the
-- names of the two enums, so these columns hold the enum and are read as its name.
use im_bridge_rs.Common.{
  ℕ, ℤ, pos, negsuc, String, not, Option, none, some, List, ◌==◌, ◌==ℤ◌, ltb, length, format, [],
  ◌∷◌, ◌^◌, if◌then◌else◌,
}
use im_bridge_rs.Errors.{AppResult, ok, err, ok_or, internal_error, ◌>>=◌}
use im_bridge_rs.Operation.{
  BridgeOperationStatus, OperationCommitState, status_as_str, parse_status,
  operation_commit_state_as_str, parse_operation_commit_state, EncryptedOperationPayload,
  BridgeOperationRecord,
}

pub record OperationRow : Type 0 where
  pub id : String
  pub actor_id : String
  pub bot_id : String
  pub telegram_update_id : ℤ  -- i64
  pub channel_context_key : String
  pub operation_kind : String
  pub st_handle : Option String
  pub st_character_avatar : Option String
  pub st_chat_file : Option String
  pub status : BridgeOperationStatus
  pub source_sha256 : Option String
  pub source_integrity : Option String
  pub source_size : Option ℤ  -- i64
  pub message_count : Option ℤ  -- i64
  pub operation_payload_ciphertext : Option (List ℕ)
  pub operation_payload_nonce : Option (List ℕ)
  pub operation_payload_key_version : Option ℤ  -- i64
  pub mutation_digest : Option String
  pub connector_result_json : Option String
  pub error_stage : Option String
  pub error_code : Option String
  pub error_summary : Option String
  pub retryable : ℤ  -- i64
  pub commit_state : OperationCommitState
  pub attempt_count : ℤ  -- i64
  pub request_id : Option String
  pub trace_id : Option String
  pub created_at : String
  pub updated_at : String

-- `Option::unwrap_or_default` on text
abbrev pub unwrap_or_default : Option String → String
unwrap_or_default none = ""
unwrap_or_default (some s) = s

-- `u32::try_from(i64)`
unfoldable pub u32_try_from : ℤ → Option ℕ
u32_try_from (pos n) = if ltb n (2 ^ 32) then some n else none
u32_try_from (negsuc n) = none

-- `map_payload`
unfoldable pub map_payload :
    Option (List ℕ) → Option (List ℕ) → Option ℤ → AppResult (Option EncryptedOperationPayload)
unfolding u32_try_from
map_payload none none none = ok none
map_payload (some ciphertext) (some nonce) (some key_version) =
    if not (length nonce == 24)
    then err (internal_error "operation payload nonce has invalid length")
    else (ok_or (u32_try_from key_version)
          (internal_error "operation payload key_version is invalid")
        >>= λ version.
            ok (some (record { ciphertext = ciphertext; nonce = nonce; key_version = version })))
map_payload _ _ _ =
    err (internal_error "operation payload ciphertext/nonce/key_version are inconsistent")

-- `OperationRow::into_record`
unfoldable pub into_record : OperationRow → AppResult BridgeOperationRecord
unfolding map_payload u32_try_from format parse_status status_as_str
into_record r = do
  status ←
      ok_or (parse_status (status_as_str r.status))
        (internal_error (format ("unknown bridge operation status " ∷ status_as_str r.status ∷ [])))
  commit_state ←
      ok_or (parse_operation_commit_state (operation_commit_state_as_str r.commit_state)) (
        internal_error (
          format (
            "unknown bridge operation commit_state "
            ∷ operation_commit_state_as_str r.commit_state
            ∷ [])))
  payload ←
      map_payload r.operation_payload_ciphertext r.operation_payload_nonce
        r.operation_payload_key_version
  attempt_count ←
      ok_or (u32_try_from r.attempt_count) (internal_error "operation attempt count is invalid")
  ok (record {
    id = r.id;
    actor_id = r.actor_id;
    bot_id = r.bot_id;
    telegram_update_id = r.telegram_update_id;
    channel_context_key = r.channel_context_key;
    operation_kind = r.operation_kind;
    locator = record {
      handle = unwrap_or_default r.st_handle;
      avatar = unwrap_or_default r.st_character_avatar;
      character_name = "";
      chat_file = unwrap_or_default r.st_chat_file;
    };
    status = status;
    commit_state = commit_state;
    source_sha256 = r.source_sha256;
    source_integrity = r.source_integrity;
    source_size = r.source_size;
    message_count = r.message_count;
    mutation_digest = r.mutation_digest;
    payload = payload;
    connector_result_json = r.connector_result_json;
    error_stage = r.error_stage;
    error_code = r.error_code;
    error_summary = r.error_summary;
    retryable = not (r.retryable ==ℤ pos 0);
    attempt_count = attempt_count;
    request_id = unwrap_or_default r.request_id;
    trace_id = unwrap_or_default r.trace_id;
    created_at = r.created_at;
    updated_at = r.updated_at;
  })
