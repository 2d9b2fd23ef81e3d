-- ===== src/Errors/Codes.antt =====
-- src/modules/bridge/errors.rs: the stages, commit states, retry actions and codes of a bridge error,
-- with their wire names.
use im_bridge_rs.Common.{String, Option, [], ◌∷◌, match_text}

pub data StErrorStage : Type 0 where
  control connect session catalog snapshot prompt generation commit delivery : StErrorStage

pub data CommitState : Type 0 where
  not_started not_applied applied unknown : CommitState

pub data RetryAction : Type 0 where
  retry_direct retry_explicit retry_from_latest_snapshot reconcile_same_operation : RetryAction
  retry_delivery_only no_retry : RetryAction

pub data StErrorCode : Type 0 where
  st_connect_failed st_request_timeout st_csrf_fetch_failed st_csrf_missing : StErrorCode
  st_session_rejected st_character_list_failed st_chat_list_failed st_chat_not_found : StErrorCode
  st_chat_payload_invalid st_settings_invalid st_generate_rejected st_generate_rate_limited :
      StErrorCode
  st_generate_upstream_5xx st_generate_idle_timeout st_generate_hard_timeout : StErrorCode
  st_generate_stream_invalid st_generate_empty st_generate_state_unknown : StErrorCode
  st_connector_unavailable st_connector_auth_failed st_connector_version_mismatch : StErrorCode
  st_connector_media_type_rejected st_write_not_ready st_test_scope_required : StErrorCode
  st_poller_not_owner st_poller_epoch_mismatch st_chat_locator_rejected : StErrorCode
  st_chat_integrity_missing st_chat_conflict st_operation_id_reused st_backup_failed : StErrorCode
  st_backup_quota_exceeded st_write_verify_failed st_commit_payload_too_large : StErrorCode
  st_commit_validation_failed st_commit_failed st_commit_state_unknown st_delivery_failed :
      StErrorCode

unfoldable pub stage_as_str : StErrorStage → String
stage_as_str StErrorStage.control = "control"
stage_as_str StErrorStage.connect = "connect"
stage_as_str StErrorStage.session = "session"
stage_as_str StErrorStage.catalog = "catalog"
stage_as_str StErrorStage.snapshot = "snapshot"
stage_as_str StErrorStage.prompt = "prompt"
stage_as_str StErrorStage.generation = "generation"
stage_as_str StErrorStage.commit = "commit"
stage_as_str StErrorStage.delivery = "delivery"

unfoldable pub parse_stage : String → Option StErrorStage
parse_stage = match_text (
    ("control", StErrorStage.control)
    ∷ ("connect", StErrorStage.connect)
    ∷ ("session", StErrorStage.session)
    ∷ ("catalog", StErrorStage.catalog)
    ∷ ("snapshot", StErrorStage.snapshot)
    ∷ ("prompt", StErrorStage.prompt)
    ∷ ("generation", StErrorStage.generation)
    ∷ ("commit", StErrorStage.commit)
    ∷ ("delivery", StErrorStage.delivery)
    ∷ [])

unfoldable pub commit_state_as_str : CommitState → String
commit_state_as_str CommitState.not_started = "not_started"
commit_state_as_str CommitState.not_applied = "not_applied"
commit_state_as_str CommitState.applied = "applied"
commit_state_as_str CommitState.unknown = "unknown"

unfoldable pub parse_commit_state : String → Option CommitState
parse_commit_state = match_text (
    ("not_started", CommitState.not_started)
    ∷ ("not_applied", CommitState.not_applied)
    ∷ ("applied", CommitState.applied)
    ∷ ("unknown", CommitState.unknown)
    ∷ [])

unfoldable pub retry_action_as_str : RetryAction → String
retry_action_as_str RetryAction.retry_direct = "retry_direct"
retry_action_as_str RetryAction.retry_explicit = "retry_explicit"
retry_action_as_str RetryAction.retry_from_latest_snapshot = "retry_from_latest_snapshot"
retry_action_as_str RetryAction.reconcile_same_operation = "reconcile_same_operation"
retry_action_as_str RetryAction.retry_delivery_only = "retry_delivery_only"
retry_action_as_str RetryAction.no_retry = "no_retry"

unfoldable pub code_as_str : StErrorCode → String
code_as_str StErrorCode.st_connect_failed = "ST_CONNECT_FAILED"
code_as_str StErrorCode.st_request_timeout = "ST_REQUEST_TIMEOUT"
code_as_str StErrorCode.st_csrf_fetch_failed = "ST_CSRF_FETCH_FAILED"
code_as_str StErrorCode.st_csrf_missing = "ST_CSRF_MISSING"
code_as_str StErrorCode.st_session_rejected = "ST_SESSION_REJECTED"
code_as_str StErrorCode.st_character_list_failed = "ST_CHARACTER_LIST_FAILED"
code_as_str StErrorCode.st_chat_list_failed = "ST_CHAT_LIST_FAILED"
code_as_str StErrorCode.st_chat_not_found = "ST_CHAT_NOT_FOUND"
code_as_str StErrorCode.st_chat_payload_invalid = "ST_CHAT_PAYLOAD_INVALID"
code_as_str StErrorCode.st_settings_invalid = "ST_SETTINGS_INVALID"
code_as_str StErrorCode.st_generate_rejected = "ST_GENERATE_REJECTED"
code_as_str StErrorCode.st_generate_rate_limited = "ST_GENERATE_RATE_LIMITED"
code_as_str StErrorCode.st_generate_upstream_5xx = "ST_GENERATE_UPSTREAM_5XX"
code_as_str StErrorCode.st_generate_idle_timeout = "ST_GENERATE_IDLE_TIMEOUT"
code_as_str StErrorCode.st_generate_hard_timeout = "ST_GENERATE_HARD_TIMEOUT"
code_as_str StErrorCode.st_generate_stream_invalid = "ST_GENERATE_STREAM_INVALID"
code_as_str StErrorCode.st_generate_empty = "ST_GENERATE_EMPTY"
code_as_str StErrorCode.st_generate_state_unknown = "ST_GENERATE_STATE_UNKNOWN"
code_as_str StErrorCode.st_connector_unavailable = "ST_CONNECTOR_UNAVAILABLE"
code_as_str StErrorCode.st_connector_auth_failed = "ST_CONNECTOR_AUTH_FAILED"
code_as_str StErrorCode.st_connector_version_mismatch = "ST_CONNECTOR_VERSION_MISMATCH"
code_as_str StErrorCode.st_connector_media_type_rejected = "ST_CONNECTOR_MEDIA_TYPE_REJECTED"
code_as_str StErrorCode.st_write_not_ready = "ST_WRITE_NOT_READY"
code_as_str StErrorCode.st_test_scope_required = "ST_TEST_SCOPE_REQUIRED"
code_as_str StErrorCode.st_poller_not_owner = "ST_POLLER_NOT_OWNER"
code_as_str StErrorCode.st_poller_epoch_mismatch = "ST_POLLER_EPOCH_MISMATCH"
code_as_str StErrorCode.st_chat_locator_rejected = "ST_CHAT_LOCATOR_REJECTED"
code_as_str StErrorCode.st_chat_integrity_missing = "ST_CHAT_INTEGRITY_MISSING"
code_as_str StErrorCode.st_chat_conflict = "ST_CHAT_CONFLICT"
code_as_str StErrorCode.st_operation_id_reused = "ST_OPERATION_ID_REUSED"
code_as_str StErrorCode.st_backup_failed = "ST_BACKUP_FAILED"
code_as_str StErrorCode.st_backup_quota_exceeded = "ST_BACKUP_QUOTA_EXCEEDED"
code_as_str StErrorCode.st_write_verify_failed = "ST_WRITE_VERIFY_FAILED"
code_as_str StErrorCode.st_commit_payload_too_large = "ST_COMMIT_PAYLOAD_TOO_LARGE"
code_as_str StErrorCode.st_commit_validation_failed = "ST_COMMIT_VALIDATION_FAILED"
code_as_str StErrorCode.st_commit_failed = "ST_COMMIT_FAILED"
code_as_str StErrorCode.st_commit_state_unknown = "ST_COMMIT_STATE_UNKNOWN"
code_as_str StErrorCode.st_delivery_failed = "ST_DELIVERY_FAILED"

unfoldable pub parse_code : String → Option StErrorCode
parse_code = match_text (
    ("ST_CONNECT_FAILED", StErrorCode.st_connect_failed)
    ∷ ("ST_REQUEST_TIMEOUT", StErrorCode.st_request_timeout)
    ∷ ("ST_CSRF_FETCH_FAILED", StErrorCode.st_csrf_fetch_failed)
    ∷ ("ST_CSRF_MISSING", StErrorCode.st_csrf_missing)
    ∷ ("ST_SESSION_REJECTED", StErrorCode.st_session_rejected)
    ∷ ("ST_CHARACTER_LIST_FAILED", StErrorCode.st_character_list_failed)
    ∷ ("ST_CHAT_LIST_FAILED", StErrorCode.st_chat_list_failed)
    ∷ ("ST_CHAT_NOT_FOUND", StErrorCode.st_chat_not_found)
    ∷ ("ST_CHAT_PAYLOAD_INVALID", StErrorCode.st_chat_payload_invalid)
    ∷ ("ST_SETTINGS_INVALID", StErrorCode.st_settings_invalid)
    ∷ ("ST_GENERATE_REJECTED", StErrorCode.st_generate_rejected)
    ∷ ("ST_GENERATE_RATE_LIMITED", StErrorCode.st_generate_rate_limited)
    ∷ ("ST_GENERATE_UPSTREAM_5XX", StErrorCode.st_generate_upstream_5xx)
    ∷ ("ST_GENERATE_IDLE_TIMEOUT", StErrorCode.st_generate_idle_timeout)
    ∷ ("ST_GENERATE_HARD_TIMEOUT", StErrorCode.st_generate_hard_timeout)
    ∷ ("ST_GENERATE_STREAM_INVALID", StErrorCode.st_generate_stream_invalid)
    ∷ ("ST_GENERATE_EMPTY", StErrorCode.st_generate_empty)
    ∷ ("ST_GENERATE_STATE_UNKNOWN", StErrorCode.st_generate_state_unknown)
    ∷ ("ST_CONNECTOR_UNAVAILABLE", StErrorCode.st_connector_unavailable)
    ∷ ("ST_CONNECTOR_AUTH_FAILED", StErrorCode.st_connector_auth_failed)
    ∷ ("ST_CONNECTOR_VERSION_MISMATCH", StErrorCode.st_connector_version_mismatch)
    ∷ ("ST_CONNECTOR_MEDIA_TYPE_REJECTED", StErrorCode.st_connector_media_type_rejected)
    ∷ ("ST_WRITE_NOT_READY", StErrorCode.st_write_not_ready)
    ∷ ("ST_TEST_SCOPE_REQUIRED", StErrorCode.st_test_scope_required)
    ∷ ("ST_POLLER_NOT_OWNER", StErrorCode.st_poller_not_owner)
    ∷ ("ST_POLLER_EPOCH_MISMATCH", StErrorCode.st_poller_epoch_mismatch)
    ∷ ("ST_CHAT_LOCATOR_REJECTED", StErrorCode.st_chat_locator_rejected)
    ∷ ("ST_CHAT_INTEGRITY_MISSING", StErrorCode.st_chat_integrity_missing)
    ∷ ("ST_CHAT_CONFLICT", StErrorCode.st_chat_conflict)
    ∷ ("ST_OPERATION_ID_REUSED", StErrorCode.st_operation_id_reused)
    ∷ ("ST_BACKUP_FAILED", StErrorCode.st_backup_failed)
    ∷ ("ST_BACKUP_QUOTA_EXCEEDED", StErrorCode.st_backup_quota_exceeded)
    ∷ ("ST_WRITE_VERIFY_FAILED", StErrorCode.st_write_verify_failed)
    ∷ ("ST_COMMIT_PAYLOAD_TOO_LARGE", StErrorCode.st_commit_payload_too_large)
    ∷ ("ST_COMMIT_VALIDATION_FAILED", StErrorCode.st_commit_validation_failed)
    ∷ ("ST_COMMIT_FAILED", StErrorCode.st_commit_failed)
    ∷ ("ST_COMMIT_STATE_UNKNOWN", StErrorCode.st_commit_state_unknown)
    ∷ ("ST_DELIVERY_FAILED", StErrorCode.st_delivery_failed)
    ∷ [])
