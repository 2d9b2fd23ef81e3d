-- ===== src/Errors/Bridge.antt =====
-- src/modules/bridge/errors.rs, `StBridgeError`, and src/error.rs, `AppError`.
-- `safe_detail`, which carries redacted text for operators and decides nothing, is left out. The
-- two fresh identifiers that `StBridgeError::new` draws are an argument.
use im_bridge_rs.Common.{ℕ, String, Bool, true, false, Option, none, some, not, if◌then◌else◌}
use im_bridge_rs.Errors.Codes.{StErrorStage, CommitState, RetryAction, StErrorCode, code_as_str}

pub record ErrorIds : Type 0 where
  pub request_id : String
  pub trace_id : String

pub record StBridgeError : Type 0 where
  pub code : StErrorCode
  pub stage : StErrorStage
  pub safe_message : String
  pub upstream_http_status : Option ℕ  -- u16
  pub upstream_code : Option String
  pub endpoint_class : Option String
  pub retryable : Bool
  pub commit_state : CommitState
  pub operation_id : Option String
  pub request_id : String
  pub trace_id : String
  pub duration_ms : Option ℕ  -- u64
  pub attempt : ℕ  -- u32

-- `StBridgeError::new`
unfoldable pub new_error :
    ErrorIds → StErrorCode → StErrorStage → String → Bool → CommitState → StBridgeError
new_error ids code stage safe_message retryable commit_state = record {
  code = code;
  stage = stage;
  safe_message = safe_message;
  upstream_http_status = none;
  upstream_code = none;
  endpoint_class = none;
  retryable = retryable;
  commit_state = commit_state;
  operation_id = none;
  request_id = ids.request_id;
  trace_id = ids.trace_id;
  duration_ms = none;
  attempt = 1;
}

abbrev is_applied : CommitState → Bool
is_applied CommitState.applied = true
is_applied _ = false

-- The arms of `retry_action` behind `_ if !self.retryable`.
unfoldable pub retry_retryable : StErrorCode → RetryAction
retry_retryable StErrorCode.st_connect_failed = RetryAction.retry_direct
retry_retryable StErrorCode.st_request_timeout = RetryAction.retry_direct
retry_retryable StErrorCode.st_character_list_failed = RetryAction.retry_direct
retry_retryable StErrorCode.st_chat_list_failed = RetryAction.retry_direct
retry_retryable StErrorCode.st_generate_upstream_5xx = RetryAction.retry_explicit
retry_retryable StErrorCode.st_generate_rate_limited = RetryAction.retry_explicit
retry_retryable StErrorCode.st_generate_idle_timeout = RetryAction.retry_explicit
retry_retryable StErrorCode.st_generate_hard_timeout = RetryAction.retry_explicit
retry_retryable StErrorCode.st_generate_empty = RetryAction.retry_explicit
retry_retryable StErrorCode.st_generate_stream_invalid = RetryAction.retry_explicit
retry_retryable StErrorCode.st_commit_failed = RetryAction.retry_explicit
retry_retryable StErrorCode.st_backup_failed = RetryAction.retry_explicit
retry_retryable _ = RetryAction.no_retry

unfoldable pub retry_unless : Bool → StErrorCode → RetryAction
unfolding retry_retryable
retry_unless retryable code = if not retryable then RetryAction.no_retry else retry_retryable code

unfoldable pub retry_dispatch : StErrorCode → Bool → CommitState → RetryAction
unfolding retry_unless
retry_dispatch StErrorCode.st_delivery_failed retryable commit_state =
    if is_applied commit_state
    then RetryAction.retry_delivery_only
    else retry_unless retryable StErrorCode.st_delivery_failed
retry_dispatch StErrorCode.st_chat_conflict retryable commit_state =
    RetryAction.retry_from_latest_snapshot
retry_dispatch StErrorCode.st_commit_state_unknown retryable commit_state =
    RetryAction.reconcile_same_operation
retry_dispatch StErrorCode.st_generate_state_unknown retryable commit_state =
    RetryAction.reconcile_same_operation
retry_dispatch code retryable commit_state = retry_unless retryable code

unfoldable pub retry_action : StBridgeError → RetryAction
unfolding retry_dispatch
retry_action error = retry_dispatch error.code error.retryable error.commit_state

-- `AppError`; the HTTP status is its number.
pub record AppError : Type 0 where
  pub code : String
  pub message : String
  pub status : ℕ
  pub st : Option StBridgeError

abbrev pub new_app_error : String → String → ℕ → AppError
new_app_error code message status = record {
  code = code;
  message = message;
  status = status;
  st = none;
}

abbrev pub bad_request_error : String → String → AppError
bad_request_error code message = new_app_error code message 400

abbrev pub conflict_error : String → String → AppError
conflict_error code message = new_app_error code message 409

abbrev pub service_unavailable_error : String → String → AppError
service_unavailable_error code message = new_app_error code message 503

abbrev pub internal_error : String → AppError
internal_error message = new_app_error "INTERNAL_ERROR" message 500

abbrev pub bad_gateway_error : String → String → AppError
bad_gateway_error code message = new_app_error code message 502

abbrev pub not_found_error : String → String → AppError
not_found_error code message = new_app_error code message 404

-- `impl From<sqlx::Error> for AppError`
abbrev pub database_error : AppError
database_error = internal_error "database error"

st_status : StErrorCode → Bool → ℕ
st_status StErrorCode.st_write_not_ready retryable = 409
st_status StErrorCode.st_chat_conflict retryable = 409
st_status StErrorCode.st_chat_not_found retryable = 404
st_status StErrorCode.st_generate_rate_limited retryable = 429
st_status StErrorCode.st_session_rejected retryable = 403
st_status StErrorCode.st_csrf_missing retryable = 403
st_status StErrorCode.st_connector_auth_failed retryable = 403
st_status _ retryable = if retryable then 502 else 400

-- `AppError::from_st`
unfoldable pub from_st : StBridgeError → AppError
unfolding st_status code_as_str
from_st error = record {
  code = code_as_str error.code;
  message = error.safe_message;
  status = st_status error.code error.retryable;
  st = some error;
}
