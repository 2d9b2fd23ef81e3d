-- ===== src/Coordinator/Reports.antt =====
-- src/modules/bridge/operation_coordinator.rs: the errors that it makes.
use im_bridge_rs.Common.{String, false, none, some, [], ◌∷◌, format}
use im_bridge_rs.Errors.{
  AppError, StBridgeError, StErrorCode, StErrorStage, CommitState, ErrorIds, new_error, code_as_str,
  control, map_st_error,
}

-- `bridge_error_from_app`
unfoldable pub bridge_error_from_app : ErrorIds → String → AppError → StBridgeError
unfolding new_error
bridge_error_from_app ids operation_id error =
    record (new_error ids StErrorCode.st_commit_failed StErrorStage.control error.message false
      CommitState.not_started) { operation_id = some operation_id }

-- `operation_state_persistence_error`
unfoldable pub operation_state_persistence_error :
    ErrorIds → String → StErrorCode → CommitState → AppError → StBridgeError
unfolding new_error format code_as_str
operation_state_persistence_error ids operation_id original_code commit_state persistence_error =
    record (new_error ids StErrorCode.st_commit_state_unknown StErrorStage.control
      (format (
        "operation state persistence failed (original error code "
        ∷ code_as_str original_code
        ∷ "; persistence error code "
        ∷ persistence_error.code
        ∷ ")"
        ∷ []))
      false commit_state) { operation_id = some operation_id }

-- `unknown_commit_error`, without its redacted detail
unfoldable pub unknown_commit_error : ErrorIds → String → StBridgeError
unfolding new_error
unknown_commit_error ids operation_id =
    record (new_error ids StErrorCode.st_commit_state_unknown StErrorStage.commit
      "SillyTavern commit state is unknown; reconciliation is required" false CommitState.unknown) {
        operation_id = some operation_id;
      }

-- The error of a commit that the connector did not apply.
unfoldable pub not_applied_error : ErrorIds → String → StBridgeError
unfolding map_st_error
not_applied_error ids operation_id = map_st_error ids (record {
  stage = StErrorStage.commit;
  endpoint_class = some "connector";
  operation_id = some operation_id;
  commit_state = CommitState.not_applied;
  attempt = 1;
  duration_ms = none;
  failure = control StErrorCode.st_commit_failed;
})
