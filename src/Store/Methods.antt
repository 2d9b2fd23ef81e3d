-- ===== src/Store/Methods.antt =====
-- src/modules/bridge/operation_store.rs: the methods that move one operation on. `now` is the time
-- that `now_rfc3339()` reads.
use im_bridge_rs.Common.{
  ℕ, ℤ, String, Bool, not, Option, none, some, List, [], ◌∷◌, str_eq, ◌==◌, format, if◌then◌else◌,
}
use im_bridge_rs.Errors.{AppError, AppResult, ok, err, ok_or, conflict_error, internal_error}
use im_bridge_rs.Operation.{
  OperationCommitState, operation_commit_state_as_str, EncryptedOperationPayload,
  BridgeOperationRecord,
}
use im_bridge_rs.Store.Row.{OperationRow, into_record}
use im_bridge_rs.Store.Updates.{
  Update, set_snapshot_ready, set_generating, set_generated, set_committing, set_committed,
  set_delivered, set_conflict, set_failed, set_interrupted, set_commit_unknown,
}
use im_bridge_rs.Store.Statements.{update_operation, update_if_id, rows_affected}
use im_bridge_rs.Store.Effects.{M, ◌>>=◌, lift, execute, fetch}

unfoldable pub find_operation : String → List OperationRow → Option OperationRow
find_operation id [] = none
find_operation id (r ∷ rs) = if str_eq r.id id then some r else find_operation id rs

abbrev pub decoded : AppResult BridgeOperationRecord → AppResult (Option BridgeOperationRecord)
decoded (ok found) = ok (some found)
decoded (err e) = err e

-- `row.map(OperationRow::into_record).transpose()`
abbrev pub decode : Option OperationRow → AppResult (Option BridgeOperationRecord)
decode none = ok none
decode (some r) = decoded (into_record r)

-- `get_operation`
unfoldable pub get_operation : String → M AppError (Option BridgeOperationRecord)
unfolding fetch
get_operation id = fetch (λ db. decode (find_operation id db.operations))

-- `assert_cas`
unfoldable pub assert_cas : ℕ → String → String → String → M AppError BridgeOperationRecord
unfolding get_operation format
assert_cas affected id expected_from expected_to =
    if not (affected == 1)
    then lift (
        err (
          conflict_error "BRIDGE_OPERATION_CAS_CONFLICT" (
            format (
              "operation " ∷ id ∷ " rejected transition " ∷ expected_from ∷ " -> " ∷ expected_to
              ∷ []))))
    else (get_operation id >>= λ found.
        lift (ok_or found (internal_error "operation missing after cas update")))

-- An UPDATE of the operation `id`, and the number of rows that it affects.
unfoldable pub update_by_id : String → Update → String → M AppError ℕ
unfolding execute rows_affected
update_by_id id u now =
    execute (update_operation id u now)
      (λ db. rows_affected (update_if_id db.key_refs id u now) db.operations)

-- The body that the methods share: the UPDATE and the check that it met its row.
unfoldable pub cas : String → Update → String → String → String → M AppError BridgeOperationRecord
unfolding update_by_id assert_cas
cas id u now expected_from expected_to =
    update_by_id id u now >>= λ affected. assert_cas affected id expected_from expected_to

unfoldable pub update_snapshot_ready :
    String
    → Option String
    → Option String
    → Option ℤ
    → Option ℤ
    → String
    → M AppError BridgeOperationRecord
unfolding cas
update_snapshot_ready id source_sha256 source_integrity source_size message_count now =
    cas id (set_snapshot_ready source_sha256 source_integrity source_size message_count) now
      "received" "snapshot_ready"

unfoldable pub update_generating : String → String → M AppError BridgeOperationRecord
unfolding cas
update_generating id now = cas id set_generating now "snapshot_ready" "generating"

unfoldable pub update_generated :
    String → EncryptedOperationPayload → String → String → M AppError BridgeOperationRecord
unfolding cas
update_generated id payload mutation_digest now =
    cas id (set_generated payload mutation_digest) now "snapshot_ready|generating" "generated"

unfoldable pub mark_committing : String → String → M AppError BridgeOperationRecord
unfolding cas
mark_committing id now = cas id set_committing now "generated" "committing"

unfoldable pub mark_committed_with_state :
    String → String → OperationCommitState → String → M AppError BridgeOperationRecord
unfolding cas
mark_committed_with_state id connector_result_json expected_commit_state now =
    cas id (set_committed connector_result_json expected_commit_state) now
      (format ("committing/" ∷ operation_commit_state_as_str expected_commit_state ∷ []))
      "committed/applied"

unfoldable pub mark_committed : String → String → String → M AppError BridgeOperationRecord
unfolding mark_committed_with_state
mark_committed id connector_result_json now =
    mark_committed_with_state id connector_result_json OperationCommitState.not_started now

unfoldable pub mark_delivered : String → String → M AppError BridgeOperationRecord
unfolding cas
mark_delivered id now = cas id set_delivered now "committed" "delivered"

unfoldable pub mark_conflict : String → String → String → M AppError BridgeOperationRecord
unfolding cas
mark_conflict id error_summary now = cas id (set_conflict error_summary) now "committing" "conflict"

unfoldable pub mark_failed_with_state :
    String
    → String
    → String
    → String
    → Bool
    → OperationCommitState
    → String
    → M AppError BridgeOperationRecord
unfolding cas
mark_failed_with_state id error_stage error_code error_summary retryable commit_state now =
    cas id (set_failed error_stage error_code error_summary retryable commit_state) now "pre-commit"
      "failed"

unfoldable pub mark_failed :
    String → String → String → String → Bool → String → M AppError BridgeOperationRecord
unfolding mark_failed_with_state
mark_failed id error_stage error_code error_summary retryable now =
    mark_failed_with_state id error_stage error_code error_summary retryable
      OperationCommitState.not_started now

unfoldable pub mark_interrupted : String → String → M AppError BridgeOperationRecord
unfolding cas
mark_interrupted id now = cas id set_interrupted now "generating" "interrupted"

unfoldable pub mark_commit_unknown : String → String → M AppError BridgeOperationRecord
unfolding cas
mark_commit_unknown id now = cas id set_commit_unknown now "committing" "committing(unknown)"
