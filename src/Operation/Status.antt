-- ===== src/Operation/Status.antt =====
-- src/modules/bridge/operations.rs: the status of an operation, what is known of its commit, and the
-- transitions between statuses.
use im_bridge_rs.Common.{
  String, Bool, true, false, Option, [], ◌∷◌, match_text, format, if◌then◌else◌,
}
use im_bridge_rs.Errors.{AppResult, ok, err, conflict_error}

pub data BridgeOperationStatus : Type 0 where
  received snapshot_ready generating generated committing committed delivered conflict failed
        interrupted :
      BridgeOperationStatus

pub data OperationCommitState : Type 0 where
  not_started not_applied applied unknown : OperationCommitState

-- `BridgeOperationStatus::as_str` and `parse`
unfoldable pub status_as_str : BridgeOperationStatus → String
status_as_str BridgeOperationStatus.received = "received"
status_as_str BridgeOperationStatus.snapshot_ready = "snapshot_ready"
status_as_str BridgeOperationStatus.generating = "generating"
status_as_str BridgeOperationStatus.generated = "generated"
status_as_str BridgeOperationStatus.committing = "committing"
status_as_str BridgeOperationStatus.committed = "committed"
status_as_str BridgeOperationStatus.delivered = "delivered"
status_as_str BridgeOperationStatus.conflict = "conflict"
status_as_str BridgeOperationStatus.failed = "failed"
status_as_str BridgeOperationStatus.interrupted = "interrupted"

unfoldable pub parse_status : String → Option BridgeOperationStatus
parse_status = match_text (
    ("received", BridgeOperationStatus.received)
    ∷ ("snapshot_ready", BridgeOperationStatus.snapshot_ready)
    ∷ ("generating", BridgeOperationStatus.generating)
    ∷ ("generated", BridgeOperationStatus.generated)
    ∷ ("committing", BridgeOperationStatus.committing)
    ∷ ("committed", BridgeOperationStatus.committed)
    ∷ ("delivered", BridgeOperationStatus.delivered)
    ∷ ("conflict", BridgeOperationStatus.conflict)
    ∷ ("failed", BridgeOperationStatus.failed)
    ∷ ("interrupted", BridgeOperationStatus.interrupted)
    ∷ [])

-- `OperationCommitState::as_str` and `parse`
unfoldable pub operation_commit_state_as_str : OperationCommitState → String
operation_commit_state_as_str OperationCommitState.not_started = "not_started"
operation_commit_state_as_str OperationCommitState.not_applied = "not_applied"
operation_commit_state_as_str OperationCommitState.applied = "applied"
operation_commit_state_as_str OperationCommitState.unknown = "unknown"

unfoldable pub parse_operation_commit_state : String → Option OperationCommitState
parse_operation_commit_state = match_text (
    ("not_started", OperationCommitState.not_started)
    ∷ ("not_applied", OperationCommitState.not_applied)
    ∷ ("applied", OperationCommitState.applied)
    ∷ ("unknown", OperationCommitState.unknown)
    ∷ [])

-- `is_terminal`
unfoldable pub is_terminal : BridgeOperationStatus → Bool
is_terminal BridgeOperationStatus.delivered = true
is_terminal BridgeOperationStatus.conflict = true
is_terminal BridgeOperationStatus.failed = true
is_terminal BridgeOperationStatus.interrupted = true
is_terminal _ = false

-- `can_transition_to`
unfoldable pub can_transition_to : BridgeOperationStatus → BridgeOperationStatus → Bool
can_transition_to BridgeOperationStatus.received BridgeOperationStatus.snapshot_ready = true
can_transition_to BridgeOperationStatus.snapshot_ready BridgeOperationStatus.generating = true
can_transition_to BridgeOperationStatus.snapshot_ready BridgeOperationStatus.generated = true
can_transition_to BridgeOperationStatus.generating BridgeOperationStatus.generated = true
can_transition_to BridgeOperationStatus.generated BridgeOperationStatus.committing = true
can_transition_to BridgeOperationStatus.committing BridgeOperationStatus.committed = true
can_transition_to BridgeOperationStatus.committed BridgeOperationStatus.delivered = true
can_transition_to BridgeOperationStatus.received BridgeOperationStatus.failed = true
can_transition_to BridgeOperationStatus.snapshot_ready BridgeOperationStatus.failed = true
can_transition_to BridgeOperationStatus.generating BridgeOperationStatus.failed = true
can_transition_to BridgeOperationStatus.generating BridgeOperationStatus.interrupted = true
can_transition_to BridgeOperationStatus.generated BridgeOperationStatus.failed = true
can_transition_to BridgeOperationStatus.committing BridgeOperationStatus.conflict = true
can_transition_to BridgeOperationStatus.committing BridgeOperationStatus.failed = true
can_transition_to BridgeOperationStatus.committing BridgeOperationStatus.interrupted = true
can_transition_to _ _ = false

-- `transition`
unfoldable pub transition :
    BridgeOperationStatus → BridgeOperationStatus → AppResult BridgeOperationStatus
unfolding can_transition_to status_as_str format
transition status next =
    if can_transition_to status next
    then ok next
    else err (
        conflict_error "BRIDGE_OPERATION_INVALID_TRANSITION" (
          format
            ("cannot transition from " ∷ status_as_str status ∷ " to " ∷ status_as_str next ∷ [])))
