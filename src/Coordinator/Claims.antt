-- ===== src/Coordinator/Claims.antt =====
-- `claim` of src/modules/bridge/operation_coordinator.rs: what a repeated request is told.
use im_bridge_rs.Common.{true, false, ◌≡◌, ◌≢◌, ◌↔◌, arith}
use im_bridge_rs.Operation.{
  BridgeOperationStatus, received, delivered, OperationCommitState, is_terminal,
}
use im_bridge_rs.Store.Step.{fits}
use im_bridge_rs.Coordinator.{resume, already_delivered, rejected, duplicate_disposition}

-- For every status and commit state that an operation can have together, a repeated request is told
-- that the operation is delivered exactly when it is, that it is to be resumed exactly when its
-- status is not terminal, and otherwise that it is rejected.
disposition_of_consistent :
    (s : BridgeOperationStatus) (c : OperationCommitState)
    → fits s c ≡ true
    → ((duplicate_disposition s c ≡ already_delivered) ↔ (s ≡ delivered))
      × ((duplicate_disposition s c ≡ resume) ↔ (is_terminal s ≡ false))
      × ((duplicate_disposition s c ≡ rejected) ↔ ((is_terminal s ≡ true) × (s ≢ delivered)))
unfolding duplicate_disposition is_terminal
disposition_of_consistent received OperationCommitState.not_started f = ground arith
disposition_of_consistent _ _ f = ground (arith, f)
