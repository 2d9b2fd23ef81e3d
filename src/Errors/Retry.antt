-- ===== src/Errors/Retry.antt =====
-- `retry_action` of src/modules/bridge/errors.rs: which retries an error allows.
use im_bridge_rs.Common.{Bool, true, false, ◌≡◌, ◌↔◌, ◌⊎◌, arith}
use im_bridge_rs.Errors.Codes.{CommitState, RetryAction, StErrorCode}
use im_bridge_rs.Errors.Bridge.{
  StBridgeError, retry_action, retry_dispatch, retry_unless, retry_retryable,
}

retry_dispatch_lem :
    (c : StErrorCode) (retryable : Bool) (s : CommitState)
    → ((retry_dispatch c retryable s ≡ RetryAction.retry_delivery_only)
        ↔ ((c ≡ StErrorCode.st_delivery_failed) × (s ≡ CommitState.applied)))
      × ((retry_dispatch c retryable s ≡ RetryAction.reconcile_same_operation) ↔ (
          (c ≡ StErrorCode.st_commit_state_unknown) ⊎ (c ≡ StErrorCode.st_generate_state_unknown)))
      × ((retry_dispatch c retryable s ≡ RetryAction.retry_from_latest_snapshot)
          ↔ (c ≡ StErrorCode.st_chat_conflict))
      × ((retry_dispatch c retryable s ≡ RetryAction.retry_direct) → retryable ≡ true)
      × ((retry_dispatch c retryable s ≡ RetryAction.retry_explicit) → retryable ≡ true)
unfolding retry_dispatch retry_unless retry_retryable
retry_dispatch_lem StErrorCode.st_delivery_failed true CommitState.applied = ground arith
retry_dispatch_lem _ true s = ground arith
retry_dispatch_lem _ false s = ground arith

-- Only the delivery is retried exactly when a delivery failed after an applied commit; the same
-- operation is reconciled exactly when a commit's or a generation's state is unknown; a conflict,
-- and nothing else, is retried from the latest snapshot; and every other retry needs an error that
-- is marked retryable.
retry_action_lem :
    (e : StBridgeError)
    → ((retry_action e ≡ RetryAction.retry_delivery_only)
        ↔ ((e.code ≡ StErrorCode.st_delivery_failed) × (e.commit_state ≡ CommitState.applied)))
      × ((retry_action e ≡ RetryAction.reconcile_same_operation) ↔ (
          (e.code ≡ StErrorCode.st_commit_state_unknown)
          ⊎ (e.code ≡ StErrorCode.st_generate_state_unknown)))
      × ((retry_action e ≡ RetryAction.retry_from_latest_snapshot)
          ↔ (e.code ≡ StErrorCode.st_chat_conflict))
      × ((retry_action e ≡ RetryAction.retry_direct) → e.retryable ≡ true)
      × ((retry_action e ≡ RetryAction.retry_explicit) → e.retryable ≡ true)
unfolding retry_action
retry_action_lem e = retry_dispatch_lem e.code e.retryable e.commit_state
