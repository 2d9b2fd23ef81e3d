-- ===== src/Recovery/Driver.antt =====
-- src/modules/bridge/operation_recovery.rs: `OperationRecoveryCoordinator`. `still_owner` is what
-- `assert_commit_fence` of the guard answers for a record, and `lease_until` the formatted deadline.
use im_bridge_rs.Common.{
  String, Bool, true, false, not, Option, none, some, List, [], ◌∷◌, ◌||◌, str_eq, is_blank, format,
  if◌then◌else◌,
}
use im_bridge_rs.Errors.{
  AppError, Result, ok, err, ok_or, StBridgeError, bad_request_error, service_unavailable_error,
  conflict_error, bad_gateway_error, internal_error, code_as_str,
}
use im_bridge_rs.St.{PollerRuntimeFence}
use im_bridge_rs.Operation.{
  BridgeOperationStatus, generated, committing, committed, BridgeOperationRecord,
}
use im_bridge_rs.Store.{
  M, ◌>>=◌, ◌>>◌, lift, catch, mapping_err, LeaseRequest, OperationExecutionLease,
  try_acquire_execution_lease, release_execution_lease, list_recovery_candidates_for_bot,
  list_by_status, list_unknown_commits, interrupt_stale_generating,
}
use im_bridge_rs.Coordinator.{
  Platform, OperationCoordinator, StOperationJournalRecord, replay_generated, reconcile_commit,
  locator_hash,
}
use im_bridge_rs.Poller.{PollerOwnershipGuard, runtime_fence}

-- The result of an `async` block, as a value.
abbrev pub attempt : {E F A : Type 0} → M E A → M F (Result E A)
attempt m = catch (m >>= λ a. lift (ok (ok a))) (λ e. lift (ok (err e)))

-- `release_lease`
unfoldable pub release_lease : OperationExecutionLease → M AppError (Unit {0})
unfolding release_execution_lease
release_lease lease = release_execution_lease lease >>= λ released. lift (
    if released
    then ok tt
    else err
        (conflict_error "OPERATION_LEASE_LOST" "operation execution lease changed before release"))

abbrev pub is_some : {A : Type 0} → Option A → Bool
is_some none = false
is_some (some a) = true

abbrev pub is_true : {E : Type 0} → Result E Bool → Bool
is_true (ok b) = b
is_true (err e) = false

abbrev pub fence_rejected : String → AppError
fence_rejected error =
    conflict_error "ST_POLLER_EPOCH_MISMATCH"
      (format ("operation recovery fence rejected: " ∷ error ∷ []))

abbrev pub replay_failed : BridgeOperationRecord → StBridgeError → AppError
replay_failed r error =
    bad_gateway_error "OPERATION_RECOVERY_REPLAY_FAILED"
      (format ("operation " ∷ r.id ∷ " replay failed: " ∷ code_as_str error.code ∷ []))

abbrev pub reconcile_failed : BridgeOperationRecord → AppError → AppError
reconcile_failed r error =
    bad_gateway_error "OPERATION_RECOVERY_RECONCILE_FAILED"
      (format ("operation " ∷ r.id ∷ " reconciliation failed: " ∷ error.code ∷ []))

module _ {V : Type 0} (p : Platform V) (journal_result : StOperationJournalRecord → String)
    (c : OperationCoordinator) (guard : PollerOwnershipGuard)
    (still_owner : BridgeOperationRecord → Result String (Unit {0})) (bot lease_until : String)
    (fence : PollerRuntimeFence) where
  -- The `match record.status`.
  unfoldable pub recover_status : BridgeOperationRecord → BridgeOperationStatus → M AppError Bool
  unfolding replay_generated reconcile_commit locator_hash format code_as_str
  recover_status r generated =
      mapping_err (replay_failed r) (replay_generated p c r bot fence >>= λ _. lift (ok true))
  recover_status r committing = mapping_err (reconcile_failed r) (
      reconcile_commit p journal_result r
        (locator_hash p r.locator.handle r.locator.avatar r.locator.chat_file)
      >>= λ outcome. lift (ok (is_some outcome)))
  recover_status r _ = lift (ok false)

  -- The body of the loop under a lease.
  unfoldable pub recover_one : BridgeOperationRecord → M AppError Bool
  unfolding recover_status format
  recover_one r =
      mapping_err fence_rejected (lift (still_owner r)) >>= λ _. recover_status r r.status

  abbrev pub lease_request : BridgeOperationRecord → LeaseRequest
  lease_request r = record {
    operation_id = r.id;
    bot_id = bot;
    instance_id = guard.runtime_instance_id;
    lease_until = lease_until;
    now = p.now;
  }

  -- The attempt on one record, between its lease and the release; whether it was recovered.
  unfoldable pub recover_leased :
      BridgeOperationRecord → Option OperationExecutionLease → M AppError Bool
  unfolding recover_one release_lease
  recover_leased r none = lift (ok false)
  recover_leased r (some lease) = do
    result ← attempt {F = AppError} (recover_one r)
    release_lease lease
    lift (ok (is_true result))

  -- The loop; the ids of the recovered operations.
  unfoldable pub recover_all : List BridgeOperationRecord → M AppError (List String)
  unfolding recover_leased try_acquire_execution_lease
  recover_all [] = lift (ok [])
  recover_all (r ∷ rs) = do
    lease ← try_acquire_execution_lease (lease_request r)
    recovered ← recover_leased r lease
    more ← recover_all rs
    lift (ok (if recovered then r.id ∷ more else more))

-- `recover_for_bot`
unfoldable pub recover_for_bot :
    {V : Type 0}
    → Platform V
    → (StOperationJournalRecord → String)
    → OperationCoordinator
    → PollerOwnershipGuard
    → (BridgeOperationRecord → Result String (Unit {0}))
    → String
    → String
    → M AppError (List String)
unfolding recover_all runtime_fence list_recovery_candidates_for_bot
recover_for_bot p journal_result c guard still_owner bot lease_until =
    if is_blank bot || not (str_eq guard.internal_bot_id bot)
    then lift (
        err (
          bad_request_error "OPERATION_RECOVERY_SCOPE_INVALID"
            "operation recovery bot scope is invalid"))
    else (lift (
          ok_or (runtime_fence guard) (
            service_unavailable_error "ST_POLLER_EPOCH_MISMATCH"
              "operation recovery requires a running runtime fence"))
        >>= λ fence.
            list_recovery_candidates_for_bot bot 128
            >>= recover_all p journal_result c guard still_owner bot lease_until fence)

-- The listings that recovery passes on from the store.
unfoldable pub find_dangling_committing_operations : M AppError (List BridgeOperationRecord)
unfolding list_by_status
find_dangling_committing_operations = list_by_status committing

unfoldable pub find_generated_operations : M AppError (List BridgeOperationRecord)
unfolding list_by_status
find_generated_operations = list_by_status generated

unfoldable pub find_undelivered_committed_operations : M AppError (List BridgeOperationRecord)
unfolding list_by_status
find_undelivered_committed_operations = list_by_status committed

unfoldable pub find_unknown_commit_operations : M AppError (List BridgeOperationRecord)
unfolding list_unknown_commits
find_unknown_commit_operations = list_unknown_commits

unfoldable pub mark_stale_in_flight_as_interrupted : String → String → M AppError (List String)
unfolding interrupt_stale_generating
mark_stale_in_flight_as_interrupted cutoff now = interrupt_stale_generating cutoff now

module _ {V : Type 0} (p : Platform V) where
  recover_generated :
      OperationCoordinator
      → PollerRuntimeFence
      → List BridgeOperationRecord
      → M AppError (List String)
  unfolding replay_generated format
  recover_generated c fence [] = lift (ok [])
  recover_generated c fence (r ∷ rs) = do
    mapping_err
        (λ error. internal_error (
          format (
            "generated operation "
            ∷ r.id
            ∷ " recovery failed: "
            ∷ code_as_str error.code
            ∷ ": "
            ∷ error.safe_message
            ∷ [])))
        (replay_generated p c r r.bot_id fence)
    more ← recover_generated c fence rs
    lift (ok (r.id ∷ more))

  -- `recover_generated_operations`
  unfoldable pub recover_generated_operations :
      OperationCoordinator → PollerOwnershipGuard → M AppError (List String)
  unfolding recover_generated runtime_fence find_generated_operations
  recover_generated_operations c guard = do
    fence ← lift (
        ok_or (runtime_fence guard) (
          service_unavailable_error "ST_POLLER_EPOCH_MISMATCH"
            "generated recovery requires a running runtime fence"))
    found ← find_generated_operations
    recover_generated c fence found

  reconcile_all :
      (StOperationJournalRecord → String) → List BridgeOperationRecord → M AppError (List String)
  unfolding reconcile_commit locator_hash
  reconcile_all journal_result [] = lift (ok [])
  reconcile_all journal_result (r ∷ rs) = do
    outcome ←
        reconcile_commit p journal_result r
          (locator_hash p r.locator.handle r.locator.avatar r.locator.chat_file)
    more ← reconcile_all journal_result rs
    lift (ok (if is_some outcome then r.id ∷ more else more))

  -- `reconcile_committing_operations`
  unfoldable pub reconcile_committing_operations :
      (StOperationJournalRecord → String) → M AppError (List String)
  unfolding reconcile_all find_dangling_committing_operations
  reconcile_committing_operations journal_result =
      find_dangling_committing_operations >>= reconcile_all journal_result
