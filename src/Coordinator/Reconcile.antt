-- ===== src/Coordinator/Reconcile.antt =====
-- src/modules/bridge/operation_coordinator.rs: `claim` and `reconcile_commit`.
use im_bridge_rs.Common.{String, Bool, true, false, not, Option, none, some, ◌&&◌, if◌then◌else◌}
use im_bridge_rs.Errors.{AppError, Result, ok, err, conflict_error}
use im_bridge_rs.Operation.{
  BridgeOperationStatus, committing, committed, delivered, conflict, failed, interrupted,
  OperationCommitState, BridgeOperationRecord,
}
use im_bridge_rs.Store.{
  M, ◌>>=◌, lift, catch, ClaimOperationRequest, OperationClaimError, duplicate_claim, claim_failed,
  claim_operation, mark_committed_with_state, status_eq, status_in, commit_eq,
}
use im_bridge_rs.Common.{[], ◌∷◌}
use im_bridge_rs.Coordinator.Seams.{
  Platform, StOperationJournalRecord, StOperationJournalStatus, identity_matches,
}

pub data ClaimDisposition : Type 0 where
  fresh resume already_delivered rejected : ClaimDisposition

pub record ClaimedOperation : Type 0 where
  pub disposition : ClaimDisposition
  pub operation : BridgeOperationRecord

-- The `match (existing.status, existing.commit_state)` of `claim`.
unfoldable pub duplicate_disposition :
    BridgeOperationStatus → OperationCommitState → ClaimDisposition
duplicate_disposition delivered OperationCommitState.applied = already_delivered
duplicate_disposition committed OperationCommitState.applied = resume
duplicate_disposition committed OperationCommitState.not_applied = rejected
duplicate_disposition delivered OperationCommitState.not_applied = rejected
duplicate_disposition committed OperationCommitState.unknown = resume
duplicate_disposition delivered OperationCommitState.unknown = resume
duplicate_disposition _ OperationCommitState.not_applied = rejected
duplicate_disposition conflict _ = rejected
duplicate_disposition failed _ = rejected
duplicate_disposition interrupted _ = rejected
duplicate_disposition _ _ = resume

classify : OperationClaimError → Result OperationClaimError ClaimedOperation
unfolding duplicate_disposition
classify (duplicate_claim existing) = ok (record {
  disposition = duplicate_disposition existing.status existing.commit_state;
  operation = existing;
})
classify (claim_failed e) = err (claim_failed e)

-- `claim`
unfoldable pub claim :
    ClaimOperationRequest → String → String → M OperationClaimError ClaimedOperation
unfolding claim_operation classify
claim q new_id now =
    catch
      (claim_operation q new_id now >>= λ found.
        lift (ok (record { disposition = fresh; operation = found })))
      (λ e. lift (classify e))

abbrev pub journal_applied : StOperationJournalStatus → Bool
journal_applied StOperationJournalStatus.applied = true
journal_applied _ = false

module _ {V : Type 0} (p : Platform V) (journal_result : StOperationJournalRecord → String) where
  unfoldable pub with_entry :
      BridgeOperationRecord
      → String
      → String
      → Option StOperationJournalRecord
      → M AppError (Option BridgeOperationRecord)
  unfolding identity_matches
  with_entry r locator_hash mutation_digest none = lift (ok none)
  with_entry r locator_hash mutation_digest (some entry) =
      if not (identity_matches entry r.id locator_hash mutation_digest)
      then lift (
          err (conflict_error "ST_OPERATION_ID_REUSED" "operation journal identity does not match"))
      else if not (journal_applied entry.status)
      then lift (ok none)
      else (mark_committed_with_state r.id (journal_result entry) r.commit_state p.now >>= λ found.
          lift (ok (some found)))

  unfoldable pub with_digest :
      BridgeOperationRecord → String → Option String → M AppError (Option BridgeOperationRecord)
  unfolding with_entry
  with_digest r locator_hash none = lift (ok none)
  with_digest r locator_hash (some mutation_digest) =
      lift (p.journal_lookup r.id) >>= with_entry r locator_hash mutation_digest

  -- `reconcile_commit`; `journal_result` is the JSON text that it builds from a journal entry.
  unfoldable pub reconcile_commit :
      BridgeOperationRecord → String → M AppError (Option BridgeOperationRecord)
  unfolding with_digest
  reconcile_commit r locator_hash =
      if status_in r.status (committed ∷ delivered ∷ [])
        && commit_eq r.commit_state OperationCommitState.applied
      then lift (ok (some r))
      else if not (status_eq r.status committing)
      then lift (ok none)
      else with_digest r locator_hash r.mutation_digest
