-- ===== src/Coordinator/Commit.antt =====
-- src/modules/bridge/operation_coordinator.rs: `commit`, `create` and the methods that move an
-- operation on.
use im_bridge_rs.Common.{ℤ, String, Bool, true, false, not, Option, ◌∷◌, [], format, if◌then◌else◌}
use im_bridge_rs.Errors.{
  AppError, StResult, ok, err, ok_or, StBridgeError, StErrorCode, CommitState, stage_as_str,
  code_as_str, ErrorIds,
}
use im_bridge_rs.St.{
  StChatLocator, StMutation, CreateStChat, StCommitResult, StCommitStatus, PollerRuntimeFence,
  fence_is_valid,
}
use im_bridge_rs.Operation.{OperationCommitState, EncryptedOperationPayload, BridgeOperationRecord}
use im_bridge_rs.Store.{
  M, ◌>>=◌, ◌>>◌, lift, catch, mapping_err, update_snapshot_ready, update_generating,
  update_generated, mark_committing, mark_committed_with_state, mark_delivered, mark_failed,
  mark_failed_with_state, mark_commit_unknown,
}
use im_bridge_rs.Coordinator.Seams.{Platform}
use im_bridge_rs.Coordinator.Reports.{
  bridge_error_from_app, operation_state_persistence_error, unknown_commit_error, not_applied_error,
}

abbrev pub StM : Type 0 → Type 0
StM A = M StBridgeError A

-- A call of the backend on behalf of an operation: the log notes it, and other tasks get their
-- turn at the next statement.
unfoldable pub dispatch : {A : Type 0} → String → StResult A → StM (StResult A)
dispatch operation_id outcome w =
    (ok outcome, record w { dispatched = operation_id ∷ w.dispatched })

-- `match m.await {Ok(_) => Err(original), Err(e) => Err(operation_state_persistence_error(…)) }`
unfoldable pub recording :
    {A : Type 0}
    → ErrorIds
    → String
    → StErrorCode
    → CommitState
    → M AppError BridgeOperationRecord
    → StBridgeError
    → StM A
unfolding operation_state_persistence_error
recording ids operation_id original_code commit_state m original =
    mapping_err (operation_state_persistence_error ids operation_id original_code commit_state) m
    >>= λ _. lift (err original)

abbrev pub is_not_applied : CommitState → Bool
is_not_applied CommitState.not_applied = true
is_not_applied _ = false

module _ {V : Type 0} (p : Platform V) where
  unfoldable pub app_error : {A : Type 0} → String → M AppError A → StM A
  unfolding bridge_error_from_app
  app_error operation_id m = mapping_err (bridge_error_from_app p.ids operation_id) m

  -- The commit's record could not be written.
  unfoldable pub report_unrecorded : {A : Type 0} → String → AppError → StM A
  unfolding recording operation_state_persistence_error
  report_unrecorded operation_id error =
      recording p.ids operation_id StErrorCode.st_commit_state_unknown CommitState.unknown
        (mark_commit_unknown operation_id p.now)
        (operation_state_persistence_error p.ids operation_id StErrorCode.st_commit_state_unknown
          CommitState.unknown error)

  unfoldable pub store_applied : String → StCommitResult → String → StM StCommitResult
  unfolding report_unrecorded
  store_applied operation_id result encoded = do
    catch (mark_committed_with_state operation_id encoded OperationCommitState.not_started p.now)
        (report_unrecorded operation_id)
    lift (ok result)

  -- The arm `Ok(Applied | AlreadyApplied)`.
  unfoldable pub settle_applied : String → StCommitResult → StM StCommitResult
  unfolding store_applied unknown_commit_error
  settle_applied operation_id result =
      lift (ok_or (p.result_to_string result) (unknown_commit_error p.ids operation_id))
      >>= store_applied operation_id result

  -- A mutation that the connector did not apply.
  unfoldable pub settle_not_applied : {A : Type 0} → String → String → StBridgeError → StM A
  unfolding recording code_as_str
  settle_not_applied operation_id summary original =
      recording p.ids operation_id original.code CommitState.not_applied
        (mark_failed_with_state operation_id "commit" (code_as_str StErrorCode.st_commit_failed)
          summary false OperationCommitState.not_applied p.now)
        original

  -- A mutation whose outcome is not known.
  unfoldable pub settle_unknown : {A : Type 0} → String → StM A
  unfolding recording unknown_commit_error
  settle_unknown operation_id =
      recording p.ids operation_id StErrorCode.st_commit_state_unknown CommitState.unknown
        (mark_commit_unknown operation_id p.now) (unknown_commit_error p.ids operation_id)

  unfoldable pub settle_status :
      String → String → StCommitStatus → StCommitResult → StM StCommitResult
  unfolding settle_applied settle_not_applied settle_unknown not_applied_error format
  settle_status operation_id word StCommitStatus.applied result = settle_applied operation_id result
  settle_status operation_id word StCommitStatus.already_applied result =
      settle_applied operation_id result
  settle_status operation_id word StCommitStatus.not_applied result =
      settle_not_applied operation_id (format (word ∷ " was not applied" ∷ []))
        (not_applied_error p.ids operation_id)
  settle_status operation_id word StCommitStatus.unknown result = settle_unknown operation_id

  -- The `match result` of `commit` and of `create`; `word` is what their texts call the mutation.
  unfoldable pub settle : String → String → StResult StCommitResult → StM StCommitResult
  unfolding settle_status settle_not_applied settle_unknown format
  settle operation_id word (ok result) = settle_status operation_id word result.status result
  settle operation_id word (err error) =
      if is_not_applied error.commit_state
      then settle_not_applied operation_id (format (word ∷ " was rejected before mutation" ∷ []))
          error
      else settle_unknown operation_id

  -- What `create`, `commit` and `replay_generated` share: the operation is marked as committing, and
  -- only then is the mutation sent and its outcome settled.
  unfoldable pub send_marked :
      String
      → StResult StCommitResult
      → (StResult StCommitResult → StM StCommitResult)
      → StM StCommitResult
  unfolding app_error dispatch
  send_marked operation_id answer settle_ = do
    app_error operation_id (mark_committing operation_id p.now)
    outcome ← dispatch operation_id answer
    settle_ outcome

  -- `create`
  unfoldable pub create : CreateStChat V → StM StCommitResult
  unfolding send_marked settle
  create command =
      send_marked command.operation_id (p.backend_create command)
        (settle command.operation_id "create")

  -- `commit`
  unfoldable pub commit :
      String
      → StChatLocator
      → String
      → String
      → StMutation V
      → PollerRuntimeFence
      → StM StCommitResult
  unfolding send_marked settle fence_is_valid unknown_commit_error
  commit operation_id locator expected_sha256 expected_integrity mutation fence =
      if not (fence_is_valid fence)
      then lift (err (unknown_commit_error p.ids operation_id))
      else send_marked operation_id
          (p.backend_commit (record {
            operation_id = operation_id;
            locator = locator;
            expected_sha256 = expected_sha256;
            expected_integrity = expected_integrity;
            mutation = mutation;
            fence = fence;
          }))
          (settle operation_id "commit")

  -- `mark_snapshot_ready`
  unfoldable pub mark_snapshot_ready :
      String → Option String → Option String → Option ℤ → Option ℤ → StM BridgeOperationRecord
  unfolding app_error
  mark_snapshot_ready operation_id source_sha256 source_integrity source_size message_count =
      app_error operation_id (
        update_snapshot_ready operation_id source_sha256 source_integrity source_size message_count
          p.now)

  -- `mark_generating`
  unfoldable pub mark_generating : String → StM BridgeOperationRecord
  unfolding app_error
  mark_generating operation_id = app_error operation_id (update_generating operation_id p.now)

  -- `mark_generated`
  unfoldable pub mark_generated :
      String → EncryptedOperationPayload → String → StM BridgeOperationRecord
  unfolding app_error
  mark_generated operation_id payload digest =
      app_error operation_id (update_generated operation_id payload digest p.now)

  -- `mark_committed_result`
  unfoldable pub mark_committed_result :
      String → StCommitResult → OperationCommitState → StM BridgeOperationRecord
  unfolding app_error unknown_commit_error
  mark_committed_result operation_id result expected_commit_state = do
    encoded ← lift (ok_or (p.result_to_string result) (unknown_commit_error p.ids operation_id))
    app_error operation_id
        (mark_committed_with_state operation_id encoded expected_commit_state p.now)

  -- `settle_generation_failure`; the error that it returns is its result.
  unfoldable pub settle_generation_failure : String → StBridgeError → StM (Unit {0})
  unfolding recording stage_as_str code_as_str
  settle_generation_failure operation_id error =
      recording p.ids operation_id error.code CommitState.not_started
        (mark_failed operation_id (stage_as_str error.stage) (code_as_str error.code)
          error.safe_message error.retryable p.now)
        error

  -- `mark_committing`, `mark_unknown` and `mark_delivered` of the coordinator
  unfoldable pub coordinator_mark_committing : String → StM BridgeOperationRecord
  unfolding app_error
  coordinator_mark_committing operation_id =
      app_error operation_id (mark_committing operation_id p.now)

  unfoldable pub coordinator_mark_unknown : String → StM BridgeOperationRecord
  unfolding app_error
  coordinator_mark_unknown operation_id =
      app_error operation_id (mark_commit_unknown operation_id p.now)

  unfoldable pub coordinator_mark_delivered : String → StM BridgeOperationRecord
  unfolding app_error
  coordinator_mark_delivered operation_id =
      app_error operation_id (mark_delivered operation_id p.now)
