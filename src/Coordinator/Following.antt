-- ===== src/Coordinator/Following.antt =====
-- src/modules/bridge/operation_coordinator.rs: the statements that settling and replaying issue.
use im_bridge_rs.Common.{
  String, false, not, [], ◌∷◌, refl, inl, inr, Bool-cases, ◌||◌, str_eq, format,
}
use im_bridge_rs.Errors.{
  AppError, StResult, ok, err, ok_or, StBridgeError, StErrorCode, CommitState, ErrorIds,
  code_as_str,
}
use im_bridge_rs.St.{StCommitResult, StCommitStatus, PollerRuntimeFence, fence_is_valid}
use im_bridge_rs.Operation.{
  OperationCommitState, BridgeOperationRecord, operation_commit_state_as_str,
}
use im_bridge_rs.Store.{
  World, M, lift, catch, mapping_err, cas, mark_committed_with_state, mark_failed_with_state,
  mark_commit_unknown, set_committed, set_failed, set_commit_unknown, get_operation_key_reference,
  read_key_ref, find_key_ref,
}
use im_bridge_rs.Store.Following.{
  IsIssuedWorld, Follows, Follows-refl, >>=-Follows, catch-Follows, cas-Follows, fetch-Follows,
}
use im_bridge_rs.Coordinator.{
  Platform, recording, report_unrecorded, store_applied, settle_applied, settle_not_applied,
  settle_unknown, settle_status, settle, is_not_applied, operation_state_persistence_error,
  unknown_commit_error, not_applied_error, replay_applied, replay_status, replay_settle,
  restore_for_operation, restore_payload_encryptor_for_operation,
  decrypt_recovery_payload_for_operation, OperationCoordinator, recovery_payload,
}

pub mapping_err-Follows :
    {E F A : Type 0} (g : E → F) (m : M E A) (w : World)
    → Follows w (m w).1
    → Follows w (mapping_err g m w).1
mapping_err-Follows g m w f =
    catch-Follows m (λ e. lift (err (g e))) w f (λ e v iv. Follows-refl v iv)

recording-Follows :
    (A : Type 0) (ids : ErrorIds) (id : String) (code : StErrorCode) (s : CommitState)
    (m : M AppError BridgeOperationRecord) (original : StBridgeError) (w : World)
    → Follows w (m w).1
    → Follows w (recording {A = A} ids id code s m original w).1
unfolding recording
recording-Follows A ids id code s m original w f =
    >>=-Follows {B = A} (mapping_err (operation_state_persistence_error ids id code s) m)
      (λ _. lift (err original)) w
      (mapping_err-Follows (operation_state_persistence_error ids id code s) m w f)
      (λ a v iv. Follows-refl v iv)

module _ {V : Type 0} (p : Platform V) (id : String) where
  unknown_mark-Follows :
      (w : World) → IsIssuedWorld w → Follows w (mark_commit_unknown id p.now w).1
  unfolding mark_commit_unknown
  unknown_mark-Follows w iw =
      cas-Follows id set_commit_unknown p.now "committing" "committing(unknown)" w refl iw

  pub committed_mark-Follows :
      (encoded : String) (s : OperationCommitState) (w : World)
      → IsIssuedWorld w
      → Follows w (mark_committed_with_state id encoded s p.now w).1
  unfolding mark_committed_with_state
  committed_mark-Follows encoded s w iw =
      cas-Follows id (set_committed encoded s) p.now
        (format ("committing/" ∷ operation_commit_state_as_str s ∷ [])) "committed/applied" w refl
        iw

  not_applied-Follows :
      (A : Type 0) (summary : String) (original : StBridgeError) (w : World)
      → IsIssuedWorld w
      → Follows w (settle_not_applied p {A = A} id summary original w).1
  unfolding settle_not_applied mark_failed_with_state
  not_applied-Follows A summary original w iw =
      recording-Follows A p.ids id original.code CommitState.not_applied
        (cas id
          (set_failed "commit" (code_as_str StErrorCode.st_commit_failed) summary false
            OperationCommitState.not_applied)
          p.now "pre-commit" "failed")
        original w
        (cas-Follows id
          (set_failed "commit" (code_as_str StErrorCode.st_commit_failed) summary false
            OperationCommitState.not_applied)
          p.now "pre-commit" "failed" w refl iw)

  unknown-Follows :
      (A : Type 0) (w : World) → IsIssuedWorld w → Follows w (settle_unknown p {A = A} id w).1
  unfolding settle_unknown
  unknown-Follows A w iw =
      recording-Follows A p.ids id StErrorCode.st_commit_state_unknown CommitState.unknown
        (mark_commit_unknown id p.now) (unknown_commit_error p.ids id) w (unknown_mark-Follows w iw)

  store_applied-Follows :
      (result : StCommitResult) (encoded : String) (w : World)
      → IsIssuedWorld w
      → Follows w (store_applied p id result encoded w).1
  unfolding store_applied report_unrecorded
  store_applied-Follows result encoded w iw =
      let m = mark_committed_with_state id encoded OperationCommitState.not_started p.now in
      >>=-Follows (catch m (report_unrecorded p id)) (λ _. lift (ok result)) w
        (catch-Follows m (report_unrecorded p id) w
          (committed_mark-Follows encoded OperationCommitState.not_started w iw)
          (λ e v iv.
            recording-Follows BridgeOperationRecord p.ids id StErrorCode.st_commit_state_unknown
              CommitState.unknown (mark_commit_unknown id p.now)
              (operation_state_persistence_error p.ids id StErrorCode.st_commit_state_unknown
                CommitState.unknown e)
              v (unknown_mark-Follows v iv)))
        (λ a v iv. Follows-refl v iv)

  applied-Follows :
      (result : StCommitResult) (w : World)
      → IsIssuedWorld w
      → Follows w (settle_applied p id result w).1
  unfolding settle_applied
  applied-Follows result w iw =
      >>=-Follows (lift (ok_or (p.result_to_string result) (unknown_commit_error p.ids id)))
        (store_applied p id result) w (Follows-refl w iw)
        (λ encoded v iv. store_applied-Follows result encoded v iv)

  status-Follows :
      (word : String) (s : StCommitStatus) (result : StCommitResult) (w : World)
      → IsIssuedWorld w
      → Follows w (settle_status p id word s result w).1
  unfolding settle_status
  status-Follows word StCommitStatus.applied result w iw = applied-Follows result w iw
  status-Follows word StCommitStatus.already_applied result w iw = applied-Follows result w iw
  status-Follows word StCommitStatus.not_applied result w iw =
      not_applied-Follows StCommitResult (format (word ∷ " was not applied" ∷ []))
        (not_applied_error p.ids id) w iw
  status-Follows word StCommitStatus.unknown result w iw = unknown-Follows StCommitResult w iw

  pub settle-Follows :
      (word : String) (outcome : StResult StCommitResult) (w : World)
      → IsIssuedWorld w
      → Follows w (settle p id word outcome w).1
  unfolding settle
  settle-Follows word (ok result) w iw = status-Follows word result.status result w iw
  settle-Follows word (err error) w iw = elim (Bool-cases (is_not_applied error.commit_state)) [
    | inl e ↦ rw e (
        not_applied-Follows StCommitResult (format (word ∷ " was rejected before mutation" ∷ []))
          error w iw)
    | inr e ↦ rw e (unknown-Follows StCommitResult w iw)
  ]

-- The same for the outcome of a replay.
module _ {V : Type 0} (p : Platform V) (r : BridgeOperationRecord) where
  replay_applied-Follows :
      (result : StCommitResult) (w : World)
      → IsIssuedWorld w
      → Follows w (replay_applied p r result w).1
  unfolding replay_applied
  replay_applied-Follows result w iw =
      >>=-Follows (lift (ok_or (p.result_to_string result) (unknown_commit_error p.ids r.id))) _ w
        (Follows-refl w iw)
        (λ encoded v iv.
          >>=-Follows
            (mapping_err (λ _. unknown_commit_error p.ids r.id)
              (mark_committed_with_state r.id encoded OperationCommitState.not_started p.now))
            (λ _. lift (ok result)) v
            (mapping_err-Follows (λ _. unknown_commit_error p.ids r.id)
              (mark_committed_with_state r.id encoded OperationCommitState.not_started p.now) v
              (committed_mark-Follows p r.id encoded OperationCommitState.not_started v iv))
            (λ a u iu. Follows-refl u iu))

  replay_status-Follows :
      (s : StCommitStatus) (result : StCommitResult) (w : World)
      → IsIssuedWorld w
      → Follows w (replay_status p r s result w).1
  unfolding replay_status
  replay_status-Follows StCommitStatus.applied result w iw = replay_applied-Follows result w iw
  replay_status-Follows StCommitStatus.already_applied result w iw =
      replay_applied-Follows result w iw
  replay_status-Follows StCommitStatus.not_applied result w iw =
      not_applied-Follows p r.id StCommitResult "replayed commit was not applied"
        (not_applied_error p.ids r.id) w iw
  replay_status-Follows StCommitStatus.unknown result w iw =
      unknown-Follows p r.id StCommitResult w iw

  pub replay_settle-Follows :
      (outcome : StResult StCommitResult) (w : World)
      → IsIssuedWorld w
      → Follows w (replay_settle p r outcome w).1
  unfolding replay_settle
  replay_settle-Follows (ok result) w iw = replay_status-Follows result.status result w iw
  replay_settle-Follows (err error) w iw = elim (Bool-cases (is_not_applied error.commit_state)) [
    | inl e ↦ rw e (
        not_applied-Follows p r.id StCommitResult "replayed commit was rejected before mutation"
          error w iw)
    | inr e ↦ rw e (unknown-Follows p r.id StCommitResult w iw)
  ]

  restore-Follows :
      (c : OperationCoordinator) (w : World)
      → IsIssuedWorld w
      → Follows w (restore_payload_encryptor_for_operation p c r.id w).1
  unfolding restore_payload_encryptor_for_operation restore_for_operation
      get_operation_key_reference
  restore-Follows c w iw = elim (Bool-cases c.payload_key_provider) [
    | inl e ↦ rw e (
        >>=-Follows (get_operation_key_reference r.id) _ w
          (fetch-Follows (λ db. read_key_ref (find_key_ref r.id db.key_refs)) w iw)
          (λ found v iv.
            >>=-Follows (lift _) _ v (Follows-refl v iv) (λ reference u iu. Follows-refl u iu)))
    | inr e ↦ rw e (Follows-refl w iw)
  ]

  -- The steps of a replay before its mark.
  pub decrypt-Follows :
      (c : OperationCoordinator) (fence : PollerRuntimeFence) (w : World)
      → IsIssuedWorld w
      → Follows w (decrypt_recovery_payload_for_operation p c r fence w).1
  unfolding decrypt_recovery_payload_for_operation
  decrypt-Follows c fence w iw =
      >>=-Follows (restore_payload_encryptor_for_operation p c r.id) _ w (restore-Follows c w iw)
        (λ encryptor v iv.
          >>=-Follows (lift (recovery_payload r)) _ v (Follows-refl v iv) (λ encrypted u iu.
            elim (Bool-cases
              (not (fence_is_valid fence) || not (str_eq fence.internal_bot_id r.bot_id))) [
                | inl e ↦ rw e (Follows-refl u iu)
                | inr e ↦ rw e (Follows-refl u iu)
              ]))
