-- ===== src/Coordinator/Replaying.antt =====
-- `replay_generated` of src/modules/bridge/operation_coordinator.rs: what it records when it
-- succeeds.
use im_bridge_rs.Common.{
  String, true, not, ◌≡◌, sym, ◌∙◌, subst, ap, inl, inr, arith, Bool-cases, ◌||◌, str_eq, eq_iff,
  is_blank,
}
use im_bridge_rs.Errors.{StResult, ok, err, ok_or, StBridgeError}
use im_bridge_rs.St.{StCommitResult, StCommitStatus, PollerRuntimeFence, fence_is_valid}
use im_bridge_rs.Operation.{
  OperationCommitState, BridgeOperationRecord, OperationRecoveryPayload, generated,
}
use im_bridge_rs.Store.{World, ◌>>=◌, lift, mapping_err, mark_committed_with_state, status_eq}
use im_bridge_rs.Store.Following.{IsIssuedWorld, >>=-ok, catch-ok}
use im_bridge_rs.Store.Uniqueness.{IsKeyed, IsKeyed-Follows}
use im_bridge_rs.Coordinator.{
  Platform, OperationCoordinator, StM, replay_applied, replay_status, replay_settle,
  replay_generated, send, send_marked, is_not_applied, unknown_commit_error, not_applied_error,
  bridge_error_from_app, decrypt_recovery_payload_for_operation,
}
use im_bridge_rs.Coordinator.Landing.{
  IsRecorded, ok_or-ok, mark_committed-IsRecorded, not_applied-ne-ok, unknown-ne-ok,
  send_marked-IsRecorded,
}
use im_bridge_rs.Coordinator.Following.{decrypt-Follows, mapping_err-Follows}

module _ {V : Type 0} (p : Platform V) (r : BridgeOperationRecord) where
  replay_applied-IsRecorded :
      (result result' : StCommitResult) (w : World)
      → IsIssuedWorld w
      → IsKeyed w.db.operations
      → (replay_applied p r result w).0 ≡ ok result'
      → (result ≡ result') × IsRecorded p r.id result (replay_applied p r result w).1
  unfolding replay_applied
  replay_applied-IsRecorded result result' w iw k h =
      let error = unknown_commit_error p.ids r.id in
      let store = λ (encoded : String).
        mark_committed_with_state r.id encoded OperationCommitState.not_started p.now in
      let keep = λ (_ : BridgeOperationRecord). lift {E = StBridgeError} (ok result) in
      let (encoded, e, h₁, w₁) =
        >>=-ok (lift (ok_or (p.result_to_string result) error))
          (λ encoded. mapping_err (λ _. error) (store encoded) >>= keep) w result' h in
      let (found, h₂, h₃, w₂) =
        >>=-ok (mapping_err (λ _. error) (store encoded)) keep w result' h₁ in
      let (done, w₃) = catch-ok (store encoded) (λ _. lift (err error)) w found (λ x z. cc z) h₂ in
      (
        cc h₃,
        subst (IsRecorded p r.id result) (sym (w₁ ∙ w₂ ∙ w₃)) (
            mark_committed-IsRecorded p r.id encoded result w found
              (ok_or-ok (p.result_to_string result) error e) iw k done),
      )

  replay_status-IsRecorded :
      (s : StCommitStatus) (result result' : StCommitResult) (w : World)
      → IsIssuedWorld w
      → IsKeyed w.db.operations
      → (replay_status p r s result w).0 ≡ ok result'
      → (result ≡ result') × IsRecorded p r.id result (replay_status p r s result w).1
  unfolding replay_status
  replay_status-IsRecorded StCommitStatus.applied result result' w iw k h =
      replay_applied-IsRecorded result result' w iw k h
  replay_status-IsRecorded StCommitStatus.already_applied result result' w iw k h =
      replay_applied-IsRecorded result result' w iw k h
  replay_status-IsRecorded StCommitStatus.not_applied result result' w iw k h =
      absurd (not_applied-ne-ok p r.id _ (not_applied_error p.ids r.id) w result' h)
  replay_status-IsRecorded StCommitStatus.unknown result result' w iw k h =
      absurd (unknown-ne-ok p r.id w result' h)

  replay_settle-IsRecorded :
      (outcome : StResult StCommitResult) (result : StCommitResult) (w : World)
      → IsIssuedWorld w
      → IsKeyed w.db.operations
      → (replay_settle p r outcome w).0 ≡ ok result
      → (outcome ≡ ok result) × IsRecorded p r.id result (replay_settle p r outcome w).1
  unfolding replay_settle
  replay_settle-IsRecorded (ok x) result w iw k h =
      let (same, there) = replay_status-IsRecorded x.status x result w iw k h in
      (ap ok same, subst (λ y. IsRecorded p r.id y (replay_settle p r (ok x) w).1) same there)
  replay_settle-IsRecorded (err error) result w iw k h =
      elim (Bool-cases (is_not_applied error.commit_state)) [
        | inl e ↦ absurd (not_applied-ne-ok p r.id _ error w result (rw e at h))
        | inr e ↦ absurd (unknown-ne-ok p r.id w result (rw e at h))
      ]

  -- The replay, after its two checks.
  abbrev resend : OperationRecoveryPayload V → StM StCommitResult
  resend payload = send_marked p r.id (send p r payload) (replay_settle p r)

  resent-IsRecorded :
      (c : OperationCoordinator) (fence : PollerRuntimeFence) (result : StCommitResult) (w : World)
      → IsIssuedWorld w
      → IsKeyed w.db.operations
      → ((mapping_err
              (bridge_error_from_app p.ids r.id)
              (decrypt_recovery_payload_for_operation p c r fence)
            >>= resend)
          w).0
        ≡ ok result
      → (payload : OperationRecoveryPayload V) × ((decrypt_recovery_payload_for_operation p c r
            fence w).0
          ≡ ok payload)
        × (send p r payload ≡ ok result)
        × IsRecorded p r.id result
            ((mapping_err
                  (bridge_error_from_app p.ids r.id)
                  (decrypt_recovery_payload_for_operation p c r fence)
                >>= resend)
              w).1
  resent-IsRecorded c fence result w iw k h =
      let plain = decrypt_recovery_payload_for_operation p c r fence in
      let report = bridge_error_from_app p.ids r.id in
      let decrypted = mapping_err report plain in
      let (payload, h₁, h₂, w₁) = >>=-ok decrypted resend w result h in
      let (h₃, w₂) = catch-ok plain (λ e. lift (err (report e))) w payload (λ x z. cc z) h₁ in
      let before = mapping_err-Follows report plain w (decrypt-Follows p r c fence w iw) in
      let v = (decrypted w).1 in
      let (answered, there) =
        send_marked-IsRecorded p r.id (send p r payload) (replay_settle p r) result v
          (λ u iu ku e. replay_settle-IsRecorded (send p r payload) result u iu ku e)
          before.issued_after (IsKeyed-Follows w v before k) h₂ in
      (payload, h₃, answered, subst (IsRecorded p r.id result) (sym w₁) there)

-- If `replay_generated` succeeds, then the fence was valid and of the operation's bot, the record
-- was generated, the recovery payload was decrypted and valid, the backend answered the mutation in
-- it with just this result, and afterwards the operation is committed or delivered, applied, with
-- this result on record. This holds whatever other tasks do meanwhile and whichever statements fail.
pub replay_generated-IsRecorded :
    {V : Type 0} (p : Platform V) (c : OperationCoordinator) (r : BridgeOperationRecord)
    (bot : String) (fence : PollerRuntimeFence) (result : StCommitResult) (w : World)
    → IsIssuedWorld w
    → IsKeyed w.db.operations
    → (replay_generated p c r bot fence w).0 ≡ ok result
    → (fence_is_valid fence ≡ true)
      × (bot ≡ r.bot_id)
      × (fence.internal_bot_id ≡ r.bot_id)
      × (status_eq r.status generated ≡ true)
      × ((payload : OperationRecoveryPayload V) × ((decrypt_recovery_payload_for_operation p c r
              fence w).0
            ≡ ok payload)
          × (send p r payload ≡ ok result)
          × IsRecorded p r.id result (replay_generated p c r bot fence w).1)
unfolding replay_generated
replay_generated-IsRecorded p c r bot fence result w iw k h =
    elim (Bool-cases (
      not (fence_is_valid fence)
      || is_blank bot
      || not (str_eq bot r.bot_id)
      || not (str_eq fence.internal_bot_id r.bot_id))) [
        | inl bad ↦ absurd (cc (rw (bad, replay_generated) at h))
        | inr good ↦ elim (Bool-cases (not (status_eq r.status generated))) [
          | inl other ↦ absurd (cc (rw (good, other, replay_generated) at h))
          | inr ready ↦ (
            ground (arith, good),
            ground (arith, good, eq_iff bot r.bot_id),
            ground (arith, good, eq_iff fence.internal_bot_id r.bot_id),
            ground (arith, ready),
            rw (good, ready, replay_generated)
                (resent-IsRecorded p r c fence result w iw k
                  (rw (good, ready, replay_generated) at h)),
          )
        ]
      ]
