-- ===== src/Coordinator/Settling.antt =====
-- The settling of an outcome in src/modules/bridge/operation_coordinator.rs: what an error that says
-- "not applied" leaves behind.
use im_bridge_rs.Common.{
  String, Bool, true, false, Option, none, some, List, [], ◌∷◌, ◌≡◌, ◌≢◌, refl, sym, ◌∙◌, subst, ap,
  ◌⊎◌, inl, inr, arith, Bool-cases, format,
}
use im_bridge_rs.Errors.{
  AppError, Result, StResult, ok, err, ok_or, StBridgeError, StErrorCode, CommitState, ErrorIds,
  code_as_str, new_error,
}
use im_bridge_rs.St.{StCommitResult, StCommitStatus}
use im_bridge_rs.Operation.{failed, is_terminal, OperationCommitState, BridgeOperationRecord}
use im_bridge_rs.Store.{
  OperationRow, KeyRefRow, World, M, lift, catch, mapping_err, or_handle, mark_failed_with_state,
  mark_committed_with_state, mark_commit_unknown, set_failed, find_operation, update_row,
}
use im_bridge_rs.Store.Invariant.{terminal_frozen}
use im_bridge_rs.Store.Following.{IsIssuedWorld}
use im_bridge_rs.Store.Failing.{>>=-err, mapping_err-err, mapping_err-ok}
use im_bridge_rs.Store.Uniqueness.{IsKeyed}
use im_bridge_rs.Store.CompareAndSet.{cas-ok}
use im_bridge_rs.Coordinator.{
  Platform, recording, settle_applied, store_applied, report_unrecorded, settle_not_applied,
  settle_unknown, settle_status, settle, is_not_applied, operation_state_persistence_error,
  unknown_commit_error, not_applied_error,
}

-- The error says that the mutation was not applied, and is not the report that this could not be
-- recorded.
abbrev pub SaysNotApplied : StBridgeError → Type 0
SaysNotApplied e =
    (e.commit_state ≡ CommitState.not_applied) × (e.code ≢ StErrorCode.st_commit_state_unknown)

-- The row of the operation is failed, not applied.
abbrev pub IsRefused : String → World → Type 0
IsRefused id w =
    (t : OperationRow) × (find_operation id w.db.operations ≡ some t)
    × (t.status ≡ failed)
    × (t.commit_state ≡ OperationCommitState.not_applied)

-- An unrecorded outcome is reported under the code of an unknown state; otherwise the report is the
-- original error, after the record.
recording-err :
    (A : Type 0) (ids : ErrorIds) (id : String) (code : StErrorCode) (s : CommitState)
    (m : M AppError BridgeOperationRecord) (original e : StBridgeError) (w : World)
    → (recording {A = A} ids id code s m original w).0 ≡ err e
    → (e.code ≡ StErrorCode.st_commit_state_unknown)
      ⊎ ((found : BridgeOperationRecord) × ((m w).0 ≡ ok found)
          × (e ≡ original)
          × ((recording {A = A} ids id code s m original w).1 ≡ (m w).1))
unfolding recording operation_state_persistence_error new_error
recording-err A ids id code s m original e w h =
    let report = operation_state_persistence_error ids id code s in
    elim (>>=-err {B = A} (mapping_err report m) (λ _. lift (err original)) w e h) [
      | inl (failed_, _) ↦
          let (x, same) = mapping_err-err report (m w).0 (m w).1 e failed_ in
          inl (ap (λ (y : StBridgeError). y.code) same)
      | inr (found, h₁, h₂, w₁) ↦
          let (done, w₂) = mapping_err-ok report (m w).0 (m w).1 found h₁ in
          inr (found, done, cc h₂, w₁ ∙ w₂)
    ]

failed_row :
    (keys : List KeyRefRow) (stage code summary : String) (retryable : Bool) (now : String)
    (r t : OperationRow)
    → update_row keys
        (set_failed stage code summary retryable OperationCommitState.not_applied)
        now
        r
      ≡ some t
    → (t.status ≡ failed) × (t.commit_state ≡ OperationCommitState.not_applied)
unfolding update_row
failed_row keys stage code summary retryable now r t e = ground (arith, e)

failed_terminal : (t : OperationRow) → t.status ≡ failed → is_terminal t.status ≡ true
unfolding is_terminal
failed_terminal t e = rw e refl

mark_failed-IsRefused :
    (id stage code summary : String) (retryable : Bool) (now : String) (w : World)
    (found : BridgeOperationRecord)
    → IsIssuedWorld w
    → IsKeyed w.db.operations
    → (mark_failed_with_state id stage code summary retryable OperationCommitState.not_applied now
        w).0
      ≡ ok found
    → IsRefused id
        (mark_failed_with_state id stage code summary retryable OperationCommitState.not_applied now
          w).1
unfolding mark_failed_with_state
mark_failed-IsRefused id stage code summary retryable now w found iw k h =
    let u = set_failed stage code summary retryable OperationCommitState.not_applied in
    let (keys, r, t, t', moved, there, path) =
      cas-ok id u now "pre-commit" "failed" w found refl iw k h in
    let (status, state) = failed_row keys stage code summary retryable now r t moved in
    let same : t' ≡ t = terminal_frozen path (failed_terminal t status) in
    (
      t',
      there,
      ap (λ (x : OperationRow). x.status) same ∙ status,
      ap (λ (x : OperationRow). x.commit_state) same ∙ state,
    )

module _ {V : Type 0} (p : Platform V) (id : String) (e : StBridgeError)
    (says : SaysNotApplied e) where
  not_applied-IsRefused :
      (summary : String) (original : StBridgeError) (w : World)
      → IsIssuedWorld w
      → IsKeyed w.db.operations
      → (settle_not_applied p {A = StCommitResult} id summary original w).0 ≡ err e
      → IsRefused id (settle_not_applied p {A = StCommitResult} id summary original w).1
  unfolding settle_not_applied
  not_applied-IsRefused summary original w iw k h =
      let m =
        mark_failed_with_state id "commit" (code_as_str StErrorCode.st_commit_failed) summary false
          OperationCommitState.not_applied p.now in
      elim (recording-err StCommitResult p.ids id original.code CommitState.not_applied m original e
        w h) [
          | inl unknown ↦ absurd (says.1 unknown)
          | inr (found, done, same, w₁) ↦ subst (IsRefused id) (sym w₁) (
              mark_failed-IsRefused id "commit" (code_as_str StErrorCode.st_commit_failed) summary
                false p.now w found iw k done)
        ]

  unknown-silent : (w : World) → (settle_unknown p {A = StCommitResult} id w).0 ≢ err e
  unfolding settle_unknown unknown_commit_error new_error
  unknown-silent w h =
      elim (recording-err StCommitResult p.ids id StErrorCode.st_commit_state_unknown
        CommitState.unknown (mark_commit_unknown id p.now) (unknown_commit_error p.ids id) e w h) [
          | inl unknown ↦ says.1 unknown
          | inr (found, done, same, w₁) ↦ says.1 (ap (λ (y : StBridgeError). y.code) same)
        ]

  report_unrecorded-silent :
      (x : AppError) (w : World)
      → (report_unrecorded p {A = BridgeOperationRecord} id x w).0 ≢ err e
  unfolding report_unrecorded operation_state_persistence_error new_error
  report_unrecorded-silent x w h =
      let original =
        operation_state_persistence_error p.ids id StErrorCode.st_commit_state_unknown
          CommitState.unknown x in
      elim (recording-err BridgeOperationRecord p.ids id StErrorCode.st_commit_state_unknown
        CommitState.unknown (mark_commit_unknown id p.now) original e w h) [
          | inl unknown ↦ says.1 unknown
          | inr (found, done, same, w₁) ↦ says.1 (ap (λ (y : StBridgeError). y.code) same)
        ]

  handled-silent :
      (r : Result AppError BridgeOperationRecord) (v : World)
      → (or_handle (r, v) (report_unrecorded p id)).0 ≢ err e
  handled-silent (ok a) v h = cc h
  handled-silent (err x) v h = report_unrecorded-silent x v h

  store_applied-silent :
      (result : StCommitResult) (encoded : String) (w : World)
      → (store_applied p id result encoded w).0 ≢ err e
  unfolding store_applied
  store_applied-silent result encoded w h =
      let m = mark_committed_with_state id encoded OperationCommitState.not_started p.now in
      elim (>>=-err (catch m (report_unrecorded p id)) (λ _. lift (ok result)) w e h) [
        | inl (failed_, _) ↦ handled-silent (m w).0 (m w).1 failed_
        | inr (a, h₁, h₂, _) ↦ cc h₂
      ]

  ok_or-err :
      (o : Option String)
      → ok_or o (unknown_commit_error p.ids id) ≡ err e
      → e.code ≡ StErrorCode.st_commit_state_unknown
  unfolding unknown_commit_error new_error
  ok_or-err none h =
      let same : unknown_commit_error p.ids id ≡ e = cc h in
      ap (λ (y : StBridgeError). y.code) (sym same)
  ok_or-err (some x) h = cc h

  applied-silent : (result : StCommitResult) (w : World) → (settle_applied p id result w).0 ≢ err e
  unfolding settle_applied
  applied-silent result w h =
      elim (>>=-err (lift (ok_or (p.result_to_string result) (unknown_commit_error p.ids id)))
        (store_applied p id result) w e h) [
          | inl (failed_, _) ↦ says.1 (ok_or-err (p.result_to_string result) failed_)
          | inr (encoded, h₁, h₂, _) ↦ store_applied-silent result encoded w h₂
        ]

  status-IsRefused :
      (word : String) (s : StCommitStatus) (result : StCommitResult) (w : World)
      → IsIssuedWorld w
      → IsKeyed w.db.operations
      → (settle_status p id word s result w).0 ≡ err e
      → IsRefused id (settle_status p id word s result w).1
  unfolding settle_status
  status-IsRefused word StCommitStatus.applied result w iw k h = absurd (applied-silent result w h)
  status-IsRefused word StCommitStatus.already_applied result w iw k h =
      absurd (applied-silent result w h)
  status-IsRefused word StCommitStatus.not_applied result w iw k h =
      not_applied-IsRefused (format (word ∷ " was not applied" ∷ [])) (not_applied_error p.ids id) w
        iw k h
  status-IsRefused word StCommitStatus.unknown result w iw k h = absurd (unknown-silent w h)

  pub settle-IsRefused :
      (word : String) (outcome : StResult StCommitResult) (w : World)
      → IsIssuedWorld w
      → IsKeyed w.db.operations
      → (settle p id word outcome w).0 ≡ err e
      → IsRefused id (settle p id word outcome w).1
  unfolding settle
  settle-IsRefused word (ok result) w iw k h = status-IsRefused word result.status result w iw k h
  settle-IsRefused word (err error) w iw k h =
      elim (Bool-cases (is_not_applied error.commit_state)) [
        | inl x ↦ rw x (
            not_applied-IsRefused (format (word ∷ " was rejected before mutation" ∷ [])) error w iw
              k (rw x at h))
        | inr x ↦ absurd (unknown-silent w (rw x at h))
      ]
