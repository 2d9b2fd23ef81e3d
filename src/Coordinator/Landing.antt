-- ===== src/Coordinator/Landing.antt =====
-- src/modules/bridge/operation_coordinator.rs: what `commit` and `create` record when they succeed.
use im_bridge_rs.Common.{
  String, true, false, Option, none, some, List, ◌∷◌, ◌≡◌, ◌≢◌, refl, sym, ◌∙◌, subst, ap, inl, inr,
  arith, Bool-cases,
}
use im_bridge_rs.Errors.{
  AppError, StResult, ok, err, ok_or, StBridgeError, StErrorCode, CommitState, ErrorIds,
  code_as_str,
}
use im_bridge_rs.St.{
  StChatLocator, StMutation, CreateStChat, StCommitResult, StCommitStatus, PollerRuntimeFence,
  fence_is_valid,
}
use im_bridge_rs.Operation.{OperationCommitState, BridgeOperationRecord}
use im_bridge_rs.Store.{
  OperationRow, KeyRefRow, World, M, ◌>>=◌, lift, catch, mapping_err, cas,
  mark_committed_with_state, mark_committing, mark_failed_with_state, mark_commit_unknown,
  set_committed, set_committing, find_operation, update_row,
}
use im_bridge_rs.Store.Invariant.{IsLanded, RowPath-IsLanded}
use im_bridge_rs.Store.Following.{
  IsIssuedWorld, Follows, >>=-ok, refused, catch-ok, cas-Follows, catch-Follows, Follows-refl,
}
use im_bridge_rs.Store.Uniqueness.{IsKeyed, IsKeyed-Follows}
use im_bridge_rs.Store.CompareAndSet.{cas-ok}
use im_bridge_rs.Coordinator.{
  Platform, StM, dispatch, recording, settle_applied, store_applied, report_unrecorded,
  settle_not_applied, settle_unknown, settle_status, settle, commit, create, is_not_applied,
  operation_state_persistence_error, unknown_commit_error, not_applied_error, app_error,
  send_marked, bridge_error_from_app,
}

pub recording-ne-ok :
    {A : Type 0} (ids : ErrorIds) (id : String) (code : StErrorCode) (s : CommitState)
    (m : M AppError BridgeOperationRecord) (original : StBridgeError) (w : World) (a : A)
    → (recording ids id code s m original w).0 ≢ ok a
unfolding recording
recording-ne-ok {A} ids id code s m original w a =
    refused {B = A} (λ (_ : BridgeOperationRecord). original)
      (mapping_err (operation_state_persistence_error ids id code s) m w).1
      (mapping_err (operation_state_persistence_error ids id code s) m w).0 a

pub ok_or-ok : {E A : Type 0} (o : Option A) (e : E) {a : A} → ok_or o e ≡ ok a → o ≡ some a
ok_or-ok none e h = absurd (cc h)
ok_or-ok (some x) e h = cc h

-- The row of the operation holds the connector's result, and is committed or delivered.
abbrev pub IsRecorded : {V : Type 0} → Platform V → String → StCommitResult → World → Type 0
IsRecorded p id result w =
    (t : OperationRow) × (encoded : String) × (find_operation id w.db.operations ≡ some t)
    × IsLanded t
    × (p.result_to_string result ≡ some encoded)
    × (t.connector_result_json ≡ some encoded)

set_committed-IsLanded :
    (keys : List KeyRefRow) (encoded now : String) (r t : OperationRow)
    → update_row keys (set_committed encoded OperationCommitState.not_started) now r ≡ some t
    → IsLanded t × (t.connector_result_json ≡ some encoded)
unfolding update_row
set_committed-IsLanded keys encoded now r t e = ground arith

module _ {V : Type 0} (p : Platform V) (id : String) where
  pub mark_committed-IsRecorded :
      (encoded : String) (result : StCommitResult) (w : World) (found : BridgeOperationRecord)
      → p.result_to_string result ≡ some encoded
      → IsIssuedWorld w
      → IsKeyed w.db.operations
      → (mark_committed_with_state id encoded OperationCommitState.not_started p.now w).0 ≡ ok found
      → IsRecorded p id result
          (mark_committed_with_state id encoded OperationCommitState.not_started p.now w).1
  unfolding mark_committed_with_state
  mark_committed-IsRecorded encoded result w found e iw k h =
      let (keys, r, t, t', moved, there, path) =
        cas-ok id (set_committed encoded OperationCommitState.not_started) p.now _
          "committed/applied" w found refl iw k h in
      let (landed, json) = set_committed-IsLanded keys encoded p.now r t moved in
      let (landed', same) = RowPath-IsLanded path landed in
      (t', encoded, there, landed', e, same ∙ json)

  store_applied-IsRecorded :
      (encoded : String) (result result' : StCommitResult) (w : World)
      → p.result_to_string result ≡ some encoded
      → IsIssuedWorld w
      → IsKeyed w.db.operations
      → (store_applied p id result encoded w).0 ≡ ok result'
      → (result ≡ result') × IsRecorded p id result (store_applied p id result encoded w).1
  unfolding store_applied report_unrecorded
  store_applied-IsRecorded encoded result result' w e iw k h =
      let m = mark_committed_with_state id encoded OperationCommitState.not_started p.now in
      let (found, h₁, h₂, w₁) =
        >>=-ok (catch m (report_unrecorded p id)) (λ _. lift (ok result)) w result' h in
      let (done, w₂) =
        catch-ok m (report_unrecorded p id) w found
          (λ error.
            recording-ne-ok p.ids id StErrorCode.st_commit_state_unknown CommitState.unknown
              (mark_commit_unknown id p.now) _ (m w).1 found)
          h₁ in
      (
        cc h₂,
        subst (IsRecorded p id result) (sym (w₁ ∙ w₂))
            (mark_committed-IsRecorded encoded result w found e iw k done),
      )

  pub settle_applied-IsRecorded :
      (result result' : StCommitResult) (w : World)
      → IsIssuedWorld w
      → IsKeyed w.db.operations
      → (settle_applied p id result w).0 ≡ ok result'
      → (result ≡ result') × IsRecorded p id result (settle_applied p id result w).1
  unfolding settle_applied
  settle_applied-IsRecorded result result' w iw k h =
      let (encoded, e, h₁, w₁) =
        >>=-ok (lift (ok_or (p.result_to_string result) (unknown_commit_error p.ids id)))
          (store_applied p id result) w result' h in
      let (same, there) =
        store_applied-IsRecorded encoded result result' w
          (ok_or-ok (p.result_to_string result) (unknown_commit_error p.ids id) e) iw k h₁ in
      (same, subst (IsRecorded p id result) (sym w₁) there)

  pub not_applied-ne-ok :
      {A : Type 0} (summary : String) (original : StBridgeError) (w : World) (a : A)
      → (settle_not_applied p id summary original w).0 ≢ ok a
  unfolding settle_not_applied
  not_applied-ne-ok summary original w a =
      recording-ne-ok p.ids id original.code CommitState.not_applied
        (mark_failed_with_state id "commit" (code_as_str StErrorCode.st_commit_failed) summary false
          OperationCommitState.not_applied p.now)
        original w a

  pub unknown-ne-ok : {A : Type 0} (w : World) (a : A) → (settle_unknown p id w).0 ≢ ok a
  unfolding settle_unknown
  unknown-ne-ok w a =
      recording-ne-ok p.ids id StErrorCode.st_commit_state_unknown CommitState.unknown
        (mark_commit_unknown id p.now) (unknown_commit_error p.ids id) w a

  settle_status-IsRecorded :
      (word : String) (s : StCommitStatus) (result result' : StCommitResult) (w : World)
      → IsIssuedWorld w
      → IsKeyed w.db.operations
      → (settle_status p id word s result w).0 ≡ ok result'
      → (result ≡ result') × IsRecorded p id result (settle_status p id word s result w).1
  unfolding settle_status
  settle_status-IsRecorded word StCommitStatus.applied result result' w iw k h =
      settle_applied-IsRecorded result result' w iw k h
  settle_status-IsRecorded word StCommitStatus.already_applied result result' w iw k h =
      settle_applied-IsRecorded result result' w iw k h
  settle_status-IsRecorded word StCommitStatus.not_applied result result' w iw k h =
      absurd (not_applied-ne-ok _ (not_applied_error p.ids id) w result' h)
  settle_status-IsRecorded word StCommitStatus.unknown result result' w iw k h =
      absurd (unknown-ne-ok w result' h)

  -- If the outcome is settled as a success, the backend reported it, and it is recorded.
  settle-IsRecorded :
      (word : String) (outcome : StResult StCommitResult) (result : StCommitResult) (w : World)
      → IsIssuedWorld w
      → IsKeyed w.db.operations
      → (settle p id word outcome w).0 ≡ ok result
      → (outcome ≡ ok result) × IsRecorded p id result (settle p id word outcome w).1
  unfolding settle
  settle-IsRecorded word (ok r) result w iw k h =
      let (same, there) = settle_status-IsRecorded word r.status r result w iw k h in
      (ap ok same, subst (λ x. IsRecorded p id x (settle p id word (ok r) w).1) same there)
  settle-IsRecorded word (err error) result w iw k h =
      elim (Bool-cases (is_not_applied error.commit_state)) [
        | inl e ↦ absurd (not_applied-ne-ok _ error w result (rw e at h))
        | inr e ↦ absurd (unknown-ne-ok w result (rw e at h))
      ]

module _ {V : Type 0} (p : Platform V) (id : String) where
  pub app_error-Follows :
      (w : World) → IsIssuedWorld w → Follows w (app_error p id (mark_committing id p.now) w).1
  unfolding app_error mark_committing
  app_error-Follows w iw =
      catch-Follows (cas id set_committing p.now "generated" "committing")
        (λ e. lift (err (bridge_error_from_app p.ids id e))) w
        (cas-Follows id set_committing p.now "generated" "committing" w refl iw)
        (λ e v iv. Follows-refl v iv)

  -- A mutation that is sent after its mark, and settled well.
  pub send_marked-IsRecorded :
      (answer : StResult StCommitResult) (s : StResult StCommitResult → StM StCommitResult)
      (result : StCommitResult) (w : World)
      → ((v : World)
          → IsIssuedWorld v
          → IsKeyed v.db.operations
          → (s answer v).0 ≡ ok result
          → (answer ≡ ok result) × IsRecorded p id result (s answer v).1)
      → IsIssuedWorld w
      → IsKeyed w.db.operations
      → (send_marked p id answer s w).0 ≡ ok result
      → (answer ≡ ok result) × IsRecorded p id result (send_marked p id answer s w).1
  unfolding send_marked dispatch
  send_marked-IsRecorded answer s result w settled iw k h =
      let mark = app_error p id (mark_committing id p.now) in
      let (found, h₁, h₂, w₁) = >>=-ok mark (λ _. dispatch id answer >>= s) w result h in
      let first = app_error-Follows w iw in
      let marked = (mark w).1 in
      let v = record marked { dispatched = id ∷ marked.dispatched } in
      let (same, there) = settled v first.issued_after (IsKeyed-Follows w marked first k) h₂ in
      (same, subst (IsRecorded p id result) (sym w₁) there)

-- If `commit` succeeds, then the fence was valid, the backend answered with just this result, and
-- afterwards the operation is committed or delivered, applied, with this result on record. This
-- holds whatever other tasks do meanwhile and whichever statements fail.
pub commit-IsRecorded :
    {V : Type 0} (p : Platform V) (id : String) (locator : StChatLocator)
    (expected_sha256 expected_integrity : String) (mutation : StMutation V)
    (fence : PollerRuntimeFence) (result : StCommitResult) (w : World)
    → IsIssuedWorld w
    → IsKeyed w.db.operations
    → (commit p id locator expected_sha256 expected_integrity mutation fence w).0 ≡ ok result
    → (fence_is_valid fence ≡ true)
      × (p.backend_commit (record {
        operation_id = id;
        locator = locator;
        expected_sha256 = expected_sha256;
        expected_integrity = expected_integrity;
        mutation = mutation;
        fence = fence;
      })
          ≡ ok result)
      × IsRecorded p id result
          (commit p id locator expected_sha256 expected_integrity mutation fence w).1
unfolding commit
commit-IsRecorded p id locator expected_sha256 expected_integrity mutation fence result w iw k h =
    elim (Bool-cases (fence_is_valid fence)) [
      | inl valid ↦
          let (answered, there) =
            send_marked-IsRecorded p id (p.backend_commit _) (settle p id "commit") result w
              (λ v iv kv e. settle-IsRecorded p id "commit" _ result v iv kv e) iw k
              (rw (valid, commit) at h) in
          (valid, answered, rw (valid, commit) there)
      | inr invalid ↦ absurd (cc (rw (invalid, commit) at h))
    ]

-- If `create` succeeds, then the backend answered with just this result, and afterwards the
-- operation is committed or delivered, applied, with this result on record. This holds whatever
-- other tasks do meanwhile and whichever statements fail.
pub create-IsRecorded :
    {V : Type 0} (p : Platform V) (command : CreateStChat V) (result : StCommitResult) (w : World)
    → IsIssuedWorld w
    → IsKeyed w.db.operations
    → (create p command w).0 ≡ ok result
    → (p.backend_create command ≡ ok result)
      × IsRecorded p command.operation_id result (create p command w).1
unfolding create
create-IsRecorded p command result w iw k h =
    let id = command.operation_id in
    send_marked-IsRecorded p id (p.backend_create command) (settle p id "create") result w
      (λ v iv kv e. settle-IsRecorded p id "create" _ result v iv kv e) iw k h
