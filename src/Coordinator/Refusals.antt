-- ===== src/Coordinator/Refusals.antt =====
-- `commit` and `create` of src/modules/bridge/operation_coordinator.rs: what an error that says "not
-- applied" leaves behind.
use im_bridge_rs.Common.{String, ◌∷◌, ◌≡◌, ◌≢◌, sym, subst, ap, inl, inr, Bool-cases}
use im_bridge_rs.Errors.{StResult, err, StBridgeError, new_error}
use im_bridge_rs.St.{
  StChatLocator, StMutation, CreateStChat, StCommitResult, PollerRuntimeFence, fence_is_valid,
}
use im_bridge_rs.Store.{World, ◌>>=◌, mark_committing}
use im_bridge_rs.Store.Following.{IsIssuedWorld}
use im_bridge_rs.Store.Failing.{>>=-err, mapping_err-err}
use im_bridge_rs.Store.Uniqueness.{IsKeyed, IsKeyed-Follows}
use im_bridge_rs.Coordinator.{
  Platform, dispatch, settle, commit, create, unknown_commit_error, app_error, send_marked,
  bridge_error_from_app,
}
use im_bridge_rs.Coordinator.Landing.{app_error-Follows}
use im_bridge_rs.Coordinator.Settling.{SaysNotApplied, IsRefused, settle-IsRefused}

module _ {V : Type 0} (p : Platform V) (id : String) (e : StBridgeError)
    (says : SaysNotApplied e) where
  -- The error of a mark that fails says that nothing was started.
  mark-silent : (w : World) → (app_error p id (mark_committing id p.now) w).0 ≢ err e
  unfolding app_error bridge_error_from_app new_error
  mark-silent w h =
      let m = mark_committing id p.now in
      let (x, same) = mapping_err-err (bridge_error_from_app p.ids id) (m w).0 (m w).1 e h in
      cc (says.0, ap (λ (y : StBridgeError). y.commit_state) same)

  send_marked-IsRefused :
      (word : String) (answer : StResult StCommitResult) (w : World)
      → IsIssuedWorld w
      → IsKeyed w.db.operations
      → (send_marked p id answer (settle p id word) w).0 ≡ err e
      → IsRefused id (send_marked p id answer (settle p id word) w).1
  unfolding send_marked dispatch
  send_marked-IsRefused word answer w iw k h =
      let mark = app_error p id (mark_committing id p.now) in
      elim (>>=-err mark (λ _. dispatch id answer >>= settle p id word) w e h) [
        | inl (failed_, _) ↦ absurd (mark-silent w failed_)
        | inr (found, h₁, h₂, w₁) ↦
            let first = app_error-Follows p id w iw in
            let marked = (mark w).1 in
            let v = record marked { dispatched = id ∷ marked.dispatched } in
            subst (IsRefused id) (sym w₁) (
              settle-IsRefused p id e says word answer v first.issued_after
                (IsKeyed-Follows w marked first k) h₂)
      ]

-- If `create` ends in an error that says "not applied", other than the report that an outcome could
-- not be recorded, then afterwards the operation is failed, not applied, in the table. This holds
-- whatever other tasks do meanwhile and whichever statements fail.
pub create-IsRefused :
    {V : Type 0} (p : Platform V) (command : CreateStChat V) (e : StBridgeError) (w : World)
    → SaysNotApplied e
    → IsIssuedWorld w
    → IsKeyed w.db.operations
    → (create p command w).0 ≡ err e
    → IsRefused command.operation_id (create p command w).1
unfolding create
create-IsRefused p command e w says iw k h =
    send_marked-IsRefused p command.operation_id e says "create" (p.backend_create command) w iw k h

-- If `commit` ends in an error that says "not applied", other than the report that an outcome could
-- not be recorded, then afterwards the operation is failed, not applied, in the table. This holds
-- whatever other tasks do meanwhile and whichever statements fail.
pub commit-IsRefused :
    {V : Type 0} (p : Platform V) (id : String) (locator : StChatLocator)
    (sha256 integrity : String) (mutation : StMutation V) (fence : PollerRuntimeFence)
    (e : StBridgeError) (w : World)
    → SaysNotApplied e
    → IsIssuedWorld w
    → IsKeyed w.db.operations
    → (commit p id locator sha256 integrity mutation fence w).0 ≡ err e
    → IsRefused id (commit p id locator sha256 integrity mutation fence w).1
unfolding commit unknown_commit_error new_error
commit-IsRefused p id locator sha256 integrity mutation fence e w says iw k h =
    elim (Bool-cases (fence_is_valid fence)) [
      | inl valid ↦
          rw (valid, commit)
            (send_marked-IsRefused p id e says "commit" _ w iw k (rw (valid, commit) at h))
      | inr invalid ↦
          let same : unknown_commit_error p.ids id ≡ e = cc (rw (invalid, commit) at h) in
          absurd (says.1 (ap (λ (y : StBridgeError). y.code) (sym same)))
    ]
