-- ===== src/Coordinator/AtMostOnce.antt =====
-- src/modules/bridge/operation_coordinator.rs: how often one operation is sent to the backend.
use im_bridge_rs.Common.{
  ◌≤◌, String, Bool, true, false, not, List, [], ◌∷◌, ◌≡◌, inl, inr, arith, Bool-cases, ◌||◌,
  str_eq, is_blank, if◌then◌else◌,
}
use im_bridge_rs.Errors.{Result, StBridgeError, ok, err, conflict_error}
use im_bridge_rs.St.{
  StChatLocator, StMutation, CreateStChat, StCommitResult, PollerRuntimeFence, fence_is_valid,
}
use im_bridge_rs.Operation.{generated, OperationRecoveryPayload, BridgeOperationRecord}
use im_bridge_rs.Store.{World, ◌>>=◌, lift, mapping_err, and_then, status_eq}
use im_bridge_rs.Store.Following.{IsIssuedWorld}
use im_bridge_rs.Store.Uniqueness.{IsKeyed}
use im_bridge_rs.Coordinator.{
  Platform, StM, OperationCoordinator, settle, commit, create, send_marked, bridge_error_from_app,
  unknown_commit_error, replay_generated, replay_settle, send,
  decrypt_recovery_payload_for_operation,
}
use im_bridge_rs.Coordinator.Following.{
  settle-Follows, replay_settle-Follows, decrypt-Follows, mapping_err-Follows,
}
use im_bridge_rs.Coordinator.Sends.{sends, IsOnce, IsOnce-Follows, send_marked-IsOnce}

-- A call of the coordinator that may send a mutation, each with a platform of its own: the time, the
-- answer of the backend and the keys may differ from call to call.
pub data Call (V : Type 0) : Type 0 where
  commit_call :
      Platform V
      → String
      → StChatLocator
      → String
      → String
      → StMutation V
      → PollerRuntimeFence
      → Call V
  create_call : Platform V → CreateStChat V → Call V
  replay_call :
      Platform V
      → OperationCoordinator
      → BridgeOperationRecord
      → String
      → PollerRuntimeFence
      → Call V

unfoldable pub run_call : {V : Type 0} → Call V → World → World
unfolding commit create replay_generated
run_call (commit_call p id locator sha256 integrity mutation fence) w =
    (commit p id locator sha256 integrity mutation fence w).1
run_call (create_call p command) w = (create p command w).1
run_call (replay_call p c r bot fence) w = (replay_generated p c r bot fence w).1

unfoldable pub run_calls : {V : Type 0} → List (Call V) → World → World
unfolding run_call
run_calls [] w = w
run_calls (c ∷ cs) w = run_calls cs (run_call c w)

module _ {A : Type 0} (k : String) where
  if-IsOnce :
      (b : Bool) (m n : StM A) (w : World)
      → IsOnce k (m w).1
      → IsOnce k (n w).1
      → IsOnce k ((if b then m else n) w).1
  if-IsOnce true m n w x y = x
  if-IsOnce false m n w x y = y

  and_then-IsOnce :
      {B : Type 0} (f : A → StM B) (v : World) (r : Result StBridgeError A)
      → IsOnce k v
      → ((a : A) → IsOnce k (f a v).1)
      → IsOnce k (and_then (r, v) f).1
  and_then-IsOnce f v (ok a) once next = next a
  and_then-IsOnce f v (err e) once next = once

module _ {V : Type 0} (k : String) where
  commit-IsOnce :
      (p : Platform V) (id : String) (locator : StChatLocator) (sha256 integrity : String)
      (mutation : StMutation V) (fence : PollerRuntimeFence) (w : World)
      → IsOnce k w
      → IsOnce k (commit p id locator sha256 integrity mutation fence w).1
  unfolding commit
  commit-IsOnce p id locator sha256 integrity mutation fence w once =
      elim (Bool-cases (fence_is_valid fence)) [
        | inl valid ↦
            rw (valid, commit)
              (send_marked-IsOnce p id k _ (settle p id "commit") w
                (λ v iv. settle-Follows p id "commit" _ v iv) once)
        | inr invalid ↦ rw (invalid, commit) once
      ]

  pub replay-IsOnce :
      (p : Platform V) (c : OperationCoordinator) (r : BridgeOperationRecord) (bot : String)
      (fence : PollerRuntimeFence) (w : World)
      → IsOnce k w
      → IsOnce k (replay_generated p c r bot fence w).1
  unfolding replay_generated
  replay-IsOnce p c r bot fence w once =
      let decrypted =
        mapping_err (bridge_error_from_app p.ids r.id)
          (decrypt_recovery_payload_for_operation p c r fence) in
      let resend = λ (payload : OperationRecoveryPayload V).
        send_marked p r.id (send p r payload) (replay_settle p r) in
      let before =
        IsOnce-Follows k
          (mapping_err-Follows (bridge_error_from_app p.ids r.id)
            (decrypt_recovery_payload_for_operation p c r fence) w
            (decrypt-Follows p r c fence w once.others))
          once in
      let resent : IsOnce k ((decrypted >>= resend) w).1 =
        and_then-IsOnce k resend (decrypted w).1 (decrypted w).0 before (λ payload.
          send_marked-IsOnce p r.id k (send p r payload) (replay_settle p r) (decrypted w).1
            (λ v iv. replay_settle-Follows p r (send p r payload) v iv) before) in
      let unknown : StM StCommitResult = lift (err (unknown_commit_error p.ids r.id)) in
      if-IsOnce k
        (not (fence_is_valid fence)
          || is_blank bot
          || not (str_eq bot r.bot_id)
          || not (str_eq fence.internal_bot_id r.bot_id))
        (lift (
          err (
            bridge_error_from_app p.ids r.id (
              conflict_error "PAYLOAD_AAD_INVALID"
                "operation replay bot identity does not match the historical operation"))))
        (if not (status_eq r.status generated) then unknown else decrypted >>= resend) w once
        (if-IsOnce k (not (status_eq r.status generated)) unknown (decrypted >>= resend) w once
          resent)

  run_call-IsOnce : (c : Call V) (w : World) → IsOnce k w → IsOnce k (run_call c w)
  unfolding run_call create
  run_call-IsOnce (commit_call p id locator sha256 integrity mutation fence) w once =
      commit-IsOnce p id locator sha256 integrity mutation fence w once
  run_call-IsOnce (create_call p command) w once =
      send_marked-IsOnce p command.operation_id k _ (settle p command.operation_id "create") w
        (λ v iv. settle-Follows p command.operation_id "create" _ v iv) once
  run_call-IsOnce (replay_call p c r bot fence) w once = replay-IsOnce p c r bot fence w once

  pub run_calls-IsOnce : (cs : List (Call V)) (w : World) → IsOnce k w → IsOnce k (run_calls cs w)
  unfolding run_calls
  run_calls-IsOnce [] w once = once
  run_calls-IsOnce (c ∷ cs) w once = run_calls-IsOnce cs (run_call c w) (run_call-IsOnce c w once)

-- In whichever order `commit`, `create` and `replay_generated` are called one after another, each
-- with whatever arguments and whatever answers of the backend, with statements of other tasks
-- before each statement of theirs and with statements that fail, an operation that was not sent
-- before is sent to the backend at most once.
pub sends_at_most_once :
    {V : Type 0} (k : String) (cs : List (Call V)) (w : World)
    → IsIssuedWorld w
    → IsKeyed w.db.operations
    → sends k w.dispatched ≡ 0
    → sends k (run_calls cs w).dispatched ≤ 1
sends_at_most_once k cs w iw keyed unsent =
    let start : IsOnce k w = record { others = iw; keyed = keyed; sent = inl unsent } in
    elim (run_calls-IsOnce k cs w start).sent [
      | inl none_ ↦ omega (arith, none_)
      | inr (one, marked) ↦ omega (arith, one)
    ]
