-- ===== src/Recovery/AtMostOnce.antt =====
-- src/modules/bridge/operation_recovery.rs: how often one operation is sent to the backend.
use im_bridge_rs.Common.{
  ◌≤◌, String, Bool, true, not, Option, none, some, List, [], ◌∷◌, ◌≡◌, inl, inr, arith, ◌||◌,
  str_eq, is_blank, if◌then◌else◌, Bool-cases,
}
use im_bridge_rs.Errors.{AppError, Result, ok, err, ok_or, service_unavailable_error, StBridgeError}
use im_bridge_rs.St.{StCommitResult, PollerRuntimeFence}
use im_bridge_rs.Operation.{BridgeOperationStatus, generated, committing, BridgeOperationRecord}
use im_bridge_rs.Store.{
  World, M, ◌>>=◌, lift, catch, and_then, or_handle, mapping_err, OperationExecutionLease,
  try_acquire_execution_lease, list_recovery_candidates_for_bot,
}
use im_bridge_rs.Store.Following.{IsIssuedWorld}
use im_bridge_rs.Store.Uniqueness.{IsKeyed}
use im_bridge_rs.Coordinator.{
  Platform, OperationCoordinator, StOperationJournalRecord, replay_generated, reconcile_commit,
  locator_hash,
}
use im_bridge_rs.Coordinator.Sends.{sends, IsOnce, IsOnce-Follows}
use im_bridge_rs.Coordinator.AtMostOnce.{Call, run_calls, replay-IsOnce, run_calls-IsOnce}
use im_bridge_rs.Poller.{PollerOwnershipGuard, runtime_fence}
use im_bridge_rs.Recovery.Following.{
  reconcile-Follows, acquire-Follows, release-Follows, list-Follows,
}
use im_bridge_rs.Recovery.Driver.{
  release_lease as release_held, attempt, recover_status, recover_one, recover_leased, recover_all,
  recover_for_bot, replay_failed, reconcile_failed, fence_rejected, is_some, is_true, lease_request,
}

module _ (k : String) where
  >>=-IsOnce :
      {E A B : Type 0} (m : M E A) (f : A → M E B) (w : World)
      → IsOnce k (m w).1
      → ((a : A) (v : World) → IsOnce k v → IsOnce k (f a v).1)
      → IsOnce k (◌>>=◌ m f w).1
  >>=-IsOnce {E} {A} {B} m f w once next = go (m w).0 (m w).1 once
    where
      go : (x : Result E A) (v : World) → IsOnce k v → IsOnce k (and_then (x, v) f).1
      go (ok a) v once' = next a v once'
      go (err e) v once' = once'

  catch-IsOnce :
      {E F A : Type 0} (m : M E A) (h : E → M F A) (w : World)
      → IsOnce k (m w).1
      → ((e : E) (v : World) → IsOnce k v → IsOnce k (h e v).1)
      → IsOnce k (catch m h w).1
  catch-IsOnce {E} {F} {A} m h w once next = go (m w).0 (m w).1 once
    where
      go : (x : Result E A) (v : World) → IsOnce k v → IsOnce k (or_handle (x, v) h).1
      go (ok a) v once' = once'
      go (err e) v once' = next e v once'

module _ {V : Type 0} (p : Platform V) (journal_result : StOperationJournalRecord → String)
    (c : OperationCoordinator) (guard : PollerOwnershipGuard)
    (still_owner : BridgeOperationRecord → Result String (Unit {0})) (bot lease_until : String)
    (fence : PollerRuntimeFence) (k : String) where
  status-IsOnce :
      (r : BridgeOperationRecord) (s : BridgeOperationStatus) (w : World)
      → IsOnce k w
      → IsOnce k (recover_status p journal_result c guard still_owner bot lease_until fence r s w).1
  unfolding recover_status
  status-IsOnce r generated w once =
      let done = λ (_ : StCommitResult). lift {E = StBridgeError} (ok true) in
      catch-IsOnce k (replay_generated p c r bot fence >>= done)
        (λ e. lift (err (replay_failed r e))) w
        (>>=-IsOnce k (replay_generated p c r bot fence) done w
          (replay-IsOnce k p c r bot fence w once) (λ a v once'. once'))
        (λ e v once'. once')
  status-IsOnce r committing w once =
      let hash = locator_hash p r.locator.handle r.locator.avatar r.locator.chat_file in
      let reconciled = reconcile_commit p journal_result r hash in
      let report =
        λ (outcome : Option BridgeOperationRecord). lift {E = AppError} (ok (is_some outcome)) in
      catch-IsOnce k (reconciled >>= report) (λ e. lift (err (reconcile_failed r e))) w
        (>>=-IsOnce k reconciled report w
          (IsOnce-Follows k (reconcile-Follows p journal_result r hash w once.others) once)
          (λ a v once'. once'))
        (λ e v once'. once')
  status-IsOnce r _ w once = once

  one-IsOnce :
      (r : BridgeOperationRecord) (w : World)
      → IsOnce k w
      → IsOnce k (recover_one p journal_result c guard still_owner bot lease_until fence r w).1
  unfolding recover_one
  one-IsOnce r w once =
      >>=-IsOnce k (mapping_err fence_rejected (lift (still_owner r)))
        (λ _. recover_status p journal_result c guard still_owner bot lease_until fence r r.status)
        w
        (catch-IsOnce k (lift (still_owner r)) (λ e. lift (err (fence_rejected e))) w once
          (λ e v once'. once'))
        (λ a v once'. status-IsOnce r r.status v once')

  leased-IsOnce :
      (r : BridgeOperationRecord) (lease : Option OperationExecutionLease) (w : World)
      → IsOnce k w
      → IsOnce k
          (recover_leased p journal_result c guard still_owner bot lease_until fence r lease w).1
  unfolding recover_leased
  leased-IsOnce r none w once = once
  leased-IsOnce r (some lease) w once =
      let one = recover_one p journal_result c guard still_owner bot lease_until fence r in
      let good : Bool → M AppError (Result AppError Bool) = λ b. lift (ok (ok b)) in
      let bad : AppError → M AppError (Result AppError Bool) = λ e. lift (ok (err e)) in
      >>=-IsOnce k (attempt one) (λ result. release_held lease >>= λ _. lift (ok (is_true result)))
        w
        (catch-IsOnce k (one >>= good) bad w
          (>>=-IsOnce k one good w (one-IsOnce r w once) (λ a v once'. once')) (λ e v once'. once'))
        (λ result v once'.
          >>=-IsOnce k (release_held lease) (λ _. lift (ok (is_true result))) v
            (IsOnce-Follows k (release-Follows lease v once'.others) once') (λ a u once''. once''))

  all-IsOnce :
      (rs : List BridgeOperationRecord) (w : World)
      → IsOnce k w
      → IsOnce k (recover_all p journal_result c guard still_owner bot lease_until fence rs w).1
  unfolding recover_all
  all-IsOnce [] w once = once
  all-IsOnce (r ∷ rs) w once =
      let q = lease_request p journal_result c guard still_owner bot lease_until fence r in
      let leased = recover_leased p journal_result c guard still_owner bot lease_until fence r in
      let others = recover_all p journal_result c guard still_owner bot lease_until fence rs in
      let report = λ (recovered : Bool). λ (more : List String).
        lift {E = AppError} (ok (if recovered then r.id ∷ more else more)) in
      >>=-IsOnce k (try_acquire_execution_lease q)
        (λ lease. leased lease >>= λ recovered. others >>= report recovered) w
        (IsOnce-Follows k (acquire-Follows q w once.others) once)
        (λ lease v once'.
          >>=-IsOnce k (leased lease) (λ recovered. others >>= report recovered) v
            (leased-IsOnce r lease v once')
            (λ recovered u once''.
              >>=-IsOnce k others (report recovered) u (all-IsOnce rs u once'') (λ a t o. o)))

recover_for_bot-IsOnce :
    {V : Type 0} (p : Platform V) (journal_result : StOperationJournalRecord → String)
    (c : OperationCoordinator) (guard : PollerOwnershipGuard)
    (still_owner : BridgeOperationRecord → Result String (Unit {0})) (bot lease_until k : String)
    (w : World)
    → IsOnce k w
    → IsOnce k (recover_for_bot p journal_result c guard still_owner bot lease_until w).1
unfolding recover_for_bot
recover_for_bot-IsOnce p journal_result c guard still_owner bot lease_until k w once =
    elim (Bool-cases (is_blank bot || not (str_eq guard.internal_bot_id bot))) [
      | inl bad ↦ rw (bad, recover_for_bot) once
      | inr good ↦
          let closed =
            service_unavailable_error "ST_POLLER_EPOCH_MISMATCH"
              "operation recovery requires a running runtime fence" in
          let loop = recover_all p journal_result c guard still_owner bot lease_until in
          rw (good, recover_for_bot)
            (>>=-IsOnce k (lift (ok_or (runtime_fence guard) closed))
              (λ fence. list_recovery_candidates_for_bot bot 128 >>= loop fence) w once
              (λ fence v once'.
                >>=-IsOnce k (list_recovery_candidates_for_bot bot 128) (loop fence) v
                  (IsOnce-Follows k (list-Follows bot 128 v once'.others) once')
                  (λ rs u once''.
                    all-IsOnce p journal_result c guard still_owner bot lease_until fence k rs u
                      once'')))
    ]

-- After any sequence of calls of `commit`, `create` and `replay_generated`, a run of
-- `recover_for_bot`, for any bot, guard and answers of the backend and the journal, with statements
-- of other tasks in between and with statements that fail, leaves an operation that was not sent
-- before the first call sent to the backend at most once.
pub recovery_sends_at_most_once :
    {V : Type 0} (k : String) (cs : List (Call V)) (p : Platform V)
    (journal_result : StOperationJournalRecord → String) (c : OperationCoordinator)
    (guard : PollerOwnershipGuard) (still_owner : BridgeOperationRecord → Result String (Unit {0}))
    (bot lease_until : String) (w : World)
    → IsIssuedWorld w
    → IsKeyed w.db.operations
    → sends k w.dispatched ≡ 0
    → sends k
        (recover_for_bot p journal_result c guard still_owner bot lease_until
          (run_calls cs w)).1.dispatched
      ≤ 1
recovery_sends_at_most_once k cs p journal_result c guard still_owner bot lease_until w iw keyed
      unsent =
    let start : IsOnce k w = record { others = iw; keyed = keyed; sent = inl unsent } in
    elim (recover_for_bot-IsOnce p journal_result c guard still_owner bot lease_until k
      (run_calls cs w) (run_calls-IsOnce k cs w start)).sent [
        | inl none_ ↦ omega (arith, none_)
        | inr (one, marked) ↦ omega (arith, one)
      ]
