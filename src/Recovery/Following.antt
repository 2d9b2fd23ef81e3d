-- ===== src/Recovery/Following.antt =====
-- src/modules/bridge/operation_recovery.rs: the statements of reconciling, the leases and the listing.
use im_bridge_rs.Common.{
  ℕ, String, not, Option, none, some, [], ◌∷◌, inl, inr, ◌||◌, ◌&&◌, ltb, ◌-◌, ◌^◌, ◌==◌, is_blank,
  Bool-cases,
}
use im_bridge_rs.Errors.{ok}
use im_bridge_rs.Operation.{
  committing, committed, delivered, BridgeOperationRecord, OperationCommitState,
}
use im_bridge_rs.Store.{
  World, lift, acquire_lease, release_lease, acquired_lease, leases_dropped, LeaseRequest,
  OperationExecutionLease, try_acquire_execution_lease, release_execution_lease,
  list_recovery_candidates_for_bot, collect, candidate_rows, Db, read_lease, execute, status_in,
  status_eq, commit_eq, mark_committed_with_state,
}
use im_bridge_rs.Store.Following.{
  IsIssuedWorld, Follows, Follows-refl, >>=-Follows, execute-Follows, fetch-Follows,
}
use im_bridge_rs.Coordinator.{
  Platform, StOperationJournalRecord, reconcile_commit, with_digest, with_entry, identity_matches,
  journal_applied,
}
use im_bridge_rs.Coordinator.Following.{committed_mark-Follows}
use im_bridge_rs.Recovery.Driver.{release_lease as release_held}

-- Reconciling writes one statement at most, and sends nothing.
module _ {V : Type 0} (p : Platform V) (journal_result : StOperationJournalRecord → String)
    (r : BridgeOperationRecord) (hash : String) where
  entry-Follows :
      (digest : String) (found : Option StOperationJournalRecord) (w : World)
      → IsIssuedWorld w
      → Follows w (with_entry p journal_result r hash digest found w).1
  unfolding with_entry
  entry-Follows digest none w iw = Follows-refl w iw
  entry-Follows digest (some entry) w iw =
      elim (Bool-cases (not (identity_matches entry r.id hash digest))) [
        | inl other ↦ rw (other, with_entry) (Follows-refl w iw)
        | inr same ↦ elim (Bool-cases (not (journal_applied entry.status))) [
          | inl pending ↦ rw (same, pending, with_entry) (Follows-refl w iw)
          | inr applied_ ↦
              rw (same, applied_, with_entry)
                (>>=-Follows
                  (mark_committed_with_state r.id (journal_result entry) r.commit_state p.now)
                  (λ found. lift (ok (some found))) w
                  (committed_mark-Follows p r.id (journal_result entry) r.commit_state w iw)
                  (λ a v iv. Follows-refl v iv))
        ]
      ]

  digest-Follows :
      (digest : Option String) (w : World)
      → IsIssuedWorld w
      → Follows w (with_digest p journal_result r hash digest w).1
  unfolding with_digest
  digest-Follows none w iw = Follows-refl w iw
  digest-Follows (some d) w iw =
      >>=-Follows (lift (p.journal_lookup r.id)) (with_entry p journal_result r hash d) w
        (Follows-refl w iw) (λ found v iv. entry-Follows d found v iv)

  pub reconcile-Follows :
      (w : World) → IsIssuedWorld w → Follows w (reconcile_commit p journal_result r hash w).1
  unfolding reconcile_commit
  reconcile-Follows w iw =
      elim (Bool-cases (
        status_in r.status (committed ∷ delivered ∷ [])
        && commit_eq r.commit_state OperationCommitState.applied)) [
          | inl done ↦ rw (done, reconcile_commit) (Follows-refl w iw)
          | inr unsettled ↦ elim (Bool-cases (not (status_eq r.status committing))) [
            | inl other ↦ rw (unsettled, other, reconcile_commit) (Follows-refl w iw)
            | inr waiting ↦
                rw (unsettled, waiting, reconcile_commit) (digest-Follows r.mutation_digest w iw)
          ]
        ]

pub acquire-Follows :
    (q : LeaseRequest) (w : World) → IsIssuedWorld w → Follows w (try_acquire_execution_lease q w).1
unfolding try_acquire_execution_lease
acquire-Follows q w iw =
    elim (Bool-cases (
      is_blank q.operation_id
      || is_blank q.bot_id
      || is_blank q.instance_id
      || is_blank q.lease_until)) [
        | inl bad ↦ rw (bad, try_acquire_execution_lease) (Follows-refl w iw)
        | inr good ↦
            rw (good, try_acquire_execution_lease)
              (>>=-Follows (execute (acquire_lease q) (acquired_lease q))
                (λ row. lift (read_lease row)) w
                (execute-Follows (acquire_lease q) (acquired_lease q) w tt iw)
                (λ a v iv. Follows-refl v iv))
      ]

release_execution-Follows :
    (l : OperationExecutionLease) (w : World)
    → IsIssuedWorld w
    → Follows w (release_execution_lease l w).1
unfolding release_execution_lease
release_execution-Follows l w iw = elim (Bool-cases (ltb (2 ^ 63 - 1) l.lease_generation)) [
  | inl bad ↦ rw (bad, release_execution_lease) (Follows-refl w iw)
  | inr good ↦
      let dropped =
        λ (db : Db). leases_dropped l.operation_id l.instance_id l.lease_generation db.leases in
      let drop = release_lease l.operation_id l.instance_id l.lease_generation in
      rw (good, release_execution_lease)
        (>>=-Follows (execute drop dropped) (λ n. lift (ok (n == 1))) w
          (execute-Follows drop dropped w tt iw) (λ a v iv. Follows-refl v iv))
]

pub release-Follows :
    (l : OperationExecutionLease) (w : World) → IsIssuedWorld w → Follows w (release_held l w).1
unfolding release_held
release-Follows l w iw =
    >>=-Follows (release_execution_lease l) _ w (release_execution-Follows l w iw)
      (λ released v iv. Follows-refl v iv)

pub list-Follows :
    (bot : String) (limit : ℕ) (w : World)
    → IsIssuedWorld w
    → Follows w (list_recovery_candidates_for_bot bot limit w).1
unfolding list_recovery_candidates_for_bot
list-Follows bot limit w iw = elim (Bool-cases (is_blank bot)) [
  | inl bad ↦ rw (bad, list_recovery_candidates_for_bot) (Follows-refl w iw)
  | inr good ↦
      rw (good, list_recovery_candidates_for_bot)
        (fetch-Follows (λ db. collect (candidate_rows bot limit db.operations)) w iw)
]
