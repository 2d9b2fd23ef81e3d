-- ===== src/Coordinator/Reconciling.antt =====
-- `reconcile_commit` of src/modules/bridge/operation_coordinator.rs: what a reported commit rests on.
use im_bridge_rs.Common.{
  String, true, not, Option, none, some, List, [], ◌∷◌, ◌≡◌, refl, sym, ◌∙◌, subst, ◌⊎◌, inl, inr,
  arith, Bool-cases, ◌&&◌,
}
use im_bridge_rs.Errors.{AppError, ok}
use im_bridge_rs.Operation.{
  OperationCommitState, BridgeOperationRecord, committing, committed, delivered,
}
use im_bridge_rs.Store.{
  OperationRow, KeyRefRow, World, lift, mark_committed_with_state, set_committed, update_row,
  find_operation, status_eq, status_in, commit_eq,
}
use im_bridge_rs.Store.Invariant.{IsLanded, RowPath-IsLanded}
use im_bridge_rs.Store.Following.{IsIssuedWorld, >>=-ok}
use im_bridge_rs.Store.Uniqueness.{IsKeyed}
use im_bridge_rs.Store.CompareAndSet.{cas-ok}
use im_bridge_rs.Coordinator.{
  Platform, StOperationJournalRecord, identity_matches, journal_applied, reconcile_commit,
  with_digest, with_entry,
}

-- The row of the operation is committed or delivered, applied, with this text as its result.
abbrev pub IsLandedAs : String → String → World → Type 0
IsLandedAs id encoded w =
    (t : OperationRow) × (find_operation id w.db.operations ≡ some t)
    × IsLanded t
    × (t.connector_result_json ≡ some encoded)

committed_row :
    (keys : List KeyRefRow) (encoded : String) (s : OperationCommitState) (now : String)
    (r t : OperationRow)
    → update_row keys (set_committed encoded s) now r ≡ some t
    → IsLanded t × (t.connector_result_json ≡ some encoded)
unfolding update_row
committed_row keys encoded s now r t e = ground arith

mark_committed-IsLandedAs :
    (id encoded now : String) (s : OperationCommitState) (w : World) (found : BridgeOperationRecord)
    → IsIssuedWorld w
    → IsKeyed w.db.operations
    → (mark_committed_with_state id encoded s now w).0 ≡ ok found
    → IsLandedAs id encoded (mark_committed_with_state id encoded s now w).1
unfolding mark_committed_with_state
mark_committed-IsLandedAs id encoded now s w found iw k h =
    let (keys, r, t, t', moved, there, path) =
      cas-ok id (set_committed encoded s) now _ "committed/applied" w found refl iw k h in
    let (landed, json) = committed_row keys encoded s now r t moved in
    let (landed', same) = RowPath-IsLanded path landed in (t', there, landed', same ∙ json)

-- What the journal says of the operation.
abbrev pub IsConfirmed :
    {V : Type 0}
    → Platform V
    → BridgeOperationRecord
    → String
    → String
    → StOperationJournalRecord
    → Type 0
IsConfirmed p r locator_hash mutation_digest entry =
    (p.journal_lookup r.id ≡ ok (some entry))
    × (identity_matches entry r.id locator_hash mutation_digest ≡ true)
    × (journal_applied entry.status ≡ true)

module _ {V : Type 0} (p : Platform V) (journal_result : StOperationJournalRecord → String)
    (r : BridgeOperationRecord) (locator_hash : String) (w : World) (iw : IsIssuedWorld w)
    (k : IsKeyed w.db.operations) where
  entry_lands :
      (mutation_digest : String) (found : Option StOperationJournalRecord)
      (r' : BridgeOperationRecord)
      → (with_entry p journal_result r locator_hash mutation_digest found w).0 ≡ ok (some r')
      → (entry : StOperationJournalRecord) × (found ≡ some entry)
        × (identity_matches entry r.id locator_hash mutation_digest ≡ true)
        × (journal_applied entry.status ≡ true)
        × IsLandedAs r.id
            (journal_result entry)
            (with_entry p journal_result r locator_hash mutation_digest found w).1
  unfolding with_entry
  entry_lands mutation_digest none r' h = cc h
  entry_lands mutation_digest (some entry) r' h =
      elim (Bool-cases (not (identity_matches entry r.id locator_hash mutation_digest))) [
        | inl other ↦ absurd (cc (rw (other, with_entry) at h))
        | inr same ↦ elim (Bool-cases (not (journal_applied entry.status))) [
          | inl pending ↦ absurd (cc (rw (same, pending, with_entry) at h))
          | inr applied_ ↦
              let mark =
                mark_committed_with_state r.id (journal_result entry) r.commit_state p.now in
              let keep = λ (found : BridgeOperationRecord). lift {E = AppError} (ok (some found)) in
              let (found, done, _, w₁) =
                >>=-ok mark keep w (some r') (rw (same, applied_, with_entry) at h) in
              (
                entry,
                refl,
                ground (arith, same),
                ground (arith, applied_),
                rw (same, applied_, with_entry)
                    (subst (IsLandedAs r.id (journal_result entry)) (sym w₁) (
                      mark_committed-IsLandedAs r.id (journal_result entry) p.now r.commit_state w
                        found iw k done)),
              )
        ]
      ]

  digest_lands :
      (digest : Option String) (r' : BridgeOperationRecord)
      → (with_digest p journal_result r locator_hash digest w).0 ≡ ok (some r')
      → (mutation_digest : String) × (entry : StOperationJournalRecord) × (digest
          ≡ some mutation_digest)
        × IsConfirmed p r locator_hash mutation_digest entry
        × IsLandedAs r.id
            (journal_result entry)
            (with_digest p journal_result r locator_hash digest w).1
  unfolding with_digest
  digest_lands none r' h = cc h
  digest_lands (some d) r' h =
      let (found, looked, h₁, w₁) =
        >>=-ok (lift (p.journal_lookup r.id)) (with_entry p journal_result r locator_hash d) w
          (some r') h in
      let (entry, e, same, applied_, landed) = entry_lands d found r' h₁ in
      (
        d,
        entry,
        refl,
        (cc (looked, e), same, applied_),
        subst (IsLandedAs r.id (journal_result entry)) (sym w₁) landed,
      )

-- If `reconcile_commit` reports an operation as committed, then either its record already was
-- committed or delivered, applied, and nothing was written; or it was committing, its record has a
-- mutation digest, and the connector's journal holds an applied entry with this operation id, this
-- locator hash and this digest, and afterwards the operation is committed or delivered, applied,
-- with the journal's result on record.
pub reconcile_commit-IsConfirmed :
    {V : Type 0} (p : Platform V) (journal_result : StOperationJournalRecord → String)
    (r r' : BridgeOperationRecord) (locator_hash : String) (w : World)
    → IsIssuedWorld w
    → IsKeyed w.db.operations
    → (reconcile_commit p journal_result r locator_hash w).0 ≡ ok (some r')
    → ((status_in r.status (committed ∷ delivered ∷ []) ≡ true)
        × (commit_eq r.commit_state OperationCommitState.applied ≡ true)
        × (r' ≡ r)
        × ((reconcile_commit p journal_result r locator_hash w).1 ≡ w))
      ⊎ ((status_eq r.status committing ≡ true)
          × ((mutation_digest : String) × (entry : StOperationJournalRecord) × (r.mutation_digest
                ≡ some mutation_digest)
              × IsConfirmed p r locator_hash mutation_digest entry
              × IsLandedAs r.id
                  (journal_result entry)
                  (reconcile_commit p journal_result r locator_hash w).1))
unfolding reconcile_commit
reconcile_commit-IsConfirmed p journal_result r r' locator_hash w iw k h =
    elim (Bool-cases (
      status_in r.status (committed ∷ delivered ∷ [])
      && commit_eq r.commit_state OperationCommitState.applied)) [
        | inl done ↦ inl (
          ground (arith, done),
          ground (arith, done),
          cc (rw (done, reconcile_commit) at h),
          rw (done, reconcile_commit) refl,
        )
        | inr unsettled ↦ elim (Bool-cases (not (status_eq r.status committing))) [
          | inl other ↦ absurd (cc (rw (unsettled, other, reconcile_commit) at h))
          | inr committing_ ↦ inr (
            ground (arith, committing_),
            rw (unsettled, committing_, reconcile_commit)
                (digest_lands p journal_result r locator_hash w iw k r.mutation_digest r'
                  (rw (unsettled, committing_, reconcile_commit) at h)),
          )
        ]
      ]
