-- ===== src/Store/CompareAndSet.antt =====
-- `assert_cas` of src/modules/bridge/operation_store.rs: what its success says of the row.
use im_bridge_rs.Common.{
  ℕ, String, true, false, Option, none, some, List, [], ◌∷◌, ◌≡◌, ◌≢◌, refl, sym, subst, inl, inr,
  arith, ◌==◌, Bool-cases, Option-cases, str_eq, eq_iff,
}
use im_bridge_rs.Errors.{ok}
use im_bridge_rs.Operation.{BridgeOperationRecord}
use im_bridge_rs.Store.{
  OperationRow, KeyRefRow, Update, update_row, Db, run, run_all, update_rows, rows_affected,
  update_if_id, find_operation, World, begin, execute, update_operation, cas, update_by_id,
  assert_cas,
}
use im_bridge_rs.Store.Step.{is_issued, update_row-RowStep}
use im_bridge_rs.Store.Evolution.{RowPath, run_all-Evolves}
use im_bridge_rs.Store.Invariant.{find_operation-Evolves}
use im_bridge_rs.Store.Following.{IsIssuedWorld, Follows, begin-Follows, assert_cas-Follows}
use im_bridge_rs.Store.Uniqueness.{IsKeyed, IsKeyed-Follows}

module _ (keys : List KeyRefRow) (id : String) (u : Update) (now : String) where
  abbrev f : OperationRow → Option OperationRow
  f = update_if_id keys id u now

  -- No row has the id: no row is affected.
  absent_affected : (rs : List OperationRow) → find_operation id rs ≡ none → rows_affected f rs ≡ 0
  unfolding find_operation rows_affected update_if_id
  absent_affected [] h = refl
  absent_affected (r ∷ rs) h = ground (arith, h, absent_affected rs)

  -- The first row with the id is not affected: no row is.
  pub unmoved_affected :
      (rs : List OperationRow) (r : OperationRow)
      → IsKeyed rs
      → find_operation id rs ≡ some r
      → update_row keys u now r ≡ none
      → rows_affected f rs ≡ 0
  unfolding find_operation rows_affected update_if_id
  unmoved_affected [] r k h n = absurd (cc h)
  unmoved_affected (x ∷ rs) r k h n = elim (Bool-cases (str_eq x.id id)) [
    | inl hit ↦
        let absent = subst (λ i. find_operation i rs ≡ none) ((eq_iff x.id id).0 hit) k.0 in
        let same : x ≡ r = ground (arith, hit, h) in
        ground (
          arith,
          hit,
          subst (λ s. update_row keys u now s ≡ none) (sym same) n,
          absent_affected rs absent,
        )
    | inr miss ↦ ground (arith, miss, h, n, unmoved_affected rs r)
  ]

  -- What a successful UPDATE did.
  abbrev pub Moved : List OperationRow → Type 0
  Moved rs =
      (r : OperationRow) × (t : OperationRow) × (find_operation id rs ≡ some r)
      × (update_row keys u now r ≡ some t)
      × (find_operation id (update_rows f rs) ≡ some t)

  Moved-here :
      (x : OperationRow) (rs : List OperationRow)
      → is_issued u ≡ true
      → str_eq x.id id ≡ true
      → find_operation x.id rs ≡ none
      → rows_affected f (x ∷ rs) ≢ 0
      → Moved (x ∷ rs)
  unfolding find_operation rows_affected update_rows update_if_id
  Moved-here x rs i hit absent a = elim (Option-cases (update_row keys u now x)) [
    | inl none_ ↦ absurd (
        a (
          ground (
            arith,
            hit,
            none_,
            absent_affected rs
                (subst (λ j. find_operation j rs ≡ none) ((eq_iff x.id id).0 hit) absent),
          )))
    | inr (t, e) ↦ (
      x,
      t,
      ground (arith, hit),
      e,
      ground (arith, hit, e, (update_row-RowStep keys u now x i e).identity.same_id),
    )
  ]

  affected-Moved :
      (rs : List OperationRow) → is_issued u ≡ true → IsKeyed rs → rows_affected f rs ≢ 0 → Moved rs
  unfolding find_operation rows_affected update_rows update_if_id
  affected-Moved [] i k a = absurd (a refl)
  affected-Moved (x ∷ rs) i k a = elim (Bool-cases (str_eq x.id id)) [
    | inl hit ↦ Moved-here x rs i hit k.0 a
    | inr miss ↦
        let (r, t, found, e, found') = affected-Moved rs i k.1 (λ z. a (ground (arith, miss, z))) in
        (r, t, ground (arith, miss, found), e, ground (arith, miss, found'))
  ]

-- A row of one world is in every world that follows, updated along a path.
pub find_operation-Follows :
    (id : String) (v w : World) (r : OperationRow)
    → Follows v w
    → find_operation id v.db.operations ≡ some r
    → (t : OperationRow) × (find_operation id w.db.operations ≡ some t) × RowPath r t
find_operation-Follows id v w r f h =
    subst (λ (d : Db). (t : OperationRow) × (find_operation id d.operations ≡ some t) × RowPath r t)
      (sym f.reached)
      (find_operation-Evolves id v.db.operations (run_all f.steps v.db).operations r
        (run_all-Evolves f.steps v.db f.issued) h)

-- A compare-and-set passes only if exactly one row was affected.
assert_cas-ok :
    (affected : ℕ) (id from to : String) (w : World) {found : BridgeOperationRecord}
    → (assert_cas affected id from to w).0 ≡ ok found
    → affected ≡ 1
unfolding assert_cas
assert_cas-ok affected id from to w h = elim (Bool-cases (affected == 1)) [
  | inl one ↦ ground (arith, one)
  | inr other ↦ absurd (cc (rw (other, assert_cas) at h))
]

module _ (id : String) (u : Update) (now from to : String) (w : World) where
  abbrev met : Db
  met = (begin w).1.db

  abbrev updated : World
  updated = record (begin w).1 { db = run (update_operation id u now) met }

  abbrev affected_rows : ℕ
  affected_rows = rows_affected (update_if_id met.key_refs id u now) met.operations

  cas_run :
      (begin w).0 ≡ false → cas id u now from to w ≡ assert_cas affected_rows id from to updated
  unfolding cas update_by_id execute
  cas_run good = rw (good, execute)

  cas_fault :
      (begin w).0 ≡ true → {found : BridgeOperationRecord} → (cas id u now from to w).0 ≢ ok found
  unfolding cas update_by_id execute
  cas_fault bad h = cc (rw (bad, execute) at h)

  -- A successful compare-and-set moved the row of `id`, and later statements only move it on.
  pub cas-ok :
      (found : BridgeOperationRecord)
      → is_issued u ≡ true
      → IsIssuedWorld w
      → IsKeyed w.db.operations
      → (cas id u now from to w).0 ≡ ok found
      → (keys : List KeyRefRow) × (r : OperationRow) × (t : OperationRow) × (t' : OperationRow)
        × (update_row keys u now r ≡ some t)
        × (find_operation id (cas id u now from to w).1.db.operations ≡ some t')
        × RowPath t t'
  unfolding run
  cas-ok found iu iw k h = elim (Bool-cases (begin w).0) [
    | inl bad ↦ absurd (cas_fault bad h)
    | inr good ↦
        let first = begin-Follows w iw in
        let one = assert_cas-ok affected_rows id from to updated (rw (cas_run good) at h) in
        let (r, t, there, e, there') =
          affected-Moved met.key_refs id u now met.operations iu
            (IsKeyed-Follows w (begin w).1 first k) (λ z. cc (one, z)) in
        let rest = assert_cas-Follows affected_rows id from to updated first.issued_after in
        let (t', found', path) =
          find_operation-Follows id updated (assert_cas affected_rows id from to updated).1 t rest
            there' in
        (met.key_refs, r, t, t', e, rw (cas_run good) found', path)
  ]

  -- If the row of `id` can no longer be moved by the update, the compare-and-set fails.
  pub cas_blocked :
      (r : OperationRow) (found : BridgeOperationRecord)
      → IsIssuedWorld w
      → IsKeyed w.db.operations
      → find_operation id w.db.operations ≡ some r
      → ((keys : List KeyRefRow) (t : OperationRow) → RowPath r t → update_row keys u now t ≡ none)
      → (cas id u now from to w).0 ≢ ok found
  cas_blocked r found iw k there stuck h = elim (Bool-cases (begin w).0) [
    | inl bad ↦ cas_fault bad h
    | inr good ↦
        let first = begin-Follows w iw in
        let (s, there', path) = find_operation-Follows id w (begin w).1 r first there in
        cc (
          assert_cas-ok affected_rows id from to updated (rw (cas_run good) at h),
          unmoved_affected met.key_refs id u now met.operations s
              (IsKeyed-Follows w (begin w).1 first k) there' (stuck met.key_refs s path),
        )
  ]
