-- ===== src/Store/LeaseGenerations.antt =====
-- The generations of the execution leases of src/modules/bridge/operation_store.rs: what a former
-- holder of a lease can still do.
use im_bridge_rs.Common.{
  ℕ, ◌<◌, ◌≤◌, ◌^◌, String, false, some, List, [], ◌∷◌, ◌≡◌, ◌≢◌, sym, ◌∙◌, subst, ap, ◌⊎◌, inl,
  inr, arith, All, Bool-cases, Option-cases, str_eq, eq_iff,
}
use im_bridge_rs.Store.{
  Db, Statement, insert_operation, acquire_lease, release_lease, LeaseRow, LeaseRequest, run,
  run_all, find_lease, is_lease, acquired_lease,
}
use im_bridge_rs.Store.LeaseExclusion.{
  find_lease-operation_id, find_lease-put_other, find_lease-drop_lease, granted_operation,
  granted_is_put, next_generation,
}

-- The statement does not release the lease: it is no release, or the release of another operation's
-- lease, or of an earlier generation.
abbrev pub NoRelease : LeaseRow → Statement → Type 0
NoRelease l (release_lease id holder generation) =
    (id ≢ l.operation_id) ⊎ (generation < l.lease_generation)
NoRelease l _ = Unit

-- The operation's lease is there, in the generation or a later one.
HasLease : String → ℕ → Db → Type 0
HasLease id generation db =
    (x : LeaseRow) × (find_lease id db.leases ≡ some x) × (generation ≤ x.lease_generation)

not_released :
    (id holder : String) (generation : ℕ) (l x : LeaseRow)
    → (id ≢ x.operation_id) ⊎ (generation < l.lease_generation)
    → l.lease_generation ≤ x.lease_generation
    → is_lease id holder generation x ≡ false
not_released id holder generation l x (inl other) m =
    ground (arith, other, eq_iff x.operation_id id)
not_released id holder generation l x (inr early) m = ground (arith, early, m)

acquire-HasLease :
    (q : LeaseRequest) (id : String) (generation : ℕ) (db : Db)
    → HasLease id generation db
    → HasLease id generation (run (acquire_lease q) db)
unfolding HasLease run
acquire-HasLease q id generation db (x, e, m) = elim (Option-cases (acquired_lease q db)) [
  | inl none_ ↦ rw (none_, run) (x, e, m)
  | inr (new, granted) ↦
      let (same, _, _) = granted_operation q db new granted in
      elim (Bool-cases (str_eq new.operation_id id)) [
        | inl hit ↦
            let at_id : new.operation_id ≡ id = (eq_iff new.operation_id id).0 hit in
            let before : find_lease q.operation_id db.leases ≡ some x =
              ap (λ i. find_lease i db.leases) (sym same ∙ at_id) ∙ e in
            let put : find_lease id (run (acquire_lease q) db).leases ≡ some new =
              subst (λ i. find_lease i (run (acquire_lease q) db).leases ≡ some new) at_id
                (granted_is_put q db new granted) in
            (new, put, omega (arith, m, (next_generation q db x new before granted).0))
        | inr miss ↦ (
          x,
          rw (granted, run)
              (find_lease-put_other id new db.leases
                  (λ z. cc (miss, (eq_iff new.operation_id id).1 z))
                ∙ e),
          m,
        )
      ]
]

release-HasLease :
    (id holder : String) (generation : ℕ) (l : LeaseRow) (db : Db)
    → NoRelease l (release_lease id holder generation)
    → HasLease l.operation_id l.lease_generation db
    → HasLease l.operation_id l.lease_generation (run (release_lease id holder generation) db)
unfolding HasLease run
release-HasLease id holder generation l db sp (x, e, m) =
    let at_id : x.operation_id ≡ l.operation_id =
      find_lease-operation_id l.operation_id db.leases x e in
    let kept : is_lease id holder generation x ≡ false =
      not_released id holder generation l x
        (subst (λ i. (id ≢ i) ⊎ (generation < l.lease_generation)) (sym at_id) sp) m in
    (
      x,
      subst (λ i. find_lease i (run (release_lease id holder generation) db).leases ≡ some x) at_id
          (find_lease-drop_lease id holder generation x db.leases kept
            (subst (λ i. find_lease i db.leases ≡ some x) (sym at_id) e)),
      m,
    )

run-HasLease :
    (s : Statement) (l : LeaseRow) (db : Db)
    → NoRelease l s
    → HasLease l.operation_id l.lease_generation db
    → HasLease l.operation_id l.lease_generation (run s db)
unfolding HasLease run
run-HasLease (acquire_lease q) l db sp h = acquire-HasLease q l.operation_id l.lease_generation db h
run-HasLease (release_lease id holder generation) l db sp h =
    release-HasLease id holder generation l db sp h
run-HasLease (insert_operation r) l db sp h = ground (arith, h)
run-HasLease _ l db sp h = h

run_all-HasLease :
    (ss : List Statement) (l : LeaseRow) (db : Db)
    → All (NoRelease l) ss
    → HasLease l.operation_id l.lease_generation db
    → HasLease l.operation_id l.lease_generation (run_all ss db)
unfolding run_all
run_all-HasLease [] l db sp h = h
run_all-HasLease (s ∷ ss) l db sp h =
    run_all-HasLease ss l (run s db) sp.1 (run-HasLease s l db sp.0 h)

-- After a lease was granted, and after any statements of which none is a release that names this
-- generation of the operation's lease or a later one, every lease that is granted for the operation
-- has a greater generation, which fits into an i64; and a late release of the first lease or of an
-- earlier one, by whichever instance, leaves the new lease in its place.
pub superseded_release :
    (q q' : LeaseRequest) (db : Db) (l l' : LeaseRow) (ss : List Statement) (holder : String)
    (generation : ℕ)
    → acquired_lease q db ≡ some l
    → All (NoRelease l) ss
    → q'.operation_id ≡ q.operation_id
    → let db' = run_all ss (run (acquire_lease q) db) in
      acquired_lease q' db' ≡ some l'
      → generation ≤ l.lease_generation
      → let db' = run_all ss (run (acquire_lease q) db) in
        (l.lease_generation < l'.lease_generation)
        × (l'.lease_generation < 2 ^ 63)
        × (find_lease q.operation_id
              (run
                (release_lease q.operation_id holder generation)
                (run (acquire_lease q') db')).leases
            ≡ some l')
unfolding HasLease run
superseded_release q q' db l l' ss holder generation granted sp same granted' early =
    let db' = run_all ss (run (acquire_lease q) db) in
    let (op, _, _) = granted_operation q db l granted in
    let (op', _, _) = granted_operation q' db' l' granted' in
    let (x, e, m) =
      run_all-HasLease ss l (run (acquire_lease q) db) sp
        (l, granted_is_put q db l granted, omega arith) in
    let (next, fits) =
      next_generation q' db' x l' (ap (λ i. find_lease i db'.leases) (same ∙ sym op) ∙ e)
        granted' in
    let kept =
      find_lease-drop_lease q.operation_id holder generation l' (run (acquire_lease q') db').leases
        (not_released q.operation_id holder generation l' l' (inr (omega (arith, next, m, early)))
          (omega arith))
        (granted_is_put q' db' l' granted') in
    (
      omega (arith, next, m),
      fits,
      subst
          (λ i.
            find_lease i
              (run (release_lease q.operation_id holder generation)
                (run (acquire_lease q') db')).leases
            ≡ some l')
          (op' ∙ same) kept,
    )
