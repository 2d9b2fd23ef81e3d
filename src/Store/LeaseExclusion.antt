-- ===== src/Store/LeaseExclusion.antt =====
-- The execution leases of src/modules/bridge/operation_store.rs: who holds one, and for how long.
use im_bridge_rs.Common.{
  ℕ, String, false, none, some, List, [], ◌∷◌, ◌≡◌, ◌≢◌, ◌+◌, ◌<◌, ◌^◌, sym, ◌∙◌, subst, ap, ◌⊎◌,
  inl, inr, arith, All, Bool-cases, Option-cases, str_eq, eq_iff,
}
use im_bridge_rs.Store.{
  Db, Statement, insert_operation, acquire_lease, release_lease, LeaseRow, LeaseRequest, run,
  run_all, find_lease, put_lease, drop_lease, is_lease, acquired_lease, grant_lease, text_le,
}

-- The statement leaves the lease of another holder alone: it is not about this operation, or it asks
-- for the lease on behalf of another instance before the lease ends, or it releases another lease.
abbrev pub Spares : LeaseRow → Statement → Type 0
Spares l (acquire_lease q) =
    (q.operation_id ≢ l.operation_id)
    ⊎ ((q.instance_id ≢ l.instance_id) × (text_le l.lease_until q.now ≡ false))
Spares l (release_lease id holder generation) = is_lease id holder generation l ≡ false
Spares l _ = Unit

pub find_lease-operation_id :
    (id : String) (ls : List LeaseRow) (l : LeaseRow)
    → find_lease id ls ≡ some l
    → l.operation_id ≡ id
unfolding find_lease
find_lease-operation_id id [] l e = cc
find_lease-operation_id id (x ∷ ls) l e =
    ground (arith, e, eq_iff x.operation_id id, find_lease-operation_id id ls l)

find_lease-put_lease :
    (new : LeaseRow) (ls : List LeaseRow)
    → find_lease new.operation_id (put_lease new ls) ≡ some new
unfolding find_lease put_lease
find_lease-put_lease new [] = ground (arith, eq_iff new.operation_id new.operation_id)
find_lease-put_lease new (l ∷ ls) =
    ground (arith, eq_iff new.operation_id new.operation_id, find_lease-put_lease new ls)

pub find_lease-put_other :
    (id : String) (new : LeaseRow) (ls : List LeaseRow)
    → new.operation_id ≢ id
    → find_lease id (put_lease new ls) ≡ find_lease id ls
unfolding find_lease put_lease
find_lease-put_other id new [] n = ground (arith, n, eq_iff new.operation_id id)
find_lease-put_other id new (l ∷ ls) n = ground (
  arith,
  n,
  eq_iff new.operation_id id,
  eq_iff l.operation_id id,
  eq_iff l.operation_id new.operation_id,
  find_lease-put_other id new ls n,
)

pub find_lease-drop_lease :
    (id holder : String) (generation : ℕ) (l : LeaseRow) (ls : List LeaseRow)
    → is_lease id holder generation l ≡ false
    → find_lease l.operation_id ls ≡ some l
    → find_lease l.operation_id (drop_lease id holder generation ls) ≡ some l
unfolding find_lease drop_lease
find_lease-drop_lease id holder generation l [] n e = cc
find_lease-drop_lease id holder generation l (x ∷ ls) n e =
    elim (Bool-cases (str_eq x.operation_id l.operation_id)) [
      | inl hit ↦
          let same : x ≡ l = ground (arith, hit, e) in
          ground (arith, hit, e, subst (λ y. is_lease id holder generation y ≡ false) (sym same) n)
      | inr miss ↦ ground (arith, miss, e, find_lease-drop_lease id holder generation l ls n)
    ]

-- A lease that has not ended is not granted to another instance.
refused_lease :
    (q : LeaseRequest) (db : Db) (l : LeaseRow)
    → find_lease q.operation_id db.leases ≡ some l
    → q.instance_id ≢ l.instance_id
    → text_le l.lease_until q.now ≡ false
    → acquired_lease q db ≡ none
unfolding acquired_lease grant_lease
refused_lease q db l e n later = ground (arith, e, n, later, eq_iff l.instance_id q.instance_id)

pub granted_operation :
    (q : LeaseRequest) (db : Db) (l : LeaseRow)
    → acquired_lease q db ≡ some l
    → (l.operation_id ≡ q.operation_id)
      × (l.instance_id ≡ q.instance_id)
      × (l.lease_until ≡ q.lease_until)
unfolding acquired_lease grant_lease
granted_operation q db l e = elim (Option-cases (find_lease q.operation_id db.leases)) [
  | inl none_ ↦ ground (arith, e, none_)
  | inr (old, found) ↦
      ground (arith, e, found, find_lease-operation_id q.operation_id db.leases old found)
]

pub granted_is_put :
    (q : LeaseRequest) (db : Db) (l : LeaseRow)
    → acquired_lease q db ≡ some l
    → find_lease l.operation_id (run (acquire_lease q) db).leases ≡ some l
unfolding run
granted_is_put q db l granted = rw (granted, run) (find_lease-put_lease l db.leases)

-- An acquisition for another operation leaves the lease in its place.
spared_other :
    (q : LeaseRequest) (db : Db) (l : LeaseRow)
    → q.operation_id ≢ l.operation_id
    → find_lease l.operation_id db.leases ≡ some l
    → find_lease l.operation_id (run (acquire_lease q) db).leases ≡ some l
unfolding run
spared_other q db l other e = elim (Option-cases (acquired_lease q db)) [
  | inl none_ ↦ rw (none_, run) e
  | inr (new, granted) ↦
      let (same, _, _) = granted_operation q db new granted in
      rw (granted, run)
        (find_lease-put_other l.operation_id new db.leases (λ z. other (sym same ∙ z)) ∙ e)
]

spared_acquire :
    (q : LeaseRequest) (db : Db) (l : LeaseRow)
    → Spares l (acquire_lease q)
    → find_lease l.operation_id db.leases ≡ some l
    → find_lease l.operation_id (run (acquire_lease q) db).leases ≡ some l
unfolding run
spared_acquire q db l (inl other) e = spared_other q db l other e
spared_acquire q db l (inr (n, later)) e =
    elim (Bool-cases (str_eq q.operation_id l.operation_id)) [
      | inl hit ↦
          let same : q.operation_id ≡ l.operation_id =
            (eq_iff q.operation_id l.operation_id).0 hit in
          let none_ : acquired_lease q db ≡ none =
            refused_lease q db l (ap (λ i. find_lease i db.leases) same ∙ e) n later in
          rw (none_, run) e
      | inr miss ↦
          spared_other q db l (λ z. cc (miss, (eq_iff q.operation_id l.operation_id).1 z)) e
    ]

spared :
    (s : Statement) (db : Db) (l : LeaseRow)
    → Spares l s
    → find_lease l.operation_id db.leases ≡ some l
    → find_lease l.operation_id (run s db).leases ≡ some l
unfolding run
spared (acquire_lease q) db l sp e = spared_acquire q db l sp e
spared (release_lease id holder generation) db l sp e =
    find_lease-drop_lease id holder generation l db.leases sp e
spared (insert_operation r) db l sp e = ground (arith, e)
spared _ db l sp e = e

spared-run_all :
    (ss : List Statement) (db : Db) (l : LeaseRow)
    → All (Spares l) ss
    → find_lease l.operation_id db.leases ≡ some l
    → find_lease l.operation_id (run_all ss db).leases ≡ some l
unfolding run_all
spared-run_all [] db l sp e = e
spared-run_all (s ∷ ss) db l sp e = spared-run_all ss (run s db) l sp.1 (spared s db l sp.0 e)

-- Once an execution lease is granted, it stays in the table, and no other instance that asks for it
-- before it ends is granted it, after any statements among which the holder does not ask for it
-- again, others ask for it only before it ends, and nobody releases it.
pub lease_excludes :
    (q q' : LeaseRequest) (db : Db) (l : LeaseRow) (ss : List Statement)
    → acquired_lease q db ≡ some l
    → All (Spares l) ss
    → q'.operation_id ≡ q.operation_id
    → q'.instance_id ≢ q.instance_id
    → text_le q.lease_until q'.now ≡ false
    → let db' = run_all ss (run (acquire_lease q) db) in
      (find_lease q.operation_id db'.leases ≡ some l) × (acquired_lease q' db' ≡ none)
unfolding run
lease_excludes q q' db l ss granted sp same n later =
    let (op, holder, until) = granted_operation q db l granted in
    let db' = run_all ss (run (acquire_lease q) db) in
    let kept = spared-run_all ss (run (acquire_lease q) db) l sp (granted_is_put q db l granted) in
    (
      ap (λ i. find_lease i db'.leases) (sym op) ∙ kept,
      refused_lease q' db' l (ap (λ i. find_lease i db'.leases) (same ∙ sym op) ∙ kept)
          (λ z. n (z ∙ holder)) (ap (λ u. text_le u q'.now) until ∙ later),
    )

-- A lease that is acquired over an earlier one has the next generation, which fits into an i64.
pub next_generation :
    (q : LeaseRequest) (db : Db) (old l : LeaseRow)
    → find_lease q.operation_id db.leases ≡ some old
    → acquired_lease q db ≡ some l
    → (l.lease_generation ≡ old.lease_generation + 1) × (l.lease_generation < 2 ^ 63)
unfolding acquired_lease grant_lease
next_generation q db old l e granted = (ground (arith, e, granted), ground (arith, e, granted))
