-- ===== src/Coordinator/KeyKeeping.antt =====
-- src/modules/bridge/operation_payload.rs: the key of an operation over time.
use im_bridge_rs.Common.{
  String, none, some, List, [], ◌∷◌, ◌++◌, ◌≡◌, refl, inl, inr, arith, eq_iff, Bool-cases,
  Option-cases,
}
use im_bridge_rs.Errors.{AppResult, ok}
use im_bridge_rs.Store.{
  KeyRefRow, Db, Statement, insert_operation, update_operation, interrupt_stale, insert_key_ref,
  acquire_lease, release_lease, run, run_all, find_key_ref, add_key_ref, World, begin, fetch,
  OperationKeyReference, read_key_ref, get_operation_key_reference, acquired_lease, is_taken,
}
use im_bridge_rs.Coordinator.{
  Platform, OperationPayloadEncryptor, from_wrapped, restore_for_operation,
}

find-append :
    (id : String) (ks : List KeyRefRow) (k new : KeyRefRow)
    → find_key_ref id ks ≡ some k
    → find_key_ref id (ks ++ new ∷ []) ≡ some k
unfolding find_key_ref
find-append id [] k new h = absurd (cc h)
find-append id (x ∷ ks) k new h = ground (arith, h, find-append id ks k new)

find-add_key_ref :
    (id : String) (ks : List KeyRefRow) (k new : KeyRefRow)
    → find_key_ref id ks ≡ some k
    → find_key_ref id (add_key_ref new ks) ≡ some k
unfolding add_key_ref
find-add_key_ref id ks k new h = elim (Option-cases (find_key_ref new.operation_id ks)) [
  | inl e ↦ rw (add_key_ref, e) (find-append id ks k new h)
  | inr (old, e) ↦ rw (add_key_ref, e) h
]

-- No statement changes a reference.
run-find_key_ref :
    (s : Statement) (id : String) (db : Db) (k : KeyRefRow)
    → find_key_ref id db.key_refs ≡ some k
    → find_key_ref id (run s db).key_refs ≡ some k
unfolding run
run-find_key_ref (insert_operation row) id db k h = elim (Bool-cases (is_taken row db.operations)) [
  | inl t ↦ rw t h
  | inr t ↦ rw t h
]
run-find_key_ref (update_operation i u now) id db k h = h
run-find_key_ref (interrupt_stale cutoff now) id db k h = h
run-find_key_ref (insert_key_ref new) id db k h = find-add_key_ref id db.key_refs k new h
run-find_key_ref (acquire_lease q) id db k h = elim (Option-cases (acquired_lease q db)) [
  | inl e ↦ rw (run, e) h
  | inr (l, e) ↦ rw (run, e) h
]
run-find_key_ref (release_lease i holder generation) id db k h = h

pub run_all-find_key_ref :
    (ss : List Statement) (id : String) (db : Db) (k : KeyRefRow)
    → find_key_ref id db.key_refs ≡ some k
    → find_key_ref id (run_all ss db).key_refs ≡ some k
unfolding run_all
run_all-find_key_ref [] id db k h = h
run_all-find_key_ref (s ∷ ss) id db k h =
    run_all-find_key_ref ss id (run s db) k (run-find_key_ref s id db k h)

-- In the database, the operation's reference is to a key that is restored as the encryptor.
pub record HasKey {V : Type 0} (p : Platform V) (id : String) (e : OperationPayloadEncryptor)
    (db : Db) : Type 0 where
  pub row : KeyRefRow
  pub reference : OperationKeyReference
  pub found : find_key_ref id db.key_refs ≡ some row
  pub readable : read_key_ref (some row) ≡ ok (some reference)
  pub restored : from_wrapped p reference.wrapped_secret_id reference.key_version ≡ ok e

pub run_all-HasKey :
    {V : Type 0} (p : Platform V) (ss : List Statement) (id : String)
    (e : OperationPayloadEncryptor) (db : Db)
    → HasKey p id e db
    → HasKey p id e (run_all ss db)
run_all-HasKey p ss id e db h = record {
  row = h.row;
  reference = h.reference;
  found = run_all-find_key_ref ss id db h.row h.found;
  readable = h.readable;
  restored = h.restored;
}

fetch_quiet :
    {A : Type 0} (query : Db → AppResult A) (w : World)
    → w.turns ≡ []
    → fetch query w ≡ (query w.db, w)
unfolding fetch begin
fetch_quiet query w q = rw q refl

-- A restore that meets no statement of others and no fault.
pub restore-HasKey :
    {V : Type 0} (p : Platform V) (id : String) (e : OperationPayloadEncryptor) (w : World)
    → w.turns ≡ []
    → HasKey p id e w.db
    → (restore_for_operation p id w).0 ≡ ok e
unfolding restore_for_operation get_operation_key_reference
restore-HasKey p id e w q h =
    let read = λ (db : Db). read_key_ref (find_key_ref id db.key_refs) in
    let reading : read w.db ≡ ok (some h.reference) = rw h.found h.readable in
    rw (fetch_quiet read w q, reading) h.restored

find-append_new :
    (ks : List KeyRefRow) (new : KeyRefRow)
    → find_key_ref new.operation_id ks ≡ none
    → find_key_ref new.operation_id (ks ++ new ∷ []) ≡ some new
unfolding find_key_ref
find-append_new [] new h = ground (arith, eq_iff new.operation_id new.operation_id)
find-append_new (x ∷ ks) new h = ground (arith, h, find-append_new ks new)

pub find-add_new :
    (ks : List KeyRefRow) (new : KeyRefRow)
    → find_key_ref new.operation_id ks ≡ none
    → find_key_ref new.operation_id (add_key_ref new ks) ≡ some new
unfolding add_key_ref
find-add_new ks new h = rw (add_key_ref, h) (find-append_new ks new h)
