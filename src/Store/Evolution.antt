-- ===== src/Store/Evolution.antt =====
-- The table of src/modules/bridge/operation_store.rs under any interleaving of statements.
use mathlib.Core.Option.{get_or}
use im_bridge_rs.Common.{
  String, true, Option, some, List, [], ◌∷◌, ◌++◌, ◌≡◌, inl, inr, arith, All, Option-cases,
  Bool-cases,
}
use im_bridge_rs.Operation.{received, OperationCommitState}
use im_bridge_rs.Store.{
  OperationRow, KeyRefRow, Update, update_if_id, update_rows, Db, Statement, insert_operation,
  update_operation, interrupt_stale, insert_key_ref, acquire_lease, release_lease, run, run_all,
  is_taken, acquired_lease,
}
use im_bridge_rs.Store.Step.{
  RowStep, SameIdentity, is_issued, update_row-RowStep, interrupt_row-RowStep,
}

-- What the updates of a row lead to.
pub data RowPath (r : OperationRow) : OperationRow → Type 0 where
  here : RowPath r r
  next : {s t : OperationRow} → RowPath r s → RowStep s t → RowPath r t

pub RowPath-trans : {r s t : OperationRow} → RowPath r s → RowPath s t → RowPath r t
RowPath-trans p here = p
RowPath-trans p (next q st) = next (RowPath-trans p q) st

pub RowPath-identity : {r s : OperationRow} → RowPath r s → SameIdentity r s
RowPath-identity here = ground arith
RowPath-identity (next p st) = ground (arith, RowPath-identity p, st.identity)

-- A row as `claim_operation` inserts it.
abbrev pub IsFresh : OperationRow → Type 0
IsFresh r = (r.status ≡ received) × (r.commit_state ≡ OperationCommitState.not_started)

-- A row that was inserted fresh and then updated.
pub data IsBorn (t : OperationRow) : Type 0 where
  born : (r : OperationRow) → IsFresh r → RowPath r t → IsBorn t

-- Each old row is still at its place, updated along a path, and the rows behind are born.
abbrev pub Evolves : List OperationRow → List OperationRow → Type 0
Evolves [] ts = All IsBorn ts
Evolves (r ∷ rs) [] = ⊥
Evolves (r ∷ rs) (t ∷ ts) = RowPath r t × Evolves rs ts

Evolves-refl : (rs : List OperationRow) → Evolves rs rs
Evolves-refl [] = tt
Evolves-refl (r ∷ rs) = (here, Evolves-refl rs)

IsBorn-then : {s t : OperationRow} → IsBorn s → RowPath s t → IsBorn t
IsBorn-then (born r f p) q = born r f (RowPath-trans p q)

IsBorn-Evolves : (ss ts : List OperationRow) → All IsBorn ss → Evolves ss ts → All IsBorn ts
IsBorn-Evolves [] ts b e = e
IsBorn-Evolves (s ∷ ss) [] b e = absurd e
IsBorn-Evolves (s ∷ ss) (t ∷ ts) b e = (IsBorn-then b.0 e.0, IsBorn-Evolves ss ts b.1 e.1)

pub Evolves-trans : (rs ss ts : List OperationRow) → Evolves rs ss → Evolves ss ts → Evolves rs ts
Evolves-trans [] ss ts p q = IsBorn-Evolves ss ts p q
Evolves-trans (r ∷ rs) [] ts p q = absurd p
Evolves-trans (r ∷ rs) (s ∷ ss) [] p q = absurd q
Evolves-trans (r ∷ rs) (s ∷ ss) (t ∷ ts) p q =
    (RowPath-trans p.0 q.0, Evolves-trans rs ss ts p.1 q.1)

Evolves-append : (rs : List OperationRow) (t : OperationRow) → IsFresh t → Evolves rs (rs ++ t ∷ [])
Evolves-append [] t f = (born t f here, tt)
Evolves-append (r ∷ rs) t f = (here, Evolves-append rs t f)

update_path :
    (f : OperationRow → Option OperationRow) (r : OperationRow)
    → ((s t : OperationRow) → f s ≡ some t → RowStep s t)
    → RowPath r (get_or (f r) r)
update_path f r h = elim (Option-cases (f r)) [
  | inl e ↦ rw e here
  | inr (t, e) ↦ rw e (next here (h r t e))
]

update_rows-Evolves :
    (f : OperationRow → Option OperationRow)
    → ((s t : OperationRow) → f s ≡ some t → RowStep s t)
    → (rs : List OperationRow) → Evolves rs (update_rows f rs)
unfolding update_rows
update_rows-Evolves f h [] = tt
update_rows-Evolves f h (r ∷ rs) = (update_path f r h, update_rows-Evolves f h rs)

-- The statements as the program issues them: an INSERT writes a fresh row, and a failure is not
-- recorded as applied or unknown.
abbrev pub IsIssued : Statement → Type 0
IsIssued (insert_operation r) = IsFresh r
IsIssued (update_operation id u now) = is_issued u ≡ true
IsIssued _ = Unit

pub update_if_id-RowStep :
    (keys : List KeyRefRow) (id : String) (u : Update) (now : String)
    → is_issued u ≡ true
    → (s t : OperationRow) → update_if_id keys id u now s ≡ some t
    → RowStep s t
unfolding update_if_id
update_if_id-RowStep keys id u now i s t e = update_row-RowStep keys u now s i (ground arith)

run-Evolves :
    (st : Statement) (db : Db) → IsIssued st → Evolves db.operations (run st db).operations
unfolding run
run-Evolves (insert_operation row) db i = elim (Bool-cases (is_taken row db.operations)) [
  | inl e ↦ rw e (Evolves-refl db.operations)
  | inr e ↦ rw e (Evolves-append db.operations row i)
]
run-Evolves (update_operation id u now) db i =
    update_rows-Evolves _ (update_if_id-RowStep db.key_refs id u now i) db.operations
run-Evolves (interrupt_stale cutoff now) db i =
    update_rows-Evolves _ (λ s t e. interrupt_row-RowStep cutoff now s e) db.operations
run-Evolves (insert_key_ref k) db i = Evolves-refl db.operations
run-Evolves (acquire_lease q) db i = elim (Option-cases (acquired_lease q db)) [
  | inl e ↦ rw (e, run) (Evolves-refl db.operations)
  | inr (l, e) ↦ rw (e, run) (Evolves-refl db.operations)
]
run-Evolves (release_lease id holder generation) db i = Evolves-refl db.operations

pub run_all-Evolves :
    (ss : List Statement) (db : Db)
    → All IsIssued ss
    → Evolves db.operations (run_all ss db).operations
unfolding run_all
run_all-Evolves [] db i = Evolves-refl db.operations
run_all-Evolves (s ∷ ss) db i =
    Evolves-trans db.operations (run s db).operations (run_all ss (run s db)).operations
      (run-Evolves s db i.0) (run_all-Evolves ss (run s db) i.1)
