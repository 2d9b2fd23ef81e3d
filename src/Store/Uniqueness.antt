-- ===== src/Store/Uniqueness.antt =====
-- The primary key of `bridge_operations` under any interleaving of statements.
use mathlib.Core.Option.{get_or}
use im_bridge_rs.Common.{
  String, false, Option, none, some, List, [], ◌∷◌, ◌++◌, ◌≡◌, refl, inl, inr, arith, All,
  Bool-cases, Option-cases, str_eq, eq_iff, subst, sym,
}
use im_bridge_rs.Store.{
  OperationRow, Db, Statement, insert_operation, update_operation, interrupt_stale, insert_key_ref,
  acquire_lease, release_lease, run, run_all, update_rows, is_taken, acquired_lease, find_operation,
  World,
}
use im_bridge_rs.Store.Step.{RowStep, interrupt_row-RowStep}
use im_bridge_rs.Store.Evolution.{IsIssued, update_if_id-RowStep}
use im_bridge_rs.Store.Following.{Follows}

-- No two rows have one id.
abbrev pub IsKeyed : List OperationRow → Type 0
IsKeyed [] = Unit
IsKeyed (r ∷ rs) = (find_operation r.id rs ≡ none) × IsKeyed rs

module _ (f : OperationRow → Option OperationRow)
    (steps : (s t : OperationRow) → f s ≡ some t → RowStep s t) where
  updated_id : (r : OperationRow) → (get_or (f r) r).id ≡ r.id
  updated_id r = elim (Option-cases (f r)) [
    | inl e ↦ rw e
    | inr (t, e) ↦ rw e (steps r t e).identity.same_id
  ]

  absent-update_rows :
      (id : String) (rs : List OperationRow)
      → find_operation id rs ≡ none
      → find_operation id (update_rows f rs) ≡ none
  unfolding find_operation update_rows
  absent-update_rows id [] h = refl
  absent-update_rows id (r ∷ rs) h = ground (arith, h, updated_id r, absent-update_rows id rs)

  pub IsKeyed-update_rows : (rs : List OperationRow) → IsKeyed rs → IsKeyed (update_rows f rs)
  unfolding update_rows
  IsKeyed-update_rows [] k = tt
  IsKeyed-update_rows (r ∷ rs) k =
      (rw (updated_id r) (absent-update_rows r.id rs k.0), IsKeyed-update_rows rs k.1)

absent-append :
    (id : String) (rs : List OperationRow) (new : OperationRow)
    → find_operation id rs ≡ none
    → str_eq new.id id ≡ false
    → find_operation id (rs ++ new ∷ []) ≡ none
unfolding find_operation
absent-append id [] new h e = ground (arith, e)
absent-append id (r ∷ rs) new h e = ground (arith, h, e, absent-append id rs new)

IsKeyed-append :
    (rs : List OperationRow) (new : OperationRow)
    → is_taken new rs ≡ false
    → IsKeyed rs
    → IsKeyed (rs ++ new ∷ [])
unfolding is_taken find_operation
IsKeyed-append [] new h k = (refl, tt)
IsKeyed-append (r ∷ rs) new h k = (
  absent-append r.id rs new k.0 (ground (arith, h, eq_iff r.id new.id, eq_iff new.id r.id)),
  IsKeyed-append rs new (ground (arith, h)) k.1,
)

pub IsKeyed-run :
    (s : Statement) (db : Db) → IsIssued s → IsKeyed db.operations → IsKeyed (run s db).operations
unfolding run
IsKeyed-run (insert_operation new) db i k = elim (Bool-cases (is_taken new db.operations)) [
  | inl e ↦ rw (e, run) k
  | inr e ↦ rw (e, run) (IsKeyed-append db.operations new e k)
]
IsKeyed-run (update_operation id u now) db i k =
    IsKeyed-update_rows _ (update_if_id-RowStep db.key_refs id u now i) db.operations k
IsKeyed-run (interrupt_stale cutoff now) db i k =
    IsKeyed-update_rows _ (λ s t e. interrupt_row-RowStep cutoff now s e) db.operations k
IsKeyed-run (insert_key_ref key) db i k = k
IsKeyed-run (acquire_lease q) db i k = elim (Option-cases (acquired_lease q db)) [
  | inl e ↦ rw (e, run) k
  | inr (l, e) ↦ rw (e, run) k
]
IsKeyed-run (release_lease id holder generation) db i k = k

-- If no two operations in the table have the same id, this stays so under any statements: an INSERT
-- of an id that is there does nothing, and no UPDATE writes the id.
pub IsKeyed-run_all :
    (ss : List Statement) (db : Db)
    → All IsIssued ss
    → IsKeyed db.operations
    → IsKeyed (run_all ss db).operations
unfolding run_all
IsKeyed-run_all [] db i k = k
IsKeyed-run_all (s ∷ ss) db i k = IsKeyed-run_all ss (run s db) i.1 (IsKeyed-run s db i.0 k)

pub IsKeyed-Follows :
    (v w : World) → Follows v w → IsKeyed v.db.operations → IsKeyed w.db.operations
IsKeyed-Follows v w f k =
    subst (λ (d : Db). IsKeyed d.operations) (sym f.reached)
      (IsKeyed-run_all f.steps v.db f.issued k)
