-- ===== src/Store/Statements.antt =====
-- src/modules/bridge/operation_store.rs: the tables, and every statement that writes them. The
-- tables are those of migrations/0004_st_sidecar.sql and 202609060001_final_operation_recovery.sql.
use text.Mathlib.Text.{when, is_lt, is_le}
use Prim.Native.String
use mathlib.Core.Option.{get_or}
use im_bridge_rs.Common.{
  ℕ, suc, ◌+◌, ◌-◌, ◌^◌, ℤ, String, Bool, false, Option, none, some, List, [], ◌∷◌, ◌++◌, ◌&&◌,
  ◌||◌, str_eq, ◌==ℤ◌, ◌==◌, ltb, if◌then◌else◌,
}
use im_bridge_rs.Operation.{generating, interrupted}
use im_bridge_rs.Store.Row.{OperationRow}
use im_bridge_rs.Store.Updates.{status_eq, KeyRefRow, Update, update_row}

-- Texts are compared byte by byte, as by SQLite's BINARY collation.
abbrev pub text_lt : String → String → Bool
text_lt s t = is_lt (String.compare s t)

abbrev pub text_le : String → String → Bool
text_le s t = is_le (String.compare s t)

-- A row of `operation_execution_leases`.
pub record LeaseRow : Type 0 where
  pub operation_id : String
  pub instance_id : String
  pub lease_generation : ℕ  -- i64, and CHECK (lease_generation > 0)
  pub lease_until : String

pub record Db : Type 0 where
  pub operations : List OperationRow
  pub key_refs : List KeyRefRow
  pub leases : List LeaseRow

pub record LeaseRequest : Type 0 where
  pub operation_id : String
  pub bot_id : String
  pub instance_id : String
  pub lease_until : String
  pub now : String

pub data Statement : Type 0 where
  insert_operation : OperationRow → Statement
  -- id, update, now
  update_operation : String → Update → String → Statement
  -- cutoff, now
  interrupt_stale : String → String → Statement
  insert_key_ref : KeyRefRow → Statement
  acquire_lease : LeaseRequest → Statement
  -- operation_id, instance_id, lease_generation
  release_lease : String → String → ℕ → Statement

-- `UNIQUE (bot_id, telegram_update_id, operation_kind)`
abbrev pub same_claim : String → ℤ → String → OperationRow → Bool
same_claim bot update kind r =
    str_eq r.bot_id bot && r.telegram_update_id ==ℤ update && str_eq r.operation_kind kind

-- Some row has the primary key or the claim of the new row: a unique violation.
unfoldable pub is_taken : OperationRow → List OperationRow → Bool
is_taken new [] = false
is_taken new (r ∷ rs) =
    (str_eq r.id new.id || same_claim new.bot_id new.telegram_update_id new.operation_kind r)
    || is_taken new rs

-- One row under `UPDATE … WHERE id = ? AND …`.
unfoldable pub update_if_id :
    List KeyRefRow → String → Update → String → OperationRow → Option OperationRow
unfolding update_row
update_if_id keys id u now r = if str_eq r.id id then update_row keys u now r else none

-- One row under `interrupt_stale_generating`.
unfoldable pub interrupt_row : String → String → OperationRow → Option OperationRow
interrupt_row cutoff now r =
    when (status_eq r.status generating && text_lt r.updated_at cutoff)
      (record r { status = interrupted; updated_at = now })

-- An UPDATE over the table, and the number of rows that it affects.
unfoldable pub update_rows :
    (OperationRow → Option OperationRow) → List OperationRow → List OperationRow
update_rows f [] = []
update_rows f (r ∷ rs) = get_or (f r) r ∷ update_rows f rs

abbrev pub count_some {ℓ} : {A : Type ℓ} → Option A → ℕ → ℕ
count_some none n = n
count_some (some a) n = suc n

unfoldable pub rows_affected : (OperationRow → Option OperationRow) → List OperationRow → ℕ
rows_affected f [] = 0
rows_affected f (r ∷ rs) = count_some (f r) (rows_affected f rs)

unfoldable pub find_key_ref : String → List KeyRefRow → Option KeyRefRow
find_key_ref id [] = none
find_key_ref id (k ∷ ks) = if str_eq k.operation_id id then some k else find_key_ref id ks

-- `INSERT … ON CONFLICT(operation_id) DO NOTHING`
unfoldable pub add_key_ref : KeyRefRow → List KeyRefRow → List KeyRefRow
unfolding find_key_ref
add_key_ref k ks = elim (find_key_ref k.operation_id ks) [ none ↦ ks ++ k ∷ [] | some old ↦ ks ]

unfoldable pub find_lease : String → List LeaseRow → Option LeaseRow
find_lease id [] = none
find_lease id (l ∷ ls) = if str_eq l.operation_id id then some l else find_lease id ls

unfoldable pub has_operation : String → String → List OperationRow → Bool
has_operation id bot [] = false
has_operation id bot (r ∷ rs) = (str_eq r.id id && str_eq r.bot_id bot) || has_operation id bot rs

-- The row that `try_acquire_execution_lease` writes, if it writes one.
unfoldable pub grant_lease : LeaseRequest → Option LeaseRow → Option LeaseRow
grant_lease q none = some (record {
  operation_id = q.operation_id;
  instance_id = q.instance_id;
  lease_generation = 1;
  lease_until = q.lease_until;
})
grant_lease q (some l) =
    when
      ((str_eq l.instance_id q.instance_id || text_le l.lease_until q.now)
        && ltb l.lease_generation (2 ^ 63 - 1))
      (record {
        operation_id = l.operation_id;
        instance_id = q.instance_id;
        lease_generation = l.lease_generation + 1;
        lease_until = q.lease_until;
      })

unfoldable pub acquired_lease : LeaseRequest → Db → Option LeaseRow
unfolding grant_lease find_lease has_operation
acquired_lease q db =
    if has_operation q.operation_id q.bot_id db.operations
    then grant_lease q (find_lease q.operation_id db.leases)
    else none

unfoldable pub put_lease : LeaseRow → List LeaseRow → List LeaseRow
put_lease new [] = new ∷ []
put_lease new (l ∷ ls) =
    if str_eq l.operation_id new.operation_id then new ∷ ls else l ∷ put_lease new ls

abbrev pub is_lease : String → String → ℕ → LeaseRow → Bool
is_lease id holder generation l =
    str_eq l.operation_id id && str_eq l.instance_id holder && l.lease_generation == generation

unfoldable pub drop_lease : String → String → ℕ → List LeaseRow → List LeaseRow
drop_lease id holder generation [] = []
drop_lease id holder generation (l ∷ ls) =
    let rest = drop_lease id holder generation ls in
    if is_lease id holder generation l then rest else l ∷ rest

unfoldable pub leases_dropped : String → String → ℕ → List LeaseRow → ℕ
leases_dropped id holder generation [] = 0
leases_dropped id holder generation (l ∷ ls) =
    let rest = leases_dropped id holder generation ls in
    if is_lease id holder generation l then suc rest else rest

unfoldable pub run : Statement → Db → Db
unfolding is_taken update_if_id interrupt_row update_rows add_key_ref acquired_lease put_lease
    drop_lease
run (insert_operation row) db =
    if is_taken row db.operations then db else record db { operations = db.operations ++ row ∷ [] }
run (update_operation id u now) db = record db {
  operations = update_rows (update_if_id db.key_refs id u now) db.operations;
}
run (interrupt_stale cutoff now) db = record db {
  operations = update_rows (interrupt_row cutoff now) db.operations;
}
run (insert_key_ref k) db = record db { key_refs = add_key_ref k db.key_refs }
run (acquire_lease q) db = elim (acquired_lease q db) [
  | none ↦ db
  | some l ↦ record db { leases = put_lease l db.leases }
]
run (release_lease id holder generation) db = record db {
  leases = drop_lease id holder generation db.leases;
}

-- The statements of other tasks and processes, one after the other.
unfoldable pub run_all : List Statement → Db → Db
unfolding run
run_all [] db = db
run_all (s ∷ ss) db = run_all ss (run s db)
