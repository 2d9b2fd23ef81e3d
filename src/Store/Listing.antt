-- ===== src/Store/Listing.antt =====
-- src/modules/bridge/operation_store.rs: the queries that list operations, and the clean-up of
-- stale generations.
use text.Mathlib.Text.{is_eq}
use Prim.Native.Nat.{min, max}
use Prim.Native.String
use im_bridge_rs.Common.{
  ℕ, String, Bool, Option, none, some, List, [], ◌∷◌, ◌&&◌, ◌||◌, str_eq, is_blank, take,
  if◌then◌else◌,
}
use im_bridge_rs.Errors.{AppError, AppResult, ok, err, bad_request_error}
use im_bridge_rs.Operation.{
  BridgeOperationStatus, generated, committing, committed, delivered, OperationCommitState,
  BridgeOperationRecord,
}
use im_bridge_rs.Store.Row.{OperationRow, into_record}
use im_bridge_rs.Store.Updates.{status_eq, status_in, commit_eq}
use im_bridge_rs.Store.Statements.{text_lt, interrupt_stale, interrupt_row}
use im_bridge_rs.Store.Effects.{M, lift, execute, fetch}

-- `WHERE`
unfoldable pub filter_rows : (OperationRow → Bool) → List OperationRow → List OperationRow
filter_rows test [] = []
filter_rows test (r ∷ rs) = let rest = filter_rows test rs in if test r then r ∷ rest else rest

-- `ORDER BY`, by an insertion sort that keeps the order of equal rows.
unfoldable pub insert_row :
    (OperationRow → OperationRow → Bool) → OperationRow → List OperationRow → List OperationRow
insert_row before r [] = r ∷ []
insert_row before r (s ∷ ss) =
    let rest = insert_row before r ss in if before s r then s ∷ rest else r ∷ s ∷ ss

unfoldable pub order_by :
    (OperationRow → OperationRow → Bool) → List OperationRow → List OperationRow
unfolding insert_row
order_by before [] = []
order_by before (r ∷ rs) = insert_row before r (order_by before rs)

-- `rows.into_iter().map(OperationRow::into_record).collect()`
unfoldable pub collect : List OperationRow → AppResult (List BridgeOperationRecord)
unfolding into_record
collect [] = ok []
collect (r ∷ rs) =
    let rest = collect rs in
    elim (into_record r) [
      | err e ↦ err e
      | ok found ↦ elim rest [ err e ↦ err e | ok more ↦ ok (found ∷ more) ]
    ]

abbrev pub by_time : (OperationRow → String) → OperationRow → OperationRow → Bool
by_time time r s =
    text_lt (time r) (time s) || (is_eq (String.compare (time r) (time s)) && text_lt r.id s.id)

abbrev pub by_update : OperationRow → OperationRow → Bool
by_update = by_time (λ r. r.updated_at)

abbrev pub by_creation : OperationRow → OperationRow → Bool
by_creation = by_time (λ r. r.created_at)

-- The condition of `list_recovery_candidates_for_bot`.
abbrev pub is_candidate : String → OperationRow → Bool
is_candidate bot r =
    str_eq r.bot_id bot
    && (status_in r.status (generated ∷ committing ∷ [])
        || (status_eq r.status committed && commit_eq r.commit_state OperationCommitState.applied))

-- `limit.clamp(1, 256)`
abbrev pub clamp_limit : ℕ → ℕ
clamp_limit limit = min (max limit 1) 256

unfoldable pub candidate_rows : String → ℕ → List OperationRow → List OperationRow
unfolding filter_rows order_by
candidate_rows bot limit rows =
    take (clamp_limit limit) (order_by by_update (filter_rows (is_candidate bot) rows))

-- `list_recovery_candidates_for_bot`
unfoldable pub list_recovery_candidates_for_bot :
    String → ℕ → M AppError (List BridgeOperationRecord)
unfolding fetch candidate_rows collect
list_recovery_candidates_for_bot bot limit =
    if is_blank bot
    then lift (
        err (bad_request_error "OPERATION_BOT_ID_REQUIRED" "operation recovery bot id is required"))
    else fetch (λ db. collect (candidate_rows bot limit db.operations))

-- `list_by_status`
unfoldable pub list_by_status : BridgeOperationStatus → M AppError (List BridgeOperationRecord)
unfolding fetch filter_rows order_by collect
list_by_status status = fetch (λ db.
    collect (order_by by_creation (filter_rows (λ r. status_eq r.status status) db.operations)))

-- `list_unknown_commits`
unfoldable pub list_unknown_commits : M AppError (List BridgeOperationRecord)
unfolding fetch filter_rows order_by collect
list_unknown_commits = fetch (λ db. collect (
    order_by by_creation (
      filter_rows
        (λ r.
          status_eq r.status committing && commit_eq r.commit_state OperationCommitState.unknown)
        db.operations)))

abbrev ids_of_changed : String → Option OperationRow → List String → List String
ids_of_changed id none ids = ids
ids_of_changed id (some r) ids = id ∷ ids

-- The ids that `UPDATE … RETURNING id` gives.
unfoldable pub changed_ids : (OperationRow → Option OperationRow) → List OperationRow → List String
changed_ids f [] = []
changed_ids f (r ∷ rs) = ids_of_changed r.id (f r) (changed_ids f rs)

-- `interrupt_stale_generating`
unfoldable pub interrupt_stale_generating : String → String → M AppError (List String)
unfolding execute changed_ids
interrupt_stale_generating cutoff now =
    execute (interrupt_stale cutoff now)
      (λ db. changed_ids (interrupt_row cutoff now) db.operations)

unfoldable pub row_ids : List OperationRow → List String
row_ids [] = []
row_ids (r ∷ rs) = r.id ∷ row_ids rs

-- `dry_run_retention_cleanup`
unfoldable pub dry_run_retention_cleanup : String → M AppError (List String)
unfolding fetch filter_rows order_by row_ids
dry_run_retention_cleanup cutoff = fetch (λ db. ok (
    row_ids (
      order_by by_creation (
        filter_rows
          (λ r.
            status_eq r.status delivered
            && commit_eq r.commit_state OperationCommitState.applied
            && text_lt r.created_at cutoff)
          db.operations))))
