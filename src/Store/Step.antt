-- ===== src/Store/Step.antt =====
-- What one UPDATE of src/modules/bridge/operation_store.rs does to one row, against the transitions
-- of src/modules/bridge/operations.rs.
use im_bridge_rs.Common.{String, Bool, true, false, some, List, ◌≡◌, ◌⊎◌, arith}
use im_bridge_rs.Operation.{
  BridgeOperationStatus, received, snapshot_ready, generating, generated, committing, committed,
  delivered, conflict, failed, interrupted, OperationCommitState, can_transition_to,
}
use im_bridge_rs.Store.{
  OperationRow, KeyRefRow, Update, set_generating, set_failed, update_row, interrupt_row,
}

-- The commit states that go with each status.
abbrev pub fits : BridgeOperationStatus → OperationCommitState → Bool
fits committing OperationCommitState.not_started = true
fits committing OperationCommitState.unknown = true
fits committed OperationCommitState.applied = true
fits delivered OperationCommitState.applied = true
fits conflict OperationCommitState.not_applied = true
fits failed OperationCommitState.not_started = true
fits failed OperationCommitState.not_applied = true
fits received OperationCommitState.not_started = true
fits snapshot_ready OperationCommitState.not_started = true
fits generating OperationCommitState.not_started = true
fits generated OperationCommitState.not_started = true
fits interrupted OperationCommitState.not_started = true
fits _ _ = false

abbrev pub IsConsistent : OperationRow → Type 0
IsConsistent r = fits r.status r.commit_state ≡ true

-- The callers of `mark_failed_with_state` record a failure only as not started or not applied.
abbrev pub is_issued : Update → Bool
is_issued (set_failed stage code summary retryable commit_state) = fits failed commit_state
is_issued _ = true

-- The columns that say whose operation a row is.
pub record SameIdentity (r s : OperationRow) : Type 0 where
  pub same_id : s.id ≡ r.id
  pub same_actor : s.actor_id ≡ r.actor_id
  pub same_bot : s.bot_id ≡ r.bot_id
  pub same_update : s.telegram_update_id ≡ r.telegram_update_id
  pub same_context : s.channel_context_key ≡ r.channel_context_key
  pub same_kind : s.operation_kind ≡ r.operation_kind
  pub same_handle : s.st_handle ≡ r.st_handle
  pub same_avatar : s.st_character_avatar ≡ r.st_character_avatar
  pub same_chat : s.st_chat_file ≡ r.st_chat_file
  pub same_creation : s.created_at ≡ r.created_at

-- A transition of `can_transition_to`, or the note that a commit's outcome is not known.
abbrev pub Moves : OperationRow → OperationRow → Type 0
Moves r s =
    (can_transition_to r.status s.status ≡ true)
    ⊎ ((r.status ≡ committing)
        × (s.status ≡ committing)
        × (r.commit_state ≡ OperationCommitState.not_started)
        × (s.commit_state ≡ OperationCommitState.unknown))

pub record RowStep (r s : OperationRow) : Type 0 where
  pub identity : SameIdentity r s
  pub moves : Moves r s
  pub consistent : IsConsistent r → IsConsistent s
  pub settled :
      r.status ≡ committed
      → (s.commit_state ≡ r.commit_state) × (s.connector_result_json ≡ r.connector_result_json)

pub update_row-RowStep :
    (keys : List KeyRefRow) (u : Update) (now : String) (r : OperationRow) {s : OperationRow}
    → is_issued u ≡ true
    → update_row keys u now r ≡ some s
    → RowStep r s
unfolding update_row can_transition_to
update_row-RowStep keys set_generating now r i e = ground arith
update_row-RowStep keys u now r i e = ground arith

-- `interrupt_stale_generating` does not look at the commit state; the transition is still one.
pub interrupt_row-RowStep :
    (cutoff now : String) (r : OperationRow) {s : OperationRow}
    → interrupt_row cutoff now r ≡ some s
    → RowStep r s
unfolding interrupt_row can_transition_to
interrupt_row-RowStep cutoff now r e = ground arith
