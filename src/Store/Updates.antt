-- ===== src/Store/Updates.antt =====
-- src/modules/bridge/operation_store.rs: the UPDATE statements on one row, each a condition of its
-- WHERE clause (without `id = ?`) and the columns that SET writes. `none`: the row is not affected.
use text.Mathlib.Text.{when}
use im_bridge_rs.Common.{
  ℤ, pos, String, Bool, true, false, Option, some, List, [], ◌∷◌, ◌&&◌, ◌||◌, str_eq, ◌==ℤ◌,
  if◌then◌else◌,
}
use im_bridge_rs.Operation.{
  BridgeOperationStatus, received, snapshot_ready, generating, generated, committing, committed,
  delivered, conflict, failed, interrupted, OperationCommitState, EncryptedOperationPayload,
}
use im_bridge_rs.Store.Row.{OperationRow}

abbrev pub status_eq : BridgeOperationStatus → BridgeOperationStatus → Bool
status_eq received received = true
status_eq snapshot_ready snapshot_ready = true
status_eq generating generating = true
status_eq generated generated = true
status_eq committing committing = true
status_eq committed committed = true
status_eq delivered delivered = true
status_eq conflict conflict = true
status_eq failed failed = true
status_eq interrupted interrupted = true
status_eq _ _ = false

abbrev pub commit_eq : OperationCommitState → OperationCommitState → Bool
commit_eq OperationCommitState.not_started OperationCommitState.not_started = true
commit_eq OperationCommitState.not_applied OperationCommitState.not_applied = true
commit_eq OperationCommitState.applied OperationCommitState.applied = true
commit_eq OperationCommitState.unknown OperationCommitState.unknown = true
commit_eq _ _ = false

-- `status IN (...)`
abbrev pub status_in : BridgeOperationStatus → List BridgeOperationStatus → Bool
status_in s [] = false
status_in s (t ∷ ts) = status_eq s t || status_in s ts

-- A row of `operation_key_refs`.
pub record KeyRefRow : Type 0 where
  pub operation_id : String
  pub wrapped_secret_id : String
  pub key_version : ℤ  -- i64

-- `EXISTS (SELECT 1 FROM operation_key_refs WHERE operation_id = ? AND key_version = ?)`
unfoldable pub has_key_ref : List KeyRefRow → String → ℤ → Bool
has_key_ref [] id version = false
has_key_ref (k ∷ ks) id version =
    (str_eq k.operation_id id && k.key_version ==ℤ version) || has_key_ref ks id version

pub data Update : Type 0 where
  -- source_sha256, source_integrity, source_size, message_count
  set_snapshot_ready : Option String → Option String → Option ℤ → Option ℤ → Update
  set_generating : Update
  -- the payload and the mutation digest
  set_generated : EncryptedOperationPayload → String → Update
  set_committing : Update
  -- the connector's result and the expected commit state
  set_committed : String → OperationCommitState → Update
  set_delivered : Update
  set_conflict : String → Update
  -- error_stage, error_code, error_summary, retryable, commit_state
  set_failed : String → String → String → Bool → OperationCommitState → Update
  set_interrupted : Update
  set_commit_unknown : Update

abbrev not_started_row : OperationRow → Bool
not_started_row r = commit_eq r.commit_state OperationCommitState.not_started

unfoldable pub update_row : List KeyRefRow → Update → String → OperationRow → Option OperationRow
unfolding has_key_ref
update_row keys (set_snapshot_ready sha256 integrity size count) now r =
    when (status_eq r.status received && not_started_row r) (record r {
      status = snapshot_ready;
      source_sha256 = sha256;
      source_integrity = integrity;
      source_size = size;
      message_count = count;
      updated_at = now;
    })
update_row keys set_generating now r =
    when (status_eq r.status snapshot_ready && not_started_row r)
      (record r { status = generating; updated_at = now })
update_row keys (set_generated payload digest) now r =
    when
      (status_in r.status (snapshot_ready ∷ generating ∷ [])
        && not_started_row r
        && has_key_ref keys r.id (pos payload.key_version))
      (record r {
        status = generated;
        operation_payload_ciphertext = some payload.ciphertext;
        operation_payload_nonce = some payload.nonce;
        operation_payload_key_version = some (pos payload.key_version);
        mutation_digest = some digest;
        updated_at = now;
      })
update_row keys set_committing now r =
    when (status_eq r.status generated && not_started_row r)
      (record r { status = committing; updated_at = now })
update_row keys (set_committed result expected) now r =
    when (status_eq r.status committing && commit_eq r.commit_state expected) (record r {
      status = committed;
      commit_state = OperationCommitState.applied;
      connector_result_json = some result;
      updated_at = now;
    })
update_row keys set_delivered now r =
    when (status_eq r.status committed && commit_eq r.commit_state OperationCommitState.applied)
      (record r { status = delivered; updated_at = now })
update_row keys (set_conflict summary) now r =
    when (status_eq r.status committing && not_started_row r) (record r {
      status = conflict;
      error_stage = some "commit";
      error_code = some "ST_CHAT_CONFLICT";
      error_summary = some summary;
      commit_state = OperationCommitState.not_applied;
      updated_at = now;
    })
update_row keys (set_failed stage code summary retryable commit_state) now r =
    when
      (status_in r.status (received ∷ snapshot_ready ∷ generating ∷ generated ∷ committing ∷ [])
        && not_started_row r)
      (record r {
        status = failed;
        error_stage = some stage;
        error_code = some code;
        error_summary = some summary;
        retryable = pos (if retryable then 1 else 0);
        commit_state = commit_state;
        updated_at = now;
      })
update_row keys set_interrupted now r =
    when (status_eq r.status generating && not_started_row r)
      (record r { status = interrupted; updated_at = now })
update_row keys set_commit_unknown now r =
    when (status_eq r.status committing && not_started_row r)
      (record r { commit_state = OperationCommitState.unknown; updated_at = now })
