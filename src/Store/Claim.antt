-- ===== src/Store/Claim.antt =====
-- src/modules/bridge/operation_store.rs: `claim_operation`. `new_id` is the id that `new_id()` draws.
-- The in-process claim set only makes claims of one key wait for one another; the table decides.
use im_bridge_rs.Common.{
  ℤ, pos, String, Bool, false, not, Option, none, some, List, [], ◌∷◌, ◌&&◌, ◌||◌, str_eq, ◌==ℤ◌,
  is_blank, if◌then◌else◌,
}
use im_bridge_rs.Errors.{AppError, err, ok_or, conflict_error, internal_error}
use im_bridge_rs.St.{StChatLocator}
use im_bridge_rs.Operation.{
  received, committed, delivered, OperationCommitState, BridgeOperationRecord,
}
use im_bridge_rs.Store.Row.{OperationRow}
use im_bridge_rs.Store.Updates.{status_in, commit_eq}
use im_bridge_rs.Store.Statements.{insert_operation, same_claim, is_taken}
use im_bridge_rs.Store.Effects.{M, ◌>>=◌, lift, mapping_err, execute, fetch}
use im_bridge_rs.Store.Methods.{decode, get_operation}

pub record ClaimOperationRequest : Type 0 where
  pub id : String
  pub actor_id : String
  pub bot_id : String
  pub telegram_update_id : ℤ  -- i64
  pub channel_context_key : String
  pub operation_kind : String
  pub locator : StChatLocator
  pub request_id : String
  pub trace_id : String

pub data OperationClaimError : Type 0 where
  duplicate_claim : BridgeOperationRecord → OperationClaimError
  claim_failed : AppError → OperationClaimError

-- `OperationClaimError::confirmed_commit`
unfoldable pub confirmed_commit : OperationClaimError → Bool
confirmed_commit (duplicate_claim r) =
    status_in r.status (committed ∷ delivered ∷ [])
    && commit_eq r.commit_state OperationCommitState.applied
confirmed_commit (claim_failed e) = false

abbrev pub claim_id : ClaimOperationRequest → String → String
claim_id q new_id = if is_blank q.id then new_id else q.id

-- The row that the INSERT writes.
abbrev pub claimed_row : ClaimOperationRequest → String → String → OperationRow
claimed_row q id now = record {
  id = id;
  actor_id = q.actor_id;
  bot_id = q.bot_id;
  telegram_update_id = q.telegram_update_id;
  channel_context_key = q.channel_context_key;
  operation_kind = q.operation_kind;
  st_handle = some q.locator.handle;
  st_character_avatar = some q.locator.avatar;
  st_chat_file = some q.locator.chat_file;
  status = received;
  source_sha256 = none;
  source_integrity = none;
  source_size = none;
  message_count = none;
  operation_payload_ciphertext = none;
  operation_payload_nonce = none;
  operation_payload_key_version = none;
  mutation_digest = none;
  connector_result_json = none;
  error_stage = none;
  error_code = none;
  error_summary = none;
  retryable = pos 0;
  commit_state = OperationCommitState.not_started;
  attempt_count = pos 1;
  request_id = some q.request_id;
  trace_id = some q.trace_id;
  created_at = now;
  updated_at = now;
}

unfoldable pub find_by_claim : String → ℤ → String → List OperationRow → Option OperationRow
find_by_claim bot update kind [] = none
find_by_claim bot update kind (r ∷ rs) =
    if same_claim bot update kind r then some r else find_by_claim bot update kind rs

-- `get_by_claim`
unfoldable pub get_by_claim : String → ℤ → String → M AppError (Option BridgeOperationRecord)
unfolding fetch
get_by_claim bot update kind = fetch (λ db. decode (find_by_claim bot update kind db.operations))

-- `BridgeOperationRecord::matches_claim`
unfoldable pub matches_claim : BridgeOperationRecord → ClaimOperationRequest → Bool
matches_claim r q =
    (is_blank q.id || str_eq r.id q.id)
    && str_eq r.actor_id q.actor_id
    && str_eq r.bot_id q.bot_id
    && r.telegram_update_id ==ℤ q.telegram_update_id
    && str_eq r.channel_context_key q.channel_context_key
    && str_eq r.operation_kind q.operation_kind
    && str_eq r.locator.handle q.locator.handle
    && str_eq r.locator.avatar q.locator.avatar
    && str_eq r.locator.chat_file q.locator.chat_file

-- The row that a refused INSERT met.
unfoldable pub existing_claim : ClaimOperationRequest → M OperationClaimError BridgeOperationRecord
unfolding get_by_claim
existing_claim q = mapping_err claim_failed (
    get_by_claim q.bot_id q.telegram_update_id q.operation_kind >>= λ found. lift (
      ok_or found (
        conflict_error "BRIDGE_OPERATION_DUPLICATE_CLAIM"
          "duplicate claim unique constraint fired but existing row was not found")))

unfoldable pub duplicate_error : ClaimOperationRequest → BridgeOperationRecord → OperationClaimError
unfolding matches_claim
duplicate_error q existing =
    if not (matches_claim existing q)
    then claim_failed (
        conflict_error "ST_OPERATION_ID_REUSED"
          "operation identity does not match the existing claim")
    else duplicate_claim existing

-- The INSERT was refused by a unique constraint.
unfoldable pub duplicate : ClaimOperationRequest → M OperationClaimError BridgeOperationRecord
unfolding existing_claim duplicate_error
duplicate q = existing_claim q >>= λ existing. lift (err (duplicate_error q existing))

-- The row of a successful INSERT is read back.
unfoldable pub read_claimed : String → M OperationClaimError BridgeOperationRecord
unfolding get_operation
read_claimed id = mapping_err claim_failed (
    get_operation id >>= λ found.
    lift (ok_or found (internal_error "claimed operation missing after insert")))

-- `claim_operation`
unfoldable pub claim_operation :
    ClaimOperationRequest → String → String → M OperationClaimError BridgeOperationRecord
unfolding duplicate execute read_claimed
claim_operation q new_id now =
    let row = claimed_row q (claim_id q new_id) now in
    mapping_err claim_failed (execute (insert_operation row) (λ db. is_taken row db.operations))
    >>= λ taken. if taken then duplicate q else read_claimed row.id
