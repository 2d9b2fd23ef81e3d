-- ===== src/Examples/Data.antt =====
-- One operation of a bot, with the rows, the requests and the backend that belong to it.
use im_bridge_rs.Common.{pos, String, true, false, none, some, List, [], ◌∷◌}
use im_bridge_rs.Errors.{ok}
use im_bridge_rs.St.{
  StChatLocator, StChatMessage, StMutation, append_turn, CreateStChat, StCommitResult,
  StCommitStatus, PollerRuntimeFence, StWriteScope,
}
use im_bridge_rs.Operation.{
  committing, CommitPayload, EncryptedOperationPayload, append, generated, committed,
  OperationCommitState, BridgeOperationRecord,
}
use im_bridge_rs.Store.{
  OperationRow, Db, Turn, World, Statement, insert_operation, update_operation, interrupt_stale,
  set_snapshot_ready, set_generating, set_committing, set_delivered, ClaimOperationRequest,
  claimed_row, LeaseRequest, LeaseRow,
}
use im_bridge_rs.Coordinator.{
  Platform, OperationPayloadEncryptor, OperationCoordinator, StOperationJournalRecord,
  StOperationJournalStatus,
}

abbrev pub locator : StChatLocator
locator = record {
  handle = "default-user";
  avatar = "a.png";
  character_name = "A";
  chat_file = "chat-1.jsonl";
}

abbrev pub fence : PollerRuntimeFence
fence = record {
  telegram_bot_id = pos 7;
  owner = "rust_bridge";
  epoch = 1;
  internal_bot_id = "bot";
  runtime_instance_id = "instance";
}

abbrev pub request : ClaimOperationRequest
request = record {
  id = "op";
  actor_id = "actor";
  bot_id = "bot";
  telegram_update_id = pos 5;
  channel_context_key = "context";
  operation_kind = "send";
  locator = locator;
  request_id = "request";
  trace_id = "trace";
}

abbrev pub start_time : String
start_time = "2026-01-01T00:00:00Z"

abbrev pub fresh_row : OperationRow
fresh_row = claimed_row request "op" start_time

abbrev pub generated_row : OperationRow
generated_row = record fresh_row { status = generated; mutation_digest = some "digest" }

abbrev pub committed_row : OperationRow
committed_row = record generated_row {
  status = committed;
  commit_state = OperationCommitState.applied;
  connector_result_json = some "{}";
}

abbrev pub db_of : OperationRow → Db
db_of row = record { operations = row ∷ []; key_refs = []; leases = [] }

-- Another task interrupts stale generations before the second statement.
abbrev pub turns : List Turn
turns =
    (record { others = []; fault = false })
    ∷ (record { others = interrupt_stale start_time start_time ∷ []; fault = false })
    ∷ []

abbrev pub world_of : OperationRow → World
world_of row = record { db = db_of row; turns = turns; dispatched = [] }

abbrev pub empty_world : World
empty_world = record {
  db = record { operations = []; key_refs = []; leases = [] };
  turns = [];
  dispatched = [];
}

abbrev user_message : StChatMessage String
user_message = record { name = "You"; is_user = true; mes = "hello"; send_date = none; extra = [] }

abbrev pub mutation : StMutation String
mutation = append_turn user_message (record user_message { is_user = false })

abbrev pub result : StCommitResult
result = record {
  status = StCommitStatus.applied;
  new_sha256 = some "after";
  new_integrity = none;
  byte_length = some 10;
  message_count = some 2;
}

abbrev pub create_command : CreateStChat String
create_command = record {
  operation_id = "op";
  locator = locator;
  opening_message = "hello";
  scope = StWriteScope.test_chat;
  fence = fence;
}

abbrev pub platform : Platform String
platform = record {
  now = "2026-01-01T00:00:01Z";
  ids = record { request_id = "request"; trace_id = "trace" };
  backend_commit = λ command. ok result;
  backend_create = λ command. ok result;
  journal_lookup = λ id. ok none;
  vault_get = λ id. ok [];
  open_sealed = λ key nonce aad ciphertext. some ciphertext;
  sha256_hex = λ bytes. "digest";
  mutation_to_vec = λ m. some [];
  payload_from_slice = λ bytes. none;
  result_to_string = λ r. some "{}";
}

-- The statements of an operation's first steps.
abbrev pub first_steps : List Statement
first_steps =
    insert_operation fresh_row
    ∷ update_operation "op" (set_snapshot_ready none none none none) start_time
    ∷ update_operation "op" set_generating start_time
    ∷ []

-- Statements that reach an operation after its commit.
abbrev pub late_steps : List Statement
late_steps =
    interrupt_stale start_time start_time
    ∷ update_operation "op" set_committing start_time
    ∷ update_operation "op" set_delivered start_time
    ∷ []

abbrev pub sealed : EncryptedOperationPayload
sealed = record {
  ciphertext = 1 ∷ [];
  nonce =
      0 ∷ 0 ∷ 0 ∷ 0 ∷ 0 ∷ 0 ∷ 0 ∷ 0 ∷ 0 ∷ 0 ∷ 0 ∷ 0 ∷ 0 ∷ 0 ∷ 0 ∷ 0 ∷ 0 ∷ 0 ∷ 0 ∷ 0 ∷ 0 ∷ 0 ∷ 0 ∷ 0
      ∷ [];
  key_version = 1;
}

abbrev pub encryptor : OperationPayloadEncryptor
encryptor = record { operation_dek = []; key_version = 1; wrapped_secret_id = none }

-- The record of the operation before its commit, with a payload that the platform below opens.
abbrev pub generated_record : BridgeOperationRecord
generated_record = record {
  id = "op";
  actor_id = "actor";
  bot_id = "bot";
  telegram_update_id = pos 5;
  channel_context_key = "context";
  operation_kind = "send";
  locator = locator;
  status = generated;
  commit_state = OperationCommitState.not_started;
  source_sha256 = none;
  source_integrity = none;
  source_size = none;
  message_count = none;
  mutation_digest = some "digest";
  payload = some sealed;
  connector_result_json = none;
  error_stage = none;
  error_code = none;
  error_summary = none;
  retryable = false;
  attempt_count = 1;
  request_id = "request";
  trace_id = "trace";
  created_at = start_time;
  updated_at = start_time;
}

abbrev pub commit_payload : CommitPayload String
commit_payload = record {
  mutation = mutation;
  expected_sha256 = "sha";
  expected_integrity = "integrity";
  fence = fence;
}

abbrev pub journal_entry : StOperationJournalRecord
journal_entry = record {
  operation_id = "op";
  locator_hash = "hash";
  mutation_digest = "digest";
  status = StOperationJournalStatus.applied;
  before_sha256 = none;
  before_integrity = none;
  after_sha256 = some "after";
  after_integrity = none;
  after_byte_length = none;
  after_message_count = none;
}

-- A platform whose payloads hold the mutation above and whose journal has the entry above.
abbrev pub recovering : Platform String
recovering = record platform {
  payload_from_slice = λ bytes. some (append commit_payload);
  journal_lookup = λ id. ok (some journal_entry);
}

abbrev pub coordinator : OperationCoordinator
coordinator = record { payload_encryptor = some encryptor; payload_key_provider = false }

abbrev pub committing_row : OperationRow
committing_row = record generated_row { status = committing }

abbrev pub lease_request : LeaseRequest
lease_request = record {
  operation_id = "op";
  bot_id = "bot";
  instance_id = "instance";
  lease_until = "2026-01-01T00:01:00Z";
  now = start_time;
}

abbrev pub other_request : LeaseRequest
other_request = record lease_request { instance_id = "other"; now = "2026-01-01T00:00:30Z" }

abbrev pub lease : LeaseRow
lease = record {
  operation_id = "op";
  instance_id = "instance";
  lease_generation = 1;
  lease_until = "2026-01-01T00:01:00Z";
}
