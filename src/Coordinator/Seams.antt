-- ===== src/Coordinator/Seams.antt =====
-- What src/modules/bridge/operation_coordinator.rs uses behind its seams: the StBackend of
-- src/seams/st_backend.rs, the journal of src/seams/st_operation_journal.rs, the SecretVault of
-- src/seams/secret_vault.rs, the cipher, the hash and `serde_json`, and the clock.
use im_bridge_rs.Common.{ℕ, String, Bool, Option, List, str_eq, ◌&&◌}
use im_bridge_rs.Errors.{AppResult, StResult, ErrorIds}
use im_bridge_rs.St.{StMutation, CommitStChat, CreateStChat, StCommitResult}
use im_bridge_rs.Operation.{OperationRecoveryPayload}

pub data StOperationJournalStatus : Type 0 where
  prepared applied not_applied unknown : StOperationJournalStatus

pub record StOperationJournalRecord : Type 0 where
  pub operation_id : String
  pub locator_hash : String
  pub mutation_digest : String
  pub status : StOperationJournalStatus
  pub before_sha256 : Option String
  pub before_integrity : Option String
  pub after_sha256 : Option String
  pub after_integrity : Option String
  pub after_byte_length : Option ℕ  -- u64
  pub after_message_count : Option ℕ  -- u64

-- `StOperationJournalRecord::identity_matches`
unfoldable pub identity_matches : StOperationJournalRecord → String → String → String → Bool
identity_matches j operation_id locator_hash mutation_digest =
    str_eq j.operation_id operation_id
    && str_eq j.locator_hash locator_hash
    && str_eq j.mutation_digest mutation_digest

pub record Platform (V : Type 0) : Type 0 where
  -- `now_rfc3339()`, and the identifiers of a new error
  pub now : String
  pub ids : ErrorIds
  -- `StBackend::commit` and `StBackend::create_chat`
  pub backend_commit : CommitStChat V → StResult StCommitResult
  pub backend_create : CreateStChat V → StResult StCommitResult
  -- `StOperationJournal::lookup`
  pub journal_lookup : String → AppResult (Option StOperationJournalRecord)
  -- `SecretVault::get`
  pub vault_get : String → AppResult (List ℕ)
  -- XChaCha20-Poly1305 decryption: key, nonce, additional data, ciphertext
  pub open_sealed : List ℕ → List ℕ → List ℕ → List ℕ → Option (List ℕ)
  -- `hex::encode(Sha256::digest(_))`
  pub sha256_hex : List ℕ → String
  -- `serde_json` on a mutation, a payload and a connector's result
  pub mutation_to_vec : StMutation V → Option (List ℕ)
  pub payload_from_slice : List ℕ → Option (OperationRecoveryPayload V)
  pub result_to_string : StCommitResult → Option String
