-- ===== src/Examples/Coordinator.antt =====
-- The theorems on src/modules/bridge/operation_coordinator.rs at one commit and its repetition.
use im_bridge_rs.Common.{◌≡◌, refl, ◌≤◌, List, [], ◌∷◌, String, true, match_text, ◌⊎◌, some, none}
use im_bridge_rs.Errors.{ok}
use im_bridge_rs.St.{fence_is_valid}
use im_bridge_rs.Operation.{
  BridgeOperationRecord, OperationRecoveryPayload, generated, committing, committed, delivered,
  OperationCommitState, parse_operation_commit_state, operation_commit_state_as_str,
}
use im_bridge_rs.Store.{
  find_operation, mark_committing, run_all, into_record, mark_committed_with_state, status_eq,
  status_in, commit_eq,
}
use im_bridge_rs.Coordinator.{
  StOperationJournalRecord, commit, create, replay_generated,
  decrypt_recovery_payload_for_operation, send, reconcile_commit,
}
use im_bridge_rs.Coordinator.AtMostOnce.{
  Call, commit_call, create_call, run_calls, sends_at_most_once,
}
use im_bridge_rs.Coordinator.Sends.{sends}
use im_bridge_rs.Coordinator.Landing.{IsRecorded, commit-IsRecorded, create-IsRecorded}
use im_bridge_rs.Coordinator.Replaying.{replay_generated-IsRecorded}
use im_bridge_rs.Coordinator.Reconciling.{IsConfirmed, IsLandedAs, reconcile_commit-IsConfirmed}
use im_bridge_rs.Coordinator.Opening.{expected_aad, opened_payload_lem}
use im_bridge_rs.Coordinator.Settling.{IsRefused}
use im_bridge_rs.Coordinator.Refusals.{commit-IsRefused, create-IsRefused}
use im_bridge_rs.Coordinator.{
  Platform, validate_aad, digest_of, decode_and_validate_recovery_payload, not_applied_error,
}
use im_bridge_rs.Errors.{StBridgeError}
use im_bridge_rs.St.{StCommitStatus}
use im_bridge_rs.Operation.{validate, payload_mutation, append, encode}
use im_bridge_rs.Common.{ℕ, is_blank}
use im_bridge_rs.Store.{mark_failed_with_state}
use im_bridge_rs.Examples.Data.{
  encryptor, sealed, commit_payload, locator, fence, generated_row, committing_row,
  generated_record, recovering, coordinator, world_of, mutation, result, create_command, platform,
}

abbrev calls : List (Call String)
calls =
    commit_call platform "op" locator "sha" "integrity" mutation fence
    ∷ commit_call platform "op" locator "sha" "integrity" mutation fence
    ∷ create_call platform create_command
    ∷ []

sends_at_most_once_example : sends "op" (run_calls calls (world_of generated_row)).dispatched ≤ 1
unfolding sends find_operation
sends_at_most_once_example =
    sends_at_most_once "op" calls (world_of generated_row) (tt, ((tt, tt), tt)) (refl, tt) refl

commit-IsRecorded_example :
    (fence_is_valid fence ≡ true)
    × (platform.backend_commit (record {
      operation_id = "op";
      locator = locator;
      expected_sha256 = "sha";
      expected_integrity = "integrity";
      mutation = mutation;
      fence = fence;
    })
        ≡ ok result)
    × IsRecorded platform "op" result
        (commit platform "op" locator "sha" "integrity" mutation fence (world_of generated_row)).1
unfolding commit fence_is_valid find_operation mark_committing run_all into_record match_text
    parse_operation_commit_state operation_commit_state_as_str mark_committed_with_state
commit-IsRecorded_example =
    commit-IsRecorded platform "op" locator "sha" "integrity" mutation fence result
      (world_of generated_row) (tt, ((tt, tt), tt)) (refl, tt) refl

create-IsRecorded_example :
    (platform.backend_create create_command ≡ ok result)
    × IsRecorded platform "op" result (create platform create_command (world_of generated_row)).1
unfolding create find_operation mark_committing run_all into_record match_text
    parse_operation_commit_state operation_commit_state_as_str mark_committed_with_state
create-IsRecorded_example =
    create-IsRecorded platform create_command result (world_of generated_row) (tt, ((tt, tt), tt))
      (refl, tt) refl

replay_generated-IsRecorded_example :
    (fence_is_valid fence ≡ true)
    × ("bot" ≡ generated_record.bot_id)
    × (fence.internal_bot_id ≡ generated_record.bot_id)
    × (status_eq generated_record.status generated ≡ true)
    × ((payload : OperationRecoveryPayload String) × ((decrypt_recovery_payload_for_operation
            recovering coordinator generated_record fence
            (world_of generated_row)).0
          ≡ ok payload)
        × (send recovering generated_record payload ≡ ok result)
        × IsRecorded recovering "op" result
            (replay_generated recovering coordinator generated_record "bot" fence
              (world_of generated_row)).1)
unfolding replay_generated find_operation mark_committing run_all into_record match_text
    parse_operation_commit_state operation_commit_state_as_str mark_committed_with_state
replay_generated-IsRecorded_example =
    replay_generated-IsRecorded recovering coordinator generated_record "bot" fence result
      (world_of generated_row) (tt, ((tt, tt), tt)) (refl, tt) refl

abbrev committing_record : BridgeOperationRecord
committing_record = record generated_record { status = committing }

abbrev committed_record : BridgeOperationRecord
committed_record = record generated_record {
  locator = record locator { character_name = "" };
  status = committed;
  commit_state = OperationCommitState.applied;
  payload = none;
  connector_result_json = some "applied";
  updated_at = "2026-01-01T00:00:01Z";
}

reconcile_commit-IsConfirmed_example :
    ((status_in committing_record.status (committed ∷ delivered ∷ []) ≡ true)
      × (commit_eq committing_record.commit_state OperationCommitState.applied ≡ true)
      × (committed_record ≡ committing_record)
      × ((reconcile_commit recovering
            (λ e. "applied")
            committing_record
            "hash"
            (world_of committing_row)).1
          ≡ world_of committing_row))
    ⊎ ((status_eq committing_record.status committing ≡ true)
        × ((mutation_digest : String) × (entry : StOperationJournalRecord)
            × (committing_record.mutation_digest ≡ some mutation_digest)
            × IsConfirmed recovering committing_record "hash" mutation_digest entry
            × IsLandedAs "op" "applied"
                (reconcile_commit recovering
                  (λ e. "applied")
                  committing_record
                  "hash"
                  (world_of committing_row)).1))
unfolding reconcile_commit find_operation mark_committed_with_state run_all into_record match_text
    parse_operation_commit_state operation_commit_state_as_str
reconcile_commit-IsConfirmed_example =
    reconcile_commit-IsConfirmed recovering (λ e. "applied") committing_record committed_record
      "hash" (world_of committing_row) (tt, ((tt, tt), tt)) (refl, tt) refl

opened_payload_lem_example :
    (plaintext : List ℕ) × (1 ≡ encryptor.key_version)
    × (validate_aad (expected_aad recovering encryptor generated_record sealed fence) ≡ ok tt)
    × (recovering.open_sealed encryptor.operation_dek sealed.nonce
          (encode (expected_aad recovering encryptor generated_record sealed fence))
          sealed.ciphertext
        ≡ some plaintext)
    × (recovering.payload_from_slice plaintext ≡ some (append commit_payload))
    × (validate (append commit_payload) ≡ ok tt)
    × ((digest : String)
        → generated_record.mutation_digest ≡ some digest
        → digest_of recovering plaintext (payload_mutation (append commit_payload)) ≡ digest)
unfolding decode_and_validate_recovery_payload is_blank fence_is_valid
opened_payload_lem_example =
    opened_payload_lem recovering encryptor generated_record sealed fence (append commit_payload)
      refl

-- A backend that refuses every mutation.
abbrev refusing : Platform String
refusing = record platform {
  backend_commit = λ command. ok (record result { status = StCommitStatus.not_applied });
  backend_create = λ command. ok (record result { status = StCommitStatus.not_applied });
}

abbrev refusal : StBridgeError
refusal = not_applied_error refusing.ids "op"

commit-IsRefused_example :
    IsRefused "op"
      (commit refusing "op" locator "sha" "integrity" mutation fence (world_of generated_row)).1
unfolding commit find_operation mark_committing run_all into_record match_text
    parse_operation_commit_state operation_commit_state_as_str mark_failed_with_state
commit-IsRefused_example =
    commit-IsRefused refusing "op" locator "sha" "integrity" mutation fence refusal
      (world_of generated_row) (refl, λ e. cc e) (tt, ((tt, tt), tt)) (refl, tt) refl

create-IsRefused_example :
    IsRefused "op" (create refusing create_command (world_of generated_row)).1
unfolding create find_operation mark_committing run_all into_record match_text
    parse_operation_commit_state operation_commit_state_as_str mark_failed_with_state
create-IsRefused_example =
    create-IsRefused refusing create_command refusal (world_of generated_row) (refl, λ e. cc e)
      (tt, ((tt, tt), tt)) (refl, tt) refl
