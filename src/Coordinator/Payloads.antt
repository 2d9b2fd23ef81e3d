-- ===== src/Coordinator/Payloads.antt =====
-- src/modules/bridge/operation_payload.rs, the opening of a payload, and the use that
-- src/modules/bridge/operation_coordinator.rs makes of it.
use im_bridge_rs.Common.{
  ℕ, String, Bool, false, not, Option, none, some, List, [], ◌∷◌, ◌||◌, ◌==◌, str_eq, is_blank,
  length, as_bytes, if◌then◌else◌,
}
use im_bridge_rs.Errors.{
  AppError, AppResult, ok, err, ok_or, map_err, bad_request_error, service_unavailable_error,
  conflict_error, ◌>>=◌, ◌>>◌, refuse_if,
}
use im_bridge_rs.St.{PollerRuntimeFence, fence_is_valid, StMutation}
use im_bridge_rs.Operation.{
  OperationRecoveryPayload, payload_mutation, validate, EncryptedOperationPayload,
  BridgeOperationRecord, OperationAad, new_with_fence, encode, encode_parts,
}
use im_bridge_rs.Coordinator.Seams.{Platform}

pub record OperationPayloadEncryptor : Type 0 where
  pub operation_dek : List ℕ
  pub key_version : ℕ  -- u32
  pub wrapped_secret_id : Option String

pub record OperationCoordinator : Type 0 where
  pub payload_encryptor : Option OperationPayloadEncryptor
  -- whether there is a key provider
  pub payload_key_provider : Bool

unfoldable pub decrypt_failed : AppError
decrypt_failed =
    bad_request_error "PAYLOAD_DECRYPT_FAILED" "operation payload could not be decrypted"

-- `validate_aad`
unfoldable pub validate_aad : OperationAad → AppResult (Unit {0})
validate_aad a =
    if a.version == 0
      || is_blank a.operation_id
      || is_blank a.locator_hash
      || is_blank a.operation_kind
      || is_blank a.actor_id
      || is_blank a.bot_id
    then err (
        bad_request_error "PAYLOAD_AAD_INVALID"
          "operation payload authenticated identity is incomplete")
    else ok tt

module _ {V : Type 0} (p : Platform V) where
  -- src/domain/locator.rs, `locator_hash`
  unfoldable pub locator_hash : String → String → String → String
  unfolding as_bytes encode_parts
  locator_hash handle avatar chat_file =
      p.sha256_hex (encode_parts (as_bytes handle ∷ as_bytes avatar ∷ as_bytes chat_file ∷ []))

  -- src/modules/bridge/st_ops.rs, `mutation_digest`
  unfoldable pub mutation_digest : StMutation V → String
  unfolding as_bytes
  mutation_digest mutation = elim (p.mutation_to_vec mutation) [
    | none ↦ p.sha256_hex (as_bytes "{}")
    | some encoded ↦ p.sha256_hex encoded
  ]

  -- `OperationPayloadEncryptor::from_wrapped`
  unfoldable pub from_wrapped : String → ℕ → AppResult OperationPayloadEncryptor
  unfolding decrypt_failed
  from_wrapped secret_id key_version =
      if is_blank secret_id
      then err (bad_request_error "PAYLOAD_KEY_REQUIRED" "wrapped operation DEK id is required")
      else (p.vault_get secret_id >>= λ bytes.
          if not (length bytes == 32)
          then err decrypt_failed
          else ok (record {
            operation_dek = bytes;
            key_version = key_version;
            wrapped_secret_id = some secret_id;
          }))

  -- `OperationPayloadEncryptor::decrypt`
  unfoldable pub decrypt :
      OperationPayloadEncryptor → EncryptedOperationPayload → OperationAad → AppResult (List ℕ)
  unfolding decrypt_failed validate_aad encode
  decrypt e encrypted aad =
      if not (encrypted.key_version == e.key_version)
      then err decrypt_failed
      else (map_err (λ _. decrypt_failed) (validate_aad aad) >>= λ _.
          ok_or (p.open_sealed e.operation_dek encrypted.nonce (encode aad) encrypted.ciphertext)
            decrypt_failed)

  abbrev pub digest_of : List ℕ → Option (StMutation V) → String
  digest_of plaintext none = p.sha256_hex plaintext
  digest_of plaintext (some m) = mutation_digest m

  -- The digest is compared if the record has one.
  abbrev pub digest_differs : Option String → String → Bool
  digest_differs none actual = false
  digest_differs (some expected) actual = not (str_eq actual expected)

  -- `decode_and_validate_recovery_payload`
  unfoldable pub decode_and_validate_recovery_payload :
      OperationPayloadEncryptor
      → BridgeOperationRecord
      → EncryptedOperationPayload
      → PollerRuntimeFence
      → AppResult (OperationRecoveryPayload V)
  unfolding decrypt locator_hash mutation_digest validate payload_mutation new_with_fence
  decode_and_validate_recovery_payload encryptor r encrypted fence = do
    let aad =
        new_with_fence r.id (locator_hash r.locator.handle r.locator.avatar r.locator.chat_file)
          r.operation_kind r.actor_id fence
    plaintext ← decrypt encryptor encrypted aad
    payload ←
        ok_or (p.payload_from_slice plaintext)
          (bad_request_error "PAYLOAD_RECOVERY_INVALID" "operation recovery payload is invalid")
    validate payload
    refuse_if (digest_differs r.mutation_digest (digest_of plaintext (payload_mutation payload)))
        (conflict_error "PAYLOAD_DIGEST_MISMATCH" "operation recovery payload digest mismatch")
    ok payload

-- `recovery_payload`
unfoldable pub recovery_payload : BridgeOperationRecord → AppResult EncryptedOperationPayload
recovery_payload r = do
  encrypted ←
      ok_or r.payload (bad_request_error "PAYLOAD_MISSING" "operation recovery payload is missing")
  refuse_if (is_blank r.id || is_blank r.bot_id)
      (bad_request_error "PAYLOAD_AAD_INVALID" "operation payload identity is incomplete")
  ok encrypted

abbrev pub key_unavailable : AppError
key_unavailable =
    service_unavailable_error "PAYLOAD_KEY_UNAVAILABLE" "operation payload key is unavailable"

module _ {V : Type 0} (p : Platform V) where
  -- `decrypt_recovery_payload`
  unfoldable pub decrypt_recovery_payload :
      OperationCoordinator
      → BridgeOperationRecord
      → String
      → PollerRuntimeFence
      → AppResult (OperationRecoveryPayload V)
  unfolding recovery_payload decode_and_validate_recovery_payload fence_is_valid
  decrypt_recovery_payload c r internal_bot_id fence = do
    encryptor ← ok_or c.payload_encryptor key_unavailable
    encrypted ← recovery_payload r
    refuse_if
        (not (fence_is_valid fence)
          || is_blank internal_bot_id
          || not (str_eq internal_bot_id r.bot_id)
          || not (str_eq fence.internal_bot_id r.bot_id))
        (conflict_error "PAYLOAD_AAD_INVALID"
          "operation payload runtime fence does not match the historical operation")
    decode_and_validate_recovery_payload p encryptor r encrypted fence
