-- ===== src/Coordinator/Sealing.antt =====
-- src/modules/bridge/operation_payload.rs: the key of a new operation, and the encryption of its
-- payload. What `thread_rng` draws for a key and for a nonce are arguments.
use im_bridge_rs.Common.{
  ℕ, String, Option, none, some, List, [], ◌∷◌, ltb, is_blank, format, if◌then◌else◌,
}
use im_bridge_rs.Errors.{
  AppError, AppResult, ok, err, ok_or, bad_request_error, internal_error, new_app_error,
}
use im_bridge_rs.Operation.{EncryptedOperationPayload, OperationAad, encode}
use im_bridge_rs.Store.{
  M, ◌>>=◌, lift, catch, OperationKeyReference, get_operation_key_reference,
  put_operation_key_reference,
}
use im_bridge_rs.Coordinator.Seams.{Platform}
use im_bridge_rs.Coordinator.Payloads.{
  OperationPayloadEncryptor, OperationCoordinator, validate_aad, from_wrapped, key_unavailable,
}

pub record KeyPlatform : Type 0 where
  -- `SecretVault::put`: label, kind and secret, to the id of the secret
  pub vault_put : String → String → List ℕ → AppResult String
  -- XChaCha20-Poly1305 encryption: key, nonce, additional data, plaintext
  pub seal : List ℕ → List ℕ → List ℕ → List ℕ → Option (List ℕ)
  -- `OperationDek::random`
  pub random_dek : List ℕ
  -- `fill_bytes(&mut nonce_bytes)`
  pub random_nonce : List ℕ

module _ (k : KeyPlatform) where
  -- `OperationPayloadEncryptor::create_wrapped`
  unfoldable pub create_wrapped : String → ℕ → AppResult OperationPayloadEncryptor
  unfolding format
  create_wrapped operation_id key_version =
      if is_blank operation_id
      then err (
          bad_request_error "PAYLOAD_OPERATION_ID_REQUIRED"
            "operation id is required for operation DEK")
      else elim (k.vault_put (format ("operation:" ∷ operation_id ∷ [])) "operation_dek_v1"
          k.random_dek) [
            | err e ↦ err e
            | ok id ↦ ok (record {
              operation_dek = k.random_dek;
              key_version = key_version;
              wrapped_secret_id = some id;
            })
          ]

  -- `OperationPayloadEncryptor::encrypt`
  unfoldable pub encrypt :
      OperationPayloadEncryptor → List ℕ → OperationAad → AppResult EncryptedOperationPayload
  unfolding validate_aad encode
  encrypt e plaintext aad = elim (validate_aad aad) [
    | err x ↦ err x
    | ok u ↦ elim (k.seal e.operation_dek k.random_nonce (encode aad) plaintext) [
      | none ↦
          err (new_app_error "PAYLOAD_ENCRYPT_FAILED" "operation payload encryption failed" 500)
      | some ciphertext ↦
          ok (record {
            ciphertext = ciphertext;
            nonce = k.random_nonce;
            key_version = e.key_version;
          })
    ]
  ]

module _ {V : Type 0} (p : Platform V) (k : KeyPlatform) where
  -- `with_key_version`: the version of the keys that are created
  abbrev pub with_key_version : ℕ → ℕ
  with_key_version key_version = if ltb key_version 1 then 1 else key_version

  unfoldable pub wrapped : OperationKeyReference → M AppError OperationPayloadEncryptor
  unfolding from_wrapped
  wrapped r = lift (from_wrapped p r.wrapped_secret_id r.key_version)

  -- The error of `put_operation_key_reference`, unless another task has put a reference.
  unfoldable pub after_conflict :
      AppError → Option OperationKeyReference → M AppError OperationPayloadEncryptor
  unfolding wrapped
  after_conflict e none = lift (err e)
  after_conflict e (some r) = wrapped r

  -- The `match` on `put_operation_key_reference`.
  unfoldable pub put_or_find :
      String → OperationPayloadEncryptor → String → M AppError OperationPayloadEncryptor
  unfolding put_operation_key_reference get_operation_key_reference after_conflict
  put_or_find operation_id e secret_id =
      catch (put_operation_key_reference operation_id secret_id e.key_version >>= λ u. lift (ok e))
        (λ x. get_operation_key_reference operation_id >>= after_conflict x)

  unfoldable pub put_reference :
      String → OperationPayloadEncryptor → M AppError OperationPayloadEncryptor
  unfolding put_or_find
  put_reference operation_id e =
      lift (ok_or e.wrapped_secret_id (internal_error "operation DEK reference was not returned"))
      >>= put_or_find operation_id e

  unfoldable pub unless_found :
      String → ℕ → Option OperationKeyReference → M AppError OperationPayloadEncryptor
  unfolding wrapped create_wrapped put_reference
  unless_found operation_id key_version (some r) = wrapped r
  unless_found operation_id key_version none =
      lift (create_wrapped k operation_id key_version) >>= put_reference operation_id

  -- `OperationPayloadKeyProvider::for_operation`, of a provider with the key version
  unfoldable pub for_operation : ℕ → String → M AppError OperationPayloadEncryptor
  unfolding get_operation_key_reference unless_found
  for_operation key_version operation_id =
      get_operation_key_reference operation_id >>= unless_found operation_id key_version

  -- `payload_encryptor_for_operation`
  unfoldable pub payload_encryptor_for_operation :
      OperationCoordinator → ℕ → String → M AppError OperationPayloadEncryptor
  unfolding for_operation
  payload_encryptor_for_operation c key_version operation_id =
      if c.payload_key_provider
      then for_operation key_version operation_id
      else lift (ok_or c.payload_encryptor key_unavailable)
