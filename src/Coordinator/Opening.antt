-- ===== src/Coordinator/Opening.antt =====
-- `decode_and_validate_recovery_payload` of src/modules/bridge/operation_coordinator.rs: what is
-- known of a recovery payload that is opened.
use im_bridge_rs.Common.{
  ℕ, String, false, Option, none, some, List, ◌≡◌, sym, ap, subst, ◌∙◌, inl, inr, arith, Bool-cases,
  eq_iff, ◌==◌,
}
use im_bridge_rs.Errors.{
  ok, ok_or, map_err, refuse_if, bad_request_error, conflict_error, ◌>>=◌, ◌>>◌,
}
use im_bridge_rs.Errors.Binding.{bind-ok, ok_or-some, map_err-ok, refuse_if-ok}
use im_bridge_rs.St.{PollerRuntimeFence}
use im_bridge_rs.Operation.{
  OperationRecoveryPayload, EncryptedOperationPayload, BridgeOperationRecord, OperationAad,
  validate, payload_mutation, encode, new_with_fence,
}
use im_bridge_rs.Coordinator.{
  Platform, OperationPayloadEncryptor, decode_and_validate_recovery_payload, decrypt, validate_aad,
  locator_hash, digest_of, digest_differs, decrypt_failed,
}

module _ {V : Type 0} (p : Platform V) (e : OperationPayloadEncryptor) (r : BridgeOperationRecord)
    (encrypted : EncryptedOperationPayload) (fence : PollerRuntimeFence) where
  -- The authenticated data that the record and the fence give.
  abbrev pub expected_aad : OperationAad
  expected_aad =
      new_with_fence r.id (locator_hash p r.locator.handle r.locator.avatar r.locator.chat_file)
        r.operation_kind r.actor_id fence

  decrypt-ok :
      (aad : OperationAad) (plaintext : List ℕ)
      → decrypt p e encrypted aad ≡ ok plaintext
      → (encrypted.key_version ≡ e.key_version)
        × (validate_aad aad ≡ ok tt)
        × (p.open_sealed e.operation_dek encrypted.nonce (encode aad) encrypted.ciphertext
            ≡ some plaintext)
  unfolding decrypt
  decrypt-ok aad plaintext h = elim (Bool-cases (encrypted.key_version == e.key_version)) [
    | inl same ↦
        (let opened =
            p.open_sealed e.operation_dek encrypted.nonce (encode aad) encrypted.ciphertext in
          let (u, checked, h₁) =
            bind-ok (map_err (λ _. decrypt_failed) (validate_aad aad))
              (λ _. ok_or opened decrypt_failed) plaintext (rw (same, decrypt) at h) in
          (
            ground (arith, same),
            map_err-ok (λ _. decrypt_failed) (validate_aad aad) tt checked,
            ok_or-some opened decrypt_failed plaintext h₁,
          ))
    | inr other ↦ absurd (cc (rw (other, decrypt) at h))
  ]

  digest_lem :
      (actual digest : String) (expected : Option String)
      → expected ≡ some digest
      → digest_differs p expected actual ≡ false
      → actual ≡ digest
  digest_lem actual digest none g h = cc g
  digest_lem actual digest (some x) g h =
      let same : x ≡ digest = cc g in ground (arith, h, same, eq_iff actual x)

  -- If a recovery payload is opened, then its key version is the encryptor's, the ciphertext is
  -- authentic for this operation's id, locator hash, kind and actor and for this fence, the payload
  -- in it is valid, and if the record has a mutation digest, it is that of the payload.
  pub opened_payload_lem :
      (payload : OperationRecoveryPayload V)
      → decode_and_validate_recovery_payload p e r encrypted fence ≡ ok payload
      → (plaintext : List ℕ) × (encrypted.key_version ≡ e.key_version)
        × (validate_aad expected_aad ≡ ok tt)
        × (p.open_sealed e.operation_dek encrypted.nonce (encode expected_aad) encrypted.ciphertext
            ≡ some plaintext)
        × (p.payload_from_slice plaintext ≡ some payload)
        × (validate payload ≡ ok tt)
        × ((digest : String)
            → r.mutation_digest ≡ some digest
            → digest_of p plaintext (payload_mutation payload) ≡ digest)
  unfolding decode_and_validate_recovery_payload
  opened_payload_lem payload h =
      let invalid =
        bad_request_error "PAYLOAD_RECOVERY_INVALID" "operation recovery payload is invalid" in
      let mismatch =
        conflict_error "PAYLOAD_DIGEST_MISMATCH" "operation recovery payload digest mismatch" in
      let differs = λ (plaintext : List ℕ) (x : OperationRecoveryPayload V).
        digest_differs p r.mutation_digest (digest_of p plaintext (payload_mutation x)) in
      let last = λ (plaintext : List ℕ) (x : OperationRecoveryPayload V).
        refuse_if (differs plaintext x) mismatch >> ok x in
      let parsed = λ (plaintext : List ℕ). ok_or (p.payload_from_slice plaintext) invalid in
      let (plaintext, h₁, h₂) =
        bind-ok (decrypt p e encrypted expected_aad)
          (λ plaintext. parsed plaintext >>= λ x. validate x >> last plaintext x) payload h in
      let (x, h₃, h₄) =
        bind-ok (parsed plaintext) (λ x. validate x >> last plaintext x) payload h₂ in
      let (_, h₅, h₆) = bind-ok (validate x) (λ _. last plaintext x) payload h₄ in
      let (u, h₇, h₈) = bind-ok (refuse_if (differs plaintext x) mismatch) (λ _. ok x) payload h₆ in
      let same : x ≡ payload = cc h₈ in
      let (version, checked, sealed) = decrypt-ok expected_aad plaintext h₁ in
      (
        plaintext,
        version,
        checked,
        sealed,
        ok_or-some (p.payload_from_slice plaintext) invalid x h₃ ∙ ap some same,
        ap validate (sym same) ∙ h₅,
        λ digest given.
            subst (λ y. digest_of p plaintext (payload_mutation y) ≡ digest) same
              (digest_lem (digest_of p plaintext (payload_mutation x)) digest r.mutation_digest
                given (refuse_if-ok (differs plaintext x) mismatch u h₇)),
      )
