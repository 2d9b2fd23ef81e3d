-- ===== src/Coordinator/KeyRestoring.antt =====
-- src/modules/bridge/operation_payload.rs: the key of an operation is given again, and opens what it
-- sealed.
use im_bridge_rs.Common.{
  ℕ, ◌<◌, ◌^◌, String, false, Option, none, some, List, [], ◌≡◌, refl, sym, inl, inr, arith,
  is_blank, length, subst, Bool-cases, Option-cases, ◌∙◌, ap, format, ◌∷◌,
}
use im_bridge_rs.Errors.{AppError, Result, ok, ok_or, internal_error}
use im_bridge_rs.Operation.{EncryptedOperationPayload, OperationAad, encode}
use im_bridge_rs.Store.{
  Statement, run_all, World, ◌>>=◌, lift, OperationKeyReference, get_operation_key_reference,
  put_operation_key_reference,
}
use im_bridge_rs.Errors.Binding.{Result-cases, ok_or-some}
use im_bridge_rs.Store.Following.{>>=-ok, catch-cases}
use im_bridge_rs.Coordinator.{
  Platform, OperationPayloadEncryptor, from_wrapped, restore_for_operation, decrypt, validate_aad,
  KeyPlatform, create_wrapped, encrypt, wrapped, after_conflict, put_or_find, put_reference,
  unless_found, for_operation,
}
use im_bridge_rs.Coordinator.KeyKeeping.{HasKey, run_all-HasKey, restore-HasKey}
use im_bridge_rs.Coordinator.KeySources.{HasReference, get-HasReference, put-HasReference}

module _ {V : Type 0} (p : Platform V) (k : KeyPlatform) (key_size : length k.random_dek ≡ 32)
    (vault_keeps : (label kind id : String)
      → k.vault_put label kind k.random_dek ≡ ok id
      → p.vault_get id ≡ ok k.random_dek) where
  with_key :
      (id : String) (r : OperationKeyReference) (e : OperationPayloadEncryptor) (w : World)
      → HasReference id r w.db
      → from_wrapped p r.wrapped_secret_id r.key_version ≡ ok e
      → HasKey p id e w.db
  with_key id r e w h f = record {
    row = h.row;
    reference = r;
    found = h.found;
    readable = h.readable;
    restored = f;
  }

  created_version :
      (id : String) (version : ℕ) (e : OperationPayloadEncryptor)
      → create_wrapped k id version ≡ ok e
      → e.key_version ≡ version
  unfolding create_wrapped
  created_version id version e c = elim (Bool-cases (is_blank id)) [
    | inl blank ↦ absurd (ground (arith, c, blank))
    | inr named ↦
        elim (Result-cases
          (k.vault_put (format ("operation:" ∷ id ∷ [])) "operation_dek_v1" k.random_dek)) [
            | inr (x, f) ↦ absurd (ground (arith, c, named, f))
            | inl (put, f) ↦ ground (arith, c, named, f)
          ]
  ]

  -- A key that is created can be restored from its reference.
  created :
      (id secret : String) (version : ℕ) (e : OperationPayloadEncryptor)
      → create_wrapped k id version ≡ ok e
      → e.wrapped_secret_id ≡ some secret
      → is_blank secret ≡ false
      → from_wrapped p secret version ≡ ok e
  unfolding create_wrapped from_wrapped
  created id secret version e c s b = elim (Bool-cases (is_blank id)) [
    | inl blank ↦ absurd (ground (arith, c, blank))
    | inr named ↦
        let label = format ("operation:" ∷ id ∷ []) in
        elim (Result-cases (k.vault_put label "operation_dek_v1" k.random_dek)) [
          | inr (x, f) ↦ absurd (ground (arith, c, named, f))
          | inl (put, f) ↦
              let got = vault_keeps label "operation_dek_v1" put f in
              ground (arith, c, named, f, s, b, got, key_size)
        ]
  ]

  after_conflict-HasKey :
      (id : String) (x : AppError) (found : Option OperationKeyReference)
      (e : OperationPayloadEncryptor) (w : World)
      → ((r : OperationKeyReference) → found ≡ some r → HasReference id r w.db)
      → (after_conflict p k x found w).0 ≡ ok e
      → HasKey p id e (after_conflict p k x found w).1.db
  unfolding after_conflict wrapped
  after_conflict-HasKey id x none e w there h = absurd (cc h)
  after_conflict-HasKey id x (some r) e w there h = with_key id r e w (there r refl) h

  -- What is read after a conflict.
  conflict-HasKey :
      (id : String) (x : AppError) (e : OperationPayloadEncryptor) (w : World)
      → ((get_operation_key_reference id >>= after_conflict p k x) w).0 ≡ ok e
      → HasKey p id e ((get_operation_key_reference id >>= after_conflict p k x) w).1.db
  conflict-HasKey id x e w h =
      let (found, h₁, h₂, end) =
        >>=-ok (get_operation_key_reference id) (after_conflict p k x) w e h in
      let v = (get_operation_key_reference id w).1 in
      subst (λ (u : World). HasKey p id e u.db) (sym end)
        (after_conflict-HasKey id x found e v (λ r same. get-HasReference id w r (h₁ ∙ ap ok same))
          h₂)

  put-HasKey :
      (id secret : String) (version : ℕ) (e f : OperationPayloadEncryptor) (w : World)
      → version < 2 ^ 32
      → create_wrapped k id version ≡ ok e
      → e.wrapped_secret_id ≡ some secret
      → (put_operation_key_reference id secret e.key_version w).0 ≡ ok tt
      → ◌≡◌ {A = Result AppError OperationPayloadEncryptor} (ok e) (ok f)
      → HasKey p id f (put_operation_key_reference id secret e.key_version w).1.db
  put-HasKey id secret version e f w l c s h same =
      let bounded : e.key_version < 2 ^ 32 = rw (created_version id version e c) l in
      let (b, there) = put-HasReference id secret e.key_version w bounded h in
      let restored = created id secret version e c s b in
      let r : OperationKeyReference = record {
        wrapped_secret_id = secret;
        key_version = e.key_version;
      } in
      let made : from_wrapped p secret e.key_version ≡ ok f =
        ap (from_wrapped p secret) (created_version id version e c) ∙ restored ∙ same in
      with_key id r f (put_operation_key_reference id secret e.key_version w).1 there made

  put_or_find-HasKey :
      (id secret : String) (version : ℕ) (e f : OperationPayloadEncryptor) (w : World)
      → version < 2 ^ 32
      → create_wrapped k id version ≡ ok e
      → e.wrapped_secret_id ≡ some secret
      → (put_or_find p k id e secret w).0 ≡ ok f
      → HasKey p id f (put_or_find p k id e secret w).1.db
  unfolding put_or_find
  put_or_find-HasKey id secret version e f w l c s h =
      let put = put_operation_key_reference id secret e.key_version in
      elim (catch-cases (put >>= λ u. lift (ok e))
        (λ x. get_operation_key_reference id >>= after_conflict p k x) w f h) [
          | inl (done, end) ↦
              let (u, h₁, h₂, end') = >>=-ok put (λ u. lift (ok e)) w f done in
              subst (λ (v : World). HasKey p id f v.db) (sym (end ∙ end'))
                (put-HasKey id secret version e f w l c s h₁ h₂)
          | inr (x, found, end) ↦
              subst (λ (v : World). HasKey p id f v.db) (sym end)
                (conflict-HasKey id x f (((put >>= λ u. lift (ok e)) w).1) found)
        ]

  put_reference-HasKey :
      (id : String) (version : ℕ) (e f : OperationPayloadEncryptor) (w : World)
      → version < 2 ^ 32
      → create_wrapped k id version ≡ ok e
      → (put_reference p k id e w).0 ≡ ok f
      → HasKey p id f (put_reference p k id e w).1.db
  unfolding put_reference
  put_reference-HasKey id version e f w l c h =
      let missing = internal_error "operation DEK reference was not returned" in
      let (secret, h₁, h₂, end) =
        >>=-ok (lift (ok_or e.wrapped_secret_id missing)) (put_or_find p k id e) w f h in
      subst (λ (v : World). HasKey p id f v.db) (sym end)
        (put_or_find-HasKey id secret version e f w l c
          (ok_or-some e.wrapped_secret_id missing secret h₁) h₂)

  unless_found-HasKey :
      (id : String) (version : ℕ) (found : Option OperationKeyReference)
      (e : OperationPayloadEncryptor) (w : World)
      → version < 2 ^ 32
      → ((r : OperationKeyReference) → found ≡ some r → HasReference id r w.db)
      → (unless_found p k id version found w).0 ≡ ok e
      → HasKey p id e (unless_found p k id version found w).1.db
  unfolding unless_found wrapped
  unless_found-HasKey id version (some r) e w l there h = with_key id r e w (there r refl) h
  unless_found-HasKey id version none e w l there h =
      let (new, h₁, h₂, end) =
        >>=-ok (lift (create_wrapped k id version)) (put_reference p k id) w e h in
      subst (λ (v : World). HasKey p id e v.db) (sym end)
        (put_reference-HasKey id version new e w l h₁ h₂)

  for_operation-HasKey :
      (id : String) (version : ℕ) (e : OperationPayloadEncryptor) (w : World)
      → version < 2 ^ 32
      → (for_operation p k version id w).0 ≡ ok e
      → HasKey p id e (for_operation p k version id w).1.db
  unfolding for_operation
  for_operation-HasKey id version e w l h =
      let (found, h₁, h₂, end) =
        >>=-ok (get_operation_key_reference id) (unless_found p k id version) w e h in
      let v = (get_operation_key_reference id w).1 in
      subst (λ (u : World). HasKey p id e u.db) (sym end)
        (unless_found-HasKey id version found e v l
          (λ r same. get-HasReference id w r (h₁ ∙ ap ok same)) h₂)

  sealed_opens :
      (e : OperationPayloadEncryptor) (plaintext : List ℕ) (aad : OperationAad)
      (sealed : EncryptedOperationPayload)
      → ((key nonce extra text sealed : List ℕ)
          → k.seal key nonce extra text ≡ some sealed
          → p.open_sealed key nonce extra sealed ≡ some text)
      → encrypt k e plaintext aad ≡ ok sealed
      → decrypt p e sealed aad ≡ ok plaintext
  unfolding encrypt decrypt
  sealed_opens e plaintext aad sealed law h = elim (Result-cases (validate_aad aad)) [
    | inr (x, f) ↦ absurd (ground (arith, h, f))
    | inl (u, f) ↦
        elim (Option-cases (k.seal e.operation_dek k.random_nonce (encode aad) plaintext)) [
          | inl g ↦ absurd (ground (arith, h, f, g))
          | inr (c, g) ↦
              ground (arith, h, f, g, law e.operation_dek k.random_nonce (encode aad) plaintext c g)
        ]
  ]

  -- If the vault gives back the key that it was given and the cipher opens what it has sealed, then
  -- the key that `for_operation` gives, be it a stored one, a new one or one that another task has
  -- stored first, is also what a restore gives after any further statements, unless it meets a
  -- fault; and that key opens what `encrypt` has sealed with it for the same operation.
  pub sealed_payload_opens :
      (id : String) (version : ℕ) (e : OperationPayloadEncryptor) (w v : World)
      (ss : List Statement) (plaintext : List ℕ) (aad : OperationAad)
      (sealed : EncryptedOperationPayload)
      → ((key nonce extra text cipher : List ℕ)
          → k.seal key nonce extra text ≡ some cipher
          → p.open_sealed key nonce extra cipher ≡ some text)
      → version < 2 ^ 32
      → (for_operation p k version id w).0 ≡ ok e
      → encrypt k e plaintext aad ≡ ok sealed
      → v.turns ≡ []
      → v.db ≡ run_all ss (for_operation p k version id w).1.db
      → ((restore_for_operation p id v).0 ≡ ok e) × (decrypt p e sealed aad ≡ ok plaintext)
  sealed_payload_opens id version e w v ss plaintext aad sealed law l given s quiet later =
      let kept =
        run_all-HasKey p ss id e (for_operation p k version id w).1.db
          (for_operation-HasKey id version e w l given) in
      (
        restore-HasKey p id e v quiet (subst (HasKey p id e) (sym later) kept),
        sealed_opens e plaintext aad sealed law s,
      )
