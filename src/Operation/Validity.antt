-- ===== src/Operation/Validity.antt =====
-- `OperationRecoveryPayload::validate` of src/modules/bridge/operations.rs: which payloads pass.
use im_bridge_rs.Common.{
  true, false, ◌≡◌, ◌↔◌, refl, inl, inr, arith, is_blank, Bool-cases, List, String,
}
use im_bridge_rs.Errors.{ok}
use im_bridge_rs.St.{
  StMutation, append_turn, undo_last_turn, replace_last_assistant, compress_messages,
  fence_is_valid, StChatMessage, StMessagePatch,
}
use im_bridge_rs.Operation.Payload.{
  CommitPayload, OperationRecoveryPayload, append, replace, undo, compress, create, payload_fence,
  validate, validate_kind, validate_append, validate_replace, validate_undo, validate_compress,
  validate_identity, identity_missing, invalid,
}

-- The mutation is of the kind that the payload says.
abbrev pub IsOfKind : {V : Type 0} → OperationRecoveryPayload V → Type 0
IsOfKind (append p) = (u : StChatMessage _) × (a : StChatMessage _) × (p.mutation ≡ append_turn u a)
IsOfKind (replace p) =
    (e : String) × (a : StChatMessage _) × (p.mutation ≡ replace_last_assistant e a)
IsOfKind (undo p) = (u : String) × (a : String) × (p.mutation ≡ undo_last_turn u a)
IsOfKind (compress p) = (patches : _) × (p.mutation ≡ compress_messages patches)
IsOfKind (create c) = Unit

-- The snapshot that the mutation expects is named, or the id of the operation that creates a chat.
abbrev pub IsNamed : {V : Type 0} → OperationRecoveryPayload V → Type 0
IsNamed (create c) = is_blank c.operation_id ≡ false
IsNamed (append p) = (is_blank p.expected_sha256 ≡ false) × (is_blank p.expected_integrity ≡ false)
IsNamed (replace p) = (is_blank p.expected_sha256 ≡ false) × (is_blank p.expected_integrity ≡ false)
IsNamed (undo p) = (is_blank p.expected_sha256 ≡ false) × (is_blank p.expected_integrity ≡ false)
IsNamed (compress p) =
    (is_blank p.expected_sha256 ≡ false) × (is_blank p.expected_integrity ≡ false)

joined : {A B C D : Type 0} → A ↔ (B × C) → C ↔ D → A ↔ (B × D)
joined f g = ((λ a. ((f.0 a).0, g.0 (f.0 a).1)), λ h. f.1 (h.0, g.1 h.1))

module _ {V : Type 0} where
  identity_lem :
      (p : CommitPayload V)
      → (validate_identity p ≡ ok tt)
        ↔ ((is_blank p.expected_sha256 ≡ false) × (is_blank p.expected_integrity ≡ false))
  unfolding validate_identity identity_missing
  identity_lem p = ground arith

  append_lem :
      (p : CommitPayload V) (m : StMutation V)
      → (validate_append p m ≡ ok tt) ↔ (
          ((u : StChatMessage V) × (a : StChatMessage V) × (m ≡ append_turn u a))
          × (validate_identity p ≡ ok tt))
  unfolding validate_append invalid
  append_lem p (append_turn u a) = ((λ h. ((u, a, refl), h)), λ h. h.1)
  append_lem p _ = ((λ h. absurd (cc h)), λ h. absurd (let (u, a, e) = h.0 in cc e))

  replace_lem :
      (p : CommitPayload V) (m : StMutation V)
      → (validate_replace p m ≡ ok tt) ↔ (
          ((s : String) × (a : StChatMessage V) × (m ≡ replace_last_assistant s a))
          × (validate_identity p ≡ ok tt))
  unfolding validate_replace invalid
  replace_lem p (replace_last_assistant s a) = ((λ h. ((s, a, refl), h)), λ h. h.1)
  replace_lem p _ = ((λ h. absurd (cc h)), λ h. absurd (let (u, a, e) = h.0 in cc e))

  undo_lem :
      (p : CommitPayload V) (m : StMutation V)
      → (validate_undo p m ≡ ok tt)
        ↔ (((u : String) × (a : String) × (m ≡ undo_last_turn u a)) × (validate_identity p ≡ ok tt))
  unfolding validate_undo invalid
  undo_lem p (undo_last_turn u a) = ((λ h. ((u, a, refl), h)), λ h. h.1)
  undo_lem p _ = ((λ h. absurd (cc h)), λ h. absurd (let (u, a, e) = h.0 in cc e))

  compress_lem :
      (p : CommitPayload V) (m : StMutation V)
      → (validate_compress p m ≡ ok tt) ↔ (
          ((patches : List StMessagePatch) × (m ≡ compress_messages patches))
          × (validate_identity p ≡ ok tt))
  unfolding validate_compress invalid
  compress_lem p (compress_messages patches) = ((λ h. ((patches, refl), h)), λ h. h.1)
  compress_lem p _ = ((λ h. absurd (cc h)), λ h. absurd (let (u, e) = h.0 in cc e))

  kind_lem : (p : OperationRecoveryPayload V) → (validate_kind p ≡ ok tt) ↔ (IsOfKind p × IsNamed p)
  unfolding validate_kind
  kind_lem (append p) = joined (append_lem p p.mutation) (identity_lem p)
  kind_lem (replace p) = joined (replace_lem p p.mutation) (identity_lem p)
  kind_lem (undo p) = joined (undo_lem p p.mutation) (identity_lem p)
  kind_lem (compress p) = joined (compress_lem p p.mutation) (identity_lem p)
  kind_lem (create c) = ground arith

-- A recovery payload passes `validate` exactly when its fence is valid, its mutation is of the kind
-- that the payload says, and the snapshot it expects, or for a creation the operation's id, is not
-- blank.
pub validate_lem :
    {V : Type 0} (p : OperationRecoveryPayload V)
    → (validate p ≡ ok tt) ↔ ((fence_is_valid (payload_fence p) ≡ true) × IsOfKind p × IsNamed p)
unfolding validate
validate_lem p = elim (Bool-cases (fence_is_valid (payload_fence p))) [
  | inl valid ↦ (
    (λ h. (
      valid,
      ((kind_lem p).0 (rw (valid, validate) at h)).0,
      ((kind_lem p).0 (rw (valid, validate) at h)).1,
    )),
    λ h. rw (valid, validate) ((kind_lem p).1 (h.1, h.2)),
  )
  | inr bad ↦ ((λ h. absurd (cc (rw (bad, validate) at h))), λ h. absurd (cc (bad, h.0)))
]
