-- ===== src/St/Fence.antt =====
-- src/domain/st.rs: the runtime fence that every mutation carries, and the connector's handshake.
use im_bridge_rs.Common.{
  ℕ, String, Bool, false, not, List, [], ◌∷◌, ◌&&◌, ◌||◌, str_eq, is_blank, ltb, ℤ, is_positive,
  ltℤ, pos,
}
use im_bridge_rs.St.Mode.{StWriteMode, StWriteScope, scope_eq}

pub record PollerRuntimeFence : Type 0 where
  pub telegram_bot_id : ℤ  -- i64
  pub owner : String
  pub epoch : ℕ  -- u64
  pub internal_bot_id : String
  pub runtime_instance_id : String

-- `PollerRuntimeFence::is_valid`
unfoldable pub fence_is_valid : PollerRuntimeFence → Bool
fence_is_valid f =
    is_positive f.telegram_bot_id
    && str_eq f.owner "rust_bridge"
    && ltb 0 f.epoch
    && not (is_blank f.internal_bot_id)
    && not (is_blank f.runtime_instance_id)

pub record HandshakeResponse : Type 0 where
  pub version : String
  pub handle : String
  pub profile : String
  pub connector_mode : StWriteMode
  pub scopes : List StWriteScope
  pub snapshot : Bool
  pub integrity_enabled : Bool
  pub typed_mutations : Bool
  pub integrity_rotation : Bool
  pub operation_replay : Bool
  pub durable_write : Bool
  pub handshake_at_unix : ℤ  -- i64
  pub expires_at_unix : ℤ  -- i64

-- `HandshakeResponse::is_valid_at`; `a >= b` is `!(a < b)`.
unfoldable pub is_valid_at : HandshakeResponse → ℤ → Bool
is_valid_at h now_unix =
    not (is_blank h.version)
    && not (is_blank h.handle)
    && not (is_blank h.profile)
    && ltℤ (pos 0) h.handshake_at_unix
    && ltℤ h.handshake_at_unix h.expires_at_unix
    && not (ltℤ now_unix h.handshake_at_unix)
    && ltℤ now_unix h.expires_at_unix

contains_scope : List StWriteScope → StWriteScope → Bool
contains_scope [] scope = false
contains_scope (s ∷ scopes) scope = scope_eq s scope || contains_scope scopes scope

-- `HandshakeResponse::supports_scope`
unfoldable pub supports_scope : HandshakeResponse → StWriteScope → Bool
unfolding contains_scope
supports_scope h scope = contains_scope h.scopes scope
