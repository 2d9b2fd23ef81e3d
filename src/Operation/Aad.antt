-- ===== src/Operation/Aad.antt =====
-- src/modules/bridge/operations.rs, `OperationAad`: the identity that the encryption of a recovery
-- payload authenticates.
use im_bridge_rs.Common.{
  ℕ, String, Option, none, some, List, [], ◌∷◌, ◌++◌, as_bytes, to_be_bytes, decimal, decimal_ℤ,
  length,
}
use im_bridge_rs.St.{PollerRuntimeFence}

pub record OperationAad : Type 0 where
  pub version : ℕ  -- u16
  pub operation_id : String
  pub locator_hash : String
  pub operation_kind : String
  pub actor_id : String
  pub bot_id : String
  pub runtime_fence : Option PollerRuntimeFence

-- `OperationAad::new`
unfoldable pub new_aad : String → String → String → String → String → OperationAad
new_aad operation_id locator_hash operation_kind actor_id bot_id = record {
  version = 1;
  operation_id = operation_id;
  locator_hash = locator_hash;
  operation_kind = operation_kind;
  actor_id = actor_id;
  bot_id = bot_id;
  runtime_fence = none;
}

-- `OperationAad::new_with_fence`
unfoldable pub new_with_fence :
    String → String → String → String → PollerRuntimeFence → OperationAad
unfolding new_aad
new_with_fence operation_id locator_hash operation_kind actor_id fence =
    record (new_aad operation_id locator_hash operation_kind actor_id fence.internal_bot_id) {
      runtime_fence = some fence;
    }

-- One component: its length in eight bytes, and its bytes.
unfoldable pub encode_part : List ℕ → List ℕ
unfolding to_be_bytes
encode_part part = to_be_bytes 8 (length part) ++ part

unfoldable pub encode_parts : List (List ℕ) → List ℕ
unfolding encode_part
encode_parts [] = []
encode_parts (p ∷ ps) = encode_part p ++ encode_parts ps

unfoldable pub fence_parts : Option PollerRuntimeFence → List (List ℕ)
unfolding as_bytes decimal decimal_ℤ
fence_parts none = []
fence_parts (some f) =
    decimal_ℤ f.telegram_bot_id
    ∷ as_bytes f.owner
    ∷ decimal f.epoch
    ∷ as_bytes f.internal_bot_id
    ∷ as_bytes f.runtime_instance_id
    ∷ []

unfoldable pub aad_parts : OperationAad → List (List ℕ)
unfolding as_bytes fence_parts
aad_parts a =
    as_bytes a.operation_id
    ∷ as_bytes a.locator_hash
    ∷ as_bytes a.operation_kind
    ∷ as_bytes a.actor_id
    ∷ as_bytes a.bot_id
    ∷ fence_parts a.runtime_fence

-- `OperationAad::encode`
unfoldable pub encode : OperationAad → List ℕ
unfolding as_bytes to_be_bytes encode_parts aad_parts
encode a =
    as_bytes "im-bridge/operation-payload"
    ++ 0 ∷ (to_be_bytes 2 a.version ++ encode_parts (aad_parts a))
