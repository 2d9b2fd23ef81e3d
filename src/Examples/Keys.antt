-- ===== src/Examples/Keys.antt =====
-- The theorem on the keys of src/modules/bridge/operation_payload.rs, on an operation that is new.
use im_bridge_rs.Common.{ℕ, String, some, List, [], ◌∷◌, ◌≡◌, refl, arith, pos, is_blank}
use im_bridge_rs.Errors.{ok}
use im_bridge_rs.Operation.{EncryptedOperationPayload, OperationAad, new_aad}
use im_bridge_rs.Store.{World, Statement, insert_key_ref, run_all, find_key_ref}
use im_bridge_rs.Store.Invariant.{empty_db}
use im_bridge_rs.Coordinator.{
  Platform, KeyPlatform, OperationPayloadEncryptor, for_operation, restore_for_operation, encrypt,
  decrypt,
}
use im_bridge_rs.Coordinator.KeyRestoring.{sealed_payload_opens}
use im_bridge_rs.Examples.Data.{platform}

abbrev dek : List ℕ
dek =
    1 ∷ 2 ∷ 3 ∷ 4 ∷ 5 ∷ 6 ∷ 7 ∷ 8 ∷ 9 ∷ 10 ∷ 11 ∷ 12 ∷ 13 ∷ 14 ∷ 15 ∷ 16 ∷ 17 ∷ 18 ∷ 19 ∷ 20 ∷ 21
    ∷ 22 ∷ 23 ∷ 24 ∷ 25 ∷ 26 ∷ 27 ∷ 28 ∷ 29 ∷ 30 ∷ 31 ∷ 32 ∷ []

abbrev keeping : Platform String
keeping = record platform { vault_get = λ id. ok dek }

abbrev keys : KeyPlatform
keys = record {
  vault_put = λ label kind secret. ok "secret";
  seal = λ key nonce extra text. some text;
  random_dek = dek;
  random_nonce = [];
}

abbrev new_key : OperationPayloadEncryptor
new_key = record { operation_dek = dek; key_version = 1; wrapped_secret_id = some "secret" }

abbrev before : World
before = record { db = empty_db; turns = []; dispatched = [] }

abbrev further : List Statement
further =
    insert_key_ref (record { operation_id = "op"; wrapped_secret_id = "x"; key_version = pos 1 })
    ∷ []

abbrev after : World
after = record before { db = run_all further (for_operation keeping keys 1 "op" before).1.db }

abbrev data_of_op : OperationAad
data_of_op = new_aad "op" "hash" "create" "actor" "bot"

abbrev sealed_text : EncryptedOperationPayload
sealed_text = record { ciphertext = 7 ∷ []; nonce = []; key_version = 1 }

sealed_payload_opens_example :
    ((restore_for_operation keeping "op" after).0 ≡ ok new_key)
    × (decrypt keeping new_key sealed_text data_of_op ≡ ok (7 ∷ []))
unfolding for_operation encrypt find_key_ref is_blank new_aad
sealed_payload_opens_example =
    sealed_payload_opens keeping keys refl (λ label kind id h. refl) "op" 1 new_key before after
      further (7 ∷ []) data_of_op sealed_text (λ key nonce extra text cipher h. cc) (omega arith)
      refl refl refl refl
