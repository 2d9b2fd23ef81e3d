-- ===== src/Coordinator/Identity.antt =====
-- src/domain/locator.rs: which chats a locator hash stands for.
use im_bridge_rs.Common.{ℕ, ◌<◌, ◌^◌, String, List, [], ◌∷◌, ◌≡◌, as_bytes, length, All}
use im_bridge_rs.Operation.{encode_parts}
use im_bridge_rs.Operation.Framing.{encode_parts-injective}
use im_bridge_rs.Coordinator.{Platform, locator_hash}

-- The three parts of a locator that are hashed.
abbrev locator_parts : String → String → String → List (List ℕ)
locator_parts handle avatar chat_file = as_bytes handle ∷ as_bytes avatar ∷ as_bytes chat_file ∷ []

-- If SHA-256 does not collide on the encodings of two chats, they have the same locator hash only if
-- the bytes of their handles, their avatars and their chat files agree.
locator_hash-injective :
    {V : Type 0} (p : Platform V) (handle avatar chat_file handle' avatar' chat_file' : String)
    → (let x = encode_parts (locator_parts handle avatar chat_file) in
        let y = encode_parts (locator_parts handle' avatar' chat_file') in
        p.sha256_hex x ≡ p.sha256_hex y → x ≡ y)
    → All (λ b. length b < 256 ^ 8) (locator_parts handle avatar chat_file)
    → All (λ b. length b < 256 ^ 8) (locator_parts handle' avatar' chat_file')
    → locator_hash p handle avatar chat_file ≡ locator_hash p handle' avatar' chat_file'
    → locator_parts handle avatar chat_file ≡ locator_parts handle' avatar' chat_file'
unfolding locator_hash
locator_hash-injective p handle avatar chat_file handle' avatar' chat_file' sha s s' e =
    encode_parts-injective _ _ s s' (sha e)
