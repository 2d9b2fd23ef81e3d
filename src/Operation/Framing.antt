-- ===== src/Operation/Framing.antt =====
-- The framing of src/modules/bridge/operations.rs and src/domain/locator.rs: length-prefixed parts.
use native.Mathlib.Nat.{div-div-eq-div-mul}
use native.Mathlib.Numerals.{unary_clauses}
use im_bridge_rs.Common.{
  ℕ, ◌<◌, List, [], ◌∷◌, ◌++◌, ◌≡◌, refl, sym, ◌∙◌, ap, arith, to_be_bytes, as_bytes, length, All,
  ◌/◌, ◌%◌, ◌^◌, zero, suc,
}
use im_bridge_rs.Operation.Aad.{OperationAad, encode_part, encode_parts, aad_parts, encode}

append_assoc : {A : Type 0} (xs ys zs : List A) → (xs ++ ys) ++ zs ≡ xs ++ (ys ++ zs)
append_assoc [] ys zs = refl
append_assoc (x ∷ xs) ys zs = ap (λ r. x ∷ r) (append_assoc xs ys zs)

append-split :
    {A : Type 0} (a b x y : List A) → length a ≡ length b → a ++ x ≡ b ++ y → (a ≡ b) × (x ≡ y)
append-split [] [] x y l e = (refl, e)
append-split [] (b ∷ bs) x y l e = cc (l)
append-split (a ∷ xs) [] x y l e = cc (l)
append-split (a ∷ xs) (b ∷ bs) x y l e =
    let (same, rest) = append-split xs bs x y (omega (arith, l)) (cc (e)) in (cc (e, same), rest)

length-to_be_bytes : (w n : ℕ) → length (to_be_bytes w n) ≡ w
unfolding to_be_bytes
length-to_be_bytes zero n = refl
length-to_be_bytes (suc w) n = ap suc (length-to_be_bytes w n)

byte_step : (m n : ℕ) → m / 256 ≡ n / 256 → m % 256 ≡ n % 256 → m ≡ n
byte_step m n d r = omega (arith, d, r)

shift : (w n : ℕ) → n / 256 ^ w / 256 ≡ n / 256 ^ suc w
shift w n = simp unary_clauses (div-div-eq-div-mul n (256 ^ w) 256)

-- The bytes of a number, and what lies above them, determine it.
to_be_bytes-injective :
    (w m n : ℕ) → to_be_bytes w m ≡ to_be_bytes w n → m / 256 ^ w ≡ n / 256 ^ w → m ≡ n
unfolding to_be_bytes
to_be_bytes-injective zero m n e d = omega (arith, d)
to_be_bytes-injective (suc w) m n e d =
    to_be_bytes-injective w m n (cc (e))
      (byte_step (m / 256 ^ w) (n / 256 ^ w) (shift w m ∙ d ∙ sym (shift w n)) (cc (e)))

length_bytes-injective :
    (m n : ℕ) → m < 256 ^ 8 → n < 256 ^ 8 → to_be_bytes 8 m ≡ to_be_bytes 8 n → m ≡ n
length_bytes-injective m n hm hn e = to_be_bytes-injective 8 m n e (omega (arith, hm, hn))

encode_part-split :
    (p q x y : List ℕ)
    → length p < 256 ^ 8
    → length q < 256 ^ 8
    → encode_part p ++ x ≡ encode_part q ++ y
    → (p ≡ q) × (x ≡ y)
unfolding encode_part
encode_part-split p q x y hp hq e =
    let (head, rest) =
      append-split (to_be_bytes 8 (length p)) (to_be_bytes 8 (length q)) (p ++ x) (q ++ y)
        (length-to_be_bytes 8 (length p) ∙ sym (length-to_be_bytes 8 (length q)))
        (sym (append_assoc (to_be_bytes 8 (length p)) p x)
          ∙ e
          ∙ append_assoc (to_be_bytes 8 (length q)) q y) in
    append-split p q x y (length_bytes-injective (length p) (length q) hp hq head) rest

-- Two lists of parts, each shorter than 2 ^ 64 bytes, have the same encoding only if they are the
-- same list.
pub encode_parts-injective :
    (ps qs : List (List ℕ))
    → All (λ p. length p < 256 ^ 8) ps
    → All (λ q. length q < 256 ^ 8) qs
    → encode_parts ps ≡ encode_parts qs
    → ps ≡ qs
unfolding encode_parts encode_part to_be_bytes
encode_parts-injective [] [] hp hq e = refl
encode_parts-injective [] (q ∷ qs) hp hq e = absurd (cc e)
encode_parts-injective (p ∷ ps) [] hp hq e = absurd (cc e)
encode_parts-injective (p ∷ ps) (q ∷ qs) hp hq e =
    let (same, rest) = encode_part-split p q (encode_parts ps) (encode_parts qs) hp.0 hq.0 e in
    cc (same, encode_parts-injective ps qs hp.1 hq.1 rest)

-- The parts of an operation's authenticated data are short enough for their length fields.
abbrev pub IsShort : OperationAad → Type 0
IsShort a = All (λ p. length p < 256 ^ 8) (aad_parts a)

-- Two operations have the same authenticated data only if the version and every part agree: the
-- bytes of the operation id, the locator hash, the kind, the actor, the bot and the fence's fields,
-- and whether there is a fence.
pub encode-injective :
    (a b : OperationAad)
    → a.version < 2 ^ 16
    → b.version < 2 ^ 16
    → IsShort a
    → IsShort b
    → encode a ≡ encode b
    → (a.version ≡ b.version) × (aad_parts a ≡ aad_parts b)
unfolding encode
encode-injective a b va vb sa sb e =
    let tag = as_bytes "im-bridge/operation-payload" in
    let (_, framed) =
      append-split tag tag (0 ∷ (to_be_bytes 2 a.version ++ encode_parts (aad_parts a)))
        (0 ∷ (to_be_bytes 2 b.version ++ encode_parts (aad_parts b))) refl e in
    let (head, rest) =
      append-split (to_be_bytes 2 a.version) (to_be_bytes 2 b.version) (encode_parts (aad_parts a))
        (encode_parts (aad_parts b))
        (length-to_be_bytes 2 a.version ∙ sym (length-to_be_bytes 2 b.version)) (cc framed) in
    (
      to_be_bytes-injective 2 a.version b.version head (omega (arith, va, vb)),
      encode_parts-injective (aad_parts a) (aad_parts b) sa sb rest,
    )
