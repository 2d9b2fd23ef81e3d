-- ===== src/Redaction/Termination.antt =====
-- src/modules/bridge/redaction.rs: the loops end, and no offset is outside the text or within a
-- character.
use im_bridge_rs.Common.{
  ℕ, zero, suc, ◌+◌, ◌≤◌, ◌<◌, some, List, [], ◌∷◌, ◌++◌, ◌≡◌, refl, inl, inr, arith, length,
  length-append, Option-cases, All, ◌==◌,
}
use im_bridge_rs.Redaction.{
  Text, codes, find, find_char, find_case_insensitive, to_ascii_lowercase, redact_values,
  redact_key_value, sensitive_keys, redact_keys, ends_authority, userinfo_round, redact_userinfo,
  redact_url_userinfo, redact_token_like, ◌>>=?◌,
}
use im_bridge_rs.Redaction.Scanning.{length-find_char, length-find}
use im_bridge_rs.Redaction.Values.{key_round-some}
use im_bridge_rs.Redaction.OnePass.{redact_token_like_lem, redact_from}

shorter :
    (text key skipped found after : Text)
    → find_case_insensitive text key ≡ some (skipped, (found, after))
    → length key + length after ≤ length text
unfolding find_case_insensitive
shorter text key skipped found after h =
    length-find (λ c d. to_ascii_lowercase c == to_ascii_lowercase d) key text h

redact_values-some :
    (fuel : ℕ) (key done text : Text)
    → 0 < length key
    → length text < fuel
    → (r : Text) × (redact_values fuel key done text ≡ some r)
unfolding redact_values
redact_values-some zero key done text k l = absurd (omega (arith, l))
redact_values-some (suc fuel) key done text k l =
    elim (Option-cases (find_case_insensitive text key)) [
      | inl e ↦ (done ++ text, ground (arith, e))
      | inr ((skipped, (found, after)), e) ↦
          let (r, (f, m)) = key_round-some key (done ++ skipped) found after in
          let (x, h) =
            redact_values-some fuel key (done ++ skipped ++ r.0) r.1 k
              (omega (arith, k, l, m, shorter text key skipped found after e)) in
          (x, ground (arith, e, f, h))
    ]

length-userinfo_round :
    (s : Text × Text) (tail : Text) → length (userinfo_round s tail).1 ≤ length s.1 + length tail
unfolding userinfo_round
length-userinfo_round (user, []) tail = omega arith
length-userinfo_round ([], at ∷ host) tail = omega arith
length-userinfo_round (u ∷ user, at ∷ host) tail = omega (arith, length-append host tail)

scheme_length : length (codes "://") ≡ 3
unfolding codes
scheme_length = refl

redact_userinfo-some :
    (fuel : ℕ) (done text : Text)
    → length text < fuel
    → (r : Text) × (redact_userinfo fuel done text ≡ some r)
unfolding redact_userinfo
redact_userinfo-some zero done text l = absurd (omega (arith, l))
redact_userinfo-some (suc fuel) done text l = elim (Option-cases (find ◌==◌ (codes "://") text)) [
  | inl e ↦ (done ++ text, ground (arith, e))
  | inr ((before, (scheme, after)), e) ↦
      let authority = find_char ends_authority after in
      let split = find_char (λ c. c == b'@') authority.0 in
      let round = userinfo_round split authority.1 in
      let (x, h) = redact_userinfo-some fuel (done ++ before ++ scheme ++ round.0) round.1 (
        omega (
          arith,
          l,
          scheme_length,
          length-find ◌==◌ (codes "://") text e,
          length-find_char ends_authority after,
          length-find_char (λ c. c == b'@') authority.0,
          length-userinfo_round split authority.1,
        )) in
      (x, ground (arith, e, h))
]

redact_keys-some :
    (keys : List Text) (text : Text)
    → All (λ key. 0 < length key) keys
    → (r : Text) × (redact_keys keys text ≡ some r)
unfolding redact_keys redact_key_value
redact_keys-some [] text k = (text, refl)
redact_keys-some (key ∷ keys) text k =
    let (changed, h) = redact_values-some (suc (length text)) key [] text k.0 (omega arith) in
    let (r, i) = redact_keys-some keys changed k.1 in (r, ground (arith, h, i))

keys_named : All (λ key. 0 < length key) sensitive_keys
unfolding codes
keys_named = ground arith

-- For every text, the redaction of all sensitive keys, then of URLs and then of tokens ends: each loop
-- within one round more than its text has characters, and without a panic.
pub redaction_ends :
    (text : Text)
    → (r : Text) × ((redact_keys sensitive_keys text
          >>=? redact_url_userinfo
          >>=? redact_token_like)
        ≡ some r)
unfolding redact_url_userinfo
redaction_ends text =
    let (keyless, h) = redact_keys-some sensitive_keys text keys_named in
    let (urls, i) = redact_userinfo-some (suc (length keyless)) [] keyless (omega arith) in
    (redact_from [] urls, rw (h, i) (redact_token_like_lem urls))
