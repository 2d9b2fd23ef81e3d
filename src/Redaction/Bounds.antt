-- ===== src/Redaction/Bounds.antt =====
-- src/modules/bridge/redaction.rs: what a detail that is shown is like.
use im_bridge_rs.Common.{
  length-take, ◌≤◌, false, some, ◌≡◌, inl, inr, arith, length, take, Option-cases, Bool-cases,
}
use im_bridge_rs.Redaction.{
  Text, sensitive_keys, redact_keys, redact_url_userinfo, redact_token_like, redact_sensitive_paths,
  is_blank_text, lowered, is_private, finish, redact_detail, ◌>>=?◌,
}

finish_lem :
    (value v : Text)
    → finish value ≡ some v
    → (v ≡ take 300 value) × ((is_blank_text v ≡ false) × (is_private (lowered v) ≡ false))
unfolding finish is_private
finish_lem value v h = elim (Bool-cases (is_private (lowered (take 300 value)))) [
  | inl p ↦ absurd (ground (arith, h, p))
  | inr p ↦ elim (Bool-cases (is_blank_text (take 300 value))) [
    | inl b ↦ absurd (ground (arith, h, p, b))
    | inr b ↦
        let same : v ≡ take 300 value = ground (arith, h, p, b) in (same, (rw same b, rw same p))
  ]
]

-- A detail that is shown is that of a text which is not blank: it is the first 300 characters, or
-- less, of that text with its keys, URLs, tokens and paths redacted, has a character that is not white
-- space, and contains, in any case of its letters, none of the words of a prompt or a chat.
pub redact_detail_lem :
    (input v : Text)
    → redact_detail input ≡ some (some v)
    → (is_blank_text input ≡ false)
      × ((length v ≤ 300)
          × ((is_blank_text v ≡ false)
              × ((is_private (lowered v) ≡ false)
                  × ((value : Text) × (((redact_keys sensitive_keys input
                            >>=? redact_url_userinfo
                            >>=? redact_token_like
                            >>=? redact_sensitive_paths)
                          ≡ some value)
                        × (v ≡ take 300 value))))))
unfolding redact_detail
redact_detail_lem input v h = elim (Bool-cases (is_blank_text input)) [
  | inl b ↦ absurd (ground (arith, h, b))
  | inr b ↦
      elim (Option-cases (
        redact_keys sensitive_keys input
        >>=? redact_url_userinfo
        >>=? redact_token_like
        >>=? redact_sensitive_paths)) [
          | inl e ↦ absurd (ground (arith, h, b, e))
          | inr (value, e) ↦
              let (same, (shown, public)) = finish_lem value v (ground (arith, h, b, e)) in
              (b, (rw same (length-take 300 value), (shown, (public, (value, (e, same))))))
        ]
]
