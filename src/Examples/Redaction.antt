-- ===== src/Examples/Redaction.antt =====
-- The theorems on src/modules/bridge/redaction.rs, on a header, a token and two paths.
use im_bridge_rs.Common.{
  ◌<◌, ◌∷◌, ◌↔◌, ◌≤◌, false, some, none, is_whitespace, ◌≡◌, refl, arith, ◌++◌, length, take,
}
use im_bridge_rs.Redaction.{
  Text, codes, len, is_ascii_alphanumeric, is_ascii_alphabetic, is_ascii_digit, sensitive_keys,
  redact_keys, redact_url_userinfo, redact_token_like, redact_sensitive_paths, is_blank_text,
  is_private, lowered, redact_detail, ◌>>=?◌, is_path_boundary, is_unix_path, starts_with_any,
  strip_prefix,
}
use im_bridge_rs.Redaction.Termination.{redaction_ends}
use im_bridge_rs.Redaction.Secrecy.{has_secret, redact_token_like-has_secret}
use im_bridge_rs.Redaction.Bounds.{redact_detail_lem}
use im_bridge_rs.Redaction.Overlaps.{overlapping_paths_panic}

abbrev header : Text
header = codes "Cookie: a=1"

redaction_ends_example :
    (r : Text) × ((redact_keys sensitive_keys header
        >>=? redact_url_userinfo
        >>=? redact_token_like)
      ≡ some r)
redaction_ends_example = redaction_ends header

abbrev bearer : Text
bearer = codes "id abcdefghijklmnopqrstuvwxyz012345 end"

redact_token_like-has_secret_example :
    (r : Text) × ((redact_token_like bearer ≡ some r) × (has_secret r ≡ false))
redact_token_like-has_secret_example = redact_token_like-has_secret bearer

abbrev shown : Text
shown = codes "token=[REDACTED]"

redact_detail_lem_example :
    (is_blank_text (codes "token=abc") ≡ false)
    × ((length shown ≤ 300)
        × ((is_blank_text shown ≡ false)
            × ((is_private (lowered shown) ≡ false)
                × ((value : Text) × (((redact_keys sensitive_keys (codes "token=abc")
                          >>=? redact_url_userinfo
                          >>=? redact_token_like
                          >>=? redact_sensitive_paths)
                        ≡ some value)
                      × (shown ≡ take 300 value))))))
unfolding redact_detail codes is_whitespace
redact_detail_lem_example = redact_detail_lem (codes "token=abc") shown refl

overlapping_paths_panic_example :
    (redact_sensitive_paths (codes "/opt/bin" ++ b':' ∷ codes "/opt/lib/example/path") ≡ none)
    ↔ (15 < len (codes "/opt/lib/example/path"))
unfolding codes is_path_boundary is_unix_path starts_with_any strip_prefix is_ascii_alphanumeric
    is_ascii_alphabetic is_ascii_digit
overlapping_paths_panic_example =
    overlapping_paths_panic (codes "/opt/bin") (codes "/opt/lib/example/path") (ground arith)
      (ground arith) refl refl

-- A list of two directories, through the whole of `redact_detail`.
directories_panic : redact_detail (codes "/opt/bin:/opt/lib/example/path") ≡ none
unfolding redact_detail codes is_whitespace
directories_panic = refl
