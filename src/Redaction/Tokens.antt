-- ===== src/Redaction/Tokens.antt =====
-- src/modules/bridge/redaction.rs: `redact_token_like`.
use im_bridge_rs.Common.{
  ℕ, ◌+◌, ◌-◌, Bool, false, Option, none, some, List, [], ◌∷◌, ◌&&◌, ◌||◌, ◌==◌, leb, if◌then◌else◌,
}
use im_bridge_rs.Redaction.Str.{
  Text, len_utf8, is_ascii_alphabetic, is_ascii_digit, is_ascii_alphanumeric, replace_ranges,
  redacted,
}

unfoldable pub token_character : ℕ → Bool
unfolding is_ascii_alphanumeric
token_character c = is_ascii_alphanumeric c || c == b'_' || c == b'-'

-- What the loop of `redact_token_like` keeps: `token_start`, `has_alpha` and `has_digit`.
pub record TokenScan : Type 0 where
  pub token_start : Option ℕ
  pub has_alpha : Bool
  pub has_digit : Bool

abbrev pub no_token : TokenScan
no_token = record { token_start = none; has_alpha = false; has_digit = false }

unfoldable pub begin_token : ℕ → TokenScan → TokenScan
begin_token index s = elim s.token_start [
  | none ↦ record { token_start = some index; has_alpha = false; has_digit = false }
  | some start ↦ s
]

unfoldable pub note_character : ℕ → TokenScan → TokenScan
unfolding is_ascii_alphabetic is_ascii_digit
note_character c s = record s {
  has_alpha = s.has_alpha || is_ascii_alphabetic c;
  has_digit = s.has_digit || is_ascii_digit c;
}

-- The range of the token that ends at an index, before the later ranges.
unfoldable pub end_token : ℕ → TokenScan → List (ℕ × ℕ) → List (ℕ × ℕ)
end_token index s later = elim s.token_start [
  | none ↦ later
  | some start ↦
      if leb 32 (index - start) && s.has_alpha && s.has_digit then (start, index) ∷ later else later
]

-- The loop, from an index on. At the end of the text comes the character '\0', which ends a token.
unfoldable pub token_ranges : Text → ℕ → TokenScan → List (ℕ × ℕ)
unfolding token_character begin_token note_character end_token len_utf8
token_ranges [] index s = end_token index s []
token_ranges (c ∷ t) index s =
    let inside = token_ranges t (index + len_utf8 c) (note_character c (begin_token index s)) in
    let outside = token_ranges t (index + len_utf8 c) (record s { token_start = none }) in
    if token_character c then inside else end_token index s outside

unfoldable pub redact_token_like : Text → Option Text
unfolding token_ranges replace_ranges
redact_token_like text = replace_ranges redacted (token_ranges text 0 no_token) text
