-- ===== src/Redaction/Keys.antt =====
-- src/modules/bridge/redaction.rs: `redact_key_value`. The offset of the loop splits the text into
-- what is done and the rest; each round leaves less of the rest.
use im_bridge_rs.Common.{
  ℕ, zero, suc, Bool, true, false, not, Option, none, some, List, [], ◌∷◌, ◌++◌, ◌&&◌, ◌||◌, ◌==◌,
  is_whitespace, length, if◌then◌else◌,
}
use im_bridge_rs.Redaction.Str.{
  Text, codes, len_utf8, is_ascii_alphanumeric, eq_ignore_ascii_case, any_of, find_char,
  find_case_insensitive, redacted,
}

abbrev pub sensitive_keys : List Text
sensitive_keys =
    codes "authorization"
    ∷ codes "cookie"
    ∷ codes "x-csrf-token"
    ∷ codes "csrf-token"
    ∷ codes "csrf_token"
    ∷ codes "csrf"
    ∷ codes "bot-token"
    ∷ codes "bot_token"
    ∷ codes "bot token"
    ∷ codes "api-key"
    ∷ codes "api key"
    ∷ codes "api_key"
    ∷ codes "apikey"
    ∷ codes "access-token"
    ∷ codes "access_token"
    ∷ codes "provider-key"
    ∷ codes "provider_key"
    ∷ codes "password"
    ∷ codes "token"
    ∷ codes "secret"
    ∷ []

is_word_character : ℕ → Bool
unfolding is_ascii_alphanumeric
is_word_character c = is_ascii_alphanumeric c || c == b'_'

ends_in_word : Text → Bool
unfolding is_word_character
ends_in_word [] = false
ends_in_word (c ∷ []) = is_word_character c
ends_in_word (c ∷ d ∷ t) = ends_in_word (d ∷ t)

starts_in_word : Text → Bool
unfolding is_word_character
starts_in_word [] = false
starts_in_word (c ∷ t) = is_word_character c

-- `is_key_boundary`, of the text before the key and the text after it
unfoldable pub is_key_boundary : Text → Text → Bool
unfolding ends_in_word starts_in_word
is_key_boundary before after = not (ends_in_word before) && not (starts_in_word after)

-- `skip_whitespace`: what is skipped, and the rest
unfoldable pub skip_whitespace : Text → Text × Text
unfolding find_char
skip_whitespace t = find_char (λ c. not (is_whitespace c)) t

abbrev pub is_quote : ℕ → Bool
is_quote c = c == b'"' || c == b'\''

-- A quote, if the text begins with one, and the rest.
unfoldable pub take_quote : Text → Option ℕ × Text
take_quote [] = (none, [])
take_quote (c ∷ t) = if is_quote c then (some c, t) else (none, c ∷ t)

abbrev pub quote_text : Option ℕ → Text
quote_text none = []
quote_text (some c) = c ∷ []

-- What leads to a value, the quote before the value, and the text from the value on.
pub record ValueStart : Type 0 where
  pub lead : Text
  pub value_quote : Option ℕ
  pub from_value : Text

-- `locate_value_start` from the delimiter on
unfoldable pub after_delimiter : Text → Text → Option ValueStart
unfolding skip_whitespace take_quote
after_delimiter lead [] = none
after_delimiter lead (c ∷ t) =
    let (blank, rest) = skip_whitespace t in
    let (quote, value) = take_quote rest in
    if c == b':' || c == b'='
    then some (record {
      lead = lead ++ c ∷ blank ++ quote_text quote;
      value_quote = quote;
      from_value = value;
    })
    else none

unfoldable pub closing_blank : Option ℕ → Text → Text × Text
unfolding skip_whitespace
closing_blank none t = ([], t)
closing_blank (some quote) t = skip_whitespace t

unfoldable pub locate_value_start : Text → Option ValueStart
unfolding skip_whitespace take_quote closing_blank after_delimiter
locate_value_start t =
    let (blank, rest) = skip_whitespace t in
    let (quote, unquoted) = take_quote rest in
    let (blank', delimited) = closing_blank quote unquoted in
    after_delimiter (blank ++ quote_text quote ++ blank') delimited

unfoldable pub ends_unquoted : ℕ → Bool
unfolding any_of
ends_unquoted c =
    is_whitespace c || any_of (b',' ∷ b';' ∷ b'&' ∷ b'#' ∷ b'}' ∷ b']' ∷ b'"' ∷ b'\'' ∷ []) c

-- The `scan_` functions: the value, and the text from its end on.
unfoldable pub scan_unquoted_end : Text → Text × Text
unfolding find_char ends_unquoted
scan_unquoted_end t = find_char ends_unquoted t

unfoldable pub scan_line_end : Text → Text × Text
unfolding find_char any_of
scan_line_end t = find_char (any_of (13 ∷ 10 ∷ [])) t

unfoldable pub scan_quoted_end : ℕ → Bool → Text → Text × Text
scan_quoted_end quote escaped [] = ([], [])
scan_quoted_end quote true (c ∷ t) =
    let (value, rest) = scan_quoted_end quote false t in (c ∷ value, rest)
scan_quoted_end quote false (c ∷ t) =
    let (value, rest) = scan_quoted_end quote (c == b'\\') t in
    if c == b'\\' then (c ∷ value, rest) else if c == quote then ([], c ∷ t) else (c ∷ value, rest)

-- `authorization_value_end`, of the value up to its first end and the text from there on
unfoldable pub authorization_value_end : Text × Text → Text × Text
unfolding skip_whitespace scan_unquoted_end eq_ignore_ascii_case
authorization_value_end (scheme, rest) =
    let (blank, credential_text) = skip_whitespace rest in
    let (credential, after) = scan_unquoted_end credential_text in
    if not (eq_ignore_ascii_case scheme (codes "bearer"))
      && not (eq_ignore_ascii_case scheme (codes "basic"))
    then (scheme, rest)
    else elim credential [ [] ↦ (scheme, rest) | c ∷ cs ↦ (scheme ++ blank ++ c ∷ cs, after) ]

-- `value_end`: the value, and the text from its end on
unfoldable pub value_split : Text → Option ℕ → Text → Text × Text
unfolding scan_quoted_end scan_line_end scan_unquoted_end authorization_value_end
value_split key (some quote) t = scan_quoted_end quote false t
value_split key none t =
    if eq_ignore_ascii_case key (codes "cookie")
    then scan_line_end t
    else if eq_ignore_ascii_case key (codes "authorization")
    then authorization_value_end (scan_unquoted_end t)
    else scan_unquoted_end t

-- `search_offset = value_start + 1`: what is skipped, and the rest. At the end of the text the loop
-- ends; within a character the next slice of the text panics.
unfoldable pub skip_byte : Text → Option (Text × Text)
unfolding len_utf8
skip_byte [] = some ([], [])
skip_byte (c ∷ t) = if len_utf8 c == 1 then some (c ∷ [], t) else none

-- What a round adds to the part that is done, and the rest after it: of a value and the text after it.
unfoldable pub value_round : Text × Text → Option (Text × Text)
unfolding skip_byte
value_round ([], rest) = skip_byte rest
value_round (c ∷ value, rest) = some (redacted, rest)

-- A round, of the text before the key, the key as it stands there, and the text after it.
unfoldable pub key_round : Text → Text → Text → Text → Option (Text × Text)
unfolding is_key_boundary locate_value_start value_round value_split
key_round key before found after =
    if not (is_key_boundary before after)
    then some (found, after)
    else elim (locate_value_start after) [
      | none ↦ some (found, after)
      | some v ↦ elim (value_round (value_split key v.value_quote v.from_value)) [
        | none ↦ none
        | some (added, rest) ↦ some (found ++ v.lead ++ added, rest)
      ]
    ]

unfoldable pub redact_values : ℕ → Text → Text → Text → Option Text
unfolding find_case_insensitive key_round
redact_values zero key done text = none
redact_values (suc fuel) key done text = elim (find_case_insensitive text key) [
  | none ↦ some (done ++ text)
  | some (skipped, (found, after)) ↦ elim (key_round key (done ++ skipped) found after) [
    | none ↦ none
    | some (added, rest) ↦ redact_values fuel key (done ++ skipped ++ added) rest
  ]
]

unfoldable pub redact_key_value : Text → Text → Option Text
unfolding redact_values
redact_key_value text key = redact_values (suc (length text)) key [] text
