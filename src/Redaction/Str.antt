-- ===== src/Redaction/Str.antt =====
-- What src/modules/bridge/redaction.rs uses of `str` and `char`. A text is the list of its code
-- points, and none is a panic: an offset outside the text or within a character.
use Prim.Native.Char.{code}
use mathlib.Core.Option.{Option, none, some, map}
use im_bridge_rs.Common.{
  ℕ, ◌+◌, ◌-◌, String, Bool, true, false, List, [], ◌∷◌, ◌++◌, ◌&&◌, ◌||◌, ltb, leb, ◌==◌,
  if◌then◌else◌, utf8_char, length,
}

abbrev pub Text : Type 0
Text = List ℕ

unfoldable pub codes : String → Text
codes String.[] = []
codes (String.◌∷◌ c s) = code c ∷ codes s

-- `char::len_utf8`
unfoldable pub len_utf8 : ℕ → ℕ
unfolding utf8_char
len_utf8 c = length (utf8_char c)

-- `str::len`
unfoldable pub len : Text → ℕ
unfolding len_utf8
len [] = 0
len (c ∷ t) = len_utf8 c + len t

unfoldable pub is_ascii_digit : ℕ → Bool
is_ascii_digit c = leb b'0' c && leb c b'9'

is_ascii_lowercase : ℕ → Bool
is_ascii_lowercase c = leb b'a' c && leb c b'z'

unfoldable pub is_ascii_uppercase : ℕ → Bool
is_ascii_uppercase c = leb b'A' c && leb c b'Z'

unfoldable pub is_ascii_alphabetic : ℕ → Bool
unfolding is_ascii_lowercase is_ascii_uppercase
is_ascii_alphabetic c = is_ascii_lowercase c || is_ascii_uppercase c

unfoldable pub is_ascii_alphanumeric : ℕ → Bool
unfolding is_ascii_alphabetic is_ascii_digit
is_ascii_alphanumeric c = is_ascii_alphabetic c || is_ascii_digit c

unfoldable pub to_ascii_lowercase : ℕ → ℕ
unfolding is_ascii_uppercase
to_ascii_lowercase c = if is_ascii_uppercase c then c + 32 else c

-- `eq_ignore_ascii_case`
unfoldable pub eq_ignore_ascii_case : Text → Text → Bool
unfolding to_ascii_lowercase
eq_ignore_ascii_case [] [] = true
eq_ignore_ascii_case (c ∷ s) (d ∷ t) =
    to_ascii_lowercase c == to_ascii_lowercase d && eq_ignore_ascii_case s t
eq_ignore_ascii_case _ _ = false

-- `matches!` of a character
unfoldable pub any_of : List ℕ → ℕ → Bool
any_of [] c = false
any_of (d ∷ ds) c = c == d || any_of ds c

-- The characters before the first that passes the test, and the rest.
unfoldable pub find_char : (ℕ → Bool) → Text → Text × Text
find_char p [] = ([], [])
find_char p (c ∷ t) = let (a, b) = find_char p t in if p c then ([], c ∷ t) else (c ∷ a, b)

-- The prefix of a text as long as the pattern, if they agree, and the rest.
module _ (same : ℕ → ℕ → Bool) where
  unfoldable pub strip_prefix : Text → Text → Option (Text × Text)
  strip_prefix [] t = some ([], t)
  strip_prefix (d ∷ ds) [] = none
  strip_prefix (d ∷ ds) (c ∷ t) =
      let rest = strip_prefix ds t in if same c d then map (λ r. (c ∷ r.0, r.1)) rest else none

  -- The text before the first match of a pattern, the match, and the rest.
  unfoldable pub find : Text → Text → Option (Text × (Text × Text))
  unfolding strip_prefix
  find pattern [] = none
  find pattern (c ∷ t) =
      let later = find pattern t in
      elim (strip_prefix pattern (c ∷ t)) [
        | some (m, rest) ↦ some ([], (m, rest))
        | none ↦ map (λ r. (c ∷ r.0, r.1)) later
      ]

-- `find_case_insensitive`
unfoldable pub find_case_insensitive : Text → Text → Option (Text × (Text × Text))
unfolding find to_ascii_lowercase
find_case_insensitive haystack needle =
    find (λ c d. to_ascii_lowercase c == to_ascii_lowercase d) needle haystack

-- `text[..n]` and `text[n..]`
unfoldable pub split_at : ℕ → Text → Option (Text × Text)
unfolding len_utf8
split_at n [] = if n == 0 then some ([], []) else none
split_at n (c ∷ t) =
    let rest = split_at (n - len_utf8 c) t in
    if n == 0
    then some ([], c ∷ t)
    else if ltb n (len_utf8 c)
    then none
    else map (λ r. (c ∷ r.0, r.1)) rest

replaced : Text → Text → Option (Text × Text) → Option Text
replaced before replacement none = none
replaced before replacement (some (cut, after)) = some (before ++ replacement ++ after)

-- `replace_range(start..end, replacement)`
unfoldable pub replace_range : ℕ → ℕ → Text → Text → Option Text
unfolding split_at replaced
replace_range start end replacement text = elim (split_at start text) [
  | none ↦ none
  | some (before, rest) ↦
      if ltb end start then none else replaced before replacement (split_at (end - start) rest)
]

-- `for (start, end) in ranges.into_iter().rev() {text.replace_range(start..end, replacement) }`
unfoldable pub replace_ranges : Text → List (ℕ × ℕ) → Text → Option Text
unfolding replace_range
replace_ranges replacement [] text = some text
replace_ranges replacement ((start, end) ∷ ranges) text =
    elim (replace_ranges replacement ranges text) [
      | none ↦ none
      | some changed ↦ replace_range start end replacement changed
    ]

abbrev pub redacted : Text
redacted = codes "[REDACTED]"

abbrev pub path_redacted : Text
path_redacted = codes "[PATH_REDACTED]"
