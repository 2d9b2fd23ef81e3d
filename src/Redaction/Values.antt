-- ===== src/Redaction/Values.antt =====
-- src/modules/bridge/redaction.rs: where a value starts and ends, and a round of `redact_key_value`.
use im_bridge_rs.Common.{
  ℕ, ◌≤◌, ◌<◌, Bool, true, false, not, Option, none, some, [], ◌∷◌, ◌++◌, ◌≡◌, ◌≢◌, refl, ◌⊎◌, inl,
  inr, arith, length, Option-cases, Bool-cases, ◌==◌, ◌&&◌, is_whitespace, utf8_char,
}
use im_bridge_rs.Redaction.{
  Text, codes, len_utf8, any_of, find_char, eq_ignore_ascii_case, skip_whitespace, is_quote,
  take_quote, ValueStart, after_delimiter, locate_value_start, ends_unquoted, scan_unquoted_end,
  scan_line_end, scan_quoted_end, authorization_value_end, value_split, skip_byte, redacted,
  value_round, key_round, is_key_boundary, closing_blank,
}
use im_bridge_rs.Redaction.Scanning.{length-find_char}

-- A value begins after a quote, or not with white space.
unfoldable pub is_start : Option ℕ → Text → Bool
is_start (some quote) t = is_quote quote
is_start none [] = true
is_start none (c ∷ t) = not (is_whitespace c)

take_quote-is_start :
    (t : Text)
    → is_start none t ≡ true
    → (is_start (take_quote t).0 (take_quote t).1 ≡ true) × (length (take_quote t).1 ≤ length t)
unfolding take_quote is_start
take_quote-is_start [] s = (refl, omega arith)
take_quote-is_start (c ∷ t) s = elim (Bool-cases (is_quote c)) [
  | inl q ↦ rw q (q, omega arith)
  | inr q ↦ rw q (s, omega arith)
]

length-take_quote : (t : Text) → length (take_quote t).1 ≤ length t
unfolding take_quote
length-take_quote [] = omega arith
length-take_quote (c ∷ t) = elim (Bool-cases (is_quote c)) [
  | inl q ↦ rw q (omega arith)
  | inr q ↦ rw q (omega arith)
]

pub skip_whitespace-is_start : (t : Text) → is_start none (skip_whitespace t).1 ≡ true
unfolding skip_whitespace find_char is_start
skip_whitespace-is_start [] = refl
skip_whitespace-is_start (c ∷ t) = elim (Bool-cases (is_whitespace c)) [
  | inl w ↦ rw w (skip_whitespace-is_start t)
  | inr w ↦ rw (w, w) refl
]

pub length-skip_whitespace : (t : Text) → length (skip_whitespace t).1 ≤ length t
unfolding skip_whitespace
length-skip_whitespace t = omega (arith, length-find_char (λ c. not (is_whitespace c)) t)

after_delimiter_lem :
    (lead t : Text) (v : ValueStart)
    → after_delimiter lead t ≡ some v
    → (is_start v.value_quote v.from_value ≡ true) × (length v.from_value ≤ length t)
unfolding after_delimiter
after_delimiter_lem lead [] v h = absurd (cc h)
after_delimiter_lem lead (c ∷ t) v h =
    let (s, l) = take_quote-is_start (skip_whitespace t).1 (skip_whitespace-is_start t) in
    (ground (arith, h, s), ground (arith, h, l, length-skip_whitespace t))

length-closing_blank : (q : Option ℕ) (t : Text) → length (closing_blank q t).1 ≤ length t
unfolding closing_blank
length-closing_blank none t = omega arith
length-closing_blank (some c) t = length-skip_whitespace t

pub locate_value_start_lem :
    (t : Text) (v : ValueStart)
    → locate_value_start t ≡ some v
    → (is_start v.value_quote v.from_value ≡ true) × (length v.from_value ≤ length t)
unfolding locate_value_start
locate_value_start_lem t v h =
    let rest = (skip_whitespace t).1 in
    let unquoted = (take_quote rest).1 in
    let (s, l) = after_delimiter_lem _ (closing_blank (take_quote rest).0 unquoted).1 v h in
    (
      s,
      omega (
        arith,
        l,
        length-skip_whitespace t,
        length-take_quote rest,
        length-closing_blank (take_quote rest).0 unquoted,
      ),
    )

ascii_lem : (c : ℕ) → c < 128 → len_utf8 c ≡ 1
unfolding len_utf8 utf8_char
ascii_lem c h = ground arith

quote-ascii : (c : ℕ) → is_quote c ≡ true → c < 128
quote-ascii c h = ground arith

ends_unquoted-ascii : (c : ℕ) → ends_unquoted c ≡ true → is_whitespace c ≡ false → c < 128
unfolding ends_unquoted any_of
ends_unquoted-ascii c h w = ground (arith, w)

line-ascii : (c : ℕ) → any_of (13 ∷ 10 ∷ []) c ≡ true → c < 128
unfolding any_of
line-ascii c h = ground arith

-- The text is empty or begins with a character of one byte.
unfoldable pub is_skippable : Text → Bool
is_skippable [] = true
is_skippable (c ∷ t) = len_utf8 c == 1

-- If a value is empty, then the loop can skip a byte after it.
abbrev IsSplit : Text → Text × Text → Type 0
IsSplit t (value, rest) = (length rest ≤ length t) × ((value ≢ []) ⊎ (is_skippable rest ≡ true))

skippable : (c : ℕ) (t : Text) → c < 128 → is_skippable (c ∷ t) ≡ true
unfolding is_skippable
skippable c t h = ground (arith, ascii_lem c h)

length-scan_quoted_end :
    (q : ℕ) (escaped : Bool) (t : Text) → length (scan_quoted_end q escaped t).1 ≤ length t
unfolding scan_quoted_end
length-scan_quoted_end q escaped [] = omega arith
length-scan_quoted_end q true (c ∷ t) = omega (arith, length-scan_quoted_end q false t)
length-scan_quoted_end q false (c ∷ t) = ground (arith, length-scan_quoted_end q (c == b'\\') t)

scan_quoted_end-IsSplit :
    (q : ℕ) (t : Text) → is_quote q ≡ true → IsSplit t (scan_quoted_end q false t)
unfolding scan_quoted_end is_skippable
scan_quoted_end-IsSplit q [] i = (omega arith, inr refl)
scan_quoted_end-IsSplit q (c ∷ t) i = elim (Bool-cases (c == b'\\')) [
  | inl b ↦ rw b (omega (arith, length-scan_quoted_end q true t), inl (λ h. cc h))
  | inr b ↦ elim (Bool-cases (c == q)) [
    | inl e ↦ rw (b, e) (omega arith, inr (skippable c t (ground (arith, e, quote-ascii q i))))
    | inr e ↦ rw (b, e) (omega (arith, length-scan_quoted_end q false t), inl (λ h. cc h))
  ]
]

scan_unquoted_end-IsSplit : (t : Text) → is_start none t ≡ true → IsSplit t (scan_unquoted_end t)
unfolding scan_unquoted_end find_char is_start is_skippable
scan_unquoted_end-IsSplit [] s = (omega arith, inr refl)
scan_unquoted_end-IsSplit (c ∷ t) s = elim (Bool-cases (ends_unquoted c)) [
  | inl e ↦ rw e (omega arith, inr (skippable c t (ends_unquoted-ascii c e (ground (arith, s)))))
  | inr e ↦ rw e (omega (arith, length-find_char ends_unquoted t), inl (λ h. cc h))
]

scan_line_end-IsSplit : (t : Text) → IsSplit t (scan_line_end t)
unfolding scan_line_end find_char is_skippable
scan_line_end-IsSplit [] = (omega arith, inr refl)
scan_line_end-IsSplit (c ∷ t) = elim (Bool-cases (any_of (13 ∷ 10 ∷ []) c)) [
  | inl e ↦ rw e (omega arith, inr (skippable c t (line-ascii c e)))
  | inr e ↦ rw e (omega (arith, length-find_char (any_of (13 ∷ 10 ∷ [])) t), inl (λ h. cc h))
]

append-not-nil : (s : Text) (c : ℕ) (t : Text) → s ++ c ∷ t ≢ []
append-not-nil [] c t = λ h. cc h
append-not-nil (d ∷ s) c t = λ h. cc h

with_credential :
    (t scheme rest blank : Text) (s : Text × Text)
    → IsSplit t (scheme, rest)
    → length s.1 ≤ length t
    → IsSplit t (elim s.0 [ [] ↦ (scheme, rest) | c ∷ cs ↦ (scheme ++ blank ++ c ∷ cs, s.1) ])
with_credential t scheme rest blank ([], after) i l = i
with_credential t scheme rest blank (c ∷ cs, after) i l =
    (l, inl (append-not-nil (scheme ++ blank) c cs))

authorization_value_end-IsSplit :
    (t : Text) (s : Text × Text) → IsSplit t s → IsSplit t (authorization_value_end s)
unfolding authorization_value_end scan_unquoted_end
authorization_value_end-IsSplit t (scheme, rest) (l, v) =
    elim (Bool-cases (
      not (eq_ignore_ascii_case scheme (codes "bearer"))
      && not (eq_ignore_ascii_case scheme (codes "basic")))) [
        | inl e ↦ rw e (l, v)
        | inr e ↦
            let found = skip_whitespace rest in
            rw e (
              with_credential t scheme rest found.0 (find_char ends_unquoted found.1) (l, v)
                (omega
                  (arith, l, length-skip_whitespace rest, length-find_char ends_unquoted found.1)))
      ]

pub value_split-IsSplit :
    (key : Text) (q : Option ℕ) (t : Text) → is_start q t ≡ true → IsSplit t (value_split key q t)
unfolding value_split is_start
value_split-IsSplit key (some q) t s = scan_quoted_end-IsSplit q t s
value_split-IsSplit key none t s = elim (Bool-cases (eq_ignore_ascii_case key (codes "cookie"))) [
  | inl c ↦ rw c (scan_line_end-IsSplit t)
  | inr c ↦ elim (Bool-cases (eq_ignore_ascii_case key (codes "authorization"))) [
    | inl a ↦
        rw (c, a)
          (authorization_value_end-IsSplit t (scan_unquoted_end t) (scan_unquoted_end-IsSplit t s))
    | inr a ↦ rw (c, a) (scan_unquoted_end-IsSplit t s)
  ]
]

value_round-some :
    (t : Text) (s : Text × Text)
    → IsSplit t s
    → (r : Text × Text) × ((value_round s ≡ some r) × (length r.1 ≤ length t))
unfolding value_round skip_byte is_skippable
value_round-some t (c ∷ value, rest) (l, v) = ((redacted, rest), (refl, l))
value_round-some t ([], []) (l, v) = (([], []), (refl, l))
value_round-some t ([], c ∷ rest) (l, inl v) = absurd (v refl)
value_round-some t ([], c ∷ rest) (l, inr v) = ((c ∷ [], rest), (rw v refl, omega (arith, l)))

-- A round does not panic, and leaves no more text than there is after the key.
pub key_round-some :
    (key before found after : Text)
    → (r : Text × Text) × ((key_round key before found after ≡ some r)
        × (length r.1 ≤ length after))
unfolding key_round
key_round-some key before found after = elim (Bool-cases (is_key_boundary before after)) [
  | inr b ↦ ((found, after), (ground (arith, b), omega arith))
  | inl b ↦ elim (Option-cases (locate_value_start after)) [
    | inl e ↦ ((found, after), (ground (arith, b, e), omega arith))
    | inr (v, e) ↦
        let (s, l) = locate_value_start_lem after v e in
        let (r, (f, m)) =
          value_round-some v.from_value (value_split key v.value_quote v.from_value)
            (value_split-IsSplit key v.value_quote v.from_value s) in
        ((found ++ v.lead ++ r.0, r.1), (ground (arith, b, e, f), omega (arith, l, m)))
  ]
]
