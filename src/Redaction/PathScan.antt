-- ===== src/Redaction/PathScan.antt =====
-- src/modules/bridge/redaction.rs: where `redact_sensitive_paths` finds a path, in a text of the
-- characters of which none lets a path begin behind it.
use im_bridge_rs.Common.{
  ℕ, ◌+◌, true, false, Option, some, [], ◌∷◌, List, ◌++◌, ◌≡◌, refl, arith, All, All-map, ◌==◌,
  Option-cases, Bool-cases, inl, inr, is_whitespace, utf8_char,
}
use im_bridge_rs.Redaction.{
  Text, len, len_utf8, find_char, strip_prefix, is_ascii_alphanumeric, is_ascii_alphabetic,
  is_ascii_digit, any_of, is_path_start, is_path_boundary, is_unix_path, unix_roots,
  starts_with_any, ends_path, path_ranges,
}

-- ASCII letters and digits, underscores, slashes and backslashes.
abbrev pub IsPathText : Text → Type 0
IsPathText = All (λ c. is_path_boundary (some c) ≡ false)

inner_goes_on : (c : ℕ) → is_path_boundary (some c) ≡ false → ends_path c ≡ false
unfolding is_path_boundary is_ascii_alphanumeric is_ascii_alphabetic is_ascii_digit ends_path any_of
    is_whitespace
inner_goes_on c h = ground arith

pub inner_is_ascii : (c : ℕ) → is_path_boundary (some c) ≡ false → len_utf8 c ≡ 1
unfolding is_path_boundary is_ascii_alphanumeric is_ascii_alphabetic is_ascii_digit len_utf8
    utf8_char
inner_is_ascii c h = ground arith

unfoldable pub GoesOn : Text → Type 0
GoesOn = All (λ c. ends_path c ≡ false)

pub IsPathText-GoesOn : (t : Text) → IsPathText t → GoesOn t
unfolding GoesOn
IsPathText-GoesOn t k = All-map t inner_goes_on k

find_char-GoesOn : (t : Text) → GoesOn t → (find_char ends_path t).0 ≡ t
unfolding find_char GoesOn
find_char-GoesOn [] k = refl
find_char-GoesOn (c ∷ t) k = rw (k.0, find_char-GoesOn t k.1) refl

-- No path begins behind such a character.
no_start : (p : ℕ) (t : Text) → is_path_boundary (some p) ≡ false → is_path_start (some p) t ≡ false
unfolding is_path_start
no_start p t h = ground (arith, h)

pub path_ranges-inner :
    (p index : ℕ) (t : Text)
    → is_path_boundary (some p) ≡ false
    → IsPathText t
    → path_ranges (some p) index t ≡ []
unfolding path_ranges
path_ranges-inner p index [] h k = refl
path_ranges-inner p index (c ∷ t) h k =
    rw (no_start p (c ∷ t) h) (path_ranges-inner c (index + len_utf8 c) t k.0 k.1)

-- The scan goes on behind the first character after such a text.
pub path_ranges-behind :
    (p index : ℕ) (t : Text) (c : ℕ) (rest : Text)
    → is_path_boundary (some p) ≡ false
    → IsPathText t
    → path_ranges (some p) index (t ++ c ∷ rest)
      ≡ path_ranges (some c) (index + len t + len_utf8 c) rest
unfolding path_ranges len
path_ranges-behind p index [] c rest h k =
    let same : index + 0 ≡ index = omega arith in rw (no_start p (c ∷ rest) h, same) refl
path_ranges-behind p index (d ∷ t) c rest h k =
    let same : index + (len_utf8 d + len t) ≡ index + len_utf8 d + len t = omega arith in
    rw (no_start p (d ∷ (t ++ c ∷ rest)) h, same)
      (path_ranges-behind d (index + len_utf8 d) t c rest k.0 k.1)

pub path_ranges-start :
    (previous : Option ℕ) (index : ℕ) (c : ℕ) (t : Text)
    → is_path_start previous (c ∷ t) ≡ true
    → GoesOn (c ∷ t)
    → path_ranges previous index (c ∷ t)
      ≡ (index, index + len (c ∷ t)) ∷ path_ranges (some c) (index + len_utf8 c) t
unfolding path_ranges
path_ranges-start previous index c t s g = rw (s, find_char-GoesOn (c ∷ t) g) refl

strip_prefix-append :
    (prefix t rest : Text) (r : Text × Text)
    → strip_prefix ◌==◌ prefix t ≡ some r
    → (x : Text × Text) × (strip_prefix ◌==◌ prefix (t ++ rest) ≡ some x)
unfolding strip_prefix
strip_prefix-append [] t rest r h = (([], t ++ rest), refl)
strip_prefix-append (d ∷ ds) [] rest r h = cc h
strip_prefix-append (d ∷ ds) (c ∷ t) rest r h = elim (Bool-cases (c == d)) [
  | inr miss ↦ absurd (cc (rw (miss, strip_prefix) at h))
  | inl hit ↦ elim (Option-cases (strip_prefix ◌==◌ ds t)) [
    | inl none_ ↦ absurd (cc (rw (hit, none_, strip_prefix) at h))
    | inr (q, e) ↦
        let (x, f) = strip_prefix-append ds t rest q e in ((c ∷ x.0, x.1), rw hit (rw f refl))
  ]
]

starts_with_any-append :
    (prefixes : List Text) (t rest : Text)
    → starts_with_any prefixes t ≡ true
    → starts_with_any prefixes (t ++ rest) ≡ true
unfolding starts_with_any
starts_with_any-append [] t rest h = cc h
starts_with_any-append (prefix ∷ prefixes) t rest h =
    elim (Option-cases (strip_prefix ◌==◌ prefix t)) [
      | inl none_ ↦
          ground (arith, starts_with_any-append prefixes t rest (rw (none_, starts_with_any) at h))
      | inr (r, e) ↦ let (x, f) = strip_prefix-append prefix t rest r e in rw f refl
    ]

is_unix_path-append : (t rest : Text) → is_unix_path t ≡ true → is_unix_path (t ++ rest) ≡ true
unfolding is_unix_path
is_unix_path-append t rest h = starts_with_any-append unix_roots t rest h

-- A path begins where a text begins that starts with one of the directories.
pub unix_start :
    (previous : Option ℕ) (t rest : Text)
    → is_unix_path t ≡ true
    → is_path_boundary previous ≡ true
    → is_path_start previous (t ++ rest) ≡ true
unfolding is_path_start
unix_start previous t rest h b = ground (arith, b, is_unix_path-append t rest h)
