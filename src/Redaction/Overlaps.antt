-- ===== src/Redaction/Overlaps.antt =====
-- src/modules/bridge/redaction.rs: two paths with a colon between them.
use mathlib.Core.List.{append-nil, append_assoc}
use im_bridge_rs.Common.{
  ℕ, ◌+◌, ◌<◌, true, false, none, some, [], ◌∷◌, ◌++◌, ◌≡◌, ◌↔◌, refl, subst, arith, All,
  All-append, All-map, is_whitespace, utf8_char, inl, inr, Bool-cases, ltb, ◌∙◌,
}
use im_bridge_rs.Redaction.{
  Text, codes, len, len_utf8, is_unix_path, is_path_boundary, path_redacted, replace_ranges,
  replace_range, is_path_start, ends_path, path_ranges, any_of, starts_with_any, strip_prefix,
  is_ascii_alphanumeric, is_ascii_alphabetic, is_ascii_digit, redact_sensitive_paths,
}
use im_bridge_rs.Redaction.Ranges.{
  len-append, len_nil, len_cons, replace_range-ascii, replace_range-append, replace_range-beyond,
}
use im_bridge_rs.Redaction.PathScan.{
  IsPathText, IsPathText-GoesOn, GoesOn, inner_is_ascii, path_ranges-inner, path_ranges-behind,
  path_ranges-start, unix_start,
}

-- `p:q`
abbrev pub two_paths : Text → Text → Text
two_paths p q = p ++ b':' ∷ q

no_unix_path : is_unix_path [] ≡ true → ⊥
unfolding is_unix_path starts_with_any strip_prefix codes
no_unix_path h = cc h

colon_goes_on : ends_path b':' ≡ false
unfolding ends_path any_of is_whitespace
colon_goes_on = refl

boundary_at_colon : is_path_boundary (some b':') ≡ true
unfolding is_path_boundary is_ascii_alphanumeric is_ascii_alphabetic is_ascii_digit
boundary_at_colon = refl

colon_is_ascii : len_utf8 b':' ≡ 1
unfolding len_utf8 utf8_char
colon_is_ascii = refl

boundary_at_start : is_path_boundary none ≡ true
unfolding is_path_boundary
boundary_at_start = refl

two_paths-GoesOn : (p q : Text) → IsPathText p → IsPathText q → GoesOn (two_paths p q)
unfolding GoesOn
two_paths-GoesOn p q k l =
    All-append (λ c. ends_path c ≡ false) p (b':' ∷ q) (IsPathText-GoesOn p k)
      (colon_goes_on, IsPathText-GoesOn q l)

len_redacted : len path_redacted ≡ 15
unfolding len codes len_utf8 utf8_char
len_redacted = refl

second_range :
    (index : ℕ) (q : Text)
    → IsPathText q
    → is_unix_path q ≡ true
    → path_ranges (some b':') index q ≡ (index, index + len q) ∷ []
second_range index [] l h = absurd (no_unix_path h)
second_range index (c ∷ q) l h =
    let start : is_path_start (some b':') (c ∷ q) ≡ true =
      subst (λ t. is_path_start (some b':') t ≡ true) (append-nil (c ∷ q))
        (unix_start (some b':') (c ∷ q) [] h boundary_at_colon) in
    cc (
      path_ranges-start (some b':') index c q start (IsPathText-GoesOn (c ∷ q) l),
      path_ranges-inner c (index + len_utf8 c) q l.0 l.1,
    )

path_ranges-two_paths :
    (p q : Text)
    → IsPathText p
    → IsPathText q
    → is_unix_path p ≡ true
    → is_unix_path q ≡ true
    → path_ranges none 0 (two_paths p q)
      ≡ (0, len p + 1 + len q) ∷ (len p + 1, len p + 1 + len q) ∷ []
path_ranges-two_paths [] q k l h i = absurd (no_unix_path h)
path_ranges-two_paths (c ∷ p) q k l h i =
    let rest = p ++ b':' ∷ q in
    let whole : 0 + len (c ∷ rest) ≡ len (c ∷ p) + 1 + len q =
      omega (arith, colon_is_ascii, len-append (c ∷ p) (b':' ∷ q), len_cons b':' q) in
    let next : 0 + len_utf8 c + len p + len_utf8 b':' ≡ len (c ∷ p) + 1 =
      omega (arith, colon_is_ascii, len_cons c p) in
    let first : path_ranges none 0 (c ∷ rest)
        ≡ (0, 0 + len (c ∷ rest)) ∷ path_ranges (some c) (0 + len_utf8 c) rest =
      path_ranges-start none 0 c rest (unix_start none (c ∷ p) (b':' ∷ q) h boundary_at_start)
        (two_paths-GoesOn (c ∷ p) q k l) in
    cc (
      first,
      whole,
      next,
      path_ranges-behind c (0 + len_utf8 c) p b':' q k.0 k.1,
      second_range (0 + len_utf8 c + len p + len_utf8 b':') q l i,
    )

redacted_is_ascii : All (λ c. len_utf8 c ≡ 1) path_redacted
unfolding len_utf8 utf8_char codes
redacted_is_ascii = ground arith

-- The text with the second path replaced.
abbrev second_replaced : Text → Text
second_replaced p = two_paths p path_redacted

replaced_second :
    (p q : Text)
    → replace_range (len p + 1) (len p + 1 + len q) path_redacted (two_paths p q)
      ≡ some (second_replaced p)
replaced_second p q =
    let before = p ++ b':' ∷ [] in
    let size : len before ≡ len p + 1 =
      omega (arith, colon_is_ascii, len-append p (b':' ∷ []), len_cons b':' [], len_nil) in
    cc (
      size,
      replace_range-append before q [] path_redacted,
      append-nil q,
      append-nil path_redacted,
      append_assoc p (b':' ∷ []) q,
      append_assoc p (b':' ∷ []) path_redacted,
    )

by_ranges :
    (t : Text) → redact_sensitive_paths t ≡ replace_ranges path_redacted (path_ranges none 0 t) t
unfolding redact_sensitive_paths
by_ranges t = refl

replace_two :
    (a b c d : ℕ) (replacement t u : Text)
    → replace_range c d replacement t ≡ some u
    → replace_ranges replacement ((a, b) ∷ (c, d) ∷ []) t ≡ replace_range a b replacement u
unfolding replace_ranges
replace_two a b c d replacement t u h = rw (h, replace_ranges) refl

module _ (p q : Text) (p_inner : IsPathText p) (q_inner : IsPathText q)
    (p_is_unix_path : is_unix_path p ≡ true) (q_is_unix_path : is_unix_path q ≡ true) where
  redact_two_paths :
      redact_sensitive_paths (two_paths p q)
      ≡ replace_range 0 (len p + 1 + len q) path_redacted (second_replaced p)
  redact_two_paths =
      rw
        (
          by_ranges (two_paths p q),
          path_ranges-two_paths p q p_inner q_inner p_is_unix_path q_is_unix_path,
        )
        (replace_two 0 (len p + 1 + len q) (len p + 1) (len p + 1 + len q) path_redacted
          (two_paths p q) (second_replaced p) (replaced_second p q))

  second_replaced_is_ascii : All (λ c. len_utf8 c ≡ 1) (second_replaced p)
  second_replaced_is_ascii =
      All-append (λ c. len_utf8 c ≡ 1) p (b':' ∷ path_redacted) (All-map p inner_is_ascii p_inner)
        (colon_is_ascii, redacted_is_ascii)

  len-second_replaced : len (second_replaced p) ≡ len p + 16
  len-second_replaced = omega (
    arith,
    len-append p (b':' ∷ path_redacted),
    len_cons b':' path_redacted,
    colon_is_ascii,
    len_redacted,
  )

  -- Of two paths with a colon between them, as in a list of directories, which both begin with one
  -- of the directories that are looked for and consist of ASCII letters, digits, underscores, slashes
  -- and backslashes, `redact_sensitive_paths` panics exactly if the second has more than 15 bytes, as
  -- many as the text that replaces it: the range of the first path, which spans both, then ends
  -- after the text in which the second one is already replaced.
  pub overlapping_paths_panic : (redact_sensitive_paths (p ++ b':' ∷ q) ≡ none) ↔ (15 < len q)
  overlapping_paths_panic = (
    (λ panics. elim (Bool-cases (ltb 15 (len q))) [
      | inl over ↦ ground (arith, over)
      | inr fits ↦
          let (x, e) =
            replace_range-ascii (len p + 1 + len q) path_redacted (second_replaced p)
              second_replaced_is_ascii (ground (arith, fits, len-second_replaced)) in
          absurd (cc (panics, redact_two_paths, e))
    ]),
    (λ over.
        redact_two_paths
        ∙ replace_range-beyond 0 (len p + 1 + len q) path_redacted (second_replaced p)
            (omega (arith, over, len-second_replaced)) (omega arith)),
  )
