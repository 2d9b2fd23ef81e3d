-- ===== src/Redaction/OnePass.antt =====
-- src/modules/bridge/redaction.rs: `redact_token_like` against a redaction in one pass.
use mathlib.Core.List.{append_assoc, append-nil}
use im_bridge_rs.Common.{
  ℕ, ◌+◌, Bool, true, false, none, some, List, [], ◌∷◌, ◌++◌, ◌≡◌, refl, ◌⊎◌, inl, inr, arith, ◌&&◌,
  ◌||◌, leb, ◌∙◌, ap, sym, Bool-cases, if◌then◌else◌,
}
use im_bridge_rs.Redaction.{
  Text, len, len_utf8, is_ascii_alphabetic, is_ascii_digit, token_character, TokenScan, no_token,
  begin_token, note_character, end_token, token_ranges, redact_token_like, replace_ranges, redacted,
}
use im_bridge_rs.Redaction.Ranges.{len-append, replace_range-append}

unfoldable pub some_char : (ℕ → Bool) → Text → Bool
some_char p [] = false
some_char p (c ∷ t) = p c || some_char p t

-- A token of 32 bytes or more with a letter and a digit.
unfoldable pub is_secret : Text → Bool
unfolding some_char
is_secret w = leb 32 (len w) && some_char is_ascii_alphabetic w && some_char is_ascii_digit w

unfoldable pub close_token : Text → Text
unfolding is_secret
close_token w = if is_secret w then redacted else w

-- The redaction in one pass, with the token that is read.
unfoldable pub redact_from : Text → Text → Text
unfolding close_token
redact_from w [] = close_token w
redact_from w (c ∷ t) =
    let inside = redact_from (w ++ c ∷ []) t in
    let outside = redact_from [] t in
    if token_character c then inside else close_token w ++ c ∷ outside

pub some_char-append :
    (p : ℕ → Bool) (s : Text) (c : ℕ) → some_char p (s ++ c ∷ []) ≡ (some_char p s || p c)
unfolding some_char
some_char-append p [] c = ground arith
some_char-append p (d ∷ s) c = ground (arith, some_char-append p s c)

-- What the loop keeps, after the text `p` and the token `w`.
IsScan : TokenScan → Text → Text → Type 0
IsScan s p w =
    ((w ≡ []) × (s.token_start ≡ none))
    ⊎ ((s.token_start ≡ some (len p))
        × ((s.has_alpha ≡ some_char is_ascii_alphabetic w)
            × (s.has_digit ≡ some_char is_ascii_digit w)))

IsScan-step :
    (s : TokenScan) (p w : Text) (c : ℕ)
    → IsScan s p w
    → IsScan (note_character c (begin_token (len p + len w) s)) p (w ++ c ∷ [])
unfolding IsScan note_character begin_token some_char len
IsScan-step s p w c (inl (e, n)) =
    inr (ground (arith, e, n), (ground (arith, e, n), ground (arith, e, n)))
IsScan-step s p w c (inr (e, (a, d))) = inr (
  ground (arith, e),
  (
    ground (arith, e, a, some_char-append is_ascii_alphabetic w c),
    ground (arith, e, d, some_char-append is_ascii_digit w c),
  ),
)

-- The end of a token, whose range is replaced after the later ones.
end_token_lem :
    (s : TokenScan) (p w rest after : Text) (later : List (ℕ × ℕ))
    → IsScan s p w
    → replace_ranges redacted later (p ++ (w ++ rest)) ≡ some (p ++ (w ++ after))
    → replace_ranges redacted (end_token (len p + len w) s later) (p ++ (w ++ rest))
      ≡ some (p ++ (close_token w ++ after))
unfolding IsScan end_token close_token is_secret replace_ranges
end_token_lem s p w rest after later (inl (e, n)) h = ground (arith, e, n, h)
end_token_lem s p w rest after later (inr (e, (a, d))) h =
    ground (arith, e, a, d, h, replace_range-append p w after redacted)

token_ranges-inside :
    (c : ℕ) (t : Text) (index : ℕ) (s : TokenScan)
    → token_character c ≡ true
    → token_ranges (c ∷ t) index s
      ≡ token_ranges t (index + len_utf8 c) (note_character c (begin_token index s))
unfolding token_ranges
token_ranges-inside c t index s inside = rw inside refl

token_ranges-outside :
    (c : ℕ) (t : Text) (index : ℕ) (s : TokenScan)
    → token_character c ≡ false
    → token_ranges (c ∷ t) index s
      ≡ end_token index s (token_ranges t (index + len_utf8 c) (record s { token_start = none }))
unfolding token_ranges
token_ranges-outside c t index s outside = rw outside refl

pub redact_from-inside :
    (w : Text) (c : ℕ) (t : Text)
    → token_character c ≡ true
    → redact_from w (c ∷ t) ≡ redact_from (w ++ c ∷ []) t
unfolding redact_from
redact_from-inside w c t inside = rw inside refl

pub redact_from-outside :
    (w : Text) (c : ℕ) (t : Text)
    → token_character c ≡ false
    → redact_from w (c ∷ t) ≡ close_token w ++ c ∷ redact_from [] t
unfolding redact_from
redact_from-outside w c t outside = rw outside refl

no_ranges : (t : Text) → replace_ranges redacted [] t ≡ some t
unfolding replace_ranges
no_ranges t = refl

pub redact_from-end : (w : Text) → redact_from w [] ≡ close_token w
unfolding redact_from
redact_from-end w = refl

token_ranges-end : (index : ℕ) (s : TokenScan) → token_ranges [] index s ≡ end_token index s []
unfolding token_ranges
token_ranges-end index s = refl

pub len-snoc : (w : Text) (c : ℕ) → len (w ++ c ∷ []) ≡ len w + len_utf8 c
unfolding len
len-snoc w c = omega (arith, len-append w (c ∷ []))

after_snoc : (p w t : Text) (c : ℕ) → (p ++ (w ++ c ∷ [])) ++ t ≡ p ++ (w ++ c ∷ t)
after_snoc p w t c = append_assoc p (w ++ c ∷ []) t ∙ ap (λ x. p ++ x) (append_assoc w (c ∷ []) t)

len-after : (p w : Text) (c : ℕ) → len (p ++ (w ++ c ∷ [])) + len [] ≡ len p + len w + len_utf8 c
unfolding len
len-after p w c = omega (arith, len-append p (w ++ c ∷ []), len-snoc w c)

before_lem :
    (s : TokenScan) (p w : Text) (c : ℕ) (t : Text)
    → replace_ranges redacted
        (token_ranges t (len (p ++ (w ++ c ∷ [])) + len []) (record s { token_start = none }))
        ((p ++ (w ++ c ∷ [])) ++ ([] ++ t))
      ≡ some ((p ++ (w ++ c ∷ [])) ++ redact_from [] t)
    → replace_ranges redacted
        (token_ranges t (len p + len w + len_utf8 c) (record s { token_start = none }))
        (p ++ (w ++ c ∷ t))
      ≡ some (p ++ (w ++ c ∷ redact_from [] t))
before_lem s p w c t h =
    cc (h, len-after p w c, after_snoc p w t c, after_snoc p w (redact_from [] t) c)

token_ranges_lem :
    (s : TokenScan) (p w t : Text)
    → IsScan s p w
    → replace_ranges redacted (token_ranges t (len p + len w) s) (p ++ (w ++ t))
      ≡ some (p ++ redact_from w t)
unfolding IsScan
token_ranges_lem s p w [] i =
    rw (token_ranges-end (len p + len w) s, redact_from-end w, sym (append-nil (close_token w)))
      (end_token_lem s p w [] [] [] i (no_ranges (p ++ (w ++ []))))
token_ranges_lem s p w (c ∷ t) i = elim (Bool-cases (token_character c)) [
  | inl inside ↦
      let h =
        token_ranges_lem (note_character c (begin_token (len p + len w) s)) p (w ++ c ∷ []) t
          (IsScan-step s p w c i) in
      let index : len p + len (w ++ c ∷ []) ≡ len p + len w + len_utf8 c =
        omega (arith, len-snoc w c) in
      cc (
        h,
        index,
        append_assoc w (c ∷ []) t,
        token_ranges-inside c t (len p + len w) s inside,
        redact_from-inside w c t inside,
      )
  | inr outside ↦
      let later = token_ranges t (len p + len w + len_utf8 c) (record s { token_start = none }) in
      let before : replace_ranges redacted later (p ++ (w ++ c ∷ t))
          ≡ some (p ++ (w ++ c ∷ redact_from [] t)) =
        before_lem s p w c t (
          token_ranges_lem (record s { token_start = none }) (p ++ (w ++ c ∷ [])) [] t
            (inl (refl, refl))) in
      cc (
        end_token_lem s p w (c ∷ t) (c ∷ redact_from [] t) later i before,
        token_ranges-outside c t (len p + len w) s outside,
        redact_from-outside w c t outside,
      )
]

pub redact_token_like_lem : (t : Text) → redact_token_like t ≡ some (redact_from [] t)
unfolding redact_token_like IsScan len
redact_token_like_lem t = token_ranges_lem no_token [] [] t (inl (refl, refl))
