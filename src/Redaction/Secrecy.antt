-- ===== src/Redaction/Secrecy.antt =====
-- src/modules/bridge/redaction.rs: no token that looks like a secret is left.
use mathlib.Core.List.{append-nil}
use im_bridge_rs.Common.{
  ℕ, ◌+◌, Bool, true, false, some, [], ◌∷◌, ◌++◌, ◌≡◌, refl, arith, ◌&&◌, ◌||◌, leb, All, sym,
  Bool-cases, if◌then◌else◌, inl, inr, All-append,
}
use im_bridge_rs.Redaction.{
  Text, len, len_utf8, is_ascii_alphabetic, is_ascii_digit, is_ascii_alphanumeric, token_character,
  redact_token_like, redacted, codes,
}
use im_bridge_rs.Redaction.OnePass.{
  some_char, is_secret, close_token, redact_from, redact_from-inside, redact_from-outside,
  redact_from-end, redact_token_like_lem,
}

-- A text, read after a token of so many bytes, with a letter or a digit in it or not, has a token of
-- 32 bytes or more with a letter and a digit.
unfoldable pub has_secret_from : ℕ → Bool → Bool → Text → Bool
unfolding token_character
has_secret_from n alpha digit [] = leb 32 n && alpha && digit
has_secret_from n alpha digit (c ∷ t) =
    let inside =
      has_secret_from (n + len_utf8 c) (alpha || is_ascii_alphabetic c) (digit || is_ascii_digit c)
        t in
    let outside = has_secret_from 0 false false t in
    if token_character c then inside else (leb 32 n && alpha && digit) || outside

abbrev pub has_secret : Text → Bool
has_secret = has_secret_from 0 false false

IsToken : Text → Type 0
IsToken = All (λ c. token_character c ≡ true)

has_secret_from-outside :
    (n : ℕ) (alpha digit : Bool) (c : ℕ) (t : Text)
    → token_character c ≡ false
    → has_secret_from n alpha digit (c ∷ t) ≡ ((leb 32 n && alpha && digit) || has_secret t)
unfolding has_secret_from
has_secret_from-outside n alpha digit c t o = rw o refl

has_secret_from-inside :
    (n : ℕ) (alpha digit : Bool) (c : ℕ) (t : Text)
    → token_character c ≡ true
    → has_secret_from n alpha digit (c ∷ t)
      ≡ has_secret_from
          (n + len_utf8 c)
          (alpha || is_ascii_alphabetic c)
          (digit || is_ascii_digit c)
          t
unfolding has_secret_from
has_secret_from-inside n alpha digit c t i = rw i refl

or_assoc : (a b c : Bool) → ((a || b) || c) ≡ (a || (b || c))
or_assoc true b c = refl
or_assoc false b c = refl

or_false : (a : Bool) → (a || false) ≡ a
or_false true = refl
or_false false = refl

-- A token is read to its end.
has_secret-token :
    (n : ℕ) (alpha digit : Bool) (w t : Text)
    → IsToken w
    → has_secret_from n alpha digit (w ++ t)
      ≡ has_secret_from
          (n + len w)
          (alpha || some_char is_ascii_alphabetic w)
          (digit || some_char is_ascii_digit w)
          t
unfolding len some_char IsToken
has_secret-token n alpha digit [] t k =
    let same : n + 0 ≡ n = omega arith in cc (same, or_false alpha, or_false digit)
has_secret-token n alpha digit (c ∷ w) t k =
    let same : n + (len_utf8 c + len w) ≡ n + len_utf8 c + len w = omega arith in
    let h =
      has_secret-token (n + len_utf8 c) (alpha || is_ascii_alphabetic c) (digit || is_ascii_digit c)
        w t k.1 in
    cc (
      same,
      h,
      has_secret_from-inside n alpha digit c (w ++ t) k.0,
      or_assoc alpha (is_ascii_alphabetic c) (some_char is_ascii_alphabetic w),
      or_assoc digit (is_ascii_digit c) (some_char is_ascii_digit w),
    )

-- A rest in which no token is read on.
EndsToken : Text → Type 0
EndsToken rest =
    (n : ℕ) (alpha digit : Bool) → has_secret_from n alpha digit rest ≡ (leb 32 n && alpha && digit)

redacted_lem : (rest : Text) → has_secret (redacted ++ rest) ≡ has_secret rest
unfolding has_secret_from codes token_character is_ascii_alphanumeric is_ascii_alphabetic
    is_ascii_digit len_utf8
redacted_lem rest = refl

close_token-EndsToken :
    (w rest : Text) → IsToken w → EndsToken rest → has_secret (close_token w ++ rest) ≡ false
unfolding close_token is_secret EndsToken
close_token-EndsToken w rest k e = elim (Bool-cases (is_secret w)) [
  | inl secret ↦ ground (arith, secret, redacted_lem rest, e 0 false false)
  | inr plain ↦
      let zero_left : 0 + len w ≡ len w = omega arith in
      let small : (leb 32 (len w) && some_char is_ascii_alphabetic w && some_char is_ascii_digit w)
          ≡ false =
        plain in
      rw plain (
        cc (
          has_secret-token 0 false false w rest k,
          zero_left,
          small,
          e (0 + len w) (some_char is_ascii_alphabetic w) (some_char is_ascii_digit w),
        ))
]

end-EndsToken : EndsToken []
unfolding EndsToken has_secret_from
end-EndsToken n alpha digit = refl

other-EndsToken :
    (c : ℕ) (t : Text) → token_character c ≡ false → has_secret t ≡ false → EndsToken (c ∷ t)
unfolding EndsToken
other-EndsToken c t o h n alpha digit =
    cc (has_secret_from-outside n alpha digit c t o, h, or_false (leb 32 n && alpha && digit))

IsToken-snoc : (w : Text) (c : ℕ) → IsToken w → token_character c ≡ true → IsToken (w ++ c ∷ [])
unfolding IsToken
IsToken-snoc w c k i = All-append (λ d. token_character d ≡ true) w (c ∷ []) k (i, tt)

redact_from-has_secret : (w t : Text) → IsToken w → has_secret (redact_from w t) ≡ false
unfolding IsToken
redact_from-has_secret w [] k =
    rw (redact_from-end w, sym (append-nil (close_token w)))
      (close_token-EndsToken w [] k end-EndsToken)
redact_from-has_secret w (c ∷ t) k = elim (Bool-cases (token_character c)) [
  | inl inside ↦
      rw (redact_from-inside w c t inside)
        (redact_from-has_secret (w ++ c ∷ []) t (IsToken-snoc w c k inside))
  | inr outside ↦ rw (redact_from-outside w c t outside) (
      close_token-EndsToken w (c ∷ redact_from [] t) k
        (other-EndsToken c (redact_from [] t) outside (redact_from-has_secret [] t nothing)))
]
  where
    nothing : IsToken []
    nothing = tt

-- `redact_token_like` does not panic, and leaves no run of letters, digits, `_` and `-` of 32 bytes
-- or more that has both a letter and a digit.
pub redact_token_like-has_secret :
    (t : Text) → (r : Text) × ((redact_token_like t ≡ some r) × (has_secret r ≡ false))
unfolding IsToken
redact_token_like-has_secret t =
    (redact_from [] t, (redact_token_like_lem t, redact_from-has_secret [] t tt))
