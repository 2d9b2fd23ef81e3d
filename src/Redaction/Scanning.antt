-- ===== src/Redaction/Scanning.antt =====
-- src/modules/bridge/redaction.rs: how much text the scans leave.
use im_bridge_rs.Common.{
  ℕ, ◌+◌, ◌≤◌, Bool, true, some, [], ◌∷◌, ◌≡◌, refl, inl, inr, arith, length, Option-cases,
}
use im_bridge_rs.Redaction.{Text, find_char, strip_prefix, find}

pub length-find_char :
    (p : ℕ → Bool) (t : Text) → length (find_char p t).0 + length (find_char p t).1 ≡ length t
unfolding find_char
length-find_char p [] = refl
length-find_char p (c ∷ t) = ground (arith, length-find_char p t)

-- The rest that `find_char` leaves is empty or begins with a character that passes the test.
pub find_char-rest :
    (p : ℕ → Bool) (t : Text) {c : ℕ} {rest : Text} → (find_char p t).1 ≡ c ∷ rest → p c ≡ true
unfolding find_char
find_char-rest p [] h = absurd (cc h)
find_char-rest p (d ∷ t) {c} {rest} h = ground (arith, h, find_char-rest p t {c = c} {rest = rest})

module _ (same : ℕ → ℕ → Bool) where
  length-strip_prefix :
      (pattern t : Text) {m rest : Text}
      → strip_prefix same pattern t ≡ some (m, rest)
      → length pattern + length rest ≡ length t
  unfolding strip_prefix
  length-strip_prefix [] t h = ground (arith, h)
  length-strip_prefix (d ∷ ds) [] h = absurd (cc h)
  length-strip_prefix (d ∷ ds) (c ∷ t) {m} {rest} h = elim (Option-cases (strip_prefix same ds t)) [
    | inl e ↦ absurd (ground (arith, h, e))
    | inr (r, e) ↦ ground (arith, h, e, length-strip_prefix ds t {m = r.0} {rest = r.1} e)
  ]

  -- What is left after a match is shorter by the pattern at least.
  pub length-find :
      (pattern t : Text) {before m rest : Text}
      → find same pattern t ≡ some (before, (m, rest))
      → length pattern + length rest ≤ length t
  unfolding find
  length-find pattern [] h = absurd (cc h)
  length-find pattern (c ∷ t) h = elim (Option-cases (strip_prefix same pattern (c ∷ t))) [
    | inl e ↦ elim (Option-cases (find same pattern t)) [
      | inl f ↦ absurd (ground (arith, h, e, f))
      | inr ((before, (m, rest)), f) ↦ ground (arith, h, e, f, length-find pattern t f)
    ]
    | inr ((m, rest), e) ↦ ground (arith, h, e, length-strip_prefix pattern (c ∷ t) e)
  ]
