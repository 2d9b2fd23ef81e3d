-- ===== src/Redaction/Ranges.antt =====
-- src/modules/bridge/redaction.rs: `replace_range` on a text given by its parts.
use mathlib.Core.List.{append_assoc}
use im_bridge_rs.Common.{
  ℕ, ◌+◌, ◌-◌, ◌≤◌, ◌<◌, none, some, [], ◌∷◌, ◌++◌, ◌≡◌, refl, arith, utf8_char, Option-cases,
  Bool-cases, All, ltb, ◌==◌, false, inl, inr,
}
use im_bridge_rs.Redaction.{Text, len, len_utf8, split_at, replace_range}

pub len_utf8_positive : (c : ℕ) → 0 < len_utf8 c
unfolding len_utf8 utf8_char
len_utf8_positive c = ground arith

pub len-append : (s t : Text) → len (s ++ t) ≡ len s + len t
unfolding len
len-append [] t = omega arith
len-append (c ∷ s) t = omega (arith, len-append s t)

pub split_at-append : (s t : Text) → split_at (len s) (s ++ t) ≡ some (s, t)
unfolding split_at len
split_at-append [] [] = refl
split_at-append [] (c ∷ t) = refl
split_at-append (c ∷ s) t =
    let same : len_utf8 c + len s - len_utf8 c ≡ len s = omega arith in
    ground (arith, len_utf8_positive c, same, split_at-append s t)

pub replace_range-append :
    (before cut after replacement : Text)
    → replace_range (len before) (len before + len cut) replacement (before ++ (cut ++ after))
      ≡ some (before ++ (replacement ++ after))
unfolding replace_range
replace_range-append before cut after replacement =
    let same : len before + len cut - len before ≡ len cut = omega arith in
    ground (
      arith,
      same,
      split_at-append before (cut ++ after),
      split_at-append cut after,
      append_assoc before replacement after,
    )

pub split_at-beyond : (n : ℕ) (t : Text) → len t < n → split_at n t ≡ none
unfolding split_at len
split_at-beyond n [] h = ground (arith, h)
split_at-beyond n (c ∷ t) h = ground (arith, h, split_at-beyond (n - len_utf8 c) t)

length-split_at :
    (n : ℕ) (t : Text) {before rest : Text}
    → split_at n t ≡ some (before, rest)
    → n + len rest ≡ len t
unfolding split_at len
length-split_at n [] h = ground (arith, h)
length-split_at n (c ∷ t) {before} {rest} h = elim (Option-cases (split_at (n - len_utf8 c) t)) [
  | inl e ↦ ground (arith, h, e)
  | inr ((b, r), e) ↦ ground (arith, h, e, length-split_at (n - len_utf8 c) t e)
]

pub replace_range-beyond :
    (start end : ℕ) (replacement t : Text)
    → len t < end
    → start ≤ end
    → replace_range start end replacement t ≡ none
unfolding replace_range
replace_range-beyond start end replacement t h l = elim (Option-cases (split_at start t)) [
  | inl e ↦ ground (arith, e)
  | inr ((before, rest), e) ↦
      let short = length-split_at start t e in
      ground (arith, e, split_at-beyond (end - start) rest (omega (arith, h, l, short)))
]

pub len_nil : len [] ≡ 0
unfolding len
len_nil = refl

pub len_cons : (c : ℕ) (t : Text) → len (c ∷ t) ≡ len_utf8 c + len t
unfolding len
len_cons c t = refl

pub split_at-ascii :
    (n : ℕ) (t : Text)
    → All (λ c. len_utf8 c ≡ 1) t
    → n ≤ len t
    → (r : Text × Text) × (split_at n t ≡ some r)
unfolding split_at len
split_at-ascii n [] a h = (([], []), ground (arith, h))
split_at-ascii n (c ∷ t) a h = elim (Bool-cases (n == 0)) [
  | inl z ↦ (([], c ∷ t), rw z refl)
  | inr positive ↦
      let enough : ltb n (len_utf8 c) ≡ false = ground (arith, positive, a.0) in
      let (r, e) = split_at-ascii (n - len_utf8 c) t a.1 (omega (arith, h, len_cons c t)) in
      ((c ∷ r.0, r.1), rw positive (rw enough (rw e refl)))
]

pub replace_range-ascii :
    (end : ℕ) (replacement t : Text)
    → All (λ c. len_utf8 c ≡ 1) t
    → end ≤ len t
    → (x : Text) × (replace_range 0 end replacement t ≡ some x)
unfolding replace_range len
replace_range-ascii end replacement t a h =
    let (r, e) = split_at-ascii end t a h in
    let whole : split_at 0 t ≡ some ([], t) = split_at-append [] t in
    let same : end - 0 ≡ end = omega arith in
    let forward : ltb end 0 ≡ false = ground arith in
    (replacement ++ r.1, ground (arith, whole, forward, same, e))
