-- ===== src/Common/Text.antt =====
-- What the program uses of `str`: equality, concatenation by `format!` and `trim().is_empty()`.
use Prim.Native.Nat.{ℕ}
use Prim.Native.Char.{code}
use Prim.Native.String.{String}
use Prim.Native.String
use mathlib.Core.Bool.{Bool, true, ◌&&◌, ◌||◌}
use mathlib.Core.List.{List, [], ◌∷◌}
use mathlib.Core.Path.{◌≡◌}
use mathlib.Core.Option.{Option, none, some}
use text.Mathlib.Text.{◌==◌ as str_eq}
use text.Mathlib.TextEquality.{eq_iff}
use native.Mathlib.Omega.{arith}
use im_bridge_rs.Common.Tests.{leb, ◌==◌, if◌then◌else◌}

-- `char::is_whitespace`: the code points with the Unicode property White_Space.
unfoldable pub is_whitespace : ℕ → Bool
is_whitespace c =
    (leb 9 c && leb c 13)
    || c == 32
    || c == 133
    || c == 160
    || c == 5760
    || (leb 8192 c && leb c 8202)
    || c == 8232
    || c == 8233
    || c == 8239
    || c == 8287
    || c == 12288

-- `s.trim().is_empty()`: no character of `s` is left after trimming.
unfoldable pub is_blank : String → Bool
unfolding is_whitespace
is_blank String.[] = true
is_blank (String.◌∷◌ c s) = is_whitespace (code c) && is_blank s

trim_start : String → String
unfolding is_whitespace
trim_start String.[] = ""
trim_start (String.◌∷◌ c s) = if is_whitespace (code c) then trim_start s else String.◌∷◌ c s

trim_end : String → String
unfolding is_blank
trim_end String.[] = ""
trim_end (String.◌∷◌ c s) = if is_blank (String.◌∷◌ c s) then "" else String.◌∷◌ c (trim_end s)

-- `str::trim`
unfoldable pub trim : String → String
unfolding trim_start trim_end
trim s = trim_end (trim_start s)

-- `format!`, the literal parts and the arguments in order.
unfoldable pub format : List String → String
format [] = ""
format (s ∷ ss) = String.◌++◌ s (format ss)

-- `match s {"a" => Some(x), "b" => Some(y), _ => None }`: the first arm whose literal is `s`.
module _ {ℓ} {A : Type ℓ} where
  unfoldable pub match_text : List (String × A) → String → Option A
  match_text [] s = none
  match_text ((k, a) ∷ arms) s = if str_eq s k then some a else match_text arms s

  -- Every arm's literal is the name of its value.
  unfoldable pub arms_named : (A → String) → List (String × A) → Bool
  arms_named name [] = true
  arms_named name ((k, a) ∷ arms) = str_eq (name a) k && arms_named name arms

  -- If so, a text is parsed only to the value that it names.
  pub match_text-named :
      (name : A → String) (arms : List (String × A)) (s : String) {a : A}
      → arms_named name arms ≡ true
      → match_text arms s ≡ some a
      → name a ≡ s
  unfolding match_text arms_named
  match_text-named name [] s h e = cc
  match_text-named name ((k, b) ∷ arms) s {a} h e =
      ground (arith, eq_iff s k, eq_iff (name b) k, match_text-named name arms s {a = a})
