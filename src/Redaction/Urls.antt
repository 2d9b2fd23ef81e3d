-- ===== src/Redaction/Urls.antt =====
-- src/modules/bridge/redaction.rs: `redact_url_userinfo`. The offset of the loop splits the text into
-- what is done and the rest; each round leaves less of the rest.
use im_bridge_rs.Common.{
  ℕ, zero, suc, Bool, Option, none, some, [], ◌∷◌, ◌++◌, ◌||◌, ◌==◌, is_whitespace, length,
}
use im_bridge_rs.Redaction.Str.{Text, codes, any_of, find, find_char, redacted}

unfoldable pub ends_authority : ℕ → Bool
unfolding any_of
ends_authority c = is_whitespace c || any_of (b'/' ∷ b'"' ∷ b'\'' ∷ []) c

-- What a round adds to the part that is done, and the rest after it: of the authority that `find('@')`
-- has split, and of the text after it.
unfoldable pub userinfo_round : Text × Text → Text → Text × Text
userinfo_round (user, []) tail = (user, tail)
userinfo_round ([], at ∷ host) tail = (at ∷ host, tail)
userinfo_round (u ∷ user, at ∷ host) tail = (redacted ++ at ∷ [], host ++ tail)

unfoldable pub redact_userinfo : ℕ → Text → Text → Option Text
unfolding userinfo_round find find_char ends_authority
redact_userinfo zero done text = none
redact_userinfo (suc fuel) done text = elim (find ◌==◌ (codes "://") text) [
  | none ↦ some (done ++ text)
  | some (before, (scheme, after)) ↦
      let (authority, tail) = find_char ends_authority after in
      let (added, rest) = userinfo_round (find_char (λ c. c == b'@') authority) tail in
      redact_userinfo fuel (done ++ before ++ scheme ++ added) rest
]

unfoldable pub redact_url_userinfo : Text → Option Text
unfolding redact_userinfo
redact_url_userinfo text = redact_userinfo (suc (length text)) [] text
