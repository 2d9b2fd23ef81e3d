-- ===== src/Redaction/Paths.antt =====
-- src/modules/bridge/redaction.rs: `redact_sensitive_paths`. A path begins at an ASCII character, and
-- a byte of a longer character is none of those that are looked for.
use im_bridge_rs.Common.{
  ℕ, ◌+◌, Bool, true, false, not, Option, none, some, List, [], ◌∷◌, ◌&&◌, ◌||◌, ◌==◌,
  is_whitespace, if◌then◌else◌,
}
use im_bridge_rs.Redaction.Str.{
  Text, codes, len, len_utf8, is_ascii_alphabetic, is_ascii_alphanumeric, any_of, find_char,
  strip_prefix, replace_ranges, path_redacted,
}

-- The byte before an index, or none at the start.
unfoldable pub is_path_boundary : Option ℕ → Bool
unfolding is_ascii_alphanumeric
is_path_boundary none = true
is_path_boundary (some c) =
    not (is_ascii_alphanumeric c) && not (c == b'_') && not (c == b'/') && not (c == b'\\')

unfoldable pub is_drive_path : Text → Bool
unfolding is_ascii_alphabetic
is_drive_path (a ∷ b ∷ c ∷ t) = is_ascii_alphabetic a && b == b':' && (c == b'\\' || c == b'/')
is_drive_path _ = false

is_share : Text → Bool
unfolding any_of
is_share [] = false
is_share (c ∷ t) = not (any_of (b'\\' ∷ b'/' ∷ b' ' ∷ 9 ∷ []) c)

-- The server's name and the text from its separator on.
is_server : Text × Text → Bool
unfolding is_share
is_server ([], rest) = false
is_server (c ∷ name, []) = false
is_server (c ∷ name, separator ∷ rest) = is_share rest

unfoldable pub is_unc_path : Text → Bool
unfolding is_server find_char any_of
is_unc_path (a ∷ b ∷ t) =
    a == b'\\' && b == b'\\' && is_server (find_char (any_of (b'\\' ∷ b'/' ∷ [])) t)
is_unc_path _ = false

abbrev pub unix_roots : List Text
unix_roots =
    codes "/srv/"
    ∷ codes "/home/"
    ∷ codes "/var/"
    ∷ codes "/root/"
    ∷ codes "/opt/"
    ∷ codes "/etc/"
    ∷ codes "/users/"
    ∷ codes "/private/"
    ∷ []

is_match : {A : Type 0} → Option A → Bool
is_match none = false
is_match (some a) = true

unfoldable pub starts_with_any : List Text → Text → Bool
unfolding is_match strip_prefix
starts_with_any [] t = false
starts_with_any (prefix ∷ prefixes) t =
    is_match (strip_prefix ◌==◌ prefix t) || starts_with_any prefixes t

unfoldable pub is_unix_path : Text → Bool
unfolding starts_with_any
is_unix_path t = starts_with_any unix_roots t

unfoldable pub ends_path : ℕ → Bool
unfolding any_of
ends_path c =
    is_whitespace c || any_of (b',' ∷ b';' ∷ b'&' ∷ b'#' ∷ b')' ∷ b']' ∷ b'}' ∷ b'"' ∷ b'\'' ∷ []) c

-- A path begins here, after the given byte.
unfoldable pub is_path_start : Option ℕ → Text → Bool
unfolding is_path_boundary is_drive_path is_unc_path is_unix_path
is_path_start previous t =
    (is_drive_path t || is_unc_path t || is_unix_path t) && is_path_boundary previous

-- The loop over the indices, from one on.
unfoldable pub path_ranges : Option ℕ → ℕ → Text → List (ℕ × ℕ)
unfolding is_path_start find_char ends_path len len_utf8
path_ranges previous index [] = []
path_ranges previous index (c ∷ t) =
    let later = path_ranges (some c) (index + len_utf8 c) t in
    if is_path_start previous (c ∷ t)
    then (index, index + len (find_char ends_path (c ∷ t)).0) ∷ later
    else later

unfoldable pub redact_sensitive_paths : Text → Option Text
unfolding path_ranges replace_ranges
redact_sensitive_paths text = replace_ranges path_redacted (path_ranges none 0 text) text
