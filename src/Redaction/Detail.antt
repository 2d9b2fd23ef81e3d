-- ===== src/Redaction/Detail.antt =====
-- src/modules/bridge/redaction.rs: `redact_detail`. The outer none is a panic.
use mathlib.Core.Option.{Option, none, some, map}
use im_bridge_rs.Common.{
  Bool, true, false, List, [], ◌∷◌, ◌&&◌, ◌||◌, ◌==◌, take, is_whitespace, if◌then◌else◌,
}
use im_bridge_rs.Redaction.Str.{Text, codes, to_ascii_lowercase, find}
use im_bridge_rs.Redaction.Keys.{sensitive_keys, redact_key_value}
use im_bridge_rs.Redaction.Urls.{redact_url_userinfo}
use im_bridge_rs.Redaction.Tokens.{redact_token_like}
use im_bridge_rs.Redaction.Paths.{redact_sensitive_paths}

-- `trim().is_empty()`
unfoldable pub is_blank_text : Text → Bool
is_blank_text [] = true
is_blank_text (c ∷ t) = is_whitespace c && is_blank_text t

unfoldable pub redact_keys : List Text → Text → Option Text
unfolding redact_key_value
redact_keys [] t = some t
redact_keys (key ∷ keys) t = elim (redact_key_value t key) [
  | none ↦ none
  | some changed ↦ redact_keys keys changed
]

unfoldable pub lowered : Text → Text
unfolding to_ascii_lowercase
lowered [] = []
lowered (c ∷ t) = to_ascii_lowercase c ∷ lowered t

-- `str::contains`
unfoldable pub contains : Text → Text → Bool
unfolding find
contains t pattern = elim (find ◌==◌ pattern t) [ none ↦ false | some _ ↦ true ]

-- The words of a prompt or a chat.
unfoldable pub is_private : Text → Bool
unfolding contains
is_private t =
    contains t (codes "prompt")
    || contains t (codes "chat_metadata")
    || contains t (codes "content_original")
    || contains t (codes "\"mes\"")

unfoldable pub finish : Text → Option Text
unfolding is_private lowered is_blank_text
finish value =
    if is_private (lowered (take 300 value))
    then none
    else if is_blank_text (take 300 value)
    then none
    else some (take 300 value)

infixl 5 ◌>>=?◌
abbrev pub ◌>>=?◌ : Option Text → (Text → Option Text) → Option Text
none >>=? f = none
some t >>=? f = f t

unfoldable pub redact_detail : Text → Option (Option Text)
unfolding is_blank_text redact_keys redact_url_userinfo redact_token_like redact_sensitive_paths
    finish
redact_detail input =
    if is_blank_text input
    then some none
    else map finish (
        redact_keys sensitive_keys input
        >>=? redact_url_userinfo
        >>=? redact_token_like
        >>=? redact_sensitive_paths)
