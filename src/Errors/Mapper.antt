-- ===== src/Errors/Mapper.antt =====
-- src/modules/bridge/error_mapper.rs: from what is known of a failure to the bridge error.
-- A response body is given by what the standard library and `serde_json` read in it.
use Prim.Native.Char.{code}
use im_bridge_rs.Common.{
  ℕ, ◌+◌, String, Bool, true, false, not, Option, none, some, ◌&&◌, ◌||◌, ◌==◌, leb, trim,
  if◌then◌else◌, List, [], ◌∷◌,
}
use im_bridge_rs.Errors.Codes.{
  StErrorStage, CommitState, StErrorCode, parse_stage, parse_commit_state, parse_code,
}
use im_bridge_rs.Errors.Bridge.{ErrorIds, StBridgeError, new_error}
use im_bridge_rs.Errors.Messages.{safe_message}

-- The members of `value["error"]` that are texts, or a truth value, as asked for.
pub record JsonError : Type 0 where
  pub code : Option String
  pub kind : Option String
  pub stage : Option String
  pub retryable : Option Bool
  pub commit_state : Option String

pub record Body : Type 0 where
  -- `std::str::from_utf8`
  pub text : Option String
  -- `serde_json::from_slice` and then `get("error")`
  pub error : Option JsonError

pub data StFailureFacts : Type 0 where
  connect timeout : StFailureFacts
  -- status, content_type, body
  http : ℕ → Option String → Option Body → StFailureFacts
  decode_invalid_payload decode_settings connector_unavailable connector_auth connector_version
        connector_media_type :
      StFailureFacts
  control : StErrorCode → StFailureFacts

pub record StErrorFacts : Type 0 where
  pub stage : StErrorStage
  pub endpoint_class : Option String
  pub operation_id : Option String
  pub commit_state : CommitState
  pub attempt : ℕ  -- u32
  pub duration_ms : Option ℕ  -- u64
  pub failure : StFailureFacts

unfoldable pub default_retryable : StErrorCode → Bool
default_retryable StErrorCode.st_connect_failed = true
default_retryable StErrorCode.st_request_timeout = true
default_retryable StErrorCode.st_csrf_fetch_failed = true
default_retryable StErrorCode.st_character_list_failed = true
default_retryable StErrorCode.st_chat_list_failed = true
default_retryable StErrorCode.st_generate_rate_limited = true
default_retryable StErrorCode.st_generate_upstream_5xx = true
default_retryable StErrorCode.st_generate_idle_timeout = true
default_retryable StErrorCode.st_generate_hard_timeout = true
default_retryable StErrorCode.st_generate_stream_invalid = true
default_retryable StErrorCode.st_generate_empty = true
default_retryable StErrorCode.st_connector_unavailable = true
default_retryable StErrorCode.st_chat_conflict = true
default_retryable StErrorCode.st_backup_failed = true
default_retryable StErrorCode.st_commit_failed = true
default_retryable StErrorCode.st_delivery_failed = true
default_retryable _ = false

-- `MappedExtras`, without the redacted detail.
abbrev pub Extras : Type 0
Extras = Option ℕ × Option String

-- `mapped`
unfoldable pub mapped :
    ErrorIds
    → StErrorFacts
    → StErrorCode
    → StErrorStage
    → Bool
    → CommitState
    → Extras
    → StBridgeError
unfolding new_error safe_message
mapped ids facts code stage retryable commit_state (status, upstream) =
    record (new_error ids code stage (safe_message code) retryable commit_state) {
      endpoint_class = facts.endpoint_class;
      operation_id = facts.operation_id;
      attempt = facts.attempt;
      duration_ms = facts.duration_ms;
      upstream_http_status = status;
      upstream_code = upstream;
    }

-- `mapped_plain`
unfoldable pub mapped_plain :
    ErrorIds → StErrorFacts → StErrorCode → StErrorStage → Bool → CommitState → StBridgeError
unfolding mapped
mapped_plain ids facts code stage retryable commit_state =
    mapped ids facts code stage retryable commit_state (none, none)

lower_char : ℕ → ℕ
lower_char c = if leb b'A' c && leb c b'Z' then c + 32 else c

char_codes : String → List ℕ
char_codes String.[] = []
char_codes (String.◌∷◌ c s) = code c ∷ char_codes s

-- `to_ascii_lowercase`, as code points
ascii_lower : String → List ℕ
unfolding lower_char
ascii_lower String.[] = []
ascii_lower (String.◌∷◌ c s) = lower_char (code c) ∷ ascii_lower s

is_prefix : List ℕ → List ℕ → Bool
is_prefix [] ys = true
is_prefix (x ∷ xs) [] = false
is_prefix (x ∷ xs) (y ∷ ys) = x == y && is_prefix xs ys

-- `str::contains`
contains_codes : List ℕ → List ℕ → Bool
unfolding is_prefix
contains_codes needle [] = is_prefix needle []
contains_codes needle (y ∷ ys) = is_prefix needle (y ∷ ys) || contains_codes needle ys

abbrev text_or_empty : Option String → String
text_or_empty none = ""
text_or_empty (some s) = s

-- `catalog_code`
unfoldable pub catalog_code : Option String → StErrorCode
unfolding ascii_lower contains_codes char_codes
catalog_code endpoint_class =
    if contains_codes (char_codes "chat") (ascii_lower (text_or_empty endpoint_class))
    then StErrorCode.st_chat_list_failed
    else StErrorCode.st_character_list_failed

starts_json : List ℕ → Bool
starts_json [] = false
starts_json (c ∷ cs) = c == b'{' || c == b'['

is_nil : List ℕ → Bool
is_nil [] = true
is_nil (c ∷ cs) = false

-- `is_json_body`
unfoldable pub is_json_body : Option String → Body → Bool
unfolding ascii_lower contains_codes char_codes starts_json trim is_nil
is_json_body content_type body =
    let kind = ascii_lower (text_or_empty content_type) in
    if contains_codes (char_codes "json") kind
    then true
    else if not (is_nil kind)
    then false
    else starts_json (char_codes (trim (text_or_empty body.text)))

abbrev or_else : Option String → Option String → Option String
or_else none b = b
or_else (some a) b = some a

-- `json_error_fields`, the code
error_code_of : Option JsonError → Option String
error_code_of none = none
error_code_of (some e) = or_else e.code e.kind

-- `json_upstream_code`
unfoldable pub json_upstream_code : Option String → Option Body → Option String
unfolding is_json_body error_code_of
json_upstream_code content_type none = none
json_upstream_code content_type (some body) =
    if is_json_body content_type body then error_code_of body.error else none

-- The code, stage, retryability and commit state of an HTTP failure.
abbrev pub Verdict : Type 0
Verdict = StErrorCode × StErrorStage × Bool × CommitState

abbrev is_unknown : CommitState → Bool
is_unknown CommitState.unknown = true
is_unknown _ = false

abbrev is_commit : StErrorStage → Bool
is_commit StErrorStage.commit = true
is_commit _ = false

unfoldable pub map_5xx_at : StErrorStage → StErrorFacts → Verdict
unfolding catalog_code
map_5xx_at StErrorStage.generation facts =
    (StErrorCode.st_generate_upstream_5xx, facts.stage, true, facts.commit_state)
map_5xx_at StErrorStage.commit facts = (
  StErrorCode.st_commit_failed,
  facts.stage,
  true,
  if is_unknown facts.commit_state then CommitState.unknown else CommitState.not_applied,
)
map_5xx_at StErrorStage.session facts =
    (StErrorCode.st_csrf_fetch_failed, facts.stage, true, facts.commit_state)
map_5xx_at StErrorStage.connect facts =
    (StErrorCode.st_connect_failed, StErrorStage.connect, true, facts.commit_state)
map_5xx_at _ facts = (catalog_code facts.endpoint_class, facts.stage, true, facts.commit_state)

-- `map_5xx`
unfoldable pub map_5xx : StErrorFacts → Verdict
unfolding map_5xx_at
map_5xx facts = map_5xx_at facts.stage facts

unfoldable pub map_other_4xx_at : StErrorStage → StErrorFacts → Verdict
unfolding catalog_code
map_other_4xx_at StErrorStage.generation facts =
    (StErrorCode.st_generate_rejected, facts.stage, false, facts.commit_state)
map_other_4xx_at StErrorStage.commit facts =
    (StErrorCode.st_commit_validation_failed, facts.stage, false, facts.commit_state)
map_other_4xx_at StErrorStage.session facts =
    (StErrorCode.st_csrf_missing, StErrorStage.session, false, facts.commit_state)
map_other_4xx_at StErrorStage.catalog facts =
    (catalog_code facts.endpoint_class, facts.stage, true, facts.commit_state)
map_other_4xx_at StErrorStage.snapshot facts =
    (StErrorCode.st_chat_payload_invalid, facts.stage, false, facts.commit_state)
map_other_4xx_at StErrorStage.connect facts =
    (StErrorCode.st_connect_failed, StErrorStage.connect, true, facts.commit_state)
map_other_4xx_at _ facts = (StErrorCode.st_session_rejected, facts.stage, false, facts.commit_state)

-- `map_other_4xx`
unfoldable pub map_other_4xx : StErrorFacts → Verdict
unfolding map_other_4xx_at
map_other_4xx facts = map_other_4xx_at facts.stage facts

-- The `match status` of `map_http`; the arms are tried in order.
unfoldable pub status_verdict : StErrorFacts → ℕ → Verdict
unfolding map_5xx map_other_4xx
status_verdict facts status =
    if status == 403
    then (StErrorCode.st_session_rejected, StErrorStage.session, false, facts.commit_state)
    else if status == 401
    then (StErrorCode.st_session_rejected, StErrorStage.session, false, facts.commit_state)
    else if status == 404
    then (StErrorCode.st_chat_not_found, StErrorStage.snapshot, false, facts.commit_state)
    else if status == 409 && is_commit facts.stage
    then (StErrorCode.st_chat_conflict, StErrorStage.commit, true, CommitState.not_applied)
    else if status == 413
    then (StErrorCode.st_commit_payload_too_large, StErrorStage.commit, false, facts.commit_state)
    else if status == 429
    then (StErrorCode.st_generate_rate_limited, facts.stage, true, facts.commit_state)
    else if leb 200 status && leb status 299
    then (StErrorCode.st_chat_payload_invalid, facts.stage, false, facts.commit_state)
    else if leb 500 status && leb status 599
    then map_5xx facts
    else map_other_4xx facts

abbrev pub or_default {ℓ} : {A : Type ℓ} → Option A → A → A
or_default none d = d
or_default (some a) d = a

abbrev pub and_parse : {A : Type 0} → Option String → (String → Option A) → Option A
and_parse none f = none
and_parse (some s) f = f s

abbrev pub with_code :
    Option StErrorCode → String → JsonError → ErrorIds → StErrorFacts → ℕ → Option StBridgeError
with_code none code e ids facts status = none
with_code (some parsed) code e ids facts status = some (
    mapped ids facts parsed (or_default (and_parse e.stage parse_stage) facts.stage)
      (or_default e.retryable (default_retryable parsed))
      (or_default (and_parse e.commit_state parse_commit_state) facts.commit_state)
      (some status, some code))

abbrev pub with_error : Option JsonError → ErrorIds → StErrorFacts → ℕ → Option StBridgeError
with_error none ids facts status = none
with_error (some e) ids facts status = elim e.code [
  | none ↦ none
  | some code ↦ with_code (parse_code code) code e ids facts status
]

-- `map_upstream_st_error`
unfoldable pub map_upstream_st_error :
    ErrorIds → StErrorFacts → ℕ → Option String → Option Body → Option StBridgeError
unfolding is_json_body parse_code parse_stage parse_commit_state default_retryable mapped
map_upstream_st_error ids facts status content_type none = none
map_upstream_st_error ids facts status content_type (some body) =
    if not (is_json_body content_type body) then none else with_error body.error ids facts status

-- `map_http`
unfoldable pub map_http : ErrorIds → StErrorFacts → ℕ → Option String → Option Body → StBridgeError
unfolding map_upstream_st_error status_verdict mapped json_upstream_code
map_http ids facts status content_type body =
    let extras : Extras = (some status, json_upstream_code content_type body) in
    let (code, stage, retryable, commit_state) = status_verdict facts status in
    if status == 0
    then mapped ids facts StErrorCode.st_connect_failed StErrorStage.connect true facts.commit_state
        extras
    else or_default (map_upstream_st_error ids facts status content_type body)
        (mapped ids facts code stage retryable commit_state extras)

unfoldable pub map_failure : ErrorIds → StErrorFacts → StFailureFacts → StBridgeError
unfolding mapped_plain map_http default_retryable
map_failure ids facts connect =
    mapped_plain ids facts StErrorCode.st_connect_failed StErrorStage.connect true
      facts.commit_state
map_failure ids facts timeout =
    mapped_plain ids facts StErrorCode.st_request_timeout facts.stage true facts.commit_state
map_failure ids facts (http status content_type body) = map_http ids facts status content_type body
map_failure ids facts decode_invalid_payload =
    mapped_plain ids facts StErrorCode.st_chat_payload_invalid facts.stage false facts.commit_state
map_failure ids facts decode_settings =
    mapped_plain ids facts StErrorCode.st_settings_invalid facts.stage false facts.commit_state
map_failure ids facts connector_unavailable =
    mapped_plain ids facts StErrorCode.st_connector_unavailable facts.stage true facts.commit_state
map_failure ids facts connector_auth =
    mapped_plain ids facts StErrorCode.st_connector_auth_failed facts.stage false facts.commit_state
map_failure ids facts connector_version =
    mapped_plain ids facts StErrorCode.st_connector_version_mismatch facts.stage false
      facts.commit_state
map_failure ids facts connector_media_type =
    mapped_plain ids facts StErrorCode.st_connector_media_type_rejected facts.stage false
      facts.commit_state
map_failure ids facts (control code) =
    mapped_plain ids facts code facts.stage (default_retryable code) facts.commit_state

-- `map_st_error`
unfoldable pub map_st_error : ErrorIds → StErrorFacts → StBridgeError
unfolding map_failure
map_st_error ids facts = map_failure ids facts facts.failure
