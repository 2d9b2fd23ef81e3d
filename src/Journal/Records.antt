-- ===== src/Journal/Records.antt =====
-- src/modules/bridge/connector_journal.rs: the records of the connector's journal, and
-- `MemoryConnectorJournal`. The calls that change the journal return it.
use im_bridge_rs.Common.{
  String, Bool, true, false, not, Option, none, some, List, [], ◌∷◌, ◌||◌, ◌&&◌, str_eq,
  if◌then◌else◌,
}
use im_bridge_rs.Errors.{Result, ok, err, ok_or, ◌>>=◌, ◌>>◌, refuse_if}

pub data ConnectorJournalStatus : Type 0 where
  prepared applied failed unknown : ConnectorJournalStatus

pub record ConnectorJournalRecord : Type 0 where
  pub operation_id : String
  pub locator_hash : String
  pub mutation_digest : String
  pub status : ConnectorJournalStatus
  pub before_sha256 : Option String
  pub after_sha256 : Option String
  pub before_integrity : Option String
  pub after_integrity : Option String

pub data JournalError : Type 0 where
  duplicate_prepare invalid_transition operation_id_reused missing conflict : JournalError

-- `JournalError::as_str`
abbrev journal_error_as_str : JournalError → String
journal_error_as_str duplicate_prepare = "duplicate prepare"
journal_error_as_str invalid_transition = "invalid journal transition"
journal_error_as_str operation_id_reused = "operation id reused"
journal_error_as_str missing = "journal record missing"
journal_error_as_str conflict = "journal conflict"

pub data ReplayOutcome : Type 0 where
  already_applied : ReplayOutcome
  continues : ConnectorJournalStatus → ReplayOutcome  -- `Continue`
  failed_terminal not_found : ReplayOutcome

-- `HashMap<String, ConnectorJournalRecord>`
abbrev pub MemoryConnectorJournal : Type 0
MemoryConnectorJournal = List (String × ConnectorJournalRecord)

-- `HashMap::get`
unfoldable pub get : String → MemoryConnectorJournal → Option ConnectorJournalRecord
get id [] = none
get id ((k, r) ∷ j) = if str_eq k id then some r else get id j

-- `HashMap::insert`, and a write through `get_mut`.
unfoldable pub insert :
    String → ConnectorJournalRecord → MemoryConnectorJournal → MemoryConnectorJournal
insert id r [] = (id, r) ∷ []
insert id r ((k, s) ∷ j) = if str_eq k id then (k, r) ∷ j else (k, s) ∷ insert id r j

-- `contains_key`
abbrev pub is_noted : Option ConnectorJournalRecord → Bool
is_noted none = false
is_noted (some r) = true

-- `record.status == ConnectorJournalStatus::Prepared`
abbrev is_prepared : ConnectorJournalStatus → Bool
is_prepared prepared = true
is_prepared _ = false

-- The second guard of `prepare`.
abbrev pub is_unfit : ConnectorJournalRecord → Bool
is_unfit r = not (is_prepared r.status) || str_eq r.locator_hash "" || str_eq r.mutation_digest ""

unfoldable pub prepare :
    ConnectorJournalRecord → MemoryConnectorJournal → Result JournalError MemoryConnectorJournal
unfolding get insert
prepare r j = do
  refuse_if (is_noted (get r.operation_id j)) duplicate_prepare
  refuse_if (is_unfit r) invalid_transition
  ok (insert r.operation_id r j)

-- `option.as_deref() == Some(text)`
abbrev pub is_text : Option String → String → Bool
is_text none s = false
is_text (some t) s = str_eq t s

-- The `match record.status` of `mark_applied`.
unfoldable pub applied_from :
    String
    → String
    → String
    → MemoryConnectorJournal
    → ConnectorJournalRecord
    → ConnectorJournalStatus
    → Result JournalError (ConnectorJournalStatus × MemoryConnectorJournal)
unfolding insert
applied_from id sha integrity j r applied =
    if is_text r.after_sha256 sha && is_text r.after_integrity integrity
    then ok (applied, j)
    else err conflict
applied_from id sha integrity j r failed = err invalid_transition
applied_from id sha integrity j r _ = ok (
  applied,
  insert id
      (record r { after_sha256 = some sha; after_integrity = some integrity; status = applied }) j,
)

unfoldable pub mark_applied :
    String
    → String
    → String
    → MemoryConnectorJournal
    → Result JournalError (ConnectorJournalStatus × MemoryConnectorJournal)
unfolding get applied_from
mark_applied id sha integrity j = do
  r ← ok_or (get id j) missing
  applied_from id sha integrity j r r.status

-- The `match record.status` of `mark_failed`.
unfoldable pub failed_from :
    String
    → MemoryConnectorJournal
    → ConnectorJournalRecord
    → ConnectorJournalStatus
    → Result JournalError MemoryConnectorJournal
unfolding insert
failed_from id j r applied = err invalid_transition
failed_from id j r failed = err invalid_transition
failed_from id j r _ = ok (insert id (record r { status = failed }) j)

unfoldable pub mark_failed :
    String → MemoryConnectorJournal → Result JournalError MemoryConnectorJournal
unfolding get failed_from
mark_failed id j = do r ← ok_or (get id j) missing; failed_from id j r r.status

-- The `match record.status` of `mark_unknown`.
unfoldable pub unknown_from :
    String
    → MemoryConnectorJournal
    → ConnectorJournalRecord
    → ConnectorJournalStatus
    → Result JournalError MemoryConnectorJournal
unfolding insert
unknown_from id j r prepared = ok (insert id (record r { status = unknown }) j)
unknown_from id j r _ = err invalid_transition

unfoldable pub mark_unknown :
    String → MemoryConnectorJournal → Result JournalError MemoryConnectorJournal
unfolding get unknown_from
mark_unknown id j = do r ← ok_or (get id j) missing; unknown_from id j r r.status

-- The `match record.status` of `replay`.
abbrev pub outcome_of : ConnectorJournalStatus → ReplayOutcome
outcome_of applied = already_applied
outcome_of failed = failed_terminal
outcome_of s = continues s

unfoldable pub replay_found :
    String → String → Option ConnectorJournalRecord → Result JournalError ReplayOutcome
replay_found locator digest none = ok not_found
replay_found locator digest (some r) =
    if not (str_eq r.locator_hash locator) || not (str_eq r.mutation_digest digest)
    then err operation_id_reused
    else ok (outcome_of r.status)

unfoldable pub replay :
    String → String → String → MemoryConnectorJournal → Result JournalError ReplayOutcome
unfolding get replay_found
replay id locator digest j = replay_found locator digest (get id j)
