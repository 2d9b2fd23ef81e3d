-- ===== src/Examples/Journal.antt =====
-- The theorems on src/modules/bridge/connector_journal.rs, on an operation that is applied once its
-- outcome was in doubt.
use im_bridge_rs.Common.{none, some, List, [], ◌∷◌, ◌≡◌, refl, true, str_eq, ◌&&◌, if◌then◌else◌}
use im_bridge_rs.Errors.{ok, err}
use im_bridge_rs.Journal.{
  ConnectorJournalRecord, prepared, unknown, applied, already_applied, conflict, invalid_transition,
  prepare, mark_applied, mark_failed, mark_unknown, replay,
}
use im_bridge_rs.Journal.Calls.{JournalCall, prepares, applies, fails, doubts, note, note_all}
use im_bridge_rs.Journal.Settled.{applied_stays}
use im_bridge_rs.Journal.Earned.{is_earned, already_applied_earned}

abbrev first : ConnectorJournalRecord
first = record {
  operation_id = "op";
  locator_hash = "locator";
  mutation_digest = "digest";
  status = prepared;
  before_sha256 = some "before";
  after_sha256 = none;
  before_integrity = none;
  after_integrity = none;
}

abbrev doubted : ConnectorJournalRecord
doubted = record first { status = unknown }

abbrev done : ConnectorJournalRecord
done = record first { status = applied; after_sha256 = some "after"; after_integrity = some "i" }

abbrev further : List JournalCall
further = fails "op" ∷ doubts "op" ∷ applies "op" "other" "i" ∷ []

applied_stays_example :
    (replay "op" "locator" "digest" (note_all further (("op", done) ∷ [])) ≡ ok already_applied)
    × (mark_applied "op" "after" "other" (note_all further (("op", done) ∷ [])) ≡ (
        if str_eq "after" "after" && str_eq "i" "other"
        then ok (applied, note_all further (("op", done) ∷ []))
        else err conflict))
    × (mark_failed "op" (note_all further (("op", done) ∷ [])) ≡ err invalid_transition)
    × (mark_unknown "op" (note_all further (("op", done) ∷ [])) ≡ err invalid_transition)
unfolding mark_applied
applied_stays_example =
    applied_stays "op" "after" "i" doubted (("op", doubted) ∷ []) (("op", done) ∷ []) further
      "after" "other" refl refl

abbrev history : List JournalCall
history = prepares first ∷ doubts "op" ∷ applies "op" "after" "i" ∷ further

already_applied_earned_example : is_earned "op" "locator" "digest" history ≡ true
unfolding replay note_all note prepare
already_applied_earned_example = already_applied_earned "op" "locator" "digest" history refl
