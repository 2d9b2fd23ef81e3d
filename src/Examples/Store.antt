-- ===== src/Examples/Store.antt =====
-- The theorems on src/modules/bridge/operation_store.rs at one operation's life.
use mathlib.Core.List.{Memᴰ}
use im_bridge_rs.Common.{
  ◌≡◌, refl, ◌≤◌, [], ◌∷◌, true, All, inl, ◌≢◌, some, none, ◌⊎◌, length, false, List, ◌<◌, ◌^◌, ◌↔◌,
  arith, inr, pos, is_blank, match_text,
}
use im_bridge_rs.Errors.{ok}
use im_bridge_rs.Operation.{
  parse_operation_commit_state, operation_commit_state_as_str, is_terminal, failed, received,
  OperationCommitState, BridgeOperationRecord,
}
use im_bridge_rs.Operation.Lifecycle.{progress}
use im_bridge_rs.Store.{
  LeaseRequest, LeaseRow, Statement, release_lease, Db, acquire_lease, acquired_lease, find_lease,
  candidate_rows, clamp_limit, OperationRow, find_operation, run_all, claim_operation, into_record,
  World, is_taken, run,
}
use im_bridge_rs.Store.Step.{IsConsistent, SameIdentity}
use im_bridge_rs.Store.Invariant.{
  IsLanded, empty_db, run_all-IsConsistent, find_operation-run_all, terminal-run_all,
  landed-run_all,
}
use im_bridge_rs.Store.Uniqueness.{IsKeyed, IsKeyed-run_all}
use im_bridge_rs.Store.Idempotency.{claim_once}
use im_bridge_rs.Store.ClaimMatching.{claim_operation-matches_claim}
use im_bridge_rs.Store.{matches_claim}
use im_bridge_rs.Store.LeaseExclusion.{lease_excludes}
use im_bridge_rs.Store.LeaseGenerations.{superseded_release}
use im_bridge_rs.Store.Candidates.{IsRecoverable, candidate_rows_lem}
use im_bridge_rs.Examples.Data.{
  lease_request, other_request, lease, locator, fresh_row, generated_row, committed_row, db_of,
  first_steps, late_steps, empty_world, request, start_time, turns,
}

run_all-IsConsistent_example : All IsConsistent (run_all first_steps empty_db).operations
run_all-IsConsistent_example = run_all-IsConsistent first_steps ((refl, refl), (refl, (refl, tt)))

find_operation-run_all_example :
    (t : OperationRow) × (find_operation "op" (run_all late_steps (db_of generated_row)).operations
      ≡ some t)
    × SameIdentity generated_row t
    × (progress generated_row.status ≤ progress t.status)
unfolding find_operation
find_operation-run_all_example =
    find_operation-run_all late_steps (db_of generated_row) "op" generated_row
      (tt, (refl, (refl, tt))) refl

abbrev failed_row : OperationRow
failed_row = record generated_row { status = failed }

terminal-run_all_example :
    find_operation "op" (run_all late_steps (db_of failed_row)).operations ≡ some failed_row
unfolding find_operation is_terminal
terminal-run_all_example =
    terminal-run_all late_steps (db_of failed_row) "op" failed_row (tt, (refl, (refl, tt))) refl
      refl

landed-run_all_example :
    (t : OperationRow) × (find_operation "op" (run_all late_steps (db_of committed_row)).operations
      ≡ some t)
    × IsLanded t
    × (t.connector_result_json ≡ some "{}")
unfolding find_operation
landed-run_all_example =
    landed-run_all late_steps (db_of committed_row) "op" committed_row (tt, (refl, (refl, tt))) refl
      (inl refl, refl)

IsKeyed-run_all_example : IsKeyed (run_all first_steps empty_db).operations
IsKeyed-run_all_example = IsKeyed-run_all first_steps empty_db ((refl, refl), (refl, (refl, tt))) tt

-- The record that the claim on an empty table returns.
abbrev granted : BridgeOperationRecord
granted = record {
  id = "op";
  actor_id = "actor";
  bot_id = "bot";
  telegram_update_id = pos 5;
  channel_context_key = "context";
  operation_kind = "send";
  locator = record locator { character_name = "" };
  status = received;
  commit_state = OperationCommitState.not_started;
  source_sha256 = none;
  source_integrity = none;
  source_size = none;
  message_count = none;
  mutation_digest = none;
  payload = none;
  connector_result_json = none;
  error_stage = none;
  error_code = none;
  error_summary = none;
  retryable = false;
  attempt_count = 1;
  request_id = "request";
  trace_id = "trace";
  created_at = start_time;
  updated_at = start_time;
}

abbrev claimed_world : World
claimed_world = (claim_operation request "new" start_time empty_world).1

claim_once_example :
    (claim_operation request "other" start_time
      (record claimed_world { db = run_all late_steps claimed_world.db; turns = turns })).0
    ≢ ok granted
unfolding claim_operation is_taken find_operation run is_blank into_record match_text
    parse_operation_commit_state operation_commit_state_as_str
claim_once_example =
    claim_once request request "new" start_time "other" start_time empty_world granted granted
      late_steps turns (refl, refl, refl) tt refl (tt, (refl, (refl, tt))) (tt, ((tt, tt), tt))

abbrev leased_db : Db
leased_db = run (acquire_lease lease_request) (db_of generated_row)

lease_excludes_example :
    let db' = run_all late_steps leased_db in
    (find_lease "op" db'.leases ≡ some lease) × (acquired_lease other_request db' ≡ none)
unfolding acquired_lease
lease_excludes_example =
    lease_excludes lease_request other_request (db_of generated_row) lease late_steps refl
      (tt, (tt, (tt, tt))) refl (λ e. cc e) refl

abbrev late_request : LeaseRequest
late_request = record other_request {
  now = "2026-01-01T00:02:00Z";
  lease_until = "2026-01-01T00:03:00Z";
}

abbrev late_lease : LeaseRow
late_lease = record {
  operation_id = "op";
  instance_id = "other";
  lease_generation = 3;
  lease_until = "2026-01-01T00:03:00Z";
}

-- The holder renews its lease, which then ends.
abbrev renewal : List Statement
renewal = acquire_lease lease_request ∷ release_lease "op" "earlier" 0 ∷ []

superseded_release_example :
    let db' = run_all renewal leased_db in
    (lease.lease_generation < late_lease.lease_generation)
    × (late_lease.lease_generation < 2 ^ 63)
    × (find_lease "op"
          (run (release_lease "op" "instance" 1) (run (acquire_lease late_request) db')).leases
        ≡ some late_lease)
unfolding acquired_lease find_lease run run_all
superseded_release_example =
    superseded_release lease_request late_request (db_of generated_row) lease late_lease renewal
      "instance" 1 refl (tt, (inr (omega arith), tt)) refl refl (omega arith)

candidate_rows_lem_example :
    let rows = generated_row ∷ fresh_row ∷ [] in
    All (λ r. Memᴰ r rows × IsRecoverable "bot" r) (candidate_rows "bot" 128 rows)
    × (length (candidate_rows "bot" 128 rows) ≤ clamp_limit 128)
    × (1 ≤ clamp_limit 128)
    × (clamp_limit 128 ≤ 256)
    × ((clamp_limit 128 ≤ 128) ⊎ (clamp_limit 128 ≡ 1))
    × ((length (candidate_rows "bot" 128 rows) ≡ clamp_limit 128)
        ⊎ All (λ r. IsRecoverable "bot" r ↔ Memᴰ r (candidate_rows "bot" 128 rows)) rows)
candidate_rows_lem_example = candidate_rows_lem "bot" 128 (generated_row ∷ fresh_row ∷ [])

claim_operation-matches_claim_example : matches_claim granted request ≡ true
unfolding claim_operation is_taken find_operation run is_blank into_record match_text
    parse_operation_commit_state operation_commit_state_as_str
claim_operation-matches_claim_example =
    claim_operation-matches_claim request "new" start_time empty_world granted tt refl
