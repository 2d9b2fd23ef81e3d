-- ===== src/Examples/Recovery.antt =====
-- The theorem on src/modules/bridge/operation_recovery.rs after one commit.
use im_bridge_rs.Common.{some, refl, ◌≤◌, List, [], ◌∷◌, String, pos}
use im_bridge_rs.Errors.{ok}
use im_bridge_rs.Store.{find_operation}
use im_bridge_rs.Coordinator.Sends.{sends}
use im_bridge_rs.Coordinator.AtMostOnce.{Call, commit_call, run_calls}
use im_bridge_rs.Poller.{PollerOwnershipGuard, PollerLifecycle, PollerOwner}
use im_bridge_rs.Recovery.{recover_for_bot}
use im_bridge_rs.Recovery.AtMostOnce.{recovery_sends_at_most_once}
use im_bridge_rs.Examples.Data.{
  locator, fence, generated_row, world_of, mutation, recovering, coordinator,
}

abbrev calls : List (Call String)
calls = commit_call recovering "op" locator "sha" "integrity" mutation fence ∷ []

abbrev guard : PollerOwnershipGuard
guard = record {
  numeric_bot_id = pos 7;
  owner = PollerOwner.rust_bridge;
  epoch = 1;
  internal_bot_id = "bot";
  runtime_instance_id = "instance";
  lifecycle = PollerLifecycle.running;
  lifecycle_state = some PollerLifecycle.running;
}

recovery_sends_at_most_once_example :
    sends "op"
      (recover_for_bot recovering
        (λ e. "{}")
        coordinator
        guard
        (λ r. ok tt)
        "bot"
        "2026-01-01T00:01:00Z"
        (run_calls calls (world_of generated_row))).1.dispatched
    ≤ 1
unfolding sends find_operation
recovery_sends_at_most_once_example =
    recovery_sends_at_most_once "op" calls recovering (λ e. "{}") coordinator guard (λ r. ok tt)
      "bot" "2026-01-01T00:01:00Z" (world_of generated_row) (tt, ((tt, tt), tt)) (refl, tt) refl
