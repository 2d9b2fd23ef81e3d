-- ===== src/Poller/Guard.antt =====
-- src/modules/bridge/poller_ownership.rs: `PollerOwnershipGuard`, over the registry in memory.
use im_bridge_rs.Common.{
  ℕ, ℤ, String, Bool, true, false, not, Option, none, some, ◌||◌, ◌==◌, is_positive, is_blank,
  if◌then◌else◌,
}
use im_bridge_rs.Errors.{ok, err, ◌>>◌, refuse_if}
use im_bridge_rs.St.{PollerRuntimeFence}
use im_bridge_rs.Poller.Types.{
  PollerOwner, rust_bridge, legacy_plugin, owner_as_str, PollerLifecycle, starting, running,
  draining, stopped, lifecycle_invalid, PollerResult, PollerRuntimeBinding,
}
use im_bridge_rs.Poller.Registry.{
  MemoryPollerRegistry, claim_runtime, release_runtime, assert_fence, assert_can_start,
}

-- `lifecycle_state` is what its lock protects, or none if the lock is poisoned.
pub record PollerOwnershipGuard : Type 0 where
  pub numeric_bot_id : ℤ  -- i64
  pub owner : PollerOwner
  pub epoch : ℕ  -- u64
  pub internal_bot_id : String
  pub runtime_instance_id : String
  pub lifecycle : PollerLifecycle
  pub lifecycle_state : Option PollerLifecycle

-- `new_with_binding`
abbrev pub new_with_binding : ℤ → PollerOwner → PollerRuntimeBinding → PollerOwnershipGuard
new_with_binding id owner binding = record {
  numeric_bot_id = id;
  owner = owner;
  epoch = binding.epoch;
  internal_bot_id = binding.internal_bot_id;
  runtime_instance_id = binding.runtime_instance_id;
  lifecycle = binding.lifecycle;
  lifecycle_state = some binding.lifecycle;
}

-- `unwrap_or`
abbrev pub unwrap_or : Option PollerLifecycle → PollerLifecycle → PollerLifecycle
unwrap_or none l = l
unwrap_or (some l') l = l'

abbrev is_rust_bridge : PollerOwner → Bool
is_rust_bridge rust_bridge = true
is_rust_bridge legacy_plugin = false

abbrev is_running : PollerLifecycle → Bool
is_running running = true
is_running _ = false

module _ (g : PollerOwnershipGuard) where
  unfoldable pub current_lifecycle : PollerLifecycle
  current_lifecycle = unwrap_or g.lifecycle_state g.lifecycle

  -- `runtime_fence`
  unfoldable pub runtime_fence : Option PollerRuntimeFence
  unfolding current_lifecycle
  runtime_fence =
      if not (is_rust_bridge g.owner)
        || not (is_running current_lifecycle)
        || not (is_positive g.numeric_bot_id)
        || (g.epoch == 0)
        || is_blank g.internal_bot_id
        || is_blank g.runtime_instance_id
      then none
      else some (record {
        telegram_bot_id = g.numeric_bot_id;
        owner = owner_as_str g.owner;
        epoch = g.epoch;
        internal_bot_id = g.internal_bot_id;
        runtime_instance_id = g.runtime_instance_id;
      })

  unfoldable pub binding : String → PollerRuntimeBinding
  unfolding current_lifecycle
  binding supplied = record {
    internal_bot_id = if is_blank supplied then g.internal_bot_id else supplied;
    runtime_instance_id = g.runtime_instance_id;
    epoch = g.epoch;
    lifecycle = current_lifecycle;
  }

  -- `claim_runtime` of the guard
  unfoldable pub guard_claim : MemoryPollerRegistry → PollerResult MemoryPollerRegistry
  unfolding claim_runtime binding
  guard_claim r = claim_runtime r g.numeric_bot_id (binding "")

  abbrev pub is_releasable : PollerLifecycle → Bool
  is_releasable draining = true
  is_releasable stopped = true
  is_releasable _ = false

  -- `release_runtime` of the guard
  unfoldable pub guard_release : MemoryPollerRegistry → PollerResult MemoryPollerRegistry
  unfolding release_runtime current_lifecycle
  guard_release r = do
    refuse_if (not (is_releasable current_lifecycle)) lifecycle_invalid
    release_runtime r g.numeric_bot_id g.runtime_instance_id

  abbrev pub with_state : PollerLifecycle → PollerOwnershipGuard
  with_state l = record g { lifecycle_state = some l }

  unfoldable pub drained : Option PollerLifecycle → PollerResult PollerOwnershipGuard
  drained none = err lifecycle_invalid
  drained (some starting) = ok (with_state draining)
  drained (some running) = ok (with_state draining)
  drained (some draining) = ok g
  drained (some stopped) = err lifecycle_invalid

  -- `begin_draining`
  unfoldable pub begin_draining : PollerResult PollerOwnershipGuard
  unfolding drained
  begin_draining = drained g.lifecycle_state

  unfoldable pub marked : Option PollerLifecycle → PollerResult PollerOwnershipGuard
  marked none = err lifecycle_invalid
  marked (some l) = if is_releasable l then ok (with_state stopped) else err lifecycle_invalid

  -- `mark_stopped`
  unfoldable pub mark_stopped : PollerResult PollerOwnershipGuard
  unfolding marked
  mark_stopped = marked g.lifecycle_state

  unfoldable pub shared :
      PollerLifecycle → Option PollerLifecycle → PollerResult PollerOwnershipGuard
  shared l none = err lifecycle_invalid
  shared l (some old) = ok (with_state l)

  -- `set_lifecycle_shared`
  unfoldable pub set_lifecycle_shared : PollerLifecycle → PollerResult PollerOwnershipGuard
  unfolding shared
  set_lifecycle_shared l = shared l g.lifecycle_state

  -- `assert_valid`, which is `assert_generation_fence` and `assert_commit_fence` too
  unfoldable pub assert_valid : MemoryPollerRegistry → PollerResult (Unit {0})
  unfolding assert_fence binding
  assert_valid r = assert_fence r g.numeric_bot_id g.owner (binding "")

  -- `heartbeat` of the guard
  unfoldable pub guard_heartbeat : MemoryPollerRegistry → PollerResult (Unit {0})
  unfolding assert_can_start
  guard_heartbeat r = assert_can_start r g.numeric_bot_id g.owner g.epoch
